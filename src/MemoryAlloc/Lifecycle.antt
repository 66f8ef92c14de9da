-- ===== src/MemoryAlloc/Lifecycle.antt =====
-- Loading and unloading the module of 09_memory_alloc/memory_alloc.c.
use linux_driver_development.Base.{[], arith, neg, pos, some, ◌∷◌, ◌≡◌, ◌⊎◌}
use linux_driver_development.Kernel.{
  Os, enomem, kmalloc_area, kzalloc_area, ledger, slab_cache, slab_object, vmalloc_area,
}
use linux_driver_development.MemoryAlloc.{my_exit, my_init}

-- Whichever of the five allocations fails, `my_init` returns -ENOMEM and has freed what it had; if
-- none fails it returns 0 and holds all five, and `my_exit` frees them, the object before its cache.
pub memory_alloc_lifecycle :
    (os : Os)
    → (((my_init os).0 ≡ neg (pos enomem)) × (ledger (my_init os).1 ≡ some []))
      ⊎ ((my_init os).0 ≡ pos 0)
        × (ledger (my_init os).1
            ≡ some (slab_object ∷ slab_cache ∷ vmalloc_area ∷ kzalloc_area ∷ kmalloc_area ∷ []))
        × (ledger (my_exit (my_init os).1) ≡ some [])
unfolding my_init my_exit ledger
memory_alloc_lifecycle os = ground arith

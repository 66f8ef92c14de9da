-- ===== src/MemoryAlloc.antt =====
-- 09_memory_alloc/memory_alloc.c: five allocations of different kinds, undone in `my_exit` or, where
-- one fails, by labels that fall through to one another.
pub mod Lifecycle
mod Tests
use linux_driver_development.Base.{[], if◌then◌else◌, neg, not, pos, ℤ, ◌∷◌}
use linux_driver_development.Kernel.{
  Log, Os, acquire, acquire_on, enomem, kmalloc_area, kzalloc_area, release, release_on, slab_cache,
  slab_object, vmalloc_area,
}

label_kmalloc_ptr_free : Log → ℤ × Log
label_kmalloc_ptr_free log = (neg (pos enomem), release kmalloc_area ∷ log)

label_kzalloc_ptr_free : Log → ℤ × Log
unfolding label_kmalloc_ptr_free
label_kzalloc_ptr_free log = label_kmalloc_ptr_free (release kzalloc_area ∷ log)

label_vmalloc_ptr_free : Log → ℤ × Log
unfolding label_kzalloc_ptr_free
label_vmalloc_ptr_free log = label_kzalloc_ptr_free (release vmalloc_area ∷ log)

label_kmem_cache_free : Log → ℤ × Log
unfolding label_vmalloc_ptr_free
label_kmem_cache_free log = label_vmalloc_ptr_free (release slab_cache ∷ log)

-- The part of `my_init` from vmalloc on.
allocate_large : Os → Log → ℤ × Log
unfolding label_kmem_cache_free
allocate_large os log =
    if not (os.alloc vmalloc_area)
    then label_kzalloc_ptr_free log
    else (let log1 = acquire vmalloc_area ∷ log in
        if not (os.alloc slab_cache)
        then label_vmalloc_ptr_free log1
        else (let log2 = acquire slab_cache ∷ log1 in
            if not (os.alloc slab_object)
            then label_kmem_cache_free log2
            else (pos 0, acquire_on slab_cache slab_object ∷ log2)))

unfoldable pub my_init : Os → ℤ × Log
unfolding allocate_large
my_init os =
    if not (os.alloc kmalloc_area)
    then (neg (pos enomem), [])
    else (let log1 = acquire kmalloc_area ∷ [] in
        if not (os.alloc kzalloc_area)
        then label_kmalloc_ptr_free log1
        else allocate_large os (acquire kzalloc_area ∷ log1))

-- The object goes back to its cache before the cache is destroyed.
unfoldable pub my_exit : Log → Log
my_exit log =
    release slab_cache
    ∷ release_on slab_cache slab_object
    ∷ release vmalloc_area
    ∷ release kzalloc_area
    ∷ release kmalloc_area
    ∷ log

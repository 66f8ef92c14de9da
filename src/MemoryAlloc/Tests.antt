-- ===== src/MemoryAlloc/Tests.antt =====
-- Runs of 09_memory_alloc/memory_alloc.c.
use linux_driver_development.Base.{[], refl, some, ◌≡◌}
use linux_driver_development.Kernel.{ledger, willing}
use linux_driver_development.MemoryAlloc.{my_exit, my_init}

loads : ledger (my_exit (my_init willing).1) ≡ some []
unfolding my_init my_exit ledger
loads = refl

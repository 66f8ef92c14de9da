-- ===== src/Loader/Tests.antt =====
-- Modules loaded and unloaded at concrete answers of the kernel.
use linux_driver_development.Base.{
  List, [], arith, if◌then◌else◌, inl, negsuc, false, refl, some, true, ◌∷◌, ◌≡◌,
}
use linux_driver_development.Kernel.{Os, buffer, ledger, willing}
use linux_driver_development.Loader.{Event, booted, insmod, rmmod, run}
use linux_driver_development.Loader.Leaks.{cycles, file_ops, file_ops_leaks_each_time}
use linux_driver_development.Loader.Clean.{driver_life}
use linux_driver_development.Loader.Course.{Documented, memory_alloc, module_of}
use linux_driver_development.MemoryAlloc

-- Nothing can be allocated.
abbrev no_memory : Os
no_memory = record willing { alloc = λ r. false }

abbrev no_cdev : Os
no_cdev = record willing { cdev_add = negsuc 11 }

willing-Documented : Documented willing
willing-Documented = record {
  region_told = λ h. ground (arith, h);
  cdev_told = λ h. ground (arith, h);
  direction_told = λ h. ground (arith, h);
  irq_told = λ h. ground (arith, h);
  threads = λ r. inl refl;
}

no_memory-Documented : Documented no_memory
no_memory-Documented = record {
  region_told = λ h. ground (arith, h);
  cdev_told = λ h. ground (arith, h);
  direction_told = λ h. ground (arith, h);
  irq_told = λ h. ground (arith, h);
  threads = λ r. inl refl;
}

no_cdev-Documented : Documented no_cdev
no_cdev-Documented = record {
  region_told = λ h. ground (arith, h);
  cdev_told = λ h. refl;
  direction_told = λ h. ground (arith, h);
  irq_told = λ h. ground (arith, h);
  threads = λ r. inl refl;
}

-- rmmod without a module, a load that fails, one that succeeds, a second one in vain, an unload and a load.
abbrev events : List Event
events = rmmod ∷ insmod no_memory ∷ insmod willing ∷ insmod willing ∷ rmmod ∷ insmod willing ∷ []

driver_life_example :
    let s = run (module_of memory_alloc) events booted in
    ledger s.log ≡ some (if s.loaded then (module_of memory_alloc).resources else [])
driver_life_example = driver_life memory_alloc events (
  (no_memory-Documented, tt),
  ((willing-Documented, tt), ((willing-Documented, tt), ((willing-Documented, tt), tt))),
)

loaded_at_the_end : (run (module_of memory_alloc) events booted).loaded ≡ true
unfolding run MemoryAlloc.my_init MemoryAlloc.my_exit
loaded_at_the_end = refl

file_ops_leaks_each_time_example :
    ledger (run file_ops (cycles (willing ∷ no_cdev ∷ [])) booted).log ≡ some (buffer ∷ buffer ∷ [])
file_ops_leaks_each_time_example =
    file_ops_leaks_each_time (willing ∷ no_cdev ∷ [])
      ((refl, refl, refl, willing-Documented), ((refl, refl, refl, no_cdev-Documented), tt))

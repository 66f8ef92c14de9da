-- ===== src/Loader/Leaks.antt =====
-- The module of 07_file_cdev_fops/01_file_ops/my_cdev.c, loaded and unloaded again and again.
use linux_driver_development.Base.{
  List, [], ap, arith, false, length, refl, replicate, some, suc, true, ℕ, ◌+◌, ◌∙◌, ◌∷◌, ◌≡◌,
}
use linux_driver_development.Kernel.{Os, Resource, buffer, ledger, valid}
use linux_driver_development.Registration.{registered}
use linux_driver_development.Loader.{Event, Module, System, booted, insmod, rmmod, run}
use linux_driver_development.Loader.Course.{Documented}
use linux_driver_development.FileOps

abbrev pub file_ops : Module
file_ops = record {
  my_init = FileOps.my_init;
  my_exit = FileOps.my_exit;
  resources = registered (buffer ∷ []);
}

-- The buffer is allocated and the class and the device are made; another call may fail, as documented.
abbrev pub Allocates : Os → Type 0
Allocates os =
    (os.alloc buffer ≡ true)
    × (os.class_create ≡ valid)
    × (os.device_create ≡ valid)
    × Documented os

-- insmod and rmmod once for each of the kernel's answers.
abbrev pub cycles : List Os → List Event
cycles [] = []
cycles (os ∷ later) = insmod os ∷ rmmod ∷ cycles later

abbrev pub AllAllocate : List Os → Type 0
AllAllocate [] = Unit
AllAllocate (os ∷ later) = Allocates os × AllAllocate later

-- One more buffer behind a cycle.
one_cycle :
    (os : Os) (s : System) {held : List Resource}
    → Allocates os
    → s.loaded ≡ false
    → ledger s.log ≡ some held
    → let s' = run file_ops (insmod os ∷ rmmod ∷ []) s in
      (s'.loaded ≡ false) × (ledger s'.log ≡ some (buffer ∷ held))
unfolding run FileOps.my_init FileOps.my_exit ledger
one_cycle os s f out h = ground (arith, f.0, f.1, f.2, f.3.region_told, f.3.cdev_told, out, h)

leaks_from :
    (answers : List Os) (s : System) (n : ℕ)
    → AllAllocate answers
    → s.loaded ≡ false
    → ledger s.log ≡ some (replicate n buffer)
    → let s' = run file_ops (cycles answers) s in
      (s'.loaded ≡ false) × (ledger s'.log ≡ some (replicate (n + length answers) buffer))
unfolding run
leaks_from [] s n f out h = (out, h ∙ ap (λ k. some (replicate k buffer)) (omega arith))
leaks_from (os ∷ later) s n f out h =
    let s' = run file_ops (insmod os ∷ rmmod ∷ []) s in
    let (out', held) = one_cycle os s f.0 out h in
    let (still, total) = leaks_from later s' (suc n) f.1 out' held in
    (still, total ∙ ap (λ k. some (replicate k buffer)) (omega arith))

-- Where the buffer can be allocated and the class and the device can be made, and the other calls fail
-- only as they document, every insmod followed by rmmod leaves one more buffer allocated that nobody frees,
-- whether the load succeeds or fails at the device numbers or at cdev_add: n of them leave n buffers.
pub file_ops_leaks_each_time :
    (answers : List Os)
    → AllAllocate answers
    → ledger (run file_ops (cycles answers) booted).log ≡ some (replicate (length answers) buffer)
unfolding ledger
file_ops_leaks_each_time answers f =
    (leaks_from answers booted 0 f refl refl).1 ∙ ap (λ k. some (replicate k buffer)) (omega arith)

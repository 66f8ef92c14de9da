-- ===== src/Loader/Course.antt =====
-- Thirteen drivers as modules, and what each needs of the kernel.
use linux_driver_development.Base.{[], is_neg, nonzero, pos, true, ℤ, ◌∷◌, ◌≡◌}
use linux_driver_development.Kernel.{
  Os, button_pin, irq_line, kmalloc_area, kzalloc_area, region, slab_cache, slab_object, thread_1,
  thread_2, valid, vmalloc_area,
}
use linux_driver_development.Registration.{registered}
use linux_driver_development.Loader.{Module}
use linux_driver_development.Threads.{Answers}
use linux_driver_development.FirstCdev
use linux_driver_development.PrivateData
use linux_driver_development.Ioctl
use linux_driver_development.MemoryAlloc
use linux_driver_development.Kthread
use linux_driver_development.MutexThreads
use linux_driver_development.Completion
use linux_driver_development.CompletionExercises
use linux_driver_development.BusyWait
use linux_driver_development.WaitQueue
use linux_driver_development.PollSelect
use linux_driver_development.Fasync
use linux_driver_development.OldCdev

pub data Driver : Type 0 where
  first_cdev old_cdev private_data ioctl memory_alloc kthread mutex_threads : Driver
  completion completion_exercise busy_wait wait_queue poll_select fasync : Driver

-- A status is 0 or negative.
abbrev Told : ℤ → Type 0
Told status = nonzero status ≡ true → is_neg status ≡ true

-- What the kernel documents of its calls.
pub record Documented (os : Os) : Type 0 where
  pub region_told : Told os.alloc_chrdev_region
  pub cdev_told : Told os.cdev_add
  pub direction_told : Told (os.gpio_direction button_pin)
  pub irq_told : Told os.request_irq
  pub threads : Answers os

-- The class and the device can be made.
abbrev ClassWorks : Os → Type 0
ClassWorks os = (os.class_create ≡ valid) × (os.device_create ≡ valid)

-- The button's pin and its interrupt line can be had.
abbrev ButtonWorks : Os → Type 0
ButtonWorks os =
    (os.gpio_request button_pin ≡ pos 0)
    × (os.gpio_to_desc button_pin ≡ true)
    × (os.gpio_direction button_pin ≡ pos 0)
    × (os.request_irq ≡ pos 0)

-- Beside what the kernel documents.
abbrev pub Needs : Driver → Os → Type 0
Needs first_cdev os = ClassWorks os
Needs old_cdev os = Unit
Needs private_data os = ClassWorks os
Needs ioctl os = ClassWorks os
Needs memory_alloc os = Unit
Needs kthread os = Unit
Needs mutex_threads os = Unit
Needs completion os = os.kthread_run thread_2 ≡ valid
Needs completion_exercise os = Unit
Needs busy_wait os = ClassWorks os × ButtonWorks os
Needs wait_queue os = ClassWorks os × ButtonWorks os
Needs poll_select os = ClassWorks os × ButtonWorks os
Needs fasync os = ClassWorks os × ButtonWorks os

abbrev pub Fine : Driver → Os → Type 0
Fine d os = Documented os × Needs d os

abbrev pub module_of : Driver → Module
module_of first_cdev = record {
  my_init = FirstCdev.my_init;
  my_exit = FirstCdev.my_exit;
  resources = registered [];
}
module_of old_cdev = record {
  my_init = λ os. OldCdev.my_init os.alloc_chrdev_region;
  my_exit = OldCdev.my_exit;
  resources = region ∷ [];
}
module_of private_data = record {
  my_init = PrivateData.my_init;
  my_exit = PrivateData.my_exit;
  resources = registered [];
}
module_of ioctl = record {
  my_init = Ioctl.my_init;
  my_exit = Ioctl.my_exit;
  resources = registered [];
}
module_of memory_alloc = record {
  my_init = MemoryAlloc.my_init;
  my_exit = MemoryAlloc.my_exit;
  resources = slab_object ∷ slab_cache ∷ vmalloc_area ∷ kzalloc_area ∷ kmalloc_area ∷ [];
}
module_of kthread = record {
  my_init = Kthread.my_init;
  my_exit = Kthread.my_exit;
  resources = thread_2 ∷ thread_1 ∷ [];
}
module_of mutex_threads = record {
  my_init = MutexThreads.my_init;
  my_exit = MutexThreads.my_exit;
  resources = thread_2 ∷ thread_1 ∷ [];
}
module_of completion = record {
  my_init = Completion.my_init;
  my_exit = Completion.my_exit;
  resources = thread_2 ∷ thread_1 ∷ irq_line ∷ [];
}
module_of completion_exercise = record {
  my_init = CompletionExercises.my_init;
  my_exit = CompletionExercises.my_exit;
  resources = thread_1 ∷ irq_line ∷ [];
}
module_of busy_wait = record {
  my_init = BusyWait.my_init;
  my_exit = BusyWait.my_exit;
  resources = irq_line ∷ registered [];
}
module_of wait_queue = record {
  my_init = WaitQueue.my_init;
  my_exit = WaitQueue.my_exit;
  resources = irq_line ∷ registered [];
}
module_of poll_select = record {
  my_init = PollSelect.my_init;
  my_exit = PollSelect.my_exit;
  resources = irq_line ∷ button_pin ∷ registered [];
}
module_of fasync = record {
  my_init = Fasync.my_init;
  my_exit = Fasync.my_exit;
  resources = irq_line ∷ button_pin ∷ registered [];
}

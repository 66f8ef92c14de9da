-- ===== src/Loader/Clean.antt =====
-- The drivers of Loader/Course are clean modules.
use linux_driver_development.Base.{List, [], arith, if◌then◌else◌, refl, some, ◌≡◌}
use linux_driver_development.Kernel.{ledger, thread_1, thread_2}
use linux_driver_development.Loader.{AllFine, Event, IsClean, booted, run}
use linux_driver_development.Loader.Course.{
  Driver, Fine, busy_wait, completion, completion_exercise, fasync, first_cdev, ioctl, kthread,
  memory_alloc, module_of, mutex_threads, old_cdev, poll_select, private_data, wait_queue,
}
use linux_driver_development.Loader.Life.{run-ledger}
use linux_driver_development.FirstCdev
use linux_driver_development.PrivateData
use linux_driver_development.MemoryAlloc
use linux_driver_development.Kthread
use linux_driver_development.MutexThreads
use linux_driver_development.Completion
use linux_driver_development.CompletionExercises
use linux_driver_development.BusyWait
use linux_driver_development.WaitQueue
use linux_driver_development.PollSelect
use linux_driver_development.Fasync
use linux_driver_development.OldCdev

first_cdev-IsClean : IsClean (module_of first_cdev) (Fine first_cdev)
unfolding FirstCdev.my_init FirstCdev.my_exit ledger
first_cdev-IsClean = record {
  my_init-Settles = λ os f. ground (arith, f.0.region_told, f.0.cdev_told, f.1.0, f.1.1);
  is_neg-my_init = λ os f h. ground (arith, f.0.region_told, f.0.cdev_told, f.1.0, f.1.1, h);
  ledger-my_exit = λ os f h. ground (arith, f.0.region_told, f.0.cdev_told, f.1.0, f.1.1, h);
  my_exit-append = λ new old. refl;
}

old_cdev-IsClean : IsClean (module_of old_cdev) (Fine old_cdev)
unfolding OldCdev.my_init OldCdev.my_exit ledger
old_cdev-IsClean = record {
  my_init-Settles = λ os f. ground (arith, f.0.region_told);
  is_neg-my_init = λ os f h. ground (arith, f.0.region_told, h);
  ledger-my_exit = λ os f h. ground (arith, f.0.region_told, h);
  my_exit-append = λ new old. refl;
}

private_data-IsClean : IsClean (module_of private_data) (Fine private_data)
unfolding PrivateData.my_init PrivateData.my_exit ledger
private_data-IsClean = record {
  my_init-Settles = λ os f. ground (arith, f.0.region_told, f.0.cdev_told, f.1.0, f.1.1);
  is_neg-my_init = λ os f h. ground (arith, f.0.region_told, f.0.cdev_told, f.1.0, f.1.1, h);
  ledger-my_exit = λ os f h. ground (arith, f.0.region_told, f.0.cdev_told, f.1.0, f.1.1, h);
  my_exit-append = λ new old. refl;
}

memory_alloc-IsClean : IsClean (module_of memory_alloc) (Fine memory_alloc)
unfolding MemoryAlloc.my_init MemoryAlloc.my_exit ledger
memory_alloc-IsClean = record {
  my_init-Settles = λ os f. ground (arith);
  is_neg-my_init = λ os f h. ground (arith, h);
  ledger-my_exit = λ os f h. ground (arith, h);
  my_exit-append = λ new old. refl;
}

kthread-IsClean : IsClean (module_of kthread) (Fine kthread)
unfolding Kthread.my_init Kthread.my_exit ledger
kthread-IsClean = record {
  my_init-Settles = λ os f. ground (arith, f.0.threads thread_1, f.0.threads thread_2);
  is_neg-my_init = λ os f h. ground (arith, f.0.threads thread_1, f.0.threads thread_2, h);
  ledger-my_exit = λ os f h. ground (arith, f.0.threads thread_1, f.0.threads thread_2, h);
  my_exit-append = λ new old. refl;
}

mutex_threads-IsClean : IsClean (module_of mutex_threads) (Fine mutex_threads)
unfolding MutexThreads.my_init MutexThreads.my_exit ledger
mutex_threads-IsClean = record {
  my_init-Settles = λ os f. ground (arith, f.0.threads thread_1, f.0.threads thread_2);
  is_neg-my_init = λ os f h. ground (arith, f.0.threads thread_1, f.0.threads thread_2, h);
  ledger-my_exit = λ os f h. ground (arith, f.0.threads thread_1, f.0.threads thread_2, h);
  my_exit-append = λ new old. refl;
}

completion-IsClean : IsClean (module_of completion) (Fine completion)
unfolding Completion.my_init Completion.my_exit ledger
completion-IsClean = record {
  my_init-Settles =
      λ os f. ground (arith, f.0.direction_told, f.0.irq_told, f.0.threads thread_1, f.1);
  is_neg-my_init =
      λ os f h. ground (arith, f.0.direction_told, f.0.irq_told, f.0.threads thread_1, f.1, h);
  ledger-my_exit =
      λ os f h. ground (arith, f.0.direction_told, f.0.irq_told, f.0.threads thread_1, f.1, h);
  my_exit-append = λ new old. refl;
}

completion_exercise-IsClean : IsClean (module_of completion_exercise) (Fine completion_exercise)
unfolding CompletionExercises.my_init CompletionExercises.my_exit ledger
completion_exercise-IsClean = record {
  my_init-Settles = λ os f. ground (arith, f.0.direction_told, f.0.irq_told, f.0.threads thread_1);
  is_neg-my_init =
      λ os f h. ground (arith, f.0.direction_told, f.0.irq_told, f.0.threads thread_1, h);
  ledger-my_exit =
      λ os f h. ground (arith, f.0.direction_told, f.0.irq_told, f.0.threads thread_1, h);
  my_exit-append = λ new old. refl;
}

busy_wait-IsClean : IsClean (module_of busy_wait) (Fine busy_wait)
unfolding BusyWait.my_init BusyWait.my_exit ledger
busy_wait-IsClean = record {
  my_init-Settles = λ os f.
      ground (arith, f.0.region_told, f.0.cdev_told, f.1.0.0, f.1.0.1, f.1.1.1, f.1.1.2, f.1.1.3);
  is_neg-my_init = λ os f h.
      ground
        (arith, f.0.region_told, f.0.cdev_told, f.1.0.0, f.1.0.1, f.1.1.1, f.1.1.2, f.1.1.3, h);
  ledger-my_exit = λ os f h.
      ground
        (arith, f.0.region_told, f.0.cdev_told, f.1.0.0, f.1.0.1, f.1.1.1, f.1.1.2, f.1.1.3, h);
  my_exit-append = λ new old. refl;
}

wait_queue-IsClean : IsClean (module_of wait_queue) (Fine wait_queue)
unfolding WaitQueue.my_init WaitQueue.my_exit ledger
wait_queue-IsClean = record {
  my_init-Settles = λ os f.
      ground (arith, f.0.region_told, f.0.cdev_told, f.1.0.0, f.1.0.1, f.1.1.1, f.1.1.2, f.1.1.3);
  is_neg-my_init = λ os f h.
      ground
        (arith, f.0.region_told, f.0.cdev_told, f.1.0.0, f.1.0.1, f.1.1.1, f.1.1.2, f.1.1.3, h);
  ledger-my_exit = λ os f h.
      ground
        (arith, f.0.region_told, f.0.cdev_told, f.1.0.0, f.1.0.1, f.1.1.1, f.1.1.2, f.1.1.3, h);
  my_exit-append = λ new old. refl;
}

poll_select-IsClean : IsClean (module_of poll_select) (Fine poll_select)
unfolding PollSelect.my_init PollSelect.my_exit ledger
poll_select-IsClean = record {
  my_init-Settles = λ os f.
      ground (arith, f.0.region_told, f.0.cdev_told, f.1.0.0, f.1.0.1, f.1.1.0, f.1.1.2, f.1.1.3);
  is_neg-my_init = λ os f h.
      ground
        (arith, f.0.region_told, f.0.cdev_told, f.1.0.0, f.1.0.1, f.1.1.0, f.1.1.2, f.1.1.3, h);
  ledger-my_exit = λ os f h.
      ground
        (arith, f.0.region_told, f.0.cdev_told, f.1.0.0, f.1.0.1, f.1.1.0, f.1.1.2, f.1.1.3, h);
  my_exit-append = λ new old. refl;
}

fasync-IsClean : IsClean (module_of fasync) (Fine fasync)
unfolding Fasync.my_init Fasync.my_exit ledger
fasync-IsClean = record {
  my_init-Settles = λ os f.
      ground (arith, f.0.region_told, f.0.cdev_told, f.1.0.0, f.1.0.1, f.1.1.0, f.1.1.2, f.1.1.3);
  is_neg-my_init = λ os f h.
      ground
        (arith, f.0.region_told, f.0.cdev_told, f.1.0.0, f.1.0.1, f.1.1.0, f.1.1.2, f.1.1.3, h);
  ledger-my_exit = λ os f h.
      ground
        (arith, f.0.region_told, f.0.cdev_told, f.1.0.0, f.1.0.1, f.1.1.0, f.1.1.2, f.1.1.3, h);
  my_exit-append = λ new old. refl;
}

pub module_of-IsClean : (d : Driver) → IsClean (module_of d) (Fine d)
module_of-IsClean first_cdev = first_cdev-IsClean
module_of-IsClean old_cdev = old_cdev-IsClean
module_of-IsClean private_data = private_data-IsClean
module_of-IsClean ioctl = private_data-IsClean
module_of-IsClean memory_alloc = memory_alloc-IsClean
module_of-IsClean kthread = kthread-IsClean
module_of-IsClean mutex_threads = mutex_threads-IsClean
module_of-IsClean completion = completion-IsClean
module_of-IsClean completion_exercise = completion_exercise-IsClean
module_of-IsClean busy_wait = busy_wait-IsClean
module_of-IsClean wait_queue = wait_queue-IsClean
module_of-IsClean poll_select = poll_select-IsClean
module_of-IsClean fasync = fasync-IsClean

-- Each of these thirteen drivers, loaded and unloaded any number of times: the kernel's calls fail only
-- as they document, the drivers that make a class and a device can make both, those with a button
-- and a character device get the button's pin and its interrupt, and my_completion.c can start its second
-- thread; any other call may fail. Then no call uses or gives back what is not held, an object, a device
-- and a cdev are given back while their cache, their class and their device numbers are still held;
-- while the module is loaded it holds exactly its resources, and while it is not it holds
-- nothing, however many loads of it have failed.
pub driver_life :
    (d : Driver) (es : List Event)
    → AllFine (Fine d) es
    → let s = run (module_of d) es booted in
      ledger s.log ≡ some (if s.loaded then (module_of d).resources else [])
driver_life d es f = run-ledger (module_of-IsClean d) es f

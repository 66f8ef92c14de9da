-- ===== src/Lib.antt =====
-- The drivers of the course "Linux driver development with Raspberry Pi", and what makes them correct.
--
-- Each folder of the repository holds a kernel module of its own, written in C. A module is loaded by
-- `my_init`, which takes resources of the kernel in a fixed order and undoes them by `goto` labels on
-- an error, and unloaded by `my_exit`; in between the kernel calls its file operations, interrupt
-- service routines, timer callbacks and thread functions. The modules do not call one another; what
-- they share is the pattern, and the model has each pattern once.
--
-- Shared parts
--   Base          lists, words and signed 32-bit numbers over the native ℕ. Base/Word has wrap-around,
--                 shifts and C's division; Base/Bits has the bitwise or.
--   Kernel        what the drivers use of the kernel. `Os` is a record of the answers of the kernel's
--                 calls, a parameter of every `my_init`. Kernel/Ledger replays the calls that a driver
--                 made on a list of what it holds: `none` is a use or a release of what is not held, or
--                 that is given back behind what it came from.
--                 Kernel/Usercopy has the copies between kernel and user space, which may stop early:
--                 how much they leave is a parameter, bounded as documented.
--   Registration  device numbers, cdev, class and device, with the labels as functions that fall
--                 through: 06_character_device_driver/01_my_first_cdev/my_cdev.c.
--   ButtonIrq     `external_gpio_irq_setup` in its two versions.
--   Threads       two kernel threads started and stopped.
--   Numerals      the texts of numbers, as printf writes and strtoll, atoi and sscanf read them.
--                 Printing runs on fuel, one unit for a digit, and a number's successor is enough.
--   Loader        the interface between the kernel's loader and a driver: `my_init`, `my_exit` and what
--                 the driver holds, with the laws of a clean module. Loader/Life is any sequence of insmod
--                 and rmmod over the interface, Loader/Course has thirteen drivers and what each needs,
--                 Loader/Clean that they keep the laws, Loader/Leaks a driver that does not.
--
-- Drivers: `my_init`, `my_exit`, `my_read` and the other functions keep their names, each in the module
-- of its driver. Memory, flags and counters are fields of a record that is passed on.
--   FirstModule   05_first_kernel_module/01_hello/hello.c and 02_log_levels/log_levels.c. How the kernel
--                 sets the array parameter is a parameter with its documented bounds.
--   FirstCdev     06_character_device_driver/01_my_first_cdev/my_cdev.c
--   PrivateData   07_file_cdev_fops/02_private_data/my_cdev.c. The buffers of the open files are a
--                 function of the file's number; requests are served one after another. A result `none`
--                 is an access beyond a buffer, of a read or of a write.
--   Ioctl         08_ioctl/my_cdev.c. The command numbers are parameters.
--   FileOps       07_file_cdev_fops/01_file_ops/my_cdev.c. A result `none` is an access beyond the
--                 buffer. `size_t` and offsets have 64 bits, with wrap-around written out.
--   MemoryAlloc   09_memory_alloc/memory_alloc.c
--   LinkedList    10_linked_list/my_linked_list.c. Allocated addresses are explicit, so that a double
--                 free shows as `none`.
--   Debounce      12_gpio_irq/irq/irq.c, compiled with USE_DESCRIPTOR_API, as its first line defines.
--                 jiffies has 64 bits; theorems are about times that have not wrapped round.
--   BottomHalf    12_gpio_irq/top_bottom_half/irq.c. Interrupts and the work's handler in any order.
--   Hrtimer       13_hrtimer/my_hrtimer.c. Hrtimer/Timer has the expiry of the timer, in nanoseconds.
--   Bmp180        15_bmp180_i2c_sensor/sensor_read/bmp180_i2c_driver.c. The I2C core is a record of
--                 functions; `s32` arithmetic wraps; Bmp180/Compensate is the formula, Bmp180/Show the
--                 two sysfs files, Bmp180/Probe the life of the driver.
--   Kthread       17_kernel_threads/my_kthread.c. The fuel of the loop is the list of answers of
--                 kthread_should_stop.
--   BusyWait      18_wait_queue_poll_fasync/01_busy_wait/busy_wait.c. The spinning loop runs on fuel,
--                 and one more look than the flag needs to be set is enough.
--   WaitQueue     18_wait_queue_poll_fasync/02_wait_queue/wait_queue.c. WaitQueue/Readers interleaves
--                 the readers and the interrupt as a step relation.
--   PollSelect    18_wait_queue_poll_fasync/03_poll_select/my_poll.c, which does not compile for a stray
--                 digit in line 23; the model leaves the digit out.
--   Fasync        18_wait_queue_poll_fasync/04_fasync/my_fasync.c. fasync_helper is a parameter.
--   GpioCtrl      11_gpio_ctrl/request_free/req_free.c and 11_gpio_ctrl/set_get/set_get.c
--   Spi           16_spi_subsytem_basics/my_spi.c
--   I2cDriver     15_bmp180_i2c_sensor/bmp180_i2c_driver.c
--   OldCdev       06_character_device_driver/02_my_first_cdev_dreplicated_method/my_cdev.c
--   MutexThreads  19_kernel_synchronization/01_mutex/my_mutex.c. Any schedule of the two threads.
--   Spinlock      19_kernel_synchronization/02_spinlock/my_spinlock.c
--   SharedCdev    19_kernel_synchronization/01_mutex/test/my_cdev.c: any number of processes, each in
--                 the middle of a read or a write. A copy goes byte by byte, and every order of the
--                 processes' steps is a schedule.
--   Completion    19_kernel_synchronization/03_completion/my_completion.c. jiffies has 64 bits and
--                 `press_count` 32, with wrap-around written out; the completion's counter is the
--                 kernel's, and each `complete` lets one wait through. Completion/Waiters has both
--                 waiters among interrupts.
--   CompletionExercises  my_completion_ex1.c, my_completion_ex2.c and my_completion_ex3.c beside it. The
--                 waiter of the third takes a step a jiffy.
--
-- Programs in user space, each run against the model of its driver: the system calls are the driver's
-- functions, and whether a copy or an allocation works is a parameter.
--   PrivateData/Client  07_file_cdev_fops/02_private_data/test1.c. PrivateData/Program has what it
--                 shares with the next.
--   Ioctl/Client  08_ioctl/test1.c
--   SensorClient  15_bmp180_i2c_sensor/sensor_read/test_bmp180.c. sysfs is a function from paths to
--                 files; SensorClient/Sysfs puts the driver's two files into it.
--   PollClient    18_wait_queue_poll_fasync/03_poll_select/test_poll.c, test_select.c and, in
--                 PollClient/Multi, multi_fd_poll.c. A loop runs over the list of its rounds, so no fuel
--                 is chosen.
--   Fasync/Client 18_wait_queue_poll_fasync/04_fasync/test_fasync.c: its signal handler.
--   Fasync/Main   its `main`; the loop goes round between any presses and signals.
--   FileOps/OpenClose   07_file_cdev_fops/01_file_ops/test1.c
--   NonblockClient      18_wait_queue_poll_fasync/01_busy_wait/test_nonblock.c, which is also in
--                 02_wait_queue. It stands over an interface of its driver, a record of operations with
--                 laws, and NonblockClient/Drivers has the two drivers that it is run with.
--
-- Views: PollSelect/Mailbox has any number of open files of the poll driver at once, with reads that
-- do not wait, fall asleep or are woken up; PollSelect/View is
-- the quotient of an open file's counters by their distance, and PollSelect/Observed what poll can tell
-- of it. Ioctl/Race interleaves a command and a read byte by byte. Bmp180/Pressure is the data sheet's
-- formula over the integers, with C's shifts and division, the reference for the 32-bit code, and SensorClient/EndToEnd goes from the
-- bytes on the bus to the program's output.
--
-- Not modelled: log messages except where a theorem is about them; the functions that only log, such
-- as most `my_open` and `my_release`; memory ordering between processors, except for the flag that is
-- read twice; floating point output in test_bmp180.c; generated descriptions of modules; and
-- lkmpg-master, a copy of another project.
pub mod Base
pub mod Kernel
pub mod Registration
pub mod ButtonIrq
pub mod Bmp180
pub mod BottomHalf
pub mod BusyWait
pub mod Completion
pub mod CompletionExercises
pub mod Debounce
pub mod Fasync
pub mod FileOps
pub mod FirstCdev
pub mod FirstModule
pub mod GpioCtrl
pub mod Hrtimer
pub mod I2cDriver
pub mod Ioctl
pub mod Kthread
pub mod LinkedList
pub mod Loader
pub mod MemoryAlloc
pub mod MutexThreads
pub mod NonblockClient
pub mod Numerals
pub mod OldCdev
pub mod PollClient
pub mod PollSelect
pub mod PrivateData
pub mod SensorClient
pub mod SharedCdev
pub mod Spi
pub mod Spinlock
pub mod Threads
pub mod WaitQueue

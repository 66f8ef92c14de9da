-- ===== src/LinkedList/Tests.antt =====
-- Runs of 10_linked_list/my_linked_list.c at concrete addresses.
use linux_driver_development.Base.{neg, none, pos, refl, some, ◌≡◌}
use linux_driver_development.Kernel.{enomem}
use linux_driver_development.LinkedList.{loaded, my_init}

second_allocation_fails : my_init (some 4096) none (some 8192) ≡ some (neg (pos enomem), loaded)
unfolding my_init
second_allocation_fails = refl

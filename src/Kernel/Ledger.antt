-- ===== src/Kernel/Ledger.antt =====
-- The calls that a driver has made, newest first, and the resources that they leave it holding.
-- A call that fails acquires nothing, and is not in the log.
use linux_driver_development.Base.{
  Bool, List, Option, [], false, if◌then◌else◌, none, nonzero, pos, some, true, ℕ, ℤ, ◌&&◌, ◌==◌,
  ◌∷◌, ◌≡◌, ◌⊎◌,
}

pub data Resource : Type 0 where
  region cdev device_class device_node irq_line : Resource
  led_pin button_pin : Resource
  buffer kmalloc_area kzalloc_area vmalloc_area slab_cache slab_object : Resource
  thread_1 thread_2 : Resource
  bus_driver bus_adapter bus_client sysfs_group client_memory : Resource

rank : Resource → ℕ
rank region = 0
rank cdev = 1
rank device_class = 2
rank device_node = 3
rank irq_line = 4
rank led_pin = 5
rank button_pin = 6
rank buffer = 7
rank kmalloc_area = 8
rank kzalloc_area = 9
rank vmalloc_area = 10
rank slab_cache = 11
rank slab_object = 12
rank thread_1 = 13
rank thread_2 = 14
rank bus_driver = 15
rank bus_adapter = 16
rank bus_client = 17
rank sysfs_group = 18
rank client_memory = 19

abbrev pub same : Resource → Resource → Bool
unfolding rank
same r s = rank r == rank s

-- `acquire r` takes r; `acquire_on s r` takes r by way of s, which must be held; `release r` gives
-- r back; `release_on s r` gives r back by way of s, which must be held still, as an object that a
-- cache has handed out goes back to that cache; `touch r` works with r.
pub data Call : Type 0 where
  acquire : Resource → Call
  acquire_on : Resource → Resource → Call
  release : Resource → Call
  release_on : Resource → Resource → Call
  touch : Resource → Call

abbrev pub Log : Type 0
Log = List Call

pub holds : Resource → List Resource → Bool
unfolding rank
holds r [] = false
holds r (s ∷ rs) = if rank r == rank s then true else holds r rs

pub remove : Resource → List Resource → List Resource
unfolding rank
remove r [] = []
remove r (s ∷ rs) = if rank r == rank s then rs else s ∷ remove r rs

-- One call; `none` is a misuse: a resource is used or given back that is not held.
pub perform : Call → List Resource → Option (List Resource)
unfolding holds remove
perform (acquire r) rs = some (r ∷ rs)
perform (acquire_on s r) rs = if holds s rs then some (r ∷ rs) else none
perform (release r) rs = if holds r rs then some (remove r rs) else none
perform (release_on s r) rs = if holds s rs && holds r rs then some (remove r rs) else none
perform (touch r) rs = if holds r rs then some rs else none

-- What is held after the calls of the log, the oldest (its last) first.
unfoldable pub ledger : Log → Option (List Resource)
unfolding perform
ledger [] = some []
ledger (c ∷ log) = elim (ledger log) [ none ↦ none | some rs ↦ perform c rs ]

-- An `init` function either succeeds and holds `all`, or fails and holds nothing.
abbrev pub Settles : List Resource → ℤ × Log → Type 0
Settles all (status, log) =
    (status ≡ pos 0) × (ledger log ≡ some all) ⊎ (nonzero status ≡ true) × (ledger log ≡ some [])

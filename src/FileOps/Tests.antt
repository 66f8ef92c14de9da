-- ===== src/FileOps/Tests.antt =====
-- Runs of 07_file_cdev_fops/01_file_ops/my_cdev.c at concrete inputs.
use linux_driver_development.Base.{
  Bool, List, [], arith, drop, false, not, pos, refl, replicate, some, take, ℕ, ◌++◌, ◌-◌, ◌==◌,
  ◌∷◌, ◌≡◌, ◌≤◌,
}
use linux_driver_development.Kernel.{short, smooth, strlen}
use linux_driver_development.FileOps.{Device, cleared, my_read, my_write, read_size}
use linux_driver_development.FileOps.Transfer.{my_read_within, my_write_effect}
use linux_driver_development.FileOps.Stream.{my_read-my_write, reads, reads-contiguous}

abbrev hello : List ℕ
hello = 104 ∷ 105 ∷ 10 ∷ []

abbrev greeted : Device
greeted = record { dev_buffer = hello ++ replicate 61 0; locked = false }

read_back :
    my_read smooth greeted 0 4096
    ≡ some (record { result = pos 3; delivered = hello; offset = 3; device = greeted })
unfolding my_read strlen read_size
read_back = refl

my_write_effect_example :
    let r = my_write short greeted 62 hello in
    (r.result ≡ pos 1)
    × (r.offset ≡ 63)
    × (take 62 r.device.dev_buffer ≡ take 62 greeted.dev_buffer)
    × (drop 62 r.device.dev_buffer ≡ 104 ∷ 0 ∷ [])
my_write_effect_example =
    my_write_effect short greeted 62 hello (λ n. omega arith) (refl, refl) refl (omega arith)

my_read_within_example :
    my_read short greeted 1 10
    ≡ some (record { result = pos 1; delivered = 105 ∷ []; offset = 2; device = greeted })
unfolding strlen
my_read_within_example =
    my_read_within short greeted 1 10 3 (λ n. omega arith) (refl, refl) refl refl (omega arith)
      (omega arith)

reads-contiguous_example :
    (end : ℕ) × (reads greeted 0 ((short, 2) ∷ (smooth, 5) ∷ [])
      ≡ some (take (end - 0) (drop 0 greeted.dev_buffer), end))
    × (0 ≤ end)
    × (end ≤ 3)
unfolding strlen
reads-contiguous_example =
    reads-contiguous greeted 0 3 ((short, 2) ∷ (smooth, 5) ∷ []) (refl, refl) refl (omega arith)
      (((λ n. omega arith), refl, omega arith), (((λ n. omega arith), refl, omega arith), tt))

my_read-my_write_example :
    my_read smooth (my_write smooth cleared 0 hello).device 0 100
    ≡ some (record {
      result = pos 3;
      delivered = hello;
      offset = 3;
      device = (my_write smooth cleared 0 hello).device;
    })
unfolding strlen
my_read-my_write_example =
    my_read-my_write smooth cleared hello 100 0 (λ n. refl) (refl, refl) refl (omega arith)
      (omega arith) refl (omega arith) (omega arith)

-- The third attempt fails.
abbrev third_fails : ℕ → Bool
third_fails n = not (n == 2)

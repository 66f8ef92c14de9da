-- ===== src/PrivateData/Tests.antt =====
-- Runs of 07_file_cdev_fops/02_private_data/my_cdev.c at concrete requests.
use linux_driver_development.PrivateData.Client.{main, main-junk, works}
use linux_driver_development.PrivateData.Program.{Outcome, closed, opened, read_bytes, written}
use mathlib.Core.Option
use linux_driver_development.Base.{
  Bool-cases, List, ◌==◌, [], arith, codes, drop, false, if◌then◌else◌, inl, inr, ltb, none, pos,
  refl, replicate, some, ℕ, ◌++◌, ◌∷◌, ◌≡◌,
}
use linux_driver_development.Kernel.{
  NoZero, copy_to_user, patch, release, short, smooth, strlen, text_of,
}
use linux_driver_development.PrivateData.{
  Files, Reply, dev_buffer_size, my_read, my_release, my_write, read_size,
}
use linux_driver_development.PrivateData.Isolation.{
  AllSized, Elsewhere, Request, read, release, serve, serve_all, serve_all-Elsewhere, write,
}
use linux_driver_development.PrivateData.Safety.{AllShort, IsValid, serve_all-IsValid, zeros-Closed}
use linux_driver_development.PrivateData.Text.{first_bytes, stored, my_read-serve_all-my_write}

-- The files 0 and 1 are open, with empty buffers.
abbrev two_open : Files
two_open = record {
  private_data = λ f. if ltb f 2 then some (replicate dev_buffer_size 0) else none;
  locked = false;
}

two_open-IsValid : IsValid two_open
two_open-IsValid f buf h = elim (Bool-cases (ltb f 2)) [
  | inl y ↦ ground (arith, h, y, zeros-Closed)
  | inr n ↦ ground (arith, h, n)
]

-- File 1 gets another text, and is closed.
abbrev other_requests : List (ℕ × Request)
other_requests = (1, write smooth (codes "xyz")) ∷ (1, read short 10) ∷ (1, release) ∷ []

other_requests_short : AllShort other_requests
other_requests_short = (((λ n. omega arith), omega arith), ((λ n. omega arith), (tt, tt)))

serve_all-IsValid_example :
    (s' : Files) × (serve_all other_requests two_open ≡ some s') × IsValid s'
serve_all-IsValid_example =
    serve_all-IsValid other_requests two_open two_open-IsValid other_requests_short

other_requests-Elsewhere : Elsewhere 0 other_requests
other_requests-Elsewhere = ground arith

-- File 0 holds "hello", and then the other requests come.
abbrev greeted : Files
greeted = (stored 0 (codes "hello") (replicate dev_buffer_size 0) two_open).files

abbrev after : Files
after = elim (serve_all other_requests greeted) [ none ↦ two_open | some s ↦ s ]

other_requests_served : serve_all other_requests greeted ≡ some after
unfolding serve_all serve my_write my_read my_release copy_to_user patch strlen read_size
other_requests_served = refl

greeted-AllSized : AllSized greeted
greeted-AllSized f buf h = elim (Bool-cases (f == 0)) [
  | inl y ↦ ground (arith, h, y)
  | inr n ↦ ground (arith, h, n, two_open-IsValid f buf)
]

-- After them a write of 100 bytes to file 0 is tried.
serve_all-Elsewhere_example :
    (after.private_data 0 ≡ greeted.private_data 0)
    × AllSized after
    × ((r : Reply) × (my_write smooth 0 (replicate 100 7) after ≡ some r))
serve_all-Elsewhere_example =
    serve_all-Elsewhere 0 0 smooth (replicate 100 7) other_requests greeted after greeted-AllSized
      ((λ n. omega arith), tt) other_requests-Elsewhere other_requests_served

hello-NoZero : NoZero (codes "hello")
hello-NoZero = ground arith

my_read-serve_all-my_write_example :
    (my_write smooth 0 (codes "hello") two_open
      ≡ some (stored 0 (codes "hello") (replicate dev_buffer_size 0) two_open))
    × (my_read smooth 0 4 after ≡ some (first_bytes 4 (codes "hello") after))
    × (my_read smooth 0 4 (first_bytes 4 (codes "hello") after).files
        ≡ some (first_bytes 4 (codes "hello") after))
my_read-serve_all-my_write_example =
    my_read-serve_all-my_write smooth 0 4 (codes "hello") (replicate dev_buffer_size 0)
      other_requests two_open after (λ n. refl) refl two_open-IsValid refl hello-NoZero
      (omega arith) (omega arith) other_requests-Elsewhere other_requests_served

abbrev none_open : Files
none_open = record { private_data = λ f. none; locked = false }

-- "ab" and a zero byte stand in the buffer at first, and then other bytes: "hi" comes out as "hi".
main-junk_example :
    let junk = codes "ab" ++ (0 ∷ replicate 61 7) in
    (o : Outcome) × (main works junk 3 (codes "hi") none_open ≡ some o)
    × (o.messages
        ≡ opened
          ∷ written (pos 2)
          ∷ read_bytes (pos 2) (Option.map (λ more. codes "hi" ++ more) (text_of (drop 2 junk)))
          ∷ closed
          ∷ [])
    × (o.status ≡ pos 0)
main-junk_example =
    main-junk 3 (codes "ab" ++ (0 ∷ replicate 61 7)) (codes "hi") none_open (omega arith)
      (omega arith)

-- With other bytes there it comes out longer.
junk_shown : text_of (drop 2 (codes "xyz" ++ (0 ∷ []))) ≡ some (codes "z")
unfolding strlen
junk_shown = refl

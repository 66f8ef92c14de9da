-- ===== src/Ioctl/Race.antt =====
-- MYCDEV_CLEAR of 08_ioctl/my_cdev.c while `my_read` copies the same file's buffer on another processor:
-- the command does not take the mutex that the read holds, so memset and copy_to_user go on at once, byte by byte.
use linux_driver_development.Base.{
  List, [], arith, get_or, if◌then◌else◌, inr, length, length-append, ltb, min, refl, set, suc,
  zero, ℕ, ◌++◌, ◌+◌, ◌<◌, ◌==◌, ◌∷◌, ◌≡◌, ◌≤◌, ◌⊎◌,
}
use linux_driver_development.PrivateData.{dev_buffer_size}

-- The buffer, the number of bytes that memset has set, and the bytes that copy_to_user has delivered.
pub record Race : Type 0 where
  pub dev_buffer : List ℕ
  pub cleared : ℕ
  pub delivered : List ℕ

-- The next byte is set to 0, or the next byte is copied.
pub data Turn : Type 0 where
  sets copies : Turn

-- One byte of a read that copies `n` bytes, or of the memset.
unfoldable pub turn : ℕ → Turn → Race → Race
turn n sets r =
    if ltb r.cleared dev_buffer_size
    then record r { dev_buffer = set r.dev_buffer r.cleared 0; cleared = r.cleared + 1 }
    else r
turn n copies r =
    if ltb (length r.delivered) n
    then record r { delivered = r.delivered ++ (get_or r.dev_buffer (length r.delivered) 0 ∷ []) }
    else r

unfoldable pub race : ℕ → List Turn → Race → Race
unfolding turn
race n [] r = r
race n (t ∷ ts) r = race n ts (turn n t r)

-- The read has found `n` bytes before the first zero, and the command begins.
abbrev pub starting : List ℕ → Race
starting buf = record { dev_buffer = buf; cleared = 0; delivered = [] }

-- Every byte of the list is that of `buf`, or 0.
abbrev pub OldOrZero : List ℕ → List ℕ → Type 0
OldOrZero buf bytes = (j : ℕ) → (get_or bytes j 0 ≡ get_or buf j 0) ⊎ (get_or bytes j 0 ≡ 0)

get_or-set_zero :
    (bs : List ℕ) (i j : ℕ) → get_or (set bs i 0) j 0 ≡ (if j == i then 0 else get_or bs j 0)
get_or-set_zero [] i j = ground arith
get_or-set_zero (b ∷ bs) zero zero = refl
get_or-set_zero (b ∷ bs) zero (suc j) = ground arith
get_or-set_zero (b ∷ bs) (suc i) zero = ground arith
get_or-set_zero (b ∷ bs) (suc i) (suc j) = ground (arith, get_or-set_zero bs i j)

get_or-snoc :
    (bs : List ℕ) (b j : ℕ)
    → get_or (bs ++ (b ∷ [])) j 0 ≡ (if j == length bs then b else get_or bs j 0)
get_or-snoc [] b zero = refl
get_or-snoc [] b (suc j) = ground arith
get_or-snoc (x ∷ bs) b zero = ground arith
get_or-snoc (x ∷ bs) b (suc j) = ground (arith, get_or-snoc bs b j)

snoc-OldOrZero :
    (buf bs from : List ℕ)
    → OldOrZero buf bs
    → OldOrZero buf from
    → OldOrZero buf (bs ++ (get_or from (length bs) 0 ∷ []))
snoc-OldOrZero buf bs from h k j =
    let b = get_or from (length bs) 0 in ground (arith, get_or-snoc bs b j, h j, k j)

-- How many turns of each kind the schedule has.
abbrev pub set_count : List Turn → ℕ
set_count [] = 0
set_count (sets ∷ ts) = set_count ts + 1
set_count (copies ∷ ts) = set_count ts

abbrev pub copy_count : List Turn → ℕ
copy_count [] = 0
copy_count (sets ∷ ts) = copy_count ts
copy_count (copies ∷ ts) = copy_count ts + 1

-- The bytes that are set are 0, the others are as they were, and what was delivered is one or the other.
abbrev Fair : List ℕ → Race → Type 0
Fair buf r =
    ((j : ℕ) → get_or r.dev_buffer j 0 ≡ (if ltb j r.cleared then 0 else get_or buf j 0))
    × OldOrZero buf r.delivered

turn-Fair : (n : ℕ) (buf : List ℕ) (t : Turn) (r : Race) → Fair buf r → Fair buf (turn n t r)
unfolding turn
turn-Fair n buf sets r (d, e) =
    (λ j. ground (arith, d j, get_or-set_zero r.dev_buffer r.cleared j), λ j. ground (arith, e j))
turn-Fair n buf copies r (d, e) =
    let more = snoc-OldOrZero buf r.delivered r.dev_buffer e (λ j. ground (arith, d j)) in
    (λ j. ground (arith, d j), λ j. ground (arith, e j, more j))

race-Fair : (n : ℕ) (buf : List ℕ) (ts : List Turn) (r : Race) → Fair buf r → Fair buf (race n ts r)
unfolding race
race-Fair n buf [] r h = h
race-Fair n buf (t ∷ ts) r h = race-Fair n buf ts (turn n t r) (turn-Fair n buf t r h)

race_progress :
    (n : ℕ) (ts : List Turn) (r : Race)
    → r.cleared ≤ dev_buffer_size
    → length r.delivered ≤ n
    → ((race n ts r).cleared ≡ min dev_buffer_size (r.cleared + set_count ts))
      × (length (race n ts r).delivered ≡ min n (length r.delivered + copy_count ts))
unfolding race turn
race_progress n [] r h k = (omega arith, omega arith)
race_progress n (sets ∷ ts) r h k =
    ground (arith, race_progress n ts (turn n sets r) (ground arith) (ground arith))
race_progress n (copies ∷ ts) r h k = ground (
  arith,
  length-append r.delivered (get_or r.dev_buffer (length r.delivered) 0 ∷ []),
  race_progress n ts (turn n copies r) (ground arith)
      (ground (arith, length-append r.delivered (get_or r.dev_buffer (length r.delivered) 0 ∷ []))),
)

-- A read of n bytes and the command MYCDEV_CLEAR, in any order of their single bytes, with enough turns
-- for both: all bytes of the buffer are 0 at the end, and the read delivers n bytes, each of which is
-- the byte that was there before the command or 0.
pub race_delivers :
    (n : ℕ) (buf : List ℕ) (ts : List Turn)
    → n ≤ copy_count ts
    → dev_buffer_size ≤ set_count ts
    → let r = race n ts (starting buf) in
      ((j : ℕ) → j < dev_buffer_size → get_or r.dev_buffer j 0 ≡ 0)
      × (length r.delivered ≡ n)
      × OldOrZero buf r.delivered
race_delivers n buf ts h k =
    let (d, e) = race-Fair n buf ts (starting buf) (λ j. ground arith, λ j. inr refl) in
    let (p, q) = race_progress n ts (starting buf) (omega arith) (omega arith) in
    (λ j lt. ground (arith, d j, p, lt, k), omega (arith, q, h), e)

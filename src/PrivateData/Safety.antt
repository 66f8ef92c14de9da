-- ===== src/PrivateData/Safety.antt =====
-- 07_file_cdev_fops/02_private_data/my_cdev.c stays inside its buffers while no write fills one.
use mathlib.Core.Option
use linux_driver_development.Base.{
  Bool-cases, List, Option, Option-cases, [], ap, arith, drop, false, get_or, inl, inr, length,
  length-append, length-replicate, length-take, neg, none, pos, refl, replicate, some, suc, take,
  true, zero, ℕ, ◌++◌, ◌+◌, ◌-◌, ◌<◌, ◌==◌, ◌∙◌, ◌∷◌, ◌≡◌, ◌≤◌,
}
use linux_driver_development.Kernel.{
  Bounded, UserAccess, copy_from_user, copy_to_user, einval, erestartsys, length-patch, patch,
  release, strlen, strlen-le,
}
use linux_driver_development.PrivateData.{
  Files, Reply, dev_buffer_size, lock, my_open, my_read, my_release, my_write, put, read_size,
  unlock, write_size,
}
use linux_driver_development.PrivateData.Isolation.{
  Request, open_file, read, release, serve, serve_all, write, write_size-le,
}

-- A buffer of full size whose last byte is zero.
abbrev pub Closed : List ℕ → Type 0
Closed buf = (length buf ≡ dev_buffer_size) × (get_or buf 63 1 ≡ 0)

abbrev pub IsValid : Files → Type 0
IsValid s = (f : ℕ) (buf : List ℕ) → s.private_data f ≡ some buf → Closed buf

-- A copy that fails leaves at most what it was asked for, and a write is shorter than the buffer.
abbrev pub IsShort : Request → Type 0
IsShort (open_file allocated) = Unit
IsShort release = Unit
IsShort (read u count) = Bounded u
IsShort (write u src) = Bounded u × (length src < dev_buffer_size)

closed-strlen : (buf : List ℕ) (i : ℕ) → get_or buf i 1 ≡ 0 → (n : ℕ) × (strlen buf ≡ some n)
unfolding strlen
closed-strlen [] i h = absurd (omega arith)
closed-strlen (x ∷ xs) zero h = (0, ground arith)
closed-strlen (x ∷ xs) (suc i) h = elim (Bool-cases (x == 0)) [
  | inl z ↦ (0, ground (arith, z))
  | inr z ↦ let (n, e) = closed-strlen xs i h in (suc n, ground (arith, z, e))
]

get_or-append :
    (xs ys : List ℕ) (i d : ℕ) → length xs ≤ i → get_or (xs ++ ys) i d ≡ get_or ys (i - length xs) d
get_or-append [] ys i d h = ap (λ j. get_or ys j d) (omega arith)
get_or-append (x ∷ xs) ys zero d h = absurd (omega arith)
get_or-append (x ∷ xs) ys (suc i) d h =
    get_or-append xs ys i d (omega arith) ∙ ap (λ j. get_or ys j d) (omega arith)

zero_plus : (i : ℕ) → i ≡ 0 + i
zero_plus i = omega arith

suc_plus : (n i : ℕ) → suc (n + i) ≡ suc n + i
suc_plus n i = omega arith

get_or-drop : (n i d : ℕ) (xs : List ℕ) → get_or (drop n xs) i d ≡ get_or xs (n + i) d
get_or-drop zero i d xs = ap (λ j. get_or xs j d) (zero_plus i)
get_or-drop (suc n) i d [] = refl
get_or-drop (suc n) i d (x ∷ xs) =
    get_or-drop n i d xs ∙ ap (λ j. get_or (x ∷ xs) j d) (suc_plus n i)

last_place : (n : ℕ) → n < dev_buffer_size → n + (63 - n) ≡ 63
last_place n h = omega arith

-- The text that stands behind any place of a closed buffer ends inside it.
pub tail-strlen :
    (buf : List ℕ) (n : ℕ)
    → Closed buf
    → n < dev_buffer_size
    → (k : ℕ) × (strlen (drop n buf) ≡ some k)
tail-strlen buf n c h =
    closed-strlen (drop n buf) (63 - n)
      (get_or-drop n (63 - n) 1 buf ∙ ground (arith, last_place n h, c.1))

-- Overwriting less than the whole of a closed buffer leaves it closed.
patch-Closed :
    (buf new : List ℕ) → Closed buf → length new < dev_buffer_size → Closed (patch buf 0 new)
unfolding patch
patch-Closed buf new c h = (
  length-patch buf 0 new (omega (arith, c.0)) ∙ c.0,
  get_or-append new (drop (0 + length new) buf) 63 1 (omega arith)
      ∙ get_or-drop (0 + length new) (63 - length new) 1 buf
      ∙ ap (λ j. get_or buf j 1) (omega arith)
      ∙ c.1,
)

pub zeros-Closed : Closed (replicate dev_buffer_size 0)
zeros-Closed = (refl, refl)

pub put-IsValid :
    (f : ℕ) (b : Option (List ℕ)) (s : Files)
    → IsValid s
    → ((buf : List ℕ) → b ≡ some buf → Closed buf)
    → IsValid (put f b s)
put-IsValid f b s v c g buf h = elim (Bool-cases (g == f)) [
  | inl y ↦ c buf (ground (arith, h, y))
  | inr n ↦ v g buf (ground (arith, h, n))
]

-- What a short write leaves in the buffer.
received-Closed :
    (u : UserAccess) (buf src : List ℕ)
    → Bounded u
    → length src < dev_buffer_size
    → Closed buf
    → Closed (copy_from_user u buf 0 src (write_size (length src)))
unfolding copy_from_user
received-Closed u buf src b h c =
    let n = write_size (length src) in
    patch-Closed buf _ c (
      omega (
        arith,
        b n,
        write_size-le (length src),
        length-append (take (n - u.not_copied n) src) (replicate (u.not_copied n) 0),
        length-take (n - u.not_copied n) src,
        length-replicate {A = ℕ} (u.not_copied n) 0,
        h,
      ))

read_size-le : (len count : ℕ) → (read_size len count ≤ len) × (read_size len count ≤ count)
unfolding read_size
read_size-le len count = ground arith

-- A read of a closed buffer stays inside it, and leaves the files as they are.
my_read-Closed :
    (u : UserAccess) (f count : ℕ) (s : Files)
    → Bounded u
    → IsValid s
    → (r : Reply) × (my_read u f count s ≡ some r) × IsValid r.files
unfolding my_read copy_to_user
my_read-Closed u f count s b v = elim (Option-cases (s.private_data f)) [
  | inl n ↦ (record { result = neg (pos einval); delivered = []; files = s }, ground (arith, n), v)
  | inr (buf, e) ↦ elim (Bool-cases u.interrupted) [
    | inl i ↦ (
      record { result = neg (pos erestartsys); delivered = []; files = s },
      ground (arith, e, i),
      v,
    )
    | inr i ↦
        let c = v f buf e in
        let (len, t) = closed-strlen buf 63 c.1 in
        let short = strlen-le buf t in
        let n = read_size len count in
        (
          record {
            result = pos (n - u.not_copied n);
            delivered = take (n - u.not_copied n) buf;
            files = unlock (lock s);
          },
          ground (arith, e, i, t, read_size-le len count),
          v,
        )
  ]
]

-- A short request is served without an access beyond a buffer, and keeps every buffer closed.
serve-IsValid :
    (f : ℕ) (r : Request) (s : Files)
    → IsValid s
    → IsShort r
    → (s' : Files) × (serve (f, r) s ≡ some s') × IsValid s'
unfolding serve my_open my_release my_read my_write
serve-IsValid f (open_file true) s v h = (
  _,
  refl,
  put-IsValid f (some (replicate dev_buffer_size 0)) s v (λ buf e. ground (arith, e, zeros-Closed)),
)
serve-IsValid f (open_file false) s v h = (s, refl, v)
serve-IsValid f release s v h = (_, refl, put-IsValid f none s v (λ buf e. ground (arith, e)))
serve-IsValid f (read u c) s v h =
    let (r, e, v') = my_read-Closed u f c s h v in
    (r.files, ap (Option.map (λ (r : Reply). r.files)) e, v')
serve-IsValid f (write u src) s v h = elim (Option-cases (s.private_data f)) [
  | inl n ↦ (s, ground (arith, n), v)
  | inr (buf, e) ↦ elim (Bool-cases u.interrupted) [
    | inl i ↦ (s, ground (arith, e, i), v)
    | inr i ↦
        let stored = copy_from_user u buf 0 src (write_size (length src)) in
        (
          unlock (put f (some stored) (lock s)),
          ground (arith, e, i, (v f buf e).0, write_size-le (length src)),
          put-IsValid f (some stored) s v
              (λ b q. let c = received-Closed u buf src h.0 h.1 (v f buf e) in ground (arith, q)),
        )
  ]
]

abbrev pub AllShort : List (ℕ × Request) → Type 0
AllShort [] = Unit
AllShort ((f, r) ∷ rs) = IsShort r × AllShort rs

-- Any sequence of requests to any files, each write shorter than the buffer, is served without an
-- access beyond a buffer: from files whose buffers have 64 bytes and end in a zero byte on, no
-- request is answered by one, and the buffers stay so.
pub serve_all-IsValid :
    (rs : List (ℕ × Request)) (s : Files)
    → IsValid s
    → AllShort rs
    → (s' : Files) × (serve_all rs s ≡ some s') × IsValid s'
unfolding serve_all
serve_all-IsValid [] s v h = (s, refl, v)
serve_all-IsValid ((f, r) ∷ rs) s v h =
    let (t, e, w) = serve-IsValid f r s v h.0 in
    let (s', e', w') = serve_all-IsValid rs t w h.1 in (s', ground (arith, e, e'), w')

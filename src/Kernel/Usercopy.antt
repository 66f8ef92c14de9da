-- ===== src/Kernel/Usercopy.antt =====
-- Copies between a driver's buffer and user memory, after the documented contract of copy_to_user
-- and copy_from_user: both return how many bytes they could not copy, and copy_from_user fills the
-- part of the target that it could not copy with zeros. That number is the kernel's answer.
use linux_driver_development.Base.{
  Bool, List, Option, [], ap, arith, drop, if◌then◌else◌, leb, length, length-append, length-drop,
  length-take, min, none, refl, replicate, some, suc, take, zero, ℕ, ◌++◌, ◌+◌, ◌-◌, ◌<◌, ◌==◌, ◌∙◌,
  ◌∷◌, ◌≡◌, ◌≢◌, ◌≤◌,
}
use mathlib.Core.Option
use mathlib.Core.List.{append_assoc}

-- The kernel's answers while one file operation runs. `interrupted` is what
-- mutex_lock_interruptible returns (true: a signal came, the lock is not taken).
pub record UserAccess : Type 0 where
  pub interrupted : Bool
  pub not_copied : ℕ → ℕ

-- No call fails to copy more bytes than it was asked for.
abbrev pub Bounded : UserAccess → Type 0
Bounded u = (n : ℕ) → u.not_copied n ≤ n

-- The number of bytes before the first zero byte; `none` if the object has none, and strlen reads
-- on beyond it.
unfoldable pub strlen : List ℕ → Option ℕ
strlen [] = none
strlen (x ∷ xs) = if x == 0 then some 0 else Option.map suc (strlen xs)

-- The bytes from `off` on overwritten by `new`.
unfoldable pub patch : List ℕ → ℕ → List ℕ → List ℕ
patch buf off new = take off buf ++ (new ++ drop (off + length new) buf)

-- The bytes that copy_to_user delivers of a request for n bytes from `off` on; `none` if the
-- request reaches beyond the object.
unfoldable pub copy_to_user : UserAccess → List ℕ → ℕ → ℕ → Option (List ℕ)
copy_to_user u buf off n =
    if leb (off + n) (length buf) then some (take (n - u.not_copied n) (drop off buf)) else none

-- The object after copy_from_user of n bytes to `off`.
unfoldable pub copy_from_user : UserAccess → List ℕ → ℕ → List ℕ → ℕ → List ℕ
copy_from_user u buf off src n =
    patch buf off (take (n - u.not_copied n) src ++ replicate (u.not_copied n) 0)

pub strlen-le : (buf : List ℕ) {n : ℕ} → strlen buf ≡ some n → n < length buf
unfolding strlen
strlen-le [] h = ground arith
strlen-le (x ∷ xs) {n} h = ground (arith, strlen-le xs {n = n - 1})

pub length-patch :
    (buf : List ℕ) (off : ℕ) (new : List ℕ)
    → off + length new ≤ length buf
    → length (patch buf off new) ≡ length buf
unfolding patch
length-patch buf off new h = omega (
  arith,
  length-append (take off buf) (new ++ drop (off + length new) buf),
  length-append new (drop (off + length new) buf),
  length-take off buf,
  length-drop (off + length new) buf,
)

pub take-append_le : (n : ℕ) (xs ys : List ℕ) → n ≤ length xs → take n (xs ++ ys) ≡ take n xs
take-append_le zero xs ys h = refl
take-append_le (suc n) [] ys h = elim h [ ]
take-append_le (suc n) (x ∷ xs) ys h = ground (arith, take-append_le n xs ys)

pub take-all : (n : ℕ) (xs : List ℕ) → length xs ≤ n → take n xs ≡ xs
take-all zero [] h = refl
take-all zero (x ∷ xs) h = elim h [ ]
take-all (suc n) [] h = refl
take-all (suc n) (x ∷ xs) h = ground (arith, take-all n xs)

pub drop-append_length : (n : ℕ) (xs ys : List ℕ) → length xs ≡ n → drop n (xs ++ ys) ≡ ys
drop-append_length zero [] ys h = refl
drop-append_length zero (x ∷ xs) ys h = absurd (omega arith)
drop-append_length (suc n) [] ys h = absurd (omega arith)
drop-append_length (suc n) (x ∷ xs) ys h = drop-append_length n xs ys (omega arith)

pub length-take_le : (n : ℕ) (xs : List ℕ) → n ≤ length xs → length (take n xs) ≡ n
length-take_le n xs h = omega (arith, length-take n xs)

pub take-take : (n m : ℕ) (xs : List ℕ) → n ≤ m → take n (take m xs) ≡ take n xs
take-take zero m xs h = refl
take-take (suc n) zero xs h = elim h [ ]
take-take (suc n) (suc m) [] h = refl
take-take (suc n) (suc m) (x ∷ xs) h = ground (arith, take-take n m xs)

-- What a patch leaves before it, puts in, and leaves behind it.
module _ (buf : List ℕ) (off : ℕ) (new : List ℕ) (fits : off + length new ≤ length buf) where
  pub take-patch : take off (patch buf off new) ≡ take off buf
  unfolding patch
  take-patch =
      take-append_le off (take off buf) _ (omega (arith, length-take off buf))
      ∙ take-take off off buf (omega arith)

  pub drop-patch : drop off (patch buf off new) ≡ new ++ drop (off + length new) buf
  unfolding patch
  drop-patch = drop-append_length off (take off buf) _ (length-take_le off buf (omega arith))

-- No byte of the text is zero.
abbrev pub NoZero : List ℕ → Type 0
NoZero [] = Unit
NoZero (x ∷ xs) = (x ≢ 0) × NoZero xs

pub strlen-append :
    (text rest : List ℕ) → NoZero text → strlen (text ++ (0 ∷ rest)) ≡ some (length text)
unfolding strlen
strlen-append [] rest h = refl
strlen-append (x ∷ xs) rest h = ground (arith, strlen-append xs rest h.1)

pub strlen-NoZero : (text : List ℕ) → NoZero text → strlen text ≡ none
unfolding strlen
strlen-NoZero [] h = refl
strlen-NoZero (x ∷ xs) h = ground (arith, strlen-NoZero xs h.1)

pub strlen-append_text :
    (text rest : List ℕ) {k : ℕ}
    → NoZero text
    → strlen rest ≡ some k
    → strlen (text ++ rest) ≡ some (length text + k)
unfolding strlen
strlen-append_text [] rest h e = ground arith
strlen-append_text (x ∷ xs) rest h e = ground (arith, strlen-append_text xs rest h.1 e)

take-nil : (n : ℕ) → take {A = ℕ} n [] ≡ []
take-nil zero = refl
take-nil (suc n) = refl

drop-nil : (n : ℕ) → drop {A = ℕ} n [] ≡ []
drop-nil zero = refl
drop-nil (suc n) = refl

suc-add : (a b : ℕ) → suc a + b ≡ suc (a + b)
suc-add a b = omega arith

pub take-add : (a b : ℕ) (xs : List ℕ) → take a xs ++ take b (drop a xs) ≡ take (a + b) xs
take-add zero b xs = ground arith
take-add (suc a) b [] = rw (take-nil b, take-nil (suc a + b))
take-add (suc a) b (x ∷ xs) = rw (suc-add a b, take-add a b xs)

pub drop-drop : (a b : ℕ) (xs : List ℕ) → drop b (drop a xs) ≡ drop (a + b) xs
drop-drop zero b xs = ground arith
drop-drop (suc a) b [] = rw (drop-nil b, drop-nil (suc a + b))
drop-drop (suc a) b (x ∷ xs) = rw (suc-add a b, drop-drop a b xs)

pub take-append_all : (k : ℕ) (xs ys : List ℕ) → take (length xs + k) (xs ++ ys) ≡ xs ++ take k ys
take-append_all k [] ys = ground arith
take-append_all k (x ∷ xs) ys = rw (suc-add (length xs) k, take-append_all k xs ys)

pub drop-all : (n : ℕ) (xs : List ℕ) → length xs ≤ n → drop n xs ≡ []
drop-all zero [] h = refl
drop-all zero (x ∷ xs) h = elim h [ ]
drop-all (suc n) [] h = refl
drop-all (suc n) (x ∷ xs) h = drop-all n xs (omega arith)

-- The buffer after snprintf of `text` with the given size: at most size - 1 bytes and a zero byte.
unfoldable pub snprintf : List ℕ → ℕ → List ℕ → List ℕ
unfolding patch
snprintf buf size text = patch buf 0 (take (size - 1) text ++ (0 ∷ []))

pub NoZero-take : (n : ℕ) (xs : List ℕ) → NoZero xs → NoZero (take n xs)
NoZero-take zero xs h = tt
NoZero-take (suc n) [] h = tt
NoZero-take (suc n) (x ∷ xs) h = (h.0, NoZero-take n xs h.1)

pub length-snprintf :
    (buf : List ℕ) (size : ℕ) (text : List ℕ)
    → 0 < size
    → size ≤ length buf
    → length (snprintf buf size text) ≡ length buf
unfolding snprintf
length-snprintf buf size text h k =
    length-patch buf 0 (take (size - 1) text ++ (0 ∷ []))
      (omega (arith, length-append (take (size - 1) text) (0 ∷ []), length-take (size - 1) text))

pub strlen-snprintf :
    (buf : List ℕ) (size : ℕ) (text : List ℕ)
    → NoZero text
    → strlen (snprintf buf size text) ≡ some (min (size - 1) (length text))
unfolding snprintf
strlen-snprintf buf size text h =
    let cut = take (size - 1) text in
    rw (append_assoc cut (0 ∷ []) (drop (0 + length (cut ++ (0 ∷ []))) buf)) (
      rw
        (strlen-append cut (drop (0 + length (cut ++ (0 ∷ []))) buf)
          (NoZero-take (size - 1) text h))
        (ap some (length-take (size - 1) text)))

pub take-snprintf :
    (buf : List ℕ) (size : ℕ) (text : List ℕ)
    → take (min (size - 1) (length text)) (snprintf buf size text) ≡ take (size - 1) text
unfolding snprintf
take-snprintf buf size text =
    let cut = take (size - 1) text in
    rw (append_assoc cut (0 ∷ []) (drop (0 + length (cut ++ (0 ∷ []))) buf)) (
      rw (← length-take (size - 1) text)
        (take-append_le (length cut) cut _ (omega arith) ∙ take-all (length cut) cut (omega arith)))

-- ===== src/SharedCdev/Store.antt =====
-- Copying byte by byte.
use linux_driver_development.Base.{
  List, [], ap, arith, drop, get_or, length, length-append, length-drop, refl, set, suc, sym, take,
  zero, ℕ, ◌++◌, ◌+◌, ◌<◌, ◌∙◌, ◌∷◌, ◌≡◌, ◌≤◌,
}
use linux_driver_development.Kernel.{length-take_le, patch}
use mathlib.Core.List.{append_assoc}

-- One byte more of a list.
pub take-suc :
    (i : ℕ) (xs : List ℕ) → i < length xs → take i xs ++ (get_or xs i 0 ∷ []) ≡ take (suc i) xs
take-suc i [] h = absurd (omega arith)
take-suc zero (x ∷ xs) h = refl
take-suc (suc i) (x ∷ xs) h = ap (λ r. x ∷ r) (take-suc i xs (omega arith))

pub get_or-drop : (n i : ℕ) (xs : List ℕ) → get_or (drop n xs) i 0 ≡ get_or xs (n + i) 0
get_or-drop zero i xs = ap (λ j. get_or xs j 0) (zero_plus i)
  where
    zero_plus : (i : ℕ) → i ≡ 0 + i
    zero_plus i = omega arith
get_or-drop (suc n) i [] = refl
get_or-drop (suc n) i (x ∷ xs) = get_or-drop n i xs ∙ ap (λ j. get_or (x ∷ xs) j 0) (suc_plus n i)
  where
    suc_plus : (n i : ℕ) → suc (n + i) ≡ suc n + i
    suc_plus n i = omega arith

-- One byte more of the part of a list behind an offset.
pub take-suc-drop :
    (off i : ℕ) (xs : List ℕ)
    → off + i < length xs
    → take i (drop off xs) ++ (get_or xs (off + i) 0 ∷ []) ≡ take (suc i) (drop off xs)
take-suc-drop off i xs h =
    rw (← get_or-drop off i xs) (take-suc i (drop off xs) (omega (arith, length-drop off xs)))

set-append : (xs ys : List ℕ) (y v : ℕ) → set (xs ++ (y ∷ ys)) (length xs) v ≡ xs ++ (v ∷ ys)
set-append [] ys y v = refl
set-append (x ∷ xs) ys y v = ap (λ r. x ∷ r) (set-append xs ys y v)

drop-cons : (n : ℕ) (xs : List ℕ) → n < length xs → drop n xs ≡ get_or xs n 0 ∷ drop (suc n) xs
drop-cons n [] h = absurd (omega arith)
drop-cons zero (x ∷ xs) h = refl
drop-cons (suc n) (x ∷ xs) h = drop-cons n xs (omega arith)

-- Storing one byte more of `bytes` at an offset.
pub set-patch :
    (buf : List ℕ) (off : ℕ) (bytes : List ℕ) (i : ℕ)
    → i < length bytes
    → off + length bytes ≤ length buf
    → set (patch buf off (take i bytes)) (off + i) (get_or bytes i 0)
      ≡ patch buf off (take (suc i) bytes)
unfolding patch
set-patch buf off bytes i h k =
    let front = take off buf in
    let stored = take i bytes in
    let v = get_or bytes i 0 in
    let rest = drop (suc (off + i)) buf in
    let n : length stored ≡ i = length-take_le i bytes (omega arith) in
    let m : length (take (suc i) bytes) ≡ suc i = length-take_le (suc i) bytes (omega arith) in
    let f : length front ≡ off = length-take_le off buf (omega arith) in
    let at : length (front ++ stored) ≡ off + i = omega (arith, length-append front stored) in
    let tail : drop (off + length stored) buf ≡ get_or buf (off + i) 0 ∷ rest =
      ap (λ j. drop (off + j) buf) n ∙ drop-cons (off + i) buf (omega arith) in
    let next : drop (off + length (take (suc i) bytes)) buf ≡ rest =
      ap (λ j. drop j buf) {x = off + length (take (suc i) bytes)} {y = suc (off + i)}
        (omega arith) in
    let y = get_or buf (off + i) 0 in
    ap (λ t. set (front ++ (stored ++ t)) (off + i) v) tail
    ∙ ap (λ xs. set xs (off + i) v) (sym (append_assoc front stored (y ∷ rest)))
    ∙ ap (λ j. set ((front ++ stored) ++ (y ∷ rest)) j v) (sym at)
    ∙ set-append (front ++ stored) rest y v
    ∙ append_assoc front stored (v ∷ rest)
    ∙ ap (λ xs. front ++ xs) (sym (append_assoc stored (v ∷ []) rest))
    ∙ ap (λ xs. front ++ (xs ++ rest)) (take-suc i bytes h)
    ∙ ap (λ t. front ++ (take (suc i) bytes ++ t)) (sym next)

pub patch-nothing : (buf : List ℕ) (off : ℕ) → patch buf off [] ≡ buf
unfolding patch
patch-nothing buf off = ap (λ j. take off buf ++ drop j buf) (omega arith) ∙ take-drop off buf
  where
    take-drop : (n : ℕ) (xs : List ℕ) → take n xs ++ drop n xs ≡ xs
    take-drop zero xs = refl
    take-drop (suc n) [] = refl
    take-drop (suc n) (x ∷ xs) = ap (λ r. x ∷ r) (take-drop n xs)

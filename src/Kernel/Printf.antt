-- ===== src/Kernel/Printf.antt =====
-- What printf prints of a buffer with %s.
use mathlib.Core.Option
use linux_driver_development.Kernel.Usercopy.{
  NoZero, strlen, strlen-append, take-all, take-append_le,
}
use linux_driver_development.Base.{
  List, Option, [], ap, arith, length, some, take, ℕ, ◌++◌, ◌∙◌, ◌∷◌, ◌≡◌,
}

-- The text of `printf("%s", bytes)`; `none` if there is no zero byte, and printf reads on behind the
-- buffer's end.
abbrev pub text_of : List ℕ → Option (List ℕ)
text_of bytes = Option.map (λ n. take n bytes) (strlen bytes)

pub text_of-append :
    (text rest : List ℕ)
    → NoZero text
    → text_of (text ++ rest) ≡ Option.map (λ more. text ++ more) (text_of rest)
unfolding strlen
text_of-append [] rest n = ground (arith, strlen rest)
text_of-append (x ∷ xs) rest n = ground (arith, n, text_of-append xs rest n.1)

pub text_of-terminated :
    (text rest : List ℕ) → NoZero text → text_of (text ++ (0 ∷ rest)) ≡ some text
text_of-terminated text rest h =
    let n = length text in
    rw (strlen-append text rest h)
      (ap some (take-append_le n text _ (omega arith) ∙ take-all n text (omega arith)))

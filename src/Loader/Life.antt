-- ===== src/Loader/Life.antt =====
-- A clean module through any sequence of insmod and rmmod.
use linux_driver_development.Base.{
  List, Option, [], ap, arith, false, if◌then◌else◌, inl, inr, none, pos, refl, some, true, ◌++◌,
  ◌∙◌, ◌∷◌, ◌≡◌, ◌⊎◌,
}
use linux_driver_development.Kernel.{Log, Os, Resource, ledger, perform}
use linux_driver_development.Loader.{
  AllFine, Event, IsClean, Module, System, booted, happen, insmod, rmmod, run,
}

-- What a log does to what is held already.
replay : Log → List Resource → Option (List Resource)
replay [] rs = some rs
replay (c ∷ log) rs = elim (replay log rs) [ none ↦ none | some held ↦ perform c held ]

ledger-append :
    (new old : Log) {rs : List Resource}
    → ledger old ≡ some rs
    → ledger (new ++ old) ≡ replay new rs
unfolding replay ledger
ledger-append [] old h = h
ledger-append (c ∷ new) old h = rw (ledger-append new old h) refl

replay-nil : (log : Log) → replay log [] ≡ ledger log
unfolding replay ledger
replay-nil [] = refl
replay-nil (c ∷ log) = rw (replay-nil log) refl

-- What a log that starts from nothing leaves, behind another log that leaves nothing.
ledger-fresh : (new old : Log) → ledger old ≡ some [] → ledger (new ++ old) ≡ ledger new
ledger-fresh new old h = ledger-append new old h ∙ replay-nil new

module _ {M : Module} {Fine : Os → Type 0} (clean : IsClean M Fine) where
  -- Nothing was held when the module that is loaded now was loaded.
  abbrev Sound : System → Type 0
  Sound s =
      (s.loaded ≡ false) × (ledger s.log ≡ some [])
      ⊎ (s.loaded ≡ true)
        × ((os : Os) × (old : Log) × Fine os
            × ((M.my_init os).0 ≡ pos 0)
            × (ledger old ≡ some [])
            × (s.log ≡ (M.my_init os).1 ++ old))

  insmod-Sound :
      (os : Os) (log : Log)
      → Fine os
      → ledger log ≡ some []
      → Sound (happen M (insmod os) (record { loaded = false; log = log }))
  unfolding happen
  insmod-Sound os log f h = elim (clean.my_init-Settles os f) [
    | inl (ok, held) ↦ inr (ground (arith, ok), (os, log, f, ok, h, refl))
    | inr (bad, nothing) ↦ inl (
      ground (arith, clean.is_neg-my_init os f bad),
      ledger-fresh (M.my_init os).1 log h ∙ nothing,
    )
  ]

  rmmod-empty :
      (os : Os) (old : Log)
      → Fine os
      → (M.my_init os).0 ≡ pos 0
      → ledger old ≡ some []
      → ledger (M.my_exit ((M.my_init os).1 ++ old)) ≡ some []
  rmmod-empty os old f ok h =
      ap (λ log. ledger log) (clean.my_exit-append (M.my_init os).1 old)
      ∙ (ledger-fresh (M.my_exit (M.my_init os).1) old h ∙ clean.ledger-my_exit os f ok)

  happen-Sound : (e : Event) (s : System) → AllFine Fine (e ∷ []) → Sound s → Sound (happen M e s)
  unfolding happen
  happen-Sound (insmod os) s f (inl (out, empty)) = rw out (insmod-Sound os s.log f.0 empty)
  happen-Sound rmmod s f (inl (out, empty)) = inl (ground (arith, out), ground (arith, out, empty))
  happen-Sound (insmod os) s f (inr (on, life)) = rw on (inr (refl, life))
  happen-Sound rmmod s f (inr (on, (os, old, fine, ok, h, e))) =
      inl (ground (arith, on), rw (on, e) (rmmod-empty os old fine ok h))

  run-Sound : (es : List Event) (s : System) → AllFine Fine es → Sound s → Sound (run M es s)
  unfolding run
  run-Sound [] s f h = h
  run-Sound (insmod os ∷ es) s f h =
      run-Sound es (happen M (insmod os) s) f.1 (happen-Sound (insmod os) s (f.0, tt) h)
  run-Sound (rmmod ∷ es) s f h = run-Sound es (happen M rmmod s) f (happen-Sound rmmod s tt h)

  Sound-ledger : (s : System) → Sound s → ledger s.log ≡ some (if s.loaded then M.resources else [])
  Sound-ledger s (inl (out, empty)) = ground (arith, out, empty)
  Sound-ledger s (inr (on, (os, old, fine, ok, h, e))) =
      let held : ledger (M.my_init os).1 ≡ some M.resources = elim (clean.my_init-Settles os fine) [
        | inl (_, held) ↦ held
        | inr (bad, _) ↦ absurd (ground (arith, ok, bad))
      ] in
      rw (on, e) (ledger-fresh (M.my_init os).1 old h ∙ held)

  -- However insmod and rmmod follow one another, a clean module never uses or gives back what it does
  -- not hold, and holds exactly its resources while it is loaded, and nothing while it is not.
  pub run-ledger :
      (es : List Event)
      → AllFine Fine es
      → let s = run M es booted in ledger s.log ≡ some (if s.loaded then M.resources else [])
  unfolding ledger
  run-ledger es f = Sound-ledger (run M es booted) (run-Sound es booted f (inl (refl, refl)))

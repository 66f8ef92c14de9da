-- ===== src/NonblockClient/Session.antt =====
-- Runs of test_nonblock.c between presses of the button, against any driver that keeps the laws.
use mathlib.Core.Option
use mathlib.Core.List.{append_assoc}
use linux_driver_development.Base.{
  Bool, Bool-cases, List, Option, [], arith, drop, false, if◌then◌else◌, inl, inr, length, negsuc,
  none, not, pos, refl, some, true, ℕ, ℤ, ◌++◌, ◌+◌, ◌∷◌, ◌≡◌,
}
use linux_driver_development.Kernel.{NoZero, eagain, efault, patch, text_of, text_of-terminated}
use linux_driver_development.NonblockClient.{
  Answers, Driver, IsLawful, Message, failed_to_open, main, read_failed, read_success,
}

-- The button is pressed, or the program runs.
pub data Event : Type 0 where
  pressed : Event
  runs : Answers → Event

-- The messages that a driver's runs print and the status of each; `none` if one does not return.
module _ (D : Driver) where
  open D use {State, press}

  after_run :
      (State → Option (List (Message × ℤ)))
      → Option (Message × ℤ × State)
      → Option (List (Message × ℤ))
  after_run rest none = none
  after_run rest (some (m, status, s)) = Option.map (λ more. (m, status) ∷ more) (rest s)

  pub session : List Event → State → Option (List (Message × ℤ))
  unfolding main
  session [] s = some []
  session (pressed ∷ es) s = session es (press s)
  session (runs a ∷ es) s = after_run (session es) (main D a s)

-- What they are to print: the device is a bell, which is rung or not. A run answers the bell, and a
-- failed copy answers it too.
abbrev pub expected_run : List ℕ → Answers → Bool → Message × ℤ × Bool
expected_run text a rung =
    if not a.opens
    then (failed_to_open, negsuc 0, rung)
    else if not rung
    then (read_failed eagain, pos 0, rung)
    else if a.copy_fails
    then (read_failed efault, pos 0, false)
    else (read_success (some text), pos 0, false)

unfoldable pub expected : List ℕ → List Event → Bool → List (Message × ℤ)
expected text [] rung = []
expected text (pressed ∷ es) rung = expected text es true
expected text (runs a ∷ es) rung =
    let (m, status, rung') = expected_run text a rung in (m, status) ∷ expected text es rung'

-- What printf prints of the buffer behind a read of the whole message.
text_of-patch :
    (junk text : List ℕ) → NoZero text → text_of (patch junk 0 (text ++ (0 ∷ []))) ≡ some text
unfolding patch
text_of-patch junk text h =
    rw (append_assoc text (0 ∷ []) (drop (0 + length (text ++ (0 ∷ []))) junk))
      (text_of-terminated text _ h)

module _ {D : Driver} {unread : D.State → Bool} {text : List ℕ} (law : IsLawful D unread text) where
  open D use {State}

  main-expected :
      (a : Answers) (s : State)
      → (s' : State) × (unread s' ≡ (expected_run text a (unread s)).2)
        × (main D a s
            ≡ some ((expected_run text a (unread s)).0, (expected_run text a (unread s)).1, s'))
  unfolding main
  main-expected a s = elim (Bool-cases a.opens) [
    | inr missing ↦ (s, ground arith, ground arith)
    | inl found ↦ elim (Bool-cases (unread s)) [
      | inl rung ↦
          let (s', off, e) = law.read-unread a.copy_fails s rung in
          (s', ground (arith, off), ground (arith, e, text_of-patch a.junk text law.text-NoZero))
      | inr quiet ↦ (s, ground arith, ground (arith, law.read-nothing a.copy_fails s quiet))
    ]
  ]

  -- Any number of presses and runs print what a bell would let them print, whatever the programs'
  -- buffers held before: every run returns, a run after a press prints the driver's whole message and
  -- nothing else, and the next one is told to try again; a copy that fails loses the press.
  pub session-eq_expected :
      (es : List Event) (s : State) → session D es s ≡ some (expected text es (unread s))
  unfolding session expected after_run
  session-eq_expected [] s = refl
  session-eq_expected (pressed ∷ es) s =
      rw (← law.unread-press s) (session-eq_expected es (D.press s))
  session-eq_expected (runs a ∷ es) s =
      let (s', after, e) = main-expected a s in rw (e, session-eq_expected es s', after) refl

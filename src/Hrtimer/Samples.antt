-- ===== src/Hrtimer/Samples.antt =====
-- What 13_hrtimer/my_hrtimer.c has recorded after a number of callbacks.
use mathlib.Core.Path.{ap₂}
use mathlib.Core.List.{append_assoc, append-nil}
use linux_driver_development.Base.{
  List, [], ap, arith, length, length-append, refl, replicate, set, suc, sym, take, zero, ℕ, ◌++◌,
  ◌+◌, ◌-◌, ◌∙◌, ◌∷◌, ◌≡◌,
}
use linux_driver_development.Hrtimer.{Sampler, hrtimer_callback, loaded, max_sample}

-- Callbacks at the given times, in order.
unfoldable pub run : List ℕ → Sampler → Sampler
run [] s = s
run (t ∷ ts) s = run ts (hrtimer_callback t s)

fill : (xs ys : List ℕ) (n t : ℕ) → length xs ≡ n → set (xs ++ (0 ∷ ys)) n t ≡ xs ++ (t ∷ ys)
fill [] ys zero t h = refl
fill [] ys (suc n) t h = absurd (omega arith)
fill (x ∷ xs) ys zero t h = absurd (omega arith)
fill (x ∷ xs) ys (suc n) t h = ap (λ l. x ∷ l) (fill xs ys n t (omega arith))

full : (ts : List ℕ) (s : Sampler) → s.index ≡ max_sample → run ts s ≡ s
unfolding run hrtimer_callback
full [] s h = refl
full (t ∷ ts) s h = ground (arith, full ts s h)

same :
    {ts us : List ℕ} {i j : ℕ}
    → ts ≡ us
    → i ≡ j
    → ◌≡◌ {A = Sampler}
        (record { timestams = ts; index = i })
        (record { timestams = us; index = j })
same p q = ap₂ (λ ts i. record { timestams = ts; index = i }) p q

take_nil : (n : ℕ) → ◌≡◌ {A = List ℕ} (take n []) []
take_nil zero = refl
take_nil (suc n) = refl

minus_zero : (n : ℕ) → n - 0 ≡ n
minus_zero n = omega arith

zero_minus : (n : ℕ) → 0 - n ≡ 0
zero_minus n = omega arith

minus_suc : (m n : ℕ) → suc m - suc n ≡ m - n
minus_suc m n = omega arith

moved :
    (done : List ℕ) (t left : ℕ)
    → set (done ++ replicate (suc left) 0) (length done) t ≡ (done ++ (t ∷ [])) ++ replicate left 0
moved done t left =
    fill done (replicate left 0) (length done) t refl
    ∙ sym (append_assoc done (t ∷ []) (replicate left 0))

step_left :
    (done : List ℕ) (t left : ℕ)
    → length done + suc left ≡ max_sample
    → hrtimer_callback t
        (record { timestams = done ++ replicate (suc left) 0; index = length done })
      ≡ record {
        timestams = (done ++ (t ∷ [])) ++ replicate left 0;
        index = length (done ++ (t ∷ []));
      }
unfolding hrtimer_callback
step_left done t left h = ground (arith, h, moved done t left, length-append done (t ∷ []))

run_from :
    (done ts : List ℕ) (left : ℕ)
    → length done + left ≡ max_sample
    → run ts (record { timestams = done ++ replicate left 0; index = length done }) ≡ record {
      timestams = (done ++ take left ts) ++ replicate (left - length ts) 0;
      index = length done + length (take left ts);
    }
unfolding run hrtimer_callback
run_from done [] left h =
    same
      (ap₂ (λ xs n. xs ++ replicate n 0) (sym (append-nil done)) (sym (minus_zero left))
        ∙ ap (λ xs. (done ++ xs) ++ replicate (left - 0) 0) (sym (take_nil left)))
      (omega (arith, ap length (take_nil left)))
run_from done (t ∷ ts) zero h =
    full (t ∷ ts) _ (omega arith)
    ∙ same
        (sym (append-nil (done ++ []))
          ∙ ap (λ n. (done ++ []) ++ replicate n 0) (sym (zero_minus (length (t ∷ ts)))))
        (omega arith)
run_from done (t ∷ ts) (suc left) h =
    (ap (λ s. run ts s) (step_left done t left h))
    ∙ (run_from (done ++ (t ∷ [])) ts left (omega (arith, length-append done (t ∷ []))))
    ∙ same
        (ap₂ (λ xs n. xs ++ replicate n 0) (append_assoc done (t ∷ []) (take left ts))
          (sym (minus_suc left (length ts))))
        (omega (arith, length-append done (t ∷ [])))

-- After callbacks at any number of times, the index is the number of callbacks but at most 20, and the
-- array holds the times of the first 20 callbacks, in order, followed by zeros.
pub first_callbacks_recorded :
    (ts : List ℕ)
    → run ts loaded ≡ record {
      timestams = take max_sample ts ++ replicate (max_sample - length ts) 0;
      index = length (take max_sample ts);
    }
first_callbacks_recorded ts = run_from [] ts max_sample refl ∙ same refl (omega arith)

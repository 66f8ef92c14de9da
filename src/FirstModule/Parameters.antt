-- ===== src/FirstModule/Parameters.antt =====
-- The array parameter of 05_first_kernel_module/02_log_levels/log_levels.c.
use linux_driver_development.Base.{
  List, [], ap, arith, drop, get_elem?, length, map, pos, refl, some, suc, take, zero, ℕ, ℤ, ◌++◌,
  ◌+◌, ◌<◌, ◌∙◌, ◌∷◌, ◌≡◌, ◌≤◌,
}
use linux_driver_development.FirstModule.{
  Params, arr_size, bool_is, count_is, defaults, element, end_of_line, hello, int_is, log_elements,
  my_init, str_is,
}

-- How the kernel sets the parameter my_arr to a text is a parameter. It never writes more than ARR_SIZE
-- elements, and leaves in arr_count how many it has written.
pub record SetsArray (set_arr : List ℕ → Params → Params) : Type 0 where
  pub length-my_arr :
      (text : List ℕ) (p : Params) → length (set_arr text p).my_arr ≡ length p.my_arr
  pub arr_count-le : (text : List ℕ) (p : Params) → (set_arr text p).arr_count ≤ arr_size

abbrev pub set_all : (List ℕ → Params → Params) → List (List ℕ) → Params → Params
set_all set_arr [] p = p
set_all set_arr (text ∷ texts) p = set_all set_arr texts (set_arr text p)

-- The element i, and what stands from it on.
element_at :
    (arr : List ℤ) (i : ℕ)
    → i < length arr
    → (z : ℤ) × (get_elem? arr i ≡ some z) × (drop i arr ≡ z ∷ drop (suc i) arr)
element_at [] i h = absurd (omega (arith, h))
element_at (x ∷ xs) zero h = (x, refl, refl)
element_at (x ∷ xs) (suc i) h = element_at xs i (omega (arith, h))

-- The loop logs the elements from i on, as long as they are there.
log_elements-drop :
    (arr : List ℤ) (i n : ℕ)
    → i + n ≤ length arr
    → log_elements arr i n ≡ some (map element (take n (drop i arr)))
unfolding log_elements
log_elements-drop arr i zero h = refl
log_elements-drop arr i (suc n) h =
    let (z, here, rest) = element_at arr i (omega (arith, h)) in
    let next : i + 1 ≡ suc i = omega arith in
    let later : log_elements arr (i + 1) n ≡ some (map element (take n (drop (suc i) arr))) =
      log_elements-drop arr (i + 1) n (omega (arith, h))
      ∙ ap (λ j. some (map element (take n (drop j arr)))) next in
    rw (rest, here, later, log_elements) refl

abbrev Fits : Params → Type 0
Fits p = (length p.my_arr ≡ arr_size) × (p.arr_count ≤ arr_size)

set_all-Fits :
    {set_arr : List ℕ → Params → Params}
    → SetsArray set_arr
    → (texts : List (List ℕ)) (p : Params) → Fits p
    → Fits (set_all set_arr texts p)
set_all-Fits law [] p h = h
set_all-Fits {set_arr} law (text ∷ texts) p h =
    set_all-Fits law texts (set_arr text p)
      (omega (arith, law.length-my_arr text p, h.0), law.arr_count-le text p)

-- However often the kernel has set the array before the module starts, `my_init` reads no element beyond it,
-- returns 0, and logs exactly the first arr_count elements.
pub my_init_logs :
    {set_arr : List ℕ → Params → Params}
    → SetsArray set_arr
    → (texts : List (List ℕ))
    → let p = set_all set_arr texts defaults in
      my_init p
      ≡ some (
        pos 0,
        hello
            ∷ int_is p.my_int
            ∷ bool_is p.my_bool
            ∷ str_is p.my_str
            ∷ count_is p.arr_count
            ∷ (map element (take p.arr_count p.my_arr) ++ (end_of_line ∷ [])),
      )
unfolding my_init
my_init_logs {set_arr} law texts =
    let p = set_all set_arr texts defaults in
    let fits = set_all-Fits law texts defaults (refl, omega arith) in
    rw (log_elements-drop p.my_arr 0 p.arr_count (omega (arith, fits.0, fits.1))) refl

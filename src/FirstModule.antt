-- ===== src/FirstModule.antt =====
-- 05_first_kernel_module/01_hello/hello.c and 05_first_kernel_module/02_log_levels/log_levels.c: modules
-- that only log; the second has parameters, which the kernel sets before `my_init` and through sysfs.
pub mod Parameters
mod Tests
use linux_driver_development.Base.{
  Bool, List, Option, [], codes, get_elem?, map, none, pos, replicate, some, suc, true, zero, ℕ, ℤ,
  ◌++◌, ◌+◌, ◌∷◌,
}
use mathlib.Core.Option

-- What the modules log, in order.
pub data Line : Type 0 where
  hello goodbye end_of_line : Line
  int_is element : ℤ → Line
  bool_is : Bool → Line
  str_is : List ℕ → Line
  count_is : ℕ → Line

-- `my_init` and `my_exit` of hello.c
hello_init : ℤ × List Line
hello_init = (pos 0, hello ∷ [])

hello_exit : List Line
hello_exit = goodbye ∷ []

abbrev pub arr_size : ℕ
arr_size = 10

-- The parameters of log_levels.c.
pub record Params : Type 0 where
  pub my_int : ℤ
  pub my_bool : Bool
  pub my_str : List ℕ
  pub my_arr : List ℤ
  pub arr_count : ℕ

abbrev pub defaults : Params
defaults = record {
  my_int = pos 30;
  my_bool = true;
  my_str = codes "hello";
  my_arr = pos 1 ∷ pos 2 ∷ pos 3 ∷ replicate 7 (pos 0);
  arr_count = arr_size;
}

-- The loop over the array, from the element i on with n elements to go; `none` is an access beyond the
-- array.
unfoldable pub log_elements : List ℤ → ℕ → ℕ → Option (List Line)
log_elements arr i zero = some []
log_elements arr i (suc n) = elim (get_elem? arr i) [
  | none ↦ none
  | some z ↦ Option.map (λ ls. element z ∷ ls) (log_elements arr (i + 1) n)
]

-- What `my_init` of log_levels.c returns and logs.
unfoldable pub my_init : Params → Option (ℤ × List Line)
unfolding log_elements
my_init p =
    Option.map
      (λ ls. (
        pos 0,
        hello
            ∷ int_is p.my_int
            ∷ bool_is p.my_bool
            ∷ str_is p.my_str
            ∷ count_is p.arr_count
            ∷ (ls ++ (end_of_line ∷ [])),
      ))
      (log_elements p.my_arr 0 p.arr_count)

abbrev pub my_exit : List Line
my_exit = goodbye ∷ []

-- ===== src/FirstModule/Tests.antt =====
-- What log_levels.c logs without parameters: seven zeros behind the three elements.
use linux_driver_development.Base.{
  List, [], arith, codes, length-set, map, pos, refl, replicate, set, some, true, ℕ, ◌∷◌, ◌≡◌,
}
use linux_driver_development.FirstModule.Parameters.{SetsArray, my_init_logs, set_all}
use linux_driver_development.FirstModule.{
  Params, bool_is, count_is, defaults, element, end_of_line, hello, int_is, log_elements, my_init,
  str_is,
}

logs_ten :
    log_elements defaults.my_arr 0 defaults.arr_count
    ≡ some (map element (pos 1 ∷ pos 2 ∷ pos 3 ∷ replicate 7 (pos 0)))
unfolding log_elements
logs_ten = refl

-- A setting of the array to a single 5, whatever the text.
abbrev one_five : List ℕ → Params → Params
one_five text p = record p { my_arr = set p.my_arr 0 (pos 5); arr_count = 1 }

one_five-SetsArray : SetsArray one_five
one_five-SetsArray = record {
  length-my_arr = λ text p. length-set p.my_arr 0 (pos 5);
  arr_count-le = λ text p. omega arith;
}

one_element :
    my_init (set_all one_five (codes "5" ∷ []) defaults)
    ≡ some (
      pos 0,
      hello
          ∷ int_is (pos 30)
          ∷ bool_is true
          ∷ str_is (codes "hello")
          ∷ count_is 1
          ∷ element (pos 5)
          ∷ end_of_line
          ∷ [],
    )
one_element = my_init_logs one_five-SetsArray (codes "5" ∷ [])

-- ===== src/Numerals/Tests.antt =====
-- Some numbers and their texts.
use linux_driver_development.Base.{codes, false, negsuc, pos, refl, true, ◌≡◌}
use linux_driver_development.Numerals.{
  clamp, decimal, hex, padded_hex, print_digits, print_int, scan, sign, skip_spaces, strtoll,
}

texts :
    (print_int (negsuc 41) ≡ codes "-42")
    × (padded_hex 3 0x77 ≡ codes "077")
    × (padded_hex 4 0x77 ≡ codes "0077")
    × (hex 0xa077 ≡ codes "a077")
unfolding print_int decimal padded_hex hex print_digits
texts = (refl, refl, refl, refl)

spaces_and_sign :
    (strtoll (codes "  +7x") ≡ record { value = pos 7; moved = true; out_of_range = false })
    × ((strtoll (codes "-")).moved ≡ false)
    × ((strtoll (codes "9223372036854775808")).out_of_range ≡ true)
unfolding strtoll skip_spaces sign scan clamp
spaces_and_sign = (refl, refl, refl)

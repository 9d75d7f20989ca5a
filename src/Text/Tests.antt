-- ===== src/Text/Tests.antt =====
-- Runs of the conversions.
use virtual_usb.Base.{◌≡◌, refl, ◌++◌, some, none}
use virtual_usb.Text.{codes, scan_int, scan_word, decimal, decimal_int, padded}

dec : scan_int 10 (codes " \t-12x") ≡ some (4294967284, codes "x")
unfolding scan_int
dec = refl

hex : scan_int 16 (codes "0x1Fg") ≡ some (31, codes "g")
unfolding scan_int
hex = refl

none_there : scan_int 10 (codes "hs") ≡ none
unfolding scan_int
none_there = refl

two_letters : scan_word 2 (codes "  hs1 2") ≡ some (codes "hs", codes "1 2")
unfolding scan_word
two_letters = refl

printed :
    decimal 4294967295 ++ (decimal_int 4294967295 ++ padded 16 8 65538)
    ≡ codes "4294967295-100010002"
printed = refl

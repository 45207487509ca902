-- ===== src/Text/Values/Tests.antt =====
-- Values that fit, that need an exponent, and that are cut off.
use atop.Prelude.{ℕ, ◌≡◌, refl, true, false, List, [], ◌∷◌, some, length, arith}
use atop.Prelude.Int.{pos, minus_one, ◌+ℤ◌}
use atop.Text.Durations.{digits}
use atop.Text.Values.{div_ℤ, shrink, valstr, val2valstr}
use atop.Text.Values.Laws.{Shows, rate, room, suffix_of, val2valstr-Shows, length-val2valstr}

program : Unit {0}
unfolding ◌+ℤ◌ digits div_ℤ shrink valstr val2valstr
program = tt

val2valstr_fits :
    val2valstr (pos 1234) 6 false 10 ≡ some (b' ' ∷ b' ' ∷ b'1' ∷ b'2' ∷ b'3' ∷ b'4' ∷ [])
unfolding program
val2valstr_fits = refl

-- 12345678 / 10 a second.
val2valstr_average :
    val2valstr (pos 12345678) 7 true 10 ≡ some (b'1' ∷ b'2' ∷ b'3' ∷ b'e' ∷ b'4' ∷ b'/' ∷ b's' ∷ [])
unfolding program
val2valstr_average = refl

val2valstr_unknown : val2valstr minus_one 4 false 10 ≡ some (b' ' ∷ b' ' ∷ b' ' ∷ b'?' ∷ [])
unfolding program
val2valstr_unknown = refl

-- 9999 has four characters, and is written as 9900.
val2valstr_largest : val2valstr (pos 9999) 4 false 10 ≡ some (b'9' ∷ b'9' ∷ b'e' ∷ b'2' ∷ [])
unfolding program
val2valstr_largest = refl

-- The second digit of the exponent 12 is cut off.
val2valstr_cut :
    val2valstr (pos 1000000000000000) 6 false 10
    ≡ some (b'1' ∷ b'0' ∷ b'0' ∷ b'0' ∷ b'e' ∷ b'1' ∷ [])
unfolding program
val2valstr_cut = refl

val2valstr-Shows_example :
    (text : List ℕ) × (val2valstr (pos 12345678) 7 true 10 ≡ some text)
    × (length text ≡ 7)
    × Shows (rate 12345678 true 10) (room 7 true 10) (suffix_of true 10) text
val2valstr-Shows_example =
    val2valstr-Shows 12345678 7 true 10 (ground arith) (ground arith) (ground arith)

cut_text_is_full :
    (text : List ℕ) × (val2valstr (pos 1000000000000000) 6 false 10 ≡ some text) × (length text ≡ 6)
cut_text_is_full =
    length-val2valstr (pos 1000000000000000) 6 false 10 (ground arith) (omega arith) (omega arith)

-- ===== src/Text/Durations/Tests.antt =====
-- Durations as text.
use atop.Prelude.{◌≡◌, ◌≤◌, refl, [], ◌∷◌, arith, length}
use atop.Text.Durations.{digits, pad2, append, append_unit, two_parts, val2elapstr, val2cpustr}
use atop.Text.Durations.Digits.{read_elapsed}
use atop.Text.Durations.Laws.{val2elapstr-read_elapsed, length-val2cpustr}

program : Unit {0}
unfolding digits pad2 append append_unit two_parts val2elapstr val2cpustr read_elapsed
program = tt

one_hour : (val2elapstr 3665).text ≡ b'1' ∷ b'h' ∷ b'1' ∷ b'm' ∷ b'5' ∷ b's' ∷ []
unfolding program
one_hour = refl

-- With 1000 days the last letter does not fit, and the result is one too large.
thousand_days :
    (val2elapstr 86486399).text
    ≡ b'1' ∷ b'0' ∷ b'0' ∷ b'0' ∷ b'd' ∷ b'2' ∷ b'3' ∷ b'h' ∷ b'5' ∷ b'9' ∷ b'm' ∷ b'5' ∷ b'9' ∷ []
unfolding program
thousand_days = refl

cpu_seconds : val2cpustr 12345 ≡ b'1' ∷ b'2' ∷ b'.' ∷ b'3' ∷ b'4' ∷ b's' ∷ []
unfolding program
cpu_seconds = refl

val2elapstr-read_elapsed_example :
    (read_elapsed (val2elapstr 90061).text 0 0 ≡ 90061)
    × ((val2elapstr 90061).p ≡ length (val2elapstr 90061).text)
    × (length (val2elapstr 90061).text ≤ 13)
val2elapstr-read_elapsed_example = val2elapstr-read_elapsed 90061 (omega arith)

length-val2cpustr_example : length (val2cpustr 12345) ≡ 6
length-val2cpustr_example = length-val2cpustr 12345

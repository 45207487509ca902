-- ===== src/Text/Durations.antt =====
-- various.c: durations as text, `val2elapstr` and `val2cpustr`.
pub mod Digits
pub mod Laws
mod Tests
use atop.Prelude.{
  ℕ, zero, suc, ◌+◌, ◌-◌, ◌*◌, ◌/◌, ◌%◌, Bool, true, false, List, [], ◌∷◌, ◌++◌, ltb, leb,
  if◌then◌else◌, length,
}
use atop.Text.{take}

-- `%d` of a number: at most `fuel` digits. A 64-bit number has at most 20.
unfoldable pub digits : ℕ → ℕ → List ℕ
digits zero n = []
digits (suc fuel) n =
    let rest = digits fuel (n / 10) in
    if ltb n 10 then (b'0' + n) ∷ [] else rest ++ ((b'0' + n % 10) ∷ [])

abbrev pub decimal : ℕ → List ℕ
decimal n = digits 20 n

-- `%2d` and `%02d`, with the fill character.
unfoldable pub pad2 : ℕ → ℕ → List ℕ
pad2 fill n = if ltb n 10 then fill ∷ decimal n else decimal n

-- `DAYSECS`, `HOURSECS` and `MINSECS`
abbrev pub daysecs : ℕ
daysecs = 86400

abbrev pub hoursecs : ℕ
hoursecs = 3600

abbrev pub minsecs : ℕ
minsecs = 60

-- The variables of `val2elapstr`: what the buffer holds before `p`, and the bytes left from there.
-- `snprintf` writes one byte less than it may, and `p` and `n` move on by the whole length.
pub record Output : Type 0 where
  pub text : List ℕ
  pub p : ℕ
  pub n : ℕ

unfoldable pub append : List ℕ → Output → Output
append part o = record {
  text = o.text ++ take (o.n - 1) part;
  p = o.p + length part;
  n = o.n - length part;
}

-- The part of one unit, if the value is large enough.
unfoldable pub append_unit : ℕ → ℕ → ℕ → ℕ → Output → Output
append_unit value unit number letter o =
    if leb unit value then append (decimal number ++ (letter ∷ [])) o else o

-- `val2elapstr` on a value that is not negative: the text and the number of bytes that it returns.
unfoldable pub val2elapstr : ℕ → Output
val2elapstr value = append (decimal (value % minsecs) ++ (b's' ∷ [])) (
    append_unit value minsecs ((value % hoursecs) / minsecs) b'm' (
      append_unit value hoursecs ((value % daysecs) / hoursecs) b'h'
        (append_unit value daysecs (value / daysecs) b'd' (record { text = []; p = 0; n = 14 }))))

-- `%2llu`, a letter, `%02llu` and a letter, in a buffer of 7 bytes.
unfoldable pub two_parts : ℕ → ℕ → ℕ → ℕ → List ℕ
two_parts a letter b unit = take 6 (pad2 b' ' a ++ (letter ∷ (pad2 b'0' b ++ (unit ∷ []))))

-- `val2cpustr` on milliseconds: seconds, minutes, hours or days, always in the same width.
unfoldable pub val2cpustr : ℕ → List ℕ
val2cpustr value =
    if ltb value 100000
    then two_parts ((value / 1000) % 100) b'.' (value % 1000 / 10) b's'
    else let seconds = (value + 500) / 1000 in
      if ltb seconds 6000
      then two_parts ((seconds / 60) % 100) b'm' (seconds % 60) b's'
      else let minutes = (seconds + 30) / 60 in
        if ltb minutes 6000
        then two_parts ((minutes / 60) % 100) b'h' (minutes % 60) b'm'
        else let hours = (minutes + 30) / 60 in
          two_parts ((hours / 24) % 100) b'd' (hours % 24) b'h'

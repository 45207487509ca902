-- ===== src/Text/Values.antt =====
-- various.c: counters as text of a fixed width, `val2valstr`. With more than 15 places `pow(10.0, width) - 1`
-- is not exact any more: what the code does for a value that is not negative is left out there, and
-- the result is none. A width is a number, and at least 2 for an average per second.
pub mod Shrink
pub mod Near
pub mod Laws
mod Tests
use atop.Prelude.{
  ℕ, zero, suc, ◌+◌, ◌-◌, ◌*◌, ◌/◌, ◌%◌, ◌^◌, Bool, true, false, ◌&&◌, List, [], ◌∷◌, ◌++◌, Option,
  none, some, length, ltb, leb, if◌then◌else◌,
}
use atop.Prelude.Int.{ℤ, pos, negsuc, ◌+ℤ◌}
use atop.Prelude.Partial.{◌>>=◌}
use atop.Text.{take}
use atop.Text.Durations.{decimal}

-- Division of a `count_t` rounds towards zero.
abbrev pub negate : ℕ → ℤ
negate zero = pos 0
negate (suc n) = negsuc n

unfoldable pub div_ℤ : ℤ → ℕ → ℤ
div_ℤ (pos n) d = pos (n / d)
div_ℤ (negsuc n) d = negate (suc n / d)

abbrev pub spaces : ℕ → List ℕ
spaces zero = []
spaces (suc n) = b' ' ∷ spaces n

-- `%*lld` and `%*s`
abbrev pub pad : ℕ → List ℕ → List ℕ
pad width s = spaces (width - length s) ++ s

-- The loop that divides: the value, the exponent and the last remainder. A `count_t` is passed in
-- less than 20 rounds.
unfoldable pub shrink : ℕ → ℕ → ℕ → ℕ → ℕ → Option (ℕ × ℕ × ℕ)
shrink zero maxval value exp remain = none
shrink (suc fuel) maxval value exp remain =
    let rest = shrink fuel maxval (value / 10) (exp + 1) (value % 10) in
    if ltb maxval value then rest else some (value, exp, remain)

abbrev pub round_up : ℕ → ℕ → ℕ → ℕ
round_up maxval value remain = if leb 5 remain && ltb value maxval then value + 1 else value

-- A mantissa of this width, with its exponent and the suffix.
abbrev pub exponential : ℕ → ℕ → ℕ → List ℕ → List ℕ
exponential width value exp suffix =
    pad (width % 100) (decimal value) ++ (b'e' ∷ (decimal (exp % 100) ++ suffix))

-- What follows the choice of the suffix: `size` bytes are left for the text.
unfoldable pub valstr : ℤ → ℕ → List ℕ → ℕ → Option (List ℕ)
valstr (negsuc n) width suffix size = some (take size (pad width (b'?' ∷ []) ++ suffix))
valstr (pos value) width suffix size =
    let maxval = 10 ^ (width - 2) - 1 in
    if ltb 15 width
    then none
    else if ltb value (10 ^ width - 1)
    then some (take size (pad width (decimal value) ++ suffix))
    else if ltb width 3
    then some (take size (decimal value ++ suffix))
    else (shrink 20 maxval value 0 0 >>= λ (value', exp, remain).
        some (take size (exponential (width - 2) (round_up maxval value' remain) exp suffix)))

unfoldable pub val2valstr : ℤ → ℕ → Bool → ℕ → Option (List ℕ)
val2valstr value width avg nsecs =
    if avg && ltb 0 nsecs
    then valstr (div_ℤ (value +ℤ pos (nsecs / 2)) nsecs) (width - 2) (b'/' ∷ b's' ∷ []) width
    else valstr value width [] width

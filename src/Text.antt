-- ===== src/Text.antt =====
-- various.c: the functions on C strings that other parts call.
pub mod Durations
pub mod Cuts
pub mod Values
use atop.Prelude.{ℕ, zero, suc, Bool, true, false, ◌||◌, List, [], ◌∷◌, ltb, if◌then◌else◌}

-- The first bytes of a string.
abbrev pub take : ℕ → List ℕ → List ℕ
take zero s = []
take (suc n) [] = []
take (suc n) (c ∷ s) = c ∷ take n s

-- What comes after them.
abbrev pub drop : ℕ → List ℕ → List ℕ
drop zero l = l
drop (suc n) [] = []
drop (suc n) (x ∷ l) = drop n l

-- `safe_strcpy`: what the destination holds after the call. `strncat` appends to an empty string.
unfoldable pub safe_strcpy : List ℕ → List ℕ → ℕ → List ℕ
safe_strcpy dst src zero = dst
safe_strcpy dst src (suc size) = take size src

-- `numeric`: the loop leaves at the first byte that is no digit.
unfoldable pub numeric : List ℕ → Bool
numeric [] = true
numeric (c ∷ s) = let rest = numeric s in if ltb c b'0' || ltb b'9' c then false else rest

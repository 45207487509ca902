-- ===== src/Cgroups/Hash/Tests.antt =====
-- The hash of names, and names with one hash.
use atop.Prelude.{◌≡◌, refl, [], ◌∷◌, arith}
use atop.Prelude.Int.{pos, ◌+ℤ◌}
use atop.Cgroups.Hash.{char_times, weigh, hashcalc}
use atop.Cgroups.Hash.Paths.{hashcalc-collides}

-- The slash counts for nothing: 97 + 2 * 98.
slash_is_skipped : hashcalc (b'/' ∷ b'a' ∷ b'/' ∷ b'b' ∷ []) (pos 0) 0 ≡ pos 293
unfolding hashcalc weigh char_times ◌+ℤ◌
slash_is_skipped = refl

-- `s120` and `s201`.
hashcalc-collides_example :
    hashcalc (b's' ∷ b'1' ∷ b'2' ∷ b'0' ∷ []) (pos 0) 0
    ≡ hashcalc (b's' ∷ b'2' ∷ b'0' ∷ b'1' ∷ []) (pos 0) 0
hashcalc-collides_example =
    hashcalc-collides (b's' ∷ []) b'1' b'0' b'0' [] (pos 0) 0 (omega arith) (omega arith)
      (omega arith) (omega arith) (omega arith) (omega arith)

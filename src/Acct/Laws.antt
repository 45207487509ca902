-- ===== src/Acct/Laws.antt =====
-- The value of a compressed counter, and that it fits a counter.
use atop.Prelude.{ℕ, zero, suc, ◌*◌, ◌/◌, ◌%◌, ◌^◌, ◌≤◌, ◌<◌, ◌≡◌, ◌∙◌, ap, arith}
use native.Mathlib.Nat.{mul_assoc}
use atop.Acct.{shift_up, acctexp}

power : (exp : ℕ) → 8 * 8 ^ exp ≡ 8 ^ suc exp
power exp = omega arith

shift_up_lem : (exp val : ℕ) → shift_up exp val ≡ val * 8 ^ exp
unfolding shift_up
shift_up_lem zero val = omega arith
shift_up_lem (suc exp) val =
    shift_up_lem exp (val * 8) ∙ mul_assoc val 8 (8 ^ exp) ∙ ap (λ x. val * x) (power exp)

shift_up_mono : (exp a b : ℕ) → a ≤ b → shift_up exp a ≤ shift_up exp b
unfolding shift_up
shift_up_mono zero a b h = h
shift_up_mono (suc exp) a b h = shift_up_mono exp (a * 8) (b * 8) (omega arith)

-- The greatest mantissa, with every exponent.
shift_up_bound : (exp : ℕ) → exp < 8 → shift_up exp 8191 < 2 ^ 34
unfolding shift_up
shift_up_bound zero h = omega arith
shift_up_bound (suc zero) h = omega arith
shift_up_bound (suc (suc zero)) h = omega arith
shift_up_bound (suc (suc (suc zero))) h = omega arith
shift_up_bound (suc (suc (suc (suc zero)))) h = omega arith
shift_up_bound (suc (suc (suc (suc (suc zero))))) h = omega arith
shift_up_bound (suc (suc (suc (suc (suc (suc zero)))))) h = omega arith
shift_up_bound (suc (suc (suc (suc (suc (suc (suc zero))))))) h = omega arith
shift_up_bound (suc (suc (suc (suc (suc (suc (suc (suc exp)))))))) h = absurd (omega arith)

-- A compressed counter of 16 bits is expanded to its lower 13 bits times 8 to the power of its upper
-- 3 bits, and that is below 2^34: no shift of the loop overflows a 64-bit counter.
pub acctexp_lem :
    (ct : ℕ) → ct < 2 ^ 16 → (acctexp ct ≡ ct % 8192 * 8 ^ (ct / 8192)) × (acctexp ct < 2 ^ 34)
unfolding acctexp
acctexp_lem ct h =
    let e : ct / 8192 % 8 ≡ ct / 8192 = omega arith in
    let mono = shift_up_mono (ct / 8192 % 8) (ct % 8192) 8191 (omega arith) in
    let bound = shift_up_bound (ct / 8192 % 8) (omega arith) in
    (
      shift_up_lem (ct / 8192 % 8) (ct % 8192) ∙ ap (λ x. ct % 8192 * 8 ^ x) e,
      omega (arith, mono, bound),
    )

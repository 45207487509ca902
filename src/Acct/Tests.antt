-- ===== src/Acct/Tests.antt =====
-- Compressed counters.
use atop.Prelude.{◌≡◌, ◌<◌, ◌*◌, ◌^◌, ◌/◌, ◌%◌, refl, arith}
use atop.Acct.{shift_up, acctexp}
use atop.Acct.Laws.{acctexp_lem}

-- Mantissa 5 with exponent 2, and the greatest counter.
small : acctexp 16389 ≡ 320
unfolding shift_up acctexp
small = refl

greatest : acctexp 65535 ≡ 17177772032
unfolding shift_up acctexp
greatest = refl

acctexp_lem_example : (acctexp 16389 ≡ 16389 % 8192 * 8 ^ (16389 / 8192)) × (acctexp 16389 < 2 ^ 34)
acctexp_lem_example = acctexp_lem 16389 (omega arith)

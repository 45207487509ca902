-- ===== src/Acct.antt =====
-- acctproc.c: the counters of the accounting records of the kernel.
pub mod Laws
pub mod Reader
mod Tests
use atop.Prelude.{ℕ, zero, suc, ◌*◌, ◌/◌, ◌%◌, ◌^◌}

-- `while (exp-- > 0) val <<= 3;`
unfoldable pub shift_up : ℕ → ℕ → ℕ
shift_up zero val = val
shift_up (suc exp) val = shift_up exp (val * 2 ^ 3)

-- `acctexp`: a 16-bit number of 3 bits of exponent and 13 bits of mantissa.
unfoldable pub acctexp : ℕ → ℕ
acctexp ct = shift_up (ct / 2 ^ 13 % 8) (ct % 2 ^ 13)

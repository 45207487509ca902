-- ===== src/Task/Equal.antt =====
-- `memcmp(a, b, sizeof(struct tstat)) == EQ`: equality of the structures. Their reserved members and
-- padding are zero in every sample.
use atop.Prelude.Int.{ℤ}
use native.Mathlib.Decide.{ℕ_discrete}
use atop.Task.{Gen, Cpu, Tstat}

ℤ-discrete : Discrete ℤ
ℤ-discrete = hlevel ℕ_discrete

Gen-discrete : Discrete Gen
Gen-discrete = hlevel (ℕ_discrete, ℤ-discrete)

Cpu-discrete : Discrete Cpu
Cpu-discrete = hlevel (ℕ_discrete, ℤ-discrete)

unfoldable pub Tstat-discrete : Discrete Tstat
unfolding ℤ-discrete Gen-discrete Cpu-discrete ℕ_discrete
Tstat-discrete = hlevel (ℕ_discrete, ℤ-discrete, Gen-discrete, Cpu-discrete)

-- ===== src/System/Memory/Tests.antt =====
-- The memory counters of three samples.
use atop.Prelude.{◌≡◌, refl, ℕ, ◌+◌, [], ◌∷◌, arith}
use atop.Prelude.Int.{pos, minus_one}
use atop.System.Totals.{totals, last}
use atop.System.Memory.{Memstat, zero_memstat, mem_diff, total_mem}
use atop.System.Memory.Laws.{HasGrown, AddUp, totals-AddUp}

abbrev sample : ℕ → Memstat
sample n = record zero_memstat {
  freemem = pos 100;
  pgins = pos n;
  swouts = pos n;
  oomkills = minus_one;
}

-- A kernel without a count of killed processes.
unavailable : (mem_diff (sample 7) (sample 5)).oomkills ≡ minus_one
unfolding mem_diff
unavailable = refl

grown : (a b : ℕ) → HasGrown (sample a) (sample (a + b))
grown a b = record {
  pgouts = ground arith;
  pgins = ground arith;
  swouts = ground arith;
  swins = ground arith;
  zswouts = ground arith;
  zswins = ground arith;
  pgscans = ground arith;
  allocstall = ground arith;
  compactstall = ground arith;
}

totals-AddUp_example :
    AddUp
      (sample 5)
      zero_memstat
      (last (sample 5) (sample (5 + 2) ∷ sample (7 + 4) ∷ []))
      (totals mem_diff total_mem (sample 5) (sample (5 + 2) ∷ sample (7 + 4) ∷ []) zero_memstat)
totals-AddUp_example =
    totals-AddUp (sample 5) zero_memstat (sample (5 + 2) ∷ sample (7 + 4) ∷ [])
      (grown 5 2, (grown 7 4, tt))

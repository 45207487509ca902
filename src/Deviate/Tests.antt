-- ===== src/Deviate/Tests.antt =====
-- Counters and tasks on small samples.
use atop.Prelude.{ℕ, ◌≡◌, refl, Bool, true, false, List, [], ◌∷◌, arith}
use atop.Prelude.Int.{◌+ℤ◌, pos}
use atop.Task.{Tstat, zero_gen, zero_cpu, zero_mem, zero_dsk, zero_tstat}
use atop.Deviate.Count.{Event, grow, reset, total_deviation, total_amount, total_deviation_lem}
use atop.Deviate.Calc.{calcdiff}
use atop.Deviate.Calc.Laws.{HasGrown, AddsUp, calcdiff-AddsUp, HasReadings, IsSane, calcdiff-IsSane}

-- 7 events, a reset after which 3 are counted, and 4 more.
abbrev observed : List Event
observed = grow 7 ∷ reset 3 ∷ grow 4 ∷ []

total_deviation_lem_example : total_deviation 5 observed ≡ pos (total_amount observed)
total_deviation_lem_example = total_deviation_lem observed 5 (ground arith)

abbrev task : Bool → ℕ → ℕ → ℕ → Tstat
task idle ticks pages sectors = record zero_tstat {
  gen = record zero_gen { pid = 42; btime = 100; isproc = true; wasinactive = idle };
  cpu = record zero_cpu { utime = pos ticks; stime = pos ticks };
  mem = record zero_mem { minflt = pos pages; rmem = pos pages };
  dsk = record zero_dsk { rio = pos sectors; rsz = pos sectors };
}

grown : HasGrown (task false 20 30 40) (task false 25 31 48) (pos 200)
unfolding ◌+ℤ◌
grown = record {
  utime = ground arith;
  stime = ground arith;
  rundelay = ground arith;
  blkdelay = ground arith;
  nvcsw = ground arith;
  nivcsw = ground arith;
  rio = ground arith;
  rsz = ground arith;
  wio = ground arith;
  wsz = ground arith;
  cwsz = ground arith;
  minflt = ground arith;
  majflt = ground arith;
  tcpsnd = ground arith;
  tcpssz = ground arith;
  tcprcv = ground arith;
  tcprsz = ground arith;
  udpsnd = ground arith;
  udpssz = ground arith;
  udprcv = ground arith;
  udprsz = ground arith;
  user_ticks = ground arith;
  system_ticks = ground arith;
}

calcdiff-AddsUp_example :
    AddsUp
      (task false 20 30 40)
      (calcdiff zero_tstat (task false 25 31 48) (task false 20 30 40) false (pos 200))
      (task false 25 31 48)
calcdiff-AddsUp_example =
    calcdiff-AddsUp zero_tstat (task false 25 31 48) (task false 20 30 40) false (pos 200) refl
      grown

readings : HasReadings (task false 3 31 48)
readings = record {
  nvcsw = ground arith;
  nivcsw = ground arith;
  tcpsnd = ground arith;
  tcpssz = ground arith;
  tcprcv = ground arith;
  tcprsz = ground arith;
  udpsnd = ground arith;
  udpssz = ground arith;
  udprcv = ground arith;
  udprsz = ground arith;
}

-- The ticks have gone back from 20 to 3.
calcdiff-IsSane_example :
    IsSane (calcdiff zero_tstat (task false 3 31 48) (task false 20 30 40) false (pos 2)) (pos 2)
calcdiff-IsSane_example =
    calcdiff-IsSane zero_tstat (task false 3 31 48) (task false 20 30 40) false (pos 2) refl
      readings

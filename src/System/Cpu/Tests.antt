-- ===== src/System/Cpu/Tests.antt =====
-- A processor that goes offline and comes back.
use atop.Prelude.{
  get_elem?, ℕ, ◌+◌, ◌≡◌, refl, Bool, true, false, inl, inr, Option, none, some, List, [], ◌∷◌,
  arith,
}
use atop.Prelude.Int.{ℤ, pos, ◌+ℤ◌, ◌-ℤ◌}
use atop.Deviate.Count.{subcount}
use atop.System.Cpu.{
  Percpu, Cpustat, all_diff, freq_diff, cpu_diff, cpu_round, deviate_cpus, deviate_cpu, total_ticks,
  total_percpu, total_cpus, total_cpu,
}
use atop.System.Cpu.Laws.{HasGrown, last_online, AddUp}
use atop.System.Cpu.Machine.{watch, watch-AddUp}

abbrev reading : Bool → ℕ → Percpu
reading online n = record {
  cpunr = 3;
  online = online;
  stime = pos n;
  utime = pos n;
  ntime = pos 0;
  itime = pos 0;
  wtime = pos 0;
  irqtime = pos 0;
  softirqtime = pos 0;
  steal = pos 0;
  guest = pos 0;
  freqcnt = record { maxfreq = pos 0; cnt = pos 0; ticks = pos 0 };
  instr = pos 0;
  cycle = pos 0;
}

grown : (a b : ℕ) → HasGrown (reading true a) (reading true (a + b))
grown a b = record {
  stime = ground arith;
  utime = ground arith;
  ntime = ground arith;
  itime = ground arith;
  wtime = ground arith;
  irqtime = ground arith;
  softirqtime = ground arith;
  steal = ground arith;
  guest = ground arith;
}

-- 10 ticks, offline with an empty entry, and 15 ticks.
abbrev readings : List Percpu
readings = reading true (10 + 2) ∷ reading false 0 ∷ reading true (12 + 3) ∷ []

program : Unit {0}
unfolding subcount all_diff freq_diff cpu_diff cpu_round deviate_cpus deviate_cpu total_ticks
    total_percpu total_cpus total_cpu watch ◌-ℤ◌ ◌+ℤ◌
program = tt

abbrev machine : ℕ → List Percpu → Cpustat
machine maxcpu cpus = record {
  nrcpu = 2;
  maxcpu = maxcpu;
  devint = pos 0;
  csw = pos 0;
  nprocs = pos 0;
  lavg1 = 0;
  lavg5 = 0;
  lavg15 = 0;
  all = reading true 0;
  cpu = cpus;
}

abbrev cpus : Option (Cpustat × Cpustat) → Option (List Percpu × List Percpu)
cpus none = none
cpus (some r) = some (r.0.cpu, r.1.cpu)

-- The second processor was taken offline: its counters are kept.
taken_offline :
    cpus (
      deviate_cpu
        (machine 1 (reading true 12 ∷ reading false 0 ∷ []))
        (machine 2 (reading true 10 ∷ reading true 20 ∷ []))
        (machine 0 (reading true 0 ∷ reading true 0 ∷ [])))
    ≡ some (reading true 12 ∷ reading false 20 ∷ [], reading true 2 ∷ reading false 0 ∷ [])
unfolding program
taken_offline = refl

-- The same on a machine with three processors, of which the second one goes offline and comes back.
abbrev samples : List Cpustat
samples =
    machine 3 (reading true 7 ∷ reading true (10 + 2) ∷ reading true 1 ∷ [])
    ∷ machine 1 (reading true 7 ∷ reading false 0 ∷ reading true 1 ∷ [])
    ∷ machine 3 (reading true 8 ∷ reading true (12 + 3) ∷ reading true 2 ∷ [])
    ∷ []

abbrev start : Cpustat
start = machine 3 (reading true 6 ∷ reading true 10 ∷ reading true 0 ∷ [])

abbrev zeros : Cpustat
zeros = machine 0 (reading true 0 ∷ reading true 0 ∷ reading true 0 ∷ [])

abbrev stimes : Option Cpustat → List ℤ
stimes none = []
stimes (some s) = stimes_of s.cpu
  where
    stimes_of : List Percpu → List ℤ
    stimes_of [] = []
    stimes_of (c ∷ rest) = c.stime ∷ stimes_of rest

five_ticks : stimes (watch zeros start samples zeros) ≡ pos 2 ∷ pos 5 ∷ pos 2 ∷ []
unfolding program
five_ticks = refl

watch-AddUp_example :
    (tot' : Cpustat) × (t' : Percpu) × (watch zeros start samples zeros ≡ some tot')
    × (get_elem? tot'.cpu 1 ≡ some t')
    × AddUp (reading true 10) (reading true 0) (last_online (reading true 10) readings) t'
watch-AddUp_example =
    watch-AddUp 3 1 zeros start zeros samples (reading true 0) (reading true 10) (reading true 0)
      readings refl (refl, omega arith) refl (omega arith) refl refl refl
      (
        (refl, omega arith),
        refl,
        refl,
        ((refl, omega arith), refl, refl, ((refl, omega arith), refl, refl, tt)),
      )
      (inl (refl, grown 10 2, inr (refl, inl (refl, grown 12 3, tt))))

-- When one of two processors goes offline, the totals of the other one become those of both.
both_ticks :
    stimes (
      total_cpu
        (record (machine 2 (reading true 1 ∷ reading false 0 ∷ [])) {
          nrcpu = 1;
          all = reading true 1;
        })
        (record (machine 2 (reading true 30 ∷ reading true 40 ∷ [])) { all = reading true 70 }))
    ≡ pos 71 ∷ pos 40 ∷ []
unfolding program
both_ticks = refl

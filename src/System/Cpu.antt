-- ===== src/System/Cpu.antt =====
-- The processor counters: `deviatsyst` and `totalsyst` of deviate.c on `struct cpustat`.
pub mod Laws
pub mod Rounds
pub mod Machine
mod Tests
use atop.Prelude.{
  ℕ, zero, suc, Bool, true, false, Option, none, some, List, [], ◌∷◌, ltb, ◌==◌, if◌then◌else◌, set,
}
use atop.Prelude.Int.{ℤ, pos, ◌+ℤ◌, eqb_ℤ}
use atop.Prelude.Partial.{◌>>=◌}
use atop.Deviate.Count.{subcount}

-- `struct freqcnt`
pub record Freqcnt : Type 0 where
  pub maxfreq : ℤ
  pub cnt : ℤ
  pub ticks : ℤ

-- `struct percpu`; `Itime` and `Stime` of the C code, for interrupts, are `irqtime` and
-- `softirqtime` here.
pub record Percpu : Type 0 where
  pub cpunr : ℕ
  pub online : Bool
  pub stime : ℤ
  pub utime : ℤ
  pub ntime : ℤ
  pub itime : ℤ
  pub wtime : ℤ
  pub irqtime : ℤ
  pub softirqtime : ℤ
  pub steal : ℤ
  pub guest : ℤ
  pub freqcnt : Freqcnt
  pub instr : ℤ
  pub cycle : ℤ

-- `struct cpustat`: the load averages are the bit patterns of floating-point numbers.
pub record Cpustat : Type 0 where
  pub nrcpu : ℕ
  pub maxcpu : ℕ
  pub devint : ℤ
  pub csw : ℤ
  pub nprocs : ℤ
  pub lavg1 : ℕ
  pub lavg5 : ℕ
  pub lavg15 : ℕ
  pub all : Percpu
  pub cpu : List Percpu

-- The counters of all processors, or of one of them.
unfoldable pub all_diff : Percpu → Percpu → Percpu → Percpu
unfolding subcount
all_diff dev cur pre = record dev {
  stime = subcount cur.stime pre.stime;
  utime = subcount cur.utime pre.utime;
  ntime = subcount cur.ntime pre.ntime;
  itime = subcount cur.itime pre.itime;
  wtime = subcount cur.wtime pre.wtime;
  irqtime = subcount cur.irqtime pre.irqtime;
  softirqtime = subcount cur.softirqtime pre.softirqtime;
  steal = subcount cur.steal pre.steal;
  guest = subcount cur.guest pre.guest;
  instr = subcount cur.instr pre.instr;
  cycle = subcount cur.cycle pre.cycle;
}

-- Without a number of ticks the count is the frequency itself.
unfoldable pub freq_diff : Freqcnt → Freqcnt → Freqcnt
unfolding subcount
freq_diff cur pre = record {
  maxfreq = cur.maxfreq;
  cnt = if eqb_ℤ cur.ticks (pos 0) then cur.cnt else subcount cur.cnt pre.cnt;
  ticks = if eqb_ℤ cur.ticks (pos 0) then cur.ticks else subcount cur.ticks pre.ticks;
}

unfoldable pub cpu_diff : Percpu → Percpu → Percpu → Percpu
unfolding freq_diff
cpu_diff dev cur pre = record (all_diff dev cur pre) {
  cpunr = cur.cpunr;
  online = cur.online;
  freqcnt = freq_diff cur.freqcnt pre.freqcnt;
}

-- One processor: its entries in the current sample and in the deviations. One that is offline
-- keeps its previous counters.
unfoldable pub cpu_round : Percpu → Percpu → Percpu → Percpu × Percpu
cpu_round dev cur pre =
    if cur.online
    then (cur, cpu_diff dev cur pre)
    else (record pre { online = false }, record dev { online = false })

-- The loop over the processors, on the rounds left: the arrays of the current sample and of the
-- deviations.
unfoldable pub deviate_cpus :
    ℕ → List Percpu → List Percpu → List Percpu → Option (List Percpu × List Percpu)
deviate_cpus zero cur pre dev = some (cur, dev)
deviate_cpus (suc n) [] pre dev = none
deviate_cpus (suc n) (c ∷ cur) [] dev = none
deviate_cpus (suc n) (c ∷ cur) (p ∷ pre) [] = none
deviate_cpus (suc n) (c ∷ cur) (p ∷ pre) (d ∷ dev) = do
  let (c', d') = cpu_round d c p
  (cur', dev') ← deviate_cpus n cur pre dev
  some (c' ∷ cur', d' ∷ dev')

-- The part of `deviatsyst` on processors: the current sample and the deviations.
unfoldable pub deviate_cpu : Cpustat → Cpustat → Cpustat → Option (Cpustat × Cpustat)
unfolding subcount
deviate_cpu cur pre dev = do
  let maxcpu = if ltb cur.maxcpu pre.maxcpu then pre.maxcpu else cur.maxcpu
  (cpus, devs) ← deviate_cpus maxcpu cur.cpu pre.cpu dev.cpu
  some (
    record cur { maxcpu = maxcpu; cpu = cpus },
    record {
      nrcpu = cur.nrcpu;
      maxcpu = maxcpu;
      devint = subcount cur.devint pre.devint;
      csw = subcount cur.csw pre.csw;
      nprocs = subcount cur.nprocs pre.nprocs;
      lavg1 = cur.lavg1;
      lavg5 = cur.lavg5;
      lavg15 = cur.lavg15;
      all = all_diff dev.all cur.all pre.all;
      cpu = devs;
    },
  )

-- `totalsyst`, category 'c', on the ticks of all processors or of one.
unfoldable pub total_ticks : Percpu → Percpu → Percpu
unfolding ◌+ℤ◌
total_ticks new tot = record tot {
  stime = tot.stime +ℤ new.stime;
  utime = tot.utime +ℤ new.utime;
  ntime = tot.ntime +ℤ new.ntime;
  itime = tot.itime +ℤ new.itime;
  wtime = tot.wtime +ℤ new.wtime;
  irqtime = tot.irqtime +ℤ new.irqtime;
  softirqtime = tot.softirqtime +ℤ new.softirqtime;
  steal = tot.steal +ℤ new.steal;
  guest = tot.guest +ℤ new.guest;
}

unfoldable pub total_percpu : Percpu → Percpu → Percpu
total_percpu new tot =
    if new.online
    then (record (total_ticks new tot) { cpunr = new.cpunr; online = new.online })
    else tot

unfoldable pub total_cpus : ℕ → List Percpu → List Percpu → Option (List Percpu)
total_cpus zero new tot = some tot
total_cpus (suc n) [] tot = none
total_cpus (suc n) (x ∷ new) [] = none
total_cpus (suc n) (x ∷ new) (t ∷ tot) = do
  tot' ← total_cpus n new tot
  some (total_percpu x t ∷ tot')

-- `totalsyst`, category 'c'. The only processor of a machine gets the totals of all processors.
unfoldable pub total_cpu : Cpustat → Cpustat → Option Cpustat
unfolding ◌+ℤ◌
total_cpu new tot = do
  let all = total_ticks new.all tot.all
  cpus ←
      if new.nrcpu == 1
      then elim tot.cpu [ [] ↦ none | _ ∷ cpus ↦ some (all ∷ cpus) ]
      else total_cpus new.maxcpu new.cpu tot.cpu
  some (record {
    nrcpu = new.nrcpu;
    maxcpu = new.maxcpu;
    devint = tot.devint +ℤ new.devint;
    csw = tot.csw +ℤ new.csw;
    nprocs = tot.nprocs +ℤ new.nprocs;
    lavg1 = new.lavg1;
    lavg5 = new.lavg5;
    lavg15 = new.lavg15;
    all = all;
    cpu = cpus;
  })

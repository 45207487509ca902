-- ===== src/Deviate/Tasks/ExitLaws.antt =====
-- What `deviattask` reports for an exited process.
use atop.Prelude.{
  ℕ, ◌⊎◌, inl, inr, Bool-cases, ◌≡◌, refl, sym, subst, Bool, true, arith, if◌then◌else◌,
}
use atop.Prelude.Int.{ℤ, pos, ◌+ℤ◌, ◌-ℤ◌, ◌≤ℤ◌, ltb_ℤ, minus_one, int_laws}
use atop.Task.{Tstat, zero_tstat}
use atop.Deviate.Calc.{in_use}
use atop.Deviate.Tasks.Exits.{surplus, exit_gen, exit_cpu, exit_mem, exit_dsk, exit_gpu, exit_diff}

-- The network counters are all that the kernel module's records fill in.
pub record FillsNet (exitfind : ℕ → Tstat → Tstat → Tstat) : Type 0 where
  pub cpu : (key : ℕ) (dev pre : Tstat) → (exitfind key dev pre).cpu ≡ dev.cpu
  pub mem : (key : ℕ) (dev pre : Tstat) → (exitfind key dev pre).mem ≡ dev.mem
  pub dsk : (key : ℕ) (dev pre : Tstat) → (exitfind key dev pre).dsk ≡ dev.dsk
  pub gpu : (key : ℕ) (dev pre : Tstat) → (exitfind key dev pre).gpu ≡ dev.gpu

-- The reported value of a counter: what it grew by, and nothing if it reads less than before.
abbrev pub IsSurplus : ℤ → ℤ → ℤ → Type 0
IsSurplus old dev new =
    ((old ≤ℤ new) × (pos 0 ≤ℤ dev) × (old +ℤ dev ≡ new)) ⊎ ((new ≤ℤ old) × (dev ≡ pos 0))

surplus-IsSurplus : (old new : ℤ) → IsSurplus old (surplus new old) new
unfolding surplus ◌+ℤ◌ ◌-ℤ◌
surplus-IsSurplus old new = elim (Bool-cases (ltb_ℤ old new)) [
  | inl e ↦ inl (ground arith)
  | inr ne ↦ inr (ground arith)
]

sub_twice : (n a b : ℤ) → n -ℤ (a +ℤ b) ≡ n -ℤ a -ℤ b
sub_twice n a b = omega int_laws

disk-IsSurplus :
    (rio wio new : ℤ)
    → IsSurplus (rio +ℤ wio) (if ltb_ℤ (rio +ℤ wio) new then new -ℤ rio -ℤ wio else pos 0) new
unfolding surplus
disk-IsSurplus rio wio new =
    subst (λ d. IsSurplus (rio +ℤ wio) (if ltb_ℤ (rio +ℤ wio) new then d else pos 0) new)
      (sub_twice new rio wio) (surplus-IsSurplus (rio +ℤ wio) new)

-- The deviations of an exited process against its last known sample.
pub record ExitAddsUp (pre dev cur : Tstat) : Type 0 where
  pub utime : IsSurplus pre.cpu.utime dev.cpu.utime cur.cpu.utime
  pub stime : IsSurplus pre.cpu.stime dev.cpu.stime cur.cpu.stime
  pub minflt : IsSurplus pre.mem.minflt dev.mem.minflt cur.mem.minflt
  pub majflt : IsSurplus pre.mem.majflt dev.mem.majflt cur.mem.majflt
  pub rio : IsSurplus (pre.dsk.rio +ℤ pre.dsk.wio) dev.dsk.rio cur.dsk.rio

module _ (exitfind : ℕ → Tstat → Tstat → Tstat) (fills : FillsNet exitfind) (by_pid : Bool) where
  filled : Tstat → Tstat → Tstat
  filled cur pre = record zero_tstat {
    gen = exit_gen cur.gen pre.gen;
    cpu = exit_cpu cur.cpu pre.cpu;
    mem = exit_mem cur.mem pre.mem;
    dsk = exit_dsk cur.dsk pre.dsk;
  }

  key : Tstat → ℕ
  key cur = if by_pid then cur.gen.pid else cur.gen.btime

  -- Where the lookup in the kernel module only fills in network counters: for an exited process the
  -- reported ticks, page faults and disk transfers (reads and writes of
  -- the last sample taken together) are what the counter grew by since the last known sample,
  -- and zero where the accounting record holds less than that sample.
  pub exit_diff-ExitAddsUp :
      (cur pre : Tstat) → ExitAddsUp pre (exit_diff exitfind by_pid cur pre) cur
  unfolding exit_diff exit_cpu exit_mem exit_dsk filled key
  exit_diff-ExitAddsUp cur pre =
      let dev = filled cur pre in
      let k = key cur in
      record {
        utime =
            subst (λ c. IsSurplus pre.cpu.utime c.utime cur.cpu.utime) (sym (fills.cpu k dev pre))
              (surplus-IsSurplus pre.cpu.utime cur.cpu.utime);
        stime =
            subst (λ c. IsSurplus pre.cpu.stime c.stime cur.cpu.stime) (sym (fills.cpu k dev pre))
              (surplus-IsSurplus pre.cpu.stime cur.cpu.stime);
        minflt =
            subst (λ c. IsSurplus pre.mem.minflt c.minflt cur.mem.minflt)
              (sym (fills.mem k dev pre)) (surplus-IsSurplus pre.mem.minflt cur.mem.minflt);
        majflt =
            subst (λ c. IsSurplus pre.mem.majflt c.majflt cur.mem.majflt)
              (sym (fills.mem k dev pre)) (surplus-IsSurplus pre.mem.majflt cur.mem.majflt);
        rio =
            subst (λ c. IsSurplus (pre.dsk.rio +ℤ pre.dsk.wio) c.rio cur.dsk.rio)
              (sym (fills.dsk k dev pre)) (disk-IsSurplus pre.dsk.rio pre.dsk.wio cur.dsk.rio);
      }

  -- Where the lookup in the kernel module only fills in network counters, and for a process that
  -- used a GPU at its end neither busy percentage is available (-1) then and the one of the
  -- processor was not in its last sample either, the memory percentage is reported as -1 and the other one as 0.
  pub exit_diff-loses_busy :
      (cur pre : Tstat)
      → in_use cur.gpu.state ≡ true
      → cur.gpu.gpubusycum ≡ minus_one
      → cur.gpu.membusycum ≡ minus_one
      → pre.gpu.gpubusycum ≡ minus_one
      → let dev = exit_diff exitfind by_pid cur pre in
        (dev.gpu.membusycum ≡ minus_one) × (dev.gpu.gpubusycum ≡ pos 0)
  unfolding exit_diff exit_gpu filled key ◌-ℤ◌
  exit_diff-loses_busy cur pre used busy mem old =
      rw (fills.gpu (key cur) (filled cur pre) pre, used, busy, mem, old) (refl, refl)

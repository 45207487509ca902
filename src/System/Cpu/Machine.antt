-- ===== src/System/Cpu/Machine.antt =====
-- Runs of samples of a whole machine: `deviatsyst` and `totalsyst` on the arrays of processors.
use atop.Prelude.{
  ℕ, ◌≤◌, ◌<◌, ◌≡◌, refl, ap, ◌∙◌, false, Option, some, List, [], ◌∷◌, length, get_elem?, ltb, ◌==◌,
  if◌then◌else◌, arith,
}
use atop.Prelude.Partial.{◌>>=◌}
use atop.Prelude.Int.{◌+ℤ◌}
use atop.Deviate.Count.{subcount}
use atop.System.Cpu.{
  Percpu, Cpustat, all_diff, cpu_round, deviate_cpu, total_ticks, total_percpu, total_cpu,
}
use atop.System.Cpu.Rounds.{deviate_cpus-Rounds, total_cpus-get}
use atop.System.Cpu.Laws.{IsWatched, last_online, watch_cpu, AddUp, watch_cpu-AddUp}

-- The samples are subtracted by `deviatsyst`, into a structure `dev` with any contents, and added up by
-- `totalsyst`.
unfoldable pub watch : Cpustat → Cpustat → List Cpustat → Cpustat → Option Cpustat
watch dev pre [] tot = some tot
watch dev pre (cur ∷ curs) tot = deviate_cpu cur pre dev >>= λ (cur', dev').
    total_cpu dev' tot >>= λ tot'. watch dev' cur' curs tot'

-- The arrays have `size` entries, and the processors are among them.
abbrev pub HasArray : ℕ → Cpustat → Type 0
HasArray size s = (length s.cpu ≡ size) × (s.maxcpu ≤ size)

abbrev larger : Cpustat → Cpustat → ℕ
larger cur pre = if ltb cur.maxcpu pre.maxcpu then pre.maxcpu else cur.maxcpu

abbrev deviated : Cpustat → Cpustat → Cpustat → List Percpu × List Percpu → Cpustat × Cpustat
deviated cur pre dev (cpus, devs) = (
  record cur { maxcpu = larger cur pre; cpu = cpus },
  record {
    nrcpu = cur.nrcpu;
    maxcpu = larger cur pre;
    devint = subcount cur.devint pre.devint;
    csw = subcount cur.csw pre.csw;
    nprocs = subcount cur.nprocs pre.nprocs;
    lavg1 = cur.lavg1;
    lavg5 = cur.lavg5;
    lavg15 = cur.lavg15;
    all = all_diff dev.all cur.all pre.all;
    cpu = devs;
  },
)

abbrev IsDeviated : ℕ → ℕ → Cpustat → Cpustat → Cpustat → Percpu → Percpu → Percpu → Type 0
IsDeviated size i cur pre dev c p d =
    (cur' : Cpustat) × (dev' : Cpustat) × (deviate_cpu cur pre dev ≡ some (cur', dev'))
    × HasArray size cur'
    × (i < cur'.maxcpu)
    × HasArray size dev'
    × (i < dev'.maxcpu)
    × (dev'.nrcpu ≡ cur.nrcpu)
    × (get_elem? cur'.cpu i ≡ some (cpu_round d c p).0)
    × (get_elem? dev'.cpu i ≡ some (cpu_round d c p).1)

deviate_step :
    (size i : ℕ) (cur pre dev : Cpustat) (c p d : Percpu)
    → HasArray size cur
    → HasArray size pre
    → length dev.cpu ≡ size
    → i < pre.maxcpu
    → get_elem? cur.cpu i ≡ some c
    → get_elem? pre.cpu i ≡ some p
    → get_elem? dev.cpu i ≡ some d
    → IsDeviated size i cur pre dev c p d
unfolding deviate_cpu
deviate_step size i cur pre dev c p d (cl, cm) (pl, pm) dl h ec ep ed =
    let most : larger cur pre ≤ size = ground arith in
    let least : i < larger cur pre = ground arith in
    let (cpus, devs, e, k, l, rounds) =
      deviate_cpus-Rounds (larger cur pre) cur.cpu pre.cpu dev.cpu (omega arith) (omega arith)
        (omega arith) in
    let (a, b) = rounds i c p d least ec ep ed in
    (
      (deviated cur pre dev (cpus, devs)).0,
      (deviated cur pre dev (cpus, devs)).1,
      ap (λ o. o >>= λ r. some (deviated cur pre dev r)) e,
      (k ∙ cl, most),
      least,
      (l ∙ dl, most),
      least,
      refl,
      a,
      b,
    )

abbrev totalled_cpus : Cpustat → Cpustat → List Percpu → Cpustat
totalled_cpus new tot cpus = record {
  nrcpu = new.nrcpu;
  maxcpu = new.maxcpu;
  devint = tot.devint +ℤ new.devint;
  csw = tot.csw +ℤ new.csw;
  nprocs = tot.nprocs +ℤ new.nprocs;
  lavg1 = new.lavg1;
  lavg5 = new.lavg5;
  lavg15 = new.lavg15;
  all = total_ticks new.all tot.all;
  cpu = cpus;
}

total_step :
    (size i : ℕ) (new tot : Cpustat) (x t : Percpu)
    → HasArray size new
    → length tot.cpu ≡ size
    → (new.nrcpu == 1) ≡ false
    → i < new.maxcpu
    → get_elem? new.cpu i ≡ some x
    → get_elem? tot.cpu i ≡ some t
    → (tot' : Cpustat) × (total_cpu new tot ≡ some tot')
      × (length tot'.cpu ≡ size)
      × (get_elem? tot'.cpu i ≡ some (total_percpu x t))
unfolding total_cpu
total_step size i new tot x t (nl, nm) tl several h ex et =
    let (cpus, e, k, gets) =
      total_cpus-get new.maxcpu new.cpu tot.cpu (omega arith) (omega arith) in
    (totalled_cpus new tot cpus, rw (total_cpu, several, e) refl, k ∙ tl, gets i x t h ex et)

-- All samples have this array, more than one processor is online (`nrcpu`) or none, and the entries of
-- processor `i` are these.
abbrev pub AreSamples : ℕ → ℕ → List Cpustat → List Percpu → Type 0
AreSamples size i [] [] = Unit
AreSamples size i [] (c ∷ cs) = ⊥
AreSamples size i (cur ∷ curs) [] = ⊥
AreSamples size i (cur ∷ curs) (c ∷ cs) =
    HasArray size cur
    × ((cur.nrcpu == 1) ≡ false)
    × (get_elem? cur.cpu i ≡ some c)
    × AreSamples size i curs cs

watch-watch_cpu :
    (size i : ℕ) (dev pre tot : Cpustat) (curs : List Cpustat) (d p t : Percpu) (cs : List Percpu)
    → length dev.cpu ≡ size
    → HasArray size pre
    → length tot.cpu ≡ size
    → i < pre.maxcpu
    → get_elem? dev.cpu i ≡ some d
    → get_elem? pre.cpu i ≡ some p
    → get_elem? tot.cpu i ≡ some t
    → AreSamples size i curs cs
    → (tot' : Cpustat) × (watch dev pre curs tot ≡ some tot')
      × (get_elem? tot'.cpu i ≡ some (watch_cpu d p cs t))
unfolding watch watch_cpu
watch-watch_cpu size i dev pre tot [] d p t [] dl pa tl h ed ep et s = (tot, refl, et)
watch-watch_cpu size i dev pre tot [] d p t (c ∷ cs) dl pa tl h ed ep et s = absurd s
watch-watch_cpu size i dev pre tot (cur ∷ curs) d p t [] dl pa tl h ed ep et s = absurd s
watch-watch_cpu size i dev pre tot (cur ∷ curs) d p t (c ∷ cs) dl pa tl h ed ep et
      (ca, several, ec, s) =
    let (cur', dev', e, ca', h', da', hd, nr, ec', ed') =
      deviate_step size i cur pre dev c p d ca pa dl h ec ep ed in
    let (tot', f, tl', et') =
      total_step size i dev' tot (cpu_round d c p).1 t da' tl (ap (λ n. n == 1) nr ∙ several) hd ed'
        et in
    let (end, g, got) =
      watch-watch_cpu size i dev' cur' tot' curs (cpu_round d c p).1 (cpu_round d c p).0
        (total_percpu (cpu_round d c p).1 t) cs da'.0 ca' tl' h' ed' ec' et' s in
    (
      end,
      ap (λ o. o >>= λ (x, y). total_cpu y tot >>= λ z. watch y x curs z) e
          ∙ ap (λ o. o >>= λ z. watch dev' cur' curs z) f
          ∙ g,
      got,
    )

-- A processor of a machine may go offline and come back: over any run of samples in none of which exactly
-- one processor is online, where all arrays have the same size, the processors of each sample are within
-- it, processor `i` is one of those of the first sample, and its ticks do not go back from one
-- sample in which it is online to the next one, the samples are subtracted and added up without
-- an access outside the arrays, and the totals of the processor that `totalsyst` makes of the
-- deviations of `deviatsyst` have grown by exactly the difference of its last online reading and
-- the first reading, whatever its entries in the samples in between say.
pub watch-AddUp :
    (size i : ℕ) (dev pre tot : Cpustat) (curs : List Cpustat) (d p t : Percpu) (cs : List Percpu)
    → length dev.cpu ≡ size
    → HasArray size pre
    → length tot.cpu ≡ size
    → i < pre.maxcpu
    → get_elem? dev.cpu i ≡ some d
    → get_elem? pre.cpu i ≡ some p
    → get_elem? tot.cpu i ≡ some t
    → AreSamples size i curs cs
    → IsWatched p cs
    → (tot' : Cpustat) × (t' : Percpu) × (watch dev pre curs tot ≡ some tot')
      × (get_elem? tot'.cpu i ≡ some t')
      × AddUp p t (last_online p cs) t'
watch-AddUp size i dev pre tot curs d p t cs dl pa tl h ed ep et s w =
    let (tot', e, got) = watch-watch_cpu size i dev pre tot curs d p t cs dl pa tl h ed ep et s in
    (tot', watch_cpu d p cs t, e, got, watch_cpu-AddUp d p t cs w)

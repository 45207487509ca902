-- ===== src/Deviate/Tasks/Exits.antt =====
-- `deviattask`, the exited processes: each is compared with what the database knows of it.
use atop.Prelude.{
  ℕ, suc, ◌+◌, Bool, true, false, not, ◌||◌, Option, none, some, List, [], ◌∷◌, ltb, ◌==◌,
  if◌then◌else◌, set,
}
use atop.Prelude.Int.{ℤ, pos, ◌+ℤ◌, ◌-ℤ◌, ltb_ℤ, eqb_ℤ, minus_one}
use atop.Prelude.Partial.{◌>>=◌}
use atop.Task.{Gen, Cpu, Dsk, Mem, Gpu, Tstat, zero_tstat, zero_cpu, zero_dsk, zero_mem}
use atop.Text.{safe_strcpy}
use atop.ProcDb.{ProcDb, gettask, deltask, srchresidue}
use atop.Deviate.Calc.{mark_new, in_use}
use atop.Deviate.Tasks.{Loop}

-- The statistics at an address.
abbrev pub load : ℕ → ProcDb → Option (Tstat × ProcDb)
load a db = elim (db.heap a) [ none ↦ none | some t ↦ some (t, db) ]

-- `prestat`: the last known sample of an exited process, or zeros. Without a pid in the accounting
-- record a process that was started before the previous sample is looked for in the RESIDUE list.
unfoldable pub exit_prestat : ℕ → Tstat → ProcDb → Option (Tstat × ProcDb)
exit_prestat pretime cur db =
    if not (cur.gen.pid == 0)
    then (do
      (found, db') ← gettask cur.gen.pid true cur.gen.btime db
      elim found [ none ↦ some (zero_tstat, db') | some a ↦ load a db' ])
    else if ltb pretime cur.gen.btime
    then some (zero_tstat, db)
    else (do
      found ← srchresidue cur db
      elim found [ none ↦ some (zero_tstat, db) | some a ↦ load a db ])

-- The sizes of `cmdline` and `utsname`.
abbrev pub cmdline_size : ℕ
cmdline_size = 256

abbrev pub utsname_size : ℕ
utsname_size = 40

unfoldable pub exit_gen : Gen → Gen → Gen
unfolding safe_strcpy mark_new
exit_gen cur pre = record cur {
  pid = if cur.pid == 0 then pre.pid else cur.pid;
  excode = if pre.pid == 0 then mark_new cur.excode else cur.excode;
  cmdline = safe_strcpy cur.cmdline pre.cmdline cmdline_size;
  utsname = safe_strcpy cur.utsname pre.utsname utsname_size;
}

-- `if (cur > pre) dev = cur - pre`, on memory that is zero.
unfoldable pub surplus : ℤ → ℤ → ℤ
unfolding ◌-ℤ◌
surplus cur pre = if ltb_ℤ pre cur then cur -ℤ pre else pos 0

unfoldable pub exit_cpu : Cpu → Cpu → Cpu
unfolding surplus
exit_cpu cur pre = record zero_cpu {
  curcpu = minus_one;
  stime = surplus cur.stime pre.stime;
  utime = surplus cur.utime pre.utime;
}

unfoldable pub exit_mem : Mem → Mem → Mem
unfolding surplus
exit_mem cur pre = record zero_mem {
  minflt = surplus cur.minflt pre.minflt;
  majflt = surplus cur.majflt pre.majflt;
}

unfoldable pub exit_dsk : Dsk → Dsk → Dsk
unfolding ◌-ℤ◌ ◌+ℤ◌
exit_dsk cur pre = record zero_dsk {
  rio = if ltb_ℤ (pre.rio +ℤ pre.wio) cur.rio then cur.rio -ℤ pre.rio -ℤ pre.wio else pos 0;
}

-- The test on the busy percentage reads the result's own field, that on the memory percentage the
-- current sample.
unfoldable pub exit_gpu : Gpu → Gpu → Gpu → Gpu
unfolding ◌-ℤ◌
exit_gpu dev cur pre =
    if in_use cur.state || in_use pre.state
    then (record {
      state = if in_use cur.state then cur.state else pre.state;
      type = cur.type;
      nrgpus = cur.nrgpus;
      gpulist = cur.gpulist;
      memnow = cur.memnow;
      memcum = cur.memcum -ℤ pre.memcum;
      gpubusycum =
          if not (eqb_ℤ dev.gpubusycum minus_one)
          then cur.gpubusycum -ℤ pre.gpubusycum
          else minus_one;
      membusycum =
          if not (eqb_ℤ cur.membusycum minus_one)
          then cur.membusycum -ℤ pre.membusycum
          else minus_one;
      samples = cur.samples -ℤ pre.samples;
    })
    else (record dev { state = 0 })

-- `netatop_exitfind` or `netatop_bpf_exitfind`, whichever the support flags select: it fills in the
-- network counters of the second argument. The key is the pid if the first record has one, and
-- else the start time.
module _ (exitfind : ℕ → Tstat → Tstat → Tstat) (by_pid : Bool) where
  unfoldable pub exit_diff : Tstat → Tstat → Tstat
  exit_diff cur pre =
      let dev : Tstat = record zero_tstat {
        gen = exit_gen cur.gen pre.gen;
        cpu = exit_cpu cur.cpu pre.cpu;
        mem = exit_mem cur.mem pre.mem;
        dsk = exit_dsk cur.dsk pre.dsk;
      } in
      let dev' = exitfind (if by_pid then cur.gen.pid else cur.gen.btime) dev pre in
      record dev' { gpu = exit_gpu dev'.gpu cur.gpu pre.gpu }

  -- One exited process, the entry `d` of `taskall`. A process that was known leaves the database.
  unfoldable pub exit_task : ℕ → ℕ → Tstat → Loop → Option Loop
  exit_task pretime d cur₀ s = do
    let cur : Tstat = record cur₀ { gen = record cur₀.gen { wasinactive = false } }
    (pre, db) ← exit_prestat pretime cur s.db
    let devs = record s.dev {
      nprocall = s.dev.nprocall + 1;
      nprocactive = s.dev.nprocactive + 1;
      ntaskactive = s.dev.ntaskactive + 1;
      taskall = set s.dev.taskall d (exit_diff cur pre);
    }
    if ltb 0 pre.gen.pid
        then (do
          (_, db') ← deltask pre.gen.pid pre.gen.isproc db
          some (record s { db = db'; dev = devs }))
        else some (record s { db = db; dev = devs })

  unfoldable pub exit_tasks : ℕ → ℕ → List Tstat → Loop → Option Loop
  exit_tasks pretime d [] s = some s
  exit_tasks pretime d (cur ∷ curs) s =
      exit_task pretime d cur s >>= exit_tasks pretime (suc d) curs

-- ===== src/Deviate/Tasks/Leave.antt =====
-- The loop of `deviattask` over the exited processes.
use atop.Prelude.{
  ℕ, suc, ◌+◌, ◌≤◌, ◌<◌, ◌≡◌, refl, ◌∙◌, ap, subst, inl, inr, Bool, true, false, some, List, [],
  ◌∷◌, arith, ltb, if◌then◌else◌, Bool-cases, length, has, erase, set, length-set,
  count_to-set_next, has-erase,
}
use atop.Task.{Tstat, zero_tstat}
use atop.ProcDb.{ProcDb, deltask}
use atop.ProcDb.Inv.{Holds, IsWf, unlink-IsWf}
use atop.ProcDb.Sweep.{HasUniqueKeys, removed, deltask-removed}
use atop.Deviate.Tasks.{Devtstat, Loop}
use atop.Deviate.Tasks.Counts.{IsCounted, is_process, is_active, is_active_process}
use atop.Deviate.Tasks.Exits.{
  exit_prestat, exit_gen, exit_gpu, exit_diff, exit_task, exit_tasks, load,
}
use atop.Deviate.Tasks.Left.{
  IsOther, Left, Previous, unknown, by_pid, by_search, exit_prestat-Previous, unchanged-Left,
  removed-Left,
}

-- `u` is none of the exited processes.
abbrev pub IsNone : Tstat → List Tstat → Type 0
IsNone u [] = Unit
IsNone u (cur ∷ curs) = IsOther u cur × IsNone u curs

-- Every accounting record is that of a process.
abbrev pub AreProcesses : List Tstat → Type 0
AreProcesses [] = Unit
AreProcesses (cur ∷ curs) = (cur.gen.isproc ≡ true) × AreProcesses curs

-- The database after all the exited processes.
pub record AllLeft (curs : List Tstat) (db db' : ProcDb) : Type 0 where
  pub valid : IsWf db'
  pub unique : HasUniqueKeys db'
  pub only :
      (a : ℕ) (u : Tstat) → Holds db' a u → Holds db a u × (has a db'.residue ≡ has a db.residue)
  pub kept :
      (a : ℕ) (u : Tstat)
      → Holds db a u
      → has a db.residue ≡ false
      → IsNone u curs
      → Holds db' a u × (has a db'.residue ≡ false)

-- What one exited process leaves behind it.
pub record ExitOf (n d : ℕ) (cur : Tstat) (db : ProcDb) (s : Loop) : Type 0 where
  pub counted : IsCounted n (suc d) s
  pub left : Left cur db s.db

-- The network counters are all that the kernel module's records fill in.
abbrev pub KeepsGen : (ℕ → Tstat → Tstat → Tstat) → Type 0
KeepsGen exitfind = (key : ℕ) (dev pre : Tstat) → (exitfind key dev pre).gen ≡ dev.gen

module _ (exitfind : ℕ → Tstat → Tstat → Tstat) (keeps : KeepsGen exitfind) (by_pid? : Bool)
    (pretime : ℕ) where
  exit_diff-flags :
      (cur pre : Tstat)
      → let dev = exit_diff exitfind by_pid? cur pre in
        (dev.gen.isproc ≡ cur.gen.isproc) × (dev.gen.wasinactive ≡ cur.gen.wasinactive)
  unfolding exit_diff exit_gen
  exit_diff-flags cur pre =
      let dev : Tstat = record zero_tstat {
        gen = exit_gen cur.gen pre.gen;
        cpu = atop.Deviate.Tasks.Exits.exit_cpu cur.cpu pre.cpu;
        mem = atop.Deviate.Tasks.Exits.exit_mem cur.mem pre.mem;
        dsk = atop.Deviate.Tasks.Exits.exit_dsk cur.dsk pre.dsk;
      } in
      let e = keeps (if by_pid? then cur.gen.pid else cur.gen.btime) dev pre in
      (ap (λ g. g.isproc) e, ap (λ g. g.wasinactive) e)

  -- The counters and the entry after an exited process.
  abbrev exit_devs : ℕ → Tstat → Tstat → Devtstat → Devtstat
  exit_devs d cur pre dev = record dev {
    nprocall = dev.nprocall + 1;
    nprocactive = dev.nprocactive + 1;
    ntaskactive = dev.ntaskactive + 1;
    taskall = set dev.taskall d (exit_diff exitfind by_pid? cur pre);
  }

  exit_devs-IsCounted :
      (n d : ℕ) (cur pre : Tstat) (s : Loop) (db : ProcDb)
      → d < n
      → IsCounted n d s
      → cur.gen.isproc ≡ true
      → cur.gen.wasinactive ≡ false
      → IsCounted n (suc d) (record s { db = db; dev = exit_devs d cur pre s.dev })
  exit_devs-IsCounted n d cur pre s db room k isproc clear =
      let xs = s.dev.taskall in
      let v = exit_diff exitfind by_pid? cur pre in
      let (e, f) = exit_diff-flags cur pre in
      let inside : d < length xs = omega (arith, k.size) in
      record {
        size = length-set xs d v ∙ k.size;
        total = k.total;
        processes = ground (arith, count_to-set_next is_process d xs v inside);
        active_processes = ground (arith, count_to-set_next is_active_process d xs v inside);
        active_tasks = ground (arith, count_to-set_next is_active d xs v inside);
      }

  module _ (d : ℕ) (cur₀ : Tstat) (s : Loop) where
    abbrev now : Tstat
    now = record cur₀ { gen = record cur₀.gen { wasinactive = false } }

    delete_runs :
        (pre : Tstat) (db₁ db₂ : ProcDb) (b : Bool)
        → exit_prestat pretime now s.db ≡ some (pre, db₁)
        → ltb 0 pre.gen.pid ≡ true
        → deltask pre.gen.pid pre.gen.isproc db₁ ≡ some (b, db₂)
        → exit_task exitfind by_pid? pretime d cur₀ s
          ≡ some (record s { db = db₂; dev = exit_devs d now pre s.dev })
    unfolding exit_task
    delete_runs pre db₁ db₂ b got pid del = rw (exit_task, got, pid, del)

    keep_runs :
        (pre : Tstat) (db₁ : ProcDb)
        → exit_prestat pretime now s.db ≡ some (pre, db₁)
        → ltb 0 pre.gen.pid ≡ false
        → exit_task exitfind by_pid? pretime d cur₀ s
          ≡ some (record s { db = db₁; dev = exit_devs d now pre s.dev })
    unfolding exit_task
    keep_runs pre db₁ got nopid = rw (exit_task, got, nopid)

    known_exit :
        (n : ℕ) (r : Tstat × ProcDb)
        → d < n
        → IsCounted n d s
        → IsWf s.db
        → HasUniqueKeys s.db
        → cur₀.gen.isproc ≡ true
        → exit_prestat pretime now s.db ≡ some r
        → Previous now s.db r
        → (s' : Loop) × (exit_task exitfind by_pid? pretime d cur₀ s ≡ some s')
          × ExitOf n d now s.db s'
    known_exit n r room k wf unique isproc got unknown = (
      _,
      keep_runs zero_tstat s.db got refl,
      record {
        counted = exit_devs-IsCounted n d now zero_tstat s s.db room k isproc refl;
        left = unchanged-Left now wf unique;
      },
    )
    known_exit n r room k wf unique isproc got (by_pid a t held pid level known) =
        let db₁ = record s.db { residue = erase a s.db.residue } in
        (
          _,
          delete_runs t db₁ (removed a t db₁) true got (ground arith)
              (deltask-removed (unlink-IsWf wf a) a t held unique),
          record {
            counted = exit_devs-IsCounted n d now t s (removed a t db₁) room k isproc refl;
            left =
                removed-Left now wf unique db₁ a t (unlink-IsWf wf a) unique held
                  (λ b u. (λ h. h, λ h. h))
                  (λ b ne. ground (arith, has-erase a b s.db.residue wf.residue_distinct))
                  (inr (pid, level));
          },
        )
    known_exit n r room k wf unique isproc got (by_search a t held inside) =
        elim (Bool-cases (ltb 0 t.gen.pid)) [
          | inr nopid ↦ (
            _,
            keep_runs t s.db got nopid,
            record {
              counted = exit_devs-IsCounted n d now t s s.db room k isproc refl;
              left = unchanged-Left now wf unique;
            },
          )
          | inl pid ↦ (
            _,
            delete_runs t s.db (removed a t s.db) true got pid (deltask-removed wf a t held unique),
            record {
              counted = exit_devs-IsCounted n d now t s (removed a t s.db) room k isproc refl;
              left =
                  removed-Left now wf unique s.db a t wf unique held (λ b u. (λ h. h, λ h. h))
                    (λ b ne. refl) (inl inside);
            },
          )
        ]

  AllLeft-cons :
      {db db₁ db₂ : ProcDb} (cur : Tstat) (curs : List Tstat)
      → Left cur db db₁
      → AllLeft curs db₁ db₂
      → AllLeft (cur ∷ curs) db db₂
  AllLeft-cons cur curs first rest = record {
    valid = rest.valid;
    unique = rest.unique;
    only = λ a u h.
        let (h₁, e₁) = rest.only a u h in let (h₀, e₀) = first.only a u h₁ in (h₀, e₁ ∙ e₀);
    kept = λ a u h out none_of.
        let (h₁, out₁) = first.kept a u h out none_of.0 in rest.kept a u h₁ out₁ none_of.1;
  }

  pub exit_tasks-AllLeft :
      (n d : ℕ) (curs : List Tstat) (s : Loop)
      → d + length curs ≤ n
      → IsCounted n d s
      → IsWf s.db
      → HasUniqueKeys s.db
      → AreProcesses curs
      → (s' : Loop) × (exit_tasks exitfind by_pid? pretime d curs s ≡ some s')
        × IsCounted n (d + length curs) s'
        × AllLeft curs s.db s'.db
  unfolding exit_tasks
  exit_tasks-AllLeft n d [] s room k wf unique procs = (
    s,
    refl,
    let e : d ≡ d + 0 = omega arith in subst (λ j. IsCounted n j s) e k,
    record {
      valid = wf;
      unique = unique;
      only = λ a u h. (h, refl);
      kept = λ a u h out none_of. (h, out);
    },
  )
  exit_tasks-AllLeft n d (cur ∷ curs) s room k wf unique procs =
      let (r, got, previous) =
        exit_prestat-Previous pretime (record cur { gen = record cur.gen { wasinactive = false } })
          wf in
      let (s₁, run₁, one) = known_exit d cur s n r (omega arith) k wf unique procs.0 got previous in
      let (s₂, run₂, k₂, rest) =
        exit_tasks-AllLeft n (suc d) curs s₁ (omega arith) one.counted one.left.valid
          one.left.unique procs.1 in
      (
        s₂,
        rw run₁ run₂,
        let e : suc d + length curs ≡ d + suc (length curs) = omega arith in
            subst (λ j. IsCounted n j s₂) e k₂,
        AllLeft-cons cur curs
            (record {
              valid = one.left.valid;
              unique = one.left.unique;
              only = one.left.only;
              kept = one.left.kept;
            })
            rest,
      )

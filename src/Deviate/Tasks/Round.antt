-- ===== src/Deviate/Tasks/Round.antt =====
-- One round of the loop over the present tasks.
use atop.Prelude.{
  ℕ, suc, ◌<◌, ◌≡◌, ◌≢◌, refl, sym, ◌∙◌, ap, subst, ◌⊎◌, inl, inr, true, false, Option, none, some,
  arith, erase, ==_refl, same_flag_eq, same_flag_refl,
}
use atop.Prelude.Int.{ℤ}
use atop.Task.{Tstat, zero_tstat}
use atop.Task.Equal.{Tstat-discrete}
use atop.ProcDb.{ProcDb, update, gettask, is_task, is_near, alloc, store, addtask}
use atop.ProcDb.Inv.{Holds, IsWf}
use atop.ProcDb.Lookup.{gettask_lem}
use atop.ProcDb.Sweep.{HasUniqueKeys}
use atop.ProcDb.Refresh.{SameKey, Refreshed, refresh_same, refresh_changed, refresh_new}
use atop.Deviate.Tasks.{
  Loop, count_process, count_active, write_diff, set_inactive, known_task, new_task, present_task,
}
use atop.Deviate.Tasks.Counts.{
  IsCounted, IsPending, AtProcess, ThisProcess, count_process-IsPending, count_active-IsPending,
  write_diff-IsCounted,
}
use mathlib.Core.Bool.{decide}

decide_yes {ℓ} : {P : Type ℓ} (d : Dec P) → P → decide d ≡ true
unfolding decide
decide_yes (yes q) p = refl
decide_yes (no q) p = absurd (q p)

decide_no {ℓ} : {P : Type ℓ} (d : Dec P) → ¬ P → decide d ≡ false
unfolding decide
decide_no (yes q) p = absurd (p q)
decide_no (no q) p = refl

-- The three ways of `known_task` and `new_task` through their steps.
module _ (c : ℕ) (cur : Tstat) (totusedcpu : ℤ) (s : Loop) where
  same_runs :
      (pinfo : ℕ) (old : Tstat)
      → s.db.heap pinfo ≡ some old
      → cur ≡ old
      → known_task c pinfo cur totusedcpu s
        ≡ write_diff c (set_inactive true cur) (set_inactive true cur) false totusedcpu s
  unfolding known_task
  same_runs pinfo old e same = rw (e, known_task, decide_yes (Tstat-discrete cur old) same)

  changed_runs :
      (pinfo : ℕ) (old : Tstat) (s₁ : Loop)
      → s.db.heap pinfo ≡ some old
      → cur ≢ old
      → count_active cur
          (record s { db = record s.db { heap = update s.db.heap pinfo (some cur) } })
        ≡ some s₁
      → known_task c pinfo cur totusedcpu s
        ≡ write_diff c (set_inactive false cur) old false totusedcpu s₁
  unfolding known_task store
  changed_runs pinfo old s₁ e other run =
      rw (e, known_task, decide_no (Tstat-discrete cur old) other, store) (rw run)

  new_runs :
      (s₁ : Loop)
      → count_active cur s ≡ some s₁
      → new_task c cur totusedcpu s
        ≡ write_diff c (set_inactive false cur) zero_tstat true totusedcpu (record s₁ {
          db =
              addtask cur.gen.pid
                (alloc (set_inactive false cur) s₁.db).0
                (alloc (set_inactive false cur) s₁.db).1;
        })
  unfolding new_task
  new_runs s₁ run = rw (run, new_task)

-- What one round leaves behind it.
pub record RoundOf (n c : ℕ) (cur : Tstat) (db : ProcDb) (s : Loop) : Type 0 where
  pub counted : IsCounted n (suc c) s
  pub at_process : AtProcess (suc c) s
  pub refreshed : Refreshed cur db s.db

module _ (n c : ℕ) (cur : Tstat) (totusedcpu : ℤ) (room : c < n) where
  known_same :
      (pinfo : ℕ) (old : Tstat) (s : Loop)
      → IsPending n c cur.gen.isproc false s
      → ThisProcess c cur.gen.isproc s
      → s.db.heap pinfo ≡ some old
      → cur ≡ old
      → (s' : Loop) × (known_task c pinfo cur totusedcpu s ≡ some s')
        × IsCounted n (suc c) s'
        × AtProcess (suc c) s'
        × (s'.db ≡ s.db)
  unfolding known_task
  known_same pinfo old s pending this e same =
      let idle = set_inactive true cur in
      let (s', run, counted, at, db) =
        write_diff-IsCounted n c idle idle false false totusedcpu s room pending this refl in
      (s', same_runs c cur totusedcpu s pinfo old e same ∙ run, counted, at, db)

  known_changed :
      (pinfo : ℕ) (old : Tstat) (s : Loop)
      → IsPending n c cur.gen.isproc false s
      → ThisProcess c cur.gen.isproc s
      → s.db.heap pinfo ≡ some old
      → cur ≢ old
      → (s' : Loop) × (known_task c pinfo cur totusedcpu s ≡ some s')
        × IsCounted n (suc c) s'
        × AtProcess (suc c) s'
        × (s'.db ≡ record s.db { heap = update s.db.heap pinfo (some cur) })
  unfolding known_task store
  known_changed pinfo old s pending this e other =
      let db = record s.db { heap = update s.db.heap pinfo (some cur) } in
      let (s₁, run₁, pending₁, this₁, db₁) =
        count_active-IsPending n c cur (record s { db = db }) room
          (record {
            size = pending.size;
            total = pending.total;
            processes = pending.processes;
            active_processes = pending.active_processes;
            active_tasks = pending.active_tasks;
          })
          this in
      let (s₂, run₂, counted, at, db₂) =
        write_diff-IsCounted n c (set_inactive false cur) old false true totusedcpu s₁ room pending₁
          this₁ refl in
      (s₂, changed_runs c cur totusedcpu s pinfo old s₁ e other run₁ ∙ run₂, counted, at, db₂ ∙ db₁)

  new_step :
      (s : Loop)
      → IsPending n c cur.gen.isproc false s
      → ThisProcess c cur.gen.isproc s
      → (s' : Loop) × (new_task c cur totusedcpu s ≡ some s')
        × IsCounted n (suc c) s'
        × AtProcess (suc c) s'
        × (s'.db
            ≡ addtask cur.gen.pid
                (alloc (set_inactive false cur) s.db).0
                (alloc (set_inactive false cur) s.db).1)
  unfolding alloc addtask
  new_step s pending this =
      let cur' = set_inactive false cur in
      let (s₁, run₁, pending₁, this₁, db₁) = count_active-IsPending n c cur s room pending this in
      let (s₂, run₂, counted, at, db₂) =
        write_diff-IsCounted n c cur' zero_tstat true true totusedcpu
          (record s₁ { db = addtask cur.gen.pid (alloc cur' s₁.db).0 (alloc cur' s₁.db).1 }) room
          (record {
            size = pending₁.size;
            total = pending₁.total;
            processes = pending₁.processes;
            active_processes = pending₁.active_processes;
            active_tasks = pending₁.active_tasks;
          })
          this₁ refl in
      (
        s₂,
        new_runs c cur totusedcpu s s₁ run₁ ∙ run₂,
        counted,
        at,
        db₂ ∙ ap (λ (d : ProcDb). addtask cur.gen.pid (alloc cur' d).0 (alloc cur' d).1) db₁,
      )

  -- No task of the database with the key of this one started at another time.
  abbrev pub NotReused : ProcDb → Type 0
  NotReused db =
      (a : ℕ) (t : Tstat) → Holds db a t → SameKey t cur → is_near t.gen.btime cur.gen.btime ≡ true

  is_task-SameKey :
      (t : Tstat) → is_task cur.gen.pid cur.gen.isproc cur.gen.btime t ≡ true → SameKey t cur
  unfolding is_task
  is_task-SameKey t h = (ground arith, ground (arith, same_flag_eq t.gen.isproc cur.gen.isproc))

  is_task-fits :
      (t : Tstat)
      → SameKey t cur
      → is_near t.gen.btime cur.gen.btime ≡ true
      → is_task cur.gen.pid cur.gen.isproc cur.gen.btime t ≡ true
  unfolding is_task is_near
  is_task-fits t same h = ground (arith, ==_refl cur.gen.pid, same_flag_refl cur.gen.isproc)

  -- The two answers of `pdb_gettask`, through the rest of the round.
  found_step :
      (s s₁ : Loop) (a : ℕ) (t : Tstat)
      → s₁.db ≡ s.db
      → IsPending n c cur.gen.isproc false s₁
      → ThisProcess c cur.gen.isproc s₁
      → IsWf s.db
      → HasUniqueKeys s.db
      → Holds s.db a t
      → SameKey t cur
      → (s' : Loop) × (known_task c a cur totusedcpu
            (record s₁ { db = record s.db { residue = erase a s.db.residue } })
          ≡ some s')
        × RoundOf n c cur s.db s'
  found_step s s₁ a t eq pending this wf unique held same =
      let s₂ = record s₁ { db = record s.db { residue = erase a s.db.residue } } in
      let pending₂ : IsPending n c cur.gen.isproc false s₂ = record {
        size = pending.size;
        total = pending.total;
        processes = pending.processes;
        active_processes = pending.active_processes;
        active_tasks = pending.active_tasks;
      } in
      elim (Tstat-discrete cur t) [
        | yes e ↦
            let (s', run, counted, at, db) = known_same a t s₂ pending₂ this held.0 e in
            (
              s',
              run,
              record {
                counted = counted;
                at_process = at;
                refreshed =
                    subst (Refreshed cur s.db) (sym db)
                      (refresh_same wf unique cur a (subst (Holds s.db a) (sym e) held));
              },
            )
        | no e ↦
            let (s', run, counted, at, db) = known_changed a t s₂ pending₂ this held.0 e in
            (
              s',
              run,
              record {
                counted = counted;
                at_process = at;
                refreshed =
                    subst (Refreshed cur s.db) (sym db)
                      (refresh_changed wf unique cur a t held same);
              },
            )
      ]

  missed_step :
      (s s₁ : Loop)
      → IsPending n c cur.gen.isproc false s₁
      → ThisProcess c cur.gen.isproc s₁
      → IsWf s.db
      → HasUniqueKeys s.db
      → cur.gen.wasinactive ≡ false
      → ((a : ℕ) (t : Tstat) → Holds s.db a t → ¬ (SameKey t cur))
      → (s' : Loop) × (new_task c cur totusedcpu (record s₁ { db = s.db }) ≡ some s')
        × RoundOf n c cur s.db s'
  missed_step s s₁ pending this wf unique clear new =
      let s₂ = record s₁ { db = s.db } in
      let pending₂ : IsPending n c cur.gen.isproc false s₂ = record {
        size = pending.size;
        total = pending.total;
        processes = pending.processes;
        active_processes = pending.active_processes;
        active_tasks = pending.active_tasks;
      } in
      let (s', run, counted, at, db) = new_step s₂ pending₂ this in
      let same : set_inactive false cur ≡ cur = ap (λ b. set_inactive b cur) (sym clear) in
      (
        s',
        run,
        record {
          counted = counted;
          at_process = at;
          refreshed =
              subst (Refreshed cur s.db)
                (sym (
                  db
                  ∙ ap (λ (t : Tstat). addtask cur.gen.pid (alloc t s.db).0 (alloc t s.db).1) same))
                (refresh_new wf unique cur new);
        },
      )

  present_task_runs :
      (s : Loop) (found : Option ℕ) (db : ProcDb)
      → (count_process c cur s).db ≡ s.db
      → gettask cur.gen.pid cur.gen.isproc cur.gen.btime s.db ≡ some (found, db)
      → present_task totusedcpu c cur s ≡ elim found [
        | some pinfo ↦
            known_task c pinfo cur totusedcpu (record (count_process c cur s) { db = db })
        | none ↦ new_task c cur totusedcpu (record (count_process c cur s) { db = db })
      ]
  unfolding present_task
  present_task_runs s found db eq got = rw (present_task, eq, got)

  -- One round: it returns, counts the entry, and refreshes the database.
  pub present_task-RoundOf :
      (s : Loop)
      → IsCounted n c s
      → ((cur.gen.isproc ≡ true) ⊎ AtProcess c s)
      → IsWf s.db
      → HasUniqueKeys s.db
      → NotReused s.db
      → cur.gen.wasinactive ≡ false
      → (s' : Loop) × (present_task totusedcpu c cur s ≡ some s') × RoundOf n c cur s.db s'
  present_task-RoundOf s counted here wf unique near clear =
      let s₁ = count_process c cur s in
      let (pending, this, eq) = count_process-IsPending n c cur s counted here in
      elim (gettask_lem cur.gen.pid cur.gen.isproc cur.gen.btime wf) [
        | inl (got, all) ↦
            let (s', run, round) = missed_step s s₁ pending this wf unique clear (λ a t held same.
              ground (arith, all a t held, near a t held same, is_task-fits t same)) in
            (s', present_task_runs s none s.db eq got ∙ run, round)
        | inr (a, t, found) ↦
            let (s', run, round) =
              found_step s s₁ a t eq pending this wf unique found.1 (is_task-SameKey t found.2) in
            (
              s',
              present_task_runs s (some a) (record s.db { residue = erase a s.db.residue }) eq
                    found.0
                  ∙ run,
              round,
            )
      ]

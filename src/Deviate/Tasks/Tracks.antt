-- ===== src/Deviate/Tasks/Tracks.antt =====
-- `deviattask` as a whole: it makes no invalid access, its lists and counters agree, and the
-- database follows the tasks of the system.
use atop.Prelude.{
  ℕ, suc, ◌+◌, ◌≡◌, refl, sym, ◌∙◌, ap, subst, inl, inr, ◌↔◌, Bool, true, false, some, List, [],
  ◌∷◌, arith, length, has, without, has-without, count_to,
}
use atop.Prelude.Int.{ℤ}
use atop.Task.{Tstat}
use atop.ProcDb.{ProcDb, bucket, makeresidue, cleanresidue}
use atop.ProcDb.Inv.{Holds, IsWf}
use atop.ProcDb.Mark.{makeresidue-Marked}
use atop.ProcDb.Sweep.{HasUniqueKeys, Swept, cleanresidue-Swept}
use atop.Deviate.Tasks.{Devtstat, Loop, present_tasks}
use atop.Deviate.Tasks.Counts.{IsCounted, is_process, is_active, is_active_process}
use atop.Deviate.Tasks.Present.{AreFresh, Among, StartsWithProcess, Entered, present_tasks-Entered}
use atop.Deviate.Tasks.Exits.{exit_tasks}
use atop.Deviate.Tasks.Leave.{KeepsGen, AreProcesses, IsNone, AllLeft, exit_tasks-AllLeft}
use atop.Deviate.Tasks.Run.{
  procs_from, active_from, new_devtstat, fill_lists, hash_by_pid, deviattask,
}

length-procs_from :
    (c : ℕ) (ts : List Tstat) → length (procs_from c ts) ≡ count_to is_process (length ts) ts
unfolding procs_from count_to
length-procs_from c [] = refl
length-procs_from c (t ∷ ts) = ground (arith, length-procs_from (suc c) ts)

length-active_from :
    (c : ℕ) (ts : List Tstat)
    → length (active_from c ts) ≡ count_to is_active_process (length ts) ts
unfolding active_from count_to
length-active_from c [] = refl
length-active_from c (t ∷ ts) = ground (arith, length-active_from (suc c) ts)

-- The lists of pointers have exactly the sizes that were allocated for them.
pub record IsConsistent (dev : Devtstat) : Type 0 where
  pub size : length dev.taskall ≡ dev.ntaskall
  pub procs : length dev.procall ≡ dev.nprocall
  pub actives : length dev.procactive ≡ dev.nprocactive
  pub active_tasks : dev.ntaskactive ≡ count_to is_active dev.ntaskall dev.taskall

-- The database holds the samples of the present tasks, and nothing else.
pub record Tracks (ts : List Tstat) (db : ProcDb) : Type 0 where
  pub valid : IsWf db
  pub unique : HasUniqueKeys db
  pub only : (a : ℕ) (t : Tstat) → Holds db a t → Among t ts
  pub all : (t : Tstat) → Among t ts → (a : ℕ) × Holds db a t

fill_lists-IsConsistent : (n : ℕ) (s : Loop) → IsCounted n n s → IsConsistent (fill_lists s.dev)
unfolding fill_lists
fill_lists-IsConsistent n s k =
    let e = k.total in
    let xs = s.dev.taskall in
    let whole : length xs ≡ n = k.size in
    record {
      size = k.size ∙ sym e;
      procs = length-procs_from 0 xs ∙ ap (λ m. count_to is_process m xs) whole ∙ sym k.processes;
      actives =
          length-active_from 0 xs
          ∙ ap (λ m. count_to is_active_process m xs) whole
          ∙ sym k.active_processes;
      active_tasks = k.active_tasks ∙ ap (λ m. count_to is_active m xs) (sym e);
    }

-- After `pdb_cleanresidue` an entry is there exactly if it was there and off the RESIDUE list.
Swept-Holds :
    {db db' : ProcDb} (a : ℕ) (t : Tstat)
    → Swept db db'
    → Holds db' a t ↔ (Holds db a t × (has a db.residue ≡ false))
Swept-Holds {db} {db'} a t swept = (
  λ h.
      let there : has a (without db.residue (db.phash (bucket t.gen.pid))) ≡ true =
        subst (λ c. has a c ≡ true) (swept.chains (bucket t.gen.pid)) h.1 in
      (
        (
          ground (arith, swept.entries a, h.0),
          ground (arith, has-without db.residue (db.phash (bucket t.gen.pid)) a),
        ),
        ground (arith, has-without db.residue (db.phash (bucket t.gen.pid)) a),
      ),
  λ h. (
    ground (arith, swept.entries a, h.0.0),
    subst (λ c. has a c ≡ true) (sym (swept.chains (bucket t.gen.pid)))
        (ground (arith, has-without db.residue (db.phash (bucket t.gen.pid)) a, h.0.1)),
  ),
)

-- The hypotheses on one call of `deviattask`: `taskall` has room for all tasks; the present tasks
-- begin with a process, no two of them have the same pid and level, and where the database knows a
-- task of that pid and level it is that very task by its start time; every exited task is a
-- process, and none of them is present.
pub record IsSample (memory curtpres curpexit : List Tstat) (db : ProcDb) : Type 0 where
  pub room : length memory ≡ length curtpres + length curpexit
  pub first : StartsWithProcess curtpres
  pub fresh : AreFresh db curtpres
  pub exits : AreProcesses curpexit
  pub gone : (t : Tstat) → Among t curtpres → IsNone t curpexit

-- Marking, entering the present tasks, dropping the exited ones and sweeping, put together.
put_together :
    {db₀ db₁ db₂ db' : ProcDb} (ts exits : List Tstat)
    → ((a : ℕ) (t : Tstat) → Holds db₀ a t → has a db₀.residue ≡ true)
    → Entered ts db₀ db₁
    → AllLeft exits db₁ db₂
    → HasUniqueKeys db₂
    → Swept db₂ db'
    → ((t : Tstat) → Among t ts → IsNone t exits)
    → Tracks ts db'
put_together {db₀} {db₁} {db₂} {db'} ts exits marked entered left unique swept gone = record {
  valid = swept.valid;
  unique = λ a b t u ha hb pid level.
      unique a b t u ((Swept-Holds a t swept).0 ha).0 ((Swept-Holds b u swept).0 hb).0 pid level;
  only = λ a t h.
      let (h₂, out₂) = (Swept-Holds a t swept).0 h in
      let (h₁, e₁) = left.only a t h₂ in
      elim (entered.only a t h₁) [
        | inl among ↦ among
        | inr (h₀, e₀) ↦ ground (arith, marked a t h₀)
      ];
  all = λ t among.
      let (a, h₁, out₁) = entered.all t among in
      let (h₂, out₂) = left.kept a t h₁ out₁ (gone t among) in
      (a, (Swept-Holds a t swept).1 (h₂, out₂));
}

-- The steps of `deviattask` in a row.
deviattask_runs :
    (exitfind : ℕ → Tstat → Tstat → Tstat) (netatopd : Bool) (memory : List Tstat) (totusedcpu : ℤ)
    (pretime : ℕ) (curtpres curpexit : List Tstat) (db db' : ProcDb) (s₁ s₂ : Loop)
    → present_tasks totusedcpu 0 curtpres
        (record { db = makeresidue db; dev = new_devtstat memory; thisproc = 0 })
      ≡ some s₁
    → exit_tasks exitfind (hash_by_pid netatopd curpexit) pretime (length curtpres) curpexit s₁
      ≡ some s₂
    → cleanresidue s₂.db ≡ some db'
    → deviattask exitfind netatopd memory totusedcpu pretime curtpres curpexit db
      ≡ some (fill_lists s₂.dev, db')
unfolding deviattask
deviattask_runs exitfind netatopd memory totusedcpu pretime curtpres curpexit db db' s₁ s₂ a b c =
    rw (deviattask, a, b, c)

module _ (exitfind : ℕ → Tstat → Tstat → Tstat) (keeps : KeepsGen exitfind) (netatopd : Bool)
    (memory curtpres curpexit : List Tstat) (totusedcpu : ℤ) (pretime : ℕ) {db : ProcDb} where
  -- Take a well-formed database without two tasks of one pid and level, and a sample in which
  -- `taskall` has room for all tasks, the present tasks begin with a process, have different
  -- pids or levels and are not marked inactive, a task that the database knows by pid and level has nearly the same start time
  -- there, and the exited tasks are processes that are not present; and let the lookup of network
  -- counters keep the general part of an exited process. On it `deviattask` comes to its end with
  -- no invalid access. Then `procall` and `procactive` hold exactly as many pointers as were
  -- allocated for them, `ntaskactive` is the number of entries of `taskall` that are not inactive,
  -- and the database, well-formed again, holds exactly the samples of the present tasks.
  pub deviattask-Tracks :
      IsWf db
      → HasUniqueKeys db
      → IsSample memory curtpres curpexit db
      → (dev : Devtstat) × (db' : ProcDb) × (deviattask exitfind netatopd memory totusedcpu pretime
            curtpres curpexit db
          ≡ some (dev, db'))
        × IsConsistent dev
        × Tracks curtpres db'
  unfolding deviattask makeresidue count_to
  deviattask-Tracks wf unique sample =
      let marked = makeresidue-Marked wf in
      let db₀ = makeresidue db in
      let zero_first : 0 + length curtpres ≡ length curtpres = omega arith in
      let whole : length curtpres + length curpexit ≡ length memory = sym sample.room in
      let n = length memory in
      let s₀ : Loop = record { db = db₀; dev = new_devtstat memory; thisproc = 0 } in
      let (s₁, run₁, k₁, entered) =
        present_tasks-Entered n 0 totusedcpu curtpres s₀ (omega (arith, sample.room))
          (record {
            size = refl;
            total = refl;
            processes = refl;
            active_processes = refl;
            active_tasks = refl;
          })
          (inr sample.first) marked.valid unique sample.fresh in
      let (s₂, run₂, k₂, left) =
        exit_tasks-AllLeft exitfind keeps (hash_by_pid netatopd curpexit) pretime n
          (length curtpres) curpexit s₁ (omega (arith, sample.room))
          (subst (λ j. IsCounted n j s₁) zero_first k₁) entered.valid entered.unique sample.exits in
      let (db', run₃, swept) = cleanresidue-Swept s₂.db left.valid left.unique in
      (
        fill_lists s₂.dev,
        db',
        deviattask_runs exitfind netatopd memory totusedcpu pretime curtpres curpexit db db' s₁ s₂
            run₁ run₂ run₃,
        fill_lists-IsConsistent n s₂ (subst (λ j. IsCounted n j s₂) whole k₂),
        put_together curtpres curpexit (λ a t h. (marked.listed a t h.0).1 h.1) entered left
            left.unique swept sample.gone,
      )

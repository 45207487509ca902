-- ===== src/Deviate/Tasks/Left.antt =====
-- How an exited process leaves the database.
use atop.Prelude.{
  ℕ, ◌≡◌, refl, sym, ◌∙◌, ap, subst, ◌⊎◌, inl, inr, ◌↔◌, true, false, some, arith, ◌==◌, ltb,
  Bool-cases, has, erase, same_flag_eq, ==_iff, has-erase,
}
use atop.Task.{Tstat, zero_tstat}
use atop.ProcDb.{ProcDb, bucket, is_task}
use atop.ProcDb.Inv.{Holds, IsWf}
use atop.ProcDb.Lookup.{gettask_lem, srchresidue_lem}
use atop.ProcDb.Sweep.{
  HasUniqueKeys, removed, removed-IsWf, removed-HasUniqueKeys, removed-Holds, removed-phash,
}
use atop.Deviate.Tasks.Exits.{exit_prestat, load}

-- The exited process `cur` is not the task `u`.
abbrev pub IsOther : Tstat → Tstat → Type 0
IsOther u cur = ¬ ((u.gen.pid ≡ cur.gen.pid) × (u.gen.isproc ≡ true))

-- The database after an exited process was handled: nothing is added, and what was referred to and
-- has another pid stays.
pub record Left (cur : Tstat) (db db' : ProcDb) : Type 0 where
  pub valid : IsWf db'
  pub unique : HasUniqueKeys db'
  pub only :
      (a : ℕ) (u : Tstat) → Holds db' a u → Holds db a u × (has a db'.residue ≡ has a db.residue)
  pub kept :
      (a : ℕ) (u : Tstat)
      → Holds db a u
      → has a db.residue ≡ false
      → IsOther u cur
      → Holds db' a u × (has a db'.residue ≡ false)

-- What the sample of the previous interval is: zeros, or an entry that is unlinked or still listed.
pub data Previous (cur : Tstat) (db : ProcDb) : Tstat × ProcDb → Type 0 where
  unknown : Previous cur db (zero_tstat, db)
  by_pid :
      (a : ℕ) (t : Tstat)
      → Holds db a t
      → t.gen.pid ≡ cur.gen.pid
      → t.gen.isproc ≡ true
      → (cur.gen.pid == 0) ≡ false
      → Previous cur db (t, record db { residue = erase a db.residue })
  by_search : (a : ℕ) (t : Tstat) → Holds db a t → has a db.residue ≡ true → Previous cur db (t, db)

module _ (pretime : ℕ) (cur : Tstat) {db : ProcDb} (wf : IsWf db) where
  task_key :
      (t : Tstat)
      → is_task cur.gen.pid true cur.gen.btime t ≡ true
      → (t.gen.pid ≡ cur.gen.pid) × (t.gen.isproc ≡ true)
  unfolding is_task
  task_key t h = (ground arith, ground (arith, same_flag_eq t.gen.isproc true))

  listed_held : (a : ℕ) (t : Tstat) → has a db.residue ≡ true → db.heap a ≡ some t → Holds db a t
  listed_held a t inside e =
      let (u, eu, bu) = wf.listed a inside in
      let same : u ≡ t = cc in (e, subst (λ x. has a (db.phash (bucket x.gen.pid)) ≡ true) same bu)

  pub exit_prestat-Previous :
      (r : Tstat × ProcDb) × (exit_prestat pretime cur db ≡ some r) × Previous cur db r
  unfolding exit_prestat
  exit_prestat-Previous = elim (Bool-cases (cur.gen.pid == 0)) [
    | inr pid ↦ elim (gettask_lem cur.gen.pid true cur.gen.btime wf) [
      | inl (got, all) ↦ (_, rw (pid, got, exit_prestat), unknown)
      | inr (a, t, (got, held, pass)) ↦ (
        _,
        rw (pid, got, exit_prestat) (rw (load, held.0)),
        by_pid a t held (task_key t pass).0 (task_key t pass).1 pid,
      )
    ]
    | inl nopid ↦ elim (Bool-cases (ltb pretime cur.gen.btime)) [
      | inl late ↦ (_, rw (nopid, late, exit_prestat), unknown)
      | inr early ↦ elim (srchresidue_lem cur wf) [
        | inl (got, miss, miss') ↦ (_, rw (nopid, early, got, exit_prestat), unknown)
        | inr (a, t, (got, inside, e, how)) ↦ (
          _,
          rw (nopid, early, got, exit_prestat) (rw (load, e)),
          by_search a t (listed_held a t inside e) inside,
        )
      ]
    ]
  ]

-- Unlinking and then deleting an entry, or deleting it in the RESIDUE list.
module _ (cur : Tstat) {db : ProcDb} (wf : IsWf db) (unique : HasUniqueKeys db) where
  pub unchanged-Left : Left cur db db
  unchanged-Left = record {
    valid = wf;
    unique = unique;
    only = λ a u h. (h, refl);
    kept = λ a u h out other. (h, out);
  }

  -- The two databases `db₁` differ from `db` in the entry `a` of the RESIDUE list only.
  pub removed-Left :
      (db₁ : ProcDb) (a : ℕ) (t : Tstat)
      → IsWf db₁
      → HasUniqueKeys db₁
      → Holds db₁ a t
      → ((b : ℕ) (u : Tstat) → Holds db₁ b u ↔ Holds db b u)
      → ((b : ℕ) → (a == b) ≡ false → has b db₁.residue ≡ has b db.residue)
      → ((has a db.residue ≡ true) ⊎ ((t.gen.pid ≡ cur.gen.pid) × (t.gen.isproc ≡ true)))
      → Left cur db (removed a t db₁)
  removed-Left db₁ a t wf₁ unique₁ held same listed why = record {
    valid = removed-IsWf wf₁ a t held;
    unique = removed-HasUniqueKeys wf₁ a t held unique₁;
    only = λ b u h.
        let ne : (a == b) ≡ false = ground arith in
        (
          (same b u).0 (removed-Holds wf₁ a t held b u h),
          ground (arith, has-erase a b db₁.residue wf₁.residue_distinct, listed b ne),
        );
    kept = λ b u h out other. elim (Bool-cases (a == b)) [
      | inl e ↦ absurd (elim why [
        | inl inside ↦ ground (arith, ==_iff a b)
        | inr (pid, level) ↦
            let there = (same b u).1 h in
            let here : db₁.heap a ≡ some u = rw ((==_iff a b).0 e) there.0 in
            let eq : t ≡ u = cc (held.0) in
            other (ap (λ x. x.gen.pid) (sym eq) ∙ pid, ap (λ x. x.gen.isproc) (sym eq) ∙ level)
      ])
      | inr ne ↦ (
        (
          ground (arith, ((same b u).1 h).0),
          rw (removed-phash wf₁ a t held (bucket u.gen.pid)) (
              ground (
                arith,
                has-erase a b (db₁.phash (bucket u.gen.pid)) (wf₁.distinct (bucket u.gen.pid)),
                ((same b u).1 h).1,
              )),
        ),
        ground (arith, has-erase a b db₁.residue wf₁.residue_distinct, listed b ne),
      )
    ];
  }

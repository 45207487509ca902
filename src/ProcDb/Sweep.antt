-- ===== src/ProcDb/Sweep.antt =====
-- `pdb_deltask` and `pdb_cleanresidue` in a database where pid and level name one task.
use atop.Prelude.{
  ℕ, suc, ◌≡◌, refl, ap, ◌∙◌, inl, inr, Bool, true, false, none, some, List, [], ◌∷◌, arith, ◌==◌,
  ==_iff, ==_refl, if◌then◌else◌, same_flag_eq, same_flag_refl, Bool-cases, has, erase, without,
  length, has-erase, has-erase_le, erase-IsDistinct, erase_absent, without-nil, without-erase,
}
use atop.Task.{Tstat}
use atop.ProcDb.{
  ProcDb, bucket, update, scan, is_pid, delete_in, deltask, next_of, first_of_residue, clean,
  cleanresidue,
}
use atop.ProcDb.Inv.{Holds, IsWf, scan_cases, live_chain, chain_of}

-- No two tasks of the database have the same pid at the same level.
abbrev pub HasUniqueKeys : ProcDb → Type 0
HasUniqueKeys db =
    (a b : ℕ) (t u : Tstat)
    → Holds db a t
    → Holds db b u
    → t.gen.pid ≡ u.gen.pid
    → t.gen.isproc ≡ u.gen.isproc
    → a ≡ b

-- The database without its entry `a`, the task `t`.
abbrev pub removed : ℕ → Tstat → ProcDb → ProcDb
removed a t db = record db {
  phash = update db.phash (bucket t.gen.pid) (erase a (db.phash (bucket t.gen.pid)));
  residue = erase a db.residue;
  heap = update db.heap a none;
}

is_pid-true :
    (t u : Tstat)
    → is_pid t.gen.pid t.gen.isproc u ≡ true
    → (u.gen.pid ≡ t.gen.pid) × (u.gen.isproc ≡ t.gen.isproc)
unfolding is_pid
is_pid-true t u h = (ground arith, ground (arith, same_flag_eq u.gen.isproc t.gen.isproc))

is_pid_self : (t : Tstat) → is_pid t.gen.pid t.gen.isproc t ≡ true
unfolding is_pid
is_pid_self t = ground (arith, same_flag_refl t.gen.isproc)

-- What `pdb_deltask` does once the walk along the chain has found `a`.
delete_in_found :
    (pid : ℕ) (isproc : Bool) (db : ProcDb) (a : ℕ) (chain : List ℕ)
    → scan db.heap (is_pid pid isproc) chain ≡ some (some a)
    → delete_in pid isproc db chain
      ≡ some (
        true,
        record db {
          phash = update db.phash (bucket pid) (erase a chain);
          residue = erase a db.residue;
          heap = update db.heap a none;
        },
      )
unfolding delete_in scan
delete_in_found pid isproc db a [] h = cc
delete_in_found pid isproc db a (x ∷ chain) h = rw (h, delete_in)

module _ {db : ProcDb} (wf : IsWf db) where
  pub removed-phash :
      (a : ℕ) (t : Tstat) → Holds db a t → (i : ℕ) → (removed a t db).phash i ≡ erase a (db.phash i)
  removed-phash a t held i = elim (Bool-cases (bucket t.gen.pid == i)) [
    | inl e ↦ ground (arith, ==_iff (bucket t.gen.pid) i)
    | inr ne ↦ elim (Bool-cases (has a (db.phash i))) [
      | inl h ↦ ground (arith, chain_of wf i a t held.0 h)
      | inr h ↦ ground (arith, erase_absent a (db.phash i))
    ]
  ]

  pub removed-IsWf : (a : ℕ) (t : Tstat) → Holds db a t → IsWf (removed a t db)
  removed-IsWf a t held = record {
    chained = λ i b h.
        let inside : has b (erase a (db.phash i)) ≡ true = rw (removed-phash a t held i) at h in
        let (u, eu, bu) = wf.chained i b (has-erase_le a b (db.phash i) inside) in
        (u, ground (arith, has-erase a b (db.phash i) (wf.distinct i)), bu);
    distinct = λ i. rw (removed-phash a t held i) (erase-IsDistinct a (db.phash i) (wf.distinct i));
    listed = λ b h.
        let (u, eu, bu) = wf.listed b (has-erase_le a b db.residue h) in
        let other : (a == b) ≡ false =
          ground (arith, has-erase a b db.residue wf.residue_distinct) in
        (
          u,
          ground arith,
          rw (removed-phash a t held (bucket u.gen.pid)) (
              ground (
                arith,
                has-erase a b (db.phash (bucket u.gen.pid)) (wf.distinct (bucket u.gen.pid)),
              )),
        );
    residue_distinct = erase-IsDistinct a db.residue wf.residue_distinct;
    unused = λ b h. ground (arith, wf.unused b h);
  }

  pub removed-Holds :
      (a : ℕ) (t : Tstat)
      → Holds db a t
      → (b : ℕ) (u : Tstat) → Holds (removed a t db) b u
      → Holds db b u
  removed-Holds a t held b u h =
      let inside : has b (erase a (db.phash (bucket u.gen.pid))) ≡ true =
        rw (removed-phash a t held (bucket u.gen.pid)) at h.1 in
      (ground arith, has-erase_le a b (db.phash (bucket u.gen.pid)) inside)

  pub removed-HasUniqueKeys :
      (a : ℕ) (t : Tstat) → Holds db a t → HasUniqueKeys db → HasUniqueKeys (removed a t db)
  removed-HasUniqueKeys a t held uniq b c u v hb hc =
      uniq b c u v (removed-Holds a t held b u hb) (removed-Holds a t held c v hc)

  -- The walk finds the task itself, for want of another one with its pid and level.
  pub deltask-removed :
      (a : ℕ) (t : Tstat)
      → Holds db a t
      → HasUniqueKeys db
      → deltask t.gen.pid t.gen.isproc db ≡ some (true, removed a t db)
  unfolding deltask
  deltask-removed a t held uniq =
      let chain = db.phash (bucket t.gen.pid) in
      elim (scan_cases db.heap (is_pid t.gen.pid t.gen.isproc) chain
        (live_chain wf (bucket t.gen.pid))) [
          | inl (miss, all) ↦ ground (arith, all a t, held.0, held.1, is_pid_self t)
          | inr (b, u, (found, inside, eb, pass)) ↦
              let (same_pid, same_level) = is_pid-true t u pass in
              let e : b ≡ a = uniq b a u t (eb, rw same_pid inside) held same_pid same_level in
              delete_in_found t.gen.pid t.gen.isproc db a chain (rw e at found)
        ]

-- The database that `pdb_cleanresidue` leaves: the entries of the RESIDUE list are gone from their
-- chains and from the heap, every other one is where it was, and the list is empty.
pub record Swept (db db' : ProcDb) : Type 0 where
  pub chains : (i : ℕ) → db'.phash i ≡ without db.residue (db.phash i)
  pub entries : (a : ℕ) → db'.heap a ≡ (if has a db.residue then none else db.heap a)
  pub emptied : db'.residue ≡ []
  pub valid : IsWf db'

next_of_first : (a : ℕ) (residue : List ℕ) → next_of a (a ∷ residue) ≡ first_of_residue residue
unfolding next_of
next_of_first a [] = refl
next_of_first a (x ∷ residue) = rw (==_refl a)

pub clean_step :
    (fuel a : ℕ) (t : Tstat) (b : Bool) (db db' : ProcDb)
    → db.heap a ≡ some t
    → deltask t.gen.pid t.gen.isproc db ≡ some (b, db')
    → clean (suc fuel) (some a) db ≡ clean fuel (next_of a db.residue) db'
unfolding clean
clean_step fuel a t b db db' e del = rw (e, del, clean)

-- One round of the loop takes the first entry of the list out, and the rest does the others.
module _ (a : ℕ) (r : List ℕ) (t : Tstat) {db : ProcDb} (e : db.residue ≡ a ∷ r) (wf : IsWf db)
    (held : Holds db a t) where
  removed-residue : (removed a t db).residue ≡ r
  unfolding erase
  removed-residue = ap (erase a) e ∙ ground (arith, ==_refl a)

  round-Swept : {db' : ProcDb} → Swept (removed a t db) db' → Swept db db'
  unfolding has
  round-Swept {db'} swept = record {
    chains = λ i.
        rw (swept.chains i, removed-residue, removed-phash wf a t held i, e)
          (without-erase a r (db.phash i) (wf.distinct i));
    entries = λ b. rw (swept.entries b, removed-residue, e) (ground (arith, ==_iff a b));
    emptied = swept.emptied;
    valid = swept.valid;
  }

  round_runs :
      HasUniqueKeys db
      → clean (suc (length (a ∷ r))) (some a) db
        ≡ clean (suc (length r)) (first_of_residue r) (removed a t db)
  round_runs uniq =
      clean_step (suc (length r)) a t true db (removed a t db) held.0
        (deltask-removed wf a t held uniq)
      ∙ ap (λ n. clean (suc (length r)) n (removed a t db)) (ap (next_of a) e ∙ next_of_first a r)

clean-Swept :
    (r : List ℕ) (db : ProcDb)
    → db.residue ≡ r
    → IsWf db
    → HasUniqueKeys db
    → (db' : ProcDb) × (clean (suc (length r)) (first_of_residue r) db ≡ some db') × Swept db db'
unfolding clean has
clean-Swept [] db e wf uniq = (
  db,
  refl,
  record { chains = λ i. rw (e, without-nil); entries = λ a. rw e; emptied = e; valid = wf },
)
clean-Swept (a ∷ r) db e wf uniq =
    let (t, ea, inside) = wf.listed a (rw e (ground (arith, ==_refl a))) in
    let held : Holds db a t = (ea, inside) in
    let (db', run, swept) =
      clean-Swept r (removed a t db) (removed-residue a r t e wf held) (removed-IsWf wf a t held)
        (removed-HasUniqueKeys wf a t held uniq) in
    (db', round_runs a r t e wf held uniq ∙ run, round-Swept a r t e wf held swept)

-- In a well-formed database without two tasks of one pid and level, `pdb_cleanresidue` comes to its
-- end with no invalid access, removes exactly the entries of the RESIDUE list, from their chains
-- and from the heap, leaves every other entry where it was, and leaves a well-formed database
-- with an empty RESIDUE list.
pub cleanresidue-Swept :
    (db : ProcDb)
    → IsWf db
    → HasUniqueKeys db
    → (db' : ProcDb) × (cleanresidue db ≡ some db') × Swept db db'
unfolding cleanresidue
cleanresidue-Swept db wf uniq = clean-Swept db.residue db refl wf uniq

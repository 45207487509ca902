-- ===== src/ProcDb/Inv.antt =====
-- The representation invariant of the process database, and the operations that keep it.
use atop.Prelude.{
  ℕ, ◌≤◌, ◌≡◌, refl, ◌⊎◌, inl, inr, Bool, true, false, Option, none, some, List, [], ◌∷◌, arith,
  ◌==◌, ==_iff, Bool-cases, has, erase, IsDistinct, has-erase_le, erase-IsDistinct,
}
use atop.Task.{Tstat}
use atop.ProcDb.{ProcDb, bucket, update, scan, alloc, addtask}

-- The task `t` is in the database, at the address `a`.
abbrev pub Holds : ProcDb → ℕ → Tstat → Type 0
Holds db a t = (db.heap a ≡ some t) × (has a (db.phash (bucket t.gen.pid)) ≡ true)

abbrev pub Chained : ProcDb → ℕ → ℕ → Type 0
Chained db i a = (t : Tstat) × (db.heap a ≡ some t) × (bucket t.gen.pid ≡ i)

abbrev pub Listed : ProcDb → ℕ → Type 0
Listed db a = (t : Tstat) × (db.heap a ≡ some t) × (has a (db.phash (bucket t.gen.pid)) ≡ true)

-- Every chained address holds a task of the bucket, no chain and no list has an address twice, the
-- RESIDUE list has tasks of the database only, and no address from `fresh` on is in use.
pub record IsWf (db : ProcDb) : Type 0 where
  pub chained : (i a : ℕ) → has a (db.phash i) ≡ true → Chained db i a
  pub distinct : (i : ℕ) → IsDistinct (db.phash i)
  pub listed : (a : ℕ) → has a db.residue ≡ true → Listed db a
  pub residue_distinct : IsDistinct db.residue
  pub unused : (a : ℕ) → db.fresh ≤ a → db.heap a ≡ none

-- What a walk along a chain of allocated entries gives: no entry passes the test, or the first one
-- that does.
abbrev pub Missed : (ℕ → Option Tstat) → (Tstat → Bool) → List ℕ → Type 0
Missed heap test chain = (a : ℕ) (t : Tstat) → has a chain ≡ true → heap a ≡ some t → test t ≡ false

abbrev pub Found : (ℕ → Option Tstat) → (Tstat → Bool) → List ℕ → ℕ → Tstat → Type 0
Found heap test chain a t =
    (scan heap test chain ≡ some (some a))
    × (has a chain ≡ true)
    × (heap a ≡ some t)
    × (test t ≡ true)

module _ (heap : ℕ → Option Tstat) (test : Tstat → Bool) where
  pub scan_cases :
      (chain : List ℕ)
      → ((a : ℕ) → has a chain ≡ true → (t : Tstat) × (heap a ≡ some t))
      → ((scan heap test chain ≡ some none) × Missed heap test chain)
        ⊎ ((a : ℕ) × (t : Tstat) × Found heap test chain a t)
  unfolding scan has
  scan_cases [] live = inl (refl, λ a t h e. ground arith)
  scan_cases (x ∷ chain) live =
      let (t, e) = live x (ground arith) in
      elim (Bool-cases (test t)) [
        | inl pass ↦ inr (x, t, (ground arith, ground arith, e, pass))
        | inr fail ↦ elim (scan_cases chain (λ a h. live a (ground arith))) [
          | inl (miss, all) ↦ inl (
            ground arith,
            λ a u h ea. elim (Bool-cases (a == x)) [
              | inl same ↦ ground (arith, ==_iff a x)
              | inr other ↦ all a u (ground arith) ea
            ],
          )
          | inr (a, u, (found, inside, ea, pass)) ↦
              inr (a, u, (ground arith, ground arith, ea, pass))
        ]
      ]

module _ {db : ProcDb} (wf : IsWf db) where
  pub live_chain : (i a : ℕ) → has a (db.phash i) ≡ true → (t : Tstat) × (db.heap a ≡ some t)
  live_chain i a h = let (t, e, b) = wf.chained i a h in (t, e)

  -- `pdb_gettask` keeps the invariant: unlinking from the RESIDUE list is all that it does.
  pub unlink-IsWf : (a : ℕ) → IsWf (record db { residue = erase a db.residue })
  unlink-IsWf a = record {
    chained = wf.chained;
    distinct = wf.distinct;
    listed = λ b h. wf.listed b (has-erase_le a b db.residue h);
    residue_distinct = erase-IsDistinct a db.residue wf.residue_distinct;
    unused = wf.unused;
  }

  -- An entry of the database that is overwritten by a sample of the same pid.
  pub store-IsWf :
      (a : ℕ) (old t : Tstat)
      → Holds db a old
      → old.gen.pid ≡ t.gen.pid
      → IsWf (record db { heap = update db.heap a (some t) })
  store-IsWf a old t held same = record {
    chained = λ i b h. elim (Bool-cases (a == b)) [
      | inl e ↦ let (u, eu, bu) = wf.chained i b h in (t, ground arith, ground (arith, ==_iff a b))
      | inr ne ↦ let (u, eu, bu) = wf.chained i b h in (u, ground arith, bu)
    ];
    distinct = wf.distinct;
    listed = λ b h. elim (Bool-cases (a == b)) [
      | inl e ↦ let (u, eu, bu) = wf.listed b h in (t, ground arith, ground (arith, ==_iff a b))
      | inr ne ↦ let (u, eu, bu) = wf.listed b h in (u, ground arith, bu)
    ];
    residue_distinct = wf.residue_distinct;
    unused = λ b h. ground (arith, wf.unused b h);
  }

  -- The address of a new entry is in no chain.
  pub fresh_unchained : (i : ℕ) → has db.fresh (db.phash i) ≡ false
  fresh_unchained i = elim (Bool-cases (has db.fresh (db.phash i))) [
    | inl h ↦ let (t, e) = live_chain i db.fresh h in ground (arith, wf.unused db.fresh)
    | inr h ↦ h
  ]

  -- A new entry, chained in the bucket of its pid.
  pub add-IsWf : (t : Tstat) → let (a, db') = alloc t db in IsWf (addtask t.gen.pid a db')
  unfolding alloc addtask has
  add-IsWf t = record {
    chained = λ i b h. elim (Bool-cases (db.fresh == b)) [
      | inl e ↦ (t, ground arith, ground (arith, ==_iff db.fresh b, fresh_unchained i))
      | inr ne ↦
          let inside : has b (db.phash i) ≡ true = ground arith in
          let (u, eu, bu) = wf.chained i b inside in (u, ground arith, bu)
    ];
    distinct = λ i. elim (Bool-cases (bucket t.gen.pid == i)) [
      | inl e ↦ rw e (fresh_unchained (bucket t.gen.pid), wf.distinct (bucket t.gen.pid))
      | inr ne ↦ rw ne (wf.distinct i)
    ];
    listed = λ b h.
        let (u, eu, bu) = wf.listed b h in
        let other : (db.fresh == b) ≡ false = ground (arith, wf.unused b) in
        (u, ground arith, ground arith);
    residue_distinct = wf.residue_distinct;
    unused = λ b h. ground (arith, wf.unused b);
  }

  -- The task that the deletion removes has its address in one chain only.
  pub chain_of :
      (i a : ℕ) (t : Tstat) → db.heap a ≡ some t → has a (db.phash i) ≡ true → bucket t.gen.pid ≡ i
  chain_of i a t e h = let (u, eu, bu) = wf.chained i a h in ground arith

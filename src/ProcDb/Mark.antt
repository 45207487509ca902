-- ===== src/ProcDb/Mark.antt =====
-- `pdb_makeresidue`: the RESIDUE list of every task of the database.
use atop.Prelude.{
  ℕ, zero, suc, ◌+◌, ◌≤◌, ◌<◌, ◌≡◌, refl, ◌⊎◌, inl, inr, ◌↔◌, true, false, some, List, [], ◌∷◌,
  arith, ◌==◌, ==_iff, ◌||◌, Bool-cases, has, IsDistinct,
}
use atop.Task.{Tstat}
use atop.ProcDb.{ProcDb, bucket, nphash, push_chain, push_buckets, makeresidue}
use atop.ProcDb.Inv.{IsWf, chain_of}

has-push_chain :
    (a : ℕ) (chain residue : List ℕ)
    → has a (push_chain chain residue) ≡ (has a chain || has a residue)
unfolding push_chain has
has-push_chain a [] residue = refl
has-push_chain a (x ∷ chain) residue = ground (arith, has-push_chain a chain (x ∷ residue))

push_chain-IsDistinct :
    (chain residue : List ℕ)
    → IsDistinct chain
    → IsDistinct residue
    → ((a : ℕ) → has a chain ≡ true → has a residue ≡ false)
    → IsDistinct (push_chain chain residue)
unfolding push_chain has
push_chain-IsDistinct [] residue dc dr apart = dr
push_chain-IsDistinct (x ∷ chain) residue dc dr apart =
    push_chain-IsDistinct chain (x ∷ residue) dc.1 (apart x (ground arith), dr)
      (λ a h. ground (arith, apart a, ==_iff a x, dc.0))

-- `db'` is `db` with every task on the RESIDUE list.
pub record Marked (db db' : ProcDb) : Type 0 where
  pub valid : IsWf db'
  pub heap : db'.heap ≡ db.heap
  pub phash : db'.phash ≡ db.phash
  pub listed :
      (a : ℕ) (t : Tstat)
      → db.heap a ≡ some t
      → (has a db'.residue ≡ true) ↔ (has a (db.phash (bucket t.gen.pid)) ≡ true)

module _ {db : ProcDb} (wf : IsWf db) where
  -- After the rounds from `i` on, the list has the old entries and those of the chains met.
  record Pushed (n i : ℕ) (residue result : List ℕ) : Type 0 where
    distinct : IsDistinct result
    kept : (a : ℕ) → has a residue ≡ true → has a result ≡ true
    met : (j a : ℕ) → i ≤ j → j < i + n → has a (db.phash j) ≡ true → has a result ≡ true
    only :
        (a : ℕ)
        → has a result ≡ true
        → (has a residue ≡ true) ⊎ ((j : ℕ) × (i ≤ j) × (j < i + n) × (has a (db.phash j) ≡ true))

  push_buckets-Pushed :
      (n i : ℕ) (residue : List ℕ)
      → IsDistinct residue
      → ((j a : ℕ) → i ≤ j → has a (db.phash j) ≡ true → has a residue ≡ false)
      → Pushed n i residue (push_buckets db.phash n i residue)
  unfolding push_buckets
  push_buckets-Pushed zero i residue d apart = record {
    distinct = d;
    kept = λ a h. h;
    met = λ j a lo hi h. absurd (omega arith);
    only = λ a h. inl h;
  }
  push_buckets-Pushed (suc n) i residue d apart =
      let ih =
        push_buckets-Pushed n (suc i) (push_chain (db.phash i) residue)
          (push_chain-IsDistinct (db.phash i) residue (wf.distinct i) d
            (λ a h. apart i a (omega arith) h))
          (λ j a lo h. elim (Bool-cases (has a (db.phash i))) [
            | inl inside ↦
                let (t, e, b) = wf.chained i a inside in
                absurd (omega (arith, chain_of wf j a t e h))
            | inr outside ↦
                ground (arith, has-push_chain a (db.phash i) residue, apart j a (omega arith) h)
          ]) in
      record {
        distinct = ih.distinct;
        kept = λ a h. ih.kept a (ground (arith, has-push_chain a (db.phash i) residue));
        met = λ j a lo hi h. elim (Bool-cases (i == j)) [
          | inl e ↦ ih.kept a (ground (arith, ==_iff i j, has-push_chain a (db.phash i) residue))
          | inr ne ↦ ih.met j a (ground arith) (omega arith) h
        ];
        only = λ a h. elim (ih.only a h) [
          | inl old ↦ elim (Bool-cases (has a (db.phash i))) [
            | inl inside ↦ inr (i, omega arith, omega arith, inside)
            | inr outside ↦ inl (ground (arith, has-push_chain a (db.phash i) residue))
          ]
          | inr (j, lo, hi, h') ↦ inr (j, omega arith, omega arith, h')
        ];
      }

  pushed : Pushed nphash 0 [] (makeresidue db).residue
  unfolding makeresidue has
  pushed = push_buckets-Pushed nphash 0 [] tt (λ j a lo h. refl)

  -- After `pdb_makeresidue` the RESIDUE list holds exactly the tasks of the database, each once; the
  -- database itself is unchanged and well-formed.
  pub makeresidue-Marked : Marked db (makeresidue db)
  unfolding makeresidue has
  makeresidue-Marked = record {
    valid = record {
      chained = wf.chained;
      distinct = wf.distinct;
      listed = λ a h. elim (pushed.only a h) [
        | inl old ↦ ground arith
        | inr (j, lo, hi, h') ↦ let (t, e, b) = wf.chained j a h' in (t, e, rw b h')
      ];
      residue_distinct = pushed.distinct;
      unused = wf.unused;
    };
    heap = refl;
    phash = refl;
    listed = λ a t e. (
      λ h. elim (pushed.only a h) [
        | inl old ↦ ground arith
        | inr (j, lo, hi, h') ↦ rw (chain_of wf j a t e h') h'
      ],
      λ h. pushed.met (bucket t.gen.pid) a (omega arith) (omega arith) h,
    );
  }

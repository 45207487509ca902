-- ===== src/ProcDb/Refresh.antt =====
-- The database after the sample of one present task was entered.
use atop.Prelude.{
  ℕ, ◌≡◌, refl, sym, ◌∙◌, ap, ◌⊎◌, inl, inr, false, some, arith, ◌==◌, ==_iff, ==_refl, Bool-cases,
  has, erase, has-erase,
}
use atop.Task.{Tstat}
use atop.ProcDb.{ProcDb, bucket, update, alloc, addtask}
use atop.ProcDb.Inv.{Holds, IsWf, unlink-IsWf, store-IsWf, add-IsWf}
use atop.ProcDb.Sweep.{HasUniqueKeys}

abbrev pub SameKey : Tstat → Tstat → Type 0
SameKey t u = (t.gen.pid ≡ u.gen.pid) × (t.gen.isproc ≡ u.gen.isproc)

-- The entry of the sample is at `place`, off the RESIDUE list; every other entry is as before.
pub record Refreshed (cur : Tstat) (db db' : ProcDb) : Type 0 where
  pub place : ℕ
  pub valid : IsWf db'
  pub unique : HasUniqueKeys db'
  pub held : Holds db' place cur
  pub referred : has place db'.residue ≡ false
  pub others :
      (b : ℕ) (u : Tstat)
      → Holds db' b u
      → ((b ≡ place) × (u ≡ cur)) ⊎ (Holds db b u × (has b db'.residue ≡ has b db.residue))
  pub kept :
      (b : ℕ) (u : Tstat)
      → Holds db b u
      → SameKey u cur ⊎ (Holds db' b u × (has b db'.residue ≡ has b db.residue))

key_of : {t u : Tstat} → t ≡ u → SameKey t u
key_of e = (ap (λ x. x.gen.pid) e, ap (λ x. x.gen.isproc) e)

through : (t u v cur : Tstat) → SameKey t cur → SameKey u cur → SameKey u v → SameKey t v
through t u v cur a b c = (a.0 ∙ sym b.0 ∙ c.0, a.1 ∙ sym b.1 ∙ c.1)

back : (u v t cur : Tstat) → SameKey u v → SameKey v cur → SameKey t cur → SameKey u t
back u v t cur a b c = (a.0 ∙ b.0 ∙ sym c.0, a.1 ∙ b.1 ∙ sym c.1)

both : (u v cur : Tstat) → SameKey u v → SameKey v cur → SameKey u cur
both u v cur a b = (a.0 ∙ b.0, a.1 ∙ b.1)

flip_key : (u v cur : Tstat) → SameKey u v → SameKey u cur → SameKey v cur
flip_key u v cur a b = (sym a.0 ∙ b.0, sym a.1 ∙ b.1)

module _ {db : ProcDb} (wf : IsWf db) (unique : HasUniqueKeys db) (cur : Tstat) where
  erased : (a : ℕ) → has a (erase a db.residue) ≡ false
  erased a = ground (arith, has-erase a a db.residue wf.residue_distinct, ==_refl a)

  erased_other : (a b : ℕ) → (a == b) ≡ false → has b (erase a db.residue) ≡ has b db.residue
  erased_other a b ne = ground (arith, has-erase a b db.residue wf.residue_distinct)

  -- The database has the very sample: its entry is taken off the RESIDUE list.
  pub refresh_same :
      (a : ℕ) → Holds db a cur → Refreshed cur db (record db { residue = erase a db.residue })
  refresh_same a held = record {
    place = a;
    valid = unlink-IsWf wf a;
    unique = unique;
    held = held;
    referred = erased a;
    others = λ b u h. elim (Bool-cases (a == b)) [
      | inl e ↦ inl (ground (arith, ==_iff a b), ground (arith, ==_iff a b))
      | inr ne ↦ inr (h, erased_other a b ne)
    ];
    kept = λ b u h. elim (Bool-cases (a == b)) [
      | inl e ↦ inl (ground (arith, ==_iff a b), ground (arith, ==_iff a b))
      | inr ne ↦ inr (h, erased_other a b ne)
    ];
  }

  -- The database after the sample replaced the previous one of the same task.
  abbrev pub replaced : ℕ → ProcDb
  replaced a = record db { residue = erase a db.residue; heap = update db.heap a (some cur) }

  replaced-Holds :
      (a : ℕ) (t : Tstat)
      → Holds db a t
      → SameKey t cur
      → (b : ℕ) (u : Tstat) → Holds (replaced a) b u
      → ((b ≡ a) × (u ≡ cur)) ⊎ (Holds db b u × ((a == b) ≡ false))
  replaced-Holds a t held same b u h = elim (Bool-cases (a == b)) [
    | inl e ↦ inl (ground (arith, ==_iff a b), ground arith)
    | inr ne ↦ inr ((ground arith, h.1), ne)
  ]

  pub refresh_changed :
      (a : ℕ) (t : Tstat) → Holds db a t → SameKey t cur → Refreshed cur db (replaced a)
  refresh_changed a t held same = record {
    place = a;
    valid = store-IsWf (unlink-IsWf wf a) a t cur held same.0;
    unique = λ b c u v hb hc pid level. elim (replaced-Holds a t held same b u hb) [
      | inl (eb, eu) ↦ elim (replaced-Holds a t held same c v hc) [
        | inl (ec, ev) ↦ eb ∙ sym ec
        | inr (hv, ne) ↦
            eb
            ∙ unique a c t v held hv (through t u v cur same (key_of eu) (pid, level)).0
                (through t u v cur same (key_of eu) (pid, level)).1
      ]
      | inr (hu, ne) ↦ elim (replaced-Holds a t held same c v hc) [
        | inl (ec, ev) ↦
            unique b a u t hu held (back u v t cur (pid, level) (key_of ev) same).0
              (back u v t cur (pid, level) (key_of ev) same).1
            ∙ sym ec
        | inr (hv, ne') ↦ unique b c u v hu hv pid level
      ]
    ];
    held = (ground (arith, ==_refl a), ground arith);
    referred = erased a;
    others = λ b u h. elim (replaced-Holds a t held same b u h) [
      | inl e ↦ inl e
      | inr (hu, ne) ↦ inr (hu, erased_other a b ne)
    ];
    kept = λ b u h. elim (Bool-cases (a == b)) [
      | inl e ↦ inl (ground (arith, ==_iff a b), ground (arith, ==_iff a b))
      | inr ne ↦ inr ((ground arith, h.1), erased_other a b ne)
    ];
  }

  -- The database with a new entry for the sample.
  abbrev pub added : ProcDb
  added = addtask cur.gen.pid (alloc cur db).0 (alloc cur db).1

  added-Holds :
      (b : ℕ) (u : Tstat)
      → Holds added b u
      → ((b ≡ db.fresh) × (u ≡ cur)) ⊎ (Holds db b u × ((db.fresh == b) ≡ false))
  unfolding alloc addtask has
  added-Holds b u h = elim (Bool-cases (db.fresh == b)) [
    | inl e ↦ inl (ground (arith, ==_iff db.fresh b), ground arith)
    | inr ne ↦ inr ((ground arith, ground arith), ne)
  ]

  pub refresh_new :
      ((a : ℕ) (t : Tstat) → Holds db a t → ¬ (SameKey t cur)) → Refreshed cur db added
  unfolding alloc addtask has
  refresh_new new = record {
    place = db.fresh;
    valid = add-IsWf wf cur;
    unique = λ b c u v hb hc pid level. elim (added-Holds b u hb) [
      | inl (eb, eu) ↦ elim (added-Holds c v hc) [
        | inl (ec, ev) ↦ eb ∙ sym ec
        | inr (hv, ne) ↦ absurd (new c v hv (flip_key u v cur (pid, level) (key_of eu)))
      ]
      | inr (hu, ne) ↦ elim (added-Holds c v hc) [
        | inl (ec, ev) ↦ absurd (new b u hu (both u v cur (pid, level) (key_of ev)))
        | inr (hv, ne') ↦ unique b c u v hu hv pid level
      ]
    ];
    held = (
      ground (arith, ==_refl db.fresh),
      ground (arith, ==_refl db.fresh, ==_refl (bucket cur.gen.pid)),
    );
    referred = elim (Bool-cases (has db.fresh db.residue)) [
      | inl h ↦ let (t, e, b) = wf.listed db.fresh h in ground (arith, wf.unused db.fresh)
      | inr h ↦ h
    ];
    others = λ b u h. elim (added-Holds b u h) [ inl e ↦ inl e | inr (hu, ne) ↦ inr (hu, refl) ];
    kept =
        λ b u h. inr ((ground (arith, ==_iff db.fresh b, wf.unused db.fresh), ground arith), refl);
  }

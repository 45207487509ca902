-- ===== src/ProcDb/Reuse.antt =====
-- `pdb_cleanresidue` where a pid was reused: `pdb_deltask` does not look at the start time.
use atop.Prelude.{
  ℕ, suc, ◌≡◌, refl, ap, ◌∙◌, true, false, none, some, List, [], ◌∷◌, arith, ==_iff, ==_refl,
  same_flag_refl, has, erase, length,
}
use atop.Task.{Tstat}
use atop.ProcDb.{
  ProcDb, bucket, update, scan, is_pid, delete_in, deltask, next_of, first_of_residue, clean,
  cleanresidue,
}
use atop.ProcDb.Sweep.{clean_step}

-- The new entry at the head of the hash chain is the one that is deleted.
delete_head :
    (db : ProcDb) (a : ℕ) (t u : Tstat) (rest : List ℕ)
    → db.phash (bucket u.gen.pid) ≡ a ∷ rest
    → db.heap a ≡ some t
    → t.gen.pid ≡ u.gen.pid
    → t.gen.isproc ≡ u.gen.isproc
    → deltask u.gen.pid u.gen.isproc db
      ≡ some (
        true,
        record db {
          phash = update db.phash (bucket u.gen.pid) (erase a (a ∷ rest));
          residue = erase a db.residue;
          heap = update db.heap a none;
        },
      )
unfolding deltask delete_in scan is_pid
delete_head db a t u rest chain ea pid level =
    rw (chain, delete_in, scan, ea) (ground (arith, same_flag_refl u.gen.isproc))

-- Where a new entry stands before an unreferenced one with the same pid and level in their hash
-- chain, and the latter is all that the RESIDUE list holds, `pdb_cleanresidue` frees the new entry
-- and keeps the unreferenced one, in the chain and in the RESIDUE list.
pub cleanresidue-keeps_stale :
    (db : ProcDb) (a b : ℕ) (t u : Tstat) (rest : List ℕ)
    → db.phash (bucket u.gen.pid) ≡ a ∷ rest
    → has b rest ≡ true
    → has a rest ≡ false
    → db.heap a ≡ some t
    → db.heap b ≡ some u
    → t.gen.pid ≡ u.gen.pid
    → t.gen.isproc ≡ u.gen.isproc
    → db.residue ≡ b ∷ []
    → (db' : ProcDb) × (cleanresidue db ≡ some db')
      × (db'.heap a ≡ none)
      × (db'.heap b ≡ some u)
      × (db'.phash (bucket u.gen.pid) ≡ rest)
      × (db'.residue ≡ b ∷ [])
unfolding cleanresidue clean erase has next_of
cleanresidue-keeps_stale db a b t u rest chain inside outside ea eb pid level left = (
  rid,
  run,
  ground (arith, ==_refl a),
  ground (arith, ==_iff a b),
  ground (arith, ==_refl (bucket u.gen.pid)),
  refl,
)
  where
    rid : ProcDb
    rid = record db {
      phash = update db.phash (bucket u.gen.pid) rest;
      residue = b ∷ [];
      heap = update db.heap a none;
    }

    deleted : deltask u.gen.pid u.gen.isproc db ≡ some (true, rid)
    deleted =
        delete_head db a t u rest chain ea pid level
        ∙ rw left (ground (arith, ==_refl a, ==_iff a b))

    run : cleanresidue db ≡ some rid
    run =
        ap (λ r. clean (suc (length r)) (first_of_residue r) db) left
        ∙ clean_step 1 b u true db rid eb deleted
        ∙ ap (λ r. clean 1 (next_of b r) rid) left

-- ===== src/ProcDb/Tests.antt =====
-- The process database on small samples.
use atop.Prelude.{
  ℕ, zero, suc, ◌≡◌, refl, ◌⊎◌, inl, inr, true, none, some, [], ◌∷◌, arith, has, erase, streq,
}
use atop.Task.{Tstat, zero_gen, zero_tstat}
use atop.ProcDb.{
  ProcDb, scan, is_task, is_pid, is_alike, remember, search_residue, gettask, alloc, addtask,
  deltask, delete_in, push_chain, push_buckets, makeresidue, next_of, clean, cleanresidue,
  srchresidue,
}
use atop.ProcDb.Inv.{IsWf}
use atop.ProcDb.Lookup.{NotFound, IsFound, gettask_lem, NoCandidate, Candidate, srchresidue_lem}
use atop.ProcDb.Empty.{nothing, nothing-IsWf, nothing-unique}
use atop.ProcDb.Mark.{Marked, makeresidue-Marked}
use atop.ProcDb.Sweep.{HasUniqueKeys, Swept, cleanresidue-Swept}
use atop.ProcDb.Refresh.{Refreshed, added, refresh_new}
use atop.ProcDb.Reuse.{cleanresidue-keeps_stale}

-- A process with a pid and a start time.
abbrev process : ℕ → ℕ → Tstat
process pid btime = record zero_tstat {
  gen = record zero_gen { pid = pid; btime = btime; isproc = true };
}

first : Refreshed (process 1 100) nothing (added nothing-IsWf nothing-unique (process 1 100))
first = refresh_new nothing-IsWf nothing-unique (process 1 100) (λ a t h same. ground (arith, h.0))

-- Pids 1 and 257 share a hash chain.
second :
    Refreshed
      (process 257 500)
      (added nothing-IsWf nothing-unique (process 1 100))
      (added first.valid first.unique (process 257 500))
second = refresh_new first.valid first.unique (process 257 500) (λ a t h same.
    elim (first.others a t h) [
      | inl (place, e) ↦ ground arith
      | inr (h', listed) ↦ ground (arith, h'.0)
    ])

abbrev two : ProcDb
two = added first.valid first.unique (process 257 500)

-- The functions, open for evaluation.
program : Unit {0}
unfolding scan is_task is_pid is_alike remember search_residue gettask alloc addtask deltask
    delete_in push_chain push_buckets makeresidue next_of clean cleanresidue srchresidue has erase
    streq
program = tt

two_chain : two.phash 1 ≡ 1 ∷ 0 ∷ []
unfolding program
two_chain = refl

-- Both are marked; the one that is asked for survives the sweep.
survivor :
    (elim (gettask 1 true 101 (makeresidue two)) [
      | none ↦ none
      | some r ↦ elim (cleanresidue r.1) [ none ↦ none | some db ↦ some (db.phash 1) ]
    ])
    ≡ some (0 ∷ [])
unfolding program
survivor = refl

gettask_lem_example :
    NotFound two 257 true 500 ⊎ ((a : ℕ) × (t : Tstat) × IsFound two 257 true 500 a t)
gettask_lem_example = gettask_lem 257 true 500 second.valid

makeresidue-Marked_example : Marked two (makeresidue two)
makeresidue-Marked_example = makeresidue-Marked second.valid

abbrev marked : ProcDb
marked = makeresidue two

marked-valid : IsWf marked
marked-valid = (makeresidue-Marked second.valid).valid

marked-unique : HasUniqueKeys marked
unfolding makeresidue
marked-unique = second.unique

srchresidue_lem_example :
    NoCandidate marked (process 0 501)
    ⊎ ((a : ℕ) × (t : Tstat) × Candidate marked (process 0 501) a t)
srchresidue_lem_example = srchresidue_lem (process 0 501) marked-valid

-- An accounting record without pid, started one second off, is matched with pid 257.
almost : srchresidue (process 0 501) marked ≡ some (some 1)
unfolding program
almost = refl

cleanresidue-Swept_example : (db : ProcDb) × (cleanresidue marked ≡ some db) × Swept marked db
cleanresidue-Swept_example = cleanresidue-Swept marked marked-valid marked-unique

-- Pid 1 was reused: the entry 1 is the new process, the entry 0 the old one.
abbrev reused : ProcDb
reused = record {
  heap = λ a. elim a [ zero ↦ some (process 1 100) | suc _ ↦ some (process 1 900) ];
  phash = λ i. 1 ∷ 0 ∷ [];
  residue = 0 ∷ [];
  fresh = 2;
}

cleanresidue-keeps_stale_example :
    (db : ProcDb) × (cleanresidue reused ≡ some db)
    × (db.heap 1 ≡ none)
    × (db.heap 0 ≡ some (process 1 100))
    × (db.phash 1 ≡ 0 ∷ [])
    × (db.residue ≡ 0 ∷ [])
unfolding has
cleanresidue-keeps_stale_example =
    cleanresidue-keeps_stale reused 1 0 (process 1 900) (process 1 100) (0 ∷ []) refl refl refl refl
      refl refl refl refl

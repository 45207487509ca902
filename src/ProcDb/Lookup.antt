-- ===== src/ProcDb/Lookup.antt =====
-- `pdb_gettask` and `pdb_srchresidue`: what they find, and that they find it.
use atop.Prelude.{
  ℕ, ◌≡◌, refl, ◌⊎◌, inl, inr, Bool, true, false, Option, none, some, List, [], ◌∷◌, ◌+◌, arith,
  ◌&&◌, ◌==◌, Bool-cases, has, erase, ◌||◌,
}
use atop.Task.{Tstat}
use atop.ProcDb.{ProcDb, bucket, scan, is_task, is_alike, gettask, search_residue, srchresidue}
use atop.ProcDb.Inv.{Holds, IsWf, Missed, scan_cases, live_chain}

is_task-pid :
    (pid : ℕ) (isproc : Bool) (btime : ℕ) (t : Tstat)
    → is_task pid isproc btime t ≡ true
    → t.gen.pid ≡ pid
unfolding is_task
is_task-pid pid isproc btime t h = ground arith

-- What `pdb_gettask` answers: either the result is 0 and nothing changes, and then no task of the
-- database has this pid, this level and a start time at most a second away; or it hands out a task
-- of the database that has them, and takes it off the RESIDUE list.
abbrev pub NotFound : ProcDb → ℕ → Bool → ℕ → Type 0
NotFound db pid isproc btime =
    (gettask pid isproc btime db ≡ some (none, db))
    × ((a : ℕ) (t : Tstat) → Holds db a t → is_task pid isproc btime t ≡ false)

abbrev pub IsFound : ProcDb → ℕ → Bool → ℕ → ℕ → Tstat → Type 0
IsFound db pid isproc btime a t =
    (gettask pid isproc btime db ≡ some (some a, record db { residue = erase a db.residue }))
    × Holds db a t
    × (is_task pid isproc btime t ≡ true)

-- In a well-formed database `pdb_gettask` makes no invalid access. Either its result is 0, the
-- database is unchanged and holds no task with this pid, this level and a start time at most one
-- second away (by the low 32 bits of the difference); or it hands out such a task of the database and takes exactly that one off the
-- RESIDUE list.
pub gettask_lem :
    {db : ProcDb} (pid : ℕ) (isproc : Bool) (btime : ℕ)
    → IsWf db
    → NotFound db pid isproc btime ⊎ ((a : ℕ) × (t : Tstat) × IsFound db pid isproc btime a t)
unfolding gettask
gettask_lem {db} pid isproc btime wf =
    let test = is_task pid isproc btime in
    elim (scan_cases db.heap test (db.phash (bucket pid)) (live_chain wf (bucket pid))) [
      | inl (miss, all) ↦ inl (
        rw (miss, gettask),
        λ a t held. elim (Bool-cases (test t)) [
          | inl pass ↦ all a t (ground (arith, is_task-pid pid isproc btime t)) held.0
          | inr fail ↦ fail
        ],
      )
      | inr (a, t, (found, inside, ea, pass)) ↦
          inr (
            a,
            t,
            (rw (found, gettask), (ea, ground (arith, is_task-pid pid isproc btime t)), pass),
          )
    ]

-- Same user, group and name, and the same start time.
abbrev pub is_exact : Tstat → Tstat → Bool
is_exact wanted t = is_alike t wanted && t.gen.btime == wanted.gen.btime

-- The same, with a start time one second away.
abbrev pub is_almost : Tstat → Tstat → Bool
is_almost wanted t =
    is_alike t wanted
    && (t.gen.btime + 1 == wanted.gen.btime || t.gen.btime == wanted.gen.btime + 1)

or_else_first : Option (Option ℕ) → Option (Option ℕ) → Option (Option ℕ)
or_else_first (some none) second = second
or_else_first first second = first

module _ (heap : ℕ → Option Tstat) (wanted : Tstat) where
  Live : List ℕ → Type 0
  Live residue = (a : ℕ) → has a residue ≡ true → (t : Tstat) × (heap a ≡ some t)

  -- An entry that is remembered is the answer unless an exact match follows.
  search_remembered :
      (residue : List ℕ) (p : ℕ)
      → Live residue
      → search_residue heap wanted residue (some p)
        ≡ or_else_first (scan heap (is_exact wanted) residue) (some (some p))
  unfolding Live search_residue scan has or_else_first
  search_remembered [] p live = refl
  search_remembered (x ∷ residue) p live =
      let (t, e) = live x (ground arith) in
      let ih = search_remembered residue p (λ a h. live a (ground arith)) in ground arith

  -- The loop with nothing remembered: the first exact match, or else the first almost exact one.
  search_none :
      (residue : List ℕ)
      → Live residue
      → search_residue heap wanted residue none
        ≡ or_else_first (scan heap (is_exact wanted) residue) (scan heap (is_almost wanted) residue)
  unfolding Live search_residue scan has or_else_first
  search_none [] live = refl
  search_none (x ∷ residue) live =
      let (t, e) = live x (ground arith) in
      let ih = search_none residue (λ a h. live a (ground arith)) in
      ground (arith, search_remembered residue x (λ a h. live a (ground arith)))

module _ (db : ProcDb) (wanted : Tstat) where
  -- The RESIDUE list has no candidate.
  abbrev pub NoCandidate : Type 0
  NoCandidate =
      (srchresidue wanted db ≡ some none)
      × Missed db.heap (is_exact wanted) db.residue
      × Missed db.heap (is_almost wanted) db.residue

  abbrev pub Candidate : ℕ → Tstat → Type 0
  Candidate a t =
      (srchresidue wanted db ≡ some (some a))
      × (has a db.residue ≡ true)
      × (db.heap a ≡ some t)
      × ((is_exact wanted t ≡ true)
          ⊎ ((is_almost wanted t ≡ true) × Missed db.heap (is_exact wanted) db.residue))

-- In a well-formed database `pdb_srchresidue` makes no invalid access. Its result is 0 only if no
-- entry of the RESIDUE list has the wanted user, group and name and a start time at most one second
-- away; otherwise it hands out such an entry, and one that started in the very same second if
-- there is any.
pub srchresidue_lem :
    {db : ProcDb} (wanted : Tstat)
    → IsWf db
    → NoCandidate db wanted ⊎ ((a : ℕ) × (t : Tstat) × Candidate db wanted a t)
unfolding srchresidue or_else_first Live
srchresidue_lem {db} wanted wf =
    let live : (a : ℕ) → has a db.residue ≡ true → (t : Tstat) × (db.heap a ≡ some t) =
      λ a h. let (t, e, b) = wf.listed a h in (t, e) in
    let split = search_none db.heap wanted db.residue live in
    elim (scan_cases db.heap (is_exact wanted) db.residue live) [
      | inr (a, t, (found, inside, ea, pass)) ↦ inr (a, t, (ground arith, inside, ea, inl pass))
      | inl (miss, all) ↦ elim (scan_cases db.heap (is_almost wanted) db.residue live) [
        | inl (miss', all') ↦ inl (ground arith, all, all')
        | inr (a, t, (found, inside, ea, pass)) ↦
            inr (a, t, (ground arith, inside, ea, inr (pass, all)))
      ]
    ]

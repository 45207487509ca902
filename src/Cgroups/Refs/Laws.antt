-- ===== src/Cgroups/Refs/Laws.antt =====
-- Which group a process gets.
use atop.Prelude.{
  ℕ, zero, suc, ◌+◌, ◌≤◌, ◌≡◌, refl, ap, ap₂, ◌∙◌, Bool, true, false, inl, inr, List, [], ◌∷◌, ◌++◌,
  Option, none, some, length, has, ltb, ◌||◌, ◌==◌, ==_iff, if◌then◌else◌, Bool-cases, arith,
}
use atop.Prelude.Int.{minus_one}
use atop.Prelude.Partial.{or_else, or_else_assoc, or_else-none}
use atop.Task.{Tstat}
use atop.Deviate.Tasks.{Devtstat}
use atop.Cgroups.{Cgchainer}
use atop.Cgroups.Walk.Expected.{nprocs_of}
use atop.Cgroups.Walk.Tree.{ArePlaced, IsTree}
use atop.Cgroups.Refs.{
  pid_slot, PidHash, no_pids, add_pid, add_pids, add_groups, find_pid, index_of, fill_ref,
  fill_refs, cgfillref,
}

-- The last group of a chain that lists a pid, when the first group has the index `ic`.
unfoldable pub last_group : ℕ → List Cgchainer → ℕ → Option ℕ
last_group pid [] ic = none
last_group pid (cp ∷ rest) ic =
    or_else (last_group pid rest (ic + 1)) (if has pid cp.proclist then some ic else none)

-- How many pids the groups list.
abbrev pub listed : List Cgchainer → ℕ
listed [] = 0
listed (cp ∷ rest) = length cp.proclist + listed rest

-- What is found for a pid.
abbrev look : ℕ → PidHash → Option ℕ
look pid h = find_pid pid (h (pid_slot pid))

abbrev mine : Bool → ℕ → Option ℕ
mine b ic = if b then some ic else none

look-add_pid :
    (pid p ic : ℕ) (h : PidHash)
    → look pid (add_pid p ic h) ≡ or_else (mine (p == pid) ic) (look pid h)
unfolding add_pid find_pid
look-add_pid pid p ic h = elim (Bool-cases (p == pid)) [
  | inl same ↦
      let e = (==_iff p pid).0 same in
      let s : (pid_slot pid == pid_slot p) ≡ true = ground (arith, ap pid_slot e) in
      rw (s, same) refl
  | inr other ↦ elim (Bool-cases (pid_slot pid == pid_slot p)) [
    | inl near ↦ rw (near, other) refl
    | inr far ↦ rw (far, other) refl
  ]
]

mine_either :
    (b c : Bool) (ic : ℕ) (o : Option ℕ)
    → or_else (mine b ic) (or_else (mine c ic) o) ≡ or_else (mine (c || b) ic) o
mine_either true true ic o = refl
mine_either true false ic o = refl
mine_either false true ic o = refl
mine_either false false ic o = refl

==_sym : (a b : ℕ) → (a == b) ≡ (b == a)
==_sym a b = ground arith

-- The pids of one group.
add_pids-look :
    (npids ic : ℕ) (pids : List ℕ) (used : ℕ) (h : PidHash)
    → used + length pids ≤ npids
    → (h' : PidHash) × (add_pids npids ic pids used h ≡ some (used + length pids, h'))
      × ((pid : ℕ) → look pid h' ≡ or_else (mine (has pid pids) ic) (look pid h))
unfolding add_pids has
add_pids-look npids ic [] used h room = (h, ap (λ n. some (n, h)) (omega arith), λ pid. refl)
add_pids-look npids ic (p ∷ rest) used h room =
    let (h', e, looks) = add_pids-look npids ic rest (used + 1) (add_pid p ic h) (omega arith) in
    let r : ltb used npids ≡ true = ground arith in
    (
      h',
      rw (r, e) (ap (λ n. some (n, h')) (omega arith)),
      λ pid.
          looks pid
          ∙ ap (or_else (mine (has pid rest) ic)) (look-add_pid pid p ic h)
          ∙ mine_either (has pid rest) (p == pid) ic (look pid h)
          ∙ ap (λ b. or_else (mine (b || has pid rest) ic) (look pid h)) (==_sym p pid),
    )

-- All groups.
add_groups-look :
    (npids : ℕ) (chain : List Cgchainer) (ic used : ℕ) (h : PidHash)
    → used + listed chain ≤ npids
    → (h' : PidHash) × (add_groups npids chain ic used h ≡ some h')
      × ((pid : ℕ) → look pid h' ≡ or_else (last_group pid chain ic) (look pid h))
unfolding add_groups last_group
add_groups-look npids [] ic used h room = (h, refl, λ pid. refl)
add_groups-look npids (cp ∷ rest) ic used h room =
    let (h1, e1, look1) = add_pids-look npids ic cp.proclist used h (omega arith) in
    let (h2, e2, look2) =
      add_groups-look npids rest (ic + 1) (used + length cp.proclist) h1 (omega arith) in
    (
      h2,
      rw e1 e2,
      λ pid.
          look2 pid
          ∙ ap (or_else (last_group pid rest (ic + 1))) (look1 pid)
          ∙ or_else_assoc (last_group pid rest (ic + 1)) (mine (has pid cp.proclist) ic)
              (look pid h),
    )

-- The reference that a task gets.
abbrev pub with_ref : List Cgchainer → Tstat → Tstat
with_ref chain t = record t {
  gen = record t.gen {
    cgroupix = if t.gen.isproc then index_of (last_group t.gen.pid chain 0) else minus_one;
  };
}

abbrev pub with_refs : List Cgchainer → ℕ → List Tstat → List Tstat
with_refs chain zero tasks = tasks
with_refs chain (suc n) [] = []
with_refs chain (suc n) (t ∷ tasks) = with_ref chain t ∷ with_refs chain n tasks

fill_refs-with_refs :
    (chain : List Cgchainer) (h : PidHash) (n : ℕ) (tasks : List Tstat)
    → ((pid : ℕ) → look pid h ≡ last_group pid chain 0)
    → fill_refs h n tasks ≡ with_refs chain n tasks
unfolding fill_refs fill_ref
fill_refs-with_refs chain h zero tasks looks = refl
fill_refs-with_refs chain h (suc n) [] looks = refl
fill_refs-with_refs chain h (suc n) (t ∷ tasks) looks =
    ap₂
      (λ o l.
        record t {
          gen = record t.gen { cgroupix = if t.gen.isproc then index_of o else minus_one };
        }
        ∷ l)
      (looks t.gen.pid) (fill_refs-with_refs chain h n tasks looks)

no_pids-look : (pid : ℕ) → look pid no_pids ≡ none
unfolding no_pids find_pid
no_pids-look pid = refl

placed-listed :
    (before rest : List Cgchainer) → ArePlaced before rest → nprocs_of rest ≡ listed rest
placed-listed before [] p = refl
placed-listed before (cc ∷ rest) (p, ps) =
    omega (arith, p.0.1, placed-listed (before ++ (cc ∷ [])) rest ps)

tree-listed : (chain : List Cgchainer) → IsTree chain → nprocs_of chain ≡ listed chain
tree-listed [] t = refl
tree-listed (root ∷ rest) (r, placed) = omega (arith, r.0.1, placed-listed (root ∷ []) rest placed)

-- `cgfillref` on the groups of a finished walk, with as many elements for the pids as the walk has
-- counted processes: there are enough elements, and each of the first `ntaskall` tasks that is a
-- process gets the position of the last group that lists its pid, or -1 if no group does; a thread
-- gets -1, and nothing else changes.
pub cgfillref-with_refs :
    (dev : Devtstat) (chain : List Cgchainer)
    → IsTree chain
    → cgfillref dev chain (nprocs_of chain)
      ≡ some (record dev { taskall = with_refs chain dev.ntaskall dev.taskall })
unfolding cgfillref
cgfillref-with_refs dev chain t =
    let (h, e, looks) =
      add_groups-look (nprocs_of chain) chain 0 0 no_pids (omega (arith, tree-listed chain t)) in
    let found : (pid : ℕ) → look pid h ≡ last_group pid chain 0 = λ pid.
      looks pid
      ∙ ap (or_else (last_group pid chain 0)) (no_pids-look pid)
      ∙ or_else-none (last_group pid chain 0) in
    rw e (
      ap (λ l. some (record dev { taskall = l }))
        (fill_refs-with_refs chain h dev.ntaskall dev.taskall found))

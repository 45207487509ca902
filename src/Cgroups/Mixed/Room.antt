-- ===== src/Cgroups/Mixed/Room.antt =====
-- There is room for the processes: with different pids in the groups, at most one entry for each task.
use atop.Prelude.{
  ℕ, ◌+◌, ◌%◌, ◌≤◌, ◌≡◌, refl, ap, inl, inr, List, [], ◌∷◌, ◌++◌, Option, none, some, length, ◌==◌,
  if◌then◌else◌, Bool-cases, arith,
}
use atop.Task.{Tstat}
use atop.Cgroups.Mixed.{PidHash, no_tasks, add_task, add_tasks, find_task, keeps}

-- The processes of pids that are found, and wanted on this level.
abbrev pub add_found : ℕ → Option Tstat → List Tstat → List Tstat
add_found newdepth none ts = ts
add_found newdepth (some t) ts = if keeps newdepth t then t ∷ ts else ts

abbrev pub found : ℕ → PidHash → List ℕ → List Tstat
found newdepth h [] = []
found newdepth h (pid ∷ rest) =
    add_found newdepth (find_task pid (h (pid % 512))) (found newdepth h rest)

-- How many tasks have a pid, and how often a pid stands in a list.
abbrev number : ℕ → List Tstat → ℕ
number pid [] = 0
number pid (t ∷ rest) = (if t.gen.pid == pid then 1 else 0) + number pid rest

abbrev pub times : ℕ → List ℕ → ℕ
times k [] = 0
times k (p ∷ rest) = (if k == p then 1 else 0) + times k rest

abbrev hits : List ℕ → List Tstat → ℕ
hits [] tasks = 0
hits (p ∷ rest) tasks = number p tasks + hits rest tasks

number-found :
    (pid : ℕ) (ts : List Tstat) (t : Tstat) → find_task pid ts ≡ some t → 1 ≤ number pid ts
unfolding find_task
number-found pid [] t e = ground arith
number-found pid (x ∷ ts) t e = elim (Bool-cases (x.gen.pid == pid)) [
  | inl same ↦ rw same (omega arith)
  | inr other ↦
      let e' : find_task pid ts ≡ some t = rw other at e in
      let ih = number-found pid ts t e' in omega arith
]

number-add_task :
    (pid i : ℕ) (t : Tstat) (h : PidHash)
    → number pid (add_task t h i) ≤ number pid (t ∷ []) + number pid (h i)
unfolding add_task
number-add_task pid i t h = elim (Bool-cases (i == t.gen.pid % 512)) [
  | inl e ↦ rw e (omega arith)
  | inr e ↦ rw e (omega arith)
]

number-add_tasks :
    (pid i : ℕ) (tasks : List Tstat) (h : PidHash)
    → number pid (add_tasks tasks h i) ≤ number pid tasks + number pid (h i)
unfolding add_tasks
number-add_tasks pid i [] h = omega arith
number-add_tasks pid i (t ∷ rest) h =
    omega (arith, number-add_tasks pid i rest (add_task t h), number-add_task pid i t h)

length-add_found :
    (newdepth pid : ℕ) (tasks : List Tstat) (h : PidHash) (o : Option Tstat) (ts : List Tstat)
    → h ≡ add_tasks tasks no_tasks
    → find_task pid (h (pid % 512)) ≡ o
    → length (add_found newdepth o ts) ≤ number pid tasks + length ts
unfolding no_tasks
length-add_found newdepth pid tasks h none ts e f = omega arith
length-add_found newdepth pid tasks h (some t) ts e f =
    let a = number-found pid (h (pid % 512)) t f in
    let b = ap (λ k. number pid (k (pid % 512))) e in
    let c = number-add_tasks pid (pid % 512) tasks no_tasks in
    elim (Bool-cases (keeps newdepth t)) [
      | inl kept ↦ rw kept (omega arith)
      | inr left ↦ rw left (omega arith)
    ]

length-found :
    (newdepth : ℕ) (tasks : List Tstat) (pids : List ℕ)
    → length (found newdepth (add_tasks tasks no_tasks) pids) ≤ hits pids tasks
length-found newdepth tasks [] = omega arith
length-found newdepth tasks (pid ∷ rest) =
    let h = add_tasks tasks no_tasks in
    omega (
      arith,
      length-found newdepth tasks rest,
      length-add_found newdepth pid tasks h (find_task pid (h (pid % 512))) (found newdepth h rest)
          refl refl,
    )

hits-none : (pids : List ℕ) → hits pids [] ≡ 0
hits-none [] = refl
hits-none (p ∷ rest) = let ih = hits-none rest in omega arith

hits-task :
    (pids : List ℕ) (t : Tstat) (tasks : List Tstat)
    → hits pids (t ∷ tasks) ≡ times t.gen.pid pids + hits pids tasks
hits-task [] t tasks = omega arith
hits-task (p ∷ rest) t tasks = let ih = hits-task rest t tasks in omega arith

hits-few :
    (pids : List ℕ) (tasks : List Tstat)
    → ((k : ℕ) → times k pids ≤ 1)
    → hits pids tasks ≤ length tasks
hits-few pids [] once = let e = hits-none pids in omega arith
hits-few pids (t ∷ tasks) once =
    omega (arith, hits-few pids tasks once, once t.gen.pid, hits-task pids t tasks)

-- Pids that stand in a list once each are found at most as often as there are tasks.
pub length-found_once :
    (newdepth : ℕ) (tasks : List Tstat) (pids : List ℕ)
    → ((k : ℕ) → times k pids ≤ 1)
    → length (found newdepth (add_tasks tasks no_tasks) pids) ≤ length tasks
length-found_once newdepth tasks pids once =
    omega (arith, length-found newdepth tasks pids, hits-few pids tasks once)

add_found-plus :
    (newdepth : ℕ) (o : Option Tstat) (ts us : List Tstat) (n : ℕ)
    → length ts ≡ length us + n
    → length (add_found newdepth o ts) ≡ length (add_found newdepth o us) + n
add_found-plus newdepth none ts us n e = e
add_found-plus newdepth (some t) ts us n e = elim (Bool-cases (keeps newdepth t)) [
  | inl kept ↦ rw kept (omega arith)
  | inr left ↦ rw left (omega arith)
]

pub found-append :
    (newdepth : ℕ) (h : PidHash) (a b : List ℕ)
    → length (found newdepth h (a ++ b)) ≡ length (found newdepth h a) + length (found newdepth h b)
found-append newdepth h [] b = omega arith
found-append newdepth h (pid ∷ a) b =
    add_found-plus newdepth (find_task pid (h (pid % 512))) (found newdepth h (a ++ b))
      (found newdepth h a) (length (found newdepth h b)) (found-append newdepth h a b)

-- ===== src/Cgroups/Mixed/Adds.antt =====
-- The loop over the pids of one group.
use atop.Prelude.{
  ℕ, suc, ◌+◌, ◌%◌, ◌≤◌, ◌≡◌, refl, ap, inl, inr, true, List, [], ◌∷◌, Option, none, some, length,
  ltb, ◌==◌, if◌then◌else◌, Bool-cases, arith,
}
use atop.Prelude.Partial.{◌>>=◌}
use atop.Task.{Tstat}
use atop.Cgroups.{Cgchainer}
use atop.Cgroups.Mixed.{PidHash, find_task, keeps, add_processes}
use atop.Cgroups.Mixed.Room.{add_found, found}

add_one :
    (capacity newdepth : ℕ) (h : PidHash) (pid : ℕ) (rest : List ℕ) (used : ℕ) (o : Option Tstat)
    → find_task pid (h (pid % 512)) ≡ o
    → used + length (add_found newdepth o (found newdepth h rest)) ≤ capacity
    → ((u : ℕ)
        → u + length (found newdepth h rest) ≤ capacity
        → add_processes capacity newdepth h rest u ≡ some (found newdepth h rest))
    → add_processes capacity newdepth h (pid ∷ rest) used
      ≡ some (add_found newdepth o (found newdepth h rest))
unfolding add_processes
add_one capacity newdepth h pid rest used none e fits ih = rw (add_processes, e) (ih used fits)
add_one capacity newdepth h pid rest used (some t) e fits ih =
    elim (Bool-cases (keeps newdepth t)) [
      | inl kept ↦
          let fits' : used + suc (length (found newdepth h rest)) ≤ capacity = rw kept at fits in
          let room : ltb used capacity ≡ true = ground arith in
          rw (add_processes, e, kept, room)
            (ap (λ o. o >>= λ ts. some (t ∷ ts)) (ih (used + 1) (omega arith)))
      | inr left ↦
          let fits' : used + length (found newdepth h rest) ≤ capacity = rw left at fits in
          rw (add_processes, e, left) (ih used fits')
    ]

pub add_processes-found :
    (capacity newdepth : ℕ) (h : PidHash) (pids : List ℕ) (used : ℕ)
    → used + length (found newdepth h pids) ≤ capacity
    → add_processes capacity newdepth h pids used ≡ some (found newdepth h pids)
unfolding add_processes
add_processes-found capacity newdepth h [] used fits = refl
add_processes-found capacity newdepth h (pid ∷ rest) used fits =
    add_one capacity newdepth h pid rest used (find_task pid (h (pid % 512))) refl fits
      (λ u fits'. add_processes-found capacity newdepth h rest u fits')

-- The pids that are looked up.
abbrev pub wanted_of : ℕ → Cgchainer → List ℕ
wanted_of nprocs g = if nprocs == 0 then [] else g.proclist

pub found_wanted :
    (newdepth : ℕ) (h : PidHash) (nprocs : ℕ) (g : Cgchainer)
    → length (found newdepth h (wanted_of nprocs g)) ≤ length (found newdepth h g.proclist)
found_wanted newdepth h nprocs g = elim (Bool-cases (nprocs == 0)) [
  | inl e ↦ rw e (omega arith)
  | inr e ↦ rw e (omega arith)
]

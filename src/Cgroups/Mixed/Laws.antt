-- ===== src/Cgroups/Mixed/Laws.antt =====
-- The mixed list holds what it should, within the list that is allocated for it.
use atop.Prelude.{
  ℕ, ◌≤◌, ◌<◌, ◌≡◌, ◌||◌, List, [], ◌∷◌, ◌++◌, Option, none, some, length, get_elem?, ◌==◌,
  if◌then◌else◌,
}
use atop.Prelude.Int.{ℤ}
use atop.Task.{Tstat}
use atop.Cgroups.{Cgchainer}
use atop.Cgroups.Sort.{Line}
use atop.Cgroups.Mixed.{
  Cglinesel, PidHash, Choice, cgroupfilter, sort_processes, entries, merge_groups,
}
use atop.Cgroups.Mixed.Room.{found}
use atop.Cgroups.Mixed.Adds.{wanted_of}

-- The lines point to groups.
abbrev pub ArePlaced : ℕ → List Line → Type 0
ArePlaced n [] = Unit
ArePlaced n (l ∷ rest) = (l.at < n) × ArePlaced n rest

-- The pids of the groups that are listed, and what is listed.
abbrev chosen : Choice → Option Cgchainer → List ℕ → List ℕ
chosen c none pids = pids
chosen c (some g) pids = if cgroupfilter c g.cstat then g.proclist ++ pids else pids

abbrev pub pids_of : Choice → List Cgchainer → List Line → List ℕ
pids_of c groups [] = []
pids_of c groups (l ∷ rest) = chosen c (get_elem? groups l.at) (pids_of c groups rest)

-- The processes that this level shows.
abbrev pub shown_tasks : Choice → List Tstat → List Tstat
shown_tasks c tasks = if c.newdepth == 8 || c.newdepth == 9 then tasks else []

module _ (qsort : (Tstat → Tstat → ℤ) → List Tstat → List Tstat) where
  -- A group, and its processes in the order of the resource.
  abbrev pub list_group :
      Choice → ℕ → PidHash → ℕ → Option Cgchainer → List Cglinesel → List Cglinesel
  list_group c nprocs h at none sel = sel
  list_group c nprocs h at (some g) sel =
      let ts = found c.newdepth h (wanted_of nprocs g) in
      if cgroupfilter c g.cstat
      then entries qsort at (sort_processes qsort c.showresource ts)
          (record { cgp = at; tsp = none } ∷ sel)
      else sel

  abbrev pub listing :
      Choice → ℕ → PidHash → List Cgchainer → List Line → List Cglinesel → List Cglinesel
  listing c nprocs h groups [] sel = sel
  listing c nprocs h groups (l ∷ lines) sel =
      listing c nprocs h groups lines (list_group c nprocs h l.at (get_elem? groups l.at) sel)

  module _
      (same_length : (cmp : Tstat → Tstat → ℤ) (ts : List Tstat)
        → length (qsort cmp ts) ≡ length ts) where
    -- What is shown for the loop over some lines.
    abbrev pub IsListing :
        Choice
        → ℕ
        → ℕ
        → PidHash
        → List Cgchainer
        → List Line
        → List Line
        → List Cglinesel
        → List Cglinesel
        → Type 0
    IsListing c capacity nprocs h groups lines marks sel list =
        (marks' : List Line) × (merge_groups qsort c capacity nprocs h groups lines marks sel
          ≡ some (marks', list))
        × (length list ≤ capacity)

-- ===== src/Cgroups/Mixed.antt =====
-- cgroups.c: `mergecgrouplist`, the mixed list of control groups and their processes. The array of
-- pointers that `cgsort` returns is a list of lines, in which a pointer is the position of its group; what
-- the call changes in the groups (`stub` and `vlinemask`) is in a copy of these lines, `marks`. An access
-- outside the allocated list is none, and `qsort` is a parameter.
pub mod Laws
pub mod Room
pub mod Adds
pub mod Marks
mod Tests
use atop.Prelude.{
  ℕ, zero, suc, ◌+◌, ◌-◌, ◌%◌, Bool, true, false, not, ◌&&◌, ◌||◌, List, [], ◌∷◌, ◌++◌, Option,
  none, some, length, get_elem?, ltb, leb, ◌==◌, if◌then◌else◌,
}
use atop.Prelude.Int.{ℤ, pos, minus_one, ◌+ℤ◌, ltb_ℤ, eqb_ℤ}
use atop.Prelude.Partial.{◌>>=◌}
use atop.Task.{Gen, Cpu, Mem, Dsk, Tstat}
use atop.Cgroups.{Cggen, Cstat, Cgchainer}
use atop.Cgroups.Sort.{Line, clear_bit, cgrmaxdepth}

-- `struct cglinesel`
pub record Cglinesel : Type 0 where
  pub cgp : ℕ
  pub tsp : Option Tstat

-- The chains of `struct pid2tstat`, by `pid & PIDMASK`.
abbrev pub PidHash : Type 0
PidHash = ℕ → List Tstat

unfoldable pub no_tasks : PidHash
no_tasks i = []

unfoldable pub add_task : Tstat → PidHash → PidHash
add_task t h i = if i == t.gen.pid % 512 then t ∷ h i else h i

unfoldable pub add_tasks : List Tstat → PidHash → PidHash
add_tasks [] h = h
add_tasks (t ∷ rest) h = add_tasks rest (add_task t h)

unfoldable pub find_task : ℕ → List Tstat → Option Tstat
find_task pid [] = none
find_task pid (t ∷ rest) =
    let later = find_task pid rest in if t.gen.pid == pid then some t else later

-- The user's choices: `deviatonly`, the level (8 and 9 with processes) and the resource.
pub record Choice : Type 0 where
  pub deviatonly : Bool
  pub newdepth : ℕ
  pub showresource : ℕ

unfoldable pub cgroupfilter : Choice → Cstat → Bool
cgroupfilter c csp =
    if ltb c.newdepth 9 && leb c.newdepth csp.gen.depth
    then false
    else if c.deviatonly
        && not (c.showresource == b'M')
        && csp.gen.nprocs == 0
        && eqb_ℤ csp.gen.procsbelow (pos 0)
    then false
    else true

-- `compselcpu`, `compselmem` and `compseldsk`
abbrev descending : ℤ → ℤ → ℤ
descending a b = if ltb_ℤ a b then pos 1 else if ltb_ℤ b a then minus_one else pos 0

unfoldable pub compselcpu : Tstat → Tstat → ℤ
compselcpu a b = descending (a.cpu.utime +ℤ a.cpu.stime) (b.cpu.utime +ℤ b.cpu.stime)

unfoldable pub compselmem : Tstat → Tstat → ℤ
compselmem a b = descending a.mem.rmem b.mem.rmem

unfoldable pub compseldsk : Tstat → Tstat → ℤ
compseldsk a b = descending (a.dsk.rsz +ℤ a.dsk.wsz) (b.dsk.rsz +ℤ b.dsk.wsz)

-- A group passes its stub to an entry before it.
unfoldable pub mark_line : (Line → Line) → ℕ → List Line → List Line
mark_line f at [] = []
mark_line f at (l ∷ rest) = (if l.at == at then f l else l) ∷ mark_line f at rest

unfoldable pub find_line : ℕ → List Line → Option Line
find_line at [] = none
find_line at (l ∷ rest) = let later = find_line at rest in if l.at == at then some l else later

-- The loop back from the last entry, which comes first here; the first entry of all is not reached.
unfoldable pub pass_stub : List Cgchainer → ℕ → List Cglinesel → List Line → Option (List Line)
pass_stub groups depth [] marks = some marks
pass_stub groups depth (e ∷ []) marks = some marks
pass_stub groups depth (e ∷ (e' ∷ rest)) marks = get_elem? groups e.cgp >>= λ g.
    let clear : Line → Line = λ l. record l { vlinemask = clear_bit (depth - 1) l.vlinemask } in
    let cleared = if ltb depth cgrmaxdepth then mark_line clear e.cgp marks else marks in
    let further = pass_stub groups depth (e' ∷ rest) cleared in
    if ltb g.cstat.gen.depth depth
    then some marks
    else if depth == g.cstat.gen.depth
    then some (mark_line (λ l. record l { stub = 7 }) e.cgp marks)
    else further

abbrev pub keeps : ℕ → Tstat → Bool
keeps newdepth t = newdepth == 9 || ltb_ℤ (pos 0) t.mem.vmem

-- The loop over the pids of a group: `used` entries are there, and `capacity` in all. The processes
-- that are added come in their order.
unfoldable pub add_processes : ℕ → ℕ → PidHash → List ℕ → ℕ → Option (List Tstat)
add_processes capacity newdepth h [] used = some []
add_processes capacity newdepth h (pid ∷ rest) used =
    let passed = add_processes capacity newdepth h rest used in
    let stored = add_processes capacity newdepth h rest (used + 1) in
    elim (find_task pid (h (pid % 512))) [
      | none ↦ passed
      | some t ↦
          if keeps newdepth t
          then (if ltb used capacity then (stored >>= λ ts. some (t ∷ ts)) else none)
          else passed
    ]

module _ (qsort : (Tstat → Tstat → ℤ) → List Tstat → List Tstat) where
  unfoldable pub sort_processes : ℕ → List Tstat → List Tstat
  sort_processes showresource ts =
      if leb (length ts) 1
      then ts
      else if showresource == b'C'
      then qsort compselcpu ts
      else if showresource == b'M'
      then qsort compselmem ts
      else if showresource == b'D'
      then qsort compseldsk ts
      else ts

  -- The entries of the processes, before those that are there, the last one first.
  unfoldable pub entries : ℕ → List Tstat → List Cglinesel → List Cglinesel
  entries at [] sel = sel
  entries at (t ∷ ts) sel = entries at ts (record { cgp = at; tsp = some t } ∷ sel)

  -- The loop over the groups.
  unfoldable pub merge_groups :
      Choice
      → ℕ
      → ℕ
      → PidHash
      → List Cgchainer
      → List Line
      → List Line
      → List Cglinesel
      → Option (List Line × List Cglinesel)
  merge_groups c capacity nprocs h groups [] marks sel = some (marks, sel)
  merge_groups c capacity nprocs h groups (l ∷ lines) marks sel = get_elem? groups l.at >>= λ g.
      if cgroupfilter c g.cstat
      then (let sel' = record { cgp = l.at; tsp = none } ∷ sel in
          let wanted = if nprocs == 0 then [] else g.proclist in
          if ltb (length sel) capacity
          then (add_processes capacity c.newdepth h wanted (length sel') >>= λ ts.
              merge_groups c capacity nprocs h groups lines marks
                (entries l.at (sort_processes c.showresource ts) sel'))
          else none)
      else (find_line l.at marks >>= λ m.
          let passed = pass_stub groups g.cstat.gen.depth sel marks in
          let marks' = if m.stub == 0 then some marks else passed in
          marks' >>= λ new_marks. merge_groups c capacity nprocs h groups lines new_marks sel)

  abbrev pub with_processes : Choice → Bool
  with_processes c = c.newdepth == 8 || c.newdepth == 9

  -- `mergecgrouplist`, with the entries from the last one to the first one.
  unfoldable pub mergecgrouplist :
      Choice → List Cgchainer → List Line → List Tstat → Option (List Line × List Cglinesel)
  mergecgrouplist c groups lines tasks =
      let nprocs = if with_processes c then length tasks else 0 in
      let h = if with_processes c then add_tasks tasks no_tasks else no_tasks in
      merge_groups c (length lines + nprocs) nprocs h groups lines lines []

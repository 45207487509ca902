-- ===== src/Deviate/Tasks/Run.antt =====
-- `deviattask` as a whole.
use atop.Prelude.{
  ℕ, suc, Bool, true, not, ◌||◌, Option, some, List, [], ◌∷◌, ◌==◌, if◌then◌else◌, length,
}
use atop.Prelude.Int.{ℤ}
use atop.Prelude.Partial.{◌>>=◌}
use atop.Task.{Tstat}
use atop.ProcDb.{ProcDb, makeresidue, cleanresidue}
use atop.Deviate.Tasks.{Devtstat, present_tasks}
use atop.Deviate.Tasks.Exits.{exit_tasks}

-- The indices of the processes from index `c` on, and those of the active ones.
unfoldable pub procs_from : ℕ → List Tstat → List ℕ
procs_from c [] = []
procs_from c (t ∷ ts) = let rest = procs_from (suc c) ts in if t.gen.isproc then c ∷ rest else rest

unfoldable pub active_from : ℕ → List Tstat → List ℕ
active_from c [] = []
active_from c (t ∷ ts) =
    let rest = active_from (suc c) ts in
    if t.gen.isproc then (if t.gen.wasinactive then rest else c ∷ rest) else rest

-- `devtstat` after its `memset`, with `taskall` just allocated.
abbrev pub new_devtstat : List Tstat → Devtstat
new_devtstat memory = record {
  taskall = memory;
  procall = [];
  procactive = [];
  ntaskall = length memory;
  ntaskactive = 0;
  nprocall = 0;
  nprocactive = 0;
  totrun = 0;
  totslpi = 0;
  totslpu = 0;
  totidle = 0;
  totzombie = 0;
}

-- The last loop fills the lists of pointers.
unfoldable pub fill_lists : Devtstat → Devtstat
fill_lists dev = record dev {
  procall = procs_from 0 dev.taskall;
  procactive = active_from 0 dev.taskall;
}

abbrev pub first_has_pid : List Tstat → Bool
first_has_pid [] = true
first_has_pid (cur ∷ _) = not (cur.gen.pid == 0)

-- `hashtype == 'p'`: it depends on the first exited process only with the kernel module netatop.
unfoldable pub hash_by_pid : Bool → List Tstat → Bool
hash_by_pid netatopd curpexit = not netatopd || first_has_pid curpexit

-- `memory` is what `malloc` gives for `taskall`, `totusedcpu` the processor time that the machine
-- used, `pretime` the time of the previous sample.
unfoldable pub deviattask :
    (exitfind : ℕ → Tstat → Tstat → Tstat) (netatopd : Bool) (memory : List Tstat) (totusedcpu : ℤ)
    (pretime : ℕ)
    → List Tstat
    → List Tstat
    → ProcDb
    → Option (Devtstat × ProcDb)
deviattask exitfind netatopd memory totusedcpu pretime curtpres curpexit db = do
  s ←
      present_tasks totusedcpu 0 curtpres
        (record { db = makeresidue db; dev = new_devtstat memory; thisproc = 0 })
  s' ← exit_tasks exitfind (hash_by_pid netatopd curpexit) pretime (length curtpres) curpexit s
  db' ← cleanresidue s'.db
  some (fill_lists s'.dev, db')

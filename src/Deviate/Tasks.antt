-- ===== src/Deviate/Tasks.antt =====
-- `deviattask` of deviate.c: the deviations of all tasks, on the process database. The arrays of
-- the C code are lists: `taskall` is allocated memory with any contents, the pointers of `procall`
-- and `procactive` are indices of `taskall`, and `thisproc` is an index.
pub mod Exits
pub mod Run
pub mod Counts
pub mod Round
pub mod Present
pub mod Left
pub mod Leave
pub mod ExitLaws
mod Tests
pub mod Tracks
use atop.Prelude.{
  ℕ, zero, suc, ◌+◌, Bool, true, false, not, ◌&&◌, ◌||◌, Option, none, some, List, [], ◌∷◌, ◌++◌,
  ltb, ◌==◌, if◌then◌else◌, length, get_elem?, set,
}
use atop.Prelude.Int.{ℤ, pos, negsuc, ◌+ℤ◌, ◌-ℤ◌, ltb_ℤ, eqb_ℤ, minus_one}
use atop.Prelude.Partial.{◌>>=◌}
use atop.Task.{Gen, Gpu, Tstat, zero_tstat}
use atop.Task.Equal.{Tstat-discrete}
use atop.Text.{safe_strcpy}
use atop.ProcDb.{
  ProcDb, gettask, alloc, store, addtask, deltask, makeresidue, cleanresidue, srchresidue,
}
use atop.Deviate.Calc.{calcdiff, mark_new, in_use}
use mathlib.Core.Bool.{decide}

-- `struct devtstat`
pub record Devtstat : Type 0 where
  pub taskall : List Tstat
  pub procall : List ℕ
  pub procactive : List ℕ
  pub ntaskall : ℕ
  pub ntaskactive : ℕ
  pub nprocall : ℕ
  pub nprocactive : ℕ
  pub totrun : ℕ
  pub totslpi : ℕ
  pub totslpu : ℕ
  pub totidle : ℕ
  pub totzombie : ℕ

-- The variables of the loop over the present tasks.
pub record Loop : Type 0 where
  pub db : ProcDb
  pub dev : Devtstat
  pub thisproc : ℕ

-- A process is counted, with its threads unless it is a zombie. (`thisproc = devstat`.)
unfoldable pub count_process : ℕ → Tstat → Loop → Loop
count_process c cur s =
    if cur.gen.isproc then (record s { thisproc = c; dev = counted s.dev }) else s
  where
    counted : Devtstat → Devtstat
    counted d =
        if cur.gen.state == b'Z'
        then (record d { nprocall = d.nprocall + 1; totzombie = d.totzombie + 1 })
        else (record d {
          nprocall = d.nprocall + 1;
          totrun = d.totrun + cur.gen.nthrrun;
          totslpi = d.totslpi + cur.gen.nthrslpi;
          totslpu = d.totslpu + cur.gen.nthrslpu;
          totidle = d.totidle + cur.gen.nthridle;
        })

-- `wasinactive` of an entry.
abbrev pub set_inactive : Bool → Tstat → Tstat
set_inactive b t = record t { gen = record t.gen { wasinactive = b } }

-- An active task is counted. An active thread makes its process active, if it was not.
unfoldable pub count_active : Tstat → Loop → Option Loop
count_active cur s =
    if cur.gen.isproc
    then some (record s {
      dev = record s.dev {
        ntaskactive = s.dev.ntaskactive + 1;
        nprocactive = s.dev.nprocactive + 1;
      };
    })
    else elim (get_elem? s.dev.taskall s.thisproc) [
      | none ↦ none
      | some p ↦ some (
          if p.gen.wasinactive
          then (record s {
            dev = record s.dev {
              taskall = set s.dev.taskall s.thisproc (set_inactive false p);
              ntaskactive = s.dev.ntaskactive + 2;
              nprocactive = s.dev.nprocactive + 1;
            };
          })
          else (record s { dev = record s.dev { ntaskactive = s.dev.ntaskactive + 1 } }))
    ]

-- `calcdiff(devstat, ...)` on the entry `c` of `taskall`.
unfoldable pub write_diff : ℕ → Tstat → Tstat → Bool → ℤ → Loop → Option Loop
write_diff c cur pre newtask totusedcpu s = elim (get_elem? s.dev.taskall c) [
  | none ↦ none
  | some devstat ↦ some (record s {
    dev = record s.dev {
      taskall = set s.dev.taskall c (calcdiff devstat cur pre newtask totusedcpu);
    };
  })
]

-- A task that the database knows: unchanged, or with activity since the previous sample.
unfoldable pub known_task : ℕ → ℕ → Tstat → ℤ → Loop → Option Loop
known_task c pinfo cur totusedcpu s = do
  old ← s.db.heap pinfo
  if decide (Tstat-discrete cur old)
      then (let idle = set_inactive true cur in write_diff c idle idle false totusedcpu s)
      else (do
        db ← store pinfo cur s.db
        s' ← count_active cur (record s { db = db })
        write_diff c (set_inactive false cur) old false totusedcpu s')

-- A task that is new since the previous sample.
unfoldable pub new_task : ℕ → Tstat → ℤ → Loop → Option Loop
new_task c cur totusedcpu s = do
  s' ← count_active cur s
  let cur' = set_inactive false cur
  let new = alloc cur' s'.db
  write_diff c cur' zero_tstat true totusedcpu (record s' { db = addtask cur.gen.pid new.0 new.1 })

-- One round of the loop over the present tasks.
unfoldable pub present_task : ℤ → ℕ → Tstat → Loop → Option Loop
present_task totusedcpu c cur s = do
  let s₁ = count_process c cur s
  (found, db) ← gettask cur.gen.pid cur.gen.isproc cur.gen.btime s₁.db
  elim found [
    | some pinfo ↦ known_task c pinfo cur totusedcpu (record s₁ { db = db })
    | none ↦ new_task c cur totusedcpu (record s₁ { db = db })
  ]

unfoldable pub present_tasks : ℤ → ℕ → List Tstat → Loop → Option Loop
present_tasks totusedcpu c [] s = some s
present_tasks totusedcpu c (cur ∷ curs) s =
    present_task totusedcpu c cur s >>= present_tasks totusedcpu (suc c) curs

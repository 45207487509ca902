-- ===== src/ProcDb/Empty.antt =====
-- The database at the start of the program: `phash` and `presidue` of procdbase.c are static.
use atop.Prelude.{refl, none, [], arith, has}
use atop.ProcDb.{ProcDb}
use atop.ProcDb.Inv.{IsWf}
use atop.ProcDb.Sweep.{HasUniqueKeys}

abbrev pub nothing : ProcDb
nothing = record { heap = λ a. none; phash = λ i. []; residue = []; fresh = 0 }

pub nothing-IsWf : IsWf nothing
unfolding has
nothing-IsWf = record {
  chained = λ i a h. ground arith;
  distinct = λ i. tt;
  listed = λ a h. ground arith;
  residue_distinct = tt;
  unused = λ a h. refl;
}

pub nothing-unique : HasUniqueKeys nothing
nothing-unique a b t u ha hb pid level = ground arith

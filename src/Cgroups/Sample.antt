-- ===== src/Cgroups/Sample.antt =====
-- cgroups.c: `photocgroup` and `deviatcgroup`, one sample of the control groups. A write outside an
-- allocated area is `none`.
pub mod Laws
mod Tests
use atop.Text.{take, drop}
use atop.Prelude.{
  ℕ, zero, suc, ◌+◌, ◌-◌, Bool, true, false, List, [], ◌∷◌, ◌++◌, Option, none, some, length, leb,
  if◌then◌else◌,
}
use atop.Prelude.Int.{ℤ, pos, minus_one}
use atop.Prelude.Partial.{◌>>=◌}
use atop.Cgroups.{Cggen, Cstat, Cgchainer}
use atop.Cgroups.Walk.{Dir, Current, fresh, walkcgroup}
use atop.Cgroups.Deviate.{cgcalcdeviate}

-- The current and the previous chain, with the variables of the current one.
pub record Samples : Type 0 where
  pub cgcur : Current
  pub cgprefirst : List Cgchainer

-- The current chain becomes the previous one, and the tree is walked.
unfoldable pub photocgroup : Dir → Samples → Samples
photocgroup d s = record {
  cgcur = (walkcgroup (b'.' ∷ []) d minus_one (pos 0) 0 0 fresh).0;
  cgprefirst = s.cgcur.chain;
}

-- The copies of the `cstat` structures, one behind the other in an area of `room` bytes.
unfoldable pub copy_cstats : ℕ → List Cgchainer → Option (List Cstat)
copy_cstats room [] = some []
copy_cstats room (ccp ∷ rest) =
    let further = copy_cstats (room - ccp.cstat.gen.structlen) rest in
    if leb ccp.cstat.gen.structlen room then (further >>= λ l. some (ccp.cstat ∷ l)) else none

-- The pid lists, one behind the other in an area for `room` pids.
unfoldable pub copy_pids : ℕ → List Cgchainer → Option (List ℕ)
copy_pids room [] = some []
copy_pids room (ccp ∷ rest) =
    let further = copy_pids (room - ccp.cstat.gen.nprocs) rest in
    if leb ccp.cstat.gen.nprocs room
    then (further >>= λ l. some (take ccp.cstat.gen.nprocs ccp.proclist ++ l))
    else none

-- The loop of `cgbuildarray`. The elements that it does not set are those of the fresh memory,
-- `vlinemask` and `stub`.
unfoldable pub build : ℕ → ℕ → ℕ → List Cstat → List ℕ → Option (List Cgchainer)
build vlinemask stub zero cstats pids = some []
build vlinemask stub (suc n) [] pids = none
build vlinemask stub (suc n) (cstat ∷ cstats) pids =
    build vlinemask stub n cstats (drop cstat.gen.nprocs pids) >>= λ l. some (
      record {
        cstat = cstat;
        proclist = take cstat.gen.nprocs pids;
        vlinemask = vlinemask;
        stub = stub;
      }
      ∷ l)

-- `cgbuildarray`. The end of the chain is written to the last element, so there must be one.
unfoldable pub cgbuildarray : ℕ → ℕ → ℕ → List Cstat → List ℕ → Option (List Cgchainer)
cgbuildarray vlinemask stub zero cstats pids = none
cgbuildarray vlinemask stub (suc n) cstats pids = build vlinemask stub (suc n) cstats pids

-- `deviatcgroup`: the array of deviations and the number of pids.
unfoldable pub deviatcgroup : ℕ → ℕ → Samples → Option (List Cgchainer × ℕ)
deviatcgroup vlinemask stub s = do
  allc ← copy_cstats s.cgcur.cgcursize s.cgcur.chain
  allp ← copy_pids s.cgcur.cgcurprocs s.cgcur.chain
  devs ← cgbuildarray vlinemask stub s.cgcur.cgcurnum allc allp
  some (cgcalcdeviate s.cgprefirst devs, s.cgcur.cgcurprocs)

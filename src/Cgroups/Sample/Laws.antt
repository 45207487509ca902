-- ===== src/Cgroups/Sample/Laws.antt =====
-- A sample of the control groups: nothing is written outside, and every group gets its deviations.
use atop.Text.Cuts.{drop-length, take-all, take-append}
use atop.Text.{take, drop}
use atop.Text.Cuts.{drop-length, take-all, take-append}
use atop.Prelude.{
  ℕ, ◌-◌, ◌≤◌, ◌<◌, ◌≡◌, refl, sym, ap, subst, ◌∙◌, true, List, [], ◌∷◌, ◌++◌, some, length, leb,
  arith,
}
use atop.Prelude.Int.{ℤ, pos, minus_one}
use atop.Cgroups.{Cstat, Cgchainer}
use atop.Cgroups.Walk.{dir, Entries, Contents, Current, fresh, walkcgroup}
use atop.Cgroups.Walk.Expected.{groups, extend, sizes, nprocs_of, walkcgroup-groups}
use atop.Cgroups.Walk.Tree.{ArePlaced, IsTree, IsCounted, walkcgroup-IsCounted}
use atop.Cgroups.Deviate.Laws.{HashesDiffer, deviations, cgcalcdeviate-deviations}
use atop.Cgroups.Sample.{
  Samples, photocgroup, copy_cstats, copy_pids, build, cgbuildarray, deviatcgroup,
}

-- The pid list of each group has the length that is noted.
abbrev HaveLengths : List Cgchainer → Type 0
HaveLengths [] = Unit
HaveLengths (cc ∷ rest) = (cc.cstat.gen.nprocs ≡ length cc.proclist) × HaveLengths rest

placed-HaveLengths : (before rest : List Cgchainer) → ArePlaced before rest → HaveLengths rest
placed-HaveLengths before [] p = tt
placed-HaveLengths before (cc ∷ rest) (p, ps) =
    (p.0.1, placed-HaveLengths (before ++ (cc ∷ [])) rest ps)

tree-HaveLengths : (chain : List Cgchainer) → IsTree chain → HaveLengths chain
tree-HaveLengths [] t = tt
tree-HaveLengths (root ∷ rest) (r, placed) = (r.0.1, placed-HaveLengths (root ∷ []) rest placed)

abbrev cstats_of : List Cgchainer → List Cstat
cstats_of [] = []
cstats_of (cc ∷ rest) = cc.cstat ∷ cstats_of rest

abbrev pids_of : List Cgchainer → List ℕ
pids_of [] = []
pids_of (cc ∷ rest) = cc.proclist ++ pids_of rest

copy_cstats-fits :
    (room : ℕ) (chain : List Cgchainer)
    → sizes chain ≤ room
    → copy_cstats room chain ≡ some (cstats_of chain)
unfolding copy_cstats
copy_cstats-fits room [] h = refl
copy_cstats-fits room (cc ∷ rest) h =
    let e : leb cc.cstat.gen.structlen room ≡ true = ground arith in
    let ih = copy_cstats-fits (room - cc.cstat.gen.structlen) rest (omega arith) in rw (e, ih) refl

copy_pids-fits :
    (room : ℕ) (chain : List Cgchainer)
    → HaveLengths chain
    → nprocs_of chain ≤ room
    → copy_pids room chain ≡ some (pids_of chain)
unfolding copy_pids
copy_pids-fits room [] lengths h = refl
copy_pids-fits room (cc ∷ rest) (len, lengths) h =
    let e : leb cc.cstat.gen.nprocs room ≡ true = ground arith in
    let ih = copy_pids-fits (room - cc.cstat.gen.nprocs) rest lengths (omega arith) in
    let own = ap (λ n. take n cc.proclist) len ∙ take-all cc.proclist in
    rw (e, ih) (ap (λ l. some (l ++ pids_of rest)) own)

-- The groups in fresh memory.
abbrev pub rebuilt : ℕ → ℕ → List Cgchainer → List Cgchainer
rebuilt vlinemask stub [] = []
rebuilt vlinemask stub (cc ∷ rest) =
    record cc { vlinemask = vlinemask; stub = stub } ∷ rebuilt vlinemask stub rest

build-rebuilt :
    (vlinemask stub : ℕ) (chain : List Cgchainer)
    → HaveLengths chain
    → build vlinemask stub (length chain) (cstats_of chain) (pids_of chain)
      ≡ some (rebuilt vlinemask stub chain)
unfolding build
build-rebuilt vlinemask stub [] lengths = refl
build-rebuilt vlinemask stub (cc ∷ rest) (len, lengths) =
    let pids = cc.proclist ++ pids_of rest in
    let left = ap (λ n. drop n pids) len ∙ drop-length cc.proclist (pids_of rest) in
    let own = ap (λ n. take n pids) len ∙ take-append cc.proclist (pids_of rest) in
    let ih =
      ap (build vlinemask stub (length rest) (cstats_of rest)) left
      ∙ build-rebuilt vlinemask stub rest lengths in
    rw (ih) (
      ap
        (λ l. some (
          record { cstat = cc.cstat; proclist = l; vlinemask = vlinemask; stub = stub }
          ∷ rebuilt vlinemask stub rest))
        own)

array-rebuilt :
    (vlinemask stub : ℕ) (chain : List Cgchainer)
    → 0 < length chain
    → HaveLengths chain
    → cgbuildarray vlinemask stub (length chain) (cstats_of chain) (pids_of chain)
      ≡ some (rebuilt vlinemask stub chain)
unfolding cgbuildarray
array-rebuilt vlinemask stub [] h lengths = absurd (omega arith)
array-rebuilt vlinemask stub (cc ∷ rest) h lengths =
    build-rebuilt vlinemask stub (cc ∷ rest) lengths

walked_some :
    (procs : List ℕ) (c : Contents) (entries : Entries)
    → 0 < length (walkcgroup (b'.' ∷ []) (dir procs c entries) minus_one (pos 0) 0 0 fresh).0.chain
unfolding groups extend
walked_some procs c entries =
    subst (λ (w : Current × ℤ). 0 < length w.0.chain)
      (sym (walkcgroup-groups (dir procs c entries) (b'.' ∷ []) minus_one (pos 0) 0 0 fresh))
      (omega arith)

-- `deviatcgroup` on a chain that the walk has counted.
deviat-counted :
    (vlinemask stub : ℕ) (s : Samples)
    → IsCounted s.cgcur
    → 0 < length s.cgcur.chain
    → HashesDiffer s.cgprefirst
    → deviatcgroup vlinemask stub s
      ≡ some
          (deviations s.cgprefirst (rebuilt vlinemask stub s.cgcur.chain), nprocs_of s.cgcur.chain)
unfolding deviatcgroup
deviat-counted vlinemask stub s (t, size, num, procs, seq) some_group differ =
    let chain = s.cgcur.chain in
    let lengths = tree-HaveLengths chain t in
    let a = copy_cstats-fits s.cgcur.cgcursize chain (omega (arith, size)) in
    let b = copy_pids-fits s.cgcur.cgcurprocs chain lengths (omega (arith, procs)) in
    let c = array-rebuilt vlinemask stub chain some_group lengths in
    let d = cgcalcdeviate-deviations s.cgprefirst (rebuilt vlinemask stub chain) differ in
    rw (a, b, num, c, d, procs) refl

-- One sample, `photocgroup` and then `deviatcgroup`, of any tree whose top directory is there, after
-- a sample in which no two groups had the same name hash: all `cstat` structures and all pids are
-- copied within the areas that are allocated for them, whose sizes are the sums of the `structlen` and of
-- the `nprocs` of all groups, so that nothing is left over; the array has one element for each group,
-- in the order of the walk, each with its own pid list, and holds the deviations of each from the
-- group of the previous sample with its name hash; the number of pids is that in all groups.
pub sample-deviations :
    (vlinemask stub : ℕ) (procs : List ℕ) (c : Contents) (entries : Entries) (s : Samples)
    → HashesDiffer s.cgcur.chain
    → (deviatcgroup vlinemask stub (photocgroup (dir procs c entries) s)
        ≡ some (
          deviations s.cgcur.chain
              (rebuilt vlinemask stub (photocgroup (dir procs c entries) s).cgcur.chain),
          nprocs_of (photocgroup (dir procs c entries) s).cgcur.chain,
        ))
      × ((photocgroup (dir procs c entries) s).cgcur.cgcursize
          ≡ sizes (photocgroup (dir procs c entries) s).cgcur.chain)
      × ((photocgroup (dir procs c entries) s).cgcur.cgcurprocs
          ≡ nprocs_of (photocgroup (dir procs c entries) s).cgcur.chain)
      × ((photocgroup (dir procs c entries) s).cgcur.cgcurnum
          ≡ length (photocgroup (dir procs c entries) s).cgcur.chain)
unfolding photocgroup
sample-deviations vlinemask stub procs c entries s differ =
    let counted = walkcgroup-IsCounted (dir procs c entries) in
    let (t, size, num, pids, seq) = counted in
    (
      deviat-counted vlinemask stub (photocgroup (dir procs c entries) s) counted
          (walked_some procs c entries) differ,
      size,
      pids,
      num,
    )

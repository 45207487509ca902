-- ===== src/Cgroups/Path/Laws.antt =====
-- `cggetpath` on the groups of a finished walk.
use atop.Prelude.{
  ℕ, zero, suc, ◌+◌, ◌-◌, ◌<◌, ◌≡◌, refl, sym, subst, false, ◌⊎◌, inl, inr, List, [], ◌∷◌, ◌++◌,
  some, length, get_elem?, has, ◌==◌, arith, some_inj,
}
use atop.Prelude.Int.{pos}
use atop.Cgroups.{Cgchainer}
use atop.Cgroups.Hash.{weigh, hashcalc}
use atop.Cgroups.Walk.Tree.{IsRoot, IsTree}
use atop.Cgroups.Path.{zeros, poke, c_string, climb, pathlen_of, assemble}
use atop.Cgroups.Path.Climb.{AreFilenames, PathOf, PathOf-length, climb-PathOf}
use atop.Cgroups.Path.Climb.Pokes.{poke-middle, c_string-nul, zeros-append}
use atop.Cgroups.Path.Full.{HasPath, PathOf-hash, rest-HasPath}

root_path :
    (root : Cgchainer) (rest : List Cgchainer) (k : ℕ) (up : Cgchainer)
    → IsRoot root
    → get_elem? (root ∷ []) k ≡ some up
    → HasPath (root ∷ rest) up
root_path root rest zero up r h =
    subst (HasPath (root ∷ rest)) (some_inj root up h) (zero, [], (r, refl))
root_path root rest (suc k) up r h = ground arith

tree-HasPath :
    (chain : List Cgchainer) (i : ℕ) (cc : Cgchainer)
    → IsTree chain
    → AreFilenames chain
    → get_elem? chain i ≡ some cc
    → (cc.cstat.gen.sequence ≡ i) × HasPath chain cc
tree-HasPath [] i cc t files at = ground arith
tree-HasPath (root ∷ rest) zero cc (r, placed) files at =
    let same = some_inj root cc at in
    subst (λ c. (c.cstat.gen.sequence ≡ 0) × HasPath (root ∷ rest) c) same
      (r.0.0, (zero, [], (r, refl)))
tree-HasPath (root ∷ rest) (suc j) cc (r, placed) (file, files) at =
    let paths : (k : ℕ) (up : Cgchainer)
        → get_elem? (root ∷ []) k ≡ some up
        → HasPath (root ∷ rest) up =
      λ k up h. root_path root rest k up r h in
    let (seq, found) =
      rest-HasPath rest (root ∷ []) (root ∷ rest) j cc refl paths placed files at in
    (omega (arith, seq), found)

assemble_top :
    (fuel : ℕ) (base : List Cgchainer) (cc : Cgchainer)
    → cc.cstat.gen.sequence ≡ 0
    → cc.cstat.gen.fullnamelen ≡ 0
    → cc.cstat.gen.depth ≡ 0
    → assemble fuel base cc ≡ some (b'/' ∷ [])
unfolding assemble pathlen_of zeros poke c_string
assemble_top fuel base cc s f d = rw (s, f, d) refl

-- An area with room for the path and its terminating byte.
area :
    (cc : Cgchainer) (path : List ℕ)
    → (cc.cstat.gen.sequence == 0) ≡ false
    → length path ≡ cc.cstat.gen.fullnamelen + cc.cstat.gen.depth
    → pathlen_of cc.cstat.gen ≡ length path + 1
unfolding pathlen_of
area cc path s e = rw s (omega (arith, e))

area-zeros : (n : ℕ) → zeros (n + 1) ≡ zeros n ++ (0 ∷ [])
unfolding zeros
area-zeros n = zeros-append n 1

assemble_below :
    (fuel : ℕ) (base : List Cgchainer) (cc : Cgchainer) (path : List ℕ)
    → (cc.cstat.gen.sequence == 0) ≡ false
    → pathlen_of cc.cstat.gen ≡ length path + 1
    → climb fuel base cc (zeros (length path) ++ (0 ∷ [])) ≡ some (path ++ (0 ∷ []))
    → has 0 path ≡ false
    → assemble fuel base cc ≡ some path
unfolding assemble
assemble_below fuel base cc path s len climbed nul =
    let at : length path + 1 - 1 ≡ length path = omega arith in
    let ended = poke-middle path (0 ∷ []) (0 ∷ []) [] refl in
    rw (assemble, s, len, area-zeros (length path), climbed, at, ended, c_string-nul path [] nul)
      refl

-- The path of a group: a slash for the top directory, and for any other group the names from the
-- top directory down, each after a slash.
abbrev pub IsPathOf : List Cgchainer → Cgchainer → List ℕ → Type 0
IsPathOf chain cc path =
    ((cc.cstat.gen.sequence ≡ 0) × (path ≡ b'/' ∷ [])) ⊎ PathOf cc.cstat.gen.depth chain cc path

top_path :
    (fuel : ℕ) (rest : List Cgchainer) (root : Cgchainer)
    → IsRoot root
    → (path : List ℕ) × (assemble fuel (root ∷ rest) root ≡ some path)
      × IsPathOf (root ∷ rest) root path
      × (hashcalc path (pos 0) 0 ≡ root.cstat.gen.namehash)
unfolding hashcalc weigh
top_path fuel rest root (own, up, depth, name, full, hash) =
    (b'/' ∷ [], assemble_top fuel (root ∷ rest) root own.0 full depth, inl (own.0, refl), sym hash)

path_below :
    (fuel i : ℕ) (chain : List Cgchainer) (cc : Cgchainer) (path : List ℕ)
    → cc.cstat.gen.sequence ≡ suc i
    → cc.cstat.gen.depth < fuel
    → PathOf cc.cstat.gen.depth chain cc path
    → assemble fuel chain cc ≡ some path
path_below fuel i chain cc path seq enough p =
    let long = PathOf-length cc.cstat.gen.depth chain cc path p in
    let s : (cc.cstat.gen.sequence == 0) ≡ false = ground arith in
    assemble_below fuel chain cc path s (area cc path s long.0)
      (climb-PathOf cc.cstat.gen.depth fuel chain cc path (0 ∷ []) p enough)
      (PathOf-hash cc.cstat.gen.depth chain cc path p).2

-- `cggetpath` without doubled backslashes, for any group of a chain that is a tree, in which each
-- parent stands before its children, and whose names are file names: it ends within as many rounds as the group is deep, and one; no byte
-- is written outside the allocated area; what it returns is the path of the group, which is the names
-- from the top directory down, each after a slash, or one slash for the top directory; and the
-- group's name hash is the hash of this path.
pub assemble-IsPathOf :
    (fuel i : ℕ) (chain : List Cgchainer) (cc : Cgchainer)
    → IsTree chain
    → AreFilenames chain
    → get_elem? chain i ≡ some cc
    → cc.cstat.gen.depth < fuel
    → (path : List ℕ) × (assemble fuel chain cc ≡ some path)
      × IsPathOf chain cc path
      × (hashcalc path (pos 0) 0 ≡ cc.cstat.gen.namehash)
assemble-IsPathOf fuel zero [] cc t files at enough = ground arith
assemble-IsPathOf fuel zero (root ∷ rest) cc (r, placed) files at enough =
    subst
      (λ c.
        (path : List ℕ) × (assemble fuel (root ∷ rest) c ≡ some path)
        × IsPathOf (root ∷ rest) c path
        × (hashcalc path (pos 0) 0 ≡ c.cstat.gen.namehash))
      (some_inj root cc at) (top_path fuel rest root r)
assemble-IsPathOf fuel (suc i) chain cc t files at enough =
    let (seq, found) = tree-HasPath chain (suc i) cc t files at in
    let (n, path, p) = found in
    let deep = (PathOf-length n chain cc path p).1 in
    let q = subst (λ m. PathOf m chain cc path) (sym deep) p in
    (
      path,
      path_below fuel i chain cc path seq enough q,
      inr q,
      (PathOf-hash cc.cstat.gen.depth chain cc path q).1,
    )

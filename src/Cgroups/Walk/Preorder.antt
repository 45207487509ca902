-- ===== src/Cgroups/Walk/Preorder.antt =====
-- The order of the chain that a walk builds: each group is followed by what is below it, and no directory
-- is left out.
use atop.Prelude.{
  ℕ, suc, ◌+◌, ◌≡◌, refl, sym, ap, subst, inl, inr, List, [], ◌∷◌, ◌++◌, length, append_assoc,
  append-nil, length-append, if◌then◌else◌, Bool-cases, arith,
}
use atop.Prelude.Int.{ℤ, pos, minus_one}
use atop.Cgroups.{Cggen, Cgchainer}
use atop.Cgroups.Walk.{
  Contents, Dir, gone, dir, Entries, no_entries, file, subdir, Current, fresh, starts_with_dot,
  new_chainer, with_below, walkcgroup,
}
use atop.Cgroups.Walk.Expected.{below, groups, subgroups, extend, walkcgroup-groups}
use atop.Cgroups.Walk.Tree.{IsCounted, walkcgroup-IsCounted}

-- The groups from position `i` on, after a group whose position stands first in `path`, followed by
-- those of its parent, its grandparent and so on: the next group is a child of one of them, and those
-- before this parent in `path` get no more children.
abbrev pub ArePreorder : ℕ → List ℕ → List Cgchainer → Type 0
ArePreorder i path [] = Unit
ArePreorder i path (cc ∷ rest) =
    (finished : List ℕ) × (k : ℕ) × (above : List ℕ) × (path ≡ finished ++ (k ∷ above))
    × (cc.cstat.gen.parentseq ≡ pos k)
    × ArePreorder (suc i) (i ∷ k ∷ above) rest

abbrev pub IsPreorder : List Cgchainer → Type 0
IsPreorder [] = Unit
IsPreorder (root ∷ rest) = ArePreorder 1 (0 ∷ []) rest

-- The directories that are there, without those that start with a dot and what is below them.
unfoldable mutual
  pub directories : Dir → ℕ
  directories gone = 0
  directories (dir procs c entries) = suc (directories_below entries)

  pub directories_below : Entries → ℕ
  directories_below no_entries = 0
  directories_below (file name rest) = directories_below rest
  directories_below (subdir name d rest) =
      if starts_with_dot name
      then directories_below rest
      else directories d + directories_below rest

mutual
  unfolding groups subgroups directories directories_below

  length-groups :
      (d : Dir) (name : List ℕ) (p h : ℤ) (upper depth sequence : ℕ)
      → length (groups name d p h upper depth sequence) ≡ directories d
  length-groups gone name p h upper depth sequence = refl
  length-groups (dir procs c entries) name p h upper depth sequence = ap suc (
      length-subgroups entries (new_chainer name procs c p h upper depth sequence).cstat.gen
        (suc sequence))

  length-subgroups :
      (es : Entries) (g : Cggen) (sequence : ℕ)
      → length (subgroups es g sequence) ≡ directories_below es
  length-subgroups no_entries g sequence = refl
  length-subgroups (file name es) g sequence = length-subgroups es g sequence
  length-subgroups (subdir name d es) g sequence = elim (Bool-cases (starts_with_dot name)) [
    | inl dot ↦ rw dot (length-subgroups es g sequence)
    | inr other ↦
        let here = groups name d (pos g.sequence) g.namehash g.fullnamelen (g.depth + 1) sequence in
        let later = subgroups es g (sequence + length here) in
        rw other (
          omega (
            arith,
            length-append here later,
            length-groups d name (pos g.sequence) g.namehash g.fullnamelen (g.depth + 1) sequence,
            length-subgroups es g (sequence + length here),
          ))
  ]

new_sequence :
    (name procs : List ℕ) (c : Contents) (p h : ℤ) (l depth sequence : ℕ)
    → (new_chainer name procs c p h l depth sequence).cstat.gen.sequence ≡ sequence
unfolding new_chainer
new_sequence name procs c p h l depth sequence = refl

new_parentseq :
    (name procs : List ℕ) (c : Contents) (p h : ℤ) (l depth sequence : ℕ) (n : ℤ)
    → (with_below n (new_chainer name procs c p h l depth sequence)).cstat.gen.parentseq ≡ p
unfolding new_chainer
new_parentseq name procs c p h l depth sequence n = refl

-- What may follow after the groups below `k`, whichever of them was the last one.
abbrev Follow : ℕ → ℕ → List ℕ → List Cgchainer → Type 0
Follow i k above rest = (finished : List ℕ) → ArePreorder i (finished ++ (k ∷ above)) rest

mutual
  unfolding groups subgroups

  groups-ArePreorder :
      (d : Dir) (name : List ℕ) (k : ℕ) (h : ℤ) (upper depth sequence : ℕ) (above : List ℕ)
      (rest : List Cgchainer)
      → Follow (sequence + length (groups name d (pos k) h upper depth sequence)) k above rest
      → Follow sequence k above (groups name d (pos k) h upper depth sequence ++ rest)
  groups-ArePreorder gone name k h upper depth sequence above rest follow finished =
      subst (λ i. ArePreorder i (finished ++ (k ∷ above)) rest) (omega arith) (follow finished)
  groups-ArePreorder (dir procs c entries) name k h upper depth sequence above rest follow
        finished =
      let cc = new_chainer name procs c (pos k) h upper depth sequence in
      let own = new_sequence name procs c (pos k) h upper depth sequence in
      let subs = subgroups entries cc.cstat.gen (suc sequence) in
      let follow' : Follow (suc sequence + length subs) sequence (k ∷ above) rest = λ up.
        subst (λ i. ArePreorder i (up ++ (sequence ∷ k ∷ above)) rest) (omega arith)
          (subst (λ path. ArePreorder (sequence + suc (length subs)) path rest)
            (append_assoc up (sequence ∷ []) (k ∷ above)) (follow (up ++ (sequence ∷ [])))) in
      (
        finished,
        k,
        above,
        refl,
        new_parentseq name procs c (pos k) h upper depth sequence (below entries),
        subst (λ j. Follow (suc sequence) j (k ∷ above) (subs ++ rest)) own
            (subgroups-ArePreorder entries cc.cstat.gen (suc sequence) (k ∷ above) rest (
              subst (λ j. Follow (suc sequence + length subs) j (k ∷ above) rest) (sym own)
                follow'))
            [],
      )

  subgroups-ArePreorder :
      (es : Entries) (g : Cggen) (sequence : ℕ) (above : List ℕ) (rest : List Cgchainer)
      → Follow (sequence + length (subgroups es g sequence)) g.sequence above rest
      → Follow sequence g.sequence above (subgroups es g sequence ++ rest)
  subgroups-ArePreorder no_entries g sequence above rest follow finished =
      subst (λ i. ArePreorder i (finished ++ (g.sequence ∷ above)) rest) (omega arith)
        (follow finished)
  subgroups-ArePreorder (file name es) g sequence above rest follow finished =
      subgroups-ArePreorder es g sequence above rest follow finished
  subgroups-ArePreorder (subdir name d es) g sequence above rest follow finished =
      elim (Bool-cases (starts_with_dot name)) [
        | inl dot ↦
            let follow' : Follow (sequence + length (subgroups es g sequence)) g.sequence above
                rest =
              rw dot at follow in
            rw dot (subgroups-ArePreorder es g sequence above rest follow' finished)
        | inr other ↦
            let here =
              groups name d (pos g.sequence) g.namehash g.fullnamelen (g.depth + 1) sequence in
            let later = subgroups es g (sequence + length here) in
            let follow₁ : Follow (sequence + length (here ++ later)) g.sequence above rest =
              rw other at follow in
            let follow₂ : Follow (sequence + length here + length later) g.sequence above rest =
              subst (λ i. Follow i g.sequence above rest) (omega (arith, length-append here later))
                follow₁ in
            let ih = subgroups-ArePreorder es g (sequence + length here) above rest follow₂ in
            let all =
              groups-ArePreorder d name g.sequence g.namehash g.fullnamelen (g.depth + 1) sequence
                above (later ++ rest) ih finished in
            rw other (
              subst (ArePreorder sequence (finished ++ (g.sequence ∷ above)))
                (sym (append_assoc here later rest)) all)
      ]

groups-IsPreorder : (d : Dir) → IsPreorder (groups (b'.' ∷ []) d minus_one (pos 0) 0 0 0)
unfolding groups
groups-IsPreorder gone = tt
groups-IsPreorder (dir procs c entries) =
    let cc = new_chainer (b'.' ∷ []) procs c minus_one (pos 0) 0 0 0 in
    let own = new_sequence (b'.' ∷ []) procs c minus_one (pos 0) 0 0 0 in
    let subs = subgroups entries cc.cstat.gen 1 in
    subst (ArePreorder 1 (0 ∷ [])) (append-nil subs) (
      subst (λ j. Follow 1 j [] (subs ++ [])) own
        (subgroups-ArePreorder entries cc.cstat.gen 1 [] [] (λ up. tt)) [])

-- The walk of `photocgroup`, over any tree of directories and from the variables that it resets. The chain
-- is a tree: each group's sequence number is its position, its parent stands before it, and its depth, its
-- path length and its name hash continue those of its parent. It is in preorder: each group but the
-- first one is a child of the group before it, or of an ancestor of that one. It has one group for
-- each directory that is there, but for those that start with a dot and what is below them. The
-- counters are the chain's length and the sums of the sizes and the processes in it, and the next
-- sequence number is the length.
pub walkcgroup-IsPreorder :
    (d : Dir)
    → IsCounted (walkcgroup (b'.' ∷ []) d minus_one (pos 0) 0 0 fresh).0
      × IsPreorder (walkcgroup (b'.' ∷ []) d minus_one (pos 0) 0 0 fresh).0.chain
      × (length (walkcgroup (b'.' ∷ []) d minus_one (pos 0) 0 0 fresh).0.chain ≡ directories d)
unfolding extend
walkcgroup-IsPreorder d =
    let e = sym (walkcgroup-groups d (b'.' ∷ []) minus_one (pos 0) 0 0 fresh) in
    (
      walkcgroup-IsCounted d,
      subst (λ (w : Current × ℤ). IsPreorder w.0.chain) e (groups-IsPreorder d),
      subst (λ (w : Current × ℤ). length w.0.chain ≡ directories d) e
          (length-groups d (b'.' ∷ []) minus_one (pos 0) 0 0 0),
    )

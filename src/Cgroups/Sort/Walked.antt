-- ===== src/Cgroups/Sort/Walked.antt =====
-- `cgsort` on what `walkcgroup` delivers.
use atop.Prelude.{
  ℕ, suc, ◌+◌, ◌*◌, ◌≤◌, ◌<◌, ◌≡◌, refl, sym, ap, subst, ◌∙◌, inl, inr, List, [], ◌∷◌, ◌++◌, some,
  length, append-nil, append_assoc, Bool-cases, arith,
}
use atop.Prelude.Int.{ℤ, pos, minus_one}
use atop.Cgroups.{Cggen, Cgchainer}
use atop.Cgroups.Walk.{
  Contents, Dir, gone, dir, Entries, no_entries, file, subdir, Current, fresh, starts_with_dot,
  new_chainer, with_below, walkcgroup,
}
use atop.Cgroups.Walk.Expected.{below, groups, subgroups, extend, walkcgroup-groups}
use atop.Cgroups.Sort.{Placed, number, Node, Line, cgsort}
use atop.Cgroups.Sort.Levels.{GoDown}
use atop.Cgroups.Sort.Merge.{IsReordering}
use atop.Cgroups.Sort.Laws.{occurrences, cgsort-once}

number-append :
    (i : ℕ) (a b : List Cgchainer) → number i (a ++ b) ≡ number i a ++ number (i + length a) b
unfolding number
number-append i [] b = ap (λ k. number k b) (omega arith)
number-append i (x ∷ a) b =
    let e : i + 1 + length a ≡ i + suc (length a) = omega arith in
    ap (λ l. record { at = i; cg = x } ∷ l)
      (number-append (i + 1) a b ∙ ap (λ k. number (i + 1) a ++ number k b) e)

GoDown-mono : (l l' : ℕ) (ps : List Placed) → l ≤ l' → GoDown l ps → GoDown l' ps
GoDown-mono l l' [] h g = g
GoDown-mono l l' (p ∷ ps) h (a, b, g) = (omega arith, b, g)

new_depth :
    (name procs : List ℕ) (c : Contents) (p h : ℤ) (l depth sequence : ℕ) (n : ℤ)
    → (with_below n (new_chainer name procs c p h l depth sequence)).cstat.gen.depth ≡ depth
unfolding new_chainer
new_depth name procs c p h l depth sequence n = refl

mutual
  unfolding groups subgroups number

  groups-GoDown :
      (d : Dir) (name : List ℕ) (p h : ℤ) (upper depth sequence i level : ℕ) (rest : List Placed)
      → 0 < depth
      → depth ≤ level
      → GoDown depth rest
      → GoDown level (number i (groups name d p h upper depth sequence) ++ rest)
  groups-GoDown gone name p h upper depth sequence i level rest b a g =
      GoDown-mono depth level rest a g
  groups-GoDown (dir procs c entries) name p h upper depth sequence i level rest b a g =
      let cc = new_chainer name procs c p h upper depth sequence in
      let e = new_depth name procs c p h upper depth sequence (below entries) in
      let inside =
        subgroups-GoDown entries cc.cstat.gen depth (suc sequence) (i + 1) rest e
          (GoDown-mono depth (suc depth) rest (omega arith) g) in
      (
        omega arith,
        omega arith,
        subst
            (λ l.
              GoDown (suc l)
                (number (i + 1) (subgroups entries cc.cstat.gen (suc sequence)) ++ rest))
            (sym e) inside,
      )

  subgroups-GoDown :
      (es : Entries) (g : Cggen) (depth sequence i : ℕ) (rest : List Placed)
      → g.depth ≡ depth
      → GoDown (suc depth) rest
      → GoDown (suc depth) (number i (subgroups es g sequence) ++ rest)
  subgroups-GoDown no_entries g depth sequence i rest e down = down
  subgroups-GoDown (file name es) g depth sequence i rest e down =
      subgroups-GoDown es g depth sequence i rest e down
  subgroups-GoDown (subdir name d es) g depth sequence i rest e down =
      elim (Bool-cases (starts_with_dot name)) [
        | inl dot ↦ rw dot (subgroups-GoDown es g depth sequence i rest e down)
        | inr other ↦
            let here =
              groups name d (pos g.sequence) g.namehash g.fullnamelen (g.depth + 1) sequence in
            let later = subgroups es g (sequence + length here) in
            let placed = number (i + length here) later in
            let ih =
              subgroups-GoDown es g depth (sequence + length here) (i + length here) rest e down in
            let below_here : GoDown (g.depth + 1) (placed ++ rest) =
              subst (λ l. GoDown l (placed ++ rest)) (omega arith) ih in
            let all =
              groups-GoDown d name (pos g.sequence) g.namehash g.fullnamelen (g.depth + 1) sequence
                i (suc depth) (placed ++ rest) (omega arith) (omega arith) below_here in
            rw other (
              subst (λ ps. GoDown (suc depth) ps)
                (sym (append_assoc (number i here) placed rest)
                  ∙ ap (λ ps. ps ++ rest) (sym (number-append i here later)))
                all)
      ]

-- The groups that a walk finds, over a top directory with these contents.
abbrev pub walked : List ℕ → Contents → Entries → List Cgchainer
walked procs c entries =
    (walkcgroup (b'.' ∷ []) (dir procs c entries) minus_one (pos 0) 0 0 fresh).0.chain

abbrev IsSortedOnce : (List Node → List Node) → ℕ → ℕ → List Cgchainer → Type 0
IsSortedOnce qsort fuel res chain =
    (lines : List Line) × (cgsort qsort fuel res chain ≡ some lines)
    × (length lines ≡ length chain)
    × ((k : ℕ) → k < length chain → occurrences k lines ≡ 1)

sort_groups :
    (qsort : List Node → List Node) (fuel res : ℕ) (procs : List ℕ) (c : Contents)
    (entries : Entries)
    → IsReordering qsort
    → 2 * length (groups (b'.' ∷ []) (dir procs c entries) minus_one (pos 0) 0 0 0) < fuel
    → IsSortedOnce qsort fuel res (groups (b'.' ∷ []) (dir procs c entries) minus_one (pos 0) 0 0 0)
unfolding groups
sort_groups qsort fuel res procs c entries reorders h =
    let cc = new_chainer (b'.' ∷ []) procs c minus_one (pos 0) 0 0 0 in
    let rest = subgroups entries cc.cstat.gen 1 in
    let e = new_depth (b'.' ∷ []) procs c minus_one (pos 0) 0 0 0 (below entries) in
    let down = subgroups-GoDown entries cc.cstat.gen 0 1 1 [] e tt in
    cgsort-once qsort fuel res (with_below (below entries) cc) rest reorders
      (subst (λ ps. GoDown 1 ps) (append-nil (number 1 rest)) down) (omega arith)

-- Whatever tree of directories `walkcgroup` finds below a top directory that is there, and when `qsort`
-- only reorders what it gets: with fuel for more than twice the number of groups, `cgsort` ends, and gives
-- a list of as many lines as there are groups, in which each group stands exactly once.
pub walkcgroup-cgsort :
    (qsort : List Node → List Node) (fuel res : ℕ) (procs : List ℕ) (c : Contents)
    (entries : Entries)
    → IsReordering qsort
    → 2 * length (walked procs c entries) < fuel
    → (lines : List Line) × (cgsort qsort fuel res (walked procs c entries) ≡ some lines)
      × (length lines ≡ length (walked procs c entries))
      × ((k : ℕ) → k < length (walked procs c entries) → occurrences k lines ≡ 1)
unfolding extend
walkcgroup-cgsort qsort fuel res procs c entries reorders h =
    let e = walkcgroup-groups (dir procs c entries) (b'.' ∷ []) minus_one (pos 0) 0 0 fresh in
    let chain : walked procs c entries
        ≡ groups (b'.' ∷ []) (dir procs c entries) minus_one (pos 0) 0 0 0 =
      ap (λ (w : Current × ℤ). w.0.chain) e in
    subst (λ ch. IsSortedOnce qsort fuel res ch) (sym chain)
      (sort_groups qsort fuel res procs c entries reorders
        (subst (λ ch. 2 * length ch < fuel) chain h))

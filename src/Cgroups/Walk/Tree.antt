-- ===== src/Cgroups/Walk/Tree.antt =====
-- The chain that a walk builds is a tree: each group stands after its parent.
use atop.Prelude.{
  ℕ, zero, suc, ◌+◌, ◌≡◌, refl, sym, subst, false, List, [], ◌∷◌, ◌++◌, some, length, get_elem?,
  Bool-cases, inl, inr, append_assoc, append-nil, length-append, arith,
}
use atop.Prelude.Int.{ℤ, pos, minus_one}
use atop.Cgroups.{Cgchainer}
use atop.Cgroups.Hash.{weigh, hashcalc}
use atop.Cgroups.Walk.{
  Contents, Dir, gone, dir, Entries, no_entries, file, subdir, Current, fresh, starts_with_dot,
  new_chainer, with_below, walkcgroup,
}
use atop.Cgroups.Walk.Expected.{
  below, groups, subgroups, extend, sizes, nprocs_of, walkcgroup-groups, get-middle,
}

-- What holds of each group by itself.
abbrev pub IsOwn : ℕ → Cgchainer → Type 0
IsOwn i cc =
    (cc.cstat.gen.sequence ≡ i)
    × (cc.cstat.gen.nprocs ≡ length cc.proclist)
    × (cc.cstat.gen.namelen ≡ length cc.cstat.cgname)

-- `cc` is a child of `parent`, which stands at position `k`.
abbrev pub IsChild : ℕ → Cgchainer → Cgchainer → Type 0
IsChild k parent cc =
    (cc.cstat.gen.parentseq ≡ pos k)
    × (cc.cstat.gen.depth ≡ suc parent.cstat.gen.depth)
    × (cc.cstat.gen.fullnamelen ≡ parent.cstat.gen.fullnamelen + cc.cstat.gen.namelen)
    × (cc.cstat.gen.namehash
        ≡ hashcalc cc.cstat.cgname parent.cstat.gen.namehash parent.cstat.gen.fullnamelen)

abbrev pub IsPlaced : List Cgchainer → Cgchainer → Type 0
IsPlaced before cc =
    IsOwn (length before) cc
    × ((k : ℕ) × (parent : Cgchainer) × (get_elem? before k ≡ some parent) × IsChild k parent cc)

abbrev pub ArePlaced : List Cgchainer → List Cgchainer → Type 0
ArePlaced before [] = Unit
ArePlaced before (cc ∷ rest) = IsPlaced before cc × ArePlaced (before ++ (cc ∷ [])) rest

-- The top directory has the number 0, the depth 0, no name and no parent.
abbrev pub IsRoot : Cgchainer → Type 0
IsRoot cc =
    IsOwn 0 cc
    × (cc.cstat.gen.parentseq ≡ minus_one)
    × (cc.cstat.gen.depth ≡ 0)
    × (cc.cstat.cgname ≡ [])
    × (cc.cstat.gen.fullnamelen ≡ 0)
    × (cc.cstat.gen.namehash ≡ pos 0)

abbrev pub IsTree : List Cgchainer → Type 0
IsTree [] = Unit
IsTree (root ∷ rest) = IsRoot root × ArePlaced (root ∷ []) rest

ArePlaced-append :
    (before xs ys : List Cgchainer)
    → ArePlaced before xs
    → ArePlaced (before ++ xs) ys
    → ArePlaced before (xs ++ ys)
ArePlaced-append before [] ys a b = subst (λ l. ArePlaced l ys) (append-nil before) b
ArePlaced-append before (x ∷ xs) ys (p, a) b = (
  p,
  ArePlaced-append (before ++ (x ∷ [])) xs ys a
      (subst (λ l. ArePlaced l ys) (sym (append_assoc before (x ∷ []) xs)) b),
)

pub get-before :
    (xs ys : List Cgchainer) (k : ℕ) (x : Cgchainer)
    → get_elem? xs k ≡ some x
    → get_elem? (xs ++ ys) k ≡ some x
get-before [] ys k x h = ground arith
get-before (z ∷ xs) ys zero x h = h
get-before (z ∷ xs) ys (suc k) x h = get-before xs ys k x h

new-IsPlaced :
    (before : List Cgchainer) (k : ℕ) (parent : Cgchainer) (name procs : List ℕ) (c : Contents)
    (n : ℤ)
    → get_elem? before k ≡ some parent
    → starts_with_dot name ≡ false
    → IsPlaced before (
        with_below n (
          new_chainer name procs c
            (pos k)
            parent.cstat.gen.namehash
            parent.cstat.gen.fullnamelen
            (parent.cstat.gen.depth + 1)
            (length before)))
unfolding new_chainer
new-IsPlaced before k parent name procs c n at dot =
    rw dot ((refl, refl, refl), (k, parent, at, (refl, omega arith, refl, refl)))

new_sequence :
    (name procs : List ℕ) (c : Contents) (p h : ℤ) (l depth sequence : ℕ)
    → (new_chainer name procs c p h l depth sequence).cstat.gen.sequence ≡ sequence
unfolding new_chainer
new_sequence name procs c p h l depth sequence = refl

new_chainer-IsRoot :
    (procs : List ℕ) (c : Contents) (n : ℤ)
    → IsRoot (with_below n (new_chainer (b'.' ∷ []) procs c minus_one (pos 0) 0 0 0))
unfolding new_chainer starts_with_dot hashcalc weigh
new_chainer-IsRoot procs c n = ((refl, refl, refl), refl, refl, refl, refl, refl)

mutual
  unfolding groups subgroups

  groups-ArePlaced :
      (d : Dir) (name : List ℕ) (before : List Cgchainer) (k : ℕ) (parent : Cgchainer)
      → get_elem? before k ≡ some parent
      → starts_with_dot name ≡ false
      → ArePlaced before (
          groups name d
            (pos k)
            parent.cstat.gen.namehash
            parent.cstat.gen.fullnamelen
            (parent.cstat.gen.depth + 1)
            (length before))
  groups-ArePlaced gone name before k parent at dot = tt
  groups-ArePlaced (dir procs c entries) name before k parent at dot =
      let new =
        new_chainer name procs c (pos k) parent.cstat.gen.namehash parent.cstat.gen.fullnamelen
          (parent.cstat.gen.depth + 1) (length before) in
      let grown = before ++ (with_below (below entries) new ∷ []) in
      let found : get_elem? grown new.cstat.gen.sequence ≡ some (with_below (below entries) new) =
        subst (λ j. get_elem? grown j ≡ some (with_below (below entries) new))
          (sym (
            new_sequence name procs c (pos k) parent.cstat.gen.namehash parent.cstat.gen.fullnamelen
              (parent.cstat.gen.depth + 1) (length before)))
          (get-middle before (with_below (below entries) new) []) in
      let longer : length grown ≡ suc (length before) =
        omega (arith, length-append before (with_below (below entries) new ∷ [])) in
      (
        new-IsPlaced before k parent name procs c (below entries) at dot,
        subst (λ j. ArePlaced grown (subgroups entries new.cstat.gen j)) longer
            (subgroups-ArePlaced entries grown (below entries) new found),
      )

  subgroups-ArePlaced :
      (es : Entries) (before : List Cgchainer) (n : ℤ) (parent : Cgchainer)
      → get_elem? before parent.cstat.gen.sequence ≡ some (with_below n parent)
      → ArePlaced before (subgroups es parent.cstat.gen (length before))
  subgroups-ArePlaced no_entries before n parent at = tt
  subgroups-ArePlaced (file name rest) before n parent at =
      subgroups-ArePlaced rest before n parent at
  subgroups-ArePlaced (subdir name d rest) before n parent at =
      elim (Bool-cases (starts_with_dot name)) [
        | inl dot ↦ rw dot (subgroups-ArePlaced rest before n parent at)
        | inr other ↦
            let here =
              groups name d (pos parent.cstat.gen.sequence) parent.cstat.gen.namehash
                parent.cstat.gen.fullnamelen (parent.cstat.gen.depth + 1) (length before) in
            let placed =
              groups-ArePlaced d name before parent.cstat.gen.sequence (with_below n parent) at
                other in
            let later =
              subgroups-ArePlaced rest (before ++ here) n parent
                (get-before before here parent.cstat.gen.sequence (with_below n parent) at) in
            rw other (
              ArePlaced-append before here
                (subgroups rest parent.cstat.gen (length before + length here)) placed
                (subst (λ k. ArePlaced (before ++ here) (subgroups rest parent.cstat.gen k))
                  (length-append before here) later))
      ]

groups-IsTree : (d : Dir) → IsTree (groups (b'.' ∷ []) d minus_one (pos 0) 0 0 0)
unfolding groups
groups-IsTree gone = tt
groups-IsTree (dir procs c entries) =
    let root = new_chainer (b'.' ∷ []) procs c minus_one (pos 0) 0 0 0 in
    let found : get_elem? (with_below (below entries) root ∷ []) root.cstat.gen.sequence
        ≡ some (with_below (below entries) root) =
      subst
        (λ j.
          get_elem? (with_below (below entries) root ∷ []) j
          ≡ some (with_below (below entries) root))
        (sym (new_sequence (b'.' ∷ []) procs c minus_one (pos 0) 0 0 0)) refl in
    (
      new_chainer-IsRoot procs c (below entries),
      subgroups-ArePlaced entries (with_below (below entries) root ∷ []) (below entries) root found,
    )

-- The state of a finished walk.
abbrev pub IsCounted : Current → Type 0
IsCounted s =
    IsTree s.chain
    × (s.cgcursize ≡ sizes s.chain)
    × (s.cgcurnum ≡ length s.chain)
    × (s.cgcurprocs ≡ nprocs_of s.chain)
    × (s.cgcursequence ≡ length s.chain)

extend-IsCounted : (added : List Cgchainer) → IsTree added → IsCounted (extend fresh added)
unfolding extend
extend-IsCounted added t = (t, omega arith, omega arith, omega arith, omega arith)

-- The state after the walk of `photocgroup`.
pub walkcgroup-IsCounted :
    (d : Dir) → IsCounted (walkcgroup (b'.' ∷ []) d minus_one (pos 0) 0 0 fresh).0
walkcgroup-IsCounted d =
    subst (λ (w : Current × ℤ). IsCounted w.0)
      (sym (walkcgroup-groups d (b'.' ∷ []) minus_one (pos 0) 0 0 fresh))
      (extend-IsCounted (groups (b'.' ∷ []) d minus_one (pos 0) 0 0 0) (groups-IsTree d))

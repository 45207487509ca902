-- ===== src/Cgroups/Walk/Expected.antt =====
-- The walk against its description: the groups of a tree in preorder.
use atop.Prelude.{
  ℕ, suc, ◌+◌, ◌≡◌, refl, sym, ap, ◌∙◌, List, [], ◌∷◌, ◌++◌, some, length, get_elem?, set,
  if◌then◌else◌, Bool-cases, inl, inr, append_assoc, append-nil, length-append, arith,
}
use atop.Prelude.Int.{ℤ, pos, minus_one, ◌+ℤ◌}
use atop.Cgroups.{Cggen, Cgchainer}
use atop.Cgroups.Walk.{
  Dir, gone, dir, Entries, no_entries, file, subdir, Current, starts_with_dot, new_chainer,
  add_chainer, with_below, put_below, store_below, walkcgroup, walk_entries,
}

-- The processes of a group with those below it (a directory that is gone counts for -1), and the
-- sum over the subdirectories.
unfoldable mutual
  pub total : Dir → ℤ
  total gone = minus_one
  total (dir procs c entries) = below entries +ℤ pos (length procs)

  pub below : Entries → ℤ
  below no_entries = pos 0
  below (file name rest) = below rest
  below (subdir name d rest) = if starts_with_dot name then below rest else total d +ℤ below rest

-- The groups in preorder, numbered from `sequence`.
unfoldable mutual
  pub groups : List ℕ → Dir → ℤ → ℤ → ℕ → ℕ → ℕ → List Cgchainer
  groups dirname gone parentseq upperhash upperlen depth sequence = []
  groups dirname (dir procs c entries) parentseq upperhash upperlen depth sequence =
      let cc = new_chainer dirname procs c parentseq upperhash upperlen depth sequence in
      with_below (below entries) cc ∷ subgroups entries cc.cstat.gen (suc sequence)

  pub subgroups : Entries → Cggen → ℕ → List Cgchainer
  subgroups no_entries g sequence = []
  subgroups (file name rest) g sequence = subgroups rest g sequence
  subgroups (subdir name d rest) g sequence =
      let here = groups name d (pos g.sequence) g.namehash g.fullnamelen (g.depth + 1) sequence in
      if starts_with_dot name
      then subgroups rest g sequence
      else here ++ subgroups rest g (sequence + length here)

-- Sums over a chain.
abbrev pub sizes : List Cgchainer → ℕ
sizes [] = 0
sizes (cc ∷ rest) = cc.cstat.gen.structlen + sizes rest

abbrev pub nprocs_of : List Cgchainer → ℕ
nprocs_of [] = 0
nprocs_of (cc ∷ rest) = cc.cstat.gen.nprocs + nprocs_of rest

-- The state with these groups at the end of its chain.
unfoldable pub extend : Current → List Cgchainer → Current
extend s added = record {
  chain = s.chain ++ added;
  cgcursize = s.cgcursize + sizes added;
  cgcurnum = s.cgcurnum + length added;
  cgcurprocs = s.cgcurprocs + nprocs_of added;
  cgcursequence = s.cgcursequence + length added;
}

current_eq :
    (s t : Current)
    → s.chain ≡ t.chain
    → s.cgcursize ≡ t.cgcursize
    → s.cgcurnum ≡ t.cgcurnum
    → s.cgcurprocs ≡ t.cgcurprocs
    → s.cgcursequence ≡ t.cgcursequence
    → s ≡ t
current_eq s t a b c d e = λ i. record {
  chain = a i;
  cgcursize = b i;
  cgcurnum = c i;
  cgcurprocs = d i;
  cgcursequence = e i;
}

sizes-append : (xs ys : List Cgchainer) → sizes (xs ++ ys) ≡ sizes xs + sizes ys
sizes-append [] ys = omega arith
sizes-append (x ∷ xs) ys = omega (arith, sizes-append xs ys)

nprocs_of-append : (xs ys : List Cgchainer) → nprocs_of (xs ++ ys) ≡ nprocs_of xs + nprocs_of ys
nprocs_of-append [] ys = omega arith
nprocs_of-append (x ∷ xs) ys = omega (arith, nprocs_of-append xs ys)

extend_next :
    (s : Current) (added : List Cgchainer)
    → (extend s added).cgcursequence ≡ s.cgcursequence + length added
unfolding extend
extend_next s added = refl

extend-nil : (s : Current) → extend s [] ≡ s
unfolding extend
extend-nil s =
    current_eq (extend s []) s (append-nil s.chain) (omega arith) (omega arith) (omega arith)
      (omega arith)

extend-extend :
    (s : Current) (xs ys : List Cgchainer) → extend (extend s xs) ys ≡ extend s (xs ++ ys)
unfolding extend
extend-extend s xs ys =
    current_eq (extend (extend s xs) ys) (extend s (xs ++ ys)) (append_assoc s.chain xs ys)
      (omega (arith, sizes-append xs ys)) (omega (arith, length-append xs ys))
      (omega (arith, nprocs_of-append xs ys)) (omega (arith, length-append xs ys))

-- A directory's own element gets its `procsbelow` after the walk below it.
set-middle :
    (xs : List Cgchainer) (x y : Cgchainer) (ys : List Cgchainer)
    → set (xs ++ (x ∷ ys)) (length xs) y ≡ xs ++ (y ∷ ys)
set-middle [] x y ys = refl
set-middle (z ∷ xs) x y ys = ap (λ l. z ∷ l) (set-middle xs x y ys)

pub get-middle :
    (xs : List Cgchainer) (x : Cgchainer) (ys : List Cgchainer)
    → get_elem? (xs ++ (x ∷ ys)) (length xs) ≡ some x
get-middle [] x ys = refl
get-middle (z ∷ xs) x ys = get-middle xs x ys

put_below-middle :
    (xs : List Cgchainer) (new : Cgchainer) (ys : List Cgchainer) (n : ℤ)
    → put_below (length xs) n ((xs ++ (new ∷ [])) ++ ys) ≡ xs ++ (with_below n new ∷ ys)
unfolding put_below
put_below-middle xs new ys n =
    ap (put_below (length xs) n) (append_assoc xs (new ∷ []) ys)
    ∙ rw (put_below, get-middle xs new ys) (set-middle xs new (with_below n new) ys)

store-extend :
    (s : Current) (dirname : List ℕ) (new : Cgchainer) (ys : List Cgchainer) (n : ℤ)
    → store_below (length s.chain) n (extend (add_chainer dirname new s) ys)
      ≡ extend s (with_below n new ∷ ys)
unfolding store_below extend add_chainer
store-extend s dirname new ys n =
    let t = extend (add_chainer dirname new s) ys in
    current_eq (store_below (length s.chain) n t) (extend s (with_below n new ∷ ys))
      (put_below-middle s.chain new ys n) (omega arith) (omega arith) (omega arith) (omega arith)

add_chainer_next :
    (s : Current) (dirname : List ℕ) (new : Cgchainer)
    → (add_chainer dirname new s).cgcursequence ≡ suc s.cgcursequence
unfolding add_chainer
add_chainer_next s dirname new = omega arith

mutual
  unfolding walkcgroup walk_entries groups subgroups total below

  walked_groups :
      (d : Dir) (dirname : List ℕ) (parentseq upperhash : ℤ) (upperlen depth : ℕ) (s : Current)
      → walkcgroup dirname d parentseq upperhash upperlen depth s
        ≡ (extend s (groups dirname d parentseq upperhash upperlen depth s.cgcursequence), total d)
  walked_groups gone dirname p h l depth s = ap (λ t. (t, minus_one)) (sym (extend-nil s))
  walked_groups (dir procs c entries) dirname p h l depth s =
      let new = new_chainer dirname procs c p h l depth s.cgcursequence in
      let added = add_chainer dirname new s in
      let walked =
        walked_subgroups entries new.cstat.gen added
        ∙ ap (λ k. (extend added (subgroups entries new.cstat.gen k), below entries))
            (add_chainer_next s dirname new) in
      ap (λ (w : Current × ℤ). (store_below (length s.chain) w.1 w.0, w.1 +ℤ pos (length procs)))
        walked
      ∙ ap (λ t. (t, total (dir procs c entries)))
          (store-extend s dirname new (subgroups entries new.cstat.gen (suc s.cgcursequence))
            (below entries))

  walked_subgroups :
      (es : Entries) (g : Cggen) (s : Current)
      → walk_entries es g s ≡ (extend s (subgroups es g s.cgcursequence), below es)
  walked_subgroups no_entries g s = ap (λ t. (t, pos 0)) (sym (extend-nil s))
  walked_subgroups (file name rest) g s = walked_subgroups rest g s
  walked_subgroups (subdir name d rest) g s = elim (Bool-cases (starts_with_dot name)) [
    | inl dot ↦ rw dot (walked_subgroups rest g s)
    | inr other ↦
        let here =
          groups name d (pos g.sequence) g.namehash g.fullnamelen (g.depth + 1) s.cgcursequence in
        let here_walk =
          walked_groups d name (pos g.sequence) g.namehash g.fullnamelen (g.depth + 1) s in
        let rest_walk =
          walked_subgroups rest g (extend s here)
          ∙ ap (λ t. (t, below rest))
              (extend-extend s here (subgroups rest g (extend s here).cgcursequence))
          ∙ ap (λ k. (extend s (here ++ subgroups rest g k), below rest)) (extend_next s here) in
        rw (other, here_walk, rest_walk) refl
  ]

-- The walk over any directory, from any state: it adds the groups of the directory and of those
-- below it to the chain in preorder, each with its `procsbelow`, adds up their sizes, their number
-- and their processes, moves the sequence number on by their number, and returns the number of
-- processes in the directory and below, where each directory that is gone counts for -1.
pub walkcgroup-groups :
    (d : Dir) (dirname : List ℕ) (parentseq upperhash : ℤ) (upperlen depth : ℕ) (s : Current)
    → walkcgroup dirname d parentseq upperhash upperlen depth s
      ≡ (extend s (groups dirname d parentseq upperhash upperlen depth s.cgcursequence), total d)
walkcgroup-groups d dirname parentseq upperhash upperlen depth s =
    walked_groups d dirname parentseq upperhash upperlen depth s

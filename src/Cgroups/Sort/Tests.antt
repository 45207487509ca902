-- ===== src/Cgroups/Sort/Tests.antt =====
-- Two groups with children, below the top directory, in the order of their memory; `qsort` is an
-- insertion sort.
use atop.Prelude.{
  ℕ, ◌+◌, ◌*◌, ◌≡◌, refl, ap, ◌∙◌, inl, inr, List, [], ◌∷◌, some, length, ◌<◌, if◌then◌else◌,
  Bool-cases, arith,
}
use atop.Prelude.Int.{ℤ, pos, minus_one, ltb_ℤ, ◌+ℤ◌}
use atop.Cgroups.{Cgchainer}
use atop.Cgroups.Hash.{weigh, hashcalc, char_times}
use atop.Cgroups.Walk.{
  dir, Entries, no_entries, subdir, rounded, starts_with_dot, new_chainer, add_chainer, put_below,
  store_below, walkcgroup,
}
use atop.Cgroups.Walk.Tests.{zero_contents}
use atop.Cgroups.Sort.{
  number, sortval, sortlevel, Node, nodes, set_bit, clear_bit, Line, mask_of, merge_nodes,
  compsortval, in_order, mergelevel, cgsort,
}
use atop.Cgroups.Sort.Merge.{sum_nodes, IsReordering}
use atop.Cgroups.Sort.Laws.{occurrences, cgsort-once}
use atop.Cgroups.Sort.Walked.{walked, walkcgroup-cgsort}

-- A group with a depth and its memory.
abbrev group : ℕ → ℤ → Cgchainer
group depth current = record {
  cstat = record {
    gen = record {
      structlen = 440;
      sequence = 0;
      parentseq = pos 0;
      depth = depth;
      nprocs = 0;
      procsbelow = pos 0;
      namelen = 0;
      fullnamelen = 0;
      namehash = pos 0;
    };
    conf = record {
      cpuweight = pos 100;
      cpumax = minus_one;
      memmax = minus_one;
      swpmax = minus_one;
      dskweight = pos 100;
    };
    cpu = record { utime = pos 5; stime = pos 6; somepres = pos 0; fullpres = pos 0 };
    mem = record {
      current = current;
      anon = pos 1;
      file = pos 2;
      kernel = pos 3;
      shmem = pos 4;
      somepres = pos 0;
      fullpres = pos 0;
    };
    dsk = record {
      rbytes = pos 7;
      wbytes = pos 8;
      rios = pos 1;
      wios = pos 1;
      somepres = pos 0;
      fullpres = pos 0;
    };
    cgname = [];
  };
  proclist = [];
  vlinemask = 0;
  stub = 0;
}

-- The fourth group shows no memory in use: the parts are added up to 10.
abbrev below : List Cgchainer
below =
    group 1 (pos 20)
    ∷ group 2 (pos 3)
    ∷ group 2 (pos 15)
    ∷ group 1 (pos 0)
    ∷ group 1 (pos 30)
    ∷ group 2 (pos 30)
    ∷ []

abbrev insert : Node → List Node → List Node
insert n [] = n ∷ []
insert n (m ∷ rest) = if ltb_ℤ (pos 0) (compsortval n m) then m ∷ insert n rest else n ∷ m ∷ rest

abbrev insertion : List Node → List Node
insertion [] = []
insertion (n ∷ rest) = insert n (insertion rest)

insert-sum :
    (g : Node → ℕ) (n : Node) (ns : List Node) → sum_nodes g (insert n ns) ≡ g n + sum_nodes g ns
insert-sum g n [] = refl
insert-sum g n (m ∷ rest) =
    let ih = insert-sum g n rest in
    elim (Bool-cases (ltb_ℤ (pos 0) (compsortval n m))) [
      | inl e ↦ rw e (omega arith)
      | inr e ↦ rw e refl
    ]

insertion-IsReordering : IsReordering insertion
insertion-IsReordering g [] = refl
insertion-IsReordering g (n ∷ rest) =
    insert-sum g n (insertion rest) ∙ ap (λ x. g n + x) (insertion-IsReordering g rest)

program : Unit {0}
unfolding ◌+ℤ◌ number sortval sortlevel nodes set_bit clear_bit mask_of merge_nodes compsortval
    in_order mergelevel cgsort
program = tt

abbrev line : ℕ → ℕ → ℕ → Line
line at stub vlinemask = record { at = at; stub = stub; vlinemask = vlinemask }

cgsort_by_memory :
    cgsort insertion 20 b'M' (group 0 (pos 90) ∷ below)
    ≡ some (
        line 0 1 0
        ∷ line 5 0 1
        ∷ line 6 1 1
        ∷ line 1 0 1
        ∷ line 3 0 3
        ∷ line 2 1 1
        ∷ line 4 1 0
        ∷ [])
unfolding program
cgsort_by_memory = refl

sorted_once :
    (lines : List Line) × (cgsort insertion 20 b'M' (group 0 (pos 90) ∷ below) ≡ some lines)
    × (length lines ≡ length (group 0 (pos 90) ∷ below))
    × ((k : ℕ) → k < length (group 0 (pos 90) ∷ below) → occurrences k lines ≡ 1)
unfolding number
sorted_once =
    cgsort-once insertion 20 b'M' (group 0 (pos 90)) below insertion-IsReordering
      (
        omega arith,
        omega arith,
        (
          omega arith,
          omega arith,
          (
            omega arith,
            omega arith,
            (omega arith, omega arith, (omega arith, omega arith, (omega arith, omega arith, tt))),
          ),
        ),
      )
      (omega arith)

-- Two directories, one of them with a subdirectory.
abbrev entries : Entries
entries =
    subdir (b'a' ∷ [])
      (dir (7 ∷ []) zero_contents (subdir (b'c' ∷ []) (dir [] zero_contents no_entries) no_entries))
      (subdir (b'b' ∷ []) (dir [] zero_contents no_entries) no_entries)

four_groups : 2 * length (walked [] zero_contents entries) < 9
unfolding starts_with_dot new_chainer add_chainer put_below store_below walkcgroup rounded weigh
    hashcalc char_times
four_groups = omega arith

walkcgroup-cgsort_example :
    (lines : List Line) × (cgsort insertion 9 b'C' (walked [] zero_contents entries) ≡ some lines)
    × (length lines ≡ length (walked [] zero_contents entries))
    × ((k : ℕ) → k < length (walked [] zero_contents entries) → occurrences k lines ≡ 1)
walkcgroup-cgsort_example =
    walkcgroup-cgsort insertion 9 b'C' [] zero_contents entries insertion-IsReordering four_groups

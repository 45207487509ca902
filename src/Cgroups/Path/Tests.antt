-- ===== src/Cgroups/Path/Tests.antt =====
-- Paths in a chain of three groups: `/`, `/a` and a group of `/a` whose name is a backslash.
use atop.Prelude.{ℕ, ◌≡◌, refl, true, List, [], ◌∷◌, ◌++◌, none, some, length, has, arith}
use atop.Prelude.Int.{ℤ, pos, minus_one, ◌+ℤ◌}
use atop.Cgroups.{Cgchainer}
use atop.Cgroups.Hash.{char_times, weigh, hashcalc}
use atop.Cgroups.Walk.Tree.{IsTree}
use atop.Cgroups.Path.{
  backslash, zeros, poke, c_string, climb, escape, pathlen_of, assemble, cggetpath,
}
use atop.Cgroups.Path.Climb.{AreFilenames}
use atop.Cgroups.Path.Escape.{doubled, backslashes, escape-doubled, escape-overrun}
use atop.Cgroups.Path.Laws.{IsPathOf, assemble-IsPathOf}

-- A group of which only the place in the tree matters.
abbrev pub group : List ℕ → ℕ → ℤ → ℕ → ℕ → ℤ → ℤ → Cgchainer
group name sequence parentseq depth fullnamelen namehash utime = record {
  cstat = record {
    gen = record {
      structlen = 440;
      sequence = sequence;
      parentseq = parentseq;
      depth = depth;
      nprocs = 0;
      procsbelow = pos 0;
      namelen = length name;
      fullnamelen = fullnamelen;
      namehash = namehash;
    };
    conf = record {
      cpuweight = pos 100;
      cpumax = minus_one;
      memmax = minus_one;
      swpmax = minus_one;
      dskweight = pos 100;
    };
    cpu = record { utime = utime; stime = pos 6; somepres = pos 0; fullpres = pos 0 };
    mem = record {
      current = pos 9;
      anon = pos 1;
      file = pos 2;
      kernel = pos 3;
      shmem = pos 4;
      somepres = pos 0;
      fullpres = pos 0;
    };
    dsk = record {
      rbytes = pos 7;
      wbytes = pos 8;
      rios = pos 1;
      wios = pos 1;
      somepres = pos 0;
      fullpres = pos 0;
    };
    cgname = name;
  };
  proclist = [];
  vlinemask = 0;
  stub = 0;
}

abbrev top : Cgchainer
top = group [] 0 minus_one 0 0 (pos 0) (pos 5)

abbrev group_a : Cgchainer
group_a = group (b'a' ∷ []) 1 (pos 0) 1 1 (pos 97) (pos 5)

abbrev below_a : Cgchainer
below_a = group (backslash ∷ []) 2 (pos 1) 2 2 (pos 281) (pos 5)

abbrev three_groups : List Cgchainer
three_groups = top ∷ group_a ∷ below_a ∷ []

program : Unit {0}
unfolding zeros poke c_string climb escape pathlen_of assemble cggetpath has
program = tt

doubled_path :
    cggetpath 3 three_groups below_a true ≡ some (b'/' ∷ b'a' ∷ b'/' ∷ backslash ∷ backslash ∷ [])
unfolding program
doubled_path = refl

three_groups-IsTree : IsTree three_groups
unfolding hashcalc weigh char_times ◌+ℤ◌
three_groups-IsTree = (
  ((refl, refl, refl), refl, refl, refl, refl, refl),
  (
    ((refl, refl, refl), (0, top, refl, (refl, refl, refl, refl))),
    (((refl, refl, refl), (1, group_a, refl, (refl, refl, refl, refl))), tt),
  ),
)

three_groups-AreFilenames : AreFilenames three_groups
unfolding has
three_groups-AreFilenames = ((refl, refl), ((refl, refl), ((refl, refl), tt)))

assemble-IsPathOf_example :
    (path : List ℕ) × (assemble 3 three_groups below_a ≡ some path)
    × IsPathOf three_groups below_a path
    × (hashcalc path (pos 0) 0 ≡ pos 281)
assemble-IsPathOf_example =
    assemble-IsPathOf 3 2 three_groups below_a three_groups-IsTree three_groups-AreFilenames refl
      (omega arith)

escape-doubled_example :
    escape 19 0 (backslash ∷ b'x' ∷ []) ≡ some (backslash ∷ backslash ∷ b'x' ∷ [])
unfolding doubled backslashes
escape-doubled_example = escape-doubled (backslash ∷ b'x' ∷ []) (omega arith)

abbrev sixteen : List ℕ
sixteen =
    let four : List ℕ = backslash ∷ backslash ∷ backslash ∷ backslash ∷ [] in
    four ++ (four ++ (four ++ four))

escape-overrun_example : escape 34 0 (sixteen ++ (backslash ∷ [])) ≡ none
unfolding backslashes
escape-overrun_example = escape-overrun sixteen [] refl

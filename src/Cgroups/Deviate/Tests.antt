-- ===== src/Cgroups/Deviate/Tests.antt =====
-- Deviations when a group came in between.
use atop.Prelude.{ℕ, ◌≡◌, refl, List, [], ◌∷◌}
use atop.Prelude.Int.{ℤ, pos, minus_one}
use atop.Cgroups.{Cgchainer}
use atop.Cgroups.Hash.Laws.{latest}
use atop.Cgroups.Deviate.{cgcalcdeviate}
use atop.Cgroups.Deviate.Laws.{HashesDiffer, deviations, cgcalcdeviate-deviations}
use atop.Cgroups.Deviate.{
  defined_diff, cpu_diff, mem_diff, dsk_diff, group_diff, cgnext, deviate_found, deviate_by_hash,
  out_of_sync, in_sync,
}
use atop.Cgroups.Hash.{slot, find_in, hashfind, hashadd, empty_table, add_chain}
use atop.Prelude.Int.{◌-ℤ◌}

-- A group with a name hash and a user time.
abbrev group : ℕ → ℤ → Cgchainer
group hash utime = record {
  cstat = record {
    gen = record {
      structlen = 440;
      sequence = 0;
      parentseq = pos 0;
      depth = 1;
      nprocs = 0;
      procsbelow = pos 0;
      namelen = 0;
      fullnamelen = 0;
      namehash = pos hash;
    };
    conf = record {
      cpuweight = pos 100;
      cpumax = minus_one;
      memmax = minus_one;
      swpmax = minus_one;
      dskweight = pos 100;
    };
    cpu = record { utime = utime; stime = pos 6; somepres = pos 0; fullpres = pos 0 };
    mem = record {
      current = pos 9;
      anon = pos 1;
      file = pos 2;
      kernel = pos 3;
      shmem = pos 4;
      somepres = pos 0;
      fullpres = pos 0;
    };
    dsk = record {
      rbytes = pos 7;
      wbytes = pos 8;
      rios = pos 1;
      wios = pos 1;
      somepres = pos 0;
      fullpres = pos 0;
    };
    cgname = [];
  };
  proclist = [];
  vlinemask = 0;
  stub = 0;
}

-- 225 has the hash list of 97.
abbrev previous : List Cgchainer
previous = group 97 (pos 10) ∷ group 225 (pos 20) ∷ []

abbrev current : List Cgchainer
current = group 97 (pos 15) ∷ group 50 (pos 4) ∷ group 225 (pos 26) ∷ []

abbrev utimes : List Cgchainer → List ℤ
utimes [] = []
utimes (g ∷ rest) = g.cstat.cpu.utime ∷ utimes rest

program : Unit {0}
unfolding ◌-ℤ◌ defined_diff cpu_diff mem_diff dsk_diff group_diff cgnext deviate_found
    deviate_by_hash out_of_sync in_sync slot find_in hashfind hashadd empty_table add_chain
    cgcalcdeviate
program = tt

-- The new group in the middle keeps its own time.
three_deviations : utimes (cgcalcdeviate previous current) ≡ pos 5 ∷ pos 4 ∷ pos 6 ∷ []
unfolding program
three_deviations = refl

previous-HashesDiffer : HashesDiffer previous
unfolding latest
previous-HashesDiffer = (refl, (refl, tt))

cgcalcdeviate-deviations_example : cgcalcdeviate previous current ≡ deviations previous current
cgcalcdeviate-deviations_example = cgcalcdeviate-deviations previous current previous-HashesDiffer

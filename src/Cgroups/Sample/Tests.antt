-- ===== src/Cgroups/Sample/Tests.antt =====
-- A sample after one in which there were only `/` and `/a`.
use atop.Prelude.{length, ℕ, ◌≡◌, refl, List, [], ◌∷◌, Option, none, some}
use atop.Prelude.Int.{ℤ, pos, ◌+ℤ◌, ◌-ℤ◌}
use atop.Cgroups.{Cgchainer}
use atop.Cgroups.Hash.{
  char_times, weigh, hashcalc, slot, empty_table, hashadd, find_in, hashfind, add_chain,
}
use atop.Cgroups.Hash.Laws.{latest}
use atop.Cgroups.Walk.{
  fresh, rounded, starts_with_dot, new_chainer, add_chainer, put_below, store_below, walkcgroup,
  no_entries, subdir, dir, gone, Entries,
}
use atop.Cgroups.Walk.Expected.{sizes, nprocs_of}
use atop.Cgroups.Walk.Tests.{zero_contents}
use atop.Cgroups.Deviate.{
  defined_diff, cpu_diff, mem_diff, dsk_diff, group_diff, cgnext, deviate_found, deviate_by_hash,
  out_of_sync, in_sync, cgcalcdeviate,
}
use atop.Cgroups.Deviate.Laws.{HashesDiffer, deviations}
use atop.Cgroups.Sample.{
  Samples, photocgroup, copy_cstats, copy_pids, build, cgbuildarray, deviatcgroup,
}
use atop.Cgroups.Sample.Laws.{rebuilt, sample-deviations}

-- A group with a name hash and a user time of 2.
abbrev group : ℤ → Cgchainer
group namehash = record {
  cstat = record {
    gen = record {
      structlen = 440;
      sequence = 0;
      parentseq = pos 0;
      depth = 0;
      nprocs = 0;
      procsbelow = pos 0;
      namelen = 0;
      fullnamelen = 0;
      namehash = namehash;
    };
    conf = zero_contents.conf;
    cpu = record { utime = pos 2; stime = pos 6; somepres = pos 0; fullpres = pos 0 };
    mem = zero_contents.mem;
    dsk = zero_contents.dsk;
    cgname = [];
  };
  proclist = [];
  vlinemask = 0;
  stub = 0;
}

abbrev before : Samples
before = record {
  cgcur = record fresh { chain = group (pos 0) ∷ group (pos 97) ∷ [] };
  cgprefirst = [];
}

-- `/a` with one process below `/` with two, and a directory that is gone.
abbrev entries : Entries
entries =
    subdir (b'a' ∷ []) (dir (10 ∷ []) zero_contents no_entries)
      (subdir (b'b' ∷ []) gone (subdir (b'c' ∷ []) (dir [] zero_contents no_entries) no_entries))

before-HashesDiffer : HashesDiffer before.cgcur.chain
unfolding latest
before-HashesDiffer = (refl, (refl, tt))

abbrev utimes : Option (List Cgchainer × ℕ) → List ℤ
utimes none = []
utimes (some (devs, npids)) = utimes_of devs
  where
    utimes_of : List Cgchainer → List ℤ
    utimes_of [] = []
    utimes_of (g ∷ rest) = g.cstat.cpu.utime ∷ utimes_of rest

program : Unit {0}
unfolding ◌+ℤ◌ ◌-ℤ◌ char_times weigh hashcalc slot empty_table hashadd find_in hashfind add_chain
    rounded starts_with_dot new_chainer add_chainer put_below store_below walkcgroup defined_diff
    cpu_diff mem_diff dsk_diff group_diff cgnext deviate_found deviate_by_hash out_of_sync in_sync
    cgcalcdeviate photocgroup copy_cstats copy_pids build cgbuildarray deviatcgroup
program = tt

-- The user times are 5 now; `/c` is new.
three_utimes :
    utimes (deviatcgroup 0 0 (photocgroup (dir (1 ∷ 2 ∷ []) zero_contents entries) before))
    ≡ pos 3 ∷ pos 3 ∷ pos 5 ∷ []
unfolding program
three_utimes = refl

sample-deviations_example :
    (deviatcgroup 0 0 (photocgroup (dir (1 ∷ 2 ∷ []) zero_contents entries) before)
      ≡ some (
        deviations before.cgcur.chain
            (rebuilt 0 0 (photocgroup (dir (1 ∷ 2 ∷ []) zero_contents entries) before).cgcur.chain),
        nprocs_of (photocgroup (dir (1 ∷ 2 ∷ []) zero_contents entries) before).cgcur.chain,
      ))
    × ((photocgroup (dir (1 ∷ 2 ∷ []) zero_contents entries) before).cgcur.cgcursize
        ≡ sizes (photocgroup (dir (1 ∷ 2 ∷ []) zero_contents entries) before).cgcur.chain)
    × ((photocgroup (dir (1 ∷ 2 ∷ []) zero_contents entries) before).cgcur.cgcurprocs
        ≡ nprocs_of (photocgroup (dir (1 ∷ 2 ∷ []) zero_contents entries) before).cgcur.chain)
    × ((photocgroup (dir (1 ∷ 2 ∷ []) zero_contents entries) before).cgcur.cgcurnum
        ≡ length (photocgroup (dir (1 ∷ 2 ∷ []) zero_contents entries) before).cgcur.chain)
sample-deviations_example =
    sample-deviations 0 0 (1 ∷ 2 ∷ []) zero_contents entries before before-HashesDiffer

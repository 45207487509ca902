-- ===== src/Cgroups/Walk/Tests.antt =====
-- A walk over a small tree: `/` with one process, `/a` with two, `/a/c` with one, a directory of
-- `/a` that is gone, and `/d` with none.
use atop.Prelude.{length, ◌≡◌, refl, [], ◌∷◌, Option, none, some, get_elem?}
use atop.Prelude.Int.{ℤ, pos, minus_one, ◌+ℤ◌}
use atop.Cgroups.{Cgchainer}
use atop.Cgroups.Hash.{weigh, hashcalc, char_times}
use atop.Cgroups.Walk.{
  Contents, Dir, gone, dir, no_entries, file, subdir, fresh, rounded, starts_with_dot, new_chainer,
  add_chainer, put_below, store_below, walkcgroup,
}
use atop.Cgroups.Walk.Expected.{total, groups, extend, walkcgroup-groups}
use atop.Cgroups.Walk.Tree.{IsCounted}
use atop.Cgroups.Walk.Preorder.{IsPreorder, directories, walkcgroup-IsPreorder}
use atop.Cgroups.Walk.Gone.{pids, gone_dirs, walkcgroup-pids}

abbrev pub zero_contents : Contents
zero_contents = record {
  conf = record {
    cpuweight = pos 100;
    cpumax = minus_one;
    memmax = minus_one;
    swpmax = minus_one;
    dskweight = pos 100;
  };
  cpu = record { utime = pos 5; stime = pos 6; somepres = pos 0; fullpres = pos 0 };
  mem = record {
    current = pos 9;
    anon = pos 1;
    file = pos 2;
    kernel = pos 3;
    shmem = pos 4;
    somepres = pos 0;
    fullpres = pos 0;
  };
  dsk = record {
    rbytes = pos 7;
    wbytes = pos 8;
    rios = pos 1;
    wios = pos 1;
    somepres = pos 0;
    fullpres = pos 0;
  };
}

abbrev pub small : Dir
small = dir (1 ∷ []) zero_contents (
    file (b'x' ∷ []) (
      subdir (b'a' ∷ [])
        (dir (10 ∷ 11 ∷ []) zero_contents (
          subdir (b'b' ∷ []) gone
            (subdir (b'c' ∷ []) (dir (12 ∷ []) zero_contents no_entries) no_entries)))
        (subdir (b'd' ∷ []) (dir [] zero_contents no_entries) no_entries)))

abbrev ap_parentseq : Option Cgchainer → Option ℤ
ap_parentseq none = none
ap_parentseq (some cc) = some cc.cstat.gen.parentseq

program : Unit {0}
unfolding ◌+ℤ◌ weigh hashcalc char_times rounded starts_with_dot new_chainer add_chainer put_below
    store_below walkcgroup
program = tt

-- Three of the four processes: the directory that is gone counts for -1.
small_returns : (walkcgroup (b'.' ∷ []) small minus_one (pos 0) 0 0 fresh).1 ≡ pos 3
unfolding program
small_returns = refl

-- `/a/c` is the third group; its parent is the second.
small_parents :
    ap_parentseq (get_elem? (walkcgroup (b'.' ∷ []) small minus_one (pos 0) 0 0 fresh).0.chain 2)
    ≡ some (pos 1)
unfolding program
small_parents = refl

walkcgroup-IsPreorder_example :
    IsCounted (walkcgroup (b'.' ∷ []) small minus_one (pos 0) 0 0 fresh).0
    × IsPreorder (walkcgroup (b'.' ∷ []) small minus_one (pos 0) 0 0 fresh).0.chain
    × (length (walkcgroup (b'.' ∷ []) small minus_one (pos 0) 0 0 fresh).0.chain
        ≡ directories small)
walkcgroup-IsPreorder_example = walkcgroup-IsPreorder small

walkcgroup-groups_example :
    walkcgroup (b'.' ∷ []) small minus_one (pos 0) 0 0 fresh
    ≡ (extend fresh (groups (b'.' ∷ []) small minus_one (pos 0) 0 0 0), total small)
walkcgroup-groups_example = walkcgroup-groups small (b'.' ∷ []) minus_one (pos 0) 0 0 fresh

walkcgroup-pids_example :
    (walkcgroup (b'.' ∷ []) small minus_one (pos 0) 0 0 fresh).1 +ℤ pos 1 ≡ pos 4
unfolding pids gone_dirs starts_with_dot
walkcgroup-pids_example = walkcgroup-pids small (b'.' ∷ []) minus_one (pos 0) 0 0 fresh

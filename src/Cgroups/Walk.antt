-- ===== src/Cgroups/Walk.antt =====
-- cgroups.c: `walkcgroup`, the walk over the tree of groups.
pub mod Expected
pub mod Tree
pub mod Gone
pub mod Preorder
pub mod Tests
use atop.Prelude.{
  ℕ, zero, suc, ◌+◌, ◌*◌, ◌/◌, ◌%◌, Bool, true, false, List, [], ◌∷◌, ◌++◌, Option, none, some,
  length, get_elem?, set, ◌==◌, if◌then◌else◌,
}
use atop.Prelude.Int.{ℤ, pos, negsuc, minus_one, ◌+ℤ◌}
use atop.Cgroups.{Cggen, Cgconf, Cgcpu, Cgmem, Cgdsk, Cstat, Cgchainer}
use atop.Cgroups.Hash.{hashcalc}

-- What `getconfig` and `getmetrics` leave in the `cstat` of a directory.
pub record Contents : Type 0 where
  pub conf : Cgconf
  pub cpu : Cgcpu
  pub mem : Cgmem
  pub dsk : Cgdsk

-- A directory as the walk meets it: the pids of `cgroup.procs`, the other files, and the entries
-- that `readdir` returns, in order. A directory may be gone before `chdir`.
mutual
  pub data Dir : Type 0 where
    gone : Dir
    dir : List ℕ → Contents → Entries → Dir

  pub data Entries : Type 0 where
    no_entries : Entries
    file : List ℕ → Entries → Entries
    subdir : List ℕ → Dir → Entries → Entries

-- The current chain and the variables `cgcursize`, `cgcurnum`, `cgcurprocs`, `cgcursequence`.
pub record Current : Type 0 where
  pub chain : List Cgchainer
  pub cgcursize : ℕ
  pub cgcurnum : ℕ
  pub cgcurprocs : ℕ
  pub cgcursequence : ℕ

-- The variables as `photocgroup` resets them before the walk.
abbrev pub fresh : Current
fresh = record { chain = []; cgcursize = 0; cgcurnum = 0; cgcurprocs = 0; cgcursequence = 0 }

abbrev pub sizeof_cstat : ℕ
sizeof_cstat = 432

-- `cstatlen`, rounded up to a multiple of 64 bits.
unfoldable pub rounded : ℕ → ℕ
rounded len = if len % 8 == 0 then len else (len / 8 + 1) * 8

unfoldable pub starts_with_dot : List ℕ → Bool
starts_with_dot [] = false
starts_with_dot (c ∷ name) = c == b'.'

-- The `cgchainer` that the walk fills before it walks the subdirectories.
unfoldable pub new_chainer : List ℕ → List ℕ → Contents → ℤ → ℤ → ℕ → ℕ → ℕ → Cgchainer
new_chainer dirname procs c parentseq upperhash upperlen depth sequence =
    let name = if starts_with_dot dirname then [] else dirname in
    record {
      cstat = record {
        gen = record {
          structlen = rounded (sizeof_cstat + length dirname + 1);
          sequence = sequence;
          parentseq = parentseq;
          depth = depth;
          nprocs = length procs;
          procsbelow = pos 0;
          namelen = length name;
          fullnamelen = upperlen + length name;
          namehash = hashcalc name upperhash upperlen;
        };
        conf = c.conf;
        cpu = c.cpu;
        mem = c.mem;
        dsk = c.dsk;
        cgname = name;
      };
      proclist = procs;
      vlinemask = 0;
      stub = 0;
    }

-- The state once the `cgchainer` is in the chain.
unfoldable pub add_chainer : List ℕ → Cgchainer → Current → Current
add_chainer dirname cc s = record {
  chain = s.chain ++ (cc ∷ []);
  cgcursize = s.cgcursize + cc.cstat.gen.structlen;
  cgcurnum = s.cgcurnum + 1;
  cgcurprocs = s.cgcurprocs + cc.cstat.gen.nprocs;
  cgcursequence = s.cgcursequence + 1;
}

abbrev pub with_below : ℤ → Cgchainer → Cgchainer
with_below n cc = record cc {
  cstat = record cc.cstat { gen = record cc.cstat.gen { procsbelow = n } };
}

-- `ccp->cstat->gen.procsbelow = n` for the element at position `at` of the chain.
unfoldable pub put_below : ℕ → ℤ → List Cgchainer → List Cgchainer
put_below at n chain = elim (get_elem? chain at) [
  | none ↦ chain
  | some cc ↦ set chain at (with_below n cc)
]

unfoldable pub store_below : ℕ → ℤ → Current → Current
store_below at n s = record s { chain = put_below at n s.chain }

-- `walkcgroup` returns the state and the number of processes. The number is -1 when `chdir` fails;
-- the type is unsigned long, but what is added up there is stored in an `int`, where it is again
-- the sum of signed numbers.
unfoldable mutual
  pub walkcgroup : List ℕ → Dir → ℤ → ℤ → ℕ → ℕ → Current → Current × ℤ
  walkcgroup dirname gone parentseq upperhash upperlen depth s = (s, minus_one)
  walkcgroup dirname (dir procs c entries) parentseq upperhash upperlen depth s =
      let cc = new_chainer dirname procs c parentseq upperhash upperlen depth s.cgcursequence in
      let walked = walk_entries entries cc.cstat.gen (add_chainer dirname cc s) in
      (store_below (length s.chain) walked.1 walked.0, walked.1 +ℤ pos (length procs))

  -- The loop over the entries: the state and `procsbelow`.
  pub walk_entries : Entries → Cggen → Current → Current × ℤ
  walk_entries no_entries g s = (s, pos 0)
  walk_entries (file name rest) g s = walk_entries rest g s
  walk_entries (subdir name d rest) g s =
      let skipped = walk_entries rest g s in
      let here = walkcgroup name d (pos g.sequence) g.namehash g.fullnamelen (g.depth + 1) s in
      let there = walk_entries rest g here.0 in
      if starts_with_dot name then skipped else (there.0, here.1 +ℤ there.1)

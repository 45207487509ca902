-- ===== src/Cgroups/Deviate.antt =====
-- cgroups.c: `cgcalcdeviate`, the deviations of the groups from the previous sample.
pub mod Laws
mod Tests
use atop.Prelude.{ℕ, Bool, true, false, List, [], ◌∷◌, Option, none, some, if◌then◌else◌}
use atop.Prelude.Int.{ℤ, minus_one, ◌-ℤ◌, eqb_ℤ}
use atop.Cgroups.{Cggen, Cgconf, Cgcpu, Cgmem, Cgdsk, Cstat, Cgchainer}
use atop.Cgroups.Hash.{Table, empty_table, add_chain, hashfind}

-- A counter that is defined now: the difference.
unfoldable pub defined_diff : ℤ → ℤ → ℤ
defined_diff now before = if eqb_ℤ now minus_one then now else now -ℤ before

unfoldable pub cpu_diff : Cgcpu → Cgcpu → Cgcpu
cpu_diff d p = record {
  utime = defined_diff d.utime p.utime;
  stime = defined_diff d.stime p.stime;
  somepres = defined_diff d.somepres p.somepres;
  fullpres = defined_diff d.fullpres p.fullpres;
}

unfoldable pub mem_diff : Cgmem → Cgmem → Cgmem
mem_diff d p = record d {
  somepres = defined_diff d.somepres p.somepres;
  fullpres = defined_diff d.fullpres p.fullpres;
}

-- The four disk counters are defined together.
unfoldable pub dsk_diff : Cgdsk → Cgdsk → Cgdsk
dsk_diff d p =
    let undefined = eqb_ℤ d.rbytes minus_one in
    record {
      rbytes = if undefined then d.rbytes else d.rbytes -ℤ p.rbytes;
      wbytes = if undefined then d.wbytes else d.wbytes -ℤ p.wbytes;
      rios = if undefined then d.rios else d.rios -ℤ p.rios;
      wios = if undefined then d.wios else d.wios -ℤ p.wios;
      somepres = defined_diff d.somepres p.somepres;
      fullpres = defined_diff d.fullpres p.fullpres;
    }

-- The deviations of `dp` with respect to `pp`.
unfoldable pub group_diff : Cgchainer → Cgchainer → Cgchainer
group_diff dp pp = record dp {
  cstat = record dp.cstat {
    cpu = cpu_diff dp.cstat.cpu pp.cstat.cpu;
    mem = mem_diff dp.cstat.mem pp.cstat.mem;
    dsk = dsk_diff dp.cstat.dsk pp.cstat.dsk;
  };
}

-- A cursor is the chain from the element that it points to on; NULL is the empty chain.
abbrev pub Cursor : Type 0
Cursor = List Cgchainer

abbrev pub cgrewind : Cursor
cgrewind = []

-- `cgnext`: the cursor moved on. The element that is returned is the first of it, if any. From NULL
-- it starts at the first element again.
unfoldable pub cgnext : List Cgchainer → Cursor → Cursor
cgnext first [] = first
cgnext first (cp ∷ rest) = rest

abbrev pub same_hash : Cgchainer → Cgchainer → Bool
same_hash dp pp = eqb_ℤ dp.cstat.gen.namehash pp.cstat.gen.namehash

-- The search when the chains do not run in parallel any more.
unfoldable pub deviate_found : Cgchainer → Option Cgchainer → Cgchainer
deviate_found dp none = dp
deviate_found dp (some pp) = group_diff dp pp

unfoldable pub deviate_by_hash : Table → Cgchainer → Cgchainer
deviate_by_hash t dp = deviate_found dp (hashfind t dp.cstat.gen.namehash)

-- The loop once `insync` is 0.
unfoldable pub out_of_sync : Table → List Cgchainer → List Cgchainer
out_of_sync t [] = []
out_of_sync t (dp ∷ rest) = deviate_by_hash t dp ∷ out_of_sync t rest

-- The loop while `insync` is 1: the chain `first` of the previous sample, the cursor in it and its
-- hash lists, which are still empty.
unfoldable pub in_sync : List Cgchainer → List Cgchainer → Cursor → Table → List Cgchainer
in_sync first [] cursor t = []
in_sync first (dp ∷ rest) cursor t =
    let cursor' = cgnext first cursor in
    let further = in_sync first rest cursor' t in
    let lost = out_of_sync (add_chain first t) (dp ∷ rest) in
    elim cursor' [
      | [] ↦ lost
      | pp ∷ later ↦ if same_hash dp pp then group_diff dp pp ∷ further else lost
    ]

unfoldable pub cgcalcdeviate : List Cgchainer → List Cgchainer → List Cgchainer
cgcalcdeviate first devs = in_sync first devs cgrewind empty_table

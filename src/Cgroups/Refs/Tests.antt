-- ===== src/Cgroups/Refs/Tests.antt =====
-- Two processes, a thread and the groups that list them.
use atop.Prelude.{ℕ, ◌≡◌, refl, Bool, true, false, List, [], ◌∷◌, Option, some, none}
use atop.Prelude.Int.{ℤ, pos, minus_one}
use atop.Task.{Tstat, zero_tstat}
use atop.Deviate.Tasks.{Devtstat}
use atop.Deviate.Tasks.Run.{new_devtstat}
use atop.Cgroups.{Cgchainer}
use atop.Cgroups.Hash.{weigh, hashcalc}
use atop.Cgroups.Walk.Tree.{IsTree}
use atop.Cgroups.Walk.Tests.{zero_contents}
use atop.Cgroups.Refs.{
  pid_slot, no_pids, add_pid, add_pids, add_groups, find_pid, fill_ref, fill_refs, cgfillref,
}
use atop.Cgroups.Refs.Laws.{with_refs, cgfillref-with_refs}

abbrev task : ℕ → Bool → Tstat
task pid isproc = record zero_tstat { gen = record zero_tstat.gen { pid = pid; isproc = isproc } }

abbrev group : ℕ → ℤ → ℕ → List ℕ → ℕ → Cgchainer
group sequence parentseq depth pids nprocs = record {
  cstat = record {
    gen = record {
      structlen = 440;
      sequence = sequence;
      parentseq = parentseq;
      depth = depth;
      nprocs = nprocs;
      procsbelow = pos 0;
      namelen = 0;
      fullnamelen = 0;
      namehash = pos 0;
    };
    conf = zero_contents.conf;
    cpu = zero_contents.cpu;
    mem = zero_contents.mem;
    dsk = zero_contents.dsk;
    cgname = [];
  };
  proclist = pids;
  vlinemask = 0;
  stub = 0;
}

-- 7 and 519 share a hash list.
abbrev groups : List Cgchainer
groups = group 0 minus_one 0 (7 ∷ []) 1 ∷ group 1 (pos 0) 1 (9 ∷ 519 ∷ []) 2 ∷ []

abbrev sample : Devtstat
sample = new_devtstat (task 519 true ∷ task 9 false ∷ task 8 true ∷ task 7 true ∷ [])

abbrev indices : Option Devtstat → List ℤ
indices none = []
indices (some d) = refs_of d.taskall
  where
    refs_of : List Tstat → List ℤ
    refs_of [] = []
    refs_of (t ∷ rest) = t.gen.cgroupix ∷ refs_of rest

program : Unit {0}
unfolding pid_slot no_pids add_pid add_pids add_groups find_pid fill_ref fill_refs cgfillref
program = tt

four_indices : indices (cgfillref sample groups 3) ≡ pos 1 ∷ minus_one ∷ minus_one ∷ pos 0 ∷ []
unfolding program
four_indices = refl

-- With too few elements the list of pids overflows.
too_few : cgfillref sample groups 2 ≡ none
unfolding program
too_few = refl

groups-IsTree : IsTree groups
unfolding hashcalc weigh
groups-IsTree = (
  ((refl, refl, refl), refl, refl, refl, refl, refl),
  (((refl, refl, refl), (0, group 0 minus_one 0 (7 ∷ []) 1, refl, (refl, refl, refl, refl))), tt),
)

cgfillref-with_refs_example :
    cgfillref sample groups 3 ≡ some (record sample { taskall = with_refs groups 4 sample.taskall })
cgfillref-with_refs_example = cgfillref-with_refs sample groups groups-IsTree

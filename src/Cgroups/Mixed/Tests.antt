-- ===== src/Cgroups/Mixed/Tests.antt =====
-- Three groups on the levels with processes; `qsort` is an insertion sort.
use atop.Prelude.{
  ℕ, ◌≡◌, refl, true, false, List, [], ◌∷◌, Option, none, some, length, if◌then◌else◌,
}
use atop.Prelude.Int.{ℤ, pos, minus_one, ltb_ℤ, ◌+ℤ◌}
use atop.Task.{Tstat, zero_gen, zero_cpu, zero_mem, zero_tstat}
use atop.Cgroups.{Cgchainer}
use atop.Cgroups.Sort.{Line, clear_bit}
use atop.Cgroups.Mixed.{
  Cglinesel, no_tasks, add_task, add_tasks, find_task, Choice, cgroupfilter, compselcpu, compselmem,
  compseldsk, mark_line, find_line, pass_stub, add_processes, sort_processes, entries, merge_groups,
  mergecgrouplist,
}

-- A group with its depth and its pids.
abbrev group : ℕ → List ℕ → Cgchainer
group depth pids = record {
  cstat = record {
    gen = record {
      structlen = 440;
      sequence = 0;
      parentseq = pos 0;
      depth = depth;
      nprocs = length pids;
      procsbelow = pos 0;
      namelen = 0;
      fullnamelen = 0;
      namehash = pos 0;
    };
    conf = record {
      cpuweight = pos 100;
      cpumax = minus_one;
      memmax = minus_one;
      swpmax = minus_one;
      dskweight = pos 100;
    };
    cpu = record { utime = pos 5; stime = pos 6; somepres = pos 0; fullpres = pos 0 };
    mem = record {
      current = pos 9;
      anon = pos 1;
      file = pos 2;
      kernel = pos 3;
      shmem = pos 4;
      somepres = pos 0;
      fullpres = pos 0;
    };
    dsk = record {
      rbytes = pos 7;
      wbytes = pos 8;
      rios = pos 1;
      wios = pos 1;
      somepres = pos 0;
      fullpres = pos 0;
    };
    cgname = [];
  };
  proclist = pids;
  vlinemask = 0;
  stub = 0;
}

abbrev task : ℕ → ℤ → Tstat
task pid ticks = record zero_tstat {
  gen = record zero_gen { pid = pid; isproc = true };
  cpu = record zero_cpu { utime = ticks };
  mem = record zero_mem { vmem = pos 100 };
}

abbrev line : ℕ → ℕ → ℕ → Line
line at stub vlinemask = record { at = at; stub = stub; vlinemask = vlinemask }

abbrev entry : ℕ → Option Tstat → Cglinesel
entry at t = record { cgp = at; tsp = t }

abbrev insert : (Tstat → Tstat → ℤ) → Tstat → List Tstat → List Tstat
insert cmp t [] = t ∷ []
insert cmp t (u ∷ rest) = if ltb_ℤ (pos 0) (cmp t u) then u ∷ insert cmp t rest else t ∷ u ∷ rest

abbrev insertion : (Tstat → Tstat → ℤ) → List Tstat → List Tstat
insertion cmp [] = []
insertion cmp (t ∷ rest) = insert cmp t (insertion cmp rest)

abbrev groups : List Cgchainer
groups = group 0 [] ∷ group 1 (7 ∷ 8 ∷ []) ∷ group 1 [] ∷ []

abbrev lines : List Line
lines = line 0 1 0 ∷ line 1 0 1 ∷ line 2 1 0 ∷ []

abbrev tasks : List Tstat
tasks = task 7 (pos 3) ∷ task 8 (pos 5) ∷ []

-- Also the groups without processes, and only those with processes.
abbrev all_groups : Choice
all_groups = record { deviatonly = false; newdepth = 9; showresource = b'C' }

abbrev active_groups : Choice
active_groups = record { deviatonly = true; newdepth = 9; showresource = b'C' }

program : Unit {0}
unfolding ◌+ℤ◌ clear_bit no_tasks add_task add_tasks find_task cgroupfilter compselcpu compselmem
    compseldsk mark_line find_line pass_stub add_processes sort_processes entries merge_groups
    mergecgrouplist
program = tt

all_listed :
    mergecgrouplist insertion all_groups groups lines tasks
    ≡ some (
      lines,
      entry 2 none
          ∷ entry 1 (some (task 7 (pos 3)))
          ∷ entry 1 (some (task 8 (pos 5)))
          ∷ entry 1 none
          ∷ entry 0 none
          ∷ [],
    )
unfolding program
all_listed = refl

-- The last group of the level is hidden: the one before it gets the corner.
stub_passed :
    mergecgrouplist insertion active_groups
      (group 0 (1 ∷ []) ∷ group 1 (7 ∷ 8 ∷ []) ∷ group 1 [] ∷ [])
      lines
      tasks
    ≡ some (
      line 0 1 0 ∷ line 1 7 1 ∷ line 2 1 0 ∷ [],
      entry 1 (some (task 7 (pos 3)))
          ∷ entry 1 (some (task 8 (pos 5)))
          ∷ entry 1 none
          ∷ entry 0 none
          ∷ [],
    )
unfolding program
stub_passed = refl

-- A process that was moved while the directories were read is in the list of two groups: its second
-- entry is written behind the list.
moved_process :
    mergecgrouplist insertion all_groups
      (group 0 (7 ∷ []) ∷ group 1 (7 ∷ []) ∷ [])
      (line 0 1 0 ∷ line 1 1 0 ∷ [])
      (task 7 (pos 3) ∷ [])
    ≡ none
unfolding program
moved_process = refl

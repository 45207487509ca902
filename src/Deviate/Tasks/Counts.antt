-- ===== src/Deviate/Tasks/Counts.antt =====
-- The counters of `struct devtstat` while the present tasks are handled.
use atop.Prelude.{
  ℕ, suc, ◌+◌, ◌<◌, ◌≡◌, refl, ◌∙◌, ◌⊎◌, inl, inr, Bool, true, false, not, ◌&&◌, some, arith,
  Bool-cases, length, get_elem?, set, to_nat, count_to, length-set, get_elem?-total,
  get_elem?-set_self, get_elem?-set_ne, count_to-set_next, count_to-set_before,
}
use atop.Prelude.Int.{ℤ}
use atop.Task.{Tstat}
use atop.Deviate.Calc.{calcdiff, calc_static, calc_active, calc_gen}
use atop.Deviate.Tasks.{Loop, count_process, count_active, write_diff, set_inactive}

abbrev pub is_process : Tstat → Bool
is_process t = t.gen.isproc

abbrev pub is_active : Tstat → Bool
is_active t = not t.gen.wasinactive

abbrev pub is_active_process : Tstat → Bool
is_active_process t = t.gen.isproc && not t.gen.wasinactive

-- `calcdiff` copies the identification, so the two flags of the current sample.
pub calcdiff-flags :
    (devstat cur pre : Tstat) (newtask : Bool) (totusedcpu : ℤ)
    → let dev = calcdiff devstat cur pre newtask totusedcpu in
      (dev.gen.isproc ≡ cur.gen.isproc) × (dev.gen.wasinactive ≡ cur.gen.wasinactive)
unfolding calcdiff calc_static calc_active calc_gen
calcdiff-flags devstat cur pre newtask totusedcpu = (ground arith, ground arith)

-- After `c` tasks: the array has its size `n`, and the counters count its first `c` entries.
pub record IsCounted (n c : ℕ) (s : Loop) : Type 0 where
  pub size : length s.dev.taskall ≡ n
  pub total : s.dev.ntaskall ≡ n
  pub processes : s.dev.nprocall ≡ count_to is_process c s.dev.taskall
  pub active_processes : s.dev.nprocactive ≡ count_to is_active_process c s.dev.taskall
  pub active_tasks : s.dev.ntaskactive ≡ count_to is_active c s.dev.taskall

-- `thisproc` points to a process that has been handled.
abbrev pub AtProcess : ℕ → Loop → Type 0
AtProcess c s =
    (p : Tstat) × (get_elem? s.dev.taskall s.thisproc ≡ some p)
    × (p.gen.isproc ≡ true)
    × (s.thisproc < c)

-- The entry `c` is counted already and not yet written: the process flag, the activity.
pub record IsPending (n c : ℕ) (isproc active : Bool) (s : Loop) : Type 0 where
  pub size : length s.dev.taskall ≡ n
  pub total : s.dev.ntaskall ≡ n
  pub processes : s.dev.nprocall ≡ count_to is_process c s.dev.taskall + to_nat isproc
  pub active_processes :
      s.dev.nprocactive ≡ count_to is_active_process c s.dev.taskall + to_nat (isproc && active)
  pub active_tasks : s.dev.ntaskactive ≡ count_to is_active c s.dev.taskall + to_nat active

abbrev pub ThisProcess : ℕ → Bool → Loop → Type 0
ThisProcess c isproc s = ((isproc ≡ true) × (s.thisproc ≡ c)) ⊎ ((isproc ≡ false) × AtProcess c s)

-- Counting the process, if the task is one.
pub count_process-IsPending :
    (n c : ℕ) (cur : Tstat) (s : Loop)
    → IsCounted n c s
    → ((cur.gen.isproc ≡ true) ⊎ AtProcess c s)
    → IsPending n c cur.gen.isproc false (count_process c cur s)
      × ThisProcess c cur.gen.isproc (count_process c cur s)
      × ((count_process c cur s).db ≡ s.db)
unfolding count_process
count_process-IsPending n c cur s k here = elim (Bool-cases cur.gen.isproc) [
  | inl e ↦ (ground arith, inl (e, ground arith), ground arith)
  | inr e ↦
      let still : count_process c cur s ≡ s = ground arith in
      rw still (ground arith, inr (e, at_process e), refl)
]
  where
    at_process : cur.gen.isproc ≡ false → AtProcess c s
    at_process e = elim here [ inl e' ↦ ground arith | inr at ↦ at ]

-- The state after a thread has made the inactive process `p` active.
abbrev woken : Tstat → Loop → Loop
woken p s = record s {
  dev = record s.dev {
    taskall = set s.dev.taskall s.thisproc (set_inactive false p);
    ntaskactive = s.dev.ntaskactive + 2;
    nprocactive = s.dev.nprocactive + 1;
  };
}

woken-IsPending :
    (n c : ℕ) (p : Tstat) (s : Loop)
    → c < n
    → IsPending n c false false s
    → get_elem? s.dev.taskall s.thisproc ≡ some p
    → p.gen.isproc ≡ true
    → p.gen.wasinactive ≡ true
    → s.thisproc < c
    → IsPending n c false true (woken p s)
woken-IsPending n c p s room k e isproc idle before =
    let xs = s.dev.taskall in
    let v = set_inactive false p in
    record {
      size = length-set xs s.thisproc v ∙ k.size;
      total = k.total;
      processes = ground (arith, count_to-set_before is_process c s.thisproc xs p v before e);
      active_processes =
          ground (arith, count_to-set_before is_active_process c s.thisproc xs p v before e);
      active_tasks = ground (arith, count_to-set_before is_active c s.thisproc xs p v before e);
    }

-- Counting the activity. A thread that finds its process inactive makes that active.
pub count_active-IsPending :
    (n c : ℕ) (cur : Tstat) (s : Loop)
    → c < n
    → IsPending n c cur.gen.isproc false s
    → ThisProcess c cur.gen.isproc s
    → (s' : Loop) × (count_active cur s ≡ some s')
      × IsPending n c cur.gen.isproc true s'
      × ThisProcess c cur.gen.isproc s'
      × (s'.db ≡ s.db)
unfolding count_active
count_active-IsPending n c cur s room k (inl (e, here)) = (
  record s {
    dev = record s.dev { ntaskactive = s.dev.ntaskactive + 1; nprocactive = s.dev.nprocactive + 1 };
  },
  ground arith,
  ground arith,
  inl (e, here),
  refl,
)
count_active-IsPending n c cur s room k (inr (e, at)) =
    let (p, ep, isproc, before) = at in
    elim (Bool-cases p.gen.wasinactive) [
      | inr busy ↦ (
        record s { dev = record s.dev { ntaskactive = s.dev.ntaskactive + 1 } },
        ground arith,
        ground arith,
        inr (e, at),
        refl,
      )
      | inl idle ↦ (
        woken p s,
        ground arith,
        rw e (woken-IsPending n c p s room (rw e at k) ep isproc idle before),
        inr (
          e,
          (
            set_inactive false p,
            get_elem?-set_self s.dev.taskall s.thisproc (set_inactive false p)
                (omega (arith, k.size)),
            isproc,
            before,
          ),
        ),
        refl,
      )
    ]

-- Writing the entry settles what is pending.
pub write_diff-IsCounted :
    (n c : ℕ) (cur pre : Tstat) (newtask active : Bool) (totusedcpu : ℤ) (s : Loop)
    → c < n
    → IsPending n c cur.gen.isproc active s
    → ThisProcess c cur.gen.isproc s
    → cur.gen.wasinactive ≡ not active
    → (s' : Loop) × (write_diff c cur pre newtask totusedcpu s ≡ some s')
      × IsCounted n (suc c) s'
      × AtProcess (suc c) s'
      × (s'.db ≡ s.db)
unfolding write_diff
write_diff-IsCounted n c cur pre newtask active totusedcpu s room k this flag =
    let xs = s.dev.taskall in
    let (old, e) = get_elem?-total xs c (omega (arith, k.size)) in
    let v = calcdiff old cur pre newtask totusedcpu in
    let flags = calcdiff-flags old cur pre newtask totusedcpu in
    let inside : c < length xs = omega (arith, k.size) in
    (
      record s { dev = record s.dev { taskall = set xs c v } },
      rw (e, write_diff),
      record {
        size = length-set xs c v ∙ k.size;
        total = k.total;
        processes = ground (arith, count_to-set_next is_process c xs v inside, flags.0);
        active_processes =
            ground (arith, count_to-set_next is_active_process c xs v inside, flags.0, flags.1);
        active_tasks = ground (arith, count_to-set_next is_active c xs v inside, flags.1);
      },
      written this old e,
      refl,
    )
  where
    written :
        ThisProcess c cur.gen.isproc s
        → (old : Tstat) → get_elem? s.dev.taskall c ≡ some old
        → AtProcess (suc c) (record s {
          dev = record s.dev {
            taskall = set s.dev.taskall c (calcdiff old cur pre newtask totusedcpu);
          };
        })
    written (inl (isproc, here)) old e =
        let v = calcdiff old cur pre newtask totusedcpu in
        (
          v,
          rw here (get_elem?-set_self s.dev.taskall c v (omega (arith, k.size))),
          (calcdiff-flags old cur pre newtask totusedcpu).0 ∙ isproc,
          omega arith,
        )
    written (inr (isproc, (p, ep, at, before))) old e =
        let v = calcdiff old cur pre newtask totusedcpu in
        (p, get_elem?-set_ne s.dev.taskall c s.thisproc v (omega arith) ∙ ep, at, omega arith)

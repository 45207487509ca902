-- ===== src/Cgroups/Refs.antt =====
-- cgroups.c: `cgfillref`, which gives every process the index of its group.
pub mod Laws
mod Tests
use atop.Prelude.{
  ℕ, zero, suc, ◌+◌, ◌%◌, Bool, true, false, List, [], ◌∷◌, Option, none, some, ltb, ◌==◌,
  if◌then◌else◌,
}
use atop.Prelude.Int.{ℤ, pos, minus_one}
use atop.Prelude.Partial.{◌>>=◌}
use atop.Task.{Gen, Tstat}
use atop.Deviate.Tasks.{Devtstat}
use atop.Cgroups.{Cgchainer}

-- `pid & PIDMASK`
unfoldable pub pid_slot : ℕ → ℕ
pid_slot pid = pid % 512

-- The chains of `struct pid2cgchainer`: pids and the index of the group.
abbrev pub PidHash : Type 0
PidHash = ℕ → List (ℕ × ℕ)

unfoldable pub no_pids : PidHash
no_pids i = []

unfoldable pub add_pid : ℕ → ℕ → PidHash → PidHash
add_pid pid ic h i = if i == pid_slot pid then (pid, ic) ∷ h i else h i

-- The loop over the pids of group `ic`. `used` elements of `pidlist` are in use; there are `npids`,
-- and a further one is `none`.
unfoldable pub add_pids : ℕ → ℕ → List ℕ → ℕ → PidHash → Option (ℕ × PidHash)
add_pids npids ic [] used h = some (used, h)
add_pids npids ic (pid ∷ rest) used h =
    let further = add_pids npids ic rest (used + 1) (add_pid pid ic h) in
    if ltb used npids then further else none

-- The loop over the groups.
unfoldable pub add_groups : ℕ → List Cgchainer → ℕ → ℕ → PidHash → Option PidHash
add_groups npids [] ic used h = some h
add_groups npids (cp ∷ rest) ic used h =
    add_pids npids ic cp.proclist used h >>= λ (used', h'). add_groups npids rest (ic + 1) used' h'

unfoldable pub find_pid : ℕ → List (ℕ × ℕ) → Option ℕ
find_pid pid [] = none
find_pid pid ((p, ic) ∷ rest) = let later = find_pid pid rest in if p == pid then some ic else later

abbrev pub index_of : Option ℕ → ℤ
index_of none = minus_one
index_of (some ic) = pos ic

-- `tp->gen.cgroupix`, for one task. Threads are skipped.
unfoldable pub fill_ref : PidHash → Tstat → Tstat
fill_ref h t = record t {
  gen = record t.gen {
    cgroupix =
        if t.gen.isproc then index_of (find_pid t.gen.pid (h (pid_slot t.gen.pid))) else minus_one;
  };
}

-- The loop over the first `ntaskall` tasks.
unfoldable pub fill_refs : PidHash → ℕ → List Tstat → List Tstat
fill_refs h zero tasks = tasks
fill_refs h (suc n) [] = []
fill_refs h (suc n) (t ∷ tasks) = fill_ref h t ∷ fill_refs h n tasks

unfoldable pub cgfillref : Devtstat → List Cgchainer → ℕ → Option Devtstat
cgfillref dev chain npids = do
  h ← add_groups npids chain 0 0 no_pids
  some (record dev { taskall = fill_refs h dev.ntaskall dev.taskall })

-- ===== src/ProcDb.antt =====
-- procdbase.c: the process database. It holds the last known statistics of every task, chained by
-- hash of its pid (`phash`), and the RESIDUE list of the tasks that were not asked for since the
-- last `pdb_makeresidue`.
-- A `struct pinfo` stands at an address of the heap; an address that is not allocated holds `none`.
-- A hash chain (linked by `phnext`) and the doubly-linked RESIDUE list (from the anchor on, by
-- `prnext`) are the lists of the addresses that they link, so `prnext` is not NULL exactly at the
-- addresses of `residue`. `fresh` bounds the addresses that `calloc` has returned.
-- A result `none` is an invalid access: a NULL pointer or freed memory.
pub mod Inv
pub mod Lookup
pub mod Mark
pub mod Sweep
pub mod Reuse
pub mod Refresh
pub mod Empty
mod Tests
use atop.Prelude.{
  ℕ, zero, suc, ◌+◌, ◌-◌, ◌%◌, ◌^◌, Bool, true, false, ◌&&◌, ◌||◌, Option, none, some, List, [],
  ◌∷◌, ◌==◌, if◌then◌else◌, same_flag, streq, length, erase,
}
use atop.Task.{Tstat}

pub record ProcDb : Type 0 where
  pub heap : ℕ → Option Tstat
  pub phash : ℕ → List ℕ
  pub residue : List ℕ
  pub fresh : ℕ

-- `NPHASH`
abbrev pub nphash : ℕ
nphash = 256

-- `pid & (NPHASH - 1)`
abbrev pub bucket : ℕ → ℕ
bucket pid = pid % nphash

abbrev pub update {ℓ} : {A : Type ℓ} → (ℕ → A) → ℕ → A → ℕ → A
update f i v j = if i == j then v else f j

-- `int diff = a - b` is the low 32 bits of a difference of two `time_t`.
-- `!(diff > 1 || diff < -1)`
unfoldable pub is_near : ℕ → ℕ → Bool
is_near a b = let diff = (a + 2 ^ 64 - b) % 2 ^ 32 in diff == 0 || diff == 1 || diff == 2 ^ 32 - 1

-- The test for the required task, with the start time.
unfoldable pub is_task : ℕ → Bool → ℕ → Tstat → Bool
unfolding is_near
is_task pid isproc btime t =
    t.gen.pid == pid && same_flag t.gen.isproc isproc && is_near t.gen.btime btime

-- The test of `pdb_deltask`, which does not look at the start time.
unfoldable pub is_pid : ℕ → Bool → Tstat → Bool
is_pid pid isproc t = t.gen.pid == pid && same_flag t.gen.isproc isproc

-- The walk along a hash chain: the outer `none` is a fault, the inner one the end of the chain.
unfoldable pub scan : (ℕ → Option Tstat) → (Tstat → Bool) → List ℕ → Option (Option ℕ)
scan heap test [] = some none
scan heap test (a ∷ chain) =
    let rest = scan heap test chain in
    elim (heap a) [ none ↦ none | some t ↦ if test t then some (some a) else rest ]

-- `pdb_gettask`: the address stored through `pinfopp`, or `none` for the result 0.
unfoldable pub gettask : ℕ → Bool → ℕ → ProcDb → Option (Option ℕ × ProcDb)
gettask pid isproc btime db =
    elim (scan db.heap (is_task pid isproc btime) (db.phash (bucket pid))) [
      | none ↦ none
      | some none ↦ some (none, db)
      | some (some a) ↦ some (some a, record db { residue = erase a db.residue })
    ]

-- `calloc` of a `struct pinfo` with the assignment to its `tstat`: its address.
unfoldable pub alloc : Tstat → ProcDb → ℕ × ProcDb
alloc t db = (db.fresh, record db { heap = update db.heap db.fresh (some t); fresh = suc db.fresh })

-- `pinfo->tstat = t`
unfoldable pub store : ℕ → Tstat → ProcDb → Option ProcDb
store a t db = elim (db.heap a) [
  | none ↦ none
  | some _ ↦ some (record db { heap = update db.heap a (some t) })
]

-- `pdb_addtask`
unfoldable pub addtask : ℕ → ℕ → ProcDb → ProcDb
addtask pid a db = record db { phash = update db.phash (bucket pid) (a ∷ db.phash (bucket pid)) }

-- The body of `pdb_deltask` on the hash chain of the pid: an empty one is a NULL pointer. The entry
-- that is found leaves the chain and, if it is there, the RESIDUE list, and is freed.
unfoldable pub delete_in : ℕ → Bool → ProcDb → List ℕ → Option (Bool × ProcDb)
delete_in pid isproc db [] = none
delete_in pid isproc db (first ∷ others) =
    elim (scan db.heap (is_pid pid isproc) (first ∷ others)) [
      | none ↦ none
      | some none ↦ some (false, db)
      | some (some a) ↦ some (
        true,
        record db {
          phash = update db.phash (bucket pid) (erase a (first ∷ others));
          residue = erase a db.residue;
          heap = update db.heap a none;
        },
      )
    ]

-- `pdb_deltask`: the result says whether the task was found.
unfoldable pub deltask : ℕ → Bool → ProcDb → Option (Bool × ProcDb)
unfolding delete_in
deltask pid isproc db = delete_in pid isproc db (db.phash (bucket pid))

-- One chain pushed on the RESIDUE list, entry by entry.
unfoldable pub push_chain : List ℕ → List ℕ → List ℕ
push_chain [] residue = residue
push_chain (a ∷ chain) residue = push_chain chain (a ∷ residue)

-- `for (i=0; i < NPHASH; i++)`, on the rounds left.
unfoldable pub push_buckets : (ℕ → List ℕ) → ℕ → ℕ → List ℕ → List ℕ
push_buckets phash zero i residue = residue
push_buckets phash (suc n) i residue = push_buckets phash n (suc i) (push_chain (phash i) residue)

-- `pdb_makeresidue`
unfoldable pub makeresidue : ProcDb → ProcDb
unfolding push_buckets push_chain
makeresidue db = record db { residue = push_buckets db.phash nphash 0 [] }

-- `pr->prnext`: the entry behind `a`, or `none` for the anchor.
unfoldable pub next_of : ℕ → List ℕ → Option ℕ
next_of a [] = none
next_of a (x ∷ []) = none
next_of a (x ∷ y ∷ residue) = if a == x then some y else next_of a (y ∷ residue)

abbrev pub first_of_residue : List ℕ → Option ℕ
first_of_residue [] = none
first_of_residue (a ∷ _) = some a

-- The loop of `pdb_cleanresidue`. Out of fuel is `none` too.
unfoldable pub clean : ℕ → Option ℕ → ProcDb → Option ProcDb
clean zero pr db = none
clean (suc fuel) none db = some db
clean (suc fuel) (some pr) db =
    let next = next_of pr db.residue in
    elim (db.heap pr) [
      | none ↦ none
      | some t ↦ elim (deltask t.gen.pid t.gen.isproc db) [
        | none ↦ none
        | some (_, db') ↦ clean fuel next db'
      ]
    ]

-- `pdb_cleanresidue`. Every round moves on in the RESIDUE list, so its length is fuel enough.
unfoldable pub cleanresidue : ProcDb → Option ProcDb
unfolding clean
cleanresidue db = clean (suc (length db.residue)) (first_of_residue db.residue) db

-- The condition on an entry of `pdb_srchresidue`, without the start time.
unfoldable pub is_alike : Tstat → Tstat → Bool
is_alike t wanted =
    t.gen.ruid == wanted.gen.ruid
    && t.gen.rgid == wanted.gen.rgid
    && streq t.gen.name wanted.gen.name

-- The almost exact match to remember behind the entry `pr`: the first one that was found.
unfoldable pub remember : Tstat → ℕ → Tstat → Option ℕ → Option ℕ
unfolding is_alike
remember wanted pr t (some p) = some p
remember wanted pr t none =
    if is_alike t wanted
      && (t.gen.btime + 1 == wanted.gen.btime || t.gen.btime == wanted.gen.btime + 1)
    then some pr
    else none

-- The loop of `pdb_srchresidue`, with `prmin`.
unfoldable pub search_residue : (ℕ → Option Tstat) → Tstat → List ℕ → Option ℕ → Option (Option ℕ)
unfolding remember
search_residue heap wanted [] prmin = some prmin
search_residue heap wanted (pr ∷ residue) prmin = elim (heap pr) [
  | none ↦ none
  | some t ↦
      let rest = search_residue heap wanted residue (remember wanted pr t prmin) in
      if is_alike t wanted && t.gen.btime == wanted.gen.btime then some (some pr) else rest
]

-- `pdb_srchresidue`: the address stored through `pinfopp`, or `none` for the result 0.
unfoldable pub srchresidue : Tstat → ProcDb → Option (Option ℕ)
unfolding search_residue
srchresidue wanted db = search_residue db.heap wanted db.residue none

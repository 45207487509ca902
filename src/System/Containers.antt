-- ===== src/System/Containers.antt =====
-- `deviatsyst` of deviate.c on the containers of OpenVZ.
pub mod Laws
mod Tests
use atop.Prelude.{
  ℕ, zero, suc, Bool, true, false, Option, none, some, List, [], ◌∷◌, ◌==◌, if◌then◌else◌,
  get_elem?,
}
use atop.Prelude.Int.{ℤ, pos}
use atop.Prelude.Partial.{◌>>=◌}
use atop.Deviate.Count.{subcount}

-- `struct percontainer`
pub record Percontainer : Type 0 where
  pub ctid : ℕ
  pub numproc : ℕ
  pub system : ℤ
  pub user : ℤ
  pub nice : ℤ
  pub uptime : ℤ
  pub physpages : ℤ

abbrev pub zero_percontainer : Percontainer
zero_percontainer = record {
  ctid = 0;
  numproc = 0;
  system = pos 0;
  user = pos 0;
  nice = pos 0;
  uptime = pos 0;
  physpages = pos 0;
}

-- `struct contstat`
pub record Contstat : Type 0 where
  pub nrcontainer : ℕ
  pub cont : List Percontainer

unfoldable pub container_diff : Percontainer → Percontainer → Percontainer
container_diff cur pre = record {
  ctid = cur.ctid;
  numproc = cur.numproc;
  physpages = cur.physpages;
  system = subcount cur.system pre.system;
  user = subcount cur.user pre.user;
  nice = subcount cur.nice pre.nice;
  uptime = subcount cur.uptime pre.uptime;
}

-- `for (j=0; j < pre->cfs.nrcontainer; j++)`, on the rounds left, from index `j` on: the index at
-- which it stops.
unfoldable pub find_container : ℕ → ℕ → ℕ → List Percontainer → Option ℕ
find_container ctid j zero pre = some j
find_container ctid j (suc n) [] = none
find_container ctid j (suc n) (p ∷ pre) =
    let rest = find_container ctid (suc j) n pre in if ctid == p.ctid then some j else rest

-- The loop over the containers of the current sample, on the rounds left, with the index `j` of
-- the previous one: the array of the deviations, from the current index on.
unfoldable pub container_rounds :
    ℕ → Contstat → List Percontainer → List Percontainer → ℕ → Option (List Percontainer)
container_rounds zero pre cur devs j = some devs
container_rounds (suc n) pre [] devs j = none
container_rounds (suc n) pre (c ∷ cur) [] j = none
container_rounds (suc n) pre (c ∷ cur) (d ∷ devs) j = do
  p ← get_elem? pre.cont j
  j' ← if c.ctid == p.ctid then some j else find_container c.ctid 0 pre.nrcontainer pre.cont
  q ← get_elem? pre.cont j'
  devs' ← container_rounds n pre cur devs (suc j')
  some (container_diff c q ∷ devs')

-- The part on containers.
unfoldable pub deviate_containers : Contstat → Contstat → Contstat → Option Contstat
deviate_containers cur pre dev = do
  devs ← container_rounds cur.nrcontainer pre cur.cont dev.cont 0
  some (record { nrcontainer = cur.nrcontainer; cont = devs })

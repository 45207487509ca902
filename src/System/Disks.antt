-- ===== src/System/Disks.antt =====
-- `deviatsyst` of deviate.c on the disks, the md devices and the logical volumes. An array of the
-- C code is the list of all its entries, the unused ones at the end included; a name is the list
-- of its bytes, and the entry behind the last one in use has an empty name.
pub mod Changes
pub mod Laws
pub mod Totals
mod Tests
use atop.Prelude.{
  ℕ, zero, suc, Bool, true, false, Option, none, some, List, [], ◌∷◌, if◌then◌else◌, get_elem?,
  streq,
}
use atop.Prelude.Int.{ℤ, pos, eqb_ℤ, minus_one}
use atop.Prelude.Partial.{◌>>=◌}
use atop.Text.{safe_strcpy}
use atop.Deviate.Count.{subcount}

-- `struct perdsk`
pub record Perdsk : Type 0 where
  pub name : List ℕ
  pub nread : ℤ
  pub nrsect : ℤ
  pub nwrite : ℤ
  pub nwsect : ℤ
  pub io_ms : ℤ
  pub avque : ℤ
  pub ndisc : ℤ
  pub ndsect : ℤ
  pub inflight : ℤ

abbrev pub zero_perdsk : Perdsk
zero_perdsk = record {
  name = [];
  nread = pos 0;
  nrsect = pos 0;
  nwrite = pos 0;
  nwsect = pos 0;
  io_ms = pos 0;
  avque = pos 0;
  ndisc = pos 0;
  ndsect = pos 0;
  inflight = pos 0;
}

-- `MAXDKNAM`
abbrev pub maxdknam : ℕ
maxdknam = 32

-- `name[0] == '\0'`
abbrev pub is_empty : List ℕ → Bool
is_empty [] = true
is_empty (_ ∷ _) = false

abbrev pub drop {ℓ} : {A : Type ℓ} → ℕ → List A → List A
drop zero xs = xs
drop (suc n) [] = []
drop (suc n) (x ∷ xs) = drop n xs

-- The deviations of an md device or a logical volume: the transfers in flight stay as they are.
unfoldable pub volume_diff : Perdsk → Perdsk → Perdsk → Perdsk
volume_diff dev cur pre = record dev {
  name = safe_strcpy dev.name cur.name maxdknam;
  nread = subcount cur.nread pre.nread;
  nrsect = subcount cur.nrsect pre.nrsect;
  nwrite = subcount cur.nwrite pre.nwrite;
  nwsect = subcount cur.nwsect pre.nwsect;
  io_ms = subcount cur.io_ms pre.io_ms;
  avque = subcount cur.avque pre.avque;
  ndisc = if eqb_ℤ cur.ndisc minus_one then minus_one else subcount cur.ndisc pre.ndisc;
  ndsect = if eqb_ℤ cur.ndisc minus_one then pos 0 else subcount cur.ndsect pre.ndsect;
}

-- The deviations of a disk.
unfoldable pub disk_diff : Perdsk → Perdsk → Perdsk → Perdsk
disk_diff dev cur pre = record (volume_diff dev cur pre) { inflight = cur.inflight }

-- `for (j++; pre[j].name[0]; j++)`, on the entries from index `j` on: the index at which it stops.
unfoldable pub search : List ℕ → ℕ → List Perdsk → Option ℕ
search name j [] = none
search name j (p ∷ pre) =
    let rest = search name (suc j) pre in
    if is_empty p.name then some j else if streq name p.name then some j else rest

-- The entry of the previous sample that a disk is compared with.
unfoldable pub partner : List Perdsk → List ℕ → ℕ → Option ℕ
partner pre name j = do
  p ← get_elem? pre j
  if streq name p.name then some j else search name (suc j) (drop (suc j) pre)

-- The index for the next disk.
abbrev pub next_index : ℕ → ℕ → Perdsk → ℕ
next_index realj j q = if is_empty q.name then realj else suc j

-- The loops differ in what they do with one device.
module _ (diff : Perdsk → Perdsk → Perdsk → Perdsk) where
  -- The loop over the devices of the current sample, at index `j` of the previous one: the array of
  -- the deviations, from the current index on, and the number of devices.
  unfoldable pub deviate_disks :
      List Perdsk → List Perdsk → List Perdsk → ℕ → Option (List Perdsk × ℕ)
  deviate_disks pre [] devs j = none
  deviate_disks pre (c ∷ cur) [] j = none
  deviate_disks pre (c ∷ cur) (d ∷ devs) j = elim (is_empty c.name) [
    | true ↦ some (record d { name = [] } ∷ devs, 0)
    | false ↦ do
      j' ← partner pre c.name j
      q ← get_elem? pre j'
      (devs', n) ← deviate_disks pre cur devs (next_index j j' q)
      some (diff d c q ∷ devs', suc n)
  ]

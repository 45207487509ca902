-- ===== src/System/Disks/Totals.antt =====
-- `totalsyst` of deviate.c, category 'd': the totals of the disks.
pub mod Laws
mod Tests
use atop.Prelude.{ℕ, zero, suc, Bool, true, false, Option, none, some, List, [], ◌∷◌, if◌then◌else◌}
use atop.Prelude.Int.{ℤ, pos, ◌+ℤ◌, eqb_ℤ, minus_one}
use atop.Prelude.Partial.{◌>>=◌}
use atop.Text.{safe_strcpy}
use atop.System.Disks.{Perdsk, maxdknam, is_empty}

-- `struct dskstat`
pub record Dskstat : Type 0 where
  pub ndsk : ℕ
  pub nmdd : ℕ
  pub nlvm : ℕ
  pub dsk : List Perdsk
  pub mdd : List Perdsk
  pub lvm : List Perdsk

-- The values of a device are added to its totals. `source` is the entry that the discards are
-- taken from: that of the device itself, or, for an md device, that of the logical volume with the
-- same index.
unfoldable pub total_disk : Perdsk → Perdsk → Perdsk → Perdsk
unfolding safe_strcpy ◌+ℤ◌
total_disk new source tot = record tot {
  name = safe_strcpy tot.name new.name maxdknam;
  nread = tot.nread +ℤ new.nread;
  nrsect = tot.nrsect +ℤ new.nrsect;
  nwrite = tot.nwrite +ℤ new.nwrite;
  nwsect = tot.nwsect +ℤ new.nwsect;
  io_ms = tot.io_ms +ℤ new.io_ms;
  avque = tot.avque +ℤ new.avque;
  ndisc = if eqb_ℤ new.ndisc minus_one then tot.ndisc else tot.ndisc +ℤ source.ndisc;
  ndsect = if eqb_ℤ new.ndisc minus_one then tot.ndsect else tot.ndsect +ℤ source.ndsect;
}

-- The loop over an array: the totals and the number of devices.
unfoldable pub total_disks : List Perdsk → List Perdsk → List Perdsk → Option (List Perdsk × ℕ)
total_disks [] sources tots = none
total_disks (x ∷ new) [] tots = none
total_disks (x ∷ new) (y ∷ sources) [] = none
total_disks (x ∷ new) (y ∷ sources) (t ∷ tots) = elim (is_empty x.name) [
  | true ↦ some (record t { name = [] } ∷ tots, 0)
  | false ↦ do (tots', n) ← total_disks new sources tots; some (total_disk x y t ∷ tots', suc n)
]

unfoldable pub total_dsk : Dskstat → Dskstat → Option Dskstat
total_dsk new tot = do
  (dsk, ndsk) ← total_disks new.dsk new.dsk tot.dsk
  (lvm, nlvm) ← total_disks new.lvm new.lvm tot.lvm
  (mdd, nmdd) ← total_disks new.mdd new.lvm tot.mdd
  some (record { ndsk = ndsk; nmdd = nmdd; nlvm = nlvm; dsk = dsk; mdd = mdd; lvm = lvm })

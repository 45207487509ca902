-- ===== src/System/Disks/Totals/Laws.antt =====
-- What the totals of a disk add up to, and what those of an md device do not.
use atop.Prelude.{suc, some, ◌≡◌, refl, ap, true, false, List, [], ◌∷◌}
use atop.Prelude.Int.{ℤ, ◌+ℤ◌, eqb_ℤ, minus_one}
use atop.Prelude.Partial.{◌>>=◌}
use atop.Deviate.Calc.Laws.{Grew}
use atop.System.Disks.{is_empty, Perdsk}
use atop.System.Disks.Totals.{total_disk, total_disks}

-- Every counter of a disk has a reading, which has not gone back.
pub record HasGrown (pre cur : Perdsk) : Type 0 where
  pub nread : Grew pre.nread cur.nread
  pub nrsect : Grew pre.nrsect cur.nrsect
  pub nwrite : Grew pre.nwrite cur.nwrite
  pub nwsect : Grew pre.nwsect cur.nwsect
  pub io_ms : Grew pre.io_ms cur.io_ms
  pub avque : Grew pre.avque cur.avque
  pub ndisc : Grew pre.ndisc cur.ndisc
  pub ndsect : Grew pre.ndsect cur.ndsect

abbrev pub AllGrown : Perdsk → List Perdsk → Type 0
AllGrown pre [] = Unit
AllGrown pre (cur ∷ curs) = HasGrown pre cur × AllGrown cur curs

pub record AddUp (pre tot end tot' : Perdsk) : Type 0 where
  pub nread : pre.nread +ℤ tot'.nread ≡ tot.nread +ℤ end.nread
  pub nrsect : pre.nrsect +ℤ tot'.nrsect ≡ tot.nrsect +ℤ end.nrsect
  pub nwrite : pre.nwrite +ℤ tot'.nwrite ≡ tot.nwrite +ℤ end.nwrite
  pub nwsect : pre.nwsect +ℤ tot'.nwsect ≡ tot.nwsect +ℤ end.nwsect
  pub io_ms : pre.io_ms +ℤ tot'.io_ms ≡ tot.io_ms +ℤ end.io_ms
  pub avque : pre.avque +ℤ tot'.avque ≡ tot.avque +ℤ end.avque
  pub ndisc : pre.ndisc +ℤ tot'.ndisc ≡ tot.ndisc +ℤ end.ndisc
  pub ndsect : pre.ndsect +ℤ tot'.ndsect ≡ tot.ndsect +ℤ end.ndsect

-- The totals of one disk.
abbrev pub total : Perdsk → Perdsk → Perdsk
total new tot = total_disk new new tot

total_disk-ignores_discards :
    (m l t : Perdsk) (ndisc ndsect : ℤ)
    → eqb_ℤ m.ndisc minus_one ≡ false
    → eqb_ℤ ndisc minus_one ≡ false
    → total_disk m l t ≡ total_disk (record m { ndisc = ndisc; ndsect = ndsect }) l t
unfolding total_disk
total_disk-ignores_discards m l t ndisc ndsect a b = rw (a, b) refl

-- The totals of an md device, here the first one of the array, do not depend on its own discards,
-- as long as they are available:
-- what is added is taken from the logical volume with the same index.
pub total_disks-ignores_discards :
    (m l t : Perdsk) (mdd lvm tots : List Perdsk) (ndisc ndsect : ℤ)
    → eqb_ℤ m.ndisc minus_one ≡ false
    → eqb_ℤ ndisc minus_one ≡ false
    → total_disks (m ∷ mdd) (l ∷ lvm) (t ∷ tots)
      ≡ total_disks (record m { ndisc = ndisc; ndsect = ndsect } ∷ mdd) (l ∷ lvm) (t ∷ tots)
unfolding total_disks
total_disks-ignores_discards m l t mdd lvm tots ndisc ndsect a b =
    ap
      (λ x. elim (is_empty m.name) [
        | true ↦ some (record t { name = [] } ∷ tots, 0)
        | false ↦ do (tots', n) ← total_disks mdd lvm tots; some (x ∷ tots', suc n)
      ])
      (total_disk-ignores_discards m l t ndisc ndsect a b)

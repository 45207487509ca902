-- ===== src/System/Disks/Totals/Tests.antt =====
-- A disk with discards, and an md device beside a logical volume.
use atop.Prelude.{ℕ, ◌+◌, ◌≡◌, refl, some, List, [], ◌∷◌}
use atop.Prelude.Int.{pos, ◌+ℤ◌}
use atop.Text.{safe_strcpy}
use atop.System.Disks.{Perdsk, zero_perdsk}
use atop.System.Disks.Totals.{total_disk, total_disks}
use atop.System.Disks.Totals.Laws.{total_disks-ignores_discards}

abbrev sample : ℕ → Perdsk
sample n = record zero_perdsk {
  name = b's' ∷ b'd' ∷ b'a' ∷ [];
  nread = pos n;
  ndisc = pos n;
  ndsect = pos n;
}

abbrev samples : List Perdsk
samples = sample (5 + 2) ∷ sample (7 + 4) ∷ []

discards_are_ignored :
    total_disks
      (sample 3 ∷ zero_perdsk ∷ [])
      (sample 9 ∷ zero_perdsk ∷ [])
      (zero_perdsk ∷ zero_perdsk ∷ [])
    ≡ total_disks
        (record (sample 3) { ndisc = pos 8; ndsect = pos 8 } ∷ zero_perdsk ∷ [])
        (sample 9 ∷ zero_perdsk ∷ [])
        (zero_perdsk ∷ zero_perdsk ∷ [])
discards_are_ignored =
    total_disks-ignores_discards (sample 3) (sample 9) zero_perdsk (zero_perdsk ∷ [])
      (zero_perdsk ∷ []) (zero_perdsk ∷ []) (pos 8) (pos 8) refl refl

-- 3 discards of the md device, 9 of the volume: the total is 9.
wrong_device :
    total_disks
      (sample 3 ∷ zero_perdsk ∷ [])
      (sample 9 ∷ zero_perdsk ∷ [])
      (zero_perdsk ∷ zero_perdsk ∷ [])
    ≡ some (record (sample 3) { ndisc = pos 9; ndsect = pos 9 } ∷ zero_perdsk ∷ [], 1)
unfolding total_disks total_disk safe_strcpy ◌+ℤ◌
wrong_device = refl

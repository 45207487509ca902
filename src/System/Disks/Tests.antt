-- ===== src/System/Disks/Tests.antt =====
-- Disks that come and go.
use atop.Prelude.{ℕ, ◌≡◌, refl, none, some, List, [], ◌∷◌, ◌++◌, streq, length, arith}
use atop.Prelude.Int.{pos, ◌-ℤ◌}
use atop.Text.{safe_strcpy}
use atop.Deviate.Count.{subcount}
use atop.System.Disks.Changes.{Change, added, removed, kept, before, after, unused}
use atop.System.Disks.Laws.{deviations, deviate_disks-deviations}
use atop.System.Disks.{Perdsk, zero_perdsk, volume_diff, disk_diff, search, partner, deviate_disks}

abbrev disk : ℕ → ℕ → Perdsk
disk letter n = record zero_perdsk { name = b's' ∷ b'd' ∷ letter ∷ []; nread = pos n }

program : Unit {0}
unfolding safe_strcpy subcount volume_diff disk_diff search partner deviate_disks streq ◌-ℤ◌
program = tt

-- sda is removed, sdc is added, sdb goes on.
removed_and_added :
    deviate_disks disk_diff
      (disk b'a' 5 ∷ disk b'b' 7 ∷ zero_perdsk ∷ zero_perdsk ∷ [])
      (disk b'c' 2 ∷ disk b'b' 9 ∷ zero_perdsk ∷ zero_perdsk ∷ [])
      (zero_perdsk ∷ zero_perdsk ∷ zero_perdsk ∷ zero_perdsk ∷ [])
      0
    ≡ some (disk b'c' 2 ∷ disk b'b' 2 ∷ zero_perdsk ∷ zero_perdsk ∷ [], 2)
unfolding program
removed_and_added = refl

-- The entry for a new device is searched for behind the first unused entry: in a full array that is
-- an invalid access.
overrun :
    deviate_disks disk_diff
      (disk b'a' 5 ∷ disk b'b' 7 ∷ zero_perdsk ∷ [])
      (disk b'b' 9 ∷ disk b'c' 2 ∷ zero_perdsk ∷ [])
      (zero_perdsk ∷ zero_perdsk ∷ zero_perdsk ∷ [])
      0
    ≡ none
unfolding program
overrun = refl

abbrev story : List Change
story = removed (disk b'a' 5) ∷ added (disk b'c' 2) ∷ kept (disk b'b' 7) (disk b'b' 9) ∷ []

abbrev fresh : List Perdsk
fresh = zero_perdsk ∷ zero_perdsk ∷ zero_perdsk ∷ []

deviate_disks-deviations_example :
    deviate_disks disk_diff (before story ++ unused []) (after story ++ zero_perdsk ∷ []) fresh 0
    ≡ some (deviations disk_diff story fresh, length (after story))
unfolding before after streq
deviate_disks-deviations_example =
    deviate_disks-deviations disk_diff story [] [] fresh
      (refl, (refl, (refl, tt)), (refl, (refl, tt), (refl, refl, refl, tt))) (omega arith)

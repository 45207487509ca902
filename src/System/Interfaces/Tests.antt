-- ===== src/System/Interfaces/Tests.antt =====
-- Interfaces that come and go.
use atop.Prelude.{
  if◌then◌else◌, ◌==◌, zero, suc, Option, some, ℕ, ◌≡◌, refl, some, List, [], ◌∷◌, ◌++◌, arith,
  length, streq,
}
use atop.Prelude.Int.{pos, ◌-ℤ◌}
use atop.Text.{safe_strcpy}
use atop.Deviate.Count.{subcount}
use atop.Ifprop.{Ifprop, sum_bytes, calcbucket, chain, lookup, getifprop}
use atop.System.Interfaces.{
  Perintf, zero_perintf, intf_diff, fill_props, copy_names, first_sample, resync, deviate_intfs,
  deviate_interfaces,
}
use atop.System.Interfaces.Laws.{with_speeds, expected, deviate_intfs-expected}

abbrev intf : ℕ → ℕ → Perintf
intf letter n = record zero_perintf { name = b'e' ∷ letter ∷ []; rbyte = pos n }

program : Unit {0}
unfolding sum_bytes calcbucket chain lookup getifprop safe_strcpy subcount intf_diff fill_props
    copy_names first_sample resync deviate_intfs deviate_interfaces streq ◌-ℤ◌
program = tt

-- The table of one interface, in the bucket of its name.
abbrev ethernet : Ifprop
ethernet = record { type = b'e'; name = b'e' ∷ b'0' ∷ []; speed = pos 1000; fullduplex = 1 }

abbrev buckets : ℕ → ℕ → List (List Ifprop)
buckets zero i = []
buckets (suc n) i = (if i == 149 then ethernet ∷ [] else []) ∷ buckets n (suc i)

-- The first sample: the deviations are the counters.
abbrev outcome : Option (List Perintf × List Perintf × List Perintf × ℕ)
outcome = some (
  record zero_perintf {
    name = b'e' ∷ b'0' ∷ [];
    type = b'e';
    speed = pos 1000;
    speedp = pos 1000;
    duplex = 1;
  }
      ∷ zero_perintf
      ∷ [],
  record (intf b'0' 5) { type = b'e'; speed = pos 1000; speedp = pos 1000; duplex = 1 }
      ∷ zero_perintf
      ∷ [],
  record (intf b'0' 5) { type = b'e'; speed = pos 1000; speedp = pos 1000; duplex = 1 }
      ∷ zero_perintf
      ∷ [],
  1,
)

first :
    deviate_interfaces
      (buckets 256 0)
      (zero_perintf ∷ zero_perintf ∷ [])
      (intf b'0' 5 ∷ zero_perintf ∷ [])
      (zero_perintf ∷ zero_perintf ∷ [])
    ≡ outcome
unfolding program
first = refl

abbrev previous : List Perintf
previous = intf b'0' 5 ∷ intf b'1' 7 ∷ []

-- Another order, and a new interface.
abbrev current : List Perintf
current = intf b'1' 9 ∷ intf b'2' 1 ∷ intf b'0' 6 ∷ []

abbrev fresh : List Perintf
fresh = zero_perintf ∷ zero_perintf ∷ zero_perintf ∷ zero_perintf ∷ []

deviate_intfs-expected_example :
    deviate_intfs
      (previous ++ zero_perintf ∷ zero_perintf ∷ [])
      (current ++ zero_perintf ∷ [])
      fresh
      0
    ≡ some (
      with_speeds previous current (zero_perintf ∷ []),
      expected previous current fresh,
      length current,
    )
unfolding streq
deviate_intfs-expected_example =
    deviate_intfs-expected previous [] [] (refl, (refl, tt)) ((refl, tt), (tt, tt)) current fresh
      (refl, (refl, (refl, tt))) (omega arith)

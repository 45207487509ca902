-- ===== src/Cgroups/Hash.antt =====
-- cgroups.c: the hash of a group's path, and the hash list of the previous sample.
pub mod Laws
pub mod Paths
mod Tests
use atop.Prelude.{
  ℕ, zero, suc, ◌+◌, ◌*◌, ◌-◌, ◌%◌, Bool, true, false, List, [], ◌∷◌, Option, none, some, ltb, ◌==◌,
  if◌then◌else◌,
}
use atop.Prelude.Int.{ℤ, pos, negsuc, ◌+ℤ◌, sub_ℕ, eqb_ℤ}
use atop.Cgroups.{Cggen, Cstat, Cgchainer}

-- A `char` times a positive `int`. The type `char` is signed.
unfoldable pub char_times : ℕ → ℕ → ℤ
char_times c k = if ltb c 128 then pos (c * k) else sub_ℕ 0 ((256 - c) * k)

-- The loop of `hashcalc`: a slash has no weight and no place.
unfoldable pub weigh : List ℕ → ℤ → ℕ → ℤ
weigh [] basehash offset = basehash
weigh (c ∷ p) basehash offset =
    let slash = weigh p basehash offset in
    let other = weigh p (basehash +ℤ char_times c offset) (suc offset) in
    if c == b'/' then slash else other

unfoldable pub hashcalc : List ℕ → ℤ → ℕ → ℤ
hashcalc p basehash offset = weigh p basehash (offset + 1)

-- `hash & CGROUPMASK`, of a number in two's complement.
unfoldable pub slot : ℤ → ℕ
slot (pos n) = n % 128
slot (negsuc n) = 127 - n % 128

-- `cgprehash`: the chain behind each of its 128 heads.
abbrev pub Table : Type 0
Table = ℕ → List Cgchainer

unfoldable pub empty_table : Table
empty_table i = []

unfoldable pub hashadd : Cgchainer → Table → Table
hashadd cp t i = if i == slot (cp.cstat.gen.namehash) then cp ∷ t i else t i

-- The loop of `hashfind`.
unfoldable pub find_in : ℤ → List Cgchainer → Option Cgchainer
find_in hash [] = none
find_in hash (cp ∷ rest) =
    let later = find_in hash rest in if eqb_ℤ hash cp.cstat.gen.namehash then some cp else later

unfoldable pub hashfind : Table → ℤ → Option Cgchainer
hashfind t hash = find_in hash (t (slot hash))

-- The whole previous chain, added from its first element on.
unfoldable pub add_chain : List Cgchainer → Table → Table
add_chain [] t = t
add_chain (cp ∷ rest) t = add_chain rest (hashadd cp t)

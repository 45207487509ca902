-- ===== src/System/Disks/Changes.antt =====
-- What may happen to devices between two samples, and how the search passes them.
use atop.Prelude.{
  ℕ, suc, ◌+◌, ◌≡◌, refl, ◌∙◌, ap, true, false, some, List, [], ◌∷◌, ◌++◌, arith, if◌then◌else◌,
  length, get_elem?, streq,
}
use atop.System.Disks.{Perdsk, zero_perdsk, is_empty, drop, search, partner}

-- What happens to a device between two samples, in the order of the arrays.
pub data Change : Type 0 where
  added : (c : Perdsk) → Change
  removed : (p : Perdsk) → Change
  kept : (p c : Perdsk) → Change

-- The devices of the previous sample and those of the current one.
unfoldable pub before : List Change → List Perdsk
before [] = []
before (added c ∷ s) = before s
before (removed p ∷ s) = p ∷ before s
before (kept p c ∷ s) = p ∷ before s

unfoldable pub after : List Change → List Perdsk
after [] = []
after (added c ∷ s) = c ∷ after s
after (removed p ∷ s) = after s
after (kept p c ∷ s) = c ∷ after s

-- No device has the name, and no device with the name is left.
abbrev pub IsAbsent : List ℕ → List Perdsk → Type 0
IsAbsent name [] = Unit
IsAbsent name (p ∷ ps) = (streq name p.name ≡ false) × IsAbsent name ps

abbrev pub IsGone : Perdsk → List Perdsk → Type 0
IsGone p [] = Unit
IsGone p (c ∷ cs) = (streq c.name p.name ≡ false) × IsGone p cs

-- Devices have names; one that is added was not there, one that is removed is there no more, one
-- that is kept keeps its name.
abbrev pub IsPossible : List Change → Type 0
IsPossible [] = Unit
IsPossible (added c ∷ s) = (is_empty c.name ≡ false) × IsAbsent c.name (before s) × IsPossible s
IsPossible (removed p ∷ s) = (is_empty p.name ≡ false) × IsGone p (after s) × IsPossible s
IsPossible (kept p c ∷ s) =
    (is_empty p.name ≡ false)
    × (is_empty c.name ≡ false)
    × (streq c.name p.name ≡ true)
    × IsPossible s

unfoldable pub AreNamed : List Perdsk → Type 0
AreNamed [] = Unit
AreNamed (p ∷ ps) = (is_empty p.name ≡ false) × AreNamed ps

pub get_elem?-behind :
    (xs ys : List Perdsk) (k : ℕ) → get_elem? (xs ++ ys) (length xs + k) ≡ get_elem? ys k
get_elem?-behind [] ys k = ap (λ i. get_elem? ys i) (omega arith)
get_elem?-behind (x ∷ xs) ys k =
    let e : suc (length xs) + k ≡ suc (length xs + k) = omega arith in
    ap (λ i. get_elem? (x ∷ (xs ++ ys)) i) e ∙ get_elem?-behind xs ys k

drop-behind :
    (xs : List Perdsk) (y : Perdsk) (ys : List Perdsk) → drop (suc (length xs)) (xs ++ y ∷ ys) ≡ ys
drop-behind [] y ys = refl
drop-behind (x ∷ xs) y ys = drop-behind xs y ys

streq-empty : (name : List ℕ) → is_empty name ≡ false → streq name [] ≡ false
unfolding streq
streq-empty [] h = ground arith
streq-empty (x ∷ xs) h = refl

-- The search passes devices with other names, and stops at the unused entry behind them.
search-past :
    (name : List ℕ) (j : ℕ) (mid tail : List Perdsk)
    → AreNamed mid
    → IsAbsent name mid
    → search name j (mid ++ tail) ≡ search name (j + length mid) tail
unfolding search AreNamed
search-past name j [] tail named absent = ap (λ i. search name i tail) (omega arith)
search-past name j (p ∷ mid) tail named absent =
    ground (arith, search-past name (suc j) mid tail named.1 absent.1)

pub here : (past tail : List Perdsk) → get_elem? (past ++ tail) (length past) ≡ get_elem? tail 0
here past tail =
    let e : length past ≡ length past + 0 = omega arith in
    ap (λ i. get_elem? (past ++ tail) i) e ∙ get_elem?-behind past tail 0

-- The comparison at the current index, and the search from the next one on.
partner_step :
    (name : List ℕ) (past : List Perdsk) (p : Perdsk) (tail : List Perdsk)
    → partner (past ++ p ∷ tail) name (length past)
      ≡ (if streq name p.name then some (length past) else search name (suc (length past)) tail)
unfolding partner
partner_step name past p tail = rw (partner, here past (p ∷ tail), drop-behind past p tail) refl

-- The entry of a device that is there, behind devices with other names.
pub partner-found :
    (name : List ℕ) (past mid : List Perdsk) (p : Perdsk) (tail : List Perdsk)
    → AreNamed mid
    → IsAbsent name mid
    → is_empty p.name ≡ false
    → streq name p.name ≡ true
    → partner (past ++ (mid ++ p ∷ tail)) name (length past) ≡ some (length past + length mid)
unfolding AreNamed search
partner-found name past [] p tail named absent full same =
    rw (partner_step name past p tail, same) (ap some (omega arith))
partner-found name past (m ∷ mid) p tail named absent full same =
    rw
      (
        partner_step name past m (mid ++ p ∷ tail),
        absent.0,
        search-past name (suc (length past)) mid (p ∷ tail) named.1 absent.1,
        full,
        same,
      )
      (ap some (omega arith))

-- Two unused entries behind the devices.
abbrev pub unused : List Perdsk → List Perdsk
unused tail = zero_perdsk ∷ zero_perdsk ∷ tail

-- The entry for a device that was not there: an unused one.
pub partner-new :
    (name : List ℕ) (past mid tail : List Perdsk)
    → AreNamed mid
    → IsAbsent name mid
    → is_empty name ≡ false
    → (k : ℕ) × (partner (past ++ (mid ++ unused tail)) name (length past) ≡ some (length past + k))
      × (get_elem? (past ++ (mid ++ unused tail)) (length past + k) ≡ some zero_perdsk)
unfolding AreNamed search
partner-new name past [] tail named absent full = (
  1,
  rw (partner_step name past zero_perdsk (zero_perdsk ∷ tail), streq-empty name full)
      (ap some (omega arith)),
  get_elem?-behind past (unused tail) 1,
)
partner-new name past (m ∷ mid) tail named absent full =
    let e : suc (length mid) ≡ length (m ∷ mid) + 0 = omega arith in
    (
      suc (length mid),
      rw
          (
            partner_step name past m (mid ++ unused tail),
            absent.0,
            search-past name (suc (length past)) mid (unused tail) named.1 absent.1,
          )
          (ap some (omega arith)),
      get_elem?-behind past (m ∷ (mid ++ unused tail)) (suc (length mid))
          ∙ ap (λ i. get_elem? (m ∷ (mid ++ unused tail)) i) e
          ∙ get_elem?-behind (m ∷ mid) (unused tail) 0,
    )

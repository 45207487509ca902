-- ===== src/Prelude/Lists.antt =====
-- Lists measured and searched by native numbers. `has`, `erase` and `without` serve the chains of
-- addresses.
use Prim.Native.Nat.{ℕ, zero, suc, ◌+◌, ◌<◌}
use mathlib.Core.Path.{◌≡◌, refl, ap}
use mathlib.Core.Logic.{◌≢◌}
use mathlib.Core.Bool.{Bool, true, false, ◌||◌, ◌&&◌, not}
use mathlib.Core.List.{List, [], ◌∷◌, ◌++◌}
use mathlib.Core.Option.{Option, none, some}
use native.Mathlib.Omega.{arith}
use atop.Prelude.Tests.{◌==◌, if◌then◌else◌}

module _ {ℓ} {A : Type ℓ} where
  abbrev pub length : List A → ℕ
  length [] = 0
  length (x ∷ xs) = suc (length xs)

  abbrev pub get_elem? : List A → ℕ → Option A
  get_elem? [] i = none
  get_elem? (x ∷ xs) zero = some x
  get_elem? (x ∷ xs) (suc i) = get_elem? xs i

  -- A write out of bounds changes nothing.
  abbrev pub set : List A → ℕ → A → List A
  set [] i v = []
  set (x ∷ xs) zero v = v ∷ xs
  set (x ∷ xs) (suc i) v = x ∷ set xs i v

  pub append_assoc : (xs ys zs : List A) → (xs ++ ys) ++ zs ≡ xs ++ (ys ++ zs)
  append_assoc [] ys zs = refl
  append_assoc (x ∷ xs) ys zs = ap (λ l. x ∷ l) (append_assoc xs ys zs)

  pub append-nil : (xs : List A) → xs ++ [] ≡ xs
  append-nil [] = refl
  append-nil (x ∷ xs) = ap (λ l. x ∷ l) (append-nil xs)

  pub some_inj : (p q : A) → some p ≡ some q → p ≡ q
  some_inj p q e = ap (λ o. elim o [ none ↦ p | some x ↦ x ]) e

  pub length-append : (xs ys : List A) → length (xs ++ ys) ≡ length xs + length ys
  length-append [] ys = omega arith
  length-append (x ∷ xs) ys = omega (arith, length-append xs ys)

-- `a` stands in the list.
unfoldable pub has : ℕ → List ℕ → Bool
has a [] = false
has a (x ∷ xs) = a == x || has a xs

-- The list without the first `a`.
unfoldable pub erase : ℕ → List ℕ → List ℕ
erase a [] = []
erase a (x ∷ xs) = if a == x then xs else x ∷ erase a xs

-- The elements of the second list that are not in the first.
unfoldable pub without : List ℕ → List ℕ → List ℕ
without gone [] = []
without gone (x ∷ xs) = if has x gone then without gone xs else x ∷ without gone xs

-- No element stands in the list twice.
abbrev pub IsDistinct : List ℕ → Type 0
IsDistinct [] = Unit
IsDistinct (x ∷ xs) = (has x xs ≡ false) × IsDistinct xs

pub has-erase :
    (a b : ℕ) (xs : List ℕ) → IsDistinct xs → has b (erase a xs) ≡ (not (a == b) && has b xs)
unfolding has erase
has-erase a b [] d = ground arith
has-erase a b (x ∷ xs) d = ground (arith, has-erase a b xs d.1)

pub has-erase_le : (a b : ℕ) (xs : List ℕ) → has b (erase a xs) ≡ true → has b xs ≡ true
unfolding has erase
has-erase_le a b [] h = ground arith
has-erase_le a b (x ∷ xs) h = ground (arith, has-erase_le a b xs)

pub erase-IsDistinct : (a : ℕ) (xs : List ℕ) → IsDistinct xs → IsDistinct (erase a xs)
unfolding erase
erase-IsDistinct a [] d = tt
erase-IsDistinct a (x ∷ xs) d =
    elim (a == x) as (λ b. IsDistinct (if b then xs else x ∷ erase a xs)) [
      | true ↦ d.1
      | false ↦ (ground (arith, has-erase_le a x xs, d.0), erase-IsDistinct a xs d.1)
    ]

pub erase_absent : (a : ℕ) (xs : List ℕ) → has a xs ≡ false → erase a xs ≡ xs
unfolding has erase
erase_absent a [] h = refl
erase_absent a (x ∷ xs) h = ground (arith, erase_absent a xs)

pub without-nil : (xs : List ℕ) → without [] xs ≡ xs
unfolding without has
without-nil [] = refl
without-nil (x ∷ xs) = ground (arith, without-nil xs)

-- Dropping `a` and then the others is dropping them all.
pub without-erase :
    (a : ℕ) (gone xs : List ℕ) → IsDistinct xs → without gone (erase a xs) ≡ without (a ∷ gone) xs
unfolding without erase has
without-erase a gone [] d = refl
without-erase a gone (x ∷ xs) d =
    ground (arith, without-erase a gone xs d.1, erase_absent a xs, d.0)

pub has-without :
    (gone xs : List ℕ) (a : ℕ) → has a (without gone xs) ≡ (has a xs && not (has a gone))
unfolding without has
has-without gone [] a = ground arith
has-without gone (x ∷ xs) a = ground (arith, has-without gone xs a)

abbrev pub to_nat : Bool → ℕ
to_nat true = 1
to_nat false = 0

module _ {ℓ} {A : Type ℓ} where
  -- How many of the first `c` elements pass a test.
  unfoldable pub count_to : (A → Bool) → ℕ → List A → ℕ
  count_to p zero xs = 0
  count_to p (suc c) [] = 0
  count_to p (suc c) (x ∷ xs) = to_nat (p x) + count_to p c xs

  pub length-set : (xs : List A) (i : ℕ) (v : A) → length (set xs i v) ≡ length xs
  length-set [] i v = refl
  length-set (x ∷ xs) zero v = refl
  length-set (x ∷ xs) (suc i) v = ap suc (length-set xs i v)

  pub get_elem?-total : (xs : List A) (i : ℕ) → i < length xs → (x : A) × (get_elem? xs i ≡ some x)
  get_elem?-total [] i h = absurd (omega arith)
  get_elem?-total (x ∷ xs) zero h = (x, refl)
  get_elem?-total (x ∷ xs) (suc i) h = get_elem?-total xs i (omega arith)

  pub get_elem?-set_self :
      (xs : List A) (i : ℕ) (v : A) → i < length xs → get_elem? (set xs i v) i ≡ some v
  get_elem?-set_self [] i v h = absurd (omega arith)
  get_elem?-set_self (x ∷ xs) zero v h = refl
  get_elem?-set_self (x ∷ xs) (suc i) v h = get_elem?-set_self xs i v (omega arith)

  pub get_elem?-set_ne :
      (xs : List A) (i j : ℕ) (v : A) → i ≢ j → get_elem? (set xs i v) j ≡ get_elem? xs j
  get_elem?-set_ne [] i j v h = refl
  get_elem?-set_ne (x ∷ xs) zero zero v h = absurd (h refl)
  get_elem?-set_ne (x ∷ xs) zero (suc j) v h = refl
  get_elem?-set_ne (x ∷ xs) (suc i) zero v h = refl
  get_elem?-set_ne (x ∷ xs) (suc i) (suc j) v h = get_elem?-set_ne xs i j v (λ e. h (ap suc e))

  -- Writing the next element counts it.
  pub count_to-set_next :
      (p : A → Bool) (c : ℕ) (xs : List A) (v : A)
      → c < length xs
      → count_to p (suc c) (set xs c v) ≡ count_to p c xs + to_nat (p v)
  unfolding count_to
  count_to-set_next p c [] v h = absurd (omega arith)
  count_to-set_next p zero (x ∷ xs) v h = omega arith
  count_to-set_next p (suc c) (x ∷ xs) v h = omega (arith, count_to-set_next p c xs v)

  -- Writing an element that was counted.
  pub count_to-set_before :
      (p : A → Bool) (c i : ℕ) (xs : List A) (x v : A)
      → i < c
      → get_elem? xs i ≡ some x
      → count_to p c (set xs i v) + to_nat (p x) ≡ count_to p c xs + to_nat (p v)
  unfolding count_to
  count_to-set_before p zero i xs x v h e = absurd (omega arith)
  count_to-set_before p (suc c) i [] x v h e = ground arith
  count_to-set_before p (suc c) zero (y ∷ xs) x v h e = ground arith
  count_to-set_before p (suc c) (suc i) (y ∷ xs) x v h e =
      omega (arith, count_to-set_before p c i xs x v (omega arith) e)

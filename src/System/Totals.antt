-- ===== src/System/Totals.antt =====
-- Totals of deviations: what `totalsyst` of deviate.c accumulates from what `subcount` gives.
use atop.Prelude.{◌≡◌, ap, List, [], ◌∷◌}
use atop.Prelude.Int.{ℤ, pos_part, neg_part, ◌+ℤ◌, int_laws}
use atop.Deviate.Count.{subcount}
use atop.Deviate.Calc.Laws.{Grew, subcount_adds}

module _ {ℓ} {A : Type ℓ} where
  -- The deviations of a run of samples are added to the totals, one after the other.
  unfoldable pub totals : (A → A → A) → (A → A → A) → A → List A → A → A
  totals diff total pre [] tot = tot
  totals diff total pre (cur ∷ curs) tot = totals diff total cur curs (total (diff cur pre) tot)

  -- The last sample.
  unfoldable pub last : A → List A → A
  last pre [] = pre
  last pre (cur ∷ curs) = last cur curs

pub add_comm : (a b : ℤ) → a +ℤ b ≡ b +ℤ a
add_comm a b = omega int_laws

-- One step from the reading `pre` to `cur`, then a run that ends with `end` and `total`.
pub telescope :
    (pre cur tot end total : ℤ)
    → Grew pre cur
    → cur +ℤ total ≡ (tot +ℤ subcount cur pre) +ℤ end
    → pre +ℤ total ≡ tot +ℤ end
telescope pre cur tot end total h e =
    let g = subcount_adds pre cur h in
    omega (int_laws, ap pos_part e, ap neg_part e, ap pos_part g, ap neg_part g)

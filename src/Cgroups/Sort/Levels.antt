-- ===== src/Cgroups/Sort/Levels.antt =====
-- The tree that `sortlevel` builds has each element once.
use atop.Prelude.{
  ℕ, zero, suc, ◌+◌, ◌*◌, ◌≤◌, ◌<◌, ◌≡◌, refl, ap, subst, ◌∙◌, Bool, true, false, ◌⊎◌, inl, inr,
  List, [], ◌∷◌, Option, some, length, ltb, ◌==◌, Bool-cases, arith,
}
use atop.Prelude.Int.{ℤ}
use atop.Prelude.Partial.{◌>>=◌}
use atop.Cgroups.Sort.{Placed, Cgsorter, null, sorter, sortval, depth_of, sortlevel}

-- The sum of a measure over elements, and over a tree.
abbrev pub sum_placed : (ℕ → ℕ) → List Placed → ℕ
sum_placed f [] = 0
sum_placed f (p ∷ rest) = f p.at + sum_placed f rest

abbrev pub sum_tree : (ℕ → ℕ) → Cgsorter → ℕ
sum_tree f null = 0
sum_tree f (sorter this val child same) = f this.at + sum_tree f child + sum_tree f same

-- No other group than the first has the depth of the top directory, and the depths go down by one
-- level at a time only: what `walkcgroup` delivers.
abbrev pub GoDown : ℕ → List Placed → Type 0
GoDown level [] = Unit
GoDown level (p ∷ rest) = (depth_of p ≤ level) × (0 < depth_of p) × GoDown (suc (depth_of p)) rest

-- The first element that is left, if any, lies above a level.
abbrev pub IsAbove : ℕ → List Placed → Type 0
IsAbove level [] = Unit
IsAbove level (p ∷ rest) = depth_of p < level

-- What a call leaves: everything that it took is in the tree.
abbrev pub IsSorted : ℕ → Cgsorter → List Placed → Option (Cgsorter × List Placed) → Type 0
IsSorted curlevel kids left outcome =
    (kids' : Cgsorter) × (left' : List Placed) × (outcome ≡ some (kids', left'))
    × ((f : ℕ → ℕ) → sum_tree f kids' + sum_placed f left' ≡ sum_tree f kids + sum_placed f left)
    × (length left' ≤ length left)
    × IsAbove curlevel left'
    × GoDown curlevel left'

sort_end :
    (fuel res curlevel : ℕ) (kids : Cgsorter) (made : Bool) (p : Placed) (rest : List Placed)
    → ltb (depth_of p) curlevel ≡ true
    → sortlevel (suc fuel) res curlevel kids made (p ∷ rest) ≡ some (kids, p ∷ rest)
unfolding sortlevel
sort_end fuel res curlevel kids made p rest e = rw (sortlevel, e) refl

sort_same :
    (fuel res curlevel : ℕ) (kids : Cgsorter) (made : Bool) (p : Placed) (rest : List Placed)
    → depth_of p ≡ curlevel
    → sortlevel (suc fuel) res curlevel kids made (p ∷ rest)
      ≡ sortlevel fuel res curlevel (sorter p (sortval res p.cg.cstat) null kids) true rest
unfolding sortlevel
sort_same fuel res curlevel kids made p rest e =
    let a : ltb (depth_of p) curlevel ≡ false = ground arith in
    let b : (depth_of p == curlevel) ≡ true = ground arith in rw (sortlevel, a, b) refl

sort_down :
    (fuel res curlevel : ℕ) (this : Placed) (val : ℤ) (child same : Cgsorter) (p : Placed)
    (rest : List Placed)
    → curlevel < depth_of p
    → sortlevel (suc fuel) res curlevel (sorter this val child same) true (p ∷ rest) ≡ (
        sortlevel fuel res (depth_of p) child false (p ∷ rest) >>= λ (child', rest').
        sortlevel fuel res curlevel (sorter this val child' same) true rest')
unfolding sortlevel
sort_down fuel res curlevel this val child same p rest h =
    let a : ltb (depth_of p) curlevel ≡ false = ground arith in
    let b : (depth_of p == curlevel) ≡ false = ground arith in rw (sortlevel, a, b) refl

sort_empty :
    (fuel res curlevel : ℕ) (kids : Cgsorter) (made : Bool)
    → sortlevel (suc fuel) res curlevel kids made [] ≡ some (kids, [])
unfolding sortlevel
sort_empty fuel res curlevel kids made = refl

-- The three cases of the depth of the next element.
depth_cases : (d l : ℕ) → d ≤ suc l → ((d < l) ⊎ (d ≡ l)) ⊎ (d ≡ suc l)
depth_cases d l h = elim (Bool-cases (ltb d l)) [
  | inl e ↦ inl (inl (ground arith))
  | inr e ↦ elim (Bool-cases (d == l)) [
    | inl g ↦ inl (inr (ground arith))
    | inr g ↦ inr (ground arith)
  ]
]

-- A level that has a `cgs` is finished with fuel for two turns for each element.
pub level-IsSorted :
    (fuel res curlevel : ℕ) (this : Placed) (val : ℤ) (child same : Cgsorter) (left : List Placed)
    → GoDown (suc curlevel) left
    → 2 * length left < fuel
    → IsSorted curlevel
        (sorter this val child same)
        left
        (sortlevel fuel res curlevel (sorter this val child same) true left)
level-IsSorted zero res curlevel this val child same left g h = absurd (omega arith)
level-IsSorted (suc fuel) res curlevel this val child same [] g h = (
  (sorter this val child same),
  [],
  sort_empty fuel res curlevel (sorter this val child same) true,
  (λ f. refl),
  omega arith,
  tt,
  tt,
)
level-IsSorted (suc zero) res curlevel this val child same (p ∷ rest) g h = absurd (omega arith)
level-IsSorted (suc (suc fuel)) res curlevel this val child same (p ∷ rest) (a, b, g) h =
    let kids = sorter this val child same in
    elim (depth_cases (depth_of p) curlevel a) [
      | inl (inl e) ↦ (
        kids,
        (p ∷ rest),
        sort_end (suc fuel) res curlevel kids true p rest (ground arith),
        (λ f. refl),
        omega arith,
        e,
        (omega arith, b, g),
      )
      | inl (inr e) ↦
          let g' = subst (λ l. GoDown (suc l) rest) e g in
          let (kids', left', e', sums, len, above, down) =
            level-IsSorted (suc fuel) res curlevel p (sortval res p.cg.cstat) null kids rest g'
              (omega arith) in
          (
            kids',
            left',
            sort_same (suc fuel) res curlevel kids true p rest e ∙ e',
            (λ f. let q = sums f in omega arith),
            omega arith,
            above,
            down,
          )
      | inr e ↦
          let (child', rest', e₁, sums₁, len₁, above₁, down₁) =
            level-IsSorted fuel res (depth_of p) p (sortval res p.cg.cstat) null child rest g
              (omega arith) in
          let g' = subst (λ l. GoDown l rest') e down₁ in
          let (kids', left', e₂, sums₂, len₂, above₂, down₂) =
            level-IsSorted (suc fuel) res curlevel this val child' same rest' g' (omega arith) in
          (
            kids',
            left',
            sort_down (suc fuel) res curlevel this val child same p rest (omega arith)
                ∙ ap
                    (λ o. o >>= λ (c, r).
                      sortlevel (suc fuel) res curlevel (sorter this val c same) true r)
                    (sort_same fuel res (depth_of p) child false p rest refl ∙ e₁)
                ∙ e₂,
            (λ f. let q₁ = sums₁ f in let q₂ = sums₂ f in omega arith),
            omega arith,
            above₂,
            down₂,
          )
    ]

nothing_above : (left : List Placed) → IsAbove 1 left → GoDown 1 left → left ≡ []
nothing_above [] above down = refl
nothing_above (p ∷ rest) above (a, b, g) = absurd (omega arith)

-- The whole array below the top directory ends up in the tree, with nothing left.
pub sort_all :
    (fuel res : ℕ) (left : List Placed)
    → GoDown 1 left
    → 2 * length left < fuel
    → (kids : Cgsorter) × (sortlevel fuel res 1 null false left ≡ some (kids, []))
      × ((f : ℕ → ℕ) → sum_tree f kids ≡ sum_placed f left)
sort_all zero res left g h = absurd (omega arith)
sort_all (suc fuel) res [] g h = (null, sort_empty fuel res 1 null false, λ f. refl)
sort_all (suc fuel) res (p ∷ rest) (a, b, g) h =
    let e : depth_of p ≡ 1 = omega arith in
    let g' = subst (λ l. GoDown (suc l) rest) e g in
    let (kids', left', e', sums, len, above, down) =
      level-IsSorted fuel res 1 p (sortval res p.cg.cstat) null null rest g' (omega arith) in
    let none_left = nothing_above left' above down in
    (
      kids',
      sort_same fuel res 1 null false p rest e ∙ e' ∙ ap (λ l. some (kids', l)) none_left,
      λ f.
          let q = sums f in
          let r : sum_placed f left' ≡ 0 = ap (sum_placed f) none_left in omega arith,
    )

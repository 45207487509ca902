-- ===== src/Cgroups/Sort/Laws.antt =====
-- `cgsort` lists every control group of the array once.
use atop.Prelude.{
  ℕ, suc, ◌+◌, ◌*◌, ◌<◌, ◌≤◌, ◌≡◌, refl, ap, ◌∙◌, inl, inr, false, List, [], ◌∷◌, some, length,
  ◌==◌, if◌then◌else◌, Bool-cases, arith,
}
use atop.Cgroups.{Cgchainer}
use atop.Cgroups.Sort.{number, Cgsorter, null, sortlevel, Node, Line, mergelevel, cgsort}
use atop.Cgroups.Sort.Levels.{sum_placed, GoDown, sort_all}
use atop.Cgroups.Sort.Merge.{sum_lines, IsReordering, mergelevel-Merges}

-- How often a position stands in a list of lines.
abbrev one_if : ℕ → ℕ → ℕ
one_if k i = if i == k then 1 else 0

abbrev pub occurrences : ℕ → List Line → ℕ
occurrences k lines = sum_lines (one_if k) lines

length-number : (i : ℕ) (ccs : List Cgchainer) → length (number i ccs) ≡ length ccs
unfolding number
length-number i [] = refl
length-number i (c ∷ rest) = ap suc (length-number (i + 1) rest)

-- A position before the first number is not there.
number-before : (k i : ℕ) (ccs : List Cgchainer) → k < i → sum_placed (one_if k) (number i ccs) ≡ 0
unfolding number
number-before k i [] h = refl
number-before k i (c ∷ rest) h = let ih = number-before k (i + 1) rest (omega arith) in ground arith

number-once :
    (k i : ℕ) (ccs : List Cgchainer)
    → i ≤ k
    → k < i + length ccs
    → sum_placed (one_if k) (number i ccs) ≡ 1
unfolding number
number-once k i [] h l = absurd (omega arith)
number-once k i (c ∷ rest) h l = elim (Bool-cases (i == k)) [
  | inl e ↦ let z = number-before k (i + 1) rest (ground arith) in ground arith
  | inr e ↦ let ih = number-once k (i + 1) rest (ground arith) (omega arith) in ground arith
]

number-all : (i : ℕ) (ccs : List Cgchainer) → sum_placed (λ k. 1) (number i ccs) ≡ length ccs
unfolding number
number-all i [] = refl
number-all i (c ∷ rest) = let ih = number-all (i + 1) rest in omega arith

sum_lines-all : (lines : List Line) → sum_lines (λ k. 1) lines ≡ length lines
sum_lines-all [] = refl
sum_lines-all (l ∷ rest) = let ih = sum_lines-all rest in omega arith

cgsort-lines :
    (qsort : List Node → List Node) (fuel res : ℕ) (root : Cgchainer) (ccs : List Cgchainer)
    (kids : Cgsorter) (lines : List Line)
    → sortlevel fuel res 1 null false (number 1 ccs) ≡ some (kids, [])
    → mergelevel qsort fuel root.cstat.gen.depth 0 kids ≡ some lines
    → cgsort qsort fuel res (root ∷ ccs) ≡ some (record { at = 0; stub = 1; vlinemask = 0 } ∷ lines)
unfolding cgsort
cgsort-lines qsort fuel res root ccs kids lines e₁ e₂ = rw (e₁, e₂) refl

-- When `qsort` only reorders what it gets, the groups below the top directory have a depth above 0 that
-- goes down by one level at a time, and the fuel is more than twice their number, `cgsort` gives a
-- list of as many lines as there are groups, in which each position of the array stands exactly once.
pub cgsort-once :
    (qsort : List Node → List Node) (fuel res : ℕ) (root : Cgchainer) (ccs : List Cgchainer)
    → IsReordering qsort
    → GoDown 1 (number 1 ccs)
    → 2 * length ccs < fuel
    → (lines : List Line) × (cgsort qsort fuel res (root ∷ ccs) ≡ some lines)
      × (length lines ≡ length (root ∷ ccs))
      × ((k : ℕ) → k < length (root ∷ ccs) → occurrences k lines ≡ 1)
cgsort-once qsort fuel res root ccs reorders g h =
    let n = length-number 1 ccs in
    let (kids, e₁, s₁) = sort_all fuel res (number 1 ccs) g (omega arith) in
    let all = s₁ (λ k. 1) ∙ number-all 1 ccs in
    let (lines, e₂, s₂) =
      mergelevel-Merges qsort reorders fuel root.cstat.gen.depth 0 kids (omega arith) in
    let top : Line = record { at = 0; stub = 1; vlinemask = 0 } in
    (
      top ∷ lines,
      cgsort-lines qsort fuel res root ccs kids lines e₁ e₂,
      (let q = sum_lines-all lines in let r = s₂ (λ k. 1) in omega arith),
      λ k l.
          let r = s₂ (one_if k) ∙ s₁ (one_if k) in
          elim (Bool-cases (0 == k)) [
            | inl e ↦ let z = number-before k 1 ccs (ground arith) in ground arith
            | inr e ↦ let z = number-once k 1 ccs (ground arith) (omega arith) in ground arith
          ],
    )

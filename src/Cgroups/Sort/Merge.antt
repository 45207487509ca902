-- ===== src/Cgroups/Sort/Merge.antt =====
-- The list that `mergelevel` makes of a tree has each of its elements once.
use atop.Prelude.{
  ℕ, zero, suc, ◌+◌, ◌≤◌, ◌<◌, ◌≡◌, refl, ap₂, ◌∙◌, true, false, inl, inr, List, [], ◌∷◌, ◌++◌,
  Option, some, length, leb, if◌then◌else◌, Bool-cases, arith,
}
use atop.Prelude.Partial.{◌>>=◌}
use atop.Cgroups.Sort.{
  Cgsorter, null, sorter, Node, nodes, Line, mask_of, is_last, has_children, depth_of, merge_nodes,
  in_order, mergelevel,
}
use atop.Cgroups.Sort.Levels.{sum_tree}

abbrev pub sum_nodes : (Node → ℕ) → List Node → ℕ
sum_nodes g [] = 0
sum_nodes g (n ∷ rest) = g n + sum_nodes g rest

abbrev pub sum_lines : (ℕ → ℕ) → List Line → ℕ
sum_lines f [] = 0
sum_lines f (l ∷ rest) = f l.at + sum_lines f rest

-- The elements come back in some order.
abbrev pub IsReordering : (List Node → List Node) → Type 0
IsReordering qsort = (g : Node → ℕ) (ns : List Node) → sum_nodes g (qsort ns) ≡ sum_nodes g ns

-- What a node stands for: itself and what is below it.
abbrev sum_below : (ℕ → ℕ) → Node → ℕ
sum_below f n = f n.cgthis.at + sum_tree f n.cgchild

-- A merge of what lies below a node.
abbrev Merges : Cgsorter → Option (List Line) → Type 0
Merges kids outcome =
    (lines : List Line) × (outcome ≡ some lines)
    × ((f : ℕ → ℕ) → sum_lines f lines ≡ sum_tree f kids)

sum_lines-append :
    (f : ℕ → ℕ) (a b : List Line) → sum_lines f (a ++ b) ≡ sum_lines f a + sum_lines f b
sum_lines-append f [] b = omega arith
sum_lines-append f (x ∷ a) b = let ih = sum_lines-append f a b in omega arith

sum_nodes-nodes :
    (f : ℕ → ℕ) (kids : Cgsorter) → sum_nodes (sum_below f) (nodes kids) ≡ sum_tree f kids
unfolding nodes
sum_nodes-nodes f null = refl
sum_nodes-nodes f (sorter this val child same) = let ih = sum_nodes-nodes f same in omega arith

merge_nodes-sum :
    (merge : Node → ℕ → Option (List Line)) (bound depth : ℕ)
    → ((n : Node) (mask : ℕ) → sum_below (λ i. 1) n ≤ bound → Merges n.cgchild (merge n mask))
    → (mask : ℕ) (ns : List Node) → sum_nodes (sum_below (λ i. 1)) ns ≤ bound
    → (lines : List Line) × (merge_nodes merge depth mask ns ≡ some lines)
      × ((f : ℕ → ℕ) → sum_lines f lines ≡ sum_nodes (sum_below f) ns)
unfolding merge_nodes
merge_nodes-sum merge bound depth h mask [] fits = ([], refl, λ f. refl)
merge_nodes-sum merge bound depth h mask (n ∷ rest) fits =
    let mask' = mask_of depth (is_last rest) mask in
    let (below, e₁, s₁) = h n mask' (omega arith) in
    let (later, e₂, s₂) = merge_nodes-sum merge bound depth h mask' rest (omega arith) in
    let line : Line = record {
      at = n.cgthis.at;
      stub = if is_last rest then 1 else 0;
      vlinemask = mask';
    } in
    (
      line ∷ (below ++ later),
      ap₂ (λ a b. a >>= λ x. b >>= λ y. some (line ∷ (x ++ y))) e₁ e₂,
      λ f. let q = sum_lines-append f below later in let q₁ = s₁ f in let q₂ = s₂ f in omega arith,
    )

-- A node without children is passed over.
only_children :
    (child : Cgsorter) (outcome : Option (List Line))
    → Merges child outcome
    → Merges child
        (if elim child [ null ↦ false | sorter this val c same ↦ true ] then outcome else some [])
only_children null outcome m = ([], refl, λ f. refl)
only_children (sorter this val child same) outcome m = m

module _ (qsort : List Node → List Node) (reorders : IsReordering qsort) where
  in_order-sum :
      (g : Node → ℕ) (kids : Cgsorter)
      → sum_nodes g (in_order qsort kids) ≡ sum_nodes g (nodes kids)
  unfolding in_order
  in_order-sum g kids = elim (Bool-cases (leb (length (nodes kids)) 1)) [
    | inl e ↦ rw e refl
    | inr e ↦ rw e (reorders g (nodes kids))
  ]

  pub mergelevel-Merges :
      (fuel depth mask : ℕ) (kids : Cgsorter)
      → sum_tree (λ i. 1) kids < fuel
      → Merges kids (mergelevel qsort fuel depth mask kids)
  unfolding mergelevel
  mergelevel-Merges zero depth mask kids h = absurd (omega arith)
  mergelevel-Merges (suc fuel) depth mask kids h =
      let total = in_order-sum (sum_below (λ i. 1)) kids ∙ sum_nodes-nodes (λ i. 1) kids in
      let merge : Node → ℕ → Option (List Line) = λ n mask'.
        let below = mergelevel qsort fuel (depth_of n.cgthis) mask' n.cgchild in
        if has_children n then below else some [] in
      let merges : (n : Node) (m : ℕ) → sum_below (λ i. 1) n ≤ fuel → Merges n.cgchild (merge n m) =
        λ n m fits.
          only_children n.cgchild (mergelevel qsort fuel (depth_of n.cgthis) m n.cgchild)
            (mergelevel-Merges fuel (depth_of n.cgthis) m n.cgchild (omega arith)) in
      let (lines, e, sums) =
        merge_nodes-sum merge fuel depth merges mask (in_order qsort kids) (omega arith) in
      (lines, e, λ f. sums f ∙ in_order-sum (sum_below f) kids ∙ sum_nodes-nodes f kids)

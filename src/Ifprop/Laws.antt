-- ===== src/Ifprop/Laws.antt =====
-- How many interfaces the refresh of the table leaves valid, and which.
use atop.Prelude.{
  ℕ, suc, ◌+◌, ◌≤◌, ◌<◌, ◌≡◌, refl, subst, ◌⊎◌, inl, inr, Bool, true, false, not, List, [], ◌∷◌,
  arith, leb, ◌==◌, Bool-cases, to_nat, length,
}
use atop.Ifprop.{
  Ifprop, Numbers, maxintf, is_physical, invalidate_one, invalidate_chain, invalidate_table,
}

abbrev pub is_valid : Ifprop → Bool
is_valid ifp = not (ifp.type == b'i')

-- The number of valid interfaces, and of physical ones.
unfoldable pub valid : List Ifprop → ℕ
valid [] = 0
valid (ifp ∷ ifps) = to_nat (is_valid ifp) + valid ifps

unfoldable pub physical : List Ifprop → ℕ
physical [] = 0
physical (ifp ∷ ifps) = to_nat (is_physical ifp) + physical ifps

module _ (count : List Ifprop → ℕ) where
  unfoldable pub in_table : List (List Ifprop) → ℕ
  in_table [] = 0
  in_table (ifps ∷ table) = count ifps + in_table table

-- `kept` valid interfaces were passed, `rest` entries with `phys` physical interfaces are left.
unfoldable pub InBounds : ℕ → ℕ → ℕ → Numbers → Type 0
InBounds kept rest phys n =
    (kept + rest ≤ n.nrinterfaces)
    × ((n.nrinterfaces < maxintf)
        ⊎ ((kept + phys ≤ n.nrphysical) × ((kept ≡ 0) ⊎ (n.nrphysical < maxintf))))

invalidate_one-InBounds :
    (ifp : Ifprop) (kept rest phys : ℕ) (n : Numbers)
    → leb maxintf n.nrinterfaces ≡ true
    → InBounds kept (suc rest) (to_nat (is_physical ifp) + phys) n
    → InBounds
        (kept + to_nat (is_valid (invalidate_one ifp n).0))
        rest
        phys
        (invalidate_one ifp n).1
unfolding InBounds invalidate_one
invalidate_one-InBounds ifp kept rest phys n many h = ground arith

valid-length : (ifps : List Ifprop) → valid ifps ≤ length ifps
unfolding valid
valid-length [] = omega arith
valid-length (ifp ∷ ifps) = ground (arith, valid-length ifps)

shift :
    (ifp : Ifprop) (ifps : List Ifprop) (kept rest phys : ℕ) (n : Numbers)
    → InBounds kept (length (ifp ∷ ifps) + rest) (physical (ifp ∷ ifps) + phys) n
    → InBounds kept (suc (length ifps + rest)) (to_nat (is_physical ifp) + (physical ifps + phys)) n
unfolding InBounds physical
shift ifp ifps kept rest phys n h = ground arith

pub chain_many :
    (ifp : Ifprop) (ifps : List Ifprop) (n : Numbers)
    → leb maxintf n.nrinterfaces ≡ true
    → let r = invalidate_one ifp n in
      let rest = invalidate_chain ifps r.1 in
      invalidate_chain (ifp ∷ ifps) n ≡ (r.0 ∷ rest.0, rest.1)
unfolding invalidate_chain
chain_many ifp ifps n many = rw (invalidate_chain, many) refl

pub chain_few :
    (ifps : List Ifprop) (n : Numbers)
    → leb maxintf n.nrinterfaces ≡ false
    → invalidate_chain ifps n ≡ (ifps, n)
unfolding invalidate_chain
chain_few [] n few = refl
chain_few (ifp ∷ ifps) n few = rw (invalidate_chain, few) refl

few-InBounds :
    (kept left size rest phys phys' : ℕ) (n : Numbers)
    → leb maxintf n.nrinterfaces ≡ false
    → left ≤ size
    → InBounds kept (size + rest) phys n
    → InBounds (kept + left) rest phys' n
unfolding InBounds
few-InBounds kept left size rest phys phys' n few le h = (omega (arith, h.0), inl (ground arith))

add_assoc : (a b c : ℕ) → (a + b) + c ≡ a + (b + c)
add_assoc a b c = omega arith

chain_end :
    (kept rest phys : ℕ) (n : Numbers)
    → InBounds kept (length {A = Ifprop} [] + rest) (physical [] + phys) n
    → InBounds (kept + valid (invalidate_chain [] n).0) rest phys (invalidate_chain [] n).1
unfolding InBounds invalidate_chain valid physical
chain_end kept rest phys n h = ground arith

invalidate_chain-InBounds :
    (ifps : List Ifprop) (kept rest phys : ℕ) (n : Numbers)
    → InBounds kept (length ifps + rest) (physical ifps + phys) n
    → InBounds (kept + valid (invalidate_chain ifps n).0) rest phys (invalidate_chain ifps n).1
unfolding valid
invalidate_chain-InBounds [] kept rest phys n h = chain_end kept rest phys n h
invalidate_chain-InBounds (ifp ∷ ifps) kept rest phys n h =
    elim (Bool-cases (leb maxintf n.nrinterfaces)) [
      | inl many ↦
          let r = invalidate_one ifp n in
          let done = invalidate_chain ifps r.1 in
          let ih = invalidate_chain-InBounds ifps (kept + to_nat (is_valid r.0)) rest phys r.1 (
            invalidate_one-InBounds ifp kept (length ifps + rest) (physical ifps + phys) n many
              (shift ifp ifps kept rest phys n h)) in
          rw (chain_many ifp ifps n many) (
            subst (λ k. InBounds k rest phys done.1)
              (add_assoc kept (to_nat (is_valid r.0)) (valid done.0)) ih)
      | inr few ↦ rw (chain_few (ifp ∷ ifps) n few) (
          few-InBounds kept (valid (ifp ∷ ifps)) (length (ifp ∷ ifps)) rest
            (physical (ifp ∷ ifps) + phys) phys n few (valid-length (ifp ∷ ifps)) h)
    ]

pub table_many :
    (ifps : List Ifprop) (table : List (List Ifprop)) (n : Numbers)
    → leb maxintf n.nrinterfaces ≡ true
    → let r = invalidate_chain ifps n in
      let rest = invalidate_table table r.1 in
      invalidate_table (ifps ∷ table) n ≡ (r.0 ∷ rest.0, rest.1)
unfolding invalidate_table
table_many ifps table n many = rw (invalidate_table, many) refl

pub table_few :
    (table : List (List Ifprop)) (n : Numbers)
    → leb maxintf n.nrinterfaces ≡ false
    → invalidate_table table n ≡ (table, n)
unfolding invalidate_table
table_few [] n few = refl
table_few (ifps ∷ table) n few = rw (invalidate_table, few) refl

pub in_table-valid : (table : List (List Ifprop)) → in_table valid table ≤ in_table length table
unfolding in_table
in_table-valid [] = omega arith
in_table-valid (ifps ∷ table) = omega (arith, valid-length ifps, in_table-valid table)

split_table :
    (ifps : List Ifprop) (table : List (List Ifprop)) (kept : ℕ) (n : Numbers)
    → InBounds kept (in_table length (ifps ∷ table)) (in_table physical (ifps ∷ table)) n
    → InBounds kept
        (length ifps + in_table length table)
        (physical ifps + in_table physical table)
        n
unfolding in_table
split_table ifps table kept n h = h

InBounds-valid : (kept : ℕ) (n : Numbers) → InBounds kept 0 0 n → kept < maxintf
unfolding InBounds
InBounds-valid kept n h = ground arith

plus_zero :
    (kept rest phys : ℕ) (n : Numbers) → InBounds kept rest phys n → InBounds kept (rest + 0) phys n
unfolding InBounds
plus_zero kept rest phys n h = ground arith

-- Valid interfaces that were passed and those of the table.
pub invalidate_table-bound :
    (table : List (List Ifprop)) (kept : ℕ) (n : Numbers)
    → InBounds kept (in_table length table) (in_table physical table) n
    → kept + in_table valid (invalidate_table table n).0 < maxintf
unfolding in_table invalidate_table
invalidate_table-bound [] kept n h = omega (arith, InBounds-valid kept n h)
invalidate_table-bound (ifps ∷ table) kept n h = elim (Bool-cases (leb maxintf n.nrinterfaces)) [
  | inl many ↦
      let r = invalidate_chain ifps n in
      let ih = invalidate_table-bound table (kept + valid r.0) r.1 (
        invalidate_chain-InBounds ifps kept (in_table length table) (in_table physical table) n
          h) in
      rw (table_many ifps table n many) (omega (arith, ih))
  | inr few ↦
      let all = ifps ∷ table in
      rw (table_few all n few) (
        InBounds-valid (kept + in_table valid all) n (
          few-InBounds kept (in_table valid all) (in_table length all) 0 (in_table physical all) 0 n
            few (in_table-valid all)
            (plus_zero kept (in_table length all) (in_table physical all) n h)))
]

-- ===== src/Ifprop/Refresh.antt =====
-- The refresh of the table as a whole: the numbers that it counts are right.
use atop.Prelude.{
  ℕ, zero, suc, ◌+◌, ◌≤◌, ◌<◌, ◌≡◌, refl, ◌∙◌, ap, subst, inl, inr, Bool, true, ◌&&◌, List, [], ◌∷◌,
  arith, leb, ltb, ◌==◌, if◌then◌else◌, Bool-cases, to_nat, length, set, length-set,
}
use atop.Prelude.Int.{pos}
use atop.Text.{take}
use atop.Ifprop.{
  Ifprop, Numbers, maxintf, numifhash, is_physical, is_hidden, calcbucket, chain, add_interface,
  add_interfaces, mark_in, mark_virtual, physical_chain, physical_table, invalidate_one,
  invalidate_chain, invalidate_table, empty_table, initifprop,
}
use atop.Ifprop.Laws.{
  chain_many, chain_few, table_many, table_few, valid, physical, in_table, in_table-valid, InBounds,
  invalidate_table-bound,
}

in_table-set :
    (count : List Ifprop → ℕ) (table : List (List Ifprop)) (i : ℕ) (ifps : List Ifprop)
    → i < length table
    → in_table count (set table i ifps) + count (chain table i) ≡ in_table count table + count ifps
unfolding in_table chain
in_table-set count [] i ifps h = absurd (omega arith)
in_table-set count (c ∷ table) zero ifps h = omega arith
in_table-set count (c ∷ table) (suc i) ifps h =
    omega (arith, in_table-set count table i ifps (omega arith))

calcbucket-lt : (name : List ℕ) → calcbucket name < numifhash
unfolding calcbucket
calcbucket-lt name = omega arith

-- A table with all its buckets, `size` interfaces and no physical one.
HasOnly : ℕ → List (List Ifprop) → Type 0
HasOnly size table =
    (length table ≡ numifhash) × (in_table length table ≡ size) × (in_table physical table ≡ 0)

empty_table-length : (n : ℕ) → length (empty_table n) ≡ n
unfolding empty_table
empty_table-length zero = refl
empty_table-length (suc n) = ap suc (empty_table-length n)

empty_table-count :
    (count : List Ifprop → ℕ) (n : ℕ) → count [] ≡ 0 → in_table count (empty_table n) ≡ 0
unfolding empty_table in_table
empty_table-count count zero h = refl
empty_table-count count (suc n) h = omega (arith, h, empty_table-count count n h)

-- A chain is replaced by one with `more` interfaces and no more physical ones.
set-HasOnly :
    (size more i : ℕ) (table : List (List Ifprop)) (ifps : List Ifprop)
    → i < numifhash
    → length ifps ≡ length (chain table i) + more
    → physical ifps ≤ physical (chain table i)
    → HasOnly size table
    → HasOnly (size + more) (set table i ifps)
unfolding HasOnly
set-HasOnly size more i table ifps low longer fewer h =
    let inside : i < length table = omega (arith, h.0) in
    (
      length-set table i ifps ∙ h.0,
      omega (arith, in_table-set length table i ifps inside, h.1),
      omega (arith, in_table-set physical table i ifps inside, h.2),
    )

add_interface-HasOnly :
    (word : List ℕ) (size : ℕ) (table : List (List Ifprop))
    → HasOnly size table
    → HasOnly (suc size) (add_interface word table)
unfolding add_interface physical
add_interface-HasOnly word size table h =
    let e : size + 1 ≡ suc size = omega arith in
    subst (λ m. HasOnly m (add_interface word table)) e
      (set-HasOnly size 1 (calcbucket (take 30 word)) table
        (record { type = b'i'; name = take 30 word; speed = pos 0; fullduplex = 0 }
          ∷ chain table (calcbucket (take 30 word)))
        (calcbucket-lt (take 30 word)) (omega arith) (omega arith) h)

add_interfaces-HasOnly :
    (words : List (List ℕ)) (size : ℕ) (table : List (List Ifprop))
    → HasOnly size table
    → HasOnly (size + length words) (add_interfaces words table)
unfolding add_interfaces
add_interfaces-HasOnly [] size table h =
    let e : size ≡ size + 0 = omega arith in subst (λ m. HasOnly m table) e h
add_interfaces-HasOnly (word ∷ words) size table h =
    let e : suc size + length words ≡ size + suc (length words) = omega arith in
    subst (λ m. HasOnly m (add_interfaces words (add_interface word table))) e
      (add_interfaces-HasOnly words (suc size) (add_interface word table)
        (add_interface-HasOnly word size table h))

length-mark_in : (name : List ℕ) (ifps : List Ifprop) → length (mark_in name ifps) ≡ length ifps
unfolding mark_in
length-mark_in name [] = refl
length-mark_in name (ifp ∷ ifps) = ground (arith, length-mark_in name ifps)

physical-mark_in :
    (name : List ℕ) (ifps : List Ifprop) → physical (mark_in name ifps) ≤ physical ifps
unfolding mark_in physical
physical-mark_in name [] = omega arith
physical-mark_in name (ifp ∷ ifps) = ground (arith, physical-mark_in name ifps)

marked-HasOnly :
    (name : List ℕ) (size : ℕ) (table : List (List Ifprop))
    → HasOnly size table
    → HasOnly size (
        if is_hidden name
        then table
        else set table (calcbucket name) (mark_in name (chain table (calcbucket name))))
marked-HasOnly name size table h =
    let i = calcbucket name in
    let e : size + 0 ≡ size = omega arith in
    let same : length (mark_in name (chain table i)) ≡ length (chain table i) + 0 =
      omega (arith, length-mark_in name (chain table i)) in
    elim (Bool-cases (is_hidden name)) [
      | inl hidden ↦ rw hidden h
      | inr shown ↦ rw shown (
          subst (λ m. HasOnly m (set table i (mark_in name (chain table i)))) e
            (set-HasOnly size 0 i table (mark_in name (chain table i)) (calcbucket-lt name) same
              (physical-mark_in name (chain table i)) h))
    ]

mark_virtual-HasOnly :
    (names : List (List ℕ)) (size : ℕ) (table : List (List Ifprop))
    → HasOnly size table
    → HasOnly size (mark_virtual names table)
unfolding mark_virtual
mark_virtual-HasOnly [] size table h = h
mark_virtual-HasOnly (name ∷ names) size table h =
    mark_virtual-HasOnly names size
      (if is_hidden name
        then table
        else set table (calcbucket name) (mark_in name (chain table (calcbucket name))))
      (marked-HasOnly name size table h)

-- `getphysprop` says so where it finds a physical interface.
abbrev pub Recognises : (Ifprop → Ifprop × Bool) → Type 0
Recognises getphysprop =
    (ifp : Ifprop) → is_physical (getphysprop ifp).0 ≡ true → (getphysprop ifp).1 ≡ true

one-keeps_physical :
    (ifp : Ifprop) (n : Numbers)
    → n.nrphysical < maxintf
    → (to_nat (is_physical (invalidate_one ifp n).0) ≡ to_nat (is_physical ifp))
      × ((invalidate_one ifp n).1.nrphysical ≡ n.nrphysical)
unfolding invalidate_one
one-keeps_physical ifp n few = ground arith

module _ (getphysprop : Ifprop → Ifprop × Bool) (recognises : Recognises getphysprop) where
  physical_chain-counts :
      (ifps : List Ifprop) (n : ℕ)
      → (length (physical_chain getphysprop ifps n).0 ≡ length ifps)
        × (physical (physical_chain getphysprop ifps n).0 + n
            ≤ physical ifps + (physical_chain getphysprop ifps n).1)
  unfolding physical_chain physical
  physical_chain-counts [] n = (refl, omega arith)
  physical_chain-counts (ifp ∷ ifps) n =
      let n' = if (ifp.type == b'i') && (getphysprop ifp).1 then suc n else n in
      let (a, b) = physical_chain-counts ifps n' in (ap suc a, ground (arith, b, recognises ifp))

  physical_table-counts :
      (table : List (List Ifprop)) (n : ℕ)
      → (in_table length (physical_table getphysprop table n).0 ≡ in_table length table)
        × (in_table physical (physical_table getphysprop table n).0 + n
            ≤ in_table physical table + (physical_table getphysprop table n).1)
  unfolding physical_table in_table
  physical_table-counts [] n = (refl, omega arith)
  physical_table-counts (ifps ∷ table) n =
      let (a, b) = physical_chain-counts ifps n in
      let (c, d) = physical_table-counts table (physical_chain getphysprop ifps n).1 in
      (omega (arith, a, c), omega (arith, b, d))

chain_nil : (n : Numbers) → invalidate_chain [] n ≡ ([], n)
unfolding invalidate_chain
chain_nil n = refl

-- The physical interfaces are kept as long as there are fewer of them than fit.
chain-keeps_physical :
    (ifps : List Ifprop) (n : Numbers)
    → n.nrphysical < maxintf
    → (physical (invalidate_chain ifps n).0 ≡ physical ifps)
      × ((invalidate_chain ifps n).1.nrphysical ≡ n.nrphysical)
unfolding physical
chain-keeps_physical [] n few =
    (ap (λ r. physical r.0) (chain_nil n), ap (λ r. r.1.nrphysical) (chain_nil n))
chain-keeps_physical (ifp ∷ ifps) n few =
    let (same, e) = one-keeps_physical ifp n few in
    let (a, b) = chain-keeps_physical ifps (invalidate_one ifp n).1 (omega (arith, e)) in
    elim (Bool-cases (leb maxintf n.nrinterfaces)) [
      | inl many ↦ rw (chain_many ifp ifps n many) (omega (arith, same, a), b ∙ e)
      | inr fits ↦ rw (chain_few (ifp ∷ ifps) n fits) (refl, refl)
    ]

table_nil : (n : Numbers) → invalidate_table [] n ≡ ([], n)
unfolding invalidate_table
table_nil n = refl

table-keeps_physical :
    (table : List (List Ifprop)) (n : Numbers)
    → n.nrphysical < maxintf
    → in_table physical (invalidate_table table n).0 ≡ in_table physical table
unfolding in_table
table-keeps_physical [] n few = ap (λ r. in_table physical r.0) (table_nil n)
table-keeps_physical (ifps ∷ table) n few =
    let (a, b) = chain-keeps_physical ifps n few in
    let ih = table-keeps_physical table (invalidate_chain ifps n).1 (omega (arith, b)) in
    elim (Bool-cases (leb maxintf n.nrinterfaces)) [
      | inl many ↦ rw (table_many ifps table n many) (omega (arith, a, ih))
      | inr fits ↦ rw (table_few (ifps ∷ table) n fits) refl
    ]

-- The table before interfaces are invalidated, and the number of physical ones that it counts.
abbrev pub asked_table :
    (Ifprop → Ifprop × Bool) → List (List ℕ) → List (List ℕ) → List (List Ifprop) × ℕ
asked_table getphysprop words names =
    physical_table getphysprop (mark_virtual names (add_interfaces words (empty_table numifhash))) 0

module _ (getphysprop : Ifprop → Ifprop × Bool) (recognises : Recognises getphysprop)
    (words names : List (List ℕ)) where
  start : List (List Ifprop)
  start = mark_virtual names (add_interfaces words (empty_table numifhash))

  start-HasOnly : HasOnly (length words) start
  unfolding start HasOnly physical
  start-HasOnly =
      let e : 0 + length words ≡ length words = omega arith in
      mark_virtual-HasOnly names (length words) (add_interfaces words (empty_table numifhash)) (
        subst (λ m. HasOnly m (add_interfaces words (empty_table numifhash))) e
          (add_interfaces-HasOnly words 0 (empty_table numifhash) (
            empty_table-length numifhash,
            empty_table-count length numifhash refl,
            empty_table-count physical numifhash refl,
          )))

  -- Where `getphysprop` says so when it finds a physical interface, a refreshed table holds fewer
  -- than `MAXINTF` valid interfaces, whatever the system has.
  pub initifprop-bound : in_table valid (initifprop getphysprop words names) < maxintf
  unfolding initifprop start HasOnly InBounds
  initifprop-bound =
      let asked = asked_table getphysprop words names in
      let h = start-HasOnly in
      let (a, b) = physical_table-counts getphysprop recognises start 0 in
      let n : Numbers = record { nrinterfaces = length words; nrphysical = asked.1 } in
      elim (Bool-cases (ltb (length words) maxintf)) [
        | inl few ↦ rw few (ground (arith, in_table-valid asked.0, a, h.1, few))
        | inr many ↦ rw many (
            omega (
              arith,
              invalidate_table-bound asked.0 0 n
                  (omega (arith, a, h.1), inr (omega (arith, b, h.2), inl refl)),
            ))
      ]

-- Where fewer than `MAXINTF` physical interfaces were counted, the refresh invalidates none of
-- them: the table holds as many as were found.
pub initifprop-keeps_physical :
    (getphysprop : Ifprop → Ifprop × Bool) (words names : List (List ℕ))
    → (asked_table getphysprop words names).1 < maxintf
    → in_table physical (initifprop getphysprop words names)
      ≡ in_table physical (asked_table getphysprop words names).0
unfolding initifprop
initifprop-keeps_physical getphysprop words names few =
    let asked = asked_table getphysprop words names in
    let n : Numbers = record { nrinterfaces = length words; nrphysical = asked.1 } in
    elim (Bool-cases (ltb (length words) maxintf)) [
      | inl fits ↦ rw fits refl
      | inr many ↦ rw many (table-keeps_physical asked.0 n few)
    ]

-- ===== src/System/Containers/Laws.antt =====
-- The loop over the containers is a lookup by container number, for numbers that are not 0.
use atop.Prelude.{
  some_inj, ℕ, zero, suc, ◌+◌, ◌≤◌, ◌<◌, ◌≡◌, ◌≢◌, refl, sym, ◌∙◌, ap, subst, ◌⊎◌, inl, inr, true,
  false, none, some, List, [], ◌∷◌, ◌++◌, arith, if◌then◌else◌, ◌==◌, Bool-cases, length, get_elem?,
}
use atop.System.Containers.{
  Percontainer, Contstat, zero_percontainer, container_diff, find_container, container_rounds,
}

-- The entry of a container, or zeros.
unfoldable pub entry : ℕ → List Percontainer → Percontainer
entry ctid [] = zero_percontainer
entry ctid (p ∷ ps) = let rest = entry ctid ps in if ctid == p.ctid then p else rest

unfoldable pub expected :
    List Percontainer → List Percontainer → List Percontainer → List Percontainer
expected used cs [] = []
expected used [] (d ∷ devs) = d ∷ devs
expected used (c ∷ cs) (d ∷ devs) = container_diff c (entry c.ctid used) ∷ expected used cs devs

-- No container number is 0, and no two containers have the same one.
abbrev pub HasNot : ℕ → List Percontainer → Type 0
HasNot ctid [] = Unit
HasNot ctid (p ∷ ps) = (ctid ≢ p.ctid) × HasNot ctid ps

abbrev pub AreDistinct : List Percontainer → Type 0
AreDistinct [] = Unit
AreDistinct (p ∷ ps) = HasNot p.ctid ps × AreDistinct ps

abbrev pub AreNumbered : List Percontainer → Type 0
AreNumbered [] = Unit
AreNumbered (p ∷ ps) = (p.ctid ≢ 0) × AreNumbered ps

HasNot-miss :
    (ctid : ℕ) (ps : List Percontainer) (i : ℕ) (q : Percontainer)
    → HasNot ctid ps
    → get_elem? ps i ≡ some q
    → ctid ≢ q.ctid
HasNot-miss ctid [] i q h e = absurd (none_ne_some q e)
  where
    none_ne_some : (x : Percontainer) → none ≡ some x → ⊥
    none_ne_some x k = ground (arith, k)
HasNot-miss ctid (p ∷ ps) zero q h e = subst (λ x. ctid ≢ x.ctid) (some_inj p q e) h.0
HasNot-miss ctid (p ∷ ps) (suc i) q h e = HasNot-miss ctid ps i q h.1 e

entry-at :
    (ctid : ℕ) (ps : List Percontainer) (i : ℕ) (q : Percontainer)
    → AreDistinct ps
    → get_elem? ps i ≡ some q
    → (ctid == q.ctid) ≡ true
    → entry ctid ps ≡ q
unfolding entry
entry-at ctid [] i q d e h = ground (arith, e)
entry-at ctid (p ∷ ps) zero q d e h =
    let e' = some_inj p q e in
    let same : (ctid == p.ctid) ≡ true = subst (λ x. (ctid == x.ctid) ≡ true) (sym e') h in
    rw same e'
entry-at ctid (p ∷ ps) (suc i) q d e h = elim (Bool-cases (ctid == p.ctid)) [
  | inl same ↦ let miss = HasNot-miss p.ctid ps i q d.0 e in absurd (miss (ground (arith, same, h)))
  | inr ne ↦ rw ne (entry-at ctid ps i q d.1 e h)
]

-- What the search stops at, with an unused entry behind the containers.
find_container-entry :
    (ctid j : ℕ) (ps tail : List Percontainer)
    → (i : ℕ) × (find_container ctid j (length ps) (ps ++ zero_percontainer ∷ tail) ≡ some (j + i))
      × (get_elem? (ps ++ zero_percontainer ∷ tail) i ≡ some (entry ctid ps))
      × (i ≤ length ps)
unfolding find_container entry
find_container-entry ctid j [] tail = (0, ap some (omega arith), refl, omega arith)
find_container-entry ctid j (p ∷ ps) tail = elim (Bool-cases (ctid == p.ctid)) [
  | inl same ↦ (0, rw same (ap some (omega arith)), rw same refl, omega arith)
  | inr ne ↦
      let (i, run, at, low) = find_container-entry ctid (suc j) ps tail in
      let e : suc j + i ≡ j + suc i = omega arith in
      (suc i, rw ne (run ∙ ap some e), rw ne at, omega arith)
]

at_index :
    (ps tail : List Percontainer) (j : ℕ)
    → j ≤ suc (length ps)
    → ((q : Percontainer) × (get_elem? (ps ++ zero_percontainer ∷ zero_percontainer ∷ tail) j
          ≡ some q)
        × (get_elem? ps j ≡ some q)
        × (j < length ps))
      ⊎ (get_elem? (ps ++ zero_percontainer ∷ zero_percontainer ∷ tail) j ≡ some zero_percontainer)
at_index [] tail zero h = inr refl
at_index [] tail (suc zero) h = inr refl
at_index [] tail (suc (suc j)) h = absurd (omega arith)
at_index (p ∷ ps) tail zero h = inl (p, refl, refl, omega arith)
at_index (p ∷ ps) tail (suc j) h = elim (at_index ps tail j (omega arith)) [
  | inl (q, a, b, c) ↦ inl (q, a, b, omega arith)
  | inr a ↦ inr a
]

module _ (n : ℕ) (pre : Contstat) (cur devs : List Percontainer) (c d : Percontainer) (j : ℕ) where
  fits :
      (q : Percontainer) (devs' : List Percontainer)
      → get_elem? pre.cont j ≡ some q
      → (c.ctid == q.ctid) ≡ true
      → container_rounds n pre cur devs (suc j) ≡ some devs'
      → container_rounds (suc n) pre (c ∷ cur) (d ∷ devs) j ≡ some (container_diff c q ∷ devs')
  unfolding container_rounds
  fits q devs' at same rest = rw (container_rounds, at, same, at, rest) refl

  searched :
      (p q : Percontainer) (j' : ℕ) (devs' : List Percontainer)
      → get_elem? pre.cont j ≡ some p
      → (c.ctid == p.ctid) ≡ false
      → find_container c.ctid 0 pre.nrcontainer pre.cont ≡ some j'
      → get_elem? pre.cont j' ≡ some q
      → container_rounds n pre cur devs (suc j') ≡ some devs'
      → container_rounds (suc n) pre (c ∷ cur) (d ∷ devs) j ≡ some (container_diff c q ∷ devs')
  unfolding container_rounds
  searched p q j' devs' at ne found at' rest = rw (container_rounds, at, ne, found, at', rest) refl

no_rounds :
    (pre : Contstat) (cur devs : List Percontainer) (j : ℕ)
    → container_rounds zero pre cur devs j ≡ some devs
unfolding container_rounds
no_rounds pre cur devs j = refl

module _ (used tail : List Percontainer) (distinct : AreDistinct used) where
  previous : Contstat
  previous = record {
    nrcontainer = length used;
    cont = used ++ zero_percontainer ∷ zero_percontainer ∷ tail;
  }

  rounds :
      (cs rest devs : List Percontainer) (j : ℕ)
      → AreNumbered cs
      → j ≤ suc (length used)
      → length cs ≤ length devs
      → container_rounds (length cs) previous (cs ++ rest) devs j ≡ some (expected used cs devs)
  unfolding previous expected
  rounds [] rest [] j names low room = no_rounds previous rest [] j
  rounds [] rest (d ∷ devs) j names low room = no_rounds previous rest (d ∷ devs) j
  rounds (c ∷ cs) rest [] j names low room = absurd (omega arith)
  rounds (c ∷ cs) rest (d ∷ devs) j names low room =
      let n = length cs in
      let cur = cs ++ rest in
      let devs' = expected used cs devs in
      let next =
        λ (k : ℕ) (h : k ≤ suc (length used)). rounds cs rest devs k names.1 h (omega arith) in
      let look : (p : Percontainer)
          → get_elem? previous.cont j ≡ some p
          → (c.ctid == p.ctid) ≡ false
          → container_rounds (suc n) previous (c ∷ cur) (d ∷ devs) j
            ≡ some (container_diff c (entry c.ctid used) ∷ devs') =
        λ p at ne.
          let (i, run, at', small) =
            find_container-entry c.ctid 0 used (zero_percontainer ∷ tail) in
          searched n previous cur devs c d j p (entry c.ctid used) i devs' at ne
            (run ∙ ap some (omega arith)) at' (next (suc i) (omega arith)) in
      elim (at_index used tail j low) [
        | inl (p, at, inside, small) ↦ elim (Bool-cases (c.ctid == p.ctid)) [
          | inl same ↦
              subst
                (λ q.
                  container_rounds (suc n) previous (c ∷ cur) (d ∷ devs) j
                  ≡ some (container_diff c q ∷ devs'))
                (sym (entry-at c.ctid used j p distinct inside same))
                (fits n previous cur devs c d j p devs' at same (next (suc j) (omega arith)))
          | inr ne ↦ look p at ne
        ]
        | inr at ↦ look zero_percontainer at (ground (arith, names.0))
      ]

  -- Where the previous sample holds containers with different numbers and two unused entries behind
  -- them, no container of the current sample has the number 0, and the array of the deviations has
  -- room for all, the loop makes no invalid access
  -- and comes to the same as a lookup by number, in whatever order the containers stand: each is
  -- compared with its own previous entry, and a new one with zeros.
  pub container_rounds-expected :
      (cs rest devs : List Percontainer)
      → AreNumbered cs
      → length cs ≤ length devs
      → container_rounds
          (length cs)
          (record {
            nrcontainer = length used;
            cont = used ++ zero_percontainer ∷ zero_percontainer ∷ tail;
          })
          (cs ++ rest)
          devs
          0
        ≡ some (expected used cs devs)
  unfolding previous
  container_rounds-expected cs rest devs names room = rounds cs rest devs 0 names (omega arith) room

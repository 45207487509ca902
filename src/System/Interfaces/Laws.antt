-- ===== src/System/Interfaces/Laws.antt =====
-- The resynchronising loop over the interfaces is a lookup by name.
use atop.Prelude.{
  some_inj, ℕ, zero, suc, ◌+◌, ◌≤◌, ◌<◌, ◌≡◌, refl, sym, ◌∙◌, ap, ap₂, subst, ◌⊎◌, inl, inr, true,
  false, Option, none, some, List, [], ◌∷◌, ◌++◌, arith, if◌then◌else◌, ==_iff, Bool-cases, length,
  get_elem?, streq,
}
use atop.System.Disks.{is_empty}
use atop.System.Interfaces.{Perintf, zero_perintf, intf_diff, resync, deviate_intfs}

-- The entry with a name.
unfoldable pub find : List ℕ → List Perintf → Option Perintf
find name [] = none
find name (p ∷ ps) = let rest = find name ps in if streq name p.name then some p else rest

-- What is reported for an interface: the deviations from its own entry, or the counters as they are
-- if it was not there.
unfoldable pub deviation : List Perintf → Perintf → Perintf → Perintf
deviation used d c = elim (find c.name used) [ none ↦ c | some q ↦ intf_diff d c q ]

-- An interface that was there keeps its speed of then as well.
unfoldable pub with_speedp : List Perintf → Perintf → Perintf
with_speedp used c = elim (find c.name used) [ none ↦ c | some q ↦ record c { speedp = q.speed } ]

unfoldable pub expected : List Perintf → List Perintf → List Perintf → List Perintf
expected used cs [] = []
expected used [] (d ∷ devs) = record d { name = [] } ∷ devs
expected used (c ∷ cs) (d ∷ devs) = deviation used d c ∷ expected used cs devs

unfoldable pub with_speeds : List Perintf → List Perintf → List Perintf → List Perintf
with_speeds used [] tail = tail
with_speeds used (c ∷ cs) tail = with_speedp used c ∷ with_speeds used cs tail

-- Interfaces have names, no two of them the same one.
abbrev pub HasNot : List ℕ → List Perintf → Type 0
HasNot name [] = Unit
HasNot name (p ∷ ps) = (streq name p.name ≡ false) × HasNot name ps

abbrev pub AreNamed : List Perintf → Type 0
AreNamed [] = Unit
AreNamed (p ∷ ps) = (is_empty p.name ≡ false) × AreNamed ps

abbrev pub AreDistinct : List Perintf → Type 0
AreDistinct [] = Unit
AreDistinct (p ∷ ps) = HasNot p.name ps × AreDistinct ps

streq_eq : (s t : List ℕ) → streq s t ≡ true → s ≡ t
unfolding streq
streq_eq [] [] h = refl
streq_eq [] (y ∷ t) h = ground arith
streq_eq (x ∷ s) [] h = ground arith
streq_eq (x ∷ s) (y ∷ t) h =
    ap₂ (λ c l. c ∷ l) ((==_iff x y).0 (ground arith)) (streq_eq s t (ground arith))

streq_ne : (s t : List ℕ) → is_empty s ≡ false → is_empty t ≡ true → streq s t ≡ false
unfolding streq
streq_ne [] t h k = ground arith
streq_ne (x ∷ s) [] h k = refl
streq_ne (x ∷ s) (y ∷ t) h k = ground arith

-- An entry with the name is the one that is found.
HasNot-miss :
    (name : List ℕ) (ps : List Perintf) (i : ℕ) (q : Perintf)
    → HasNot name ps
    → get_elem? ps i ≡ some q
    → streq name q.name ≡ false
HasNot-miss name [] i q h e = ground arith
HasNot-miss name (p ∷ ps) zero q h e = subst (λ x. streq name x.name ≡ false) (some_inj p q e) h.0
HasNot-miss name (p ∷ ps) (suc i) q h e = HasNot-miss name ps i q h.1 e

find-at :
    (name : List ℕ) (ps : List Perintf) (i : ℕ) (q : Perintf)
    → AreDistinct ps
    → get_elem? ps i ≡ some q
    → streq name q.name ≡ true
    → find name ps ≡ some q
unfolding find
find-at name [] i q d e h = ground arith
find-at name (p ∷ ps) zero q d e h =
    let same : streq name p.name ≡ true =
      subst (λ x. streq name x.name ≡ true) (sym (some_inj p q e)) h in
    rw same e
find-at name (p ∷ ps) (suc i) q d e h = elim (Bool-cases (streq name p.name)) [
  | inl same ↦
      let miss = HasNot-miss p.name ps i q d.0 e in
      let other : streq name q.name ≡ false =
        subst (λ l. streq l q.name ≡ false) (sym (streq_eq name p.name same)) miss in
      ground (arith, other, h)
  | inr ne ↦ rw ne (find-at name ps i q d.1 e h)
]

-- What the resynchronisation stops at, with unused entries behind the interfaces.
resync-cases :
    (name : List ℕ) (j : ℕ) (ps tail : List Perintf)
    → AreNamed ps
    → ((i : ℕ) × (q : Perintf) × (resync name j (ps ++ zero_perintf ∷ tail) ≡ some (j + i))
        × (get_elem? (ps ++ zero_perintf ∷ tail) i ≡ some q)
        × (i < length ps)
        × (is_empty q.name ≡ false)
        × (find name ps ≡ some q))
      ⊎ ((resync name j (ps ++ zero_perintf ∷ tail) ≡ some (j + length ps))
          × (get_elem? (ps ++ zero_perintf ∷ tail) (length ps) ≡ some zero_perintf)
          × (find name ps ≡ none))
unfolding resync find
resync-cases name j [] tail named = inr (ap some (omega arith), refl, refl)
resync-cases name j (p ∷ ps) tail named = elim (Bool-cases (streq name p.name)) [
  | inl same ↦
      inl
        (0, p, rw (named.0, same) (ap some (omega arith)), refl, omega arith, named.0, rw same refl)
  | inr ne ↦ elim (resync-cases name (suc j) ps tail named.1) [
    | inl (i, q, run, at, small, full, found) ↦
        let e : suc j + i ≡ j + suc i = omega arith in
        inl (suc i, q, rw (named.0, ne) (run ∙ ap some e), at, omega arith, full, rw ne found)
    | inr (run, at, miss) ↦
        let e : suc j + length ps ≡ j + suc (length ps) = omega arith in
        inr (rw (named.0, ne) (run ∙ ap some e), at, rw ne miss)
  ]
]

-- The entry at an index: an interface, or an unused one.
at_index :
    (ps tail : List Perintf) (j : ℕ)
    → j ≤ suc (length ps)
    → ((q : Perintf) × (get_elem? (ps ++ zero_perintf ∷ zero_perintf ∷ tail) j ≡ some q)
        × (get_elem? ps j ≡ some q)
        × (j < length ps))
      ⊎ (get_elem? (ps ++ zero_perintf ∷ zero_perintf ∷ tail) j ≡ some zero_perintf)
at_index [] tail zero h = inr refl
at_index [] tail (suc zero) h = inr refl
at_index [] tail (suc (suc j)) h = absurd (omega arith)
at_index (p ∷ ps) tail zero h = inl (p, refl, refl, omega arith)
at_index (p ∷ ps) tail (suc j) h = elim (at_index ps tail j (omega arith)) [
  | inl (q, a, b, c) ↦ inl (q, a, b, omega arith)
  | inr a ↦ inr a
]

last_round :
    (pre ctail devs : List Perintf) (d : Perintf) (j : ℕ)
    → deviate_intfs pre (zero_perintf ∷ ctail) (d ∷ devs) j
      ≡ some (zero_perintf ∷ ctail, record d { name = [] } ∷ devs, 0)
unfolding deviate_intfs
last_round pre ctail devs d j = refl

module _ (pre cur devs : List Perintf) (c d : Perintf) (j : ℕ)
    (full : is_empty c.name ≡ false) where
  -- The rounds of the loop: the entry at the index fits, or the search finds one, or none.
  fits :
      (q : Perintf) (cur' devs' : List Perintf) (n : ℕ)
      → get_elem? pre j ≡ some q
      → streq c.name q.name ≡ true
      → deviate_intfs pre cur devs (suc j) ≡ some (cur', devs', n)
      → deviate_intfs pre (c ∷ cur) (d ∷ devs) j
        ≡ some (record c { speedp = q.speed } ∷ cur', intf_diff d c q ∷ devs', suc n)
  unfolding deviate_intfs
  fits q cur' devs' n at same rest = rw (deviate_intfs, full, at, same, at, rest) refl

  resynced :
      (p q : Perintf) (j' : ℕ) (cur' devs' : List Perintf) (n : ℕ)
      → get_elem? pre j ≡ some p
      → streq c.name p.name ≡ false
      → resync c.name 0 pre ≡ some j'
      → get_elem? pre j' ≡ some q
      → is_empty q.name ≡ false
      → deviate_intfs pre cur devs (suc j') ≡ some (cur', devs', n)
      → deviate_intfs pre (c ∷ cur) (d ∷ devs) j
        ≡ some (record c { speedp = q.speed } ∷ cur', intf_diff d c q ∷ devs', suc n)
  unfolding deviate_intfs
  resynced p q j' cur' devs' n at ne found at' named rest =
      rw (deviate_intfs, full, at, ne, found, at') (ground (arith, named, rest))

  missed :
      (p q : Perintf) (j' : ℕ) (cur' devs' : List Perintf) (n : ℕ)
      → get_elem? pre j ≡ some p
      → streq c.name p.name ≡ false
      → resync c.name 0 pre ≡ some j'
      → get_elem? pre j' ≡ some q
      → is_empty q.name ≡ true
      → deviate_intfs pre cur devs 1 ≡ some (cur', devs', n)
      → deviate_intfs pre (c ∷ cur) (d ∷ devs) j ≡ some (c ∷ cur', c ∷ devs', suc n)
  unfolding deviate_intfs
  missed p q j' cur' devs' n at ne found at' unnamed rest =
      rw (deviate_intfs, full, at, ne, found, at') (ground (arith, unnamed, rest))

-- The values of an interface that was there, and of one that was not.
known :
    (used cur' devs' : List Perintf) (c d q : Perintf) (n : ℕ)
    (run : Option (List Perintf × List Perintf × ℕ))
    → find c.name used ≡ some q
    → run ≡ some (record c { speedp = q.speed } ∷ cur', intf_diff d c q ∷ devs', suc n)
    → run ≡ some (with_speedp used c ∷ cur', deviation used d c ∷ devs', suc n)
unfolding with_speedp deviation
known used cur' devs' c d q n run found e = rw (with_speedp, deviation, found) e

unknown :
    (used cur' devs' : List Perintf) (c d : Perintf) (n : ℕ)
    (run : Option (List Perintf × List Perintf × ℕ))
    → find c.name used ≡ none
    → run ≡ some (c ∷ cur', c ∷ devs', suc n)
    → run ≡ some (with_speedp used c ∷ cur', deviation used d c ∷ devs', suc n)
unfolding with_speedp deviation
unknown used cur' devs' c d n run miss e = rw (with_speedp, deviation, miss) e

-- The array of the current sample and its unused entries are left as the loop found them, but for
-- the speeds.
module _ (used tail ctail : List Perintf) (named : AreNamed used)
    (distinct : AreDistinct used) where
  array : List Perintf
  array = used ++ zero_perintf ∷ zero_perintf ∷ tail

  rounds :
      (cs devs : List Perintf) (j : ℕ)
      → AreNamed cs
      → j ≤ suc (length used)
      → suc (length cs) ≤ length devs
      → deviate_intfs array (cs ++ zero_perintf ∷ ctail) devs j
        ≡ some (with_speeds used cs (zero_perintf ∷ ctail), expected used cs devs, length cs)
  unfolding array with_speeds expected
  rounds cs [] j names low room = absurd (omega arith)
  rounds [] (d ∷ devs) j names low room = last_round array ctail devs d j
  rounds (c ∷ cs) (d ∷ devs) j names low room =
      let next = λ (k : ℕ) (h : k ≤ suc (length used)). rounds cs devs k names.1 h (omega arith) in
      let cur = cs ++ zero_perintf ∷ ctail in
      let cur' = with_speeds used cs (zero_perintf ∷ ctail) in
      let devs' = expected used cs devs in
      let n = length cs in
      let searched : (p : Perintf)
          → get_elem? array j ≡ some p
          → streq c.name p.name ≡ false
          → deviate_intfs array (c ∷ cur) (d ∷ devs) j
            ≡ some (with_speedp used c ∷ cur', deviation used d c ∷ devs', suc n) =
        λ p at ne. elim (resync-cases c.name 0 used (zero_perintf ∷ tail) named) [
          | inl (i, q, run, at', small, full, found) ↦
              known used cur' devs' c d q n (deviate_intfs array (c ∷ cur) (d ∷ devs) j) found (
                resynced array cur devs c d j names.0 p q i cur' devs' n at ne
                  (run ∙ ap some (omega arith)) at' full (next (suc i) (omega arith)))
          | inr (run, at', miss) ↦
              unknown used cur' devs' c d n (deviate_intfs array (c ∷ cur) (d ∷ devs) j) miss (
                missed array cur devs c d j names.0 p zero_perintf (length used) cur' devs' n at ne
                  (run ∙ ap some (omega arith)) at' refl (next 1 (omega arith)))
        ] in
      elim (at_index used tail j low) [
        | inl (p, at, inside, small) ↦ elim (Bool-cases (streq c.name p.name)) [
          | inl same ↦
              known used cur' devs' c d p n (deviate_intfs array (c ∷ cur) (d ∷ devs) j)
                (find-at c.name used j p distinct inside same)
                (fits array cur devs c d j names.0 p cur' devs' n at same
                  (next (suc j) (omega arith)))
          | inr ne ↦ searched p at ne
        ]
        | inr at ↦ searched zero_perintf at (streq_ne c.name [] names.0 refl)
      ]

  -- Where the previous sample's array holds interfaces with different names, two unused entries
  -- and anything behind them, and the array of the deviations has room for the current interfaces
  -- and an empty entry, the loop makes no invalid access and comes to the same as a lookup
  -- by name, in whatever order the interfaces stand in the current sample: one that was there gets
  -- its deviations and its previous speed, one that was not keeps its counters as they are, an
  -- empty name ends the array, and the interfaces are counted.
  pub deviate_intfs-expected :
      (cs devs : List Perintf)
      → AreNamed cs
      → suc (length cs) ≤ length devs
      → deviate_intfs
          (used ++ zero_perintf ∷ zero_perintf ∷ tail)
          (cs ++ zero_perintf ∷ ctail)
          devs
          0
        ≡ some (with_speeds used cs (zero_perintf ∷ ctail), expected used cs devs, length cs)
  unfolding array
  deviate_intfs-expected cs devs names room = rounds cs devs 0 names (omega arith) room

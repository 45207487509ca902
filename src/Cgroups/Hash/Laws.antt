-- ===== src/Cgroups/Hash/Laws.antt =====
-- What the hash lists find, and what the hash says of a path.
use atop.Prelude.{
  ℕ, ◌≡◌, refl, sym, ap, ◌∙◌, false, inl, inr, List, [], ◌∷◌, Option, none, some, ◌==◌, ==_refl,
  ==_iff, if◌then◌else◌, Bool-cases, arith,
}
use atop.Prelude.Int.{ℤ, eqb_ℤ, eqb_iff}
use atop.Prelude.Partial.{or_else, or_else_assoc, or_else-none}
use atop.Cgroups.{Cgchainer}
use atop.Cgroups.Hash.{slot, Table, empty_table, hashadd, find_in, hashfind, add_chain}

-- The last group of a chain with this hash.
unfoldable pub latest : ℤ → List Cgchainer → Option Cgchainer
latest hash [] = none
latest hash (cp ∷ rest) = elim (latest hash rest) [
  | none ↦ if eqb_ℤ hash cp.cstat.gen.namehash then some cp else none
  | some found ↦ some found
]

-- The answer of one group by itself.
abbrev pub own : ℤ → Cgchainer → Option Cgchainer
own hash cp = if eqb_ℤ hash cp.cstat.gen.namehash then some cp else none

find_in-cons :
    (hash : ℤ) (cp : Cgchainer) (rest : List Cgchainer)
    → find_in hash (cp ∷ rest) ≡ or_else (own hash cp) (find_in hash rest)
unfolding find_in
find_in-cons hash cp rest = elim (Bool-cases (eqb_ℤ hash cp.cstat.gen.namehash)) [
  | inl same ↦ rw same refl
  | inr other ↦ rw other refl
]

hashadd-slot :
    (cp : Cgchainer) (t : Table) (i : ℕ)
    → slot cp.cstat.gen.namehash ≡ i
    → hashadd cp t i ≡ cp ∷ t i
unfolding hashadd
hashadd-slot cp t i e = rw (e, ==_refl i) refl

hashadd-other :
    (cp : Cgchainer) (t : Table) (i : ℕ)
    → (i == slot cp.cstat.gen.namehash) ≡ false
    → hashadd cp t i ≡ t i
unfolding hashadd
hashadd-other cp t i e = rw e refl

pub own_same : (hash : ℤ) (cp : Cgchainer) → hash ≡ cp.cstat.gen.namehash → own hash cp ≡ some cp
own_same hash cp e = rw ((eqb_iff hash cp.cstat.gen.namehash).1 e) refl

own_other :
    (hash : ℤ) (cp : Cgchainer) → eqb_ℤ hash cp.cstat.gen.namehash ≡ false → own hash cp ≡ none
own_other hash cp e = rw e refl

hashfind-hashadd :
    (cp : Cgchainer) (t : Table) (hash : ℤ)
    → hashfind (hashadd cp t) hash ≡ or_else (own hash cp) (hashfind t hash)
unfolding hashfind
hashfind-hashadd cp t hash = elim (Bool-cases (slot hash == slot cp.cstat.gen.namehash)) [
  | inl near ↦
      ap (find_in hash) (
        hashadd-slot cp t (slot hash)
          (sym ((==_iff (slot hash) (slot cp.cstat.gen.namehash)).0 near)))
      ∙ find_in-cons hash cp (t (slot hash))
  | inr far ↦ elim (Bool-cases (eqb_ℤ hash cp.cstat.gen.namehash)) [
    | inl same ↦ absurd (ground (arith, far, ap slot ((eqb_iff hash cp.cstat.gen.namehash).0 same)))
    | inr other ↦
        ap (find_in hash) (hashadd-other cp t (slot hash) far)
        ∙ ap (λ o. or_else o (find_in hash (t (slot hash)))) (sym (own_other hash cp other))
  ]
]

pub latest-cons :
    (hash : ℤ) (cp : Cgchainer) (rest : List Cgchainer)
    → latest hash (cp ∷ rest) ≡ or_else (latest hash rest) (own hash cp)
unfolding latest
latest-cons hash cp rest =
    elim (latest hash rest)
      as (λ o.
        elim o [
          | none ↦ if eqb_ℤ hash cp.cstat.gen.namehash then some cp else none
          | some found ↦ some found
        ]
        ≡ or_else o (if eqb_ℤ hash cp.cstat.gen.namehash then some cp else none)) [
          | none ↦ refl
          | some found ↦ refl
        ]

hashfind-chain :
    (chain : List Cgchainer) (t : Table) (hash : ℤ)
    → hashfind (add_chain chain t) hash ≡ or_else (latest hash chain) (hashfind t hash)
unfolding add_chain latest
hashfind-chain [] t hash = refl
hashfind-chain (cp ∷ rest) t hash =
    hashfind-chain rest (hashadd cp t) hash
    ∙ ap (or_else (latest hash rest)) (hashfind-hashadd cp t hash)
    ∙ or_else_assoc (latest hash rest) (own hash cp) (hashfind t hash)
    ∙ ap (λ o. or_else o (hashfind t hash)) (sym (latest-cons hash cp rest))

hashfind-empty : (hash : ℤ) → hashfind empty_table hash ≡ none
unfolding hashfind empty_table find_in
hashfind-empty hash = refl

-- The hash lists of a whole chain, for any hash: the last group of the chain with this hash is
-- found, and none if there is none.
pub hashfind-latest :
    (chain : List Cgchainer) (hash : ℤ)
    → hashfind (add_chain chain empty_table) hash ≡ latest hash chain
hashfind-latest chain hash =
    hashfind-chain chain empty_table hash
    ∙ ap (or_else (latest hash chain)) (hashfind-empty hash)
    ∙ or_else-none (latest hash chain)

-- ===== src/Cgroups/Deviate/Laws.antt =====
-- The deviations against their description, and what they add up to.
use atop.Prelude.{
  ◌≡◌, refl, sym, ap, ap₂, subst, ◌∙◌, true, false, inl, inr, List, [], ◌∷◌, ◌++◌, none, some,
  Bool-cases, append_assoc,
}
use atop.Prelude.Int.{eqb_iff}
use atop.Prelude.Partial.{or_else}
use atop.Cgroups.{Cgchainer}
use atop.Cgroups.Hash.{Table, empty_table, add_chain}
use atop.Cgroups.Hash.Laws.{latest, latest-cons, own_same, hashfind-latest}
use atop.Cgroups.Deviate.{
  Cursor, cgrewind, cgnext, same_hash, group_diff, deviate_found, deviate_by_hash, out_of_sync,
  in_sync, cgcalcdeviate,
}

-- The name hashes in a chain differ.
abbrev pub HashesDiffer : List Cgchainer → Type 0
HashesDiffer [] = Unit
HashesDiffer (cp ∷ rest) = (latest cp.cstat.gen.namehash rest ≡ none) × HashesDiffer rest

-- Each group against the group of the previous sample with its name hash, if there is one.
unfoldable pub deviations : List Cgchainer → List Cgchainer → List Cgchainer
deviations first [] = []
deviations first (dp ∷ rest) =
    deviate_found dp (latest dp.cstat.gen.namehash first) ∷ deviations first rest

latest-middle :
    (done : List Cgchainer) (pp : Cgchainer) (later : List Cgchainer)
    → HashesDiffer (done ++ (pp ∷ later))
    → latest pp.cstat.gen.namehash (done ++ (pp ∷ later)) ≡ some pp
latest-middle [] pp later (absent, d) =
    latest-cons pp.cstat.gen.namehash pp later
    ∙ ap₂ or_else absent (own_same pp.cstat.gen.namehash pp refl)
latest-middle (c ∷ done) pp later (absent, d) =
    rw (latest-cons pp.cstat.gen.namehash c (done ++ (pp ∷ later)), latest-middle done pp later d)
      refl

out_of_sync-deviations :
    (first devs : List Cgchainer)
    → out_of_sync (add_chain first empty_table) devs ≡ deviations first devs
unfolding out_of_sync deviations deviate_by_hash
out_of_sync-deviations first [] = refl
out_of_sync-deviations first (dp ∷ rest) =
    ap₂ (λ o l. deviate_found dp o ∷ l) (hashfind-latest first dp.cstat.gen.namehash)
      (out_of_sync-deviations first rest)

in_sync_end :
    (first : List Cgchainer) (dp : Cgchainer) (rest : List Cgchainer) (cursor : Cursor) (t : Table)
    → cgnext first cursor ≡ []
    → in_sync first (dp ∷ rest) cursor t ≡ out_of_sync (add_chain first t) (dp ∷ rest)
unfolding in_sync
in_sync_end first dp rest cursor t e = rw (in_sync, e) refl

in_sync_lost :
    (first : List Cgchainer) (dp : Cgchainer) (rest : List Cgchainer) (cursor : Cursor) (t : Table)
    (pp : Cgchainer) (later : List Cgchainer)
    → cgnext first cursor ≡ pp ∷ later
    → same_hash dp pp ≡ false
    → in_sync first (dp ∷ rest) cursor t ≡ out_of_sync (add_chain first t) (dp ∷ rest)
unfolding in_sync
in_sync_lost first dp rest cursor t pp later e f = rw (in_sync, e, f) refl

in_sync_same :
    (first : List Cgchainer) (dp : Cgchainer) (rest : List Cgchainer) (cursor : Cursor) (t : Table)
    (pp : Cgchainer) (later : List Cgchainer)
    → cgnext first cursor ≡ pp ∷ later
    → same_hash dp pp ≡ true
    → in_sync first (dp ∷ rest) cursor t ≡ group_diff dp pp ∷ in_sync first rest (pp ∷ later) t
unfolding in_sync
in_sync_same first dp rest cursor t pp later e f =
    rw (in_sync, e, f) (ap (λ c. group_diff dp pp ∷ in_sync first rest c t) e)

in_sync-deviations :
    (devs first done later : List Cgchainer) (cursor : Cursor)
    → first ≡ done ++ later
    → cgnext first cursor ≡ later
    → HashesDiffer first
    → in_sync first devs cursor empty_table ≡ deviations first devs
unfolding deviations in_sync cgnext deviate_found
in_sync-deviations [] first done later cursor e n d = refl
in_sync-deviations (dp ∷ rest) first done [] cursor e n d =
    in_sync_end first dp rest cursor empty_table n ∙ out_of_sync-deviations first (dp ∷ rest)
in_sync-deviations (dp ∷ rest) first done (pp ∷ later) cursor e n d =
    elim (Bool-cases (same_hash dp pp)) [
      | inr other ↦
          in_sync_lost first dp rest cursor empty_table pp later n other
          ∙ out_of_sync-deviations first (dp ∷ rest)
      | inl same ↦
          let h : dp.cstat.gen.namehash ≡ pp.cstat.gen.namehash =
            (eqb_iff dp.cstat.gen.namehash pp.cstat.gen.namehash).0 same in
          let middle = latest-middle done pp later (subst HashesDiffer e d) in
          let found : latest dp.cstat.gen.namehash first ≡ some pp = rw (h, e) middle in
          in_sync_same first dp rest cursor empty_table pp later n same
          ∙ ap₂ (λ o l. deviate_found dp o ∷ l) (sym found)
              (in_sync-deviations rest first (done ++ (pp ∷ [])) later (pp ∷ later)
                (e ∙ sym (append_assoc done (pp ∷ []) later)) refl d)
    ]

-- The deviations of all groups, when no two groups of the previous sample have the same name hash:
-- whether or not groups came, went or moved, each group is compared with the group of the previous
-- sample that has its name hash, and a group without one keeps its own counters.
pub cgcalcdeviate-deviations :
    (first devs : List Cgchainer)
    → HashesDiffer first
    → cgcalcdeviate first devs ≡ deviations first devs
unfolding cgnext cgcalcdeviate
cgcalcdeviate-deviations first devs d = in_sync-deviations devs first [] first cgrewind refl refl d

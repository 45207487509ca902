-- ===== src/Cgroups/Path/Full.antt =====
-- The whole path of each group of a chain.
use atop.Prelude.{
  ℕ, zero, suc, ◌+◌, ◌≡◌, refl, sym, ap, ap₂, ◌∙◌, subst, false, ◌⊎◌, inl, inr, List, [], ◌∷◌, ◌++◌,
  some, length, get_elem?, has, ◌||◌, arith, append_assoc, length-append, some_inj,
}
use atop.Prelude.Int.{ℤ, pos}
use atop.Cgroups.{Cgchainer}
use atop.Cgroups.Hash.{weigh, hashcalc}
use atop.Cgroups.Hash.Paths.{places, hashcalc-append, weigh-slash}
use atop.Cgroups.Walk.Tree.{IsPlaced, ArePlaced, get-before}
use atop.Cgroups.Path.Climb.{IsFilename, AreFilenames, PathOf}

has-append : (a : ℕ) (xs ys : List ℕ) → has a (xs ++ ys) ≡ (has a xs || has a ys)
unfolding has
has-append a [] ys = refl
has-append a (x ∷ xs) ys = ground (arith, has-append a xs ys)

places-append : (p q : List ℕ) → places (p ++ q) ≡ places p + places q
unfolding places
places-append [] q = omega arith
places-append (c ∷ p) q = ground (arith, places-append p q)

places-filename : (name : List ℕ) → has b'/' name ≡ false → places name ≡ length name
unfolding places has
places-filename [] h = refl
places-filename (c ∷ name) h = ground (arith, places-filename name)

places-component : (name : List ℕ) → has b'/' name ≡ false → places (b'/' ∷ name) ≡ length name
unfolding places
places-component name h = places-filename name h

hashcalc-slash :
    (name : List ℕ) (base : ℤ) (offset : ℕ)
    → hashcalc (b'/' ∷ name) base offset ≡ hashcalc name base offset
unfolding hashcalc
hashcalc-slash name base offset = weigh-slash b'/' name base (offset + 1) refl

-- The bytes of a path that count, its hash, and that it is one string.
pub PathOf-hash :
    (n : ℕ) (chain : List Cgchainer) (cc : Cgchainer) (path : List ℕ)
    → PathOf n chain cc path
    → (places path ≡ cc.cstat.gen.fullnamelen)
      × (hashcalc path (pos 0) 0 ≡ cc.cstat.gen.namehash)
      × (has 0 path ≡ false)
unfolding has places hashcalc weigh
PathOf-hash zero chain cc path ((own, seq, depth, name, full, hash), e) =
    (ap places e ∙ sym full, ap (λ p. hashcalc p (pos 0) 0) e ∙ sym hash, ap (has 0) e)
PathOf-hash (suc n) chain cc path
      (k, parent, above, at, (seq, depth, full, hash), len, (nul, slash), up, e) =
    let (size, sum, string) = PathOf-hash n chain parent above up in
    let name = cc.cstat.cgname in
    (
      ap places e
          ∙ omega (
            arith,
            places-append above (b'/' ∷ name),
            places-component name slash,
            size,
            full,
            len,
          ),
      ap (λ p. hashcalc p (pos 0) 0) e
          ∙ hashcalc-append above (b'/' ∷ name) (pos 0) 0
          ∙ hashcalc-slash name (hashcalc above (pos 0) 0) (places above + 0)
          ∙ ap₂ (hashcalc name) sum (omega (arith, size))
          ∙ sym hash,
      ap (has 0) e ∙ has-append 0 above (b'/' ∷ name) ∙ rw (string, nul) refl,
    )

get-snoc :
    (xs : List Cgchainer) (x y : Cgchainer) (k : ℕ)
    → get_elem? (xs ++ (x ∷ [])) k ≡ some y
    → (get_elem? xs k ≡ some y) ⊎ (x ≡ y)
get-snoc [] x y zero h = inr (some_inj x y h)
get-snoc [] x y (suc k) h = ground arith
get-snoc (z ∷ xs) x y zero h = inl h
get-snoc (z ∷ xs) x y (suc k) h = get-snoc xs x y k h

abbrev pub HasPath : List Cgchainer → Cgchainer → Type 0
HasPath chain cc = (n : ℕ) × (path : List ℕ) × PathOf n chain cc path

-- A group has a path when the groups before it have one.
placed-HasPath :
    (chain before : List Cgchainer) (cc : Cgchainer) (rest : List Cgchainer)
    → chain ≡ before ++ (cc ∷ rest)
    → ((k : ℕ) (up : Cgchainer) → get_elem? before k ≡ some up → HasPath chain up)
    → IsPlaced before cc
    → IsFilename cc.cstat.cgname
    → HasPath chain cc
placed-HasPath chain before cc rest e paths ((seq, procs, len), (k, parent, at, child)) file =
    let (n, above, up) = paths k parent at in
    let found : get_elem? chain k ≡ some parent =
      ap (λ l. get_elem? l k) e ∙ get-before before (cc ∷ rest) k parent at in
    (
      suc n,
      above ++ (b'/' ∷ cc.cstat.cgname),
      (k, parent, above, found, child, len, file, up, refl),
    )

pub rest-HasPath :
    (rest before chain : List Cgchainer) (j : ℕ) (cc : Cgchainer)
    → chain ≡ before ++ rest
    → ((k : ℕ) (up : Cgchainer) → get_elem? before k ≡ some up → HasPath chain up)
    → ArePlaced before rest
    → AreFilenames rest
    → get_elem? rest j ≡ some cc
    → (cc.cstat.gen.sequence ≡ length before + j) × HasPath chain cc
rest-HasPath [] before chain j cc e paths placed files at = ground arith
rest-HasPath (x ∷ rest) before chain zero cc e paths (p, placed) (file, files) at =
    let same = some_inj x cc at in
    let path = placed-HasPath chain before x rest e paths p file in
    (
      ap (λ c. c.cstat.gen.sequence) (sym same) ∙ omega (arith, p.0.0),
      subst (HasPath chain) same path,
    )
rest-HasPath (x ∷ rest) before chain (suc j) cc e paths (p, placed) (file, files) at =
    let grown = before ++ (x ∷ []) in
    let path = placed-HasPath chain before x rest e paths p file in
    let paths' : (k : ℕ) (up : Cgchainer) → get_elem? grown k ≡ some up → HasPath chain up =
      λ k up h. elim (get-snoc before x up k h) [
        | inl old ↦ paths k up old
        | inr same ↦ subst (HasPath chain) same path
      ] in
    let (seq, found) =
      rest-HasPath rest grown chain j cc (e ∙ sym (append_assoc before (x ∷ []) rest)) paths' placed
        files at in
    (omega (arith, seq, length-append before (x ∷ [])), found)

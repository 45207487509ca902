-- ===== src/Cgroups/Path/Escape.antt =====
-- Doubling the backslashes of a path: when there is room, and when there is not.
use atop.Prelude.{
  ℕ, suc, ◌+◌, ◌-◌, ◌≤◌, ◌<◌, ◌≡◌, refl, sym, ap, ◌∙◌, ◌⊎◌, true, false, inl, inr, List, [], ◌∷◌,
  ◌++◌, none, some, length, ltb, leb, ◌==◌, if◌then◌else◌, Bool-cases, arith, append-nil,
  length-append,
}
use atop.Prelude.Partial.{◌>>=◌}
use atop.Cgroups.Path.{maxescapes, backslash, doubled_byte, escape}

-- The string with each backslash doubled.
unfoldable pub doubled : List ℕ → List ℕ
doubled [] = []
doubled (c ∷ rest) = doubled_byte c ++ doubled rest

unfoldable pub backslashes : List ℕ → ℕ
backslashes [] = 0
backslashes (c ∷ rest) = if c == backslash then suc (backslashes rest) else backslashes rest

escape_more :
    (pathlen po c : ℕ) (rest : List ℕ)
    → po + length (doubled_byte c) + 1 < pathlen
    → escape pathlen po (c ∷ rest)
      ≡ (escape pathlen (po + length (doubled_byte c)) rest >>= λ l. some (doubled_byte c ++ l))
unfolding escape
escape_more pathlen po c rest h =
    let a : ltb pathlen (po + length (doubled_byte c)) ≡ false = ground arith in
    let b : leb (pathlen - 1) (po + length (doubled_byte c)) ≡ false = ground arith in
    rw (escape, a, b) refl

escape_last :
    (pathlen po c : ℕ)
    → po + length (doubled_byte c) + 1 ≡ pathlen
    → escape pathlen po (c ∷ []) ≡ some (doubled_byte c)
unfolding escape
escape_last pathlen po c h =
    let a : ltb pathlen (po + length (doubled_byte c)) ≡ false = ground arith in
    let b : leb (pathlen - 1) (po + length (doubled_byte c)) ≡ true = ground arith in
    let d : ltb (po + length (doubled_byte c)) pathlen ≡ true = ground arith in
    rw (escape, a, b, d) refl

escape_beyond :
    (pathlen po : ℕ) (u : List ℕ) → po + 2 ≡ pathlen → escape pathlen po (backslash ∷ u) ≡ none
unfolding escape
escape_beyond pathlen po u h =
    let a : ltb pathlen (po + 2) ≡ false = ground arith in
    let b : leb (pathlen - 1) (po + 2) ≡ true = ground arith in
    let d : ltb (po + 2) pathlen ≡ false = ground arith in rw (escape, a, b, d) refl

lt-cases : (a b : ℕ) → (a < b) ⊎ (b ≤ a)
lt-cases a b = ground arith

length-doubled_byte : (c : ℕ) → 1 ≤ length (doubled_byte c)
length-doubled_byte c = elim (Bool-cases (c == backslash)) [
  | inl e ↦ rw e (omega arith)
  | inr e ↦ rw e (omega arith)
]

length-doubled : (s : List ℕ) → length (doubled s) ≡ length s + backslashes s
unfolding doubled backslashes
length-doubled [] = omega arith
length-doubled (c ∷ rest) = elim (Bool-cases (c == backslash)) [
  | inl e ↦ rw e (omega (arith, length-doubled rest))
  | inr e ↦ rw e (omega (arith, length-doubled rest))
]

escape_end : (pathlen po : ℕ) → po < pathlen → escape pathlen po [] ≡ some []
unfolding escape
escape_end pathlen po h = ground arith

-- Room for the doubled string is enough.
escape_fits :
    (pathlen po : ℕ) (s : List ℕ)
    → po + length (doubled s) + 1 ≤ pathlen
    → escape pathlen po s ≡ some (doubled s)
unfolding doubled
escape_fits pathlen po [] h = escape_end pathlen po (omega arith)
escape_fits pathlen po (c ∷ []) h =
    let n = length-append (doubled_byte c) [] in
    let e = sym (append-nil (doubled_byte c)) in
    elim (lt-cases (po + length (doubled_byte c) + 1) pathlen) [
      | inl room ↦
          escape_more pathlen po c [] room
          ∙ rw (escape_end pathlen (po + length (doubled_byte c)) (omega arith)) refl
      | inr full ↦ escape_last pathlen po c (omega (arith, n)) ∙ ap some e
    ]
escape_fits pathlen po (c ∷ d ∷ rest) h =
    let n = length-append (doubled_byte c) (doubled_byte d ++ doubled rest) in
    let m = length-append (doubled_byte d) (doubled rest) in
    let one = length-doubled_byte d in
    escape_more pathlen po c (d ∷ rest) (omega (arith, n, m, one))
    ∙ rw (escape_fits pathlen (po + length (doubled_byte c)) (d ∷ rest) (omega (arith, n))) refl

-- `cggetpath` on a path with at most 16 backslashes: the area that it allocates is large enough, and
-- every backslash of the path is doubled, with nothing cut off.
pub escape-doubled :
    (path : List ℕ)
    → backslashes path ≤ maxescapes
    → escape (length path + 1 + maxescapes) 0 path ≡ some (doubled path)
escape-doubled path h =
    escape_fits (length path + 1 + maxescapes) 0 path (omega (arith, length-doubled path))

overrun_from :
    (pathlen po : ℕ) (t u : List ℕ)
    → po + length (doubled t) + 2 ≡ pathlen
    → escape pathlen po (t ++ (backslash ∷ u)) ≡ none
unfolding doubled
overrun_from pathlen po [] u h = escape_beyond pathlen po u (omega arith)
overrun_from pathlen po (c ∷ t) u h =
    let n = length-append (doubled_byte c) (doubled t) in
    escape_more pathlen po c (t ++ (backslash ∷ u)) (omega (arith, n))
    ∙ rw (overrun_from pathlen (po + length (doubled_byte c)) t u (omega (arith, n))) refl

-- `cggetpath` on a path that has, before some backslash, as many bytes and backslashes together as
-- the whole path has bytes and 15 more (so more than 16 backslashes in all): the doubled backslash
-- ends at the end of the allocated area, and the terminating byte is written behind it.
pub escape-overrun :
    (t u : List ℕ)
    → length t + backslashes t ≡ length (t ++ (backslash ∷ u)) + 15
    → escape (length (t ++ (backslash ∷ u)) + 1 + maxescapes) 0 (t ++ (backslash ∷ u)) ≡ none
escape-overrun t u h =
    overrun_from (length (t ++ (backslash ∷ u)) + 1 + maxescapes) 0 t u
      (omega (arith, length-doubled t))

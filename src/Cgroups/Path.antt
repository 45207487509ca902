-- ===== src/Cgroups/Path.antt =====
-- cgroups.c: `cggetpath`, the path of a group. A write outside an allocated area is `none`.
pub mod Escape
pub mod Climb
pub mod Full
pub mod Laws
mod Tests
use atop.Prelude.{
  ℕ, zero, suc, ◌+◌, ◌-◌, Bool, true, false, ◌&&◌, List, [], ◌∷◌, ◌++◌, Option, none, some, length,
  get_elem?, has, ltb, leb, ◌==◌, if◌then◌else◌,
}
use atop.Prelude.Int.{ℤ, pos, negsuc}
use atop.Prelude.Partial.{◌>>=◌}
use atop.Cgroups.{Cggen, Cstat, Cgchainer}

-- An area of zeros, as from `calloc`.
unfoldable pub zeros : ℕ → List ℕ
zeros zero = []
zeros (suc n) = 0 ∷ zeros n

-- `memcpy` of these bytes to an area, from an offset on.
unfoldable pub poke : List ℕ → ℕ → List ℕ → Option (List ℕ)
poke area zero [] = some area
poke [] zero (b ∷ bytes) = none
poke (a ∷ area) zero (b ∷ bytes) = poke area zero bytes >>= λ l. some (b ∷ l)
poke [] (suc at) bytes = none
poke (a ∷ area) (suc at) bytes = poke area at bytes >>= λ l. some (a ∷ l)

-- The string in an area: its bytes before the NUL.
unfoldable pub c_string : List ℕ → List ℕ
c_string [] = []
c_string (b ∷ area) = if b == 0 then [] else b ∷ c_string area

-- The loop that places the components, the last one first. The chain is the array `cdbase`.
unfoldable pub climb : ℕ → List Cgchainer → Cgchainer → List ℕ → Option (List ℕ)
climb zero base cdp path = none
climb (suc fuel) base cdp path =
    let g = cdp.cstat.gen in
    elim g.parentseq [
      | negsuc zero ↦ some path
      | negsuc (suc n) ↦ none
      | pos k ↦ do
        placed ← poke path (g.fullnamelen - g.namelen + g.depth - 1) (b'/' ∷ cdp.cstat.cgname)
        parent ← get_elem? base k
        climb fuel base parent placed
    ]

abbrev pub maxescapes : ℕ
maxescapes = 16

abbrev pub backslash : ℕ
backslash = 92

-- What one byte becomes.
abbrev pub doubled_byte : ℕ → List ℕ
doubled_byte c = if c == backslash then backslash ∷ backslash ∷ [] else c ∷ []

-- The loop that doubles the backslashes, with `po - escpath`: the string in an area of `pathlen`.
unfoldable pub escape : ℕ → ℕ → List ℕ → Option (List ℕ)
escape pathlen po [] = if ltb po pathlen then some [] else none
escape pathlen po (c ∷ rest) =
    let po' = po + length (doubled_byte c) in
    let further = escape pathlen po' rest in
    if ltb pathlen po'
    then none
    else if leb (pathlen - 1) po'
    then if ltb po' pathlen then some (doubled_byte c) else none
    else further >>= λ l. some (doubled_byte c ++ l)

unfoldable pub pathlen_of : Cggen → ℕ
pathlen_of g = g.fullnamelen + g.depth + 1 + (if g.sequence == 0 then 1 else 0)

-- The path, assembled. `fuel` bounds the number of components and one.
unfoldable pub assemble : ℕ → List Cgchainer → Cgchainer → Option (List ℕ)
assemble fuel base cdp =
    let pathlen = pathlen_of cdp.cstat.gen in
    if cdp.cstat.gen.sequence == 0
    then (poke (zeros pathlen) 0 (b'/' ∷ 0 ∷ []) >>= λ path. some (c_string path))
    else do
      placed ← climb fuel base cdp (zeros pathlen)
      path ← poke placed (pathlen - 1) (0 ∷ [])
      some (c_string path)

unfoldable pub cggetpath : ℕ → List Cgchainer → Cgchainer → Bool → Option (List ℕ)
cggetpath fuel base cdp escdouble = do
  path ← assemble fuel base cdp
  if escdouble && has backslash path
      then escape (pathlen_of cdp.cstat.gen + maxescapes) 0 path
      else some path

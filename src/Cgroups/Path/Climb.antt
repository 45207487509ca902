-- ===== src/Cgroups/Path/Climb.antt =====
-- The path that is assembled: the names from the top directory down, and its hash.
pub mod Pokes
use atop.Prelude.{
  ℕ, zero, suc, ◌+◌, ◌-◌, ◌<◌, ◌≡◌, refl, sym, ap, ap₂, ◌∙◌, false, List, [], ◌∷◌, ◌++◌, Option,
  some, length, get_elem?, has, arith, append_assoc, length-append,
}
use atop.Prelude.Int.{pos, minus_one}
use atop.Cgroups.{Cgchainer}
use atop.Cgroups.Hash.{hashcalc}
use atop.Cgroups.Walk.Tree.{IsOwn, IsChild, IsRoot}
use atop.Cgroups.Path.{zeros, poke, climb}
use atop.Cgroups.Path.Climb.Pokes.{poke-component}

-- A file name has neither a NUL nor a slash.
abbrev pub IsFilename : List ℕ → Type 0
IsFilename name = (has 0 name ≡ false) × (has b'/' name ≡ false)

abbrev pub AreFilenames : List Cgchainer → Type 0
AreFilenames [] = Unit
AreFilenames (cc ∷ rest) = IsFilename cc.cstat.cgname × AreFilenames rest

-- The names of the groups from the top directory down to `cc`, which is `n` levels below it, each
-- after a slash.
abbrev pub PathOf : ℕ → List Cgchainer → Cgchainer → List ℕ → Type 0
PathOf zero chain cc path = IsRoot cc × (path ≡ [])
PathOf (suc n) chain cc path =
    (k : ℕ) × (parent : Cgchainer) × (above : List ℕ) × (get_elem? chain k ≡ some parent)
    × IsChild k parent cc
    × (cc.cstat.gen.namelen ≡ length cc.cstat.cgname)
    × IsFilename cc.cstat.cgname
    × PathOf n chain parent above
    × (path ≡ above ++ (b'/' ∷ cc.cstat.cgname))

pub PathOf-length :
    (n : ℕ) (chain : List Cgchainer) (cc : Cgchainer) (path : List ℕ)
    → PathOf n chain cc path
    → (length path ≡ cc.cstat.gen.fullnamelen + cc.cstat.gen.depth) × (cc.cstat.gen.depth ≡ n)
PathOf-length zero chain cc path ((own, seq, depth, name, full, hash), e) =
    (ap length e ∙ omega (arith, depth, full), depth)
PathOf-length (suc n) chain cc path
      (k, parent, above, at, (seq, depth, full, hash), len, file, up, e) =
    let ih = PathOf-length n chain parent above up in
    (
      ap length e
          ∙ omega (arith, length-append above (b'/' ∷ cc.cstat.cgname), ih.0, depth, full, len),
      omega (arith, depth, ih.1),
    )

climb_child :
    (fuel k : ℕ) (base : List Cgchainer) (cc parent : Cgchainer) (path placed : List ℕ)
    → cc.cstat.gen.parentseq ≡ pos k
    → get_elem? base k ≡ some parent
    → poke path
        (cc.cstat.gen.fullnamelen - cc.cstat.gen.namelen + cc.cstat.gen.depth - 1)
        (b'/' ∷ cc.cstat.cgname)
      ≡ some placed
    → climb (suc fuel) base cc path ≡ climb fuel base parent placed
unfolding climb
climb_child fuel k base cc parent path placed e at p = rw (climb, e, p, at) refl

climb_top :
    (fuel : ℕ) (base : List Cgchainer) (cc : Cgchainer) (path : List ℕ)
    → cc.cstat.gen.parentseq ≡ minus_one
    → climb (suc fuel) base cc path ≡ some path
unfolding climb
climb_top fuel base cc path e = rw (climb, e) refl

-- The components are placed from the end of the area on.
pub climb-PathOf :
    (n fuel : ℕ) (chain : List Cgchainer) (cc : Cgchainer) (path tail : List ℕ)
    → PathOf n chain cc path
    → n < fuel
    → climb fuel chain cc (zeros (length path) ++ tail) ≡ some (path ++ tail)
unfolding zeros
climb-PathOf n zero chain cc path tail p h = absurd (omega arith)
climb-PathOf zero (suc fuel) chain cc path tail ((own, seq, depth, name, full, hash), e) h =
    climb_top fuel chain cc (zeros (length path) ++ tail) seq ∙ ap some (rw e refl)
climb-PathOf (suc n) (suc fuel) chain cc path tail
      (k, parent, above, at, (seq, depth, full, hash), len, file, up, e) h =
    let new : List ℕ = b'/' ∷ cc.cstat.cgname in
    let long = PathOf-length n chain parent above up in
    let at_slash : cc.cstat.gen.fullnamelen - cc.cstat.gen.namelen + cc.cstat.gen.depth - 1
        ≡ length above =
      omega (arith, long.0, full, depth) in
    let placed : poke (zeros (length path) ++ tail)
          (cc.cstat.gen.fullnamelen - cc.cstat.gen.namelen + cc.cstat.gen.depth - 1) new
        ≡ some (zeros (length above) ++ (new ++ tail)) =
      ap₂ (λ l i. poke (zeros (length l) ++ tail) i new) e at_slash
      ∙ poke-component above new tail in
    climb_child fuel k chain cc parent (zeros (length path) ++ tail)
      (zeros (length above) ++ (new ++ tail)) seq at placed
    ∙ climb-PathOf n fuel chain parent above (new ++ tail) up (omega arith)
    ∙ ap some (sym (append_assoc above new tail) ∙ ap (λ l. l ++ tail) (sym e))

-- ===== src/Cgroups/Path/Climb/Pokes.antt =====
-- Areas of memory: what stands in them after a write.
use atop.Prelude.{
  ℕ, zero, suc, ◌+◌, ◌≡◌, refl, ap, ◌∙◌, false, List, [], ◌∷◌, ◌++◌, some, length, has, ◌==◌, arith,
  append_assoc, length-append, ap₂, sym,
}
use atop.Cgroups.Path.{zeros, poke, c_string}

poke-start :
    (new olds tail : List ℕ)
    → length olds ≡ length new
    → poke (olds ++ tail) 0 new ≡ some (new ++ tail)
unfolding poke
poke-start [] [] [] e = refl
poke-start [] [] (x ∷ tail) e = refl
poke-start [] (o ∷ olds) tail e = absurd (omega arith)
poke-start (b ∷ new) [] tail e = absurd (omega arith)
poke-start (b ∷ new) (o ∷ olds) tail e = rw (poke-start new olds tail (omega arith)) refl

pub poke-middle :
    (xs olds new tail : List ℕ)
    → length olds ≡ length new
    → poke (xs ++ (olds ++ tail)) (length xs) new ≡ some (xs ++ (new ++ tail))
unfolding poke
poke-middle [] olds new tail e = poke-start new olds tail e
poke-middle (x ∷ xs) olds new tail e = rw (poke-middle xs olds new tail e) refl

pub length-zeros : (n : ℕ) → length (zeros n) ≡ n
unfolding zeros
length-zeros zero = refl
length-zeros (suc n) = ap suc (length-zeros n)

pub zeros-append : (m n : ℕ) → zeros (m + n) ≡ zeros m ++ zeros n
unfolding zeros
zeros-append zero n = ap zeros (omega arith)
zeros-append (suc m) n =
    let e : suc m + n ≡ suc (m + n) = omega arith in ap zeros e ∙ ap (λ l. 0 ∷ l) (zeros-append m n)

pub c_string-nul : (s tail : List ℕ) → has 0 s ≡ false → c_string (s ++ (0 ∷ tail)) ≡ s
unfolding c_string has
c_string-nul [] tail h = refl
c_string-nul (c ∷ s) tail h =
    let e : (c == 0) ≡ false = ground arith in
    rw e (ap (λ l. c ∷ l) (c_string-nul s tail (ground arith)))

-- A component and its slash, placed before what stands there already.
pub poke-component :
    (above new tail : List ℕ)
    → poke (zeros (length (above ++ new)) ++ tail) (length above) new
      ≡ some (zeros (length above) ++ (new ++ tail))
poke-component above new tail =
    let n = length above in
    let split : zeros (length (above ++ new)) ++ tail ≡ zeros n ++ (zeros (length new) ++ tail) =
      ap (λ k. zeros k ++ tail) (length-append above new)
      ∙ ap (λ l. l ++ tail) (zeros-append n (length new))
      ∙ append_assoc (zeros n) (zeros (length new)) tail in
    ap₂ (λ l k. poke l k new) split (sym (length-zeros n))
    ∙ poke-middle (zeros n) (zeros (length new)) new tail (length-zeros (length new))

-- ===== src/Cgroups/Hash/Paths.antt =====
-- The hash of a path, piece by piece, and paths that it does not tell apart.
use atop.Prelude.{
  ℕ, suc, ◌+◌, ◌*◌, ◌<◌, ◌≡◌, refl, sym, ap, ◌∙◌, true, false, inl, inr, List, [], ◌∷◌, ◌++◌, ◌==◌,
  if◌then◌else◌, Bool-cases, arith,
}
use atop.Prelude.Int.{ℤ, pos, ◌+ℤ◌, int_laws}
use atop.Cgroups.Hash.{char_times, weigh, hashcalc}

-- How many bytes of a path have a place in the hash.
unfoldable pub places : List ℕ → ℕ
places [] = 0
places (c ∷ p) = if c == b'/' then places p else suc (places p)

pub weigh-slash :
    (c : ℕ) (p : List ℕ) (base : ℤ) (o : ℕ)
    → (c == b'/') ≡ true
    → weigh (c ∷ p) base o ≡ weigh p base o
unfolding weigh
weigh-slash c p base o e = rw e refl

pub weigh-other :
    (c : ℕ) (p : List ℕ) (base : ℤ) (o : ℕ)
    → (c == b'/') ≡ false
    → weigh (c ∷ p) base o ≡ weigh p (base +ℤ char_times c o) (suc o)
unfolding weigh
weigh-other c p base o e = rw e refl

pub weigh-append :
    (p q : List ℕ) (base : ℤ) (o : ℕ)
    → weigh (p ++ q) base o ≡ weigh q (weigh p base o) (places p + o)
unfolding weigh places
weigh-append [] q base o = ap (weigh q base) (omega arith)
weigh-append (c ∷ p) q base o = elim (Bool-cases (c == b'/')) [
  | inl slash ↦ rw slash (weigh-append p q base o)
  | inr other ↦
      let e : places p + suc o ≡ suc (places p) + o = omega arith in
      rw other (
        weigh-append p q (base +ℤ char_times c o) (suc o)
        ∙ ap (weigh q (weigh p (base +ℤ char_times c o) (suc o))) e)
]

-- The hash of a path is the hash of its end, from the hash of its beginning.
pub hashcalc-append :
    (p q : List ℕ) (base : ℤ) (offset : ℕ)
    → hashcalc (p ++ q) base offset ≡ hashcalc q (hashcalc p base offset) (places p + offset)
unfolding hashcalc
hashcalc-append p q base offset =
    weigh-append p q base (offset + 1) ∙ ap (weigh q (weigh p base (offset + 1))) (omega arith)

ascii_times : (c k : ℕ) → c < 128 → char_times c k ≡ pos (c * k)
unfolding char_times
ascii_times c k h = ground arith

three :
    (a b c o : ℕ) (base : ℤ)
    → base +ℤ pos (a * o) +ℤ pos ((b + 2) * suc o) +ℤ pos (c * suc (suc o))
      ≡ base +ℤ pos ((a + 1) * o) +ℤ pos (b * suc o) +ℤ pos ((c + 1) * suc (suc o))
three a b c o base = omega int_laws

weigh-three :
    (a b c : ℕ) (q : List ℕ) (base : ℤ) (o : ℕ)
    → 47 < a
    → 47 < b
    → 47 < c
    → a < 128
    → b < 128
    → c < 128
    → weigh (a ∷ b ∷ c ∷ q) base o
      ≡ weigh q
          (base +ℤ pos (a * o) +ℤ pos (b * suc o) +ℤ pos (c * suc (suc o)))
          (suc (suc (suc o)))
weigh-three a b c q base o a> b> c> a< b< c< =
    rw
      (
        weigh-other a (b ∷ c ∷ q) base o (ground arith),
        weigh-other b (c ∷ q) (base +ℤ char_times a o) (suc o) (ground arith),
        weigh-other c q (base +ℤ char_times a o +ℤ char_times b (suc o)) (suc (suc o))
            (ground arith),
        ascii_times a o a<,
        ascii_times b (suc o) b<,
        ascii_times c (suc (suc o)) c<,
      )
      refl

weigh-collides :
    (a b c : ℕ) (q : List ℕ) (base : ℤ) (o : ℕ)
    → 47 < a
    → 47 < b
    → 47 < c
    → a < 127
    → b < 126
    → c < 127
    → weigh (a ∷ (b + 2) ∷ c ∷ q) base o ≡ weigh ((a + 1) ∷ b ∷ (c + 1) ∷ q) base o
weigh-collides a b c q base o a> b> c> a< b< c< =
    weigh-three a (b + 2) c q base o a> (omega arith) c> (omega arith) (omega arith) (omega arith)
    ∙ ap (λ h. weigh q h (suc (suc (suc o)))) (three a b c o base)
    ∙ sym (
        weigh-three (a + 1) b (c + 1) q base o (omega arith) b> (omega arith) (omega arith)
          (omega arith) (omega arith))

-- Paths that differ in three neighbouring bytes only have the same hash when the second byte is two
-- less and the bytes beside it are one more, as in `session-120.scope` and `session-201.scope`. The
-- bytes are ASCII, and each comes after the slash in that code.
pub hashcalc-collides :
    (p : List ℕ) (a b c : ℕ) (q : List ℕ) (base : ℤ) (offset : ℕ)
    → 47 < a
    → 47 < b
    → 47 < c
    → a < 127
    → b < 126
    → c < 127
    → hashcalc (p ++ (a ∷ (b + 2) ∷ c ∷ q)) base offset
      ≡ hashcalc (p ++ ((a + 1) ∷ b ∷ (c + 1) ∷ q)) base offset
unfolding hashcalc
hashcalc-collides p a b c q base offset a> b> c> a< b< c< =
    weigh-append p (a ∷ (b + 2) ∷ c ∷ q) base (offset + 1)
    ∙ weigh-collides a b c q (weigh p base (offset + 1)) (places p + (offset + 1)) a> b> c> a< b< c<
    ∙ sym (weigh-append p ((a + 1) ∷ b ∷ (c + 1) ∷ q) base (offset + 1))

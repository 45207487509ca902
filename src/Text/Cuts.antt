-- ===== src/Text/Cuts.antt =====
-- Cutting lists: `take` and `drop`.
use atop.Prelude.{
  ℕ, zero, suc, ◌+◌, ◌-◌, ◌≤◌, ◌≡◌, refl, sym, ap, ◌∙◌, List, [], ◌∷◌, ◌++◌, some, length,
  get_elem?, some_inj, arith,
}
use atop.Text.{take, drop}

pub take-drop : (n : ℕ) (l : List ℕ) → take n l ++ drop n l ≡ l
take-drop zero l = refl
take-drop (suc n) [] = refl
take-drop (suc n) (x ∷ l) = ap (λ r. x ∷ r) (take-drop n l)

pub length-take : (n : ℕ) (l : List ℕ) → n ≤ length l → length (take n l) ≡ n
length-take zero l h = refl
length-take (suc n) [] h = absurd (omega arith)
length-take (suc n) (x ∷ l) h = ap suc (length-take n l (omega arith))

pub length-drop : (n : ℕ) (l : List ℕ) → length (drop n l) ≡ length l - n
length-drop zero l = omega arith
length-drop (suc n) [] = omega arith
length-drop (suc n) (x ∷ l) = omega (arith, length-drop n l)

pub drop-append : (n : ℕ) (xs ys : List ℕ) → n ≤ length xs → drop n (xs ++ ys) ≡ drop n xs ++ ys
drop-append zero xs ys h = refl
drop-append (suc n) [] ys h = absurd (omega arith)
drop-append (suc n) (x ∷ xs) ys h = drop-append n xs ys (omega arith)

pub drop-length : (xs ys : List ℕ) → drop (length xs) (xs ++ ys) ≡ ys
drop-length [] ys = refl
drop-length (x ∷ xs) ys = drop-length xs ys

-- The element at an offset comes first in what is left.
pub drop-get : (n x : ℕ) (l : List ℕ) → get_elem? l n ≡ some x → drop n l ≡ x ∷ drop (suc n) l
drop-get n x [] h = ground arith
drop-get zero x (y ∷ l) h = ap (λ z. z ∷ l) (some_inj y x h)
drop-get (suc n) x (y ∷ l) h = drop-get n x l h

pub take-all : (l : List ℕ) → take (length l) l ≡ l
take-all [] = refl
take-all (x ∷ l) = ap (λ k. x ∷ k) (take-all l)

pub take-append : (xs ys : List ℕ) → take (length xs) (xs ++ ys) ≡ xs
take-append [] [] = refl
take-append [] (y ∷ ys) = refl
take-append (x ∷ xs) ys = ap (λ k. x ∷ k) (take-append xs ys)

pub drop-past : (xs ys : List ℕ) (n : ℕ) → drop (length xs + n) (xs ++ ys) ≡ drop n ys
drop-past [] ys n = ap (λ k. drop k ys) (omega arith)
drop-past (x ∷ xs) ys n =
    let e : suc (length xs) + n ≡ suc (length xs + n) = omega arith in
    ap (λ k. drop k (x ∷ (xs ++ ys))) e ∙ drop-past xs ys n

pub drop-drop : (o n : ℕ) (l : List ℕ) → drop n (drop o l) ≡ drop (o + n) l
drop-drop zero n l = ap (λ k. drop k l) (omega arith)
drop-drop (suc o) n [] =
    let e : suc o + n ≡ suc (o + n) = omega arith in drop-nil n ∙ sym (ap (λ k. drop k []) e)
  where
    drop-nil : (n : ℕ) → drop n [] ≡ []
    drop-nil zero = refl
    drop-nil (suc n) = refl
drop-drop (suc o) n (x ∷ l) =
    let e : suc o + n ≡ suc (o + n) = omega arith in
    drop-drop o n l ∙ sym (ap (λ k. drop k (x ∷ l)) e)

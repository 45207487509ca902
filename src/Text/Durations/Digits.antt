-- ===== src/Text/Durations/Digits.antt =====
-- Numbers as digits, and reading a duration back.
use atop.Prelude.{
  append_assoc, ℕ, zero, suc, ◌+◌, ◌-◌, ◌*◌, ◌/◌, ◌%◌, ◌^◌, ◌≤◌, ◌<◌, ◌≡◌, ◌∙◌, ap, ◌⊎◌, inl, inr,
  List, [], ◌∷◌, ◌++◌, arith, ◌==◌, if◌then◌else◌, length, length-append,
}
use atop.Text.Durations.{digits}

-- Reading such a text: the seconds so far and the number that is being read.
unfoldable pub read_elapsed : List ℕ → ℕ → ℕ → ℕ
read_elapsed [] total number = total
read_elapsed (c ∷ text) total number =
    let days = read_elapsed text (total + number * 86400) 0 in
    let hours = read_elapsed text (total + number * 3600) 0 in
    let minutes = read_elapsed text (total + number * 60) 0 in
    let seconds = read_elapsed text (total + number) 0 in
    let digit = read_elapsed text total (number * 10 + (c - b'0')) in
    if c == b'd'
    then days
    else if c == b'h'
    then hours
    else if c == b'm'
    then minutes
    else if c == b's'
    then seconds
    else digit

read-digit :
    (d : ℕ) (text : List ℕ) (total number : ℕ)
    → d < 10
    → read_elapsed ((b'0' + d) ∷ text) total number ≡ read_elapsed text total (number * 10 + d)
unfolding read_elapsed
read-digit d text total number h =
    let e : b'0' + d - b'0' ≡ d = omega arith in
    ground (arith, ap (λ x. read_elapsed text total (number * 10 + x)) e)

-- The shape of the digits.
pub digits-one : (fuel n : ℕ) → n < 10 → digits (suc fuel) n ≡ (b'0' + n) ∷ []
unfolding digits
digits-one fuel n h = ground arith

pub digits-more :
    (fuel n : ℕ) → 10 ≤ n → digits (suc fuel) n ≡ digits fuel (n / 10) ++ ((b'0' + n % 10) ∷ [])
unfolding digits
digits-more fuel n h = ground arith

pub lt-cases : (a b : ℕ) → (a < b) ⊎ (b ≤ a)
lt-cases a b = ground arith

-- Reading the digits of a number with at most `fuel` of them.
pub read-digits :
    (fuel n : ℕ) (text : List ℕ) (total : ℕ)
    → n < 10 ^ fuel
    → read_elapsed (digits fuel n ++ text) total 0 ≡ read_elapsed text total n
unfolding digits
read-digits zero n text total h =
    let e : 0 ≡ n = omega arith in ap (λ x. read_elapsed text total x) e
read-digits (suc fuel) n text total h = elim (lt-cases n 10) [
  | inl small ↦
      let e : 0 * 10 + n ≡ n = omega arith in
      rw (digits-one fuel n small)
        (read-digit n text total 0 small ∙ ap (λ x. read_elapsed text total x) e)
  | inr large ↦
      let e : n / 10 * 10 + n % 10 ≡ n = omega arith in
      let low : n % 10 < 10 = omega arith in
      let high : n / 10 < 10 ^ fuel = omega arith in
      rw (digits-more fuel n large, append_assoc (digits fuel (n / 10)) ((b'0' + n % 10) ∷ []) text)
        (read-digits fuel (n / 10) ((b'0' + n % 10) ∷ text) total high
          ∙ read-digit (n % 10) text total (n / 10) low
          ∙ ap (λ x. read_elapsed text total x) e)
]

-- A number below a power of ten has no more digits than that.
pub length-digits : (fuel k n : ℕ) → n < 10 ^ suc k → length (digits fuel n) ≤ suc k
unfolding digits
length-digits zero k n h = omega arith
length-digits (suc fuel) zero n h = rw (digits-one fuel n (omega arith)) (omega arith)
length-digits (suc fuel) (suc k) n h = elim (lt-cases n 10) [
  | inl small ↦ rw (digits-one fuel n small) (omega arith)
  | inr large ↦
      let ih = length-digits fuel k (n / 10) (omega arith) in
      rw (digits-more fuel n large)
        (omega (arith, length-append (digits fuel (n / 10)) ((b'0' + n % 10) ∷ []), ih))
]

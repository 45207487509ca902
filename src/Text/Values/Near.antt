-- ===== src/Text/Values/Near.antt =====
-- The pieces of `val2valstr`: widths, and how near a mantissa is.
use atop.Prelude.{
  ℕ, zero, suc, ◌+◌, ◌-◌, ◌*◌, ◌/◌, ◌%◌, ◌^◌, ◌≤◌, ◌<◌, ◌≡◌, refl, ap, subst, ◌∙◌, inl, inr, true,
  false, List, [], ◌∷◌, ◌++◌, Option, some, length, length-append, ltb, leb, Bool-cases, arith,
}
use atop.Prelude.Int.{pos}
use atop.Prelude.Partial.{◌>>=◌}
use atop.Text.{take}
use atop.Text.Durations.{decimal, digits}
use atop.Text.Durations.Digits.{digits-one, digits-more, lt-cases}
use atop.Text.Values.{spaces, pad, shrink, round_up, exponential, valstr}
use atop.Text.Values.Shrink.{IsShrunk, shrink-IsShrunk}

pub length-spaces : (n : ℕ) → length (spaces n) ≡ n
length-spaces zero = refl
length-spaces (suc n) = ap suc (length-spaces n)

pub length-pad : (w : ℕ) (s : List ℕ) → length (pad w s) ≡ (w - length s) + length s
length-pad w s =
    length-append (spaces (w - length s)) s ∙ ap (λ n. n + length s) (length-spaces (w - length s))

pub has_digit : (fuel n : ℕ) → 1 ≤ length (digits (suc fuel) n)
has_digit fuel n = elim (lt-cases n 10) [
  | inl small ↦ rw (digits-one fuel n small) (omega arith)
  | inr big ↦
      rw (digits-more fuel n big)
        (omega (arith, length-append (digits fuel (n / 10)) ((b'0' + n % 10) ∷ [])))
]

pub has_digits : (n : ℕ) → 10 ≤ n → 2 ≤ length (decimal n)
has_digits n big = rw (digits-more 19 n big) (
    omega (arith, length-append (digits 19 (n / 10)) ((b'0' + n % 10) ∷ []), has_digit 18 (n / 10)))

-- Rounding keeps the mantissa in its width and near the value.
abbrev pub IsNear : ℕ → ℕ → ℕ → ℕ → Type 0
IsNear maxval value mantissa w =
    (mantissa ≤ maxval)
    × (maxval < 10 * mantissa + 9)
    × (value < mantissa * w + w)
    × (2 * (mantissa * w) ≤ 2 * value + w)

round_up-IsNear :
    (maxval value mantissa exp remain : ℕ)
    → IsShrunk maxval value mantissa exp remain
    → IsNear maxval value (round_up maxval mantissa remain) (10 ^ exp)
round_up-IsNear maxval value mantissa exp remain s =
    let t = s.tens in
    let v = s.splits in
    let l = s.low_small in
    let f = s.fits in
    let g = s.full in
    let n : (mantissa + 1) * 10 ^ exp ≡ mantissa * 10 ^ exp + 10 ^ exp = omega arith in
    elim (Bool-cases (leb 5 remain)) [
      | inl up ↦ elim (Bool-cases (ltb mantissa maxval)) [
        | inl room ↦
            let u = s.upper (ground arith) in
            rw (up, room) (ground arith, omega arith, omega arith, omega arith)
        | inr full ↦ rw (up, full) (omega arith, omega arith, omega arith, omega arith)
      ]
      | inr down ↦ rw down (omega arith, omega arith, omega arith, omega arith)
    ]

pub pow-pos : (n : ℕ) → 1 ≤ 10 ^ n
pow-pos zero = omega arith
pow-pos (suc n) =
    let ih = pow-pos n in let e : 10 ^ suc n ≡ 10 * 10 ^ n = omega arith in omega arith

hundred_times : (width : ℕ) → 2 ≤ width → 10 ^ width ≡ 100 * 10 ^ (width - 2)
hundred_times width h =
    let e : width ≡ suc (suc (width - 2)) = omega arith in
    let f : 10 ^ suc (suc (width - 2)) ≡ 100 * 10 ^ (width - 2) = omega arith in
    ap (λ w. 10 ^ w) e ∙ f

abbrev finish : ℕ → List ℕ → ℕ → (ℕ × ℕ × ℕ) → Option (List ℕ)
finish width suffix size (value', exp, remain) =
    some (
      take size
        (exponential (width - 2) (round_up (10 ^ (width - 2) - 1) value' remain) exp suffix))

valstr_big :
    (value width : ℕ) (suffix : List ℕ) (size : ℕ)
    → 3 ≤ width
    → width ≤ 15
    → 10 ^ width - 1 ≤ value
    → valstr (pos value) width suffix size
      ≡ (shrink 20 (10 ^ (width - 2) - 1) value 0 0 >>= λ r. finish width suffix size r)
unfolding valstr
valstr_big value width suffix size h narrow big =
    let c : ltb 15 width ≡ false = ground arith in
    let a : ltb value (10 ^ width - 1) ≡ false = ground arith in
    let b : ltb width 3 ≡ false = ground arith in rw (c, a, b) refl

pub valstr_small :
    (value width : ℕ) (suffix : List ℕ) (size : ℕ)
    → width ≤ 15
    → value < 10 ^ width - 1
    → valstr (pos value) width suffix size ≡ some (take size (pad width (decimal value) ++ suffix))
unfolding valstr
valstr_small value width suffix size narrow h =
    let c : ltb 15 width ≡ false = ground arith in
    let a : ltb value (10 ^ width - 1) ≡ true = ground arith in rw (c, a) refl

pub valstr_narrow :
    (value width : ℕ) (suffix : List ℕ) (size : ℕ)
    → width < 3
    → 10 ^ width - 1 ≤ value
    → valstr (pos value) width suffix size ≡ some (take size (decimal value ++ suffix))
unfolding valstr
valstr_narrow value width suffix size h big =
    let c : ltb 15 width ≡ false = ground arith in
    let a : ltb value (10 ^ width - 1) ≡ false = ground arith in
    let b : ltb width 3 ≡ true = ground arith in rw (c, a, b) refl

-- A value that is too large, with an exponent of at most `k`.
pub valstr-IsNear :
    (value width : ℕ) (suffix : List ℕ) (size k : ℕ)
    → 3 ≤ width
    → width ≤ 15
    → k < 20
    → 10 ^ width - 1 ≤ value
    → value < 10 ^ k * 10 ^ (width - 2)
    → (mantissa : ℕ) × (exp : ℕ) × (valstr (pos value) width suffix size
        ≡ some (take size (exponential (width - 2) mantissa exp suffix)))
      × (exp ≤ k)
      × IsNear (10 ^ (width - 2) - 1) value mantissa (10 ^ exp)
valstr-IsNear value width suffix size k wide narrow few big small =
    let p = pow-pos (width - 2) in
    let h = hundred_times width (omega arith) in
    let max = 10 ^ (width - 2) - 1 in
    let e : 10 ^ (width - 2) ≡ suc max = omega arith in
    let small' = subst (λ n. value < 10 ^ k * n) e small in
    let (m, exp, remain, r, few', s) =
      shrink-IsShrunk 19 k max value 0 0 (omega arith) (omega arith) small' in
    let z : 0 + exp ≡ exp = omega arith in
    (
      round_up max m remain,
      exp,
      valstr_big value width suffix size wide narrow big
          ∙ ap (λ o. o >>= λ x. finish width suffix size x) (r ∙ ap (λ x. some (m, x, remain)) z),
      few',
      round_up-IsNear max value m exp remain s,
    )

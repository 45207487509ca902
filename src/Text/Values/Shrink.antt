-- ===== src/Text/Values/Shrink.antt =====
-- The loop that divides by ten until a value fits.
use atop.Prelude.{
  ℕ, zero, suc, ◌+◌, ◌*◌, ◌/◌, ◌%◌, ◌^◌, ◌≤◌, ◌<◌, ◌≡◌, refl, ap, ◌∙◌, inl, inr, true, false, some,
  ltb, Bool-cases, arith,
}
use atop.Text.Values.{shrink}

-- A value as a mantissa and an exponent: `low` is lost, and `remain` is its first digit.
pub record IsShrunk (maxval : ℕ) (value : ℕ) (mantissa : ℕ) (exp : ℕ) (remain : ℕ) : Type 0 where
  pub low : ℕ
  pub unit : ℕ
  pub tens : 10 ^ exp ≡ 10 * unit
  pub splits : value ≡ mantissa * 10 ^ exp + low
  pub low_small : low < 10 ^ exp
  pub fits : mantissa ≤ maxval
  pub full : maxval < 10 * mantissa + 9
  pub upper : 5 ≤ remain → 5 * unit ≤ low
  pub lower : remain < 5 → low < 5 * unit

shrink_step :
    (fuel maxval value exp remain : ℕ)
    → maxval < value
    → shrink (suc fuel) maxval value exp remain
      ≡ shrink fuel maxval (value / 10) (exp + 1) (value % 10)
unfolding shrink
shrink_step fuel maxval value exp remain h =
    let a : ltb maxval value ≡ true = ground arith in rw a refl

shrink_end :
    (fuel maxval value exp remain : ℕ)
    → value ≤ maxval
    → shrink (suc fuel) maxval value exp remain ≡ some (value, exp, remain)
unfolding shrink
shrink_end fuel maxval value exp remain h =
    let a : ltb maxval value ≡ false = ground arith in rw a refl

ten_times : (m w : ℕ) → m * (10 * w) ≡ 10 * (m * w)
ten_times m w = omega arith

-- One more digit.
IsShrunk-more :
    (maxval value mantissa exp remain : ℕ)
    → IsShrunk maxval (value / 10) mantissa exp remain
    → IsShrunk maxval value mantissa (suc exp) remain
IsShrunk-more maxval value mantissa exp remain s =
    let e : 10 ^ suc exp ≡ 10 * 10 ^ exp = omega arith in
    let p : mantissa * 10 ^ suc exp ≡ 10 * (mantissa * 10 ^ exp) =
      ap (λ w. mantissa * w) e ∙ ten_times mantissa (10 ^ exp) in
    let t = s.tens in
    let v = s.splits in
    let l = s.low_small in
    record {
      low = 10 * s.low + value % 10;
      unit = 10 * s.unit;
      tens = omega arith;
      splits = omega arith;
      low_small = omega arith;
      fits = s.fits;
      full = s.full;
      upper = λ h. let u = s.upper h in omega arith;
      lower = λ h. let u = s.lower h in omega arith;
    }

IsShrunk-once :
    (maxval value : ℕ)
    → maxval < value
    → value / 10 ≤ maxval
    → IsShrunk maxval value (value / 10) 1 (value % 10)
IsShrunk-once maxval value big h = record {
  low = value % 10;
  unit = 1;
  tens = refl;
  splits = omega arith;
  low_small = omega arith;
  fits = h;
  full = omega arith;
  upper = λ u. omega arith;
  lower = λ u. omega arith;
}

plus_one : (a b : ℕ) → a + 1 + b ≡ a + suc b
plus_one a b = omega arith

tenth : (value k n : ℕ) → value < 10 ^ suc k * n → value / 10 < 10 ^ k * n
tenth value k n h =
    let e : 10 ^ suc k ≡ 10 * 10 ^ k = omega arith in
    let p : 10 ^ suc k * n ≡ 10 * (10 ^ k * n) = ap (λ w. w * n) e ∙ omega arith in omega arith

-- A value below 10 ^ k times what fits is divided at most k times.
pub shrink-IsShrunk :
    (fuel k maxval value exp remain : ℕ)
    → k ≤ fuel
    → maxval < value
    → value < 10 ^ k * suc maxval
    → (mantissa : ℕ) × (rounds : ℕ) × (remain' : ℕ) × (shrink (suc fuel) maxval value exp remain
        ≡ some (mantissa, exp + rounds, remain'))
      × (rounds ≤ k)
      × IsShrunk maxval value mantissa rounds remain'
shrink-IsShrunk fuel zero maxval value exp remain few big small = absurd (omega arith)
shrink-IsShrunk zero (suc k) maxval value exp remain few big small = absurd (omega arith)
shrink-IsShrunk (suc fuel) (suc k) maxval value exp remain few big small =
    let step = shrink_step (suc fuel) maxval value exp remain big in
    elim (Bool-cases (ltb maxval (value / 10))) [
      | inl more ↦
          let smaller : value / 10 < 10 ^ k * suc maxval = tenth value k (suc maxval) small in
          let (m, r, remain', e, few', s) =
            shrink-IsShrunk fuel k maxval (value / 10) (exp + 1) (value % 10) (omega arith)
              (ground arith) smaller in
          (
            m,
            suc r,
            remain',
            step ∙ e ∙ ap (λ x. some (m, x, remain')) (plus_one exp r),
            omega arith,
            IsShrunk-more maxval value m r remain' s,
          )
      | inr done ↦ (
        value / 10,
        1,
        value % 10,
        step ∙ shrink_end fuel maxval (value / 10) (exp + 1) (value % 10) (ground arith),
        omega arith,
        IsShrunk-once maxval value big (ground arith),
      )
    ]

-- ===== src/Text/Values/Laws.antt =====
-- What `val2valstr` writes, and how much.
use atop.Prelude.{
  ℕ, zero, suc, ◌+◌, ◌-◌, ◌*◌, ◌/◌, ◌%◌, ◌^◌, ◌≤◌, ◌<◌, ◌≡◌, refl, sym, ap, ap₂, subst, ◌∙◌, ◌⊎◌,
  inl, inr, Bool, ◌&&◌, List, [], ◌∷◌, ◌++◌, Option, some, length, length-append, ltb,
  if◌then◌else◌, Bool-cases, arith,
}
use atop.Prelude.Int.{ℤ, pos, negsuc, pos_part, ◌+ℤ◌}
use atop.Text.{take}
use atop.Text.Cuts.{length-take, take-all}
use atop.Text.Durations.{decimal}
use atop.Text.Durations.Digits.{digits-one, lt-cases, length-digits}
use atop.Text.Values.{negate, div_ℤ, pad, exponential, valstr, val2valstr}
use atop.Text.Values.Near.{
  length-pad, has_digit, has_digits, pow-pos, valstr_small, valstr_narrow, valstr-IsNear,
}

abbrev Fills : ℕ → Option (List ℕ) → Type 0
Fills size outcome = (text : List ℕ) × (outcome ≡ some text) × (length text ≡ size)

take-Fills : (size : ℕ) (text : List ℕ) → size ≤ length text → Fills size (some (take size text))
take-Fills size text h = (take size text, refl, length-take size text h)

long_enough :
    (width value exp : ℕ) (suffix : List ℕ)
    → width < 100
    → suc width + length suffix < length (exponential width value exp suffix)
long_enough width value exp suffix h =
    let few : width % 100 ≡ width = omega arith in
    let a = length-pad (width % 100) (decimal value) in
    let b =
      length-append (pad (width % 100) (decimal value)) (b'e' ∷ (decimal (exp % 100) ++ suffix)) in
    let c = length-append (decimal (exp % 100)) suffix in
    let d = has_digit 19 (exp % 100) in omega arith

narrow_digits :
    (value width : ℕ) → width < 3 → 10 ^ width - 1 ≤ value → width ≤ length (decimal value)
narrow_digits value zero low big = omega arith
narrow_digits value (suc zero) low big = omega (arith, has_digit 19 value)
narrow_digits value (suc (suc zero)) low big = omega (arith, has_digits value (omega arith))
narrow_digits value (suc (suc (suc w))) low big = absurd (omega arith)

valstr-Fills :
    (value : ℤ) (width : ℕ) (suffix : List ℕ) (size : ℕ)
    → pos_part value < 10 ^ 19
    → width ≤ 15
    → size ≤ width + length suffix
    → Fills size (valstr value width suffix size)
unfolding valstr
valstr-Fills (negsuc n) width suffix size few narrow room =
    take-Fills size (pad width (b'?' ∷ []) ++ suffix)
      (omega (arith, length-append (pad width (b'?' ∷ [])) suffix, length-pad width (b'?' ∷ [])))
valstr-Fills (pos value) width suffix size few narrow room =
    elim (lt-cases value (10 ^ width - 1)) [
      | inl small ↦
          let (text, e, l) = take-Fills size (pad width (decimal value) ++ suffix) (
            omega (
              arith,
              length-append (pad width (decimal value)) suffix,
              length-pad width (decimal value),
            )) in
          (text, valstr_small value width suffix size narrow small ∙ e, l)
      | inr big ↦ elim (lt-cases width 3) [
        | inl low ↦
            let (text, e, l) = take-Fills size (decimal value ++ suffix) (
              omega
                (arith, length-append (decimal value) suffix, narrow_digits value width low big)) in
            (text, valstr_narrow value width suffix size low big ∙ e, l)
        | inr wide ↦
            let p = pow-pos (width - 2) in
            let (m, exp, e, few', near) =
              valstr-IsNear value width suffix size 19 wide narrow (omega arith) big
                (omega arith) in
            let (text, e', l) =
              take-Fills size (exponential (width - 2) m exp suffix)
                (omega (arith, long_enough (width - 2) m exp suffix (omega arith))) in
            (text, e ∙ e', l)
      ]
    ]

-- The value that is written, the width that it has, and what follows it.
abbrev pub rate : ℕ → Bool → ℕ → ℕ
rate value avg nsecs = if avg && ltb 0 nsecs then (value + nsecs / 2) / nsecs else value

abbrev pub room : ℕ → Bool → ℕ → ℕ
room width avg nsecs = if avg && ltb 0 nsecs then width - 2 else width

abbrev pub suffix_of : Bool → ℕ → List ℕ
suffix_of avg nsecs = if avg && ltb 0 nsecs then b'/' ∷ b's' ∷ [] else []

pos-plus : (a b : ℕ) → pos a +ℤ pos b ≡ pos (a + b)
unfolding ◌+ℤ◌
pos-plus a b = ground arith

val2valstr-rate :
    (value width : ℕ) (avg : Bool) (nsecs : ℕ)
    → val2valstr (pos value) width avg nsecs
      ≡ valstr (pos (rate value avg nsecs)) (room width avg nsecs) (suffix_of avg nsecs) width
unfolding val2valstr div_ℤ ◌+ℤ◌
val2valstr-rate value width avg nsecs = elim (Bool-cases (avg && ltb 0 nsecs)) [
  | inl e ↦ rw e (
      ap (λ z. valstr (div_ℤ z nsecs) (width - 2) (b'/' ∷ b's' ∷ []) width)
        (pos-plus value (nsecs / 2)))
  | inr e ↦ rw e refl
]

-- What is written for a value that is not negative, in a width with room for an exponent: the value
-- itself, if it is below the largest number of the width; otherwise a mantissa that needs all places of
-- its field and an exponent of one digit, rounded to less than one unit.
abbrev pub Shows : ℕ → ℕ → List ℕ → List ℕ → Type 0
Shows value width suffix text =
    ((value + 1 < 10 ^ width) × (text ≡ pad width (decimal value) ++ suffix))
    ⊎ ((10 ^ width ≤ value + 1)
        × ((mantissa : ℕ) × (exp : ℕ) × (text
              ≡ pad (width - 2) (decimal mantissa) ++ (b'e' ∷ (decimal exp ++ suffix)))
            × (exp < 10)
            × (mantissa < 10 ^ (width - 2))
            × (10 ^ (width - 3) ≤ mantissa)
            × (value < mantissa * 10 ^ exp + 10 ^ exp)
            × (2 * (mantissa * 10 ^ exp) ≤ 2 * value + 10 ^ exp)))

uncut : (size : ℕ) (text : List ℕ) → length text ≡ size → take size text ≡ text
uncut size text h = subst (λ n. take n text ≡ text) h (take-all text)

-- A number with at most `w` digits is as long as its field.
field : (w n : ℕ) → 1 ≤ w → n < 10 ^ w → length (pad w (decimal n)) ≡ w
field w n h small =
    let e : w ≡ suc (w - 1) = omega arith in
    let l = length-digits 20 (w - 1) n (subst (λ x. n < 10 ^ x) e small) in
    omega (arith, length-pad w (decimal n))

exponential-one :
    (width value exp : ℕ) (suffix : List ℕ)
    → 1 ≤ width
    → width < 100
    → value < 10 ^ width
    → exp < 10
    → (exponential width value exp suffix
        ≡ pad width (decimal value) ++ (b'e' ∷ (decimal exp ++ suffix)))
      × (length (pad width (decimal value) ++ (b'e' ∷ (decimal exp ++ suffix)))
          ≡ width + 2 + length suffix)
exponential-one width value exp suffix h narrow small one =
    let e : width % 100 ≡ width = omega arith in
    let f : exp % 100 ≡ exp = omega arith in
    let d : length (decimal exp) ≡ 1 = ap length (digits-one 19 exp one) in
    (
      ap₂ (λ w x. pad w (decimal value) ++ (b'e' ∷ (decimal x ++ suffix))) e f,
      omega (
        arith,
        length-append (pad width (decimal value)) (b'e' ∷ (decimal exp ++ suffix)),
        length-append (decimal exp) suffix,
        field width value h small,
        d,
      ),
    )

ten_power : (width : ℕ) → 3 ≤ width → 10 ^ (width - 2) ≡ 10 * 10 ^ (width - 3)
ten_power width h =
    let e : width - 2 ≡ suc (width - 3) = omega arith in
    let f : 10 ^ suc (width - 3) ≡ 10 * 10 ^ (width - 3) = omega arith in ap (λ w. 10 ^ w) e ∙ f

valstr-Shows :
    (value width : ℕ) (suffix : List ℕ)
    → 3 ≤ width
    → width ≤ 15
    → value < 10 ^ 9 * 10 ^ (width - 2)
    → (text : List ℕ) × (valstr (pos value) width suffix (width + length suffix) ≡ some text)
      × (length text ≡ width + length suffix)
      × Shows value width suffix text
valstr-Shows value width suffix wide narrow few = elim (lt-cases value (10 ^ width - 1)) [
  | inl small ↦
      let text = pad width (decimal value) ++ suffix in
      let l : length text ≡ width + length suffix = omega (
        arith,
        length-append (pad width (decimal value)) suffix,
        field width value (omega arith) (omega arith),
      ) in
      (
        text,
        valstr_small value width suffix (width + length suffix) narrow small
            ∙ ap some (uncut (width + length suffix) text l),
        l,
        inl (omega arith, refl),
      )
  | inr big ↦
      let p = pow-pos (width - 2) in
      let (m, exp, e, one, near) =
        valstr-IsNear value width suffix (width + length suffix) 9 wide narrow (omega arith) big
          few in
      let q = ten_power width wide in
      let (fits, full, over, under) = near in
      let (shape, l) =
        exponential-one (width - 2) m exp suffix (omega arith) (omega arith) (omega arith)
          (omega arith) in
      let text = pad (width - 2) (decimal m) ++ (b'e' ∷ (decimal exp ++ suffix)) in
      let l' : length text ≡ width + length suffix = omega arith in
      (
        text,
        e
            ∙ ap (λ t. some (take (width + length suffix) t)) shape
            ∙ ap some (uncut (width + length suffix) text l'),
        l',
        inr (omega arith, (m, exp, refl, omega arith, omega arith, omega arith, over, under)),
      )
]

room_suffix :
    (width : ℕ) (avg : Bool) (nsecs : ℕ)
    → 3 ≤ room width avg nsecs
    → room width avg nsecs + length (suffix_of avg nsecs) ≡ width
room_suffix width avg nsecs h = elim (Bool-cases (avg && ltb 0 nsecs)) [
  | inl e ↦ ground arith
  | inr e ↦ ground arith
]

-- For a value that is not negative, a width with 3 to 15 places besides the suffix, and a value (with
-- `avg`, the rounded average) below 10 ^ 9 times the largest mantissa plus one, `val2valstr` writes
-- exactly `width` characters. A value below the largest number of these places is written as it is. From
-- this number on, a mantissa without leading zeros in all places but two and an exponent below 10 are
-- written; their product is less than one unit of the mantissa below the value, and at most half a unit
-- above it.
pub val2valstr-Shows :
    (value width : ℕ) (avg : Bool) (nsecs : ℕ)
    → 3 ≤ room width avg nsecs
    → room width avg nsecs ≤ 15
    → rate value avg nsecs < 10 ^ 9 * 10 ^ (room width avg nsecs - 2)
    → (text : List ℕ) × (val2valstr (pos value) width avg nsecs ≡ some text)
      × (length text ≡ width)
      × Shows (rate value avg nsecs) (room width avg nsecs) (suffix_of avg nsecs) text
val2valstr-Shows value width avg nsecs wide narrow few =
    let r = rate value avg nsecs in
    let w = room width avg nsecs in
    let s = suffix_of avg nsecs in
    let e : w + length s ≡ width = room_suffix width avg nsecs wide in
    let (text, f, l, shows) = valstr-Shows r w s wide narrow few in
    (
      text,
      val2valstr-rate value width avg nsecs ∙ ap (valstr (pos r) w s) (sym e) ∙ f,
      l ∙ e,
      shows,
    )

pos_part-negate : (n : ℕ) → pos_part (negate n) ≡ 0
pos_part-negate zero = refl
pos_part-negate (suc n) = refl

pos_part-div_ℤ : (a : ℤ) (d : ℕ) → pos_part (div_ℤ a d) ≤ pos_part a
unfolding div_ℤ
pos_part-div_ℤ (pos n) d = omega arith
pos_part-div_ℤ (negsuc n) d = omega (arith, pos_part-negate (suc n / d))

pos_part-plus : (a : ℤ) (n : ℕ) → pos_part (a +ℤ pos n) ≤ pos_part a + n
unfolding ◌+ℤ◌
pos_part-plus a n = ground arith

-- With a value, also negative, below 10 ^ 19 and a width from 2 to 15 places, the
-- text has exactly `width` characters, whether it is cut off or not.
pub length-val2valstr :
    (value : ℤ) (width : ℕ) (avg : Bool) (nsecs : ℕ)
    → pos_part value + nsecs < 10 ^ 19
    → width ≤ 15
    → 2 ≤ width
    → (text : List ℕ) × (val2valstr value width avg nsecs ≡ some text) × (length text ≡ width)
unfolding val2valstr
length-val2valstr value width avg nsecs few narrow h = elim (Bool-cases (avg && ltb 0 nsecs)) [
  | inl e ↦ rw e (
      valstr-Fills (div_ℤ (value +ℤ pos (nsecs / 2)) nsecs) (width - 2) (b'/' ∷ b's' ∷ []) width
        (omega
          (arith, pos_part-div_ℤ (value +ℤ pos (nsecs / 2)) nsecs, pos_part-plus value (nsecs / 2)))
        (omega arith) (omega arith))
  | inr e ↦ rw e (valstr-Fills value width [] width (omega arith) narrow (omega arith))
]

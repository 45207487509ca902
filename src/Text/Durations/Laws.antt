-- ===== src/Text/Durations/Laws.antt =====
-- The texts of durations: they say what they mean, in the width that they promise.
use atop.Prelude.{
  append-nil, append_assoc, ℕ, zero, suc, ◌+◌, ◌-◌, ◌*◌, ◌/◌, ◌%◌, ◌^◌, ◌≤◌, ◌<◌, ◌≡◌, refl, sym,
  ◌∙◌, ap, subst, inl, inr, List, [], ◌∷◌, ◌++◌, arith, ltb, leb, if◌then◌else◌, Bool-cases, length,
  length-append,
}
use atop.Text.{take}
use atop.Text.Durations.{
  decimal, pad2, Output, append, append_unit, two_parts, val2elapstr, val2cpustr,
}
use atop.Text.Durations.Digits.{
  read_elapsed, digits-one, digits-more, lt-cases, read-digits, length-digits,
}

-- What was written so far stands for `total` seconds, and nothing was cut off.
Says : Output → ℕ → Type 0
Says o total =
    (o.p ≡ length o.text)
    × (o.p + o.n ≡ 14)
    × ((rest : List ℕ) → read_elapsed (o.text ++ rest) 0 0 ≡ read_elapsed rest total 0)

take-all : (n : ℕ) (s : List ℕ) → length s ≤ n → take n s ≡ s
take-all zero [] h = refl
take-all zero (c ∷ s) h = absurd (omega arith)
take-all (suc n) [] h = refl
take-all (suc n) (c ∷ s) h = ap (λ l. c ∷ l) (take-all n s (omega arith))

append_fits :
    (part : List ℕ) (o : Output)
    → suc (length part) ≤ o.n
    → append part o ≡ record { text = o.text ++ part; p = o.p + length part; n = o.n - length part }
unfolding append
append_fits part o h =
    let e : take (o.n - 1) part ≡ part = take-all (o.n - 1) part (omega arith) in
    ap (λ l. record { text = o.text ++ l; p = o.p + length part; n = o.n - length part }) e

append_n : (part : List ℕ) (o : Output) → (append part o).n ≡ o.n - length part
unfolding append
append_n part o = refl

-- One part: a number and the letter of its unit.
append-Says :
    (part : List ℕ) (o : Output) (total total' : ℕ)
    → suc (length part) ≤ o.n
    → ((rest : List ℕ) → read_elapsed (part ++ rest) total 0 ≡ read_elapsed rest total' 0)
    → Says o total
    → Says (append part o) total'
unfolding Says
append-Says part o total total' fits reads (a, b, c) = rw (append_fits part o fits) (
  omega (arith, length-append o.text part, a),
  omega (arith, b),
  λ rest.
      ap (λ l. read_elapsed l 0 0) (append_assoc o.text part rest) ∙ c (part ++ rest) ∙ reads rest,
)

read-part :
    (n letter factor : ℕ) (total : ℕ) (rest : List ℕ)
    → n < 10 ^ 20
    → ((text : List ℕ) (k : ℕ)
        → read_elapsed (letter ∷ text) total k ≡ read_elapsed text (total + k * factor) 0)
    → read_elapsed ((decimal n ++ (letter ∷ [])) ++ rest) total 0
      ≡ read_elapsed rest (total + n * factor) 0
read-part n letter factor total rest low unit =
    ap (λ l. read_elapsed l total 0) (append_assoc (decimal n) (letter ∷ []) rest)
    ∙ read-digits 20 n (letter ∷ rest) total low
    ∙ unit rest n

unit_d :
    (text : List ℕ) (total k : ℕ)
    → read_elapsed (b'd' ∷ text) total k ≡ read_elapsed text (total + k * 86400) 0
unfolding read_elapsed
unit_d text total k = refl

unit_h :
    (text : List ℕ) (total k : ℕ)
    → read_elapsed (b'h' ∷ text) total k ≡ read_elapsed text (total + k * 3600) 0
unfolding read_elapsed
unit_h text total k = refl

unit_m :
    (text : List ℕ) (total k : ℕ)
    → read_elapsed (b'm' ∷ text) total k ≡ read_elapsed text (total + k * 60) 0
unfolding read_elapsed
unit_m text total k = refl

unit_s :
    (text : List ℕ) (total k : ℕ)
    → read_elapsed (b's' ∷ text) total k ≡ read_elapsed text (total + k * 1) 0
unfolding read_elapsed
unit_s text total k = ap (λ x. read_elapsed text (total + x) 0) (omega arith)

-- A part that is written if the value reaches its unit.
part_of : ℕ → ℕ → ℕ → ℕ
part_of value unit amount = if leb unit value then amount else 0

append_unit-Says :
    (value unit n letter factor k : ℕ) (o : Output) (total : ℕ)
    → n < 10 ^ suc k
    → n < 10 ^ 20
    → k + 3 ≤ o.n
    → ((text : List ℕ) (t m : ℕ)
        → read_elapsed (letter ∷ text) t m ≡ read_elapsed text (t + m * factor) 0)
    → Says o total
    → Says (append_unit value unit n letter o) (total + part_of value unit (n * factor))
      × (o.n ≤ (append_unit value unit n letter o).n + k + 2)
unfolding append_unit part_of
append_unit-Says value unit n letter factor k o total small few room reads h =
    elim (Bool-cases (leb unit value)) [
      | inl reached ↦
          let part = decimal n ++ (letter ∷ []) in
          let size : length part ≤ k + 2 =
            omega (arith, length-append (decimal n) (letter ∷ []), length-digits 20 k n small) in
          rw reached (
            append-Says part o total (total + n * factor) (omega (arith, size))
                (λ rest. read-part n letter factor total rest few (λ text m. reads text total m)) h,
            omega (arith, size, append_n part o),
          )
      | inr under ↦
          let e : total ≡ total + 0 = omega arith in
          rw under (subst (λ t. Says o t) e h, omega arith)
    ]

reached : (value unit amount : ℕ) → unit ≤ value → part_of value unit amount ≡ amount
unfolding part_of
reached value unit amount h = ground arith

not_reached : (value unit amount : ℕ) → value < unit → part_of value unit amount ≡ 0
unfolding part_of
not_reached value unit amount h = ground arith

-- The parts make up the value.
parts_add :
    (value : ℕ)
    → part_of value 86400 (value / 86400 * 86400)
        + part_of value 3600 (value % 86400 / 3600 * 3600)
        + part_of value 60 (value % 3600 / 60 * 60)
        + value % 60 * 1
      ≡ value
parts_add value = elim (lt-cases value 60) [
  | inl a ↦ omega (
    arith,
    not_reached value 86400 (value / 86400 * 86400) (omega arith),
    not_reached value 3600 (value % 86400 / 3600 * 3600) (omega arith),
    not_reached value 60 (value % 3600 / 60 * 60) a,
  )
  | inr a ↦ elim (lt-cases value 3600) [
    | inl b ↦ omega (
      arith,
      not_reached value 86400 (value / 86400 * 86400) (omega arith),
      not_reached value 3600 (value % 86400 / 3600 * 3600) b,
      reached value 60 (value % 3600 / 60 * 60) a,
    )
    | inr b ↦ elim (lt-cases value 86400) [
      | inl c ↦ omega (
        arith,
        not_reached value 86400 (value / 86400 * 86400) c,
        reached value 3600 (value % 86400 / 3600 * 3600) b,
        reached value 60 (value % 3600 / 60 * 60) a,
      )
      | inr c ↦ omega (
        arith,
        reached value 86400 (value / 86400 * 86400) c,
        reached value 3600 (value % 86400 / 3600 * 3600) b,
        reached value 60 (value % 3600 / 60 * 60) a,
      )
    ]
  ]
]

abbrev no_output : Output
no_output = record { text = []; p = 0; n = 14 }

no_output-Says : Says no_output 0
unfolding Says
no_output-Says = (refl, refl, λ rest. refl)

Says-text :
    (o : Output) (total : ℕ)
    → Says o total
    → (read_elapsed o.text 0 0 ≡ total) × (o.p ≡ length o.text) × (length o.text + o.n ≡ 14)
unfolding Says read_elapsed
Says-text o total (a, b, c) =
    (ap (λ l. read_elapsed l 0 0) (sym (append-nil o.text)) ∙ c [], a, omega (arith, a, b))

-- For a duration of less than 1000 days, the text of `val2elapstr`, read unit by unit, gives back
-- the number of seconds; it has at most 13 characters, and the result is its length.
pub val2elapstr-read_elapsed :
    (value : ℕ)
    → value < 86400000
    → (read_elapsed (val2elapstr value).text 0 0 ≡ value)
      × ((val2elapstr value).p ≡ length (val2elapstr value).text)
      × (length (val2elapstr value).text ≤ 13)
unfolding val2elapstr
val2elapstr-read_elapsed value h =
    let (d, d_room) =
      append_unit-Says value 86400 (value / 86400) b'd' 86400 2 no_output 0 (omega arith)
        (omega arith) (omega arith) unit_d no_output-Says in
    let o₁ = append_unit value 86400 (value / 86400) b'd' no_output in
    let t₁ = 0 + part_of value 86400 (value / 86400 * 86400) in
    let (m, m_room) =
      append_unit-Says value 3600 (value % 86400 / 3600) b'h' 3600 1 o₁ t₁ (omega arith)
        (omega arith) (omega (arith, d_room)) unit_h d in
    let o₂ = append_unit value 3600 (value % 86400 / 3600) b'h' o₁ in
    let t₂ = t₁ + part_of value 3600 (value % 86400 / 3600 * 3600) in
    let (u, u_room) =
      append_unit-Says value 60 (value % 3600 / 60) b'm' 60 1 o₂ t₂ (omega arith) (omega arith)
        (omega (arith, d_room, m_room)) unit_m m in
    let o₃ = append_unit value 60 (value % 3600 / 60) b'm' o₂ in
    let t₃ = t₂ + part_of value 60 (value % 3600 / 60 * 60) in
    let part = decimal (value % 60) ++ (b's' ∷ []) in
    let size : length part ≤ 3 = omega (
      arith,
      length-append (decimal (value % 60)) (b's' ∷ []),
      length-digits 20 1 (value % 60) (omega arith),
    ) in
    let last =
      append-Says part o₃ t₃ (t₃ + value % 60 * 1) (omega (arith, size, d_room, m_room, u_room))
        (λ rest. read-part (value % 60) b's' 1 t₃ rest (omega arith) (λ text k. unit_s text t₃ k))
        u in
    let (reads, whole, short) = Says-text (append part o₃) (t₃ + value % 60 * 1) last in
    (
      reads ∙ omega (arith, parts_add value),
      whole,
      omega (arith, short, append_n part o₃, size, d_room, m_room, u_room),
    )

length-pad2 : (fill n : ℕ) → n < 100 → length (pad2 fill n) ≡ 2
unfolding pad2
length-pad2 fill n h = elim (lt-cases n 10) [
  | inl small ↦ rw (digits-one 19 n small) (ground arith)
  | inr large ↦ rw (digits-more 19 n large, digits-one 18 (n / 10) (omega arith)) (ground arith)
]

length-two_parts :
    (a letter b unit : ℕ) → a < 100 → b < 100 → length (two_parts a letter b unit) ≡ 6
unfolding two_parts
length-two_parts a letter b unit h k =
    let tail = unit ∷ [] in
    let size : length (pad2 b' ' a ++ (letter ∷ (pad2 b'0' b ++ tail))) ≡ 6 = omega (
      arith,
      length-append (pad2 b' ' a) (letter ∷ (pad2 b'0' b ++ tail)),
      length-append (pad2 b'0' b) tail,
      length-pad2 b' ' a h,
      length-pad2 b'0' b k,
    ) in
    ap length (take-all 6 (pad2 b' ' a ++ (letter ∷ (pad2 b'0' b ++ tail))) (omega (arith, size)))
    ∙ size

-- `val2cpustr` fills exactly 6 positions, whatever the number of milliseconds.
pub length-val2cpustr : (value : ℕ) → length (val2cpustr value) ≡ 6
unfolding val2cpustr
length-val2cpustr value =
    let s = (value + 500) / 1000 in
    let m = (s + 30) / 60 in
    let h = (m + 30) / 60 in
    elim (Bool-cases (ltb value 100000)) [
      | inl a ↦ rw a (
          length-two_parts ((value / 1000) % 100) b'.' (value % 1000 / 10) b's' (omega arith)
            (omega arith))
      | inr a ↦ elim (Bool-cases (ltb s 6000)) [
        | inl b ↦
            rw (a, b)
              (length-two_parts ((s / 60) % 100) b'm' (s % 60) b's' (omega arith) (omega arith))
        | inr b ↦ elim (Bool-cases (ltb m 6000)) [
          | inl c ↦
              rw (a, b, c)
                (length-two_parts ((m / 60) % 100) b'h' (m % 60) b'm' (omega arith) (omega arith))
          | inr c ↦
              rw (a, b, c)
                (length-two_parts ((h / 24) % 100) b'd' (h % 24) b'h' (omega arith) (omega arith))
        ]
      ]
    ]

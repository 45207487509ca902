-- ===== src/Cgroups/Mixed/Marks.antt =====
-- What passing a stub changes.
use atop.Prelude.{
  ℕ, ◌-◌, ◌<◌, ◌≡◌, refl, ap, ◌∙◌, inl, inr, true, false, List, [], ◌∷◌, some, length,
  get_elem?-total, ltb, ◌==◌, if◌then◌else◌, Bool-cases, arith,
}
use atop.Cgroups.{Cgchainer}
use atop.Cgroups.Sort.{Line, clear_bit, cgrmaxdepth}
use atop.Cgroups.Mixed.{Cglinesel, mark_line, find_line, pass_stub}

-- A group has its entry in `marks`; a change of the marks takes no entry away.
unfoldable pub IsMarked : ℕ → List Line → Type 0
IsMarked at marks = (m : Line) × (find_line at marks ≡ some m)

abbrev pub Keeps : List Line → List Line → Type 0
Keeps marks marks' = (at : ℕ) → IsMarked at marks → IsMarked at marks'

pub IsMarked-head :
    (l : Line) (k : ℕ) (rest : List Line) → (l.at == k) ≡ true → IsMarked k (l ∷ rest)
unfolding find_line IsMarked
IsMarked-head l k rest e = (l, rw e refl)

pub IsMarked-tail :
    (l : Line) (k : ℕ) (rest : List Line)
    → (l.at == k) ≡ false
    → IsMarked k rest
    → IsMarked k (l ∷ rest)
unfolding find_line IsMarked
IsMarked-tail l k rest e (m, f) = (m, rw e f)

IsMarked-rest :
    (l : Line) (k : ℕ) (rest : List Line)
    → (l.at == k) ≡ false
    → IsMarked k (l ∷ rest)
    → IsMarked k rest
unfolding find_line IsMarked
IsMarked-rest l k rest e (m, f) = (m, rw e at f)

cons-Keeps :
    (x y : Line) (rest rest' : List Line)
    → y.at ≡ x.at
    → Keeps rest rest'
    → Keeps (x ∷ rest) (y ∷ rest')
cons-Keeps x y rest rest' same keep k marked = elim (Bool-cases (x.at == k)) [
  | inl here ↦ IsMarked-head y k rest' (ap (λ n. n == k) same ∙ here)
  | inr there ↦
      IsMarked-tail y k rest' (ap (λ n. n == k) same ∙ there)
        (keep k (IsMarked-rest x k rest there marked))
]

mark_line-Keeps :
    (f : Line → Line) (at : ℕ) (marks : List Line)
    → ((l : Line) → (f l).at ≡ l.at)
    → Keeps marks (mark_line f at marks)
unfolding mark_line
mark_line-Keeps f at [] same = λ k m. m
mark_line-Keeps f at (l ∷ rest) same =
    let head : (if l.at == at then f l else l).at ≡ l.at = elim (Bool-cases (l.at == at)) [
      | inl e ↦ rw e (same l)
      | inr e ↦ rw e refl
    ] in
    cons-Keeps l (if l.at == at then f l else l) rest (mark_line f at rest) head
      (mark_line-Keeps f at rest same)

-- The entries point to groups.
abbrev pub InRange : ℕ → List Cglinesel → Type 0
InRange n [] = Unit
InRange n (e ∷ rest) = (e.cgp < n) × InRange n rest

pub pass_stub-Keeps :
    (groups : List Cgchainer) (depth : ℕ) (sel : List Cglinesel) (marks : List Line)
    → InRange (length groups) sel
    → (marks' : List Line) × (pass_stub groups depth sel marks ≡ some marks') × Keeps marks marks'
unfolding pass_stub
pass_stub-Keeps groups depth [] marks r = (marks, refl, λ k m. m)
pass_stub-Keeps groups depth (e ∷ []) marks r = (marks, refl, λ k m. m)
pass_stub-Keeps groups depth (e ∷ (e' ∷ rest)) marks (a, r) =
    let (g, found_g) = get_elem?-total groups e.cgp a in
    let clear : Line → Line = λ l. record l { vlinemask = clear_bit (depth - 1) l.vlinemask } in
    let stub : Line → Line = λ l. record l { stub = 7 } in
    let cleared = if ltb depth cgrmaxdepth then mark_line clear e.cgp marks else marks in
    let keep : Keeps marks cleared = elim (Bool-cases (ltb depth cgrmaxdepth)) [
      | inl c ↦ rw c (mark_line-Keeps clear e.cgp marks (λ l. refl))
      | inr c ↦ rw c (λ k m. m)
    ] in
    let (marks', f, keep') = pass_stub-Keeps groups depth (e' ∷ rest) cleared r in
    elim (Bool-cases (ltb g.cstat.gen.depth depth)) [
      | inl above ↦ (marks, rw (found_g, above) refl, λ k m. m)
      | inr below ↦ elim (Bool-cases (depth == g.cstat.gen.depth)) [
        | inl level ↦ (
          mark_line stub e.cgp marks,
          rw (found_g, below, level) refl,
          mark_line-Keeps stub e.cgp marks (λ l. refl),
        )
        | inr other ↦ (marks', rw (found_g, below, other) f, λ k m. keep' k (keep k m))
      ]
    ]

-- All lines have their marks.
abbrev pub AreMarked : List Line → List Line → Type 0
AreMarked [] marks = Unit
AreMarked (l ∷ rest) marks = IsMarked l.at marks × AreMarked rest marks

pub AreMarked-Keeps :
    (lines marks marks' : List Line)
    → Keeps marks marks'
    → AreMarked lines marks
    → AreMarked lines marks'
AreMarked-Keeps [] marks marks' keep m = m
AreMarked-Keeps (l ∷ rest) marks marks' keep (m, more) =
    (keep l.at m, AreMarked-Keeps rest marks marks' keep more)

pub AreMarked-self : (lines : List Line) → AreMarked lines lines
AreMarked-self [] = tt
AreMarked-self (l ∷ rest) =
    let keep : Keeps rest (l ∷ rest) = λ k m. elim (Bool-cases (l.at == k)) [
      | inl here ↦ IsMarked-head l k rest here
      | inr there ↦ IsMarked-tail l k rest there m
    ] in
    (
      IsMarked-head l l.at rest (ground arith),
      AreMarked-Keeps rest rest (l ∷ rest) keep (AreMarked-self rest),
    )

-- ===== src/Acctd/Grows.antt =====
-- A transfer only adds to the files.
use atop.Text.{take, drop}
use atop.Prelude.{
  ℕ, ◌+◌, ◌-◌, ◌≤◌, ◌≡◌, ◌≢◌, refl, ap, ◌∙◌, ◌⊎◌, Bool, true, false, inl, inr, List, [], ◌++◌, some,
  length, leb, Bool-cases, arith, length-append,
}
use atop.Acctd.{
  put, contents, Shadow, createshadow, setcurrent, pass2shadow, next_shadow, write_parts, transfer,
}
use atop.Acctd.Files.{put_same, put_other}
use atop.Acctd.Laws.{switched}

-- From `s` to `s'`: nothing is removed, and file `seq` is not shorter.
abbrev pub Grows : ℕ → Shadow → Shadow → Type 0
Grows seq s s' =
    (s'.oldshadow ≡ s.oldshadow)
    × (s.curshadow ≤ s'.curshadow)
    × (length (contents (s.files seq)) ≤ length (contents (s'.files seq)))

same_or_not : (a b : ℕ) → (a ≡ b) ⊎ (a ≢ b)
same_or_not a b = ground arith

Grows-trans : (seq : ℕ) (s t u : Shadow) → Grows seq s t → Grows seq t u → Grows seq s u
Grows-trans seq s t u (a, b, c) (d, e, f) = (d ∙ a, omega (arith, b, e), omega (arith, c, f))

pass2shadow-Grows :
    (full : Bool) (buf : List ℕ) (s : Shadow) (seq : ℕ) → Grows seq s (pass2shadow full buf s)
unfolding pass2shadow
pass2shadow-Grows true buf s seq = (refl, omega arith, omega arith)
pass2shadow-Grows false buf s seq =
    let old = contents (s.files s.curshadow) in
    (
      refl,
      omega arith,
      elim (same_or_not seq s.curshadow) [
        | inl e ↦ omega (
          arith,
          length-append old buf,
          ap (λ i. length (contents (s.files i))) e,
          ap (λ i. length (contents (put s.curshadow (some (old ++ buf)) s.files i))) e,
          ap (λ o. length (contents o)) (put_same s.curshadow (some (old ++ buf)) s.files),
        )
        | inr other ↦ omega (
          arith,
          ap (λ o. length (contents o))
              (put_other s.curshadow seq (some (old ++ buf)) s.files other),
        )
      ],
    )

switched-Grows : (s : Shadow) (seq : ℕ) → seq ≤ s.curshadow → Grows seq s (switched s)
unfolding setcurrent createshadow
switched-Grows s seq h = (
  refl,
  omega arith,
  omega (
    arith,
    ap (λ o. length (contents o))
        (put_other (s.curshadow + 1) seq (some []) s.files (λ e. omega (arith, e, h))),
  ),
)

next_shadow-Grows :
    (full : Bool) (rem : List ℕ) (s : Shadow) (seq : ℕ)
    → seq ≤ s.curshadow
    → Grows seq s (next_shadow full rem s)
unfolding next_shadow
next_shadow-Grows full rem s seq h =
    Grows-trans seq s (switched s) (pass2shadow full rem (switched s)) (switched-Grows s seq h)
      (pass2shadow-Grows full rem (switched s) seq)

write_parts-Grows :
    (maxshadowrec : ℕ) (full full' : Bool) (part rem : List ℕ) (s : Shadow) (seq : ℕ)
    → seq ≤ s.curshadow
    → Grows seq s (write_parts maxshadowrec full full' part rem s)
unfolding write_parts
write_parts-Grows maxshadowrec full full' part rem s seq h =
    let passed = pass2shadow full part s in
    let grown = pass2shadow-Grows full part s seq in
    elim (Bool-cases (leb maxshadowrec passed.stotsize)) [
      | inl filled ↦
          rw (write_parts, filled)
            (Grows-trans seq s passed (next_shadow full' rem passed) grown
              (next_shadow-Grows full' rem passed seq (omega (arith, grown.1, h))))
      | inr room ↦ rw (write_parts, room) grown
    ]

pub transfer-Grows :
    (maxshadowrec : ℕ) (full full' : Bool) (abuf : List ℕ) (s : Shadow) (seq : ℕ)
    → seq ≤ s.curshadow
    → Grows seq s (transfer maxshadowrec full full' abuf s)
unfolding transfer
transfer-Grows maxshadowrec full full' abuf s seq h =
    elim (Bool-cases (leb (s.stotsize + length abuf) maxshadowrec)) [
      | inl fits ↦ rw (transfer, fits) (write_parts-Grows maxshadowrec full full' abuf [] s seq h)
      | inr parts ↦
          let partsz = maxshadowrec - s.stotsize in
          rw (transfer, parts)
            (write_parts-Grows maxshadowrec full full' (take partsz abuf) (drop partsz abuf) s seq
              h)
    ]

-- ===== src/Acctd/Laws.antt =====
-- What the shadow files hold after a transfer.
use atop.Text.{take, drop}
use atop.Text.Cuts.{take-drop, length-take}
use atop.Prelude.{
  ℕ, suc, ◌+◌, ◌-◌, ◌≤◌, ◌<◌, ◌≡◌, refl, sym, ap, ap₂, ◌∙◌, Bool, true, false, ◌⊎◌, inl, inr, List,
  [], ◌++◌, Option, some, length, leb, Bool-cases, arith, append_assoc, append-nil,
}
use atop.Acctd.{
  Files, put, contents, Shadow, createshadow, setcurrent, pass2shadow, next_shadow, write_parts,
  transfer,
}
use atop.Acctd.Files.{span, AreFull, put_same, put_other, span-agree, AreFull-agree, span-snoc}

-- All records from file `seq` on.
unfoldable pub log : Shadow → ℕ → List ℕ
log s seq = span s.files seq (suc (s.curshadow - seq))

log-last :
    (s : Shadow) (seq : ℕ)
    → seq ≤ s.curshadow
    → log s seq ≡ span s.files seq (s.curshadow - seq) ++ contents (s.files s.curshadow)
unfolding log
log-last s seq h =
    span-snoc s.files seq (s.curshadow - seq)
    ∙ ap (λ i. span s.files seq (s.curshadow - seq) ++ contents (s.files i)) (omega arith)

-- Only the last file is written.
span-put :
    (files : Files) (at seq n : ℕ) (c : Option (List ℕ))
    → seq + n ≤ at
    → span (put at c files) seq n ≡ span files seq n
span-put files at seq n c h =
    span-agree files (put at c files) seq n
      (λ i a b. put_other at i c files (λ e. omega (arith, e)))

pub AreFull-put :
    (maxshadowrec : ℕ) (files : Files) (at seq n : ℕ) (c : Option (List ℕ))
    → seq + n ≤ at
    → AreFull maxshadowrec files seq n
    → AreFull maxshadowrec (put at c files) seq n
AreFull-put maxshadowrec files at seq n c h =
    AreFull-agree maxshadowrec files (put at c files) seq n
      (λ i a b. put_other at i c files (λ e. omega (arith, e)))

pass2shadow-log :
    (buf : List ℕ) (s : Shadow) (seq : ℕ)
    → seq ≤ s.curshadow
    → log (pass2shadow false buf s) seq ≡ log s seq ++ buf
unfolding pass2shadow
pass2shadow-log buf s seq h =
    let n = s.curshadow - seq in
    let old = contents (s.files s.curshadow) in
    log-last (pass2shadow false buf s) seq h
    ∙ ap₂ (λ a b. a ++ contents b)
        (span-put s.files s.curshadow seq n (some (old ++ buf)) (omega arith))
        (put_same s.curshadow (some (old ++ buf)) s.files)
    ∙ sym (append_assoc (span s.files seq n) old buf)
    ∙ ap (λ l. l ++ buf) (sym (log-last s seq h))

-- The state with a new, empty file.
abbrev pub switched : Shadow → Shadow
switched s =
    record (setcurrent
      (createshadow (s.curshadow + 1) (record s { curshadow = s.curshadow + 1 }))) { stotsize = 0 }

switched-log : (s : Shadow) (seq : ℕ) → seq ≤ s.curshadow → log (switched s) seq ≡ log s seq
unfolding log setcurrent createshadow
switched-log s seq h =
    let n : s.curshadow + 1 - seq ≡ suc (s.curshadow - seq) = omega arith in
    log-last (switched s) seq (omega arith)
    ∙ ap₂ (λ a b. a ++ contents b)
        (ap (span (switched s).files seq) n
          ∙ span-put s.files (s.curshadow + 1) seq (suc (s.curshadow - seq)) (some [])
              (omega arith))
        (put_same (s.curshadow + 1) (some []) s.files)
    ∙ append-nil (span s.files seq (suc (s.curshadow - seq)))

switched_cur : (s : Shadow) → (switched s).curshadow ≡ s.curshadow + 1
unfolding setcurrent createshadow
switched_cur s = refl

passed_size :
    (buf : List ℕ) (s : Shadow) → (pass2shadow false buf s).stotsize ≡ s.stotsize + length buf
unfolding pass2shadow
passed_size buf s = refl

passed_cur :
    (full : Bool) (buf : List ℕ) (s : Shadow) → (pass2shadow full buf s).curshadow ≡ s.curshadow
unfolding pass2shadow
passed_cur true buf s = refl
passed_cur false buf s = refl

next_shadow-log :
    (rem : List ℕ) (s : Shadow) (seq : ℕ)
    → seq ≤ s.curshadow
    → log (next_shadow false rem s) seq ≡ log s seq ++ rem
unfolding next_shadow
next_shadow-log rem s seq h =
    pass2shadow-log rem (switched s) seq (omega (arith, switched_cur s, h))
    ∙ ap (λ l. l ++ rem) (switched-log s seq h)

-- What a transfer leaves to write when the first part did not fill the file.
write_parts-log :
    (maxshadowrec : ℕ) (part rem : List ℕ) (s : Shadow) (seq : ℕ)
    → seq ≤ s.curshadow
    → (rem ≡ []) ⊎ (s.stotsize + length part ≡ maxshadowrec)
    → log (write_parts maxshadowrec false false part rem s) seq ≡ log s seq ++ (part ++ rem)
unfolding write_parts
write_parts-log maxshadowrec part rem s seq h all =
    elim (Bool-cases (leb maxshadowrec (pass2shadow false part s).stotsize)) [
      | inl filled ↦
          rw (write_parts, filled)
            (next_shadow-log rem (pass2shadow false part s) seq
                (omega (arith, passed_cur false part s, h))
              ∙ ap (λ l. l ++ rem) (pass2shadow-log part s seq h)
              ∙ append_assoc (log s seq) part rem)
      | inr room ↦ elim all [
        | inl none_left ↦
            rw (write_parts, room, none_left)
              (pass2shadow-log part s seq h ∙ ap (λ l. log s seq ++ l) (sym (append-nil part)))
        | inr full ↦ absurd (ground (arith, passed_size part s, room, full))
      ]
    ]

-- `transfer` when the file system is not full and the current file is not filled: from any file on
-- that is not newer than the current one, the shadow files hold what they held and then the records
-- that were read, in their order and each once.
pub transfer-log :
    (maxshadowrec : ℕ) (abuf : List ℕ) (s : Shadow) (seq : ℕ)
    → s.stotsize < maxshadowrec
    → seq ≤ s.curshadow
    → log (transfer maxshadowrec false false abuf s) seq ≡ log s seq ++ abuf
unfolding transfer
transfer-log maxshadowrec abuf s seq room h =
    let partsz = maxshadowrec - s.stotsize in
    elim (Bool-cases (leb (s.stotsize + length abuf) maxshadowrec)) [
      | inl fits ↦
          rw (transfer, fits)
            (write_parts-log maxshadowrec abuf [] s seq h (inl refl)
              ∙ ap (λ l. log s seq ++ l) (append-nil abuf))
      | inr parts ↦
          let long : partsz ≤ length abuf = ground arith in
          let filled : s.stotsize + length (take partsz abuf) ≡ maxshadowrec =
            omega (arith, length-take partsz abuf long) in
          rw (transfer, parts)
            (write_parts-log maxshadowrec (take partsz abuf) (drop partsz abuf) s seq h (inr filled)
              ∙ ap (λ l. log s seq ++ l) (take-drop partsz abuf))
    ]

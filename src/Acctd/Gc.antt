-- ===== src/Acctd/Gc.antt =====
-- The removal of old shadow files.
use atop.Prelude.{
  ℕ, zero, suc, ◌+◌, ◌-◌, ◌≤◌, ◌<◌, ◌≡◌, ◌≢◌, refl, sym, ap, subst, ◌∙◌, Bool, true, false, inl,
  inr, List, Option, none, some, ltb, Bool-cases, Option-cases, arith,
}
use atop.Acctd.{put, Shadow, gcshadows}
use atop.Acctd.Files.{AreFull, put_other, span-agree, AreFull-agree}
use atop.Acctd.Laws.{log}
use atop.Acctd.Inv.{IsShadow}

-- The state without its oldest file.
abbrev pub unlinked : Shadow → Shadow
unlinked s = record s { files = put s.oldshadow none s.files; oldshadow = s.oldshadow + 1 }

gc_done :
    (fuel bound : ℕ) (held : ℕ → Bool) (s : Shadow)
    → ltb s.oldshadow bound ≡ false
    → gcshadows (suc fuel) held bound s ≡ s
unfolding gcshadows
gc_done fuel bound held s e = rw (gcshadows, e) refl

gc_missing :
    (fuel bound : ℕ) (held : ℕ → Bool) (s : Shadow)
    → s.files s.oldshadow ≡ none
    → gcshadows (suc fuel) held bound s ≡ s
unfolding gcshadows
gc_missing fuel bound held s e = elim (Bool-cases (ltb s.oldshadow bound)) [
  | inl more ↦ rw (gcshadows, more, e) refl
  | inr done ↦ gc_done fuel bound held s done
]

gc_held :
    (fuel bound : ℕ) (held : ℕ → Bool) (s : Shadow) (l : List ℕ)
    → s.files s.oldshadow ≡ some l
    → held s.oldshadow ≡ true
    → gcshadows (suc fuel) held bound s ≡ s
unfolding gcshadows
gc_held fuel bound held s l e h = elim (Bool-cases (ltb s.oldshadow bound)) [
  | inl more ↦ rw (gcshadows, more, e, h) refl
  | inr done ↦ gc_done fuel bound held s done
]

gc_unlinked :
    (fuel bound : ℕ) (held : ℕ → Bool) (s : Shadow) (l : List ℕ)
    → ltb s.oldshadow bound ≡ true
    → s.files s.oldshadow ≡ some l
    → held s.oldshadow ≡ false
    → gcshadows (suc fuel) held bound s ≡ gcshadows fuel held bound (unlinked s)
unfolding gcshadows
gc_unlinked fuel bound held s l more e h = rw (gcshadows, more, e, h) refl

-- A property of states that the removal of an unlocked file below the bound keeps holds at the end.
gcshadows-keeps :
    (fuel bound : ℕ) (held : ℕ → Bool) (P : Shadow → Type 0)
    → ((s : Shadow) → s.oldshadow < bound → held s.oldshadow ≡ false → P s → P (unlinked s))
    → (s : Shadow) → P s
    → P (gcshadows fuel held bound s)
unfolding gcshadows
gcshadows-keeps zero bound held P step s p = p
gcshadows-keeps (suc fuel) bound held P step s p = elim (Bool-cases (ltb s.oldshadow bound)) [
  | inr done ↦ subst P (sym (gc_done fuel bound held s done)) p
  | inl more ↦ elim (Option-cases (s.files s.oldshadow)) [
    | inl missing ↦ subst P (sym (gc_missing fuel bound held s missing)) p
    | inr (l, e) ↦ elim (Bool-cases (held s.oldshadow)) [
      | inl locked ↦ subst P (sym (gc_held fuel bound held s l e locked)) p
      | inr free ↦
          subst P (sym (gc_unlinked fuel bound held s l more e free))
            (gcshadows-keeps fuel bound held P step (unlinked s) (step s (ground arith) free p))
    ]
  ]
]

-- What a reader of file `seq` relies on.
abbrev pub IsReadable : Shadow → ℕ → Option (List ℕ) → List ℕ → Type 0
IsReadable s seq content records =
    (s.oldshadow ≤ seq) × (seq ≤ s.curshadow) × (s.files seq ≡ content) × (log s seq ≡ records)

unlinked-IsReadable :
    (s : Shadow) (seq : ℕ) (content : Option (List ℕ)) (records : List ℕ)
    → s.oldshadow ≢ seq
    → IsReadable s seq content records
    → IsReadable (unlinked s) seq content records
unfolding log
unlinked-IsReadable s seq content records other (old, cur, same, e) = (
  omega (arith, other),
  cur,
  put_other s.oldshadow seq none s.files (λ h. other (sym h)) ∙ same,
  span-agree s.files (unlinked s).files seq (suc (s.curshadow - seq))
        (λ i a b. put_other s.oldshadow i none s.files (λ h. omega (arith, h, other)))
      ∙ e,
)

unlinked-IsShadow :
    (maxshadowrec bound : ℕ) (s : Shadow)
    → s.oldshadow < bound
    → bound ≤ s.curshadow
    → IsShadow maxshadowrec s
    → IsShadow maxshadowrec (unlinked s)
unlinked-IsShadow maxshadowrec bound s below low ((zero, e, filled, last, few, cur), room) =
    absurd (omega (arith, e))
unlinked-IsShadow maxshadowrec bound s below low
      ((suc n, e, (first, filled), (l, at, len), few, cur), room) =
    (
      (
        n,
        omega (arith, e),
        AreFull-agree maxshadowrec s.files (unlinked s).files (s.oldshadow + 1) n
            (λ i a b. put_other s.oldshadow i none s.files (λ h. omega (arith, h)))
            (subst (λ i. AreFull maxshadowrec s.files i n) (omega arith) filled),
        (l, put_other s.oldshadow s.curshadow none s.files (λ h. omega (arith, h)) ∙ at, len),
        few,
        cur,
      ),
      room,
    )

-- `gcshadows` up to a file that is not newer than the current one, for any number of rounds: the
-- shadow files that are left are filled as they were, and a reader that has a file locked finds this
-- file and all records from it on as they were.
pub gcshadows-IsReadable :
    (maxshadowrec fuel bound : ℕ) (held : ℕ → Bool) (s : Shadow) (seq : ℕ)
    → IsShadow maxshadowrec s
    → bound ≤ s.curshadow
    → held seq ≡ true
    → s.oldshadow ≤ seq
    → seq ≤ s.curshadow
    → IsShadow maxshadowrec (gcshadows fuel held bound s)
      × IsReadable (gcshadows fuel held bound s) seq (s.files seq) (log s seq)
gcshadows-IsReadable maxshadowrec fuel bound held s seq inv low locked old cur =
    let end =
      gcshadows-keeps fuel bound held
        (λ t.
          (bound ≤ t.curshadow)
          × IsShadow maxshadowrec t
          × IsReadable t seq (s.files seq) (log s seq))
        (λ t below free (b, i, r). (
          b,
          unlinked-IsShadow maxshadowrec bound t below b i,
          unlinked-IsReadable t seq (s.files seq) (log s seq)
              (λ e. ground (arith, free, locked, ap held e)) r,
        ))
        s (low, inv, (old, cur, refl, refl)) in
    (end.1, end.2)

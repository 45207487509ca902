-- ===== src/Acct/Reader/Reads.antt =====
-- `acctphotoproc` reads what is there, once and in order.
use atop.Text.{take, drop}
use atop.Text.Cuts.{length-drop, drop-length, drop-get}
use atop.Prelude.{
  ℕ, zero, suc, ◌+◌, ◌≤◌, ◌<◌, ◌≡◌, refl, sym, ap, subst, ◌∙◌, ◌⊎◌, inl, inr, List, [], ◌∷◌, ◌++◌,
  Option, none, some, length, get_elem?, arith, length-append, get_elem?-total,
}
use atop.Acctd.{Files, contents}
use atop.Acctd.Files.{span}
use atop.Acct.Reader.{Reader, behind, at_end, read_record, advance, photo, acctphotoproc}
use atop.Acct.Reader.Laws.{IsAt, unread, AreReady, photo_round, at_end_stay, at_end_move, moved}

get_elem?-append :
    (xs ys : List ℕ) (i x : ℕ) → get_elem? xs i ≡ some x → get_elem? (xs ++ ys) i ≡ some x
get_elem?-append [] ys i x h = ground arith
get_elem?-append (z ∷ xs) ys zero x h = h
get_elem?-append (z ∷ xs) ys (suc i) x h = get_elem?-append xs ys i x h

-- The first of the files that are ready exists, and is not empty when there is something to read.
pub ready_first :
    (maxshadowrec : ℕ) (files : Files) (seq n : ℕ)
    → AreReady maxshadowrec files seq n
    → (l : List ℕ) × (files seq ≡ some l)
ready_first maxshadowrec files seq zero (f, (l, e)) = (l, ap files (omega arith) ∙ e)
ready_first maxshadowrec files seq (suc n) (((l, e, full), f), last) = (l, e)

ready_filled :
    (maxshadowrec : ℕ) (files : Files) (seq n : ℕ)
    → 0 < maxshadowrec
    → AreReady maxshadowrec files seq n
    → 0 < length (span files seq (suc n))
    → 0 < length (contents (files seq))
unfolding span
ready_filled maxshadowrec files seq zero some_max r h =
    omega (arith, length-append (contents (files seq)) [])
ready_filled maxshadowrec files seq (suc n) some_max (((l, e, full), f), last) h =
    omega (arith, full, ap (λ o. length (contents o)) e)

-- After the end of a file is looked for, there is a record to read.
abbrev IsPrepared : ℕ → Files → ℕ → ℕ → Reader → Type 0
IsPrepared maxshadowrec files m size r =
    (m' : ℕ) × (r' : Reader) × (at_end files size r ≡ (length (contents (files r'.fdseq)), r'))
    × (r'.offset < length (contents (files r'.fdseq)))
    × IsAt files r'
    × (r'.fdseq + m' ≡ r.fdseq + m)
    × (r.fdseq ≤ r'.fdseq)
    × AreReady maxshadowrec files r'.fdseq m'
    × (unread files m' r' ≡ unread files m r)

prepare_moved :
    (maxshadowrec m size : ℕ) (files : Files) (r : Reader)
    → 0 < maxshadowrec
    → IsAt files r
    → AreReady maxshadowrec files r.fdseq m
    → size ≡ length (contents (files r.fdseq))
    → r.offset ≡ size
    → 0 < length (unread files m r)
    → IsPrepared maxshadowrec files m size r
unfolding span
prepare_moved maxshadowrec zero size files r some_max (seq, off, low, live) ready e at more =
    absurd (
      omega (
        arith,
        length-drop r.offset (span files r.fdseq 1),
        length-append (contents (files r.fdseq)) [],
      ))
prepare_moved maxshadowrec (suc k) size files r some_max (seq, off, low, live)
      ((first, f), (l, last)) e at more =
    let next : r.curshadowseq + 1 ≡ suc r.fdseq = omega (arith, seq) in
    let ready : AreReady maxshadowrec files (suc r.fdseq) k =
      (f, (l, ap files (omega arith) ∙ last)) in
    let rest : unread files (suc k) r ≡ span files (suc r.fdseq) (suc k) =
      ap (λ n. drop n (span files r.fdseq (suc (suc k)))) (at ∙ e)
      ∙ drop-length (contents (files r.fdseq)) (span files (suc r.fdseq) (suc k)) in
    let filled =
      ready_filled maxshadowrec files (suc r.fdseq) k some_max ready
        (omega (arith, more, ap length rest)) in
    let (l', e') = ready_first maxshadowrec files (suc r.fdseq) k ready in
    (
      k,
      moved r,
      at_end_move files size r l' (omega (arith, off, at)) (ap files next ∙ e'),
      subst (λ i. 0 < length (contents (files i))) (sym next) filled,
      (refl, refl, omega arith, refl),
      omega (arith, next),
      omega (arith, next),
      subst (λ i. AreReady maxshadowrec files i k) (sym next) ready,
      ap (λ i. span files i (suc k)) next ∙ sym rest,
    )

lt_or_eq : (a b : ℕ) → a ≤ b → (a < b) ⊎ (a ≡ b)
lt_or_eq a b h = ground arith

prepare :
    (maxshadowrec m : ℕ) (files : Files) (r : Reader)
    → 0 < maxshadowrec
    → IsAt files r
    → AreReady maxshadowrec files r.fdseq m
    → 0 < length (unread files m r)
    → IsPrepared maxshadowrec files m (length (contents (files r.fdseq))) r
prepare maxshadowrec m files r some_max (seq, off, low, live) ready more =
    elim (lt_or_eq r.offset (length (contents (files r.fdseq))) low) [
      | inl inside ↦ (
        m,
        r,
        at_end_stay files (length (contents (files r.fdseq))) r (omega (arith, off)),
        inside,
        (seq, off, low, live),
        refl,
        omega arith,
        ready,
        refl,
      )
      | inr at ↦
          prepare_moved maxshadowrec m (length (contents (files r.fdseq))) files r some_max
            (seq, off, low, live) ready refl at more
    ]

unread-advance :
    (files : Files) (m x : ℕ) (r : Reader)
    → get_elem? (contents (files r.fdseq)) r.offset ≡ some x
    → unread files m r ≡ x ∷ unread files m (advance r)
unfolding span advance
unread-advance files m x r h =
    let rest = span files (suc r.fdseq) m in
    let next : suc r.offset ≡ r.offset + 1 = omega arith in
    drop-get r.offset x (span files r.fdseq (suc m))
      (get_elem?-append (contents (files r.fdseq)) rest r.offset x h)
    ∙ ap (λ k. x ∷ drop k (span files r.fdseq (suc m))) next

-- The outcome of reading `n` records.
abbrev pub HasRead : ℕ → Files → ℕ → ℕ → Reader → Option (List ℕ × Reader) → Type 0
HasRead maxshadowrec files m n r outcome =
    (m' : ℕ) × (r' : Reader) × (outcome ≡ some (take n (unread files m r), r'))
    × IsAt files r'
    × (r'.fdseq + m' ≡ r.fdseq + m)
    × (r.fdseq ≤ r'.fdseq)
    × AreReady maxshadowrec files r'.fdseq m'
    × (unread files m' r' ≡ drop n (unread files m r))

advance-IsAt :
    (files : Files) (r : Reader)
    → IsAt files r
    → r.offset < length (contents (files r.fdseq))
    → IsAt files (advance r)
unfolding advance
advance-IsAt files r (seq, off, low, live) inside = (seq, ap (λ k. k + 1) off, omega arith, live)

advance_seq : (r : Reader) → (advance r).fdseq ≡ r.fdseq
unfolding advance
advance_seq r = refl

read_of :
    (files : Files) (r : Reader) (x : ℕ)
    → r.removed ≡ none
    → get_elem? (contents (files r.fdseq)) r.offset ≡ some x
    → read_record files r ≡ some x
unfolding read_record
read_of files r x live h = rw (read_record, live) h

photo-HasRead :
    (n fuel maxshadowrec m : ℕ) (files : Files) (r : Reader)
    → n ≤ fuel
    → 0 < maxshadowrec
    → IsAt files r
    → AreReady maxshadowrec files r.fdseq m
    → n ≤ length (unread files m r)
    → HasRead maxshadowrec files m n r (photo fuel files n (length (contents (files r.fdseq))) r)
unfolding photo
photo-HasRead zero fuel maxshadowrec m files r enough some_max at ready few =
    (m, r, refl, at, refl, omega arith, ready, refl)
photo-HasRead (suc n) zero maxshadowrec m files r enough some_max at ready few =
    absurd (omega arith)
photo-HasRead (suc n) (suc fuel) maxshadowrec m files r enough some_max at ready few =
    let (m1, r1, e, inside, at1, sum, later, ready1, same) =
      prepare maxshadowrec m files r some_max at ready (omega arith) in
    let (x, h) = get_elem?-total (contents (files r1.fdseq)) r1.offset inside in
    let cons = sym same ∙ unread-advance files m1 x r1 h in
    let seq = advance_seq r1 in
    let (m2, r2, e2, at2, sum2, later2, ready2, left2) =
      photo-HasRead n fuel maxshadowrec m1 files (advance r1) (omega arith) some_max
        (advance-IsAt files r1 at1 inside)
        (subst (λ i. AreReady maxshadowrec files i m1) (sym seq) ready1)
        (omega (arith, ap length cons)) in
    let size = ap (λ i. photo fuel files n (length (contents (files i))) (advance r1)) seq in
    (
      m2,
      r2,
      photo_round fuel n (length (contents (files r.fdseq))) (length (contents (files r1.fdseq))) x
            files r r1 e (read_of files r1 x at1.3 h)
          ∙ rw (sym size ∙ e2) (ap (λ l. some (l, r2)) (ap (take (suc n)) (sym cons))),
      at2,
      omega (arith, sum2, sum, seq),
      omega (arith, later2, later, seq),
      ready2,
      left2 ∙ ap (drop (suc n)) (sym cons),
    )

pub acctphotoproc-HasRead :
    (n fuel maxshadowrec m : ℕ) (files : Files) (r : Reader)
    → n ≤ fuel
    → 0 < maxshadowrec
    → IsAt files r
    → AreReady maxshadowrec files r.fdseq m
    → n ≤ length (unread files m r)
    → HasRead maxshadowrec files m n r (acctphotoproc fuel files n r)
unfolding acctphotoproc
acctphotoproc-HasRead n fuel maxshadowrec m files r enough some_max (seq, off, low, live) ready
      few =
    let e : behind files r ≡ contents (files r.fdseq) =
      ap (λ o. elim o [ none ↦ contents (files r.fdseq) | some l ↦ l ]) live in
    subst (λ l. HasRead maxshadowrec files m n r (photo fuel files n (length l) r)) (sym e)
      (photo-HasRead n fuel maxshadowrec m files r enough some_max (seq, off, low, live) ready few)

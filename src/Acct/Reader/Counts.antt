-- ===== src/Acct/Reader/Counts.antt =====
-- `acctprocnt` counts what `acctphotoproc` can read.
use atop.Text.Cuts.{length-drop}
use atop.Prelude.{
  ℕ, zero, suc, ◌+◌, ◌-◌, ◌*◌, ◌<◌, ◌≡◌, refl, sym, ap, ◌∙◌, true, false, ◌||◌, List, [], some,
  length, ltb, ◌==◌, arith, length-append, none,
}
use atop.Acctd.{Files, contents}
use atop.Acctd.Files.{span, AreFull}
use atop.Acct.Reader.{Reader, acctprocnt}
use atop.Acct.Reader.Laws.{IsAt, unread, AreReady}

pub length-span :
    (maxshadowrec : ℕ) (files : Files) (seq n : ℕ)
    → AreFull maxshadowrec files seq n
    → length (span files seq (suc n)) ≡ n * maxshadowrec + length (contents (files (seq + n)))
unfolding span
length-span maxshadowrec files seq zero f =
    let e : seq + 0 ≡ seq = omega arith in
    omega (arith, length-append (contents (files seq)) [], ap (λ i. length (contents (files i))) e)
length-span maxshadowrec files seq (suc n) ((l, e, full), f) =
    let i : suc seq + n ≡ seq + suc n = omega arith in
    omega (
      arith,
      length-append (contents (files seq)) (span files (suc seq) (suc n)),
      ap (λ o. length (contents o)) e,
      full,
      length-span maxshadowrec files (suc seq) n f,
      ap (λ j. length (contents (files j))) i,
    )

count_current :
    (maxshadowrec newseq : ℕ) (files : Files) (r : Reader) (l : List ℕ)
    → r.removed ≡ none
    → files r.fdseq ≡ some l
    → length l < maxshadowrec
    → acctprocnt maxshadowrec files newseq r ≡ some (length l - r.acctsize)
unfolding acctprocnt
count_current maxshadowrec newseq files r l live e low =
    let b : (ltb (length l) maxshadowrec || newseq == r.curshadowseq) ≡ true = ground arith in
    let held : contents (files r.fdseq) ≡ l = ap contents e in rw (acctprocnt, live, held, b) refl

count_more :
    (maxshadowrec newseq : ℕ) (files : Files) (r : Reader) (l newest : List ℕ)
    → r.removed ≡ none
    → files r.fdseq ≡ some l
    → length l ≡ maxshadowrec
    → files newseq ≡ some newest
    → r.curshadowseq < newseq
    → acctprocnt maxshadowrec files newseq r
      ≡ some (length l - r.acctsize + (newseq - r.curshadowseq - 1) * maxshadowrec + length newest)
unfolding acctprocnt
count_more maxshadowrec newseq files r l newest live e full e' later =
    let b : (ltb (length l) maxshadowrec || newseq == r.curshadowseq) ≡ false = ground arith in
    let c : ltb r.curshadowseq newseq ≡ true = ground arith in
    let held : contents (files r.fdseq) ≡ l = ap contents e in
    rw (acctprocnt, live, held, b, e', c)
      (ap
        (λ l.
          some
            (length l - r.acctsize + (newseq - r.curshadowseq - 1) * maxshadowrec + length newest))
        held)

-- `acctprocnt` for a reader in one of the shadow files, of which all up to the newest are full and
-- the newest is not: the number of all records that it has not read yet.
pub acctprocnt-unread :
    (maxshadowrec n newseq : ℕ) (files : Files) (r : Reader)
    → IsAt files r
    → AreReady maxshadowrec files r.fdseq n
    → r.fdseq + n ≡ newseq
    → length (contents (files newseq)) < maxshadowrec
    → acctprocnt maxshadowrec files newseq r ≡ some (length (unread files n r))
acctprocnt-unread maxshadowrec zero newseq files r (seq, off, low, live) (f, (l, last)) e room =
    let i : r.fdseq + 0 ≡ r.fdseq = omega arith in
    let at : files r.fdseq ≡ some l = ap files (sym i) ∙ last in
    let size = ap (λ o. length (contents o)) at in
    let total = length-span maxshadowrec files r.fdseq 0 f in
    count_current maxshadowrec newseq files r l live at (
      omega (
        arith,
        size,
        ap (λ j. length (contents (files j))) (sym e),
        ap (λ j. length (contents (files j))) i,
      ))
    ∙ ap some (
        omega (
          arith,
          off,
          size,
          total,
          length-drop r.offset (span files r.fdseq 1),
          ap (λ j. length (contents (files j))) i,
        ))
acctprocnt-unread maxshadowrec (suc n) newseq files r (seq, off, low, live)
      (((l, at, full), f), (l', last)) e room =
    let newest : files newseq ≡ some l' = ap files (sym e) ∙ last in
    let size = ap (λ o. length (contents o)) at in
    let size' = ap (λ o. length (contents o)) last in
    let total = length-span maxshadowrec files r.fdseq (suc n) ((l, at, full), f) in
    let gap : newseq - r.curshadowseq - 1 ≡ n = omega (arith, seq, e) in
    count_more maxshadowrec newseq files r l l' live at full newest (omega (arith, seq, e))
    ∙ ap (λ k. some (length l - r.acctsize + k * maxshadowrec + length l')) gap
    ∙ ap some (
        omega (
          arith,
          off,
          low,
          full,
          size,
          size',
          total,
          length-drop r.offset (span files r.fdseq (suc (suc n))),
        ))

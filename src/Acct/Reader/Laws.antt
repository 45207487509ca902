-- ===== src/Acct/Reader/Laws.antt =====
-- A reader gets the records of the shadow files one after the other.
use atop.Text.{drop}
use atop.Prelude.{
  ℕ, suc, ◌+◌, ◌≤◌, ◌<◌, ◌≡◌, refl, ap, ◌∙◌, true, false, List, ◌∷◌, none, some, length, leb, arith,
}
use atop.Prelude.Partial.{◌>>=◌}
use atop.Acctd.{Files, contents}
use atop.Acctd.Files.{span, AreFull}
use atop.Acct.Reader.{Reader, behind, switchshadow, at_end, read_record, advance, photo}

-- A reader whose numbers agree, in a file that it has not read past the end.
abbrev pub IsAt : Files → Reader → Type 0
IsAt files r =
    (r.curshadowseq ≡ r.fdseq)
    × (r.acctsize ≡ r.offset)
    × (r.offset ≤ length (contents (files r.fdseq)))
    × (r.removed ≡ none)

-- What it has not read yet, when `n` files follow its own.
abbrev pub unread : Files → ℕ → Reader → List ℕ
unread files n r = drop r.offset (span files r.fdseq (suc n))

-- The files that follow are full but the last one, which exists.
abbrev pub AreReady : ℕ → Files → ℕ → ℕ → Type 0
AreReady maxshadowrec files seq n =
    AreFull maxshadowrec files seq n × ((l : List ℕ) × (files (seq + n) ≡ some l))

pub switch_found :
    (files : Files) (r : Reader) (l : List ℕ)
    → files (r.curshadowseq + 1) ≡ some l
    → switchshadow files r ≡ record r {
      curshadowseq = r.curshadowseq + 1;
      fdseq = r.curshadowseq + 1;
      offset = 0;
      removed = none;
    }
unfolding switchshadow
switch_found files r l e = rw (switchshadow, e) refl

-- One round of the loop.
pub photo_round :
    (fuel n size size' x : ℕ) (files : Files) (r r' : Reader)
    → at_end files size r ≡ (size', r')
    → read_record files r' ≡ some x
    → photo (suc fuel) files (suc n) size r
      ≡ (photo fuel files n size' (advance r') >>= λ (got, r''). some (x ∷ got, r''))
unfolding photo
photo_round fuel n size size' x files r r' e g =
    let g' = ap (λ (w : ℕ × Reader). read_record files w.1) e ∙ g in
    rw (photo, g')
      (ap
        (λ (w : ℕ × Reader).
          photo fuel files n w.0 (advance w.1) >>= λ (got, r''). some (x ∷ got, r''))
        e)

-- A round that reads nothing.
pub photo_again :
    (fuel n size size' : ℕ) (files : Files) (r r' : Reader)
    → at_end files size r ≡ (size', r')
    → read_record files r' ≡ none
    → photo (suc fuel) files (suc n) size r ≡ photo fuel files (suc n) size' r'
unfolding photo
photo_again fuel n size size' files r r' e g =
    let g' = ap (λ (w : ℕ × Reader). read_record files w.1) e ∙ g in
    rw (photo, g') (ap (λ (w : ℕ × Reader). photo fuel files (suc n) w.0 w.1) e)

pub at_end_stay :
    (files : Files) (size : ℕ) (r : Reader) → r.acctsize < size → at_end files size r ≡ (size, r)
unfolding at_end
at_end_stay files size r h =
    let e : leb size r.acctsize ≡ false = ground arith in rw (at_end, e) refl

-- The reader at the start of the next file.
abbrev pub moved : Reader → Reader
moved r = record {
  fdseq = r.curshadowseq + 1;
  offset = 0;
  curshadowseq = r.curshadowseq + 1;
  acctsize = 0;
  removed = none;
}

pub at_end_move :
    (files : Files) (size : ℕ) (r : Reader) (l : List ℕ)
    → size ≤ r.acctsize
    → files (r.curshadowseq + 1) ≡ some l
    → at_end files size r ≡ (length (contents (files (r.curshadowseq + 1))), moved r)
unfolding at_end
at_end_move files size r l h e =
    let b : leb size r.acctsize ≡ true = ground arith in
    let s = switch_found files r l e in
    rw (at_end, b)
      (ap
        (λ (t : Reader).
          (length (behind files (record t { acctsize = 0 })), record t { acctsize = 0 }))
        s)

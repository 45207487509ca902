-- ===== src/Acct/Reader/Hangs.antt =====
-- `acctphotoproc` when a file that it was told of does not exist any more.
use atop.Prelude.{
  ℕ, zero, suc, ◌+◌, ◌≤◌, ◌<◌, ◌≡◌, refl, ◌∙◌, true, false, inl, inr, List, [], ◌∷◌, none, length,
  get_elem?, leb, Bool-cases, arith,
}
use atop.Acctd.{Files}
use atop.Acct.Reader.{Reader, behind, switchshadow, at_end, read_record, photo, acctphotoproc}
use atop.Acct.Reader.Laws.{photo_again}

get_elem?-past : (l : List ℕ) (i : ℕ) → length l ≤ i → get_elem? l i ≡ none
get_elem?-past [] i h = refl
get_elem?-past (x ∷ l) zero h = absurd (omega arith)
get_elem?-past (x ∷ l) (suc i) h = get_elem?-past l i (omega arith)

past_read :
    (files : Files) (r : Reader) → length (behind files r) ≤ r.offset → read_record files r ≡ none
unfolding read_record
past_read files r h = get_elem?-past (behind files r) r.offset h

-- The reader after a switch that found no file.
abbrev skipped : Reader → Reader
skipped r = record r { curshadowseq = r.curshadowseq + 1; acctsize = 0 }

at_end_missed :
    (files : Files) (size : ℕ) (r : Reader)
    → leb size r.acctsize ≡ true
    → files (r.curshadowseq + 1) ≡ none
    → at_end files size r ≡ (length (behind files r), skipped r)
unfolding at_end switchshadow
at_end_missed files size r b e = rw (at_end, b, switchshadow, e) refl

at_end_same :
    (files : Files) (size : ℕ) (r : Reader)
    → leb size r.acctsize ≡ false
    → at_end files size r ≡ (size, r)
unfolding at_end
at_end_same files size r b = rw (at_end, b) refl

photo_hangs :
    (fuel n size : ℕ) (files : Files) (r : Reader)
    → length (behind files r) ≤ r.offset
    → ((seq : ℕ) → r.curshadowseq < seq → files seq ≡ none)
    → photo fuel files (suc n) size r ≡ none
unfolding photo
photo_hangs zero n size files r past missing = refl
photo_hangs (suc fuel) n size files r past missing = elim (Bool-cases (leb size r.acctsize)) [
  | inl end ↦
      let moved = at_end_missed files size r end (missing (r.curshadowseq + 1) (omega arith)) in
      photo_again fuel n size (length (behind files r)) files r (skipped r) moved
        (past_read files (skipped r) past)
      ∙ photo_hangs fuel n (length (behind files r)) files (skipped r) past
          (λ seq h. missing seq (omega arith))
  | inr inside ↦
      photo_again fuel n size size files r r (at_end_same files size r inside)
        (past_read files r past)
      ∙ photo_hangs fuel n size files r past missing
]

-- `acctphotoproc` of a reader that has read all that its open file holds, also when this file was removed,
-- while no file with a later number exists (atopacctd has removed them after `acctprocnt` counted
-- their records): as long as the files stay like this, the loop for one or more records does not end, however many rounds it may run.
pub acctphotoproc_hangs :
    (fuel n : ℕ) (files : Files) (r : Reader)
    → length (behind files r) ≤ r.offset
    → ((seq : ℕ) → r.curshadowseq < seq → files seq ≡ none)
    → acctphotoproc fuel files (suc n) r ≡ none
unfolding acctphotoproc
acctphotoproc_hangs fuel n files r past missing =
    photo_hangs fuel n (length (behind files r)) files r past missing

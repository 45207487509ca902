-- ===== src/Acct/Reader.antt =====
-- acctproc.c: the shadow files as a client of atopacctd reads them. Sizes count records. The client is
-- registered; how it registers and what it does with accounting files of its own is left out.
pub mod Laws
pub mod Reads
pub mod Counts
pub mod Runs
pub mod Hangs
pub mod Skips
mod Tests
use atop.Prelude.{
  ℕ, zero, suc, ◌+◌, ◌-◌, ◌*◌, ◌/◌, ◌%◌, Bool, true, false, List, [], ◌∷◌, ◌++◌, Option, none, some,
  length, get_elem?, leb, ltb, ◌||◌, ◌==◌, if◌then◌else◌,
}
use atop.Prelude.Partial.{◌>>=◌}
use atop.Acctd.{Files, contents}

-- The number of the file behind `acctfd` and the offset in it, `curshadowseq` and `acctsize`. `removed` is
-- none while this file is in its directory; a file that was removed is still open, and `removed` is what
-- it holds.
pub record Reader : Type 0 where
  pub fdseq : ℕ
  pub offset : ℕ
  pub curshadowseq : ℕ
  pub acctsize : ℕ
  pub removed : Option (List ℕ)

-- What `fstat` and `read` see of the open file.
abbrev pub behind : Files → Reader → List ℕ
behind files r = elim r.removed [ none ↦ contents (files r.fdseq) | some l ↦ l ]

-- `switchshadow`: without a next file, only the number moves on. Its read lock is granted.
unfoldable pub switchshadow : Files → Reader → Reader
switchshadow files r =
    let seq = r.curshadowseq + 1 in
    elim (files seq) [
      | none ↦ record r { curshadowseq = seq }
      | some l ↦ record r { curshadowseq = seq; fdseq = seq; offset = 0; removed = none }
    ]

-- `acctprocnt`, with the number in the file `current`. It is none when the file was removed
-- (`st_nlink` is 0), where the client registers again.
unfoldable pub acctprocnt : ℕ → Files → ℕ → Reader → Option ℕ
acctprocnt maxshadowrec files newseq r = elim r.removed [
  | some gone ↦ none
  | none ↦
      let l = contents (files r.fdseq) in
      let numrecs = length l - r.acctsize in
      if ltb (length l) maxshadowrec || newseq == r.curshadowseq
      then some numrecs
      else elim (files newseq) [
        | none ↦ some numrecs
        | some newest ↦
            if ltb r.curshadowseq newseq
            then some (numrecs + (newseq - r.curshadowseq - 1) * maxshadowrec + length newest)
            else some 0
      ]
]

-- Before a record is read: the switch at the end of a file, with the new `statacc.st_size`.
unfoldable pub at_end : Files → ℕ → Reader → ℕ × Reader
at_end files size r =
    let switched = record (switchshadow files r) { acctsize = 0 } in
    if leb size r.acctsize then (length (behind files switched), switched) else (size, r)

-- `read(acctfd, &acctrec_v3, acctrecsz)`
unfoldable pub read_record : Files → Reader → Option ℕ
read_record files r = get_elem? (behind files r) r.offset

unfoldable pub advance : Reader → Reader
advance r = record r { offset = r.offset + 1; acctsize = r.acctsize + 1 }

-- The loop of `acctphotoproc` for `n` more records: the records and the reader. It runs on fuel,
-- since a round that reads nothing does not count. `size` is `statacc.st_size`.
unfoldable pub photo : ℕ → Files → ℕ → ℕ → Reader → Option (List ℕ × Reader)
photo fuel files zero size r = some ([], r)
photo zero files (suc n) size r = none
photo (suc fuel) files (suc n) size r =
    let w = at_end files size r in
    let again = photo fuel files (suc n) w.0 w.1 in
    let next = photo fuel files n w.0 (advance w.1) in
    elim (read_record files w.1) [
      | none ↦ again
      | some acctrec ↦ next >>= λ (got, r''). some (acctrec ∷ got, r'')
    ]

unfoldable pub acctphotoproc : ℕ → Files → ℕ → Reader → Option (List ℕ × Reader)
acctphotoproc fuel files nrprocs r = photo fuel files nrprocs (length (behind files r)) r

-- The loop of `acctrepos`.
unfoldable pub switch_times : ℕ → Files → Reader → Reader
switch_times zero files r = r
switch_times (suc switches) files r = switch_times switches files (switchshadow files r)

-- `acctrepos`, which skips `noverflow` records.
unfoldable pub acctrepos : ℕ → ℕ → Files → Reader → Reader
acctrepos maxshadowrec noverflow files r =
    let virtoffset = r.acctsize + noverflow in
    let moved =
      switch_times (virtoffset / maxshadowrec) files
        (record r { acctsize = virtoffset % maxshadowrec }) in
    record moved { offset = moved.acctsize }

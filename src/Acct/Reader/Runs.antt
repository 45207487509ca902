-- ===== src/Acct/Reader/Runs.antt =====
-- The daemon and a client together, as a relation between the states that they reach.
pub mod Steps
pub mod Laws
use atop.Prelude.{
  ℕ, zero, suc, ◌+◌, ◌-◌, ◌*◌, ◌≤◌, ◌<◌, ◌≡◌, refl, sym, ap, subst, ◌∙◌, Bool, true, false, ◌&&◌,
  List, [], ◌∷◌, ◌++◌, Option, none, some, length, ◌==◌, if◌then◌else◌, arith, append_assoc,
  append-nil, length-append, some_inj, Bool-cases, inl, inr,
}
use atop.Acctd.{Files, contents, Shadow, transfer, gcshadows, Event, awaitprocterm}
use atop.Acctd.Files.{span, AreFull}
use atop.Acctd.Laws.{log, transfer-log}
use atop.Acctd.Inv.{IsFilling, IsShadow, transfer-IsShadow}
use atop.Acctd.Grows.{transfer-Grows}
use atop.Acctd.Gc.{gcshadows-IsReadable}
use atop.Acct.Reader.{Reader, acctprocnt, acctphotoproc}
use atop.Acct.Reader.Laws.{IsAt, unread, AreReady}
use atop.Acct.Reader.Reads.{HasRead}
use atop.Acct.Reader.Counts.{acctprocnt-unread}

-- What a client still has to read.
abbrev pub left : Shadow → Reader → List ℕ
left s r = unread s.files (s.curshadow - r.fdseq) r

-- The states that the daemon and a registered client reach, with the records that were copied since
-- the client registered and those that it has read.
pub data Run (maxshadowrec : ℕ) : Shadow → Reader → List ℕ → List ℕ → Type 0 where
  registered :
      (s : Shadow) (r : Reader)
      → IsShadow maxshadowrec s
      → IsAt s.files r
      → s.oldshadow ≤ r.fdseq
      → r.fdseq ≤ s.curshadow
      → left s r ≡ []
      → Run maxshadowrec s r [] []
  copied :
      (s : Shadow) (r : Reader) (copies got : List ℕ) (e : Event)
      → Run maxshadowrec s r copies got
      → (e.clients == 0) ≡ false
      → length e.abuf ≤ maxshadowrec
      → e.full ≡ false
      → e.full' ≡ false
      → Run maxshadowrec (awaitprocterm maxshadowrec e s) r (copies ++ e.abuf) got
  collected :
      (s : Shadow) (r : Reader) (copies got : List ℕ) (fuel : ℕ) (held : ℕ → Bool)
      → Run maxshadowrec s r copies got
      → held r.fdseq ≡ true
      → Run maxshadowrec (gcshadows fuel held s.curshadow s) r copies got
  sampled :
      (s : Shadow) (r r' : Reader) (copies got new : List ℕ) (fuel n : ℕ)
      → Run maxshadowrec s r copies got
      → n ≤ length (left s r)
      → n ≤ fuel
      → acctphotoproc fuel s.files n r ≡ some (new, r')
      → Run maxshadowrec s r' copies (got ++ new)

-- What holds in these states.
abbrev pub IsRun : ℕ → Shadow → Reader → List ℕ → List ℕ → Type 0
IsRun maxshadowrec s r copies got =
    IsShadow maxshadowrec s
    × IsAt s.files r
    × (s.oldshadow ≤ r.fdseq)
    × (r.fdseq ≤ s.curshadow)
    × (copies ≡ got ++ left s r)

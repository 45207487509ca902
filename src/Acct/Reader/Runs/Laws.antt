-- ===== src/Acct/Reader/Runs/Laws.antt =====
-- What the client reads is what the daemon copied.
use atop.Text.{take, drop}
use atop.Text.Cuts.{take-drop, take-all}
use atop.Prelude.{
  ℕ, ◌+◌, ◌-◌, ◌≤◌, ◌≡◌, sym, ap, subst, ◌∙◌, true, List, ◌++◌, some, length, arith, append_assoc,
  some_inj,
}
use atop.Acctd.{contents, Shadow}
use atop.Acctd.Inv.{IsShadow}
use atop.Acct.Reader.{Reader, acctprocnt, acctphotoproc}
use atop.Acct.Reader.Laws.{IsAt, unread}
use atop.Acct.Reader.Reads.{HasRead, acctphotoproc-HasRead}
use atop.Acct.Reader.Counts.{acctprocnt-unread}
use atop.Acct.Reader.Runs.{left, Run, registered, copied, collected, sampled, IsRun}
use atop.Acct.Reader.Runs.Steps.{IsShadow-AreReady, await_transfer, transfer-IsRun, collect-IsRun}

read-IsRun :
    (maxshadowrec n : ℕ) (s : Shadow) (r r' : Reader) (copies got : List ℕ) (m : ℕ)
    → IsShadow maxshadowrec s
    → s.oldshadow ≤ r.fdseq
    → r.fdseq ≤ s.curshadow
    → copies ≡ got ++ left s r
    → IsAt s.files r'
    → r'.fdseq + m ≡ r.fdseq + (s.curshadow - r.fdseq)
    → r.fdseq ≤ r'.fdseq
    → unread s.files m r' ≡ drop n (left s r)
    → IsRun maxshadowrec s r' copies (got ++ take n (left s r))
read-IsRun maxshadowrec n s r r' copies got m inv old cur e at sum later rest =
    let m' : m ≡ s.curshadow - r'.fdseq = omega (arith, sum, cur) in
    let rest' : left s r' ≡ drop n (left s r) = ap (λ k. unread s.files k r') (sym m') ∙ rest in
    (
      inv,
      at,
      omega (arith, old, later),
      omega (arith, sum, cur),
      e
          ∙ ap (λ l. got ++ l) (sym (take-drop n (left s r)))
          ∙ sym (append_assoc got (take n (left s r)) (drop n (left s r)))
          ∙ ap (λ l. (got ++ take n (left s r)) ++ l) (sym rest'),
    )

reads :
    (maxshadowrec fuel n : ℕ) (s : Shadow) (r : Reader) (copies got : List ℕ)
    → IsRun maxshadowrec s r copies got
    → n ≤ length (left s r)
    → n ≤ fuel
    → HasRead maxshadowrec s.files (s.curshadow - r.fdseq) n r (acctphotoproc fuel s.files n r)
reads maxshadowrec fuel n s r copies got (inv, at, old, cur, e) few enough =
    acctphotoproc-HasRead n fuel maxshadowrec (s.curshadow - r.fdseq) s.files r enough
      (omega (arith, inv.1)) at (IsShadow-AreReady maxshadowrec s r.fdseq inv old cur) few

sample-IsRun :
    (maxshadowrec fuel n : ℕ) (s : Shadow) (r r' : Reader) (copies got new : List ℕ)
    → n ≤ length (left s r)
    → n ≤ fuel
    → acctphotoproc fuel s.files n r ≡ some (new, r')
    → IsRun maxshadowrec s r copies got
    → IsRun maxshadowrec s r' copies (got ++ new)
sample-IsRun maxshadowrec fuel n s r r' copies got new few enough outcome run =
    let (inv, at, old, cur, e) = run in
    let (m, r1, read, at1, sum, later, ready, rest) =
      reads maxshadowrec fuel n s r copies got run few enough in
    let same = some_inj (take n (left s r), r1) (new, r') (sym read ∙ outcome) in
    subst (λ (w : List ℕ × Reader). IsRun maxshadowrec s w.1 copies (got ++ w.0)) same
      (read-IsRun maxshadowrec n s r r1 copies got m inv old cur e at1 sum later rest)

-- In every state that the daemon and a registered client reach by transfers of at most `maxshadowrec`
-- records to a file system that is not full, by the removal of files that the client has not locked,
-- and by samples of no more records than there are: the records that were copied since the client
-- registered are those that it has read, in this order and each once, and then those that it still
-- finds in the shadow files, of which all but the current one are filled exactly.
pub Run-IsRun :
    (maxshadowrec : ℕ) (s : Shadow) (r : Reader) (copies got : List ℕ)
    → Run maxshadowrec s r copies got
    → IsRun maxshadowrec s r copies got
Run-IsRun maxshadowrec s r copies got (registered _ _ inv at old cur e) = (inv, at, old, cur, sym e)
Run-IsRun maxshadowrec s r copies got (copied s0 _ copies0 _ e run clients few f f') =
    let (inv, at, old, cur, sum) = Run-IsRun maxshadowrec s0 r copies0 got run in
    subst (λ t. IsRun maxshadowrec t r (copies0 ++ e.abuf) got)
      (sym (await_transfer maxshadowrec e s0 clients f f'))
      (transfer-IsRun maxshadowrec e.abuf (record s0 { shadowbusy = true }) r copies0 got few
        (inv, at, old, cur, sum))
Run-IsRun maxshadowrec s r copies got (collected s0 _ _ _ fuel held run locked) =
    collect-IsRun maxshadowrec fuel held s0 r copies got locked
      (Run-IsRun maxshadowrec s0 r copies got run)
Run-IsRun maxshadowrec s r copies got (sampled _ r0 _ _ got0 new fuel n run few enough outcome) =
    sample-IsRun maxshadowrec fuel n s r0 r copies got0 new few enough outcome
      (Run-IsRun maxshadowrec s r0 copies got0 run)

counted :
    (maxshadowrec : ℕ) (s : Shadow) (r : Reader)
    → IsShadow maxshadowrec s
    → IsAt s.files r
    → s.oldshadow ≤ r.fdseq
    → r.fdseq ≤ s.curshadow
    → acctprocnt maxshadowrec s.files s.currency r ≡ some (length (left s r))
counted maxshadowrec s r ((n, e, full, (l, found, len), low, currency), room) at old cur =
    let inv : IsShadow maxshadowrec s = ((n, e, full, (l, found, len), low, currency), room) in
    ap (λ c. acctprocnt maxshadowrec s.files c r) currency
    ∙ acctprocnt-unread maxshadowrec (s.curshadow - r.fdseq) s.curshadow s.files r at
        (IsShadow-AreReady maxshadowrec s r.fdseq inv old cur) (omega (arith, cur))
        (omega (arith, ap (λ o. length (contents o)) found, len, room))

-- A sample of a client in such a state catches up: `acctprocnt` gives a number of records,
-- `acctphotoproc` ends and reads that many, and all records that were copied since the client
-- registered are then read, in this order and each once.
pub sample_catches_up :
    (maxshadowrec : ℕ) (s : Shadow) (r : Reader) (copies got : List ℕ)
    → Run maxshadowrec s r copies got
    → (n : ℕ) × (new : List ℕ) × (r' : Reader) × (acctprocnt maxshadowrec s.files s.currency r
        ≡ some n)
      × (acctphotoproc n s.files n r ≡ some (new, r'))
      × (copies ≡ got ++ new)
sample_catches_up maxshadowrec s r copies got run =
    let state = Run-IsRun maxshadowrec s r copies got run in
    let (inv, at, old, cur, e) = state in
    let n = length (left s r) in
    let (m, r1, read, at1, sum, later, ready, rest) =
      reads maxshadowrec n n s r copies got state (omega arith) (omega arith) in
    (
      n,
      take n (left s r),
      r1,
      counted maxshadowrec s r inv at old cur,
      read,
      e ∙ ap (λ l. got ++ l) (sym (take-all (left s r))),
    )

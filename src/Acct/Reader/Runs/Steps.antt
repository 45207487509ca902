-- ===== src/Acct/Reader/Runs/Steps.antt =====
-- The steps of the daemon keep what holds in these states.
use atop.Text.{drop}
use atop.Text.Cuts.{drop-append}
use atop.Prelude.{
  ℕ, zero, suc, ◌+◌, ◌-◌, ◌≤◌, ◌≡◌, refl, sym, ap, subst, ◌∙◌, Bool, true, false, List, ◌++◌,
  length, ◌==◌, arith, append_assoc, length-append, Bool-cases, inl, inr,
}
use atop.Acctd.{Files, contents, Shadow, transfer, gcshadows, Event, awaitprocterm}
use atop.Acctd.Files.{span, AreFull}
use atop.Acctd.Laws.{log, transfer-log}
use atop.Acctd.Inv.{IsShadow, transfer-IsShadow}
use atop.Acctd.Grows.{transfer-Grows}
use atop.Acctd.Gc.{gcshadows-IsReadable}
use atop.Acct.Reader.{Reader}
use atop.Acct.Reader.Laws.{IsAt, AreReady}
use atop.Acct.Reader.Runs.{left, IsRun}

pub AreFull-skip :
    (maxshadowrec : ℕ) (files : Files) (seq k n : ℕ)
    → AreFull maxshadowrec files seq (k + n)
    → AreFull maxshadowrec files (seq + k) n
AreFull-skip maxshadowrec files seq zero n f =
    subst (λ i. AreFull maxshadowrec files i n) (omega arith)
      (subst (λ i. AreFull maxshadowrec files seq i) (omega arith) f)
AreFull-skip maxshadowrec files seq (suc k) n f =
    let e : suc k + n ≡ suc (k + n) = omega arith in
    let (first, f') = subst (λ i. AreFull maxshadowrec files seq i) e f in
    subst (λ i. AreFull maxshadowrec files i n) (omega arith)
      (AreFull-skip maxshadowrec files (suc seq) k n f')

-- The files from the client's on are ready for it.
pub IsShadow-AreReady :
    (maxshadowrec : ℕ) (s : Shadow) (seq : ℕ)
    → IsShadow maxshadowrec s
    → s.oldshadow ≤ seq
    → seq ≤ s.curshadow
    → AreReady maxshadowrec s.files seq (s.curshadow - seq)
IsShadow-AreReady maxshadowrec s seq ((n, e, full, (l, at, len), low, cur), room) a b =
    let k = seq - s.oldshadow in
    let m = s.curshadow - seq in
    let whole : n ≡ k + m = omega (arith, e) in
    let start : s.oldshadow + k ≡ seq = omega arith in
    let stop : seq + m ≡ s.curshadow = omega arith in
    (
      subst (λ i. AreFull maxshadowrec s.files i m) start
          (AreFull-skip maxshadowrec s.files s.oldshadow k m
            (subst (λ i. AreFull maxshadowrec s.files s.oldshadow i) whole full)),
      (l, ap s.files stop ∙ at),
    )

pub log_left : (s : Shadow) (r : Reader) → left s r ≡ drop r.offset (log s r.fdseq)
unfolding log
log_left s r = refl

-- An event with a client is a transfer.
pub await_transfer :
    (maxshadowrec : ℕ) (e : Event) (s : Shadow)
    → (e.clients == 0) ≡ false
    → e.full ≡ false
    → e.full' ≡ false
    → awaitprocterm maxshadowrec e s
      ≡ transfer maxshadowrec false false e.abuf (record s { shadowbusy = true })
unfolding awaitprocterm
await_transfer maxshadowrec e s clients f f' = elim (Bool-cases e.locked) [
  | inl l ↦ rw (awaitprocterm, l, clients, f, f') refl
  | inr l ↦ rw (awaitprocterm, l, f, f') refl
]

inside_log : (s : Shadow) (r : Reader) → IsAt s.files r → r.offset ≤ length (log s r.fdseq)
unfolding log span
inside_log s r (seq, off, low, live) = omega (
  arith,
  low,
  length-append (contents (s.files r.fdseq)) (span s.files (suc r.fdseq) (s.curshadow - r.fdseq)),
)

pub transfer-IsRun :
    (maxshadowrec : ℕ) (abuf : List ℕ) (s : Shadow) (r : Reader) (copies got : List ℕ)
    → length abuf ≤ maxshadowrec
    → IsRun maxshadowrec s r copies got
    → IsRun maxshadowrec (transfer maxshadowrec false false abuf s) r (copies ++ abuf) got
transfer-IsRun maxshadowrec abuf s r copies got few (inv, (seq, off, low, live), old, cur, e) =
    let s' = transfer maxshadowrec false false abuf s in
    let (same, later, longer) = transfer-Grows maxshadowrec false false abuf s r.fdseq cur in
    let logged = transfer-log maxshadowrec abuf s r.fdseq inv.1 cur in
    let inside : r.offset ≤ length (log s r.fdseq) = inside_log s r (seq, off, low, live) in
    let grown : left s' r ≡ left s r ++ abuf =
      log_left s' r
      ∙ ap (drop r.offset) logged
      ∙ drop-append r.offset (log s r.fdseq) abuf inside
      ∙ ap (λ l. l ++ abuf) (sym (log_left s r)) in
    (
      transfer-IsShadow maxshadowrec false false abuf s inv few,
      (seq, off, omega (arith, low, longer), live),
      omega (arith, same, old),
      omega (arith, cur, later),
      ap (λ l. l ++ abuf) e ∙ append_assoc got (left s r) abuf ∙ ap (λ l. got ++ l) (sym grown),
    )

pub collect-IsRun :
    (maxshadowrec fuel : ℕ) (held : ℕ → Bool) (s : Shadow) (r : Reader) (copies got : List ℕ)
    → held r.fdseq ≡ true
    → IsRun maxshadowrec s r copies got
    → IsRun maxshadowrec (gcshadows fuel held s.curshadow s) r copies got
collect-IsRun maxshadowrec fuel held s r copies got locked
      (inv, (seq, off, low, live), old, cur, e) =
    let s' = gcshadows fuel held s.curshadow s in
    let (inv', readable) =
      gcshadows-IsReadable maxshadowrec fuel s.curshadow held s r.fdseq inv (omega arith) locked old
        cur in
    let (old', cur', file, same) = readable in
    (
      inv',
      (seq, off, omega (arith, low, ap (λ o. length (contents o)) file), live),
      old',
      cur',
      e ∙ ap (λ l. got ++ l) (log_left s r ∙ ap (drop r.offset) (sym same) ∙ sym (log_left s' r)),
    )

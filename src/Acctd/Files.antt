-- ===== src/Acctd/Files.antt =====
-- Runs of shadow files, read one after the other.
use atop.Prelude.{
  ℕ, zero, suc, ◌+◌, ◌≤◌, ◌<◌, ◌≡◌, ◌≢◌, refl, sym, ap, ap₂, ◌∙◌, List, [], ◌++◌, Option, some,
  length, arith, append_assoc, append-nil,
}
use atop.Acctd.{Files, put, contents}

-- What `n` files hold, from number `seq` on.
unfoldable pub span : Files → ℕ → ℕ → List ℕ
span files seq zero = []
span files seq (suc n) = contents (files seq) ++ span files (suc seq) n

-- `n` files from number `seq` on are filled up to their maximum.
abbrev pub AreFull : ℕ → Files → ℕ → ℕ → Type 0
AreFull maxshadowrec files seq zero = Unit
AreFull maxshadowrec files seq (suc n) =
    ((l : List ℕ) × (files seq ≡ some l) × (length l ≡ maxshadowrec))
    × AreFull maxshadowrec files (suc seq) n

pub put_same : (seq : ℕ) (c : Option (List ℕ)) (files : Files) → put seq c files seq ≡ c
unfolding put
put_same seq c files = ground arith

pub put_other :
    (seq i : ℕ) (c : Option (List ℕ)) (files : Files) → i ≢ seq → put seq c files i ≡ files i
unfolding put
put_other seq i c files h = ground arith

-- Files that agree from a number on hold the same.
pub span-agree :
    (files files' : Files) (seq n : ℕ)
    → ((i : ℕ) → seq ≤ i → i < seq + n → files' i ≡ files i)
    → span files' seq n ≡ span files seq n
unfolding span
span-agree files files' seq zero h = refl
span-agree files files' seq (suc n) h =
    ap₂ (λ c l. contents c ++ l) (h seq (omega arith) (omega arith))
      (span-agree files files' (suc seq) n (λ i a b. h i (omega arith) (omega arith)))

pub AreFull-agree :
    (maxshadowrec : ℕ) (files files' : Files) (seq n : ℕ)
    → ((i : ℕ) → seq ≤ i → i < seq + n → files' i ≡ files i)
    → AreFull maxshadowrec files seq n
    → AreFull maxshadowrec files' seq n
AreFull-agree maxshadowrec files files' seq zero h f = tt
AreFull-agree maxshadowrec files files' seq (suc n) h ((l, e, full), f) = (
  (l, h seq (omega arith) (omega arith) ∙ e, full),
  AreFull-agree maxshadowrec files files' (suc seq) n (λ i a b. h i (omega arith) (omega arith)) f,
)

pub span-snoc :
    (files : Files) (seq n : ℕ)
    → span files seq (suc n) ≡ span files seq n ++ contents (files (seq + n))
unfolding span
span-snoc files seq zero =
    append-nil (contents (files seq)) ∙ ap (λ i. contents (files i)) (omega arith)
span-snoc files seq (suc n) =
    let e : suc seq + n ≡ seq + suc n = omega arith in
    ap (λ l. contents (files seq) ++ l)
      (span-snoc files (suc seq) n ∙ ap (λ i. span files (suc seq) n ++ contents (files i)) e)
    ∙ sym (
        append_assoc (contents (files seq)) (span files (suc seq) n)
          (contents (files (seq + suc n))))

pub AreFull-snoc :
    (maxshadowrec : ℕ) (files : Files) (seq n : ℕ) (l : List ℕ)
    → AreFull maxshadowrec files seq n
    → files (seq + n) ≡ some l
    → length l ≡ maxshadowrec
    → AreFull maxshadowrec files seq (suc n)
AreFull-snoc maxshadowrec files seq zero l f e full = ((l, ap files (omega arith) ∙ e, full), tt)
AreFull-snoc maxshadowrec files seq (suc n) l (first, f) e full =
    let i : suc seq + n ≡ seq + suc n = omega arith in
    (first, AreFull-snoc maxshadowrec files (suc seq) n l f (ap files i ∙ e) full)

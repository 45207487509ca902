-- ===== src/Acctd/Inv.antt =====
-- The shadow files are filled exactly, whether or not the file system is full in between.
use atop.Text.{take, drop}
use atop.Text.Cuts.{length-take, length-drop}
use atop.Prelude.{
  ℕ, suc, ◌+◌, ◌-◌, ◌≤◌, ◌<◌, ◌≡◌, refl, ap, ◌∙◌, Bool, true, false, inl, inr, List, [], ◌++◌, some,
  length, leb, Bool-cases, arith, length-append,
}
use atop.Acctd.{
  contents, Shadow, createshadow, setcurrent, pass2shadow, next_shadow, write_parts, transfer,
}
use atop.Acctd.Files.{AreFull, put_same, AreFull-snoc}
use atop.Acctd.Laws.{AreFull-put, switched}

-- All files but the current one hold `maxshadowrec` records, the current one holds `stotsize` of them
-- and no more than that, and `current` names it.
abbrev pub IsFilling : ℕ → Shadow → Type 0
IsFilling maxshadowrec s =
    (n : ℕ) × (s.oldshadow + n ≡ s.curshadow)
    × AreFull maxshadowrec s.files s.oldshadow n
    × ((l : List ℕ) × (s.files s.curshadow ≡ some l) × (length l ≡ s.stotsize))
    × (s.stotsize ≤ maxshadowrec)
    × (s.currency ≡ s.curshadow)

-- As above, and the current file has room.
abbrev pub IsShadow : ℕ → Shadow → Type 0
IsShadow maxshadowrec s = IsFilling maxshadowrec s × (s.stotsize < maxshadowrec)

pass2shadow-IsFilling :
    (maxshadowrec : ℕ) (full : Bool) (buf : List ℕ) (s : Shadow)
    → IsFilling maxshadowrec s
    → s.stotsize + length buf ≤ maxshadowrec
    → IsFilling maxshadowrec (pass2shadow full buf s)
unfolding pass2shadow
pass2shadow-IsFilling maxshadowrec true buf s f room = f
pass2shadow-IsFilling maxshadowrec false buf s (n, e, filled, (l, at, len), low, cur) room =
    let longer = contents (s.files s.curshadow) ++ buf in
    (
      n,
      e,
      AreFull-put maxshadowrec s.files s.curshadow s.oldshadow n (some longer) (omega (arith, e))
          filled,
      (
        longer,
        put_same s.curshadow (some longer) s.files,
        omega (
          arith,
          length-append (contents (s.files s.curshadow)) buf,
          ap (λ o. length (contents o)) at,
          len,
        ),
      ),
      room,
      cur,
    )

switched-IsFilling :
    (maxshadowrec : ℕ) (s : Shadow)
    → IsFilling maxshadowrec s
    → s.stotsize ≡ maxshadowrec
    → IsFilling maxshadowrec (switched s)
unfolding setcurrent createshadow
switched-IsFilling maxshadowrec s (n, e, filled, (l, at, len), low, cur) full =
    let at' : s.files (s.oldshadow + n) ≡ some l = ap s.files e ∙ at in
    let filled' = AreFull-snoc maxshadowrec s.files s.oldshadow n l filled at' (len ∙ full) in
    (
      suc n,
      omega (arith, e),
      AreFull-put maxshadowrec s.files (s.curshadow + 1) s.oldshadow (suc n) (some [])
          (omega (arith, e)) filled',
      ([], put_same (s.curshadow + 1) (some []) s.files, refl),
      omega arith,
      refl,
    )

passed_more :
    (full : Bool) (buf : List ℕ) (s : Shadow)
    → (pass2shadow full buf s).stotsize ≤ s.stotsize + length buf
unfolding pass2shadow
passed_more true buf s = omega arith
passed_more false buf s = omega arith

switched_size : (s : Shadow) → (switched s).stotsize ≡ 0
switched_size s = refl

next_shadow-IsShadow :
    (maxshadowrec : ℕ) (full : Bool) (rem : List ℕ) (s : Shadow)
    → IsFilling maxshadowrec s
    → s.stotsize ≡ maxshadowrec
    → length rem < maxshadowrec
    → IsShadow maxshadowrec (next_shadow full rem s)
unfolding next_shadow
next_shadow-IsShadow maxshadowrec full rem s f e room = (
  pass2shadow-IsFilling maxshadowrec full rem (switched s) (switched-IsFilling maxshadowrec s f e)
      (omega arith),
  omega (arith, passed_more full rem (switched s)),
)

write_parts-IsShadow :
    (maxshadowrec : ℕ) (full full' : Bool) (part rem : List ℕ) (s : Shadow)
    → IsFilling maxshadowrec s
    → s.stotsize + length part ≤ maxshadowrec
    → length rem < maxshadowrec
    → IsShadow maxshadowrec (write_parts maxshadowrec full full' part rem s)
unfolding write_parts
write_parts-IsShadow maxshadowrec full full' part rem s f fits room =
    let passed = pass2shadow full part s in
    let f' = pass2shadow-IsFilling maxshadowrec full part s f fits in
    let low = passed_more full part s in
    elim (Bool-cases (leb maxshadowrec passed.stotsize)) [
      | inl filled ↦
          rw (write_parts, filled)
            (next_shadow-IsShadow maxshadowrec full' rem passed f' (ground (arith, low)) room)
      | inr more ↦ rw (write_parts, more) (f', ground (arith, more))
    ]

-- `transfer` of at most `maxshadowrec` records, also when the file system is full at one of its parts:
-- all shadow files but the current one are filled exactly, the current one has room and the size that
-- the daemon keeps, and the file `current` names it, if that was so before.
pub transfer-IsShadow :
    (maxshadowrec : ℕ) (full full' : Bool) (abuf : List ℕ) (s : Shadow)
    → IsShadow maxshadowrec s
    → length abuf ≤ maxshadowrec
    → IsShadow maxshadowrec (transfer maxshadowrec full full' abuf s)
unfolding transfer
transfer-IsShadow maxshadowrec full full' abuf s (f, room) few =
    let partsz = maxshadowrec - s.stotsize in
    elim (Bool-cases (leb (s.stotsize + length abuf) maxshadowrec)) [
      | inl fits ↦
          rw (transfer, fits)
            (write_parts-IsShadow maxshadowrec full full' abuf [] s f (ground arith) (omega arith))
      | inr parts ↦
          let long : partsz ≤ length abuf = ground arith in
          let part : length (take partsz abuf) ≡ partsz = length-take partsz abuf long in
          rw (transfer, parts)
            (write_parts-IsShadow maxshadowrec full full' (take partsz abuf) (drop partsz abuf) s f
              (omega (arith, part)) (ground (arith, length-drop partsz abuf)))
    ]

-- ===== src/System/Disks/Laws.antt =====
-- Between two samples devices are removed, added or kept: each is compared with the right one.
use atop.Prelude.{
  append_assoc, ℕ, suc, ◌+◌, ◌≡◌, refl, ◌∙◌, ap, subst, false, some, List, [], ◌∷◌, ◌++◌, ◌≤◌,
  arith, length, length-append, get_elem?,
}
use atop.System.Disks.{Perdsk, zero_perdsk, is_empty, partner, next_index, deviate_disks}
use atop.System.Disks.Changes.{
  Change, added, removed, kept, before, after, IsAbsent, IsGone, IsPossible, AreNamed,
  get_elem?-behind, here, partner-found, unused, partner-new,
}

AreNamed-append : (xs ys : List Perdsk) → AreNamed xs → AreNamed ys → AreNamed (xs ++ ys)
unfolding AreNamed
AreNamed-append [] ys a b = b
AreNamed-append (x ∷ xs) ys a b = (a.0, AreNamed-append xs ys a.1 b)

IsAbsent-append :
    (name : List ℕ) (xs ys : List Perdsk)
    → IsAbsent name xs
    → IsAbsent name ys
    → IsAbsent name (xs ++ ys)
IsAbsent-append name [] ys a b = b
IsAbsent-append name (x ∷ xs) ys a b = (a.0, IsAbsent-append name xs ys a.1 b)

before-AreNamed : (s : List Change) → IsPossible s → AreNamed (before s)
unfolding before AreNamed
before-AreNamed [] h = tt
before-AreNamed (added c ∷ s) h = before-AreNamed s h.2
before-AreNamed (removed p ∷ s) h = (h.0, before-AreNamed s h.2)
before-AreNamed (kept p c ∷ s) h = (h.0, before-AreNamed s h.3)

-- Devices that were passed over are gone.
AreGone : List Perdsk → List Perdsk → Type 0
AreGone [] cs = Unit
AreGone (r ∷ rs) cs = IsGone r cs × AreGone rs cs

AreGone-head :
    (rs : List Perdsk) (c : Perdsk) (cs : List Perdsk)
    → AreGone rs (c ∷ cs)
    → IsAbsent c.name rs × AreGone rs cs
unfolding AreGone
AreGone-head [] c cs h = (tt, tt)
AreGone-head (r ∷ rs) c cs h = let (a, b) = AreGone-head rs c cs h.1 in ((h.0.0, a), (h.0.1, b))

AreGone-append :
    (rs : List Perdsk) (p : Perdsk) (cs : List Perdsk)
    → AreGone rs cs
    → IsGone p cs
    → AreGone (rs ++ p ∷ []) cs
unfolding AreGone
AreGone-append [] p cs h g = (g, tt)
AreGone-append (r ∷ rs) p cs h g = (h.0, AreGone-append rs p cs h.1 g)

module _ (diff : Perdsk → Perdsk → Perdsk → Perdsk) where
  -- What the array of the deviations is to hold: a device that is kept is compared with its own
  -- entry, one that was added with an unused one, and an empty name ends the array.
  unfoldable pub deviations : List Change → List Perdsk → List Perdsk
  deviations s [] = []
  deviations [] (d ∷ devs) = record d { name = [] } ∷ devs
  deviations (added c ∷ s) (d ∷ devs) = diff d c zero_perdsk ∷ deviations s devs
  deviations (removed p ∷ s) (d ∷ devs) = deviations s (d ∷ devs)
  deviations (kept p c ∷ s) (d ∷ devs) = diff d c p ∷ deviations s devs

  -- One round of the loop.
  round :
      (pre cur devs devs' : List Perdsk) (c d q : Perdsk) (j j' n : ℕ)
      → is_empty c.name ≡ false
      → partner pre c.name j ≡ some j'
      → get_elem? pre j' ≡ some q
      → deviate_disks diff pre cur devs (next_index j j' q) ≡ some (devs', n)
      → deviate_disks diff pre (c ∷ cur) (d ∷ devs) j ≡ some (diff d c q ∷ devs', suc n)
  unfolding deviate_disks
  round pre cur devs devs' c d q j j' n full found at rest =
      rw (deviate_disks, full, found, at, rest) refl

  last_round :
      (pre ctail devs : List Perdsk) (d : Perdsk) (j : ℕ)
      → deviate_disks diff pre (zero_perdsk ∷ ctail) (d ∷ devs) j
        ≡ some (record d { name = [] } ∷ devs, 0)
  unfolding deviate_disks
  last_round pre ctail devs d j = refl

  rounds :
      (s : List Change) (past rs tail devs : List Perdsk) (ctail : List Perdsk)
      → IsPossible s
      → AreNamed rs
      → AreGone rs (after s)
      → suc (length (after s)) ≤ length devs
      → deviate_disks diff
          (past ++ (rs ++ (before s ++ unused tail)))
          (after s ++ zero_perdsk ∷ ctail)
          devs
          (length past)
        ≡ some (deviations s devs, length (after s))
  unfolding before after deviations AreNamed AreGone
  rounds s past rs tail [] ctail ok named gone room = absurd (omega arith)
  rounds [] past rs tail (d ∷ devs) ctail ok named gone room =
      last_round (past ++ (rs ++ unused tail)) ctail devs d (length past)
  rounds (added c ∷ s) past rs tail (d ∷ devs) ctail ok named gone room =
      let pre = past ++ (rs ++ (before s ++ unused tail)) in
      let (absent, gone') = AreGone-head rs c (after s) gone in
      let whole : past ++ ((rs ++ before s) ++ unused tail) ≡ pre =
        ap (λ l. past ++ l) (append_assoc rs (before s) (unused tail)) in
      let (k, found, at) =
        partner-new c.name past (rs ++ before s) tail
          (AreNamed-append rs (before s) named (before-AreNamed s ok.2))
          (IsAbsent-append c.name rs (before s) absent ok.1) ok.0 in
      round pre (after s ++ zero_perdsk ∷ ctail) devs (deviations s devs) c d zero_perdsk
        (length past) (length past + k) (length (after s)) ok.0
        (subst (λ l. partner l c.name (length past) ≡ some (length past + k)) whole found)
        (subst (λ l. get_elem? l (length past + k) ≡ some zero_perdsk) whole at)
        (rounds s past rs tail devs ctail ok.2 named gone' (omega arith))
  rounds (removed p ∷ s) past rs tail (d ∷ devs) ctail ok named gone room =
      subst
        (λ l.
          deviate_disks diff (past ++ l) (after s ++ zero_perdsk ∷ ctail) (d ∷ devs) (length past)
          ≡ some (deviations s (d ∷ devs), length (after s)))
        (append_assoc rs (p ∷ []) (before s ++ unused tail))
        (rounds s past (rs ++ p ∷ []) tail (d ∷ devs) ctail ok.2
          (AreNamed-append rs (p ∷ []) named (ok.0, tt)) (AreGone-append rs p (after s) gone ok.1)
          room)
  rounds (kept p c ∷ s) past rs tail (d ∷ devs) ctail ok named gone room =
      let rest = before s ++ unused tail in
      let pre = past ++ (rs ++ p ∷ rest) in
      let (absent, gone') = AreGone-head rs c (after s) gone in
      let past' = past ++ (rs ++ p ∷ []) in
      let size : length past' ≡ suc (length past + length rs) =
        omega (arith, length-append past (rs ++ p ∷ []), length-append rs (p ∷ [])) in
      let whole : past' ++ rest ≡ pre =
        append_assoc past (rs ++ p ∷ []) rest
        ∙ ap (λ l. past ++ l) (append_assoc rs (p ∷ []) rest) in
      round pre (after s ++ zero_perdsk ∷ ctail) devs (deviations s devs) c d p (length past)
        (length past + length rs) (length (after s)) ok.1
        (partner-found c.name past rs p rest named absent ok.0 ok.2)
        (get_elem?-behind past (rs ++ p ∷ rest) (length rs) ∙ here rs (p ∷ rest))
        (rw ok.0 (
          subst
            (λ j.
              deviate_disks diff pre (after s ++ zero_perdsk ∷ ctail) devs j
              ≡ some (deviations s devs, length (after s)))
            size
            (subst
              (λ l.
                deviate_disks diff l (after s ++ zero_perdsk ∷ ctail) devs (length past')
                ≡ some (deviations s devs, length (after s)))
              whole (rounds s past' [] tail devs ctail ok.3 tt tt (omega arith)))))

  -- Where devices are removed, added or kept between two samples, those that are kept in the same
  -- order, two unused entries are left in the previous sample's array, and the array of the
  -- deviations has room for the devices and an empty entry, the loop makes no
  -- invalid access: it compares every device that is kept with its own previous entry and every
  -- new one with a zero entry, ends the array with an empty name, and counts the devices.
  pub deviate_disks-deviations :
      (s : List Change) (tail ctail devs : List Perdsk)
      → IsPossible s
      → suc (length (after s)) ≤ length devs
      → deviate_disks diff (before s ++ unused tail) (after s ++ zero_perdsk ∷ ctail) devs 0
        ≡ some (deviations s devs, length (after s))
  unfolding AreNamed AreGone
  deviate_disks-deviations s tail ctail devs ok room = rounds s [] [] tail devs ctail ok tt tt room

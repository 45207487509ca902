-- ===== src/Deviate/Tasks/Present.antt =====
-- The loop of `deviattask` over the present tasks: it makes no invalid access, counts every entry
-- that it writes, and enters every sample in the database.
use atop.Prelude.{
  ℕ, suc, ◌+◌, ◌≤◌, ◌≡◌, refl, sym, ◌∙◌, subst, ◌⊎◌, inl, inr, true, false, some, List, [], ◌∷◌,
  arith, length, has,
}
use atop.Prelude.Int.{ℤ}
use atop.Task.{Tstat}
use atop.ProcDb.{ProcDb, is_near}
use atop.ProcDb.Inv.{Holds, IsWf}
use atop.ProcDb.Sweep.{HasUniqueKeys}
use atop.ProcDb.Refresh.{SameKey, Refreshed}
use atop.Deviate.Tasks.{Loop, present_tasks}
use atop.Deviate.Tasks.Counts.{IsCounted, AtProcess}
use atop.Deviate.Tasks.Round.{present_task-RoundOf}

-- The samples of an interval, seen from the database: every task is new, or has the start time of
-- the task of that key; no two have one key; none carries a flag of an earlier round.
abbrev pub Apart : Tstat → List Tstat → Type 0
Apart t [] = Unit
Apart t (u ∷ us) = ¬ (SameKey t u) × Apart t us

abbrev pub AreFresh : ProcDb → List Tstat → Type 0
AreFresh db [] = Unit
AreFresh db (t ∷ ts) =
    ((a : ℕ) (u : Tstat) → Holds db a u → SameKey u t → is_near u.gen.btime t.gen.btime ≡ true)
    × (t.gen.wasinactive ≡ false)
    × Apart t ts
    × AreFresh db ts

-- The samples that follow do not see the entry that a round refreshed.
AreFresh-Refreshed :
    (cur : Tstat) (db db' : ProcDb) (ts : List Tstat)
    → Refreshed cur db db'
    → Apart cur ts
    → AreFresh db ts
    → AreFresh db' ts
AreFresh-Refreshed cur db db' [] r apart fresh = tt
AreFresh-Refreshed cur db db' (t ∷ ts) r apart fresh = (
  λ a u held same. elim (r.others a u held) [
    | inl (place, e) ↦ absurd (apart.0 (subst (λ x. SameKey x t) e same))
    | inr (held', listed) ↦ fresh.0 a u held' same
  ],
  fresh.1,
  fresh.2,
  AreFresh-Refreshed cur db db' ts r apart.1 fresh.3,
)

-- `t` is one of the samples.
abbrev pub Among : Tstat → List Tstat → Type 0
Among t [] = ⊥
Among t (u ∷ us) = (t ≡ u) ⊎ Among t us

-- The database once the samples `ts` were entered: each has an entry that was referred to, and of
-- the other entries none was added and none was referred to.
pub record Entered (ts : List Tstat) (db db' : ProcDb) : Type 0 where
  pub valid : IsWf db'
  pub unique : HasUniqueKeys db'
  pub all : (t : Tstat) → Among t ts → (a : ℕ) × Holds db' a t × (has a db'.residue ≡ false)
  pub only :
      (a : ℕ) (t : Tstat)
      → Holds db' a t
      → Among t ts ⊎ (Holds db a t × (has a db'.residue ≡ has a db.residue))
  pub kept :
      (a : ℕ) (t : Tstat)
      → Apart t ts
      → Holds db a t
      → Holds db' a t × (has a db'.residue ≡ has a db.residue)

Entered-cons :
    {db db₁ db₂ : ProcDb} (t : Tstat) (ts : List Tstat)
    → Refreshed t db db₁
    → Apart t ts
    → Entered ts db₁ db₂
    → Entered (t ∷ ts) db db₂
Entered-cons {db} {db₁} {db₂} t ts r apart entered = record {
  valid = entered.valid;
  unique = entered.unique;
  all = λ u h. elim h [
    | inl e ↦
        let (held, listed) = entered.kept r.place t apart r.held in
        (r.place, subst (Holds db₂ r.place) (sym e) held, listed ∙ r.referred)
    | inr later ↦ entered.all u later
  ];
  only = λ a u h. elim (entered.only a u h) [
    | inl later ↦ inl (inr later)
    | inr (held, listed) ↦ elim (r.others a u held) [
      | inl (place, e) ↦ inl (inl e)
      | inr (held', listed') ↦ inr (held', listed ∙ listed')
    ]
  ];
  kept = λ a u far held. elim (r.kept a u held) [
    | inl same ↦ absurd (far.0 same)
    | inr (held', listed') ↦
        let (held'', listed) = entered.kept a u far.1 held' in (held'', listed ∙ listed')
  ];
}

-- The first of the samples is that of a process.
abbrev pub StartsWithProcess : List Tstat → Type 0
StartsWithProcess [] = Unit
StartsWithProcess (t ∷ _) = t.gen.isproc ≡ true

pub present_tasks-Entered :
    (n c : ℕ) (totusedcpu : ℤ) (ts : List Tstat) (s : Loop)
    → c + length ts ≤ n
    → IsCounted n c s
    → (AtProcess c s ⊎ StartsWithProcess ts)
    → IsWf s.db
    → HasUniqueKeys s.db
    → AreFresh s.db ts
    → (s' : Loop) × (present_tasks totusedcpu c ts s ≡ some s')
      × IsCounted n (c + length ts) s'
      × Entered ts s.db s'.db
unfolding present_tasks
present_tasks-Entered n c totusedcpu [] s room counted here wf unique fresh = (
  s,
  refl,
  let e : c ≡ c + 0 = omega arith in subst (λ k. IsCounted n k s) e counted,
  record {
    valid = wf;
    unique = unique;
    all = λ t h. absurd h;
    only = λ a t h. inr (h, refl);
    kept = λ a t apart h. (h, refl);
  },
)
present_tasks-Entered n c totusedcpu (t ∷ ts) s room counted here wf unique fresh =
    let (s₁, run₁, round) =
      present_task-RoundOf n c t totusedcpu (omega arith) s counted (start here) wf unique fresh.0
        fresh.1 in
    let r = round.refreshed in
    let (s₂, run₂, counted₂, entered) =
      present_tasks-Entered n (suc c) totusedcpu ts s₁ (omega arith) round.counted
        (inl round.at_process) r.valid r.unique
        (AreFresh-Refreshed t s.db s₁.db ts r fresh.2 fresh.3) in
    (
      s₂,
      rw run₁ run₂,
      let e : suc c + length ts ≡ c + suc (length ts) = omega arith in
          subst (λ k. IsCounted n k s₂) e counted₂,
      Entered-cons t ts r fresh.2 entered,
    )
  where
    start : (AtProcess c s ⊎ StartsWithProcess (t ∷ ts)) → (t.gen.isproc ≡ true) ⊎ AtProcess c s
    start (inl at) = inr at
    start (inr p) = inl p

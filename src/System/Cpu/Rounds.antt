-- ===== src/System/Cpu/Rounds.antt =====
-- The loops of `deviatsyst` and `totalsyst` over the processors, entry by entry.
use atop.Prelude.{
  ℕ, zero, suc, ◌≤◌, ◌<◌, ◌≡◌, refl, ap, some, List, [], ◌∷◌, length, get_elem?, some_inj, arith,
}
use atop.System.Cpu.{Percpu, cpu_round, deviate_cpus, total_percpu, total_cpus}

-- What the rounds do to the entries of one processor.
abbrev pub Rounds : ℕ → List Percpu → List Percpu → List Percpu → List Percpu → List Percpu → Type 0
Rounds n cur pre dev cur' dev' =
    (i : ℕ) (c p d : Percpu)
    → i < n
    → get_elem? cur i ≡ some c
    → get_elem? pre i ≡ some p
    → get_elem? dev i ≡ some d
    → (get_elem? cur' i ≡ some (cpu_round d c p).0) × (get_elem? dev' i ≡ some (cpu_round d c p).1)

head_or_tail :
    (i n : ℕ) (x y z : Percpu) (cur pre dev cur' dev' : List Percpu)
    → Rounds n cur pre dev cur' dev'
    → (c p d : Percpu) → i < suc n
    → get_elem? (x ∷ cur) i ≡ some c
    → get_elem? (y ∷ pre) i ≡ some p
    → get_elem? (z ∷ dev) i ≡ some d
    → (get_elem? ((cpu_round z x y).0 ∷ cur') i ≡ some (cpu_round d c p).0)
      × (get_elem? ((cpu_round z x y).1 ∷ dev') i ≡ some (cpu_round d c p).1)
head_or_tail zero n x y z cur pre dev cur' dev' rounds c p d h ec ep ed =
    let a = some_inj x c ec in
    let b = some_inj y p ep in
    let e = some_inj z d ed in
    ((λ i. some (cpu_round (e i) (a i) (b i)).0), (λ i. some (cpu_round (e i) (a i) (b i)).1))
head_or_tail (suc i) n x y z cur pre dev cur' dev' rounds c p d h ec ep ed =
    rounds i c p d (omega arith) ec ep ed

pub deviate_cpus-Rounds :
    (n : ℕ) (cur pre dev : List Percpu)
    → n ≤ length cur
    → n ≤ length pre
    → n ≤ length dev
    → (cur' : List Percpu) × (dev' : List Percpu) × (deviate_cpus n cur pre dev ≡ some (cur', dev'))
      × (length cur' ≡ length cur)
      × (length dev' ≡ length dev)
      × Rounds n cur pre dev cur' dev'
unfolding deviate_cpus
deviate_cpus-Rounds zero cur pre dev a b c =
    (cur, dev, refl, refl, refl, λ i x y z h. absurd (omega arith))
deviate_cpus-Rounds (suc n) [] pre dev a b c = absurd (omega arith)
deviate_cpus-Rounds (suc n) (x ∷ cur) [] dev a b c = absurd (omega arith)
deviate_cpus-Rounds (suc n) (x ∷ cur) (y ∷ pre) [] a b c = absurd (omega arith)
deviate_cpus-Rounds (suc n) (x ∷ cur) (y ∷ pre) (z ∷ dev) a b c =
    let (cur', dev', e, k, l, rounds) =
      deviate_cpus-Rounds n cur pre dev (omega arith) (omega arith) (omega arith) in
    (
      (cpu_round z x y).0 ∷ cur',
      (cpu_round z x y).1 ∷ dev',
      rw e refl,
      ap suc k,
      ap suc l,
      λ i. head_or_tail i n x y z cur pre dev cur' dev' rounds,
    )

total_head :
    (i n : ℕ) (x t : Percpu) (new tot tot' : List Percpu)
    → ((j : ℕ) (y u : Percpu)
        → j < n
        → get_elem? new j ≡ some y
        → get_elem? tot j ≡ some u
        → get_elem? tot' j ≡ some (total_percpu y u))
    → (y u : Percpu) → i < suc n
    → get_elem? (x ∷ new) i ≡ some y
    → get_elem? (t ∷ tot) i ≡ some u
    → get_elem? (total_percpu x t ∷ tot') i ≡ some (total_percpu y u)
total_head zero n x t new tot tot' gets y u h ey eu =
    let a = some_inj x y ey in let b = some_inj t u eu in λ i. some (total_percpu (a i) (b i))
total_head (suc i) n x t new tot tot' gets y u h ey eu = gets i y u (omega arith) ey eu

pub total_cpus-get :
    (n : ℕ) (new tot : List Percpu)
    → n ≤ length new
    → n ≤ length tot
    → (tot' : List Percpu) × (total_cpus n new tot ≡ some tot')
      × (length tot' ≡ length tot)
      × ((i : ℕ) (x t : Percpu)
          → i < n
          → get_elem? new i ≡ some x
          → get_elem? tot i ≡ some t
          → get_elem? tot' i ≡ some (total_percpu x t))
unfolding total_cpus
total_cpus-get zero new tot a b = (tot, refl, refl, λ i x t h. absurd (omega arith))
total_cpus-get (suc n) [] tot a b = absurd (omega arith)
total_cpus-get (suc n) (x ∷ new) [] a b = absurd (omega arith)
total_cpus-get (suc n) (x ∷ new) (t ∷ tot) a b =
    let (tot', e, k, gets) = total_cpus-get n new tot (omega arith) (omega arith) in
    (total_percpu x t ∷ tot', rw e refl, ap suc k, λ i. total_head i n x t new tot tot' gets)

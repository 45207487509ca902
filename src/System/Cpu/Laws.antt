-- ===== src/System/Cpu/Laws.antt =====
-- A processor that goes offline and comes back, and the loop over the processors.
use atop.Prelude.{
  ◌≡◌, refl, sym, ◌∙◌, ap, subst, ◌⊎◌, inl, inr, Bool, true, false, List, [], ◌∷◌, if◌then◌else◌,
  Bool-cases,
}
use atop.Prelude.Int.{◌+ℤ◌}
use atop.Deviate.Calc.Laws.{Grew}
use atop.System.Totals.{add_comm, telescope}
use atop.System.Cpu.{Percpu, all_diff, cpu_diff, cpu_round, total_ticks, total_percpu}

-- The ticks of a processor have readings, which have not gone back.
pub record HasGrown (pre cur : Percpu) : Type 0 where
  pub stime : Grew pre.stime cur.stime
  pub utime : Grew pre.utime cur.utime
  pub ntime : Grew pre.ntime cur.ntime
  pub itime : Grew pre.itime cur.itime
  pub wtime : Grew pre.wtime cur.wtime
  pub irqtime : Grew pre.irqtime cur.irqtime
  pub softirqtime : Grew pre.softirqtime cur.softirqtime
  pub steal : Grew pre.steal cur.steal
  pub guest : Grew pre.guest cur.guest

-- The samples of one processor: the readings grow from one sample in which it is online to the
-- next one. In between it may be offline, with any contents of its entries.
abbrev pub IsWatched : Percpu → List Percpu → Type 0
IsWatched pre [] = Unit
IsWatched pre (cur ∷ curs) =
    ((cur.online ≡ true) × HasGrown pre cur × IsWatched cur curs)
    ⊎ ((cur.online ≡ false) × IsWatched pre curs)

-- The last sample in which it was online.
unfoldable pub last_online : Percpu → List Percpu → Percpu
last_online pre [] = pre
last_online pre (cur ∷ curs) = if cur.online then last_online cur curs else last_online pre curs

-- What happens to one processor, on a machine with several: the samples are subtracted into an entry `dev`
-- with any contents, and added up.
unfoldable pub watch_cpu : Percpu → Percpu → List Percpu → Percpu → Percpu
watch_cpu dev pre [] tot = tot
watch_cpu dev pre (cur ∷ curs) tot =
    let r = cpu_round dev cur pre in watch_cpu r.1 r.0 curs (total_percpu r.1 tot)

pub record AddUp (pre tot end tot' : Percpu) : Type 0 where
  pub stime : pre.stime +ℤ tot'.stime ≡ tot.stime +ℤ end.stime
  pub utime : pre.utime +ℤ tot'.utime ≡ tot.utime +ℤ end.utime
  pub ntime : pre.ntime +ℤ tot'.ntime ≡ tot.ntime +ℤ end.ntime
  pub itime : pre.itime +ℤ tot'.itime ≡ tot.itime +ℤ end.itime
  pub wtime : pre.wtime +ℤ tot'.wtime ≡ tot.wtime +ℤ end.wtime
  pub irqtime : pre.irqtime +ℤ tot'.irqtime ≡ tot.irqtime +ℤ end.irqtime
  pub softirqtime : pre.softirqtime +ℤ tot'.softirqtime ≡ tot.softirqtime +ℤ end.softirqtime
  pub steal : pre.steal +ℤ tot'.steal ≡ tot.steal +ℤ end.steal
  pub guest : pre.guest +ℤ tot'.guest ≡ tot.guest +ℤ end.guest

cpu_round_online :
    (dev cur pre : Percpu) → cur.online ≡ true → cpu_round dev cur pre ≡ (cur, cpu_diff dev cur pre)
unfolding cpu_round
cpu_round_online dev cur pre on =
    ap
      (λ b.
        if b
        then (cur, cpu_diff dev cur pre)
        else (record pre { online = false }, record dev { online = false }))
      on

cpu_round_offline :
    (dev cur pre : Percpu)
    → cur.online ≡ false
    → cpu_round dev cur pre ≡ (record pre { online = false }, record dev { online = false })
unfolding cpu_round
cpu_round_offline dev cur pre off =
    ap
      (λ b.
        if b
        then (cur, cpu_diff dev cur pre)
        else (record pre { online = false }, record dev { online = false }))
      off

-- The totals of an online processor, but for its number.
abbrev totalled : Percpu → Percpu → Percpu
totalled new tot = record (total_ticks new tot) { cpunr = new.cpunr; online = new.online }

total_percpu_online :
    (new tot : Percpu) → new.online ≡ true → total_percpu new tot ≡ totalled new tot
unfolding total_percpu
total_percpu_online new tot on = ap (λ b. if b then totalled new tot else tot) on

total_percpu_offline : (new tot : Percpu) → new.online ≡ false → total_percpu new tot ≡ tot
unfolding total_percpu
total_percpu_offline new tot off = ap (λ b. if b then totalled new tot else tot) off

watch_cpu_online :
    (dev pre cur tot : Percpu) (curs : List Percpu)
    → cur.online ≡ true
    → watch_cpu dev pre (cur ∷ curs) tot
      ≡ watch_cpu (cpu_diff dev cur pre) cur curs (totalled (cpu_diff dev cur pre) tot)
unfolding watch_cpu cpu_diff
watch_cpu_online dev pre cur tot curs on =
    ap (λ r. watch_cpu r.1 r.0 curs (total_percpu r.1 tot)) (cpu_round_online dev cur pre on)
    ∙ ap (λ t. watch_cpu (cpu_diff dev cur pre) cur curs t)
        (total_percpu_online (cpu_diff dev cur pre) tot on)

watch_cpu_offline :
    (dev pre cur tot : Percpu) (curs : List Percpu)
    → cur.online ≡ false
    → watch_cpu dev pre (cur ∷ curs) tot
      ≡ watch_cpu (record dev { online = false }) (record pre { online = false }) curs tot
unfolding watch_cpu
watch_cpu_offline dev pre cur tot curs off =
    ap (λ r. watch_cpu r.1 r.0 curs (total_percpu r.1 tot)) (cpu_round_offline dev cur pre off)
    ∙ ap (λ t. watch_cpu (record dev { online = false }) (record pre { online = false }) curs t)
        (total_percpu_offline (record dev { online = false }) tot refl)

last_online_on :
    (pre cur : Percpu) (curs : List Percpu)
    → cur.online ≡ true
    → last_online pre (cur ∷ curs) ≡ last_online cur curs
unfolding last_online
last_online_on pre cur curs on =
    ap (λ b. if b then last_online cur curs else last_online pre curs) on

last_online_off :
    (pre cur : Percpu) (curs : List Percpu)
    → cur.online ≡ false
    → last_online pre (cur ∷ curs) ≡ last_online pre curs
unfolding last_online
last_online_off pre cur curs off =
    ap (λ b. if b then last_online cur curs else last_online pre curs) off

-- The flag of the previous sample does not matter.
IsWatched-flag :
    (pre : Percpu) (b : Bool) (curs : List Percpu)
    → IsWatched pre curs
    → IsWatched (record pre { online = b }) curs
IsWatched-flag pre b [] h = tt
IsWatched-flag pre b (cur ∷ curs) (inl (on, grown, rest)) = inl (
  on,
  record {
    stime = grown.stime;
    utime = grown.utime;
    ntime = grown.ntime;
    itime = grown.itime;
    wtime = grown.wtime;
    irqtime = grown.irqtime;
    softirqtime = grown.softirqtime;
    steal = grown.steal;
    guest = grown.guest;
  },
  rest,
)
IsWatched-flag pre b (cur ∷ curs) (inr (off, rest)) = inr (off, IsWatched-flag pre b curs rest)

-- Of the last online sample all but the flag.
same_ticks :
    (pre tot tot' : Percpu) (b : Bool) (curs : List Percpu)
    → AddUp (record pre { online = b }) tot (last_online (record pre { online = b }) curs) tot'
    → AddUp pre tot (last_online pre curs) tot'
unfolding last_online
same_ticks pre tot tot' b [] h = record {
  stime = h.stime;
  utime = h.utime;
  ntime = h.ntime;
  itime = h.itime;
  wtime = h.wtime;
  irqtime = h.irqtime;
  softirqtime = h.softirqtime;
  steal = h.steal;
  guest = h.guest;
}
same_ticks pre tot tot' b (cur ∷ curs) h = elim (Bool-cases cur.online) [
  | inl on ↦
      let h' =
        subst (λ e. AddUp (record pre { online = b }) tot e tot')
          (last_online_on (record pre { online = b }) cur curs on) h in
      subst (λ e. AddUp pre tot e tot') (sym (last_online_on pre cur curs on))
        (record {
          stime = h'.stime;
          utime = h'.utime;
          ntime = h'.ntime;
          itime = h'.itime;
          wtime = h'.wtime;
          irqtime = h'.irqtime;
          softirqtime = h'.softirqtime;
          steal = h'.steal;
          guest = h'.guest;
        })
  | inr off ↦
      let h' =
        subst (λ e. AddUp (record pre { online = b }) tot e tot')
          (last_online_off (record pre { online = b }) cur curs off) h in
      subst (λ e. AddUp pre tot e tot') (sym (last_online_off pre cur curs off))
        (same_ticks pre tot tot' b curs h')
]

AddUp-step :
    (dev pre cur tot end done : Percpu)
    → HasGrown pre cur
    → AddUp cur (totalled (cpu_diff dev cur pre) tot) end done
    → AddUp pre tot end done
unfolding total_ticks cpu_diff all_diff
AddUp-step dev pre cur tot end done grown h = record {
  stime = telescope pre.stime cur.stime tot.stime end.stime done.stime grown.stime h.stime;
  utime = telescope pre.utime cur.utime tot.utime end.utime done.utime grown.utime h.utime;
  ntime = telescope pre.ntime cur.ntime tot.ntime end.ntime done.ntime grown.ntime h.ntime;
  itime = telescope pre.itime cur.itime tot.itime end.itime done.itime grown.itime h.itime;
  wtime = telescope pre.wtime cur.wtime tot.wtime end.wtime done.wtime grown.wtime h.wtime;
  irqtime =
      telescope pre.irqtime cur.irqtime tot.irqtime end.irqtime done.irqtime grown.irqtime
        h.irqtime;
  softirqtime =
      telescope pre.softirqtime cur.softirqtime tot.softirqtime end.softirqtime done.softirqtime
        grown.softirqtime h.softirqtime;
  steal = telescope pre.steal cur.steal tot.steal end.steal done.steal grown.steal h.steal;
  guest = telescope pre.guest cur.guest tot.guest end.guest done.guest grown.guest h.guest;
}

-- The totals of a processor grow by the difference of its last online reading and the first one.
pub watch_cpu-AddUp :
    (dev pre tot : Percpu) (curs : List Percpu)
    → IsWatched pre curs
    → AddUp pre tot (last_online pre curs) (watch_cpu dev pre curs tot)
unfolding watch_cpu last_online
watch_cpu-AddUp dev pre tot [] h = record {
  stime = add_comm pre.stime tot.stime;
  utime = add_comm pre.utime tot.utime;
  ntime = add_comm pre.ntime tot.ntime;
  itime = add_comm pre.itime tot.itime;
  wtime = add_comm pre.wtime tot.wtime;
  irqtime = add_comm pre.irqtime tot.irqtime;
  softirqtime = add_comm pre.softirqtime tot.softirqtime;
  steal = add_comm pre.steal tot.steal;
  guest = add_comm pre.guest tot.guest;
}
watch_cpu-AddUp dev pre tot (cur ∷ curs) (inl (on, grown, rest)) =
    rw (watch_cpu_online dev pre cur tot curs on, last_online_on pre cur curs on)
      (AddUp-step dev pre cur tot (last_online cur curs)
        (watch_cpu (cpu_diff dev cur pre) cur curs (totalled (cpu_diff dev cur pre) tot)) grown
        (watch_cpu-AddUp (cpu_diff dev cur pre) cur (totalled (cpu_diff dev cur pre) tot) curs
          rest))
watch_cpu-AddUp dev pre tot (cur ∷ curs) (inr (off, rest)) =
    let pre' = record pre { online = false } in
    let dev' = record dev { online = false } in
    rw (watch_cpu_offline dev pre cur tot curs off, last_online_off pre cur curs off)
      (same_ticks pre tot (watch_cpu dev' pre' curs tot) false curs
        (watch_cpu-AddUp dev' pre' tot curs (IsWatched-flag pre false curs rest)))

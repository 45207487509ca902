-- ===== src/Deviate/Tasks/Tests.antt =====
-- The tasks of a small machine at one sample.
use atop.Prelude.{ℕ, ◌≡◌, refl, ap, ◌⊎◌, inl, inr, Bool, true, false, some, List, [], ◌∷◌, arith}
use atop.Prelude.Int.{pos, minus_one}
use atop.Task.{Tstat, zero_gen, zero_cpu, zero_gpu, zero_tstat}
use atop.ProcDb.{ProcDb, is_near}
use atop.ProcDb.Inv.{Holds}
use atop.ProcDb.Refresh.{Refreshed, added, refresh_new}
use atop.ProcDb.Empty.{nothing, nothing-IsWf, nothing-unique}
use atop.Deviate.Tasks.{Devtstat}
use atop.Deviate.Tasks.Leave.{KeepsGen}
use atop.Deviate.Tasks.Run.{deviattask}
use atop.Deviate.Tasks.Exits.{exit_diff}
use atop.Deviate.Tasks.Tracks.{IsConsistent, Tracks, IsSample, deviattask-Tracks}
use atop.Deviate.Tasks.ExitLaws.{FillsNet, ExitAddsUp, exit_diff-ExitAddsUp, exit_diff-loses_busy}

-- A kernel module that knows of no exited process.
abbrev exitfind : ℕ → Tstat → Tstat → Tstat
exitfind key dev pre = dev

exitfind-KeepsGen : KeepsGen exitfind
exitfind-KeepsGen key dev pre = refl

exitfind-FillsNet : FillsNet exitfind
exitfind-FillsNet = record {
  cpu = λ key dev pre. refl;
  mem = λ key dev pre. refl;
  dsk = λ key dev pre. refl;
  gpu = λ key dev pre. refl;
}

abbrev task : ℕ → ℕ → Bool → ℕ → Tstat
task pid btime isproc ticks = record zero_tstat {
  gen = record zero_gen { pid = pid; btime = btime; isproc = isproc; nthrrun = 1 };
  cpu = record zero_cpu { utime = pos ticks };
}

-- The database knows the processes 10 and 20 of the previous sample.
known10 :
    Refreshed (task 10 100 true 5) nothing (added nothing-IsWf nothing-unique (task 10 100 true 5))
known10 =
    refresh_new nothing-IsWf nothing-unique (task 10 100 true 5) (λ a t h same. ground (arith, h.0))

known20 :
    Refreshed
      (task 20 200 true 7)
      (added nothing-IsWf nothing-unique (task 10 100 true 5))
      (added known10.valid known10.unique (task 20 200 true 7))
known20 = refresh_new known10.valid known10.unique (task 20 200 true 7) (λ a t h same.
    elim (known10.others a t h) [
      | inl (place, e) ↦ ground arith
      | inr (h', listed) ↦ ground (arith, h'.0)
    ])

abbrev known : ProcDb
known = added known10.valid known10.unique (task 20 200 true 7)

-- Process 10 went on and has a thread, process 20 has ended.
abbrev present : List Tstat
present = task 10 100 true 9 ∷ task 11 150 false 1 ∷ []

abbrev exited : List Tstat
exited = task 20 200 true 8 ∷ []

abbrev memory : List Tstat
memory = zero_tstat ∷ zero_tstat ∷ zero_tstat ∷ []

known_tasks :
    (a : ℕ) (u : Tstat) → Holds known a u → (u ≡ task 20 200 true 7) ⊎ (u ≡ task 10 100 true 5)
known_tasks a u h = elim (known20.others a u h) [
  | inl (place, e) ↦ inl e
  | inr (h', listed) ↦ elim (known10.others a u h') [
    | inl (place, e) ↦ inr e
    | inr (h'', listed) ↦ ground (arith, h''.0)
  ]
]

sample : IsSample memory present exited known
unfolding is_near
sample = record {
  room = refl;
  first = refl;
  fresh = (
    λ a u h same. elim (known_tasks a u h) [
      | inl e ↦ ground (arith, same.0, ap (λ t. t.gen.pid) e)
      | inr e ↦ rw e refl
    ],
    refl,
    (λ same. ground (arith, same.0), tt),
    (
      λ a u h same. elim (known_tasks a u h) [
        | inl e ↦ ground (arith, same.0, ap (λ t. t.gen.pid) e)
        | inr e ↦ ground (arith, same.0, ap (λ t. t.gen.pid) e)
      ],
      refl,
      tt,
      tt,
    ),
  );
  exits = (refl, tt);
  gone = λ t among. (
    λ same. elim among [
      | inl e ↦ ground (arith, same.0, ap (λ u. u.gen.pid) e)
      | inr (inl e) ↦ ground (arith, same.0, ap (λ u. u.gen.pid) e)
      | inr (inr x) ↦ elim x [ ]
    ],
    tt,
  );
}

deviattask-Tracks_example :
    (dev : Devtstat) × (db' : ProcDb) × (deviattask exitfind true memory
        (pos 100)
        300
        present
        exited
        known
      ≡ some (dev, db'))
    × IsConsistent dev
    × Tracks present db'
deviattask-Tracks_example =
    deviattask-Tracks exitfind exitfind-KeepsGen true memory present exited (pos 100) 300
      known20.valid known20.unique sample

exit_diff-ExitAddsUp_example :
    ExitAddsUp
      (task 20 200 true 7)
      (exit_diff exitfind true (task 20 200 true 8) (task 20 200 true 7))
      (task 20 200 true 8)
exit_diff-ExitAddsUp_example =
    exit_diff-ExitAddsUp exitfind exitfind-FillsNet true (task 20 200 true 8) (task 20 200 true 7)

-- A process on a GPU whose busy percentages are not available.
abbrev on_gpu : Tstat
on_gpu = record zero_tstat {
  gen = record zero_gen { pid = 30; btime = 250; isproc = true };
  gpu = record zero_gpu { state = b'E'; gpubusycum = minus_one; membusycum = minus_one };
}

busy_is_lost :
    ((exit_diff exitfind true on_gpu on_gpu).gpu.membusycum ≡ minus_one)
    × ((exit_diff exitfind true on_gpu on_gpu).gpu.gpubusycum ≡ pos 0)
busy_is_lost =
    exit_diff-loses_busy exitfind exitfind-FillsNet true on_gpu on_gpu refl refl refl refl

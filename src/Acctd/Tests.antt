-- ===== src/Acctd/Tests.antt =====
-- Shadow files of four records.
use atop.Prelude.{ℕ, zero, suc, ◌≡◌, refl, Bool, true, false, [], ◌∷◌, none, some, arith, ◌==◌}
use atop.Acctd.{
  Files, put, Shadow, createshadow, setcurrent, pass2shadow, next_shadow, write_parts, transfer,
  gcshadows, start_again, awaitprocterm,
}
use atop.Acctd.Files.{span}
use atop.Acctd.Laws.{log}
use atop.Acctd.Inv.{IsShadow, transfer-IsShadow}
use atop.Acctd.Gc.{IsReadable, gcshadows-IsReadable}

-- File 0 is removed, file 1 is full and file 2 is current.
abbrev files_of : Files
files_of zero = none
files_of (suc zero) = some (1 ∷ 2 ∷ 3 ∷ 4 ∷ [])
files_of (suc (suc zero)) = some (5 ∷ 6 ∷ 7 ∷ [])
files_of (suc (suc (suc i))) = none

abbrev two_files : Shadow
two_files = record {
  oldshadow = 1;
  curshadow = 2;
  stotsize = 3;
  shadowbusy = true;
  files = files_of;
  currency = 2;
}

two_files-IsShadow : IsShadow 4 two_files
two_files-IsShadow = (
  (
    1,
    refl,
    ((1 ∷ 2 ∷ 3 ∷ 4 ∷ [], refl, refl), tt),
    (5 ∷ 6 ∷ 7 ∷ [], refl, refl),
    omega arith,
    refl,
  ),
  omega arith,
)

program : Unit {0}
unfolding put createshadow setcurrent pass2shadow next_shadow write_parts transfer gcshadows
    start_again awaitprocterm span log
program = tt

-- Three records fill file 2 and start file 3.
three_more :
    log (transfer 4 false false (8 ∷ 9 ∷ 10 ∷ []) two_files) 2 ≡ 5 ∷ 6 ∷ 7 ∷ 8 ∷ 9 ∷ 10 ∷ []
unfolding program
three_more = refl

-- With a full file system at the second part, its records are lost.
two_lost : log (transfer 4 false true (8 ∷ 9 ∷ 10 ∷ []) two_files) 2 ≡ 5 ∷ 6 ∷ 7 ∷ 8 ∷ []
unfolding program
two_lost = refl

abbrev holds_two : ℕ → Bool
holds_two i = i == 2

-- The last client is gone: the numbers start again.
started_again :
    (awaitprocterm 4
      (record {
        abuf = 8 ∷ [];
        locked = true;
        clients = 0;
        held = λ i. false;
        full = false;
        full' = false;
      })
      two_files).curshadow
    ≡ 0
unfolding program
started_again = refl

transfer-IsShadow_example : IsShadow 4 (transfer 4 false true (8 ∷ 9 ∷ 10 ∷ []) two_files)
transfer-IsShadow_example =
    transfer-IsShadow 4 false true (8 ∷ 9 ∷ 10 ∷ []) two_files two_files-IsShadow (omega arith)

gcshadows-IsReadable_example :
    IsShadow 4 (gcshadows 1 holds_two 2 two_files)
    × IsReadable (gcshadows 1 holds_two 2 two_files) 2 (some (5 ∷ 6 ∷ 7 ∷ [])) (log two_files 2)
gcshadows-IsReadable_example =
    gcshadows-IsReadable 4 1 2 holds_two two_files 2 two_files-IsShadow (omega arith) refl
      (omega arith) (omega arith)

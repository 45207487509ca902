-- ===== src/Acct/Reader/Tests.antt =====
-- A client of shadow files of two records.
use atop.Prelude.{ℕ, zero, suc, ◌<◌, ◌≡◌, refl, true, false, List, [], ◌∷◌, ◌++◌, none, some, arith}
use atop.Acctd.{
  Files, put, Shadow, createshadow, setcurrent, pass2shadow, next_shadow, write_parts, transfer,
  Event, awaitprocterm,
}
use atop.Acctd.Files.{span}
use atop.Acctd.Inv.{IsShadow}
use atop.Acct.Reader.{
  Reader, switchshadow, acctprocnt, at_end, read_record, advance, photo, acctphotoproc,
}
use atop.Acct.Reader.Hangs.{acctphotoproc_hangs}
use atop.Acct.Reader.Runs.{left, Run, registered, copied, IsRun}
use atop.Acct.Reader.Runs.Laws.{Run-IsRun, sample_catches_up}

abbrev first_file : Files
first_file zero = some (9 ∷ [])
first_file (suc i) = none

abbrev start : Shadow
start = record {
  oldshadow = 0;
  curshadow = 0;
  stotsize = 1;
  shadowbusy = true;
  files = first_file;
  currency = 0;
}

abbrev client : Reader
client = record { fdseq = 0; offset = 1; curshadowseq = 0; acctsize = 1; removed = none }

abbrev two_ends : Event
two_ends = record {
  abuf = 5 ∷ 6 ∷ [];
  locked = true;
  clients = 1;
  held = λ i. false;
  full = false;
  full' = false;
}

abbrev later : Shadow
later = awaitprocterm 2 two_ends start

start-IsShadow : IsShadow 2 start
start-IsShadow = ((0, refl, tt, (9 ∷ [], refl, refl), omega arith, refl), omega arith)

all_read : left start client ≡ []
unfolding span
all_read = refl

two_copied : Run 2 later client (5 ∷ 6 ∷ []) []
two_copied =
    copied start client [] [] two_ends
      (registered start client start-IsShadow (refl, refl, omega arith, refl) (omega arith)
        (omega arith) all_read)
      refl (omega arith) refl refl

program : Unit {0}
unfolding put createshadow setcurrent pass2shadow next_shadow write_parts transfer awaitprocterm
    switchshadow acctprocnt at_end read_record advance photo acctphotoproc
program = tt

-- The client reads the second record of file 0 and the first one of file 1.
two_counted : acctprocnt 2 later.files later.currency client ≡ some 2
unfolding program
two_counted = refl

two_read :
    acctphotoproc 2 later.files 2 client
    ≡ some (
      5 ∷ 6 ∷ [],
      record { fdseq = 1; offset = 1; curshadowseq = 1; acctsize = 1; removed = none },
    )
unfolding program
two_read = refl

Run-IsRun_example : IsRun 2 later client (5 ∷ 6 ∷ []) []
Run-IsRun_example = Run-IsRun 2 later client (5 ∷ 6 ∷ []) [] two_copied

sample_catches_up_example :
    (n : ℕ) × (new : List ℕ) × (r' : Reader) × (acctprocnt 2 later.files later.currency client
      ≡ some n)
    × (acctphotoproc n later.files n client ≡ some (new, r'))
    × (5 ∷ 6 ∷ [] ≡ [] ++ new)
sample_catches_up_example = sample_catches_up 2 later client (5 ∷ 6 ∷ []) [] two_copied

abbrev two_files : Files
two_files zero = some (9 ∷ 5 ∷ [])
two_files (suc zero) = some (6 ∷ [])
two_files (suc (suc i)) = none

-- A client whose file was removed behind its back, with one record that it has not read: it reads this one.
abbrev removed_client : Reader
removed_client = record {
  fdseq = 7;
  offset = 1;
  curshadowseq = 7;
  acctsize = 1;
  removed = some (8 ∷ 3 ∷ []);
}

last_read :
    acctphotoproc 1 first_file 1 removed_client
    ≡ some (3 ∷ [], record removed_client { offset = 2; acctsize = 2 })
unfolding program
last_read = refl

abbrev finished_client : Reader
finished_client = record removed_client { offset = 2; acctsize = 2 }

none_left : (seq : ℕ) → 7 < seq → first_file seq ≡ none
none_left zero h = absurd (omega arith)
none_left (suc i) h = refl

acctphotoproc_hangs_example : acctphotoproc 1000 first_file 1 finished_client ≡ none
acctphotoproc_hangs_example =
    acctphotoproc_hangs 1000 0 first_file finished_client (omega arith) none_left

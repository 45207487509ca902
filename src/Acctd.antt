-- ===== src/Acctd.antt =====
-- atopacctd.c: the daemon that copies the accounting records of the kernel to shadow files. A record
-- is a number, and sizes count records: the daemon does not look into them, the kernel writes whole
-- records of 64 bytes, and the buffer of 16000 bytes holds 250 of them.
pub mod Files
pub mod Laws
pub mod Inv
pub mod Grows
pub mod Gc
mod Tests
use atop.Text.{take, drop}
use atop.Prelude.{
  ℕ, zero, suc, ◌+◌, ◌-◌, Bool, true, false, ◌&&◌, List, [], ◌∷◌, ◌++◌, Option, none, some, length,
  leb, ltb, ◌==◌, if◌then◌else◌,
}

-- The shadow files by their sequence number.
abbrev pub Files : Type 0
Files = ℕ → Option (List ℕ)

unfoldable pub put : ℕ → Option (List ℕ) → Files → Files
put seq content files i = if i == seq then content else files i

-- What a file holds; a file that does not exist holds nothing.
abbrev pub contents : Option (List ℕ) → List ℕ
contents none = []
contents (some l) = l

-- The variables of `main` and `awaitprocterm`, the files, and the number in the file `current`. The
-- descriptor `sfd` is that of the file with the number `curshadow`.
pub record Shadow : Type 0 where
  pub oldshadow : ℕ
  pub curshadow : ℕ
  pub stotsize : ℕ
  pub shadowbusy : Bool
  pub files : Files
  pub currency : ℕ

unfoldable pub createshadow : ℕ → Shadow → Shadow
createshadow seq s = record s { files = put seq (some []) s.files }

unfoldable pub setcurrent : Shadow → Shadow
setcurrent s = record s { currency = s.curshadow }

-- `pass2shadow`, with what it adds to `stotsize`. When the file system is full, nothing is written.
unfoldable pub pass2shadow : Bool → List ℕ → Shadow → Shadow
pass2shadow full sbuf s = if full then s else (record s {
  files = put s.curshadow (some (contents (s.files s.curshadow) ++ sbuf)) s.files;
  stotsize = s.stotsize + length sbuf;
})

-- The switch to the next shadow file, with the remaining data.
unfoldable pub next_shadow : Bool → List ℕ → Shadow → Shadow
next_shadow full rem s =
    let cur = s.curshadow + 1 in
    let fresh = setcurrent (createshadow cur (record s { curshadow = cur })) in
    pass2shadow full rem (record fresh { stotsize = 0 })

-- The first part goes to the current file. If this is full then, the remainder goes to the next one.
unfoldable pub write_parts : ℕ → Bool → Bool → List ℕ → List ℕ → Shadow → Shadow
write_parts maxshadowrec full full' part rem s =
    let passed = pass2shadow full part s in
    if leb maxshadowrec passed.stotsize then next_shadow full' rem passed else passed

-- The transfer of the records that were read. `full` and `full'` say whether the file system is
-- full at the first and at the second part.
unfoldable pub transfer : ℕ → Bool → Bool → List ℕ → Shadow → Shadow
transfer maxshadowrec full full' abuf s =
    let partsz = maxshadowrec - s.stotsize in
    if leb (s.stotsize + length abuf) maxshadowrec
    then write_parts maxshadowrec full full' abuf [] s
    else write_parts maxshadowrec full full' (take partsz abuf) (drop partsz abuf) s

-- `gcshadows`, where `held` tells which files a reader has locked. The loop runs on fuel.
unfoldable pub gcshadows : ℕ → (ℕ → Bool) → ℕ → Shadow → Shadow
gcshadows zero held curshadow s = s
gcshadows (suc fuel) held curshadow s =
    let unlinked = record s { files = put s.oldshadow none s.files; oldshadow = s.oldshadow + 1 } in
    let further = gcshadows fuel held curshadow unlinked in
    if ltb s.oldshadow curshadow
    then elim (s.files s.oldshadow) [ none ↦ s | some l ↦ if held s.oldshadow then s else further ]
    else s

-- The last client disappeared: all files are removed and the numbers start again.
unfoldable pub start_again : (ℕ → Bool) → Shadow → Shadow
start_again held s =
    let s' = gcshadows (s.curshadow + 1 - s.oldshadow) held (s.curshadow + 1) s in
    let reset = record s' { oldshadow = 0; curshadow = 0; stotsize = 0 } in
    record (setcurrent (createshadow 0 reset)) { shadowbusy = false }

-- What `awaitprocterm` meets: the records that it reads, whether it gets the semaphore, the number of
-- clients, the locks of the readers and whether the file system is full.
pub record Event : Type 0 where
  pub abuf : List ℕ
  pub locked : Bool
  pub clients : ℕ
  pub held : ℕ → Bool
  pub full : Bool
  pub full' : Bool

-- `awaitprocterm`, once records were read.
unfoldable pub awaitprocterm : ℕ → Event → Shadow → Shadow
awaitprocterm maxshadowrec e s =
    if e.locked && e.clients == 0
    then (if s.shadowbusy then start_again e.held s else s)
    else transfer maxshadowrec e.full e.full' e.abuf (record s { shadowbusy = true })

-- ===== src/Ifprop.antt =====
-- ifprop.c: the table of the properties of all network interfaces, hashed on their names. A chain
-- of the table is a list, the table a list of chains.
pub mod Laws
pub mod Refresh
mod Tests
use atop.Prelude.{
  ℕ, zero, suc, ◌+◌, ◌-◌, ◌%◌, Bool, true, false, not, ◌&&◌, ◌||◌, Option, none, some, List, [],
  ◌∷◌, leb, ltb, ◌==◌, if◌then◌else◌, streq, set, to_nat, get_elem?, length,
}
use atop.Prelude.Int.{ℤ, pos}
use atop.Text.{take}

-- `struct ifprop`
pub record Ifprop : Type 0 where
  pub type : ℕ
  pub name : List ℕ
  pub speed : ℤ
  pub fullduplex : ℕ

-- `NUMIFHASH` and `MAXINTF`
abbrev pub numifhash : ℕ
numifhash = 256

abbrev pub maxintf : ℕ
maxintf = 128

-- `calcbucket`: a `char` that is negative is the same as its byte in the last 8 bits.
unfoldable pub sum_bytes : List ℕ → ℕ
sum_bytes [] = 0
sum_bytes (c ∷ name) = c + sum_bytes name

unfoldable pub calcbucket : List ℕ → ℕ
unfolding sum_bytes
calcbucket name = sum_bytes name % numifhash

-- The chain of a bucket.
unfoldable pub chain : List (List Ifprop) → ℕ → List Ifprop
chain table bucket = elim (get_elem? table bucket) [ none ↦ [] | some ifps ↦ ifps ]

-- The first entry of a chain with a name.
unfoldable pub lookup : List ℕ → List Ifprop → Option Ifprop
lookup name [] = none
lookup name (ifp ∷ ifps) =
    let rest = lookup name ifps in if streq ifp.name name then some ifp else rest

-- `getifprop`: the properties and whether the interface is valid.
unfoldable pub getifprop : List (List Ifprop) → Ifprop → Ifprop × Bool
unfolding chain lookup calcbucket
getifprop table p =
    let unknown : Ifprop = record p { type = b'?'; speed = pos 0; fullduplex = 0 } in
    elim (lookup p.name (chain table (calcbucket p.name))) [
      | none ↦ (unknown, false)
      | some ifp ↦ if ifp.type == b'i' then (unknown, false) else (ifp, true)
    ]

-- A line of /proc/net/dev: a new entry, invalid at first. `sscanf` reads 30 bytes of the name.
unfoldable pub add_interface : List ℕ → List (List Ifprop) → List (List Ifprop)
unfolding chain calcbucket
add_interface word table =
    let name = take 30 word in
    let bucket = calcbucket name in
    set table bucket
      (record { type = b'i'; name = name; speed = pos 0; fullduplex = 0 } ∷ chain table bucket)

unfoldable pub add_interfaces : List (List ℕ) → List (List Ifprop) → List (List Ifprop)
add_interfaces [] table = table
add_interfaces (word ∷ words) table = add_interfaces words (add_interface word table)

-- An entry of /sys/devices/virtual/net: the first one with the name is marked.
unfoldable pub mark_in : List ℕ → List Ifprop → List Ifprop
mark_in name [] = []
mark_in name (ifp ∷ ifps) =
    let rest = mark_in name ifps in
    if streq ifp.name name then (record ifp { type = b'v' } ∷ ifps) else ifp ∷ rest

abbrev pub is_hidden : List ℕ → Bool
is_hidden [] = false
is_hidden (c ∷ _) = c == b'.'

unfoldable pub mark_virtual : List (List ℕ) → List (List Ifprop) → List (List Ifprop)
unfolding chain calcbucket mark_in
mark_virtual [] table = table
mark_virtual (d_name ∷ names) table =
    let bucket = calcbucket d_name in
    mark_virtual names
      (if is_hidden d_name then table else set table bucket (mark_in d_name (chain table bucket)))

-- `getphysprop`, on the entry of a possible physical interface, asks the kernel.
module _ (getphysprop : Ifprop → Ifprop × Bool) where
  unfoldable pub physical_chain : List Ifprop → ℕ → List Ifprop × ℕ
  physical_chain [] nrphysical = ([], nrphysical)
  physical_chain (ifp ∷ ifps) nrphysical =
      let r = getphysprop ifp in
      let asked = ifp.type == b'i' in
      let rest = physical_chain ifps (if asked && r.1 then suc nrphysical else nrphysical) in
      ((if asked then r.0 else ifp) ∷ rest.0, rest.1)

  unfoldable pub physical_table : List (List Ifprop) → ℕ → List (List Ifprop) × ℕ
  physical_table [] nrphysical = ([], nrphysical)
  physical_table (ifps ∷ table) nrphysical =
      let r = physical_chain ifps nrphysical in
      let rest = physical_table table r.1 in (r.0 ∷ rest.0, rest.1)

abbrev pub is_physical : Ifprop → Bool
is_physical ifp = ifp.type == b'e' || ifp.type == b'w'

-- The loop variables `nrinterfaces` and `nrphysical`.
pub record Numbers : Type 0 where
  pub nrinterfaces : ℕ
  pub nrphysical : ℕ

-- One entry, while there are too many interfaces.
unfoldable pub invalidate_one : Ifprop → Numbers → Ifprop × Numbers
invalidate_one ifp n =
    if ifp.type == b'i'
    then (ifp, record n { nrinterfaces = n.nrinterfaces - 1 })
    else if is_physical ifp
    then (if leb maxintf n.nrphysical
        then (
          record ifp { type = b'i' },
          record { nrinterfaces = n.nrinterfaces - 1; nrphysical = n.nrphysical - 1 },
        )
        else (ifp, n))
    else (record ifp { type = b'i' }, record n { nrinterfaces = n.nrinterfaces - 1 })

unfoldable pub invalidate_chain : List Ifprop → Numbers → List Ifprop × Numbers
invalidate_chain [] n = ([], n)
invalidate_chain (ifp ∷ ifps) n = elim (leb maxintf n.nrinterfaces) [
  | false ↦ (ifp ∷ ifps, n)
  | true ↦
      let r = invalidate_one ifp n in let rest = invalidate_chain ifps r.1 in (r.0 ∷ rest.0, rest.1)
]

unfoldable pub invalidate_table : List (List Ifprop) → Numbers → List (List Ifprop) × Numbers
invalidate_table [] n = ([], n)
invalidate_table (ifps ∷ table) n = elim (leb maxintf n.nrinterfaces) [
  | false ↦ (ifps ∷ table, n)
  | true ↦
      let r = invalidate_chain ifps n in
      let rest = invalidate_table table r.1 in (r.0 ∷ rest.0, rest.1)
]

-- An empty table.
unfoldable pub empty_table : ℕ → List (List Ifprop)
empty_table zero = []
empty_table (suc n) = [] ∷ empty_table n

-- `initifprop` once it is time to refresh: `words` are the names in /proc/net/dev and `names` the
-- entries of /sys/devices/virtual/net.
unfoldable pub initifprop :
    (Ifprop → Ifprop × Bool) → List (List ℕ) → List (List ℕ) → List (List Ifprop)
initifprop getphysprop words names =
    let found = mark_virtual names (add_interfaces words (empty_table numifhash)) in
    let asked = physical_table getphysprop found 0 in
    let nrinterfaces = length words in
    if ltb nrinterfaces maxintf
    then asked.0
    else (invalidate_table asked.0 (record { nrinterfaces = nrinterfaces; nrphysical = asked.1 })).0

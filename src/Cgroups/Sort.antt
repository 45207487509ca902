-- ===== src/Cgroups/Sort.antt =====
-- cgroups.c: `cgsort`, the groups in the order of resource consumption, with their tree. The
-- function `qsort` of the C library, with `compsortval`, is a parameter: it does not say in which
-- order equal elements come.
pub mod Levels
pub mod Merge
pub mod Laws
mod Walked
mod Tests
use atop.Prelude.{
  ℕ, zero, suc, ◌+◌, ◌-◌, ◌*◌, ◌/◌, ◌%◌, ◌^◌, Bool, true, false, List, [], ◌∷◌, ◌++◌, Option, none,
  some, length, ltb, leb, ◌==◌, if◌then◌else◌,
}
use atop.Prelude.Int.{ℤ, pos, minus_one, ◌+ℤ◌, ltb_ℤ}
use atop.Prelude.Partial.{◌>>=◌}
use atop.Cgroups.{Cggen, Cgcpu, Cgmem, Cgdsk, Cstat, Cgchainer}

-- An element of the array with its position, which stands for its address.
pub record Placed : Type 0 where
  pub at : ℕ
  pub cg : Cgchainer

unfoldable pub number : ℕ → List Cgchainer → List Placed
number i [] = []
number i (cc ∷ rest) = record { at = i; cg = cc } ∷ number (i + 1) rest

-- `struct cgsorter` behind a pointer; `nrchild` and `sortlist` follow from the chain of children.
pub data Cgsorter : Type 0 where
  null : Cgsorter
  sorter : Placed → ℤ → Cgsorter → Cgsorter → Cgsorter

-- `cgs->sortval`
unfoldable pub sortval : ℕ → Cstat → ℤ
sortval showresource c =
    if showresource == b'C'
    then c.cpu.utime +ℤ c.cpu.stime
    else if showresource == b'M'
    then (if ltb_ℤ (pos 0) c.mem.current
        then c.mem.current
        else c.mem.anon +ℤ c.mem.file +ℤ c.mem.kernel +ℤ c.mem.shmem)
    else if showresource == b'D'
    then c.dsk.rbytes +ℤ c.dsk.wbytes
    else pos 0

abbrev pub depth_of : Placed → ℕ
depth_of p = p.cg.cstat.gen.depth

-- The loop of `sortlevel`: `cgparent->cgchild`, whether `cgs` is set, and the elements that are left.
-- The result is the chain of children with the elements that the caller goes on with. A lower level
-- without a `cgs` is none. The loop runs on fuel.
unfoldable pub sortlevel :
    ℕ → ℕ → ℕ → Cgsorter → Bool → List Placed → Option (Cgsorter × List Placed)
sortlevel zero showresource curlevel kids made left = none
sortlevel (suc fuel) showresource curlevel kids made [] = some (kids, [])
sortlevel (suc fuel) showresource curlevel kids made (cgc ∷ rest) =
    let kid = sorter cgc (sortval showresource cgc.cg.cstat) null kids in
    let same_level = sortlevel fuel showresource curlevel kid true rest in
    let newlevel = depth_of cgc in
    if ltb newlevel curlevel
    then some (kids, cgc ∷ rest)
    else if newlevel == curlevel
    then same_level
    else elim kids [
      | null ↦ none
      | sorter this val child same ↦
          if made
          then (sortlevel fuel showresource newlevel child false (cgc ∷ rest) >>= λ (child', rest').
              sortlevel fuel showresource curlevel (sorter this val child' same) true rest')
          else none
    ]

-- A child of a level.
pub record Node : Type 0 where
  pub cgthis : Placed
  pub value : ℤ
  pub cgchild : Cgsorter

unfoldable pub nodes : Cgsorter → List Node
nodes null = []
nodes (sorter this val child same) =
    record { cgthis = this; value = val; cgchild = child } ∷ nodes same

-- `mask | 1ULL << n` and `mask & ~(1ULL << n)`
unfoldable pub set_bit : ℕ → ℕ → ℕ
set_bit n mask = if mask / 2 ^ n % 2 == 1 then mask else mask + 2 ^ n

unfoldable pub clear_bit : ℕ → ℕ → ℕ
clear_bit n mask = if mask / 2 ^ n % 2 == 1 then mask - 2 ^ n else mask

-- `CGRMAXDEPTH`
abbrev pub cgrmaxdepth : ℕ
cgrmaxdepth = 64

-- An element of the sorted list: the position of the group, and the `stub` and the `vlinemask` that
-- are stored in it.
pub record Line : Type 0 where
  pub at : ℕ
  pub stub : ℕ
  pub vlinemask : ℕ

abbrev pub is_last : List Node → Bool
is_last [] = true
is_last (n ∷ rest) = false

unfoldable pub mask_of : ℕ → Bool → ℕ → ℕ
mask_of depth last mask =
    if ltb depth cgrmaxdepth
    then (if last then clear_bit depth mask else set_bit depth mask)
    else mask

-- `cgs->nrchild`
abbrev pub has_children : Node → Bool
has_children n = elim n.cgchild [ null ↦ false | sorter this val child same ↦ true ]

-- The loop of `mergelevel`, which is called for the next level as `merge`.
unfoldable pub merge_nodes :
    (Node → ℕ → Option (List Line)) → ℕ → ℕ → List Node → Option (List Line)
merge_nodes merge depth mask [] = some []
merge_nodes merge depth mask (n ∷ rest) =
    let mask' = mask_of depth (is_last rest) mask in
    let line : Line = record {
      at = n.cgthis.at;
      stub = if is_last rest then 1 else 0;
      vlinemask = mask';
    } in
    merge n mask' >>= λ below.
    merge_nodes merge depth mask' rest >>= λ later. some (line ∷ (below ++ later))

-- `compsortval`, which `qsort` calls.
unfoldable pub compsortval : Node → Node → ℤ
compsortval a b =
    if ltb_ℤ a.value b.value then pos 1 else if ltb_ℤ b.value a.value then minus_one else pos 0

module _ (qsort : List Node → List Node) where
  -- No `sortlist` is needed for one child.
  unfoldable pub in_order : Cgsorter → List Node
  in_order kids = if leb (length (nodes kids)) 1 then nodes kids else qsort (nodes kids)

  -- `mergelevel` for the children of a group of this depth, on fuel. It is called for a child that
  -- has children.
  unfoldable pub mergelevel : ℕ → ℕ → ℕ → Cgsorter → Option (List Line)
  mergelevel zero depth mask kids = none
  mergelevel (suc fuel) depth mask kids =
      let merge : Node → ℕ → Option (List Line) = λ n mask'.
        let below = mergelevel fuel (depth_of n.cgthis) mask' n.cgchild in
        if has_children n then below else some [] in
      merge_nodes merge depth mask (in_order kids)

  -- `cgsort` of an array: the top directory comes first.
  unfoldable pub cgsort : ℕ → ℕ → List Cgchainer → Option (List Line)
  cgsort fuel showresource [] = none
  cgsort fuel showresource (root ∷ rest) =
      sortlevel fuel showresource 1 null false (number 1 rest) >>= λ (kids, left).
      mergelevel fuel root.cstat.gen.depth 0 kids >>= λ lines.
      some (record { at = 0; stub = 1; vlinemask = 0 } ∷ lines)

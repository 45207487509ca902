-- ===== src/System/Interfaces.antt =====
-- `deviatsyst` of deviate.c on the network interfaces.
pub mod Laws
mod Tests
use atop.Prelude.{
  ℕ, zero, suc, Bool, true, false, not, ◌&&◌, Option, none, some, List, [], ◌∷◌, if◌then◌else◌,
  get_elem?, streq,
}
use atop.Prelude.Int.{ℤ, pos}
use atop.Prelude.Partial.{◌>>=◌}
use atop.Text.{safe_strcpy}
use atop.Deviate.Count.{subcount}
use atop.Ifprop.{Ifprop, getifprop}
use atop.System.Disks.{is_empty}

-- `struct perintf`
pub record Perintf : Type 0 where
  pub name : List ℕ
  pub rbyte : ℤ
  pub rpack : ℤ
  pub rerrs : ℤ
  pub rdrop : ℤ
  pub rfifo : ℤ
  pub rframe : ℤ
  pub rcompr : ℤ
  pub rmultic : ℤ
  pub sbyte : ℤ
  pub spack : ℤ
  pub serrs : ℤ
  pub sdrop : ℤ
  pub sfifo : ℤ
  pub scollis : ℤ
  pub scarrier : ℤ
  pub scompr : ℤ
  pub type : ℕ
  pub speed : ℤ
  pub speedp : ℤ
  pub duplex : ℕ

abbrev pub zero_perintf : Perintf
zero_perintf = record {
  name = [];
  rbyte = pos 0;
  rpack = pos 0;
  rerrs = pos 0;
  rdrop = pos 0;
  rfifo = pos 0;
  rframe = pos 0;
  rcompr = pos 0;
  rmultic = pos 0;
  sbyte = pos 0;
  spack = pos 0;
  serrs = pos 0;
  sdrop = pos 0;
  sfifo = pos 0;
  scollis = pos 0;
  scarrier = pos 0;
  scompr = pos 0;
  type = 0;
  speed = pos 0;
  speedp = pos 0;
  duplex = 0;
}

-- The size of the name.
abbrev pub intf_name_size : ℕ
intf_name_size = 16

-- The variable `ifprop`, with a name.
abbrev asked : List ℕ → Ifprop
asked name = record { type = 0; name = name; speed = pos 0; fullduplex = 0 }

-- The size of the name in `struct ifprop`.
abbrev pub ifprop_name_size : ℕ
ifprop_name_size = 31

-- `getifprop` fills in the properties of every interface of the current sample.
unfoldable pub fill_props : List (List Ifprop) → List Perintf → Option (List Perintf)
unfolding safe_strcpy
fill_props table [] = none
fill_props table (c ∷ cur) = elim (is_empty c.name) [
  | true ↦ some (c ∷ cur)
  | false ↦ do
    let p = (getifprop table (asked (safe_strcpy [] c.name ifprop_name_size))).0
    cur' ← fill_props table cur
    some (
        record c { type = p.type; speed = p.speed; speedp = p.speed; duplex = p.fullduplex } ∷ cur')
]

-- The first sample: the previous one gets the names and the properties of the current one.
unfoldable pub copy_names : List Perintf → List Perintf → Option (List Perintf)
unfolding safe_strcpy
copy_names pre [] = none
copy_names [] (c ∷ cur) = if is_empty c.name then some [] else none
copy_names (p ∷ pre) (c ∷ cur) = elim (is_empty c.name) [
  | true ↦ some (p ∷ pre)
  | false ↦ do
    pre' ← copy_names pre cur
    some (
        record p {
          name = safe_strcpy p.name c.name intf_name_size;
          type = c.type;
          speed = c.speed;
          speedp = c.speedp;
          duplex = c.duplex;
        }
        ∷ pre')
]

unfoldable pub first_sample : List Perintf → List Perintf → Option (List Perintf)
first_sample pre cur = do
  p ← get_elem? pre 0
  if is_empty p.name then copy_names pre cur else some pre

-- The deviations of one interface.
unfoldable pub intf_diff : Perintf → Perintf → Perintf → Perintf
unfolding safe_strcpy subcount
intf_diff dev cur pre = record {
  name = safe_strcpy dev.name cur.name intf_name_size;
  rbyte = subcount cur.rbyte pre.rbyte;
  rpack = subcount cur.rpack pre.rpack;
  rerrs = subcount cur.rerrs pre.rerrs;
  rdrop = subcount cur.rdrop pre.rdrop;
  rfifo = subcount cur.rfifo pre.rfifo;
  rframe = subcount cur.rframe pre.rframe;
  rcompr = subcount cur.rcompr pre.rcompr;
  rmultic = subcount cur.rmultic pre.rmultic;
  sbyte = subcount cur.sbyte pre.sbyte;
  spack = subcount cur.spack pre.spack;
  serrs = subcount cur.serrs pre.serrs;
  sdrop = subcount cur.sdrop pre.sdrop;
  sfifo = subcount cur.sfifo pre.sfifo;
  scollis = subcount cur.scollis pre.scollis;
  scarrier = subcount cur.scarrier pre.scarrier;
  scompr = subcount cur.scompr pre.scompr;
  type = cur.type;
  duplex = cur.duplex;
  speed = cur.speed;
  speedp = pre.speed;
}

-- The loop that tries to resync, from index `j` on: the index at which it stops.
unfoldable pub resync : List ℕ → ℕ → List Perintf → Option ℕ
resync name j [] = none
resync name j (p ∷ pre) =
    let rest = resync name (suc j) pre in
    if is_empty p.name then some j else if streq name p.name then some j else rest

-- The loop over the interfaces of the current sample, with the index `j` of the previous one: the
-- arrays of the current sample and of the deviations, and the number of interfaces.
unfoldable pub deviate_intfs :
    List Perintf → List Perintf → List Perintf → ℕ → Option (List Perintf × List Perintf × ℕ)
deviate_intfs pre [] devs j = none
deviate_intfs pre (c ∷ cur) [] j = none
deviate_intfs pre (c ∷ cur) (d ∷ devs) j = elim (is_empty c.name) [
  | true ↦ some (c ∷ cur, record d { name = [] } ∷ devs, 0)
  | false ↦ do
    p ← get_elem? pre j
    j' ← if streq c.name p.name then some j else resync c.name 0 pre
    q ← get_elem? pre j'
    elim (not (streq c.name p.name) && is_empty q.name) [
      | true ↦ do (cur', devs', n) ← deviate_intfs pre cur devs 1; some (c ∷ cur', c ∷ devs', suc n)
      | false ↦ do
        (cur', devs', n) ← deviate_intfs pre cur devs (suc j')
        some (record c { speedp = q.speed } ∷ cur', intf_diff d c q ∷ devs', suc n)
    ]
]

-- The whole part on interfaces: the arrays of the previous and the current sample and of the
-- deviations, and the number of interfaces. `table` is the table of ifprop.c.
unfoldable pub deviate_interfaces :
    List (List Ifprop)
    → List Perintf
    → List Perintf
    → List Perintf
    → Option (List Perintf × List Perintf × List Perintf × ℕ)
deviate_interfaces table pre cur devs = do
  cur₁ ← fill_props table cur
  pre₁ ← first_sample pre cur₁
  (cur₂, devs', n) ← deviate_intfs pre₁ cur₁ devs 0
  some (pre₁, cur₂, devs', n)

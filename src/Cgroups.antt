-- ===== src/Cgroups.antt =====
-- cgroups.h: what one sample holds of one control group. The arrays reserved for future use are
-- left out. A C string is the list of its bytes before the NUL; what can be negative is an integer.
pub mod Hash
pub mod Walk
pub mod Deviate
pub mod Path
pub mod Refs
pub mod Sample
pub mod Sort
pub mod Mixed
use atop.Prelude.{ℕ, List}
use atop.Prelude.Int.{ℤ}

-- `struct cggen`.
pub record Cggen : Type 0 where
  pub structlen : ℕ
  pub sequence : ℕ
  pub parentseq : ℤ
  pub depth : ℕ
  pub nprocs : ℕ
  pub procsbelow : ℤ
  pub namelen : ℕ
  pub fullnamelen : ℕ
  pub namehash : ℤ

-- `struct cgconf`.
pub record Cgconf : Type 0 where
  pub cpuweight : ℤ
  pub cpumax : ℤ
  pub memmax : ℤ
  pub swpmax : ℤ
  pub dskweight : ℤ

-- `struct cgcpu`.
pub record Cgcpu : Type 0 where
  pub utime : ℤ
  pub stime : ℤ
  pub somepres : ℤ
  pub fullpres : ℤ

-- `struct cgmem`.
pub record Cgmem : Type 0 where
  pub current : ℤ
  pub anon : ℤ
  pub file : ℤ
  pub kernel : ℤ
  pub shmem : ℤ
  pub somepres : ℤ
  pub fullpres : ℤ

-- `struct cgdsk`.
pub record Cgdsk : Type 0 where
  pub rbytes : ℤ
  pub wbytes : ℤ
  pub rios : ℤ
  pub wios : ℤ
  pub somepres : ℤ
  pub fullpres : ℤ

-- `struct cstat`.
pub record Cstat : Type 0 where
  pub gen : Cggen
  pub conf : Cgconf
  pub cpu : Cgcpu
  pub mem : Cgmem
  pub dsk : Cgdsk
  pub cgname : List ℕ

-- `struct cgchainer`, less its two links: a chain is a list, and its pointers are positions.
-- The pid list has the length `nprocs`.
pub record Cgchainer : Type 0 where
  pub cstat : Cstat
  pub proclist : List ℕ
  pub vlinemask : ℕ
  pub stub : ℕ

-- ===== src/Task.antt =====
-- `struct tstat` of photoproc.h: what one sample holds of one task (a process or a thread).
-- The arrays reserved for future use are left out. A C string is the list of its bytes before the
-- NUL. Identifications and thread counts are numbers; what can be negative is an integer. `excode`
-- is its 32-bit pattern.
pub mod Equal
use atop.Prelude.{ℕ, Bool, false, List, []}
use atop.Prelude.Int.{ℤ, pos}

-- `struct gen`.
pub record Gen : Type 0 where
  pub tgid : ℕ
  pub pid : ℕ
  pub ppid : ℕ
  pub ruid : ℕ
  pub euid : ℕ
  pub suid : ℕ
  pub fsuid : ℕ
  pub rgid : ℕ
  pub egid : ℕ
  pub sgid : ℕ
  pub fsgid : ℕ
  pub nthr : ℕ
  pub name : List ℕ
  pub isproc : Bool
  pub state : ℕ
  pub excode : ℕ
  pub btime : ℕ
  pub elaps : ℕ
  pub cmdline : List ℕ
  pub nthrslpi : ℕ
  pub nthrslpu : ℕ
  pub nthrrun : ℕ
  pub nthridle : ℕ
  pub ctid : ℕ
  pub vpid : ℕ
  pub wasinactive : Bool
  pub utsname : List ℕ
  pub cgroupix : ℤ

-- `struct cpu`.
pub record Cpu : Type 0 where
  pub utime : ℤ
  pub stime : ℤ
  pub nice : ℤ
  pub prio : ℤ
  pub rtprio : ℤ
  pub policy : ℤ
  pub curcpu : ℤ
  pub sleepavg : ℤ
  pub wchan : List ℕ
  pub rundelay : ℤ
  pub blkdelay : ℤ
  pub nvcsw : ℤ
  pub nivcsw : ℤ

-- `struct dsk`.
pub record Dsk : Type 0 where
  pub rio : ℤ
  pub rsz : ℤ
  pub wio : ℤ
  pub wsz : ℤ
  pub cwsz : ℤ

-- `struct mem`.
pub record Mem : Type 0 where
  pub minflt : ℤ
  pub majflt : ℤ
  pub vexec : ℤ
  pub vmem : ℤ
  pub rmem : ℤ
  pub pmem : ℤ
  pub vgrow : ℤ
  pub rgrow : ℤ
  pub vdata : ℤ
  pub vstack : ℤ
  pub vlibs : ℤ
  pub vswap : ℤ
  pub vlock : ℤ
  pub oomscore : ℤ
  pub oomscoreadj : ℤ

-- `struct net`.
pub record Net : Type 0 where
  pub tcpsnd : ℤ
  pub tcpssz : ℤ
  pub tcprcv : ℤ
  pub tcprsz : ℤ
  pub udpsnd : ℤ
  pub udpssz : ℤ
  pub udprcv : ℤ
  pub udprsz : ℤ
  pub avail1 : ℤ
  pub avail2 : ℤ

-- `struct gpu`; `state` is 'A', 'E' or 0 for no use.
pub record Gpu : Type 0 where
  pub state : ℕ
  pub type : ℕ
  pub nrgpus : ℤ
  pub gpulist : ℕ
  pub gpubusycum : ℤ
  pub membusycum : ℤ
  pub memnow : ℤ
  pub memcum : ℤ
  pub samples : ℤ

pub record Tstat : Type 0 where
  pub gen : Gen
  pub cpu : Cpu
  pub dsk : Dsk
  pub mem : Mem
  pub net : Net
  pub gpu : Gpu

-- What `memset(..., 0, ...)` leaves.
abbrev pub zero_gen : Gen
zero_gen = record {
  tgid = 0;
  pid = 0;
  ppid = 0;
  ruid = 0;
  euid = 0;
  suid = 0;
  fsuid = 0;
  rgid = 0;
  egid = 0;
  sgid = 0;
  fsgid = 0;
  nthr = 0;
  name = [];
  isproc = false;
  state = 0;
  excode = 0;
  btime = 0;
  elaps = 0;
  cmdline = [];
  nthrslpi = 0;
  nthrslpu = 0;
  nthrrun = 0;
  nthridle = 0;
  ctid = 0;
  vpid = 0;
  wasinactive = false;
  utsname = [];
  cgroupix = pos 0;
}

abbrev pub zero_cpu : Cpu
zero_cpu = record {
  utime = pos 0;
  stime = pos 0;
  nice = pos 0;
  prio = pos 0;
  rtprio = pos 0;
  policy = pos 0;
  curcpu = pos 0;
  sleepavg = pos 0;
  wchan = [];
  rundelay = pos 0;
  blkdelay = pos 0;
  nvcsw = pos 0;
  nivcsw = pos 0;
}

abbrev pub zero_dsk : Dsk
zero_dsk = record { rio = pos 0; rsz = pos 0; wio = pos 0; wsz = pos 0; cwsz = pos 0 }

abbrev pub zero_mem : Mem
zero_mem = record {
  minflt = pos 0;
  majflt = pos 0;
  vexec = pos 0;
  vmem = pos 0;
  rmem = pos 0;
  pmem = pos 0;
  vgrow = pos 0;
  rgrow = pos 0;
  vdata = pos 0;
  vstack = pos 0;
  vlibs = pos 0;
  vswap = pos 0;
  vlock = pos 0;
  oomscore = pos 0;
  oomscoreadj = pos 0;
}

abbrev pub zero_net : Net
zero_net = record {
  tcpsnd = pos 0;
  tcpssz = pos 0;
  tcprcv = pos 0;
  tcprsz = pos 0;
  udpsnd = pos 0;
  udpssz = pos 0;
  udprcv = pos 0;
  udprsz = pos 0;
  avail1 = pos 0;
  avail2 = pos 0;
}

abbrev pub zero_gpu : Gpu
zero_gpu = record {
  state = 0;
  type = 0;
  nrgpus = pos 0;
  gpulist = 0;
  gpubusycum = pos 0;
  membusycum = pos 0;
  memnow = pos 0;
  memcum = pos 0;
  samples = pos 0;
}

abbrev pub zero_tstat : Tstat
zero_tstat = record {
  gen = zero_gen;
  cpu = zero_cpu;
  dsk = zero_dsk;
  mem = zero_mem;
  net = zero_net;
  gpu = zero_gpu;
}

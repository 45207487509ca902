-- ===== src/Deviate/Calc.antt =====
-- `calcdiff` of deviate.c: the deviations of one task between two samples. `devstat` is the memory
-- that the result is written to, with whatever it holds: what is not assigned stays as it was.
pub mod Laws
use atop.Prelude.{
  ℕ, ◌+◌, ◌%◌, ◌^◌, Bool, true, false, not, ◌&&◌, ◌||◌, List, [], ◌==◌, if◌then◌else◌,
}
use atop.Prelude.Int.{ℤ, pos, ◌-ℤ◌, leb_ℤ, ltb_ℤ, eqb_ℤ, minus_one}
use atop.Task.{Gen, Cpu, Dsk, Mem, Net, Gpu, Tstat, zero_tstat}
use atop.Text.{safe_strcpy}
use atop.Deviate.Count.{subcount}

-- `excode |= ~(INT_MAX)`: the mark of a new task, in bit 31 of the pattern.
unfoldable pub mark_new : ℕ → ℕ
mark_new excode = excode % 2 ^ 31 + 2 ^ 31

unfoldable pub calc_gen : Bool → Gen → Gen
unfolding mark_new
calc_gen newtask cur = if newtask then (record cur { excode = mark_new cur.excode }) else cur

-- The size of `wchan`.
abbrev pub wchan_size : ℕ
wchan_size = 16

unfoldable pub copy_wchan : List ℕ → List ℕ → List ℕ
unfolding safe_strcpy
copy_wchan dev [] = []
copy_wchan dev cur = safe_strcpy dev cur wchan_size

-- The values that are copied.
unfoldable pub static_cpu : Cpu → Cpu → Cpu
unfolding copy_wchan
static_cpu dev cur = record dev {
  nice = cur.nice;
  prio = cur.prio;
  rtprio = cur.rtprio;
  policy = cur.policy;
  curcpu = cur.curcpu;
  sleepavg = cur.sleepavg;
  wchan = copy_wchan dev.wchan cur.wchan;
}

unfoldable pub static_mem : Mem → Mem → Mem
static_mem dev cur = record dev {
  vexec = cur.vexec;
  vmem = cur.vmem;
  rmem = cur.rmem;
  pmem = cur.pmem;
  vdata = cur.vdata;
  vstack = cur.vstack;
  vlibs = cur.vlibs;
  vswap = cur.vswap;
  vlock = cur.vlock;
  oomscore = cur.oomscore;
  oomscoreadj = cur.oomscoreadj;
}

-- `if (state)`
abbrev pub in_use : ℕ → Bool
in_use state = not (state == 0)

unfoldable pub static_gpu : Gpu → Gpu → Gpu → Gpu
static_gpu dev cur pre =
    if in_use cur.state || in_use pre.state
    then (record dev {
      state = if in_use cur.state then cur.state else pre.state;
      type = cur.type;
      nrgpus = cur.nrgpus;
      gpulist = cur.gpulist;
      memnow = cur.memnow;
    })
    else (record dev { state = 0 })

-- `if (cur >= pre) subcount(cur, pre) else cur`
unfoldable pub since : ℤ → ℤ → ℤ
unfolding subcount
since cur pre = if leb_ℤ pre cur then subcount cur pre else cur

-- More ticks than the whole machine used are a counter gone back: they become 1.
unfoldable pub sane_ticks : ℤ → ℤ → ℤ
sane_ticks totusedcpu ticks = if ltb_ℤ totusedcpu ticks then pos 1 else ticks

-- The deviations of an active task.
unfoldable pub active_cpu : ℤ → Cpu → Cpu → Cpu → Cpu
unfolding since sane_ticks subcount
active_cpu totusedcpu dev cur pre = record dev {
  stime = sane_ticks totusedcpu (subcount cur.stime pre.stime);
  utime = sane_ticks totusedcpu (subcount cur.utime pre.utime);
  rundelay = subcount cur.rundelay pre.rundelay;
  blkdelay = subcount cur.blkdelay pre.blkdelay;
  nvcsw = since cur.nvcsw pre.nvcsw;
  nivcsw = since cur.nivcsw pre.nivcsw;
}

unfoldable pub active_dsk : Dsk → Dsk → Dsk
unfolding subcount
active_dsk cur pre = record {
  rio = subcount cur.rio pre.rio;
  rsz = subcount cur.rsz pre.rsz;
  wio = subcount cur.wio pre.wio;
  wsz = subcount cur.wsz pre.wsz;
  cwsz = subcount cur.cwsz pre.cwsz;
}

unfoldable pub active_mem : Mem → Mem → Mem → Mem
unfolding subcount ◌-ℤ◌
active_mem dev cur pre = record dev {
  vgrow = cur.vmem -ℤ pre.vmem;
  rgrow = cur.rmem -ℤ pre.rmem;
  minflt = subcount cur.minflt pre.minflt;
  majflt = subcount cur.majflt pre.majflt;
}

unfoldable pub active_net : Net → Net → Net → Net
unfolding since
active_net dev cur pre = record dev {
  tcpsnd = since cur.tcpsnd pre.tcpsnd;
  tcpssz = since cur.tcpssz pre.tcpssz;
  tcprcv = since cur.tcprcv pre.tcprcv;
  tcprsz = since cur.tcprsz pre.tcprsz;
  udpsnd = since cur.udpsnd pre.udpsnd;
  udpssz = since cur.udpssz pre.udpssz;
  udprcv = since cur.udprcv pre.udprcv;
  udprsz = since cur.udprsz pre.udprsz;
}

-- A busy percentage that is not available stays -1.
unfoldable pub busy_since : ℤ → ℤ → ℤ
unfolding ◌-ℤ◌
busy_since cur pre = if eqb_ℤ cur minus_one then minus_one else cur -ℤ pre

unfoldable pub active_gpu : Gpu → Gpu → Gpu → Gpu
unfolding busy_since ◌-ℤ◌
active_gpu dev cur pre =
    if in_use cur.state
    then (record dev {
      gpubusycum = busy_since cur.gpubusycum pre.gpubusycum;
      membusycum = busy_since cur.membusycum pre.membusycum;
      memcum = cur.memcum -ℤ pre.memcum;
      samples = cur.samples -ℤ pre.samples;
    })
    else dev

-- The static values, on memory that is cleared for an inactive task.
unfoldable pub calc_static : Tstat → Tstat → Tstat → Bool → Tstat
unfolding calc_gen static_cpu static_mem static_gpu
calc_static devstat cur pre newtask =
    let dev : Tstat = if cur.gen.wasinactive then zero_tstat else devstat in
    record dev {
      gen = calc_gen newtask cur.gen;
      cpu = static_cpu dev.cpu cur.cpu;
      mem = static_mem dev.mem cur.mem;
      gpu = static_gpu dev.gpu cur.gpu pre.gpu;
    }

-- The deviations, on top of the static values.
unfoldable pub calc_active : ℤ → Tstat → Tstat → Tstat → Tstat
unfolding active_cpu active_dsk active_mem active_net active_gpu
calc_active totusedcpu dev cur pre = record dev {
  cpu = active_cpu totusedcpu dev.cpu cur.cpu pre.cpu;
  dsk = active_dsk cur.dsk pre.dsk;
  mem = active_mem dev.mem cur.mem pre.mem;
  net = active_net dev.net cur.net pre.net;
  gpu = active_gpu dev.gpu cur.gpu pre.gpu;
}

-- `calcdiff`
unfoldable pub calcdiff : Tstat → Tstat → Tstat → Bool → ℤ → Tstat
unfolding calc_static calc_active
calcdiff devstat cur pre newtask totusedcpu =
    let dev = calc_static devstat cur pre newtask in
    if cur.gen.wasinactive then dev else calc_active totusedcpu dev cur pre

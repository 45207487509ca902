-- ===== src/Deviate/Calc/Laws.antt =====
-- What `calcdiff` gives for tasks that were active and for those that were not.
use atop.Prelude.{◌≡◌, ap, ◌⊎◌, Bool, true, false, arith, if◌then◌else◌}
use atop.Prelude.Int.{ℤ, pos, ◌+ℤ◌, ◌-ℤ◌, ◌≤ℤ◌, int_laws}
use atop.Task.{Tstat, zero_dsk, zero_net}
use atop.Deviate.Count.{subcount}
use atop.Deviate.Calc.{since, sane_ticks, calc_static, calc_active, calcdiff}

-- An active task has the static values and the deviations, an inactive one the static values only.
calcdiff_idle :
    (devstat cur pre : Tstat) (newtask : Bool) (totusedcpu : ℤ)
    → cur.gen.wasinactive ≡ true
    → calcdiff devstat cur pre newtask totusedcpu ≡ calc_static devstat cur pre newtask
unfolding calcdiff
calcdiff_idle devstat cur pre newtask totusedcpu h =
    ap
      (λ b.
        if b
        then calc_static devstat cur pre newtask
        else calc_active totusedcpu (calc_static devstat cur pre newtask) cur pre)
      h

calcdiff_busy :
    (devstat cur pre : Tstat) (newtask : Bool) (totusedcpu : ℤ)
    → cur.gen.wasinactive ≡ false
    → calcdiff devstat cur pre newtask totusedcpu
      ≡ calc_active totusedcpu (calc_static devstat cur pre newtask) cur pre
unfolding calcdiff
calcdiff_busy devstat cur pre newtask totusedcpu h =
    ap
      (λ b.
        if b
        then calc_static devstat cur pre newtask
        else calc_active totusedcpu (calc_static devstat cur pre newtask) cur pre)
      h

-- What `calcdiff` makes of a task without activity: no counter of the previous contents is left.
pub record IsIdle (cur dev : Tstat) : Type 0 where
  pub gen : dev.gen ≡ cur.gen
  pub utime : dev.cpu.utime ≡ pos 0
  pub stime : dev.cpu.stime ≡ pos 0
  pub rundelay : dev.cpu.rundelay ≡ pos 0
  pub blkdelay : dev.cpu.blkdelay ≡ pos 0
  pub nvcsw : dev.cpu.nvcsw ≡ pos 0
  pub nivcsw : dev.cpu.nivcsw ≡ pos 0
  pub dsk : dev.dsk ≡ zero_dsk
  pub net : dev.net ≡ zero_net
  pub minflt : dev.mem.minflt ≡ pos 0
  pub majflt : dev.mem.majflt ≡ pos 0
  pub vgrow : dev.mem.vgrow ≡ pos 0
  pub rgrow : dev.mem.rgrow ≡ pos 0
  pub rmem : dev.mem.rmem ≡ cur.mem.rmem
  pub vmem : dev.mem.vmem ≡ cur.mem.vmem
  pub curcpu : dev.cpu.curcpu ≡ cur.cpu.curcpu
  pub gpubusycum : dev.gpu.gpubusycum ≡ pos 0
  pub memcum : dev.gpu.memcum ≡ pos 0

-- For a known task without activity `calcdiff` keeps the identification and the sizes of the current
-- sample and sets every counter to zero, whatever the memory for the result held.
calcdiff-IsIdle :
    (devstat cur pre : Tstat) (totusedcpu : ℤ)
    → cur.gen.wasinactive ≡ true
    → IsIdle cur (calcdiff devstat cur pre false totusedcpu)
unfolding calc_static
calcdiff-IsIdle devstat cur pre totusedcpu h =
    rw (calcdiff_idle devstat cur pre false totusedcpu h) (ground arith)

-- A counter that exists and has not gone back.
abbrev pub Grew : ℤ → ℤ → Type 0
Grew old new = (pos 0 ≤ℤ old) × (old ≤ℤ new)

pub subcount_adds : (o n : ℤ) → Grew o n → o +ℤ subcount n o ≡ n
unfolding subcount ◌+ℤ◌ ◌-ℤ◌
subcount_adds o n h = ground arith

since_adds : (o n : ℤ) → Grew o n → o +ℤ since n o ≡ n
unfolding since ◌+ℤ◌ ◌-ℤ◌
since_adds o n h = ground arith

ticks_add : (o n used : ℤ) → Grew o n → n ≤ℤ o +ℤ used → o +ℤ sane_ticks used (subcount n o) ≡ n
unfolding subcount sane_ticks ◌+ℤ◌ ◌-ℤ◌
ticks_add o n used h k = ground arith

-- Every counter of the task has grown, and its processor time by no more than the machine used.
pub record HasGrown (pre cur : Tstat) (totusedcpu : ℤ) : Type 0 where
  pub utime : Grew pre.cpu.utime cur.cpu.utime
  pub stime : Grew pre.cpu.stime cur.cpu.stime
  pub rundelay : Grew pre.cpu.rundelay cur.cpu.rundelay
  pub blkdelay : Grew pre.cpu.blkdelay cur.cpu.blkdelay
  pub nvcsw : Grew pre.cpu.nvcsw cur.cpu.nvcsw
  pub nivcsw : Grew pre.cpu.nivcsw cur.cpu.nivcsw
  pub rio : Grew pre.dsk.rio cur.dsk.rio
  pub rsz : Grew pre.dsk.rsz cur.dsk.rsz
  pub wio : Grew pre.dsk.wio cur.dsk.wio
  pub wsz : Grew pre.dsk.wsz cur.dsk.wsz
  pub cwsz : Grew pre.dsk.cwsz cur.dsk.cwsz
  pub minflt : Grew pre.mem.minflt cur.mem.minflt
  pub majflt : Grew pre.mem.majflt cur.mem.majflt
  pub tcpsnd : Grew pre.net.tcpsnd cur.net.tcpsnd
  pub tcpssz : Grew pre.net.tcpssz cur.net.tcpssz
  pub tcprcv : Grew pre.net.tcprcv cur.net.tcprcv
  pub tcprsz : Grew pre.net.tcprsz cur.net.tcprsz
  pub udpsnd : Grew pre.net.udpsnd cur.net.udpsnd
  pub udpssz : Grew pre.net.udpssz cur.net.udpssz
  pub udprcv : Grew pre.net.udprcv cur.net.udprcv
  pub udprsz : Grew pre.net.udprsz cur.net.udprsz
  pub user_ticks : cur.cpu.utime ≤ℤ pre.cpu.utime +ℤ totusedcpu
  pub system_ticks : cur.cpu.stime ≤ℤ pre.cpu.stime +ℤ totusedcpu

-- Previous value and deviation make up the current value.
pub record AddsUp (pre dev cur : Tstat) : Type 0 where
  pub utime : pre.cpu.utime +ℤ dev.cpu.utime ≡ cur.cpu.utime
  pub stime : pre.cpu.stime +ℤ dev.cpu.stime ≡ cur.cpu.stime
  pub rundelay : pre.cpu.rundelay +ℤ dev.cpu.rundelay ≡ cur.cpu.rundelay
  pub blkdelay : pre.cpu.blkdelay +ℤ dev.cpu.blkdelay ≡ cur.cpu.blkdelay
  pub nvcsw : pre.cpu.nvcsw +ℤ dev.cpu.nvcsw ≡ cur.cpu.nvcsw
  pub nivcsw : pre.cpu.nivcsw +ℤ dev.cpu.nivcsw ≡ cur.cpu.nivcsw
  pub rio : pre.dsk.rio +ℤ dev.dsk.rio ≡ cur.dsk.rio
  pub rsz : pre.dsk.rsz +ℤ dev.dsk.rsz ≡ cur.dsk.rsz
  pub wio : pre.dsk.wio +ℤ dev.dsk.wio ≡ cur.dsk.wio
  pub wsz : pre.dsk.wsz +ℤ dev.dsk.wsz ≡ cur.dsk.wsz
  pub cwsz : pre.dsk.cwsz +ℤ dev.dsk.cwsz ≡ cur.dsk.cwsz
  pub minflt : pre.mem.minflt +ℤ dev.mem.minflt ≡ cur.mem.minflt
  pub majflt : pre.mem.majflt +ℤ dev.mem.majflt ≡ cur.mem.majflt
  pub tcpsnd : pre.net.tcpsnd +ℤ dev.net.tcpsnd ≡ cur.net.tcpsnd
  pub tcpssz : pre.net.tcpssz +ℤ dev.net.tcpssz ≡ cur.net.tcpssz
  pub tcprcv : pre.net.tcprcv +ℤ dev.net.tcprcv ≡ cur.net.tcprcv
  pub tcprsz : pre.net.tcprsz +ℤ dev.net.tcprsz ≡ cur.net.tcprsz
  pub udpsnd : pre.net.udpsnd +ℤ dev.net.udpsnd ≡ cur.net.udpsnd
  pub udpssz : pre.net.udpssz +ℤ dev.net.udpssz ≡ cur.net.udpssz
  pub udprcv : pre.net.udprcv +ℤ dev.net.udprcv ≡ cur.net.udprcv
  pub udprsz : pre.net.udprsz +ℤ dev.net.udprsz ≡ cur.net.udprsz
  pub vgrow : pre.mem.vmem +ℤ dev.mem.vgrow ≡ cur.mem.vmem
  pub rgrow : pre.mem.rmem +ℤ dev.mem.rgrow ≡ cur.mem.rmem

sizes_add : (o n : ℤ) → o +ℤ (n -ℤ o) ≡ n
sizes_add o n = omega int_laws

-- For an active task whose counters have grown, by no more ticks than the machine used, the
-- deviations of `calcdiff` added to the previous sample give the current one, in every counter of
-- the processor, the disk, the page faults and the network, and in both memory sizes.
pub calcdiff-AddsUp :
    (devstat cur pre : Tstat) (newtask : Bool) (totusedcpu : ℤ)
    → cur.gen.wasinactive ≡ false
    → HasGrown pre cur totusedcpu
    → AddsUp pre (calcdiff devstat cur pre newtask totusedcpu) cur
unfolding calc_active
calcdiff-AddsUp devstat cur pre newtask totusedcpu h g =
    rw (calcdiff_busy devstat cur pre newtask totusedcpu h) (record {
      utime = ticks_add pre.cpu.utime cur.cpu.utime totusedcpu g.utime g.user_ticks;
      stime = ticks_add pre.cpu.stime cur.cpu.stime totusedcpu g.stime g.system_ticks;
      rundelay = subcount_adds pre.cpu.rundelay cur.cpu.rundelay g.rundelay;
      blkdelay = subcount_adds pre.cpu.blkdelay cur.cpu.blkdelay g.blkdelay;
      nvcsw = since_adds pre.cpu.nvcsw cur.cpu.nvcsw g.nvcsw;
      nivcsw = since_adds pre.cpu.nivcsw cur.cpu.nivcsw g.nivcsw;
      rio = subcount_adds pre.dsk.rio cur.dsk.rio g.rio;
      rsz = subcount_adds pre.dsk.rsz cur.dsk.rsz g.rsz;
      wio = subcount_adds pre.dsk.wio cur.dsk.wio g.wio;
      wsz = subcount_adds pre.dsk.wsz cur.dsk.wsz g.wsz;
      cwsz = subcount_adds pre.dsk.cwsz cur.dsk.cwsz g.cwsz;
      minflt = subcount_adds pre.mem.minflt cur.mem.minflt g.minflt;
      majflt = subcount_adds pre.mem.majflt cur.mem.majflt g.majflt;
      tcpsnd = since_adds pre.net.tcpsnd cur.net.tcpsnd g.tcpsnd;
      tcpssz = since_adds pre.net.tcpssz cur.net.tcpssz g.tcpssz;
      tcprcv = since_adds pre.net.tcprcv cur.net.tcprcv g.tcprcv;
      tcprsz = since_adds pre.net.tcprsz cur.net.tcprsz g.tcprsz;
      udpsnd = since_adds pre.net.udpsnd cur.net.udpsnd g.udpsnd;
      udpssz = since_adds pre.net.udpssz cur.net.udpssz g.udpssz;
      udprcv = since_adds pre.net.udprcv cur.net.udprcv g.udprcv;
      udprsz = since_adds pre.net.udprsz cur.net.udprsz g.udprsz;
      vgrow = sizes_add pre.mem.vmem cur.mem.vmem;
      rgrow = sizes_add pre.mem.rmem cur.mem.rmem;
    })

ticks_bound : (used ticks : ℤ) → (sane_ticks used ticks ≤ℤ used) ⊎ (sane_ticks used ticks ≡ pos 1)
unfolding sane_ticks
ticks_bound used ticks = ground arith

since_nonneg : (n o : ℤ) → pos 0 ≤ℤ n → pos 0 ≤ℤ since n o
unfolding since subcount ◌-ℤ◌
since_nonneg n o h = ground arith

-- The current sample has readings of the context switches and of the network traffic.
pub record HasReadings (cur : Tstat) : Type 0 where
  pub nvcsw : pos 0 ≤ℤ cur.cpu.nvcsw
  pub nivcsw : pos 0 ≤ℤ cur.cpu.nivcsw
  pub tcpsnd : pos 0 ≤ℤ cur.net.tcpsnd
  pub tcpssz : pos 0 ≤ℤ cur.net.tcpssz
  pub tcprcv : pos 0 ≤ℤ cur.net.tcprcv
  pub tcprsz : pos 0 ≤ℤ cur.net.tcprsz
  pub udpsnd : pos 0 ≤ℤ cur.net.udpsnd
  pub udpssz : pos 0 ≤ℤ cur.net.udpssz
  pub udprcv : pos 0 ≤ℤ cur.net.udprcv
  pub udprsz : pos 0 ≤ℤ cur.net.udprsz

-- What holds of an active task also where counters have gone back.
pub record IsSane (dev : Tstat) (totusedcpu : ℤ) : Type 0 where
  pub utime : (dev.cpu.utime ≤ℤ totusedcpu) ⊎ (dev.cpu.utime ≡ pos 1)
  pub stime : (dev.cpu.stime ≤ℤ totusedcpu) ⊎ (dev.cpu.stime ≡ pos 1)
  pub nvcsw : pos 0 ≤ℤ dev.cpu.nvcsw
  pub nivcsw : pos 0 ≤ℤ dev.cpu.nivcsw
  pub tcpsnd : pos 0 ≤ℤ dev.net.tcpsnd
  pub tcpssz : pos 0 ≤ℤ dev.net.tcpssz
  pub tcprcv : pos 0 ≤ℤ dev.net.tcprcv
  pub tcprsz : pos 0 ≤ℤ dev.net.tcprsz
  pub udpsnd : pos 0 ≤ℤ dev.net.udpsnd
  pub udpssz : pos 0 ≤ℤ dev.net.udpssz
  pub udprcv : pos 0 ≤ℤ dev.net.udprcv
  pub udprsz : pos 0 ≤ℤ dev.net.udprsz

-- Whatever the previous sample holds, the processor time of an active task comes out as at most the
-- time that the machine used, or else as 1 tick; and where the current readings of the context
-- switches and of the network traffic are not negative, their deviations are not negative.
pub calcdiff-IsSane :
    (devstat cur pre : Tstat) (newtask : Bool) (totusedcpu : ℤ)
    → cur.gen.wasinactive ≡ false
    → HasReadings cur
    → IsSane (calcdiff devstat cur pre newtask totusedcpu) totusedcpu
unfolding calc_active
calcdiff-IsSane devstat cur pre newtask totusedcpu h r =
    rw (calcdiff_busy devstat cur pre newtask totusedcpu h) (record {
      utime = ticks_bound totusedcpu (subcount cur.cpu.utime pre.cpu.utime);
      stime = ticks_bound totusedcpu (subcount cur.cpu.stime pre.cpu.stime);
      nvcsw = since_nonneg cur.cpu.nvcsw pre.cpu.nvcsw r.nvcsw;
      nivcsw = since_nonneg cur.cpu.nivcsw pre.cpu.nivcsw r.nivcsw;
      tcpsnd = since_nonneg cur.net.tcpsnd pre.net.tcpsnd r.tcpsnd;
      tcpssz = since_nonneg cur.net.tcpssz pre.net.tcpssz r.tcpssz;
      tcprcv = since_nonneg cur.net.tcprcv pre.net.tcprcv r.tcprcv;
      tcprsz = since_nonneg cur.net.tcprsz pre.net.tcprsz r.tcprsz;
      udpsnd = since_nonneg cur.net.udpsnd pre.net.udpsnd r.udpsnd;
      udpssz = since_nonneg cur.net.udpssz pre.net.udpssz r.udpssz;
      udprcv = since_nonneg cur.net.udprcv pre.net.udprcv r.udprcv;
      udprsz = since_nonneg cur.net.udprsz pre.net.udprsz r.udprsz;
    })

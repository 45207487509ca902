-- ===== src/System/Memory.antt =====
-- The memory counters: `deviatsyst` and `totalsyst` of deviate.c on `struct memstat`.
pub mod Laws
mod Tests
use atop.Prelude.{if◌then◌else◌}
use atop.Prelude.Int.{ℤ, pos, ◌+ℤ◌, eqb_ℤ, minus_one}
use atop.Deviate.Count.{subcount}

-- `struct memstat`; what is reserved for future use is left out.
pub record Memstat : Type 0 where
  pub physmem : ℤ
  pub freemem : ℤ
  pub buffermem : ℤ
  pub slabmem : ℤ
  pub cachemem : ℤ
  pub cachedrt : ℤ
  pub totswap : ℤ
  pub freeswap : ℤ
  pub pgscans : ℤ
  pub pgsteal : ℤ
  pub allocstall : ℤ
  pub swouts : ℤ
  pub swins : ℤ
  pub tcpsock : ℤ
  pub udpsock : ℤ
  pub commitlim : ℤ
  pub committed : ℤ
  pub shmem : ℤ
  pub shmrss : ℤ
  pub shmswp : ℤ
  pub slabreclaim : ℤ
  pub stothugepage : ℤ
  pub sfreehugepage : ℤ
  pub shugepagesz : ℤ
  pub vmwballoon : ℤ
  pub zfsarcsize : ℤ
  pub swapcached : ℤ
  pub ksmsharing : ℤ
  pub ksmshared : ℤ
  pub zswapped : ℤ
  pub zswap : ℤ
  pub oomkills : ℤ
  pub compactstall : ℤ
  pub pgmigrate : ℤ
  pub numamigrate : ℤ
  pub pgouts : ℤ
  pub pgins : ℤ
  pub pagetables : ℤ
  pub zswouts : ℤ
  pub zswins : ℤ
  pub ltothugepage : ℤ
  pub lfreehugepage : ℤ
  pub lhugepagesz : ℤ
  pub availablemem : ℤ
  pub anonhugepage : ℤ
  pub lowwatermark : ℤ

abbrev pub zero_memstat : Memstat
zero_memstat = record {
  physmem = pos 0;
  freemem = pos 0;
  buffermem = pos 0;
  slabmem = pos 0;
  cachemem = pos 0;
  cachedrt = pos 0;
  totswap = pos 0;
  freeswap = pos 0;
  pgscans = pos 0;
  pgsteal = pos 0;
  allocstall = pos 0;
  swouts = pos 0;
  swins = pos 0;
  tcpsock = pos 0;
  udpsock = pos 0;
  commitlim = pos 0;
  committed = pos 0;
  shmem = pos 0;
  shmrss = pos 0;
  shmswp = pos 0;
  slabreclaim = pos 0;
  stothugepage = pos 0;
  sfreehugepage = pos 0;
  shugepagesz = pos 0;
  vmwballoon = pos 0;
  zfsarcsize = pos 0;
  swapcached = pos 0;
  ksmsharing = pos 0;
  ksmshared = pos 0;
  zswapped = pos 0;
  zswap = pos 0;
  oomkills = pos 0;
  compactstall = pos 0;
  pgmigrate = pos 0;
  numamigrate = pos 0;
  pgouts = pos 0;
  pgins = pos 0;
  pagetables = pos 0;
  zswouts = pos 0;
  zswins = pos 0;
  ltothugepage = pos 0;
  lfreehugepage = pos 0;
  lhugepagesz = pos 0;
  availablemem = pos 0;
  anonhugepage = pos 0;
  lowwatermark = pos 0;
}

-- `deviatsyst`: sizes are copied, events are counted from the previous sample on.
unfoldable pub mem_diff : Memstat → Memstat → Memstat
unfolding subcount
mem_diff cur pre = record {
  physmem = cur.physmem;
  freemem = cur.freemem;
  buffermem = cur.buffermem;
  slabmem = cur.slabmem;
  cachemem = cur.cachemem;
  cachedrt = cur.cachedrt;
  totswap = cur.totswap;
  freeswap = cur.freeswap;
  pgscans = subcount cur.pgscans pre.pgscans;
  pgsteal = subcount cur.pgsteal pre.pgsteal;
  allocstall = subcount cur.allocstall pre.allocstall;
  swouts = subcount cur.swouts pre.swouts;
  swins = subcount cur.swins pre.swins;
  tcpsock = cur.tcpsock;
  udpsock = cur.udpsock;
  commitlim = cur.commitlim;
  committed = cur.committed;
  shmem = cur.shmem;
  shmrss = cur.shmrss;
  shmswp = cur.shmswp;
  slabreclaim = cur.slabreclaim;
  stothugepage = cur.stothugepage;
  sfreehugepage = cur.sfreehugepage;
  shugepagesz = cur.shugepagesz;
  vmwballoon = cur.vmwballoon;
  zfsarcsize = cur.zfsarcsize;
  swapcached = cur.swapcached;
  ksmsharing = cur.ksmsharing;
  ksmshared = cur.ksmshared;
  zswapped = cur.zswapped;
  zswap = cur.zswap;
  oomkills = if eqb_ℤ cur.oomkills minus_one then minus_one else subcount cur.oomkills pre.oomkills;
  compactstall = subcount cur.compactstall pre.compactstall;
  pgmigrate = subcount cur.pgmigrate pre.pgmigrate;
  numamigrate = subcount cur.numamigrate pre.numamigrate;
  pgouts = subcount cur.pgouts pre.pgouts;
  pgins = subcount cur.pgins pre.pgins;
  pagetables = cur.pagetables;
  zswouts = subcount cur.zswouts pre.zswouts;
  zswins = subcount cur.zswins pre.zswins;
  ltothugepage = cur.ltothugepage;
  lfreehugepage = cur.lfreehugepage;
  lhugepagesz = cur.lhugepagesz;
  availablemem = cur.availablemem;
  anonhugepage = cur.anonhugepage;
  lowwatermark = cur.lowwatermark;
}

-- `totalsyst`, category 'm'.
unfoldable pub total_mem : Memstat → Memstat → Memstat
unfolding ◌+ℤ◌
total_mem new tot = record tot {
  physmem = new.physmem;
  freemem = new.freemem;
  buffermem = new.buffermem;
  slabmem = new.slabmem;
  slabreclaim = new.slabreclaim;
  committed = new.committed;
  commitlim = new.commitlim;
  cachemem = new.cachemem;
  cachedrt = new.cachedrt;
  totswap = new.totswap;
  freeswap = new.freeswap;
  swapcached = new.swapcached;
  pagetables = new.pagetables;
  zswap = new.zswap;
  zswapped = new.zswapped;
  shmem = new.shmem;
  shmrss = new.shmrss;
  shmswp = new.shmswp;
  tcpsock = new.tcpsock;
  udpsock = new.udpsock;
  pgouts = tot.pgouts +ℤ new.pgouts;
  pgins = tot.pgins +ℤ new.pgins;
  swouts = tot.swouts +ℤ new.swouts;
  swins = tot.swins +ℤ new.swins;
  zswouts = tot.zswouts +ℤ new.zswouts;
  zswins = tot.zswins +ℤ new.zswins;
  pgscans = tot.pgscans +ℤ new.pgscans;
  allocstall = tot.allocstall +ℤ new.allocstall;
  compactstall = tot.compactstall +ℤ new.compactstall;
}

-- ===== src/Lib.antt =====
-- atop: the process database, the deviations of the counters, process accounting and control
-- groups.
--
-- atop takes a sample of all counters of the system and of its tasks at every interval, and shows
-- what happened in between: the deviation of every counter from the previous sample. The system
-- counters are subtracted from those of the previous sample; the tasks are looked up by pid in a
-- database of the previous samples, which drops those that are gone.
-- - Prelude: Boolean tests, integers and lists over the native numbers.
-- - Task: `struct tstat` of photoproc.h, the counters of one task.
-- - Text: functions of various.c on strings; Text.Durations: durations as text, where `%d` prints
--   at most 20 digits, enough for 64 bits; Text.Values: `val2valstr`, whose loop divides at most
--   19 times, enough for 64 bits, and of which only widths up to 15 places are modelled, where
--   `pow(10.0, width) - 1` is exact.
-- - Acct: `acctexp` of acctproc.c.
-- - Acct.Reader: the client of atopacctd in acctproc.c. The loop of `acctphotoproc` runs on fuel,
--   because a round that reads nothing does not count; as many rounds as there are records are
--   enough. Its read locks are granted, and `filled` starts at 0; a file that is removed while it
--   is open keeps its records. Acct.Reader.Runs: the daemon and a client together.
-- - Acctd: atopacctd.c, the daemon that copies accounting records to numbered shadow files. Sizes
--   count records instead of bytes; the descriptor of the current file goes with its number, and
--   writes succeed unless the file system is full. The loop of `gcshadows` runs on fuel, one round
--   for each file up to the current one.
-- - ProcDb: procdbase.c, the database. `phash` is a function from bucket numbers to chains, a
--   chain is the list of the addresses of its entries, and so is the RESIDUE list; `heap` gives
--   the entry at an address, or none where nothing is allocated. An operation returns none where
--   the C code would follow an invalid pointer. The loop of `pdb_cleanresidue` runs on fuel, the
--   length of the RESIDUE list plus one.
-- - Deviate.Count: `subcount` of deviate.c. Deviate.Calc: `calcdiff`. Deviate.Tasks: `deviattask`,
--   the loop over the present tasks; Deviate.Tasks.Exits: the loop over the exited processes;
--   Deviate.Tasks.Run: the whole function.
-- - Ifprop: ifprop.c, the table of the properties of the network interfaces: its refresh, from the
--   names in /proc/net/dev and /sys/devices/virtual/net and the answers of the kernel, which are
--   parameters, and the lookup. When the table is refreshed, and that files may not open, is left
--   out.
-- - Cgroups: cgroups.c, the control groups. A chain is the list of its groups and an array is the
--   same, so that the sequence number is the position; writes outside an allocated area give none.
--   Cgroups.Walk: `walkcgroup` over a tree of directories, whose files and disappearances are data
--   and whose way back (`chdir("..")`) is taken to succeed; what `getconfig` and `getmetrics` read
--   is part of a directory. The unsigned long that it returns is an integer, as what is added up
--   is stored in an int. Cgroups.Hash: the name hash and its lists; Cgroups.Deviate:
--   `cgcalcdeviate`; Cgroups.Path: `cggetpath`, where the loop over the parents runs on fuel, and
--   the depth of the group plus one is enough; Cgroups.Refs: `cgfillref`; Cgroups.Sample:
--   `photocgroup` and `deviatcgroup`, with the areas that it allocates; Cgroups.Sort: `cgsort`,
--   with the `qsort` of the C library as a parameter, where both recursions run on fuel, of which
--   more than twice the number of groups is enough; Cgroups.Mixed: `mergecgrouplist`.
-- - System: `deviatsyst` and `totalsyst` of deviate.c on the structures of photosyst.h.
--   System.Cpu: `struct cpustat`, and System.Cpu.Machine runs of samples; System.Memory: `struct
--   memstat`; System.Disks: the arrays of `struct perdsk` (disks, md devices and logical volumes),
--   System.Disks.Totals their totals; System.Interfaces: the array of `struct perintf`, with the
--   table of ifprop.c; System.Containers: `struct contstat`. System.Totals: what runs of samples
--   have in common. An array is the list of all its entries, and an index out of its range gives
--   none.
--
-- Counters (`count_t`) are integers: overflow of a signed 64-bit counter has no defined behaviour
-- in C. Pids and start times are numbers; `excode` is its pattern of 32 bits. The contents of
-- fresh memory are a parameter, and so is the lookup of the network counters of an exited process
-- in the netatop kernel module or BPF map (netatopif.c, netatopbpfif.c), of which the theorems ask
-- only that it fills in network counters.
--
-- Not modelled: how the counters are read from the kernel, the other system counters, how
-- accounting is switched on, the raw log, the files of control groups, the output.
pub mod Prelude
pub mod Task
pub mod Text
pub mod Acct
pub mod Acctd
pub mod ProcDb
pub mod Ifprop
pub mod Deviate
pub mod Cgroups
pub mod System

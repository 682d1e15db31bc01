-- ===== src/Lib.antt =====
-- A model of the file system test programs in incoming/, and what they guarantee.
--
-- The repository is a collection of separate programs. Each one here is a process, or a parent and
-- its children, that calls the kernel and decides by the answers what to do next; the programs do
-- not call each other. A file of this library, with the modules below it, models one program:
--
--   Fiemap       incoming/fiemap-test.c. Fiemap/Create is `generate_file_mapping` and
--                `create_file_from_mapping`; Fiemap/Flags, Fiemap/Data and Fiemap/Hole are
--                `check_flags`, `check_data`, and `check_hole` with `check_weird_fs_hole`;
--                Fiemap/Compare is `compare_fiemap_and_map`, which asks the kernel for a piece of
--                the file and gives the answer to the three checks; Fiemap/Main is `main`.
--                Fiemap/Create/File reads the log of the calls as the file that they make, and
--                Fiemap/Main/Truth is what a FIEMAP that tells the truth of that file answers.
--   Salsa        incoming/salsa_scrambler.c: the scrambler and the loop that writes its output.
--   Checksum     incoming/write-after-checksum.c. Checksum/Places is `get_randnum`,
--                `get_randnum_align` and the place of a write; Checksum/Loops is `write_junk`,
--                `mmap_junk` and the choice of the processes; Checksum/Main is `main`, its options,
--                and the processes side by side.
--   Synctest     incoming/synctest.c. Synctest/Child is `do_child` and what it calls;
--                Synctest/Parent has the loops of `doit`, Synctest/Main is `doit` and `main`. Parent and
--                child share only `child_status`; the children share the directories, and
--                Synctest/Together mixes their calls in any order. Synctest/Names is the text of
--                the names, which elsewhere are records of their numbers.
--   FileFlags    incoming/fileflags.c: the options, the new flags, and the loop over the files;
--                FileFlags/Table is the table `flags`.
--   CreatUnlink  incoming/creat_unlink.c: `initialize`, `create_files`, `unlink_files`, `cleanup`
--                and `main`; CreatUnlink/Left says which files are left, CreatUnlink/Time is
--                `account_time`.
--   Snapstorm    incoming/snapstorm.c: `t_worker` and `main` as a step relation, in which what happens
--                between a lock and its unlock is one step; Snapstorm/Gate is what it is for, and
--                Snapstorm/Snap is `do_snap` and the options.
--   Seekmark     incoming/seekmark.c. Seekmark/Options is `getargs` and the start of `main`,
--                Seekmark/Main is the rest of it, and Seekmark/Thread is `threadseek`,
--                `seekthenreadwrite` and `datafill`.
--   Sendgrep     incoming/sendgrep.c: the callbacks of `myops` and `main`.
--   InodeFlags   incoming/nocow.c and incoming/nocomp.c.
--   SlowRm       incoming/luto-slow-rm.c: `hammer` and `main`.
--   Syncperf     incoming/syncperf.c: the three loops, `crsyncdel` and `main`; Syncperf/Clock is its
--                clock and the report.
--   Snaptest     incoming/lxo-snaptest.cc: `main`, without -D options.
--   Seeker       incoming/seeker.c: `main` and the signal handler `done`.
--   SmallTools   incoming/clone_range.c, incoming/drop_caches.c and incoming/seektest.c.
--   Common       lists, machine words, signed numbers, Boolean tests and the loop over the options of
--                `getopt` that they share.
--   Bits         the single bits of a word, for the masks and flags of the programs.
--
-- A definition has the name of the function or of the loop that it stands for. Where a function
-- changes static or shared data, the model takes the old value and returns the new one. The calls
-- that a process makes are a list, and a call that fails ends the function as it does in the code.
--
-- Parameters. The kernel is a function from what was done so far, or from the arguments of the call,
-- to the answer; so are `malloc`, `random`, and the floating-point products in `get_randnum` and
-- `threadseek`, of which at most the documented ranges are assumed. The values of the flags in
-- linux/fs.h and linux/fiemap.h are parameters too, but for those that nocow.c and nocomp.c define
-- themselves. Theorems name what they assume of them, and a test module beside each program has an
-- instance. Where a theorem speaks of the file that fiemap-test.c makes or of the directories that
-- the children of synctest.c share, the calls have the effects that their manual pages give.
--
-- Numbers. Unsigned words wrap around as written (u32, u64). The `int` variables `cur_offset` of
-- fiemap-test.c and `len` of write-after-checksum.c keep 32 bits and are extended where they become 64. An `int` that only counts is a natural
-- number or a ℤ; a count below -2^31, which `runs--` reaches after 2^31 rounds, is not modelled.
-- `to_write *= 1.1` is n * 11 / 10: up to 250000 the product in `double` is exact enough that both
-- are cut off to the same `int`.
--
-- Loops that end with their list or counter recurse on it. The rounds of `compare_fiemap_and_map`
-- take fuel, and as much as the map has blocks is enough, since each round passes at least one of
-- them; a thread of seekmark.c has enough with one more than `seeks`, and `main` of syncperf.c with 2.
-- The endless loops of write-after-checksum.c, luto-slow-rm.c, seekmark.c with -e, and of `main` in
-- fiemap-test.c run for as many rounds as the fuel says, and the theorems hold for every fuel; with
-- -r n the latter has enough when n of the rounds draw a block, and with -m one round is enough. In Synctest the parent runs along
-- the list of what `wait3` and its children do, and in Seeker the program runs along its rounds and
-- signals.
--
-- Libraries. The reader of send streams in sendgrep.c is the list of the commands for which it calls
-- back, and leveldb in lxo-snaptest.cc is what `Append` answers and leaves in the file.
--
-- Not modelled: printing, but for the report of syncperf.c and the lines of fileflags.c and
-- fiemap-test.c; `usage`; the measuring of time, but for syncperf.c and creat_unlink.c; the scripts
-- in Shell, Perl and Python, the recorded data and the benchmark profiles.
pub mod Common
pub mod Bits
pub mod Fiemap
pub mod Salsa
pub mod Checksum
pub mod Synctest
pub mod FileFlags
pub mod CreatUnlink
pub mod Snapstorm
pub mod Seekmark
pub mod Sendgrep
pub mod InodeFlags
pub mod SlowRm
pub mod Syncperf
pub mod Snaptest
pub mod Seeker
pub mod SmallTools

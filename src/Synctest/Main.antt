-- ===== src/Synctest/Main.antt =====
-- `main` of synctest.c: the options, and `doit` from the mapping to the removal of the directories.
use testunion.Common.{
  ℕ, zero, suc, ◌+◌, ◌-◌, ◌*◌, ◌%◌, ◌^◌, List, [], Bool, true, false, not, if◌then◌else◌, ◌==◌, ltb,
  Option, none, some, ℤ, pos, negsuc, word64, u64,
}
use testunion.Common.Options.{Text, Opt, fold_options}
use testunion.Synctest.Child.{Call, Run, Settings, first_child, iterations}
use testunion.Synctest.Parent.{
  Action, start_from, remove_dirs, first_parent, Event, finished, waiting, failed, wait_loop,
}

-- The globals that the options set, those of `++` with their count.
pub record Options : Type 0 where
  pub use_fsync : ℕ
  pub fsync_dir : ℕ
  pub use_osync : ℕ
  pub do_unlink : ℕ
  pub verbose : ℕ
  pub n_iters : ℤ
  pub threads_per_dir : ℤ
  pub n_threads : ℤ

abbrev pub defaults : Options
defaults = record {
  use_fsync = 0;
  fsync_dir = 0;
  use_osync = 0;
  do_unlink = 0;
  verbose = 0;
  n_iters = pos 100;
  threads_per_dir = pos 1;
  n_threads = pos 1;
}

-- A `long` in an `int`.
unfoldable pub to_int : ℤ → ℤ
to_int z = let w = word64 z % 2 ^ 32 in if ltb w (2 ^ 31) then pos w else negsuc (2 ^ 32 - 1 - w)

module _ (strtol : Text → ℤ) where
  unfoldable pub set_option : Options → Opt → Option Options
  set_option s o =
      if o.letter == b'f'
      then some (record s { use_fsync = s.use_fsync + 1 })
      else if o.letter == b'F'
      then some (record s { fsync_dir = s.fsync_dir + 1 })
      else if o.letter == b'n'
      then some (record s { n_iters = to_int (strtol o.optarg) })
      else if o.letter == b'o'
      then some (record s { use_osync = s.use_osync + 1 })
      else if o.letter == b'p'
      then some (record s { threads_per_dir = to_int (strtol o.optarg) })
      else if o.letter == b't'
      then some (record s { n_threads = to_int (strtol o.optarg) })
      else if o.letter == b'u'
      then some (record s { do_unlink = s.do_unlink + 1 })
      else if o.letter == b'v'
      then some (record s { verbose = s.verbose + 1 })
      else some s

-- What a child in directory `thread_group` reads of the options, and the child itself, from the fork
-- to its `exit`. A negative number of iterations is none.
unfoldable pub child_settings : Options → ℕ → ℕ → Settings
child_settings o thread_group pid = record {
  use_fsync = not (o.use_fsync == 0);
  use_osync = not (o.use_osync == 0);
  fsync_parent = not (o.fsync_dir == 0);
  do_unlink = not (o.do_unlink == 0);
  thread_group = thread_group;
  pid = pid;
}

unfoldable pub iter_count : ℤ → ℕ
iter_count (pos n) = n
iter_count (negsuc n) = 0

unfoldable pub run_child : (List Call → Call → Bool) → Options → ℕ → ℕ → Run
run_child kernel o thread_group pid =
    iterations kernel (child_settings o thread_group pid) (iter_count o.n_iters) first_child

-- How the parent ends: with a status, by a signal, or not, since it still waits.
pub data Ending : Type 0 where
  exits : ℕ → Ending
  killed still_waits : Ending

-- What the parent does before it waits and afterwards, and its ending.
pub record Done : Type 0 where
  pub started : List Action
  pub removed : List Action
  pub ending : Ending

-- Nothing is removed.
abbrev pub stopped : List Action → Ending → Done
stopped started ending = record { started = started; removed = []; ending = ending }

-- Whether the loop of `start_from` comes to its end: each `mkdir` that it reaches succeeds.
unfoldable pub starts_all : ℕ → (ℕ → Bool) → ℕ → ℕ → ℕ → Bool
starts_all threads_per_dir mkdir this_child_index groups zero = true
starts_all threads_per_dir mkdir this_child_index groups (suc left) =
    let in_new = starts_all threads_per_dir mkdir (this_child_index + 1) (groups + 1) left in
    let in_old = starts_all threads_per_dir mkdir (this_child_index + 1) groups left in
    if this_child_index % threads_per_dir == 0
    then (if mkdir groups then in_new else false)
    else in_old

-- The loop that removes the directories, for a divisor that is not 0.
abbrev pub remove_for : ℕ → ℤ → List Action
remove_for n_threads (pos t) = remove_dirs n_threads t
remove_for n_threads (negsuc t) = []

-- From the loop that waits on.
unfoldable pub wait_and_remove : List Event → List Action → ℕ → ℤ → Done
wait_and_remove events started n_threads threads_per_dir =
    elim (wait_loop events (first_parent n_threads)) [
      | finished p ↦ record {
        started = started;
        removed = remove_for n_threads threads_per_dir;
        ending = exits 0;
      }
      | waiting p ↦ stopped started still_waits
      | failed p ↦ stopped started (exits 1)
    ]

module _ (mmap : ℕ → Bool) (mkdir : ℕ → Bool) (events : List Event) where
  -- After the mapping. A division by 0 is a signal. The rest of a division by a negative number is that
  -- by its opposite.
  unfoldable pub start_and_wait : ℕ → ℤ → Done
  start_and_wait n_threads (pos zero) = stopped [] killed
  start_and_wait n_threads (pos (suc t)) =
      let started = start_from (suc t) mkdir 0 0 n_threads in
      if starts_all (suc t) mkdir 0 0 n_threads
      then wait_and_remove events started n_threads (pos (suc t))
      else stopped started (exits 1)
  start_and_wait n_threads (negsuc t) =
      let started = start_from (t + 1) mkdir 0 0 n_threads in
      if starts_all (t + 1) mkdir 0 0 n_threads
      then wait_and_remove events started n_threads (negsuc t)
      else stopped started (exits 1)

  -- `mmap` is asked for `n_threads * sizeof(int)` bytes. A negative number of threads makes nearly 2^64
  -- of them, over which `memset` cannot go.
  unfoldable pub doit : ℤ → ℤ → Done
  doit n_threads threads_per_dir =
      if not (mmap (u64 (word64 n_threads * 4))) then stopped [] (exits 1) else elim n_threads [
        | pos n ↦ start_and_wait n threads_per_dir
        | negsuc n ↦ stopped [] killed
      ]

  -- `left` arguments follow the options.
  unfoldable pub main : (Text → ℤ) → List Opt → ℕ → Done
  main strtol opts left = elim (fold_options (set_option strtol) opts defaults) [
    | none ↦ stopped [] (exits 1)
    | some o ↦ if not (left == 1) then stopped [] (exits 1) else doit o.n_threads o.threads_per_dir
  ]

-- ===== src/Checksum/Main.antt =====
-- `main` of write-after-checksum.c: the options, the file, and the processes that it starts.
use testunion.Common.{
  ℕ, ◌+◌, ◌%◌, ◌^◌, List, [], ◌∷◌, Bool, true, false, not, ◌||◌, ◌&&◌, if◌then◌else◌, ◌==◌, ltb,
  Option, none, some, u64, ℤ, pos, negsuc,
}
use testunion.Common.Options.{Text, Opt, fold_options}
use testunion.Checksum.Loops.{
  Turn, Job, Round, write_junk, mmap_junk, Worker, writer, mapper, Crew, alone, forked,
  start_workers,
}

-- The local variables that the options set, and the static `bufsize`.
pub record Settings : Type 0 where
  pub direct : Bool
  pub synchronous : Bool
  pub sync_range : Bool
  pub sync_file : Bool
  pub nthreads : ℕ
  pub mthreads : ℕ
  pub file_size : ℕ
  pub bufsize : ℕ

-- DEFAULT_BUFSIZE
abbrev pub default_bufsize : ℕ
default_bufsize = 4096

abbrev pub defaults : Settings
defaults = record {
  direct = false;
  synchronous = false;
  sync_range = false;
  sync_file = false;
  nthreads = 1;
  mthreads = 0;
  file_size = 0;
  bufsize = default_bufsize;
}

-- What /dev/urandom gives: whether it opens, and what `read` of a `long` returns.
pub record Urandom : Type 0 where
  pub opens : Bool
  pub reads : ℤ

-- Whether the random numbers are seeded. A `long` has 8 bytes.
unfoldable pub seed_random : Urandom → Bool
seed_random u = elim u.reads [ pos n ↦ u.opens && (n == 8) | negsuc n ↦ false ]

-- Where `main` comes to: it returns a status, or starts its processes, which open the file with
-- O_SYNC or without.
pub data Started : Type 0 where
  returns : ℕ → Started
  works : Bool → Job → Crew → Started

abbrev pub job_of : Settings → Job
job_of s = record {
  direct = s.direct;
  sync_range = s.sync_range;
  sync_file = s.sync_file;
  bufsize = s.bufsize;
  file_size = s.file_size;
}

module _ (strtoul strtoull : Text → ℕ) where
  -- The `switch`; both functions give 64 bits here, and `bufsize` keeps 32 of them.
  unfoldable pub set_option : Settings → Opt → Option Settings
  set_option s o =
      if o.letter == b'd'
      then some (record s { direct = true })
      else if o.letter == b'n'
      then some (record s { nthreads = u64 (strtoul o.optarg) })
      else if o.letter == b'm'
      then some (record s { mthreads = u64 (strtoul o.optarg) })
      else if o.letter == b'l'
      then some (record s { file_size = u64 (strtoull o.optarg) })
      else if o.letter == b's'
      then some (record s { synchronous = true })
      else if o.letter == b'b'
      then some (record s { bufsize = strtoul o.optarg % 2 ^ 32 })
      else if o.letter == b'r'
      then some (record s { sync_range = true })
      else if o.letter == b'f'
      then some (record s { sync_file = true })
      else none

  -- The arguments tell whether exactly one argument follows the options, what /dev/urandom gives, and
  -- whether the file opens and which calls of `fork` succeed. What `posix_fallocate` returns is not looked at.
  unfoldable pub main : List Opt → Bool → Urandom → Bool → (ℕ → Bool) → Started
  main opts one_left urandom opens forks = elim (fold_options set_option opts defaults) [
    | none ↦ returns 4
    | some s ↦
        if not one_left || ltb s.file_size 1
        then returns 1
        else if not (seed_random urandom)
        then returns 2
        else if not opens
        then returns 3
        else works s.synchronous (job_of s) (start_workers forks s.nthreads s.mthreads)
  ]

-- What a process finds: whether there is memory, whether the file opens and is mapped, and its rounds.
pub record World : Type 0 where
  pub memory : Bool
  pub opens : Bool
  pub maps : Bool
  pub turns : ℕ → Turn

module _ (page_size : Option ℕ) (job : Job) where
  unfoldable pub run_worker : Worker → World → ℕ → Round
  run_worker writer w fuel = write_junk job w.memory w.opens w.turns fuel
  run_worker mapper w fuel = mmap_junk page_size job w.opens w.memory w.maps w.turns fuel

  unfoldable pub run_workers : (ℕ → World) → ℕ → ℕ → List Worker → List Round
  run_workers worlds fuel k [] = []
  run_workers worlds fuel k (w ∷ ws) =
      run_worker w (worlds k) fuel ∷ run_workers worlds fuel (k + 1) ws

  -- The processes side by side, each in a world of its own.
  unfoldable pub run_crew : (ℕ → World) → ℕ → Crew → List Round
  run_crew worlds fuel (alone w) = run_worker w (worlds 0) fuel ∷ []
  run_crew worlds fuel (forked ws waits) = run_workers worlds fuel 0 ws

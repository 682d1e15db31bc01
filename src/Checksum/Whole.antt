-- ===== src/Checksum/Whole.antt =====
-- The options, the processes and their loops together.
use testunion.Common.{ℕ, ◌+◌, ◌≤◌, ◌<◌, ◌^◌, ◌≡◌, Bool, Option, none, some, All, length, u64}
use testunion.Bits.Powers.{IsPowerOfTwo}
use testunion.Checksum.Loops.{
  Access, pwrite, sync_file_range, memcpy, msync, fsync, Job, Round, writer, Crew, alone, forked,
}
use testunion.Checksum.Bounds.{IsSound}
use testunion.Checksum.Inside.{Within, Inside, failures}
use testunion.Checksum.Main.{Settings, World}

-- An access that ends within the file.
abbrev pub StaysIn : ℕ → Access → Type 0
StaysIn file_size (pwrite p) = Within file_size p
StaysIn file_size (sync_file_range p) = Within file_size p
StaysIn file_size (memcpy p) = Within file_size p
StaysIn file_size (msync p) = Within file_size p
StaysIn file_size fsync = Unit

-- `main` has forked some number of times, with a process each time but where `fork` failed, and waits
-- as often as it has forked, in 64 bits; or it is the only process, a writer.
abbrev pub IsCrew : (ℕ → Bool) → Crew → Type 0
IsCrew forks (alone w) = w ≡ writer
IsCrew forks (forked ws waits) = (n : ℕ) × (length ws + failures forks 0 n ≡ n) × (waits ≡ u64 n)

-- What `sysconf` documents of the size of a page, if it gives one; no page has more than 2^30 bytes.
abbrev pub IsPage : Option ℕ → Type 0
IsPage none = Unit
IsPage (some page_size) = IsPowerOfTwo page_size × (page_size ≤ 2 ^ 30)

module _ (page_size : Option ℕ) (job : Job) (worlds : ℕ → World) (fuel : ℕ)
    (page : IsPage page_size) (sound : (i k : ℕ) → IsSound job ((worlds i).turns k)) where
  abbrev Stays : Round → Type 0
  Stays r = All (StaysIn job.file_size) r.0

-- Sizes are words.
abbrev HasWords : Settings → Type 0
HasWords s = (s.file_size < 2 ^ 64) × (s.bufsize < 2 ^ 32)

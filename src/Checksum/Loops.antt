-- ===== src/Checksum/Loops.antt =====
-- The two endless loops, `write_junk` and `mmap_junk`, and the processes that `main` starts.
use testunion.Common.{
  ℕ, zero, suc, ◌+◌, List, [], ◌∷◌, ◌++◌, Bool, not, if◌then◌else◌, ◌==◌, Option, none, some, u64,
}
use testunion.Checksum.Places.{Place, choose_place, whole_pages}

-- What was done to the file.
pub data Access : Type 0 where
  pwrite sync_file_range memcpy msync : Place → Access
  fsync : Access

-- What one round meets: the random number, the length of the text, and which calls succeed.
pub record Turn : Type 0 where
  pub part : ℕ → ℕ
  pub printed : ℕ
  pub writes : Bool
  pub syncs_range : Bool
  pub syncs_file : Bool

-- The arguments that both loops have: O_DIRECT in `flags`, SYNC_RANGE and SYNC_FILE in
-- `sync_options`, the static `bufsize` and the file's size.
pub record Job : Type 0 where
  pub direct : Bool
  pub sync_range : Bool
  pub sync_file : Bool
  pub bufsize : ℕ
  pub file_size : ℕ

-- The accesses of a round, and the status with which it returns, if it does.
abbrev pub Round : Type 0
Round = List Access × Option ℕ

-- The end of the body: `if (SYNC_FILE) fsync`.
unfoldable pub end_round : Job → Turn → List Access → ℕ → Round
end_round job t done status =
    if job.sync_file
    then (done ++ (fsync ∷ []), (if t.syncs_file then none else some status))
    else (done, none)

unfoldable pub write_body : Job → Turn → Round
write_body job t =
    let p = choose_place t.part job.direct job.bufsize job.file_size t.printed in
    if not t.writes
    then (pwrite p ∷ [], some 65)
    else if job.sync_range
    then (if t.syncs_range
        then end_round job t (pwrite p ∷ sync_file_range p ∷ []) 68
        else (pwrite p ∷ sync_file_range p ∷ [], some 67))
    else end_round job t (pwrite p ∷ []) 68

unfoldable pub mmap_body : ℕ → Job → Turn → Round
mmap_body page_size job t =
    let p = choose_place t.part job.direct job.bufsize job.file_size t.printed in
    let q = whole_pages page_size p in
    if job.sync_range
    then (if t.syncs_range
        then end_round job t (memcpy p ∷ msync q ∷ []) 100
        else (memcpy p ∷ msync q ∷ [], some 99))
    else end_round job t (memcpy p ∷ []) 100

-- A round, and what follows it unless it returned.
unfoldable pub next_round : Round → Round → Round
next_round (done, some status) rest = (done, some status)
next_round (done, none) rest = (done ++ rest.0, rest.1)

-- `while (1)`, cut off after as many rounds as the fuel says: `none` means that it still runs.
unfoldable pub rounds : (ℕ → Round) → ℕ → ℕ → Round
rounds body zero k = ([], none)
rounds body (suc fuel) k = let rest = rounds body fuel (k + 1) in next_round (body k) rest

-- What precedes the loops: the buffer, then the file; here in the order of the calls.
unfoldable pub write_junk : Job → Bool → Bool → (ℕ → Turn) → ℕ → Round
write_junk job memory opens turns fuel =
    if not memory
    then ([], some 66)
    else if not opens
    then ([], some 64)
    else rounds (λ k. write_body job (turns k)) fuel 0

-- `page_size` is `none` where `sysconf` failed.
unfoldable pub mmap_junk : Option ℕ → Job → Bool → Bool → Bool → (ℕ → Turn) → ℕ → Round
mmap_junk none job opens memory maps turns fuel = ([], some 101)
mmap_junk (some page_size) job opens memory maps turns fuel =
    if not opens
    then ([], some 96)
    else if not memory
    then ([], some 102)
    else if not maps
    then ([], some 97)
    else rounds (λ k. mmap_body page_size job (turns k)) fuel 0

-- The processes of `main`, and how often it waits for one. With one writer there is no fork.
pub data Worker : Type 0 where
  writer mapper : Worker

pub data Crew : Type 0 where
  alone : Worker → Crew
  forked : List Worker → ℕ → Crew

-- The children of `n` calls of `fork` from call `k` on, where `forks` tells which calls succeed. With
-- the -1 of a call that fails the parent goes on, and there is no child.
unfoldable pub fork_each : (ℕ → Bool) → Worker → ℕ → ℕ → List Worker
fork_each forks w k zero = []
fork_each forks w k (suc n) =
    let rest = fork_each forks w (k + 1) n in if forks k then w ∷ rest else rest

unfoldable pub start_workers : (ℕ → Bool) → ℕ → ℕ → Crew
start_workers forks nthreads mthreads =
    if nthreads == 1
    then alone writer
    else forked (fork_each forks writer 0 nthreads ++ fork_each forks mapper nthreads mthreads)
        (u64 (mthreads + nthreads))

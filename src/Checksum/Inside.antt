-- ===== src/Checksum/Inside.antt =====
-- Every access of the two loops stays inside the file, and the status says which call failed.
use testunion.Common.{
  ℕ, zero, suc, ◌+◌, ◌^◌, ◌%◌, ◌≤◌, ◌≡◌, ◌≢◌, refl, arith, List, [], ◌∷◌, Bool, if◌then◌else◌, u64,
  none, some, All, All-append, In, length, length-append,
}
use testunion.Bits.Powers.{IsPowerOfTwo}
use testunion.Checksum.Places.{Place}
use testunion.Checksum.Loops.{
  Access, pwrite, sync_file_range, memcpy, msync, fsync, Turn, Job, Round, end_round, write_body,
  mmap_body, next_round, rounds, write_junk, mmap_junk, Worker, writer, mapper, forked, fork_each,
  start_workers,
}
use testunion.Checksum.Bounds.{IsSound, place_of, choose_place_lem, whole_pages_lem}

abbrev pub Within : ℕ → Place → Type 0
Within file_size p = p.offset + p.len ≤ file_size

-- An access reaches no byte behind the end of the file, and `msync` starts on a page.
abbrev pub Inside : ℕ → ℕ → Access → Type 0
Inside page_size file_size (pwrite p) = Within file_size p
Inside page_size file_size (sync_file_range p) = Within file_size p
Inside page_size file_size (memcpy p) = Within file_size p
Inside page_size file_size (msync p) = Within file_size p × (p.offset % page_size ≡ 0)
Inside page_size file_size fsync = Unit

module _ (P : Access → Type 0) (statuses : List ℕ) where
  -- A round that only makes accesses of one kind and returns only some statuses.
  abbrev IsFine : Round → Type 0
  IsFine r = All P r.0 × ((status : ℕ) → r.1 ≡ some status → In status statuses)

  next_round-IsFine : (r rest : Round) → IsFine r → IsFine rest → IsFine (next_round r rest)
  unfolding next_round
  next_round-IsFine (done, some status) rest h k = h
  next_round-IsFine (done, none) rest h k = (All-append P done rest.0 h.0 k.0, k.1)

  rounds-IsFine :
      (body : ℕ → Round) → ((k : ℕ) → IsFine (body k)) → (fuel k : ℕ) → IsFine (rounds body fuel k)
  unfolding rounds
  rounds-IsFine body fine zero k = (tt, λ status e. absurd (cc))
  rounds-IsFine body fine (suc fuel) k =
      next_round-IsFine (body k) (rounds body fuel (k + 1)) (fine k)
        (rounds-IsFine body fine fuel (k + 1))

abbrev pub write_statuses : List ℕ
write_statuses = 64 ∷ 65 ∷ 66 ∷ 67 ∷ 68 ∷ []

abbrev pub mmap_statuses : List ℕ
mmap_statuses = 96 ∷ 97 ∷ 99 ∷ 100 ∷ 101 ∷ 102 ∷ []

module _ (job : Job) (turns : ℕ → Turn) (sound : (k : ℕ) → IsSound job (turns k)) where
  write_body-IsFine :
      (k : ℕ) → IsFine (Inside 1 job.file_size) write_statuses (write_body job (turns k))
  unfolding write_body end_round
  write_body-IsFine k = let within = (choose_place_lem job (turns k) (sound k)).0 in ground arith

  -- If every text fits the file, the file is below 2^53 bytes, with O_DIRECT the buffer size is a
  -- power of two that fits the file, and neither is above 2^30 bytes, write_junk writes only inside the file, however long it
  -- runs, and if it returns, then with one of the statuses 64 to 68.
  pub write_junk-Inside :
      (memory opens : Bool) (fuel : ℕ)
      → All (Inside 1 job.file_size) (write_junk job memory opens turns fuel).0
        × ((status : ℕ)
            → (write_junk job memory opens turns fuel).1 ≡ some status
            → In status write_statuses)
  unfolding write_junk
  write_junk-Inside memory opens fuel =
      let fine =
        rounds-IsFine (Inside 1 job.file_size) write_statuses (λ k. write_body job (turns k))
          write_body-IsFine fuel 0 in
      ground arith

  module _ (page_size : ℕ) (page : IsPowerOfTwo page_size) (fits : page_size ≤ 2 ^ 30) where
    mmap_body-IsFine :
        (k : ℕ)
        → IsFine (Inside page_size job.file_size) mmap_statuses (mmap_body page_size job (turns k))
    unfolding mmap_body end_round
    mmap_body-IsFine k =
        let place = choose_place_lem job (turns k) (sound k) in
        let within = place.0 in
        let small = (sound k).small in
        let pages =
          whole_pages_lem page_size (place_of job (turns k)) page (omega (arith, small))
            (omega (arith, place.1)) in
        ground arith

    -- If every text fits the file, the file is below 2^53 bytes, pages are a power of two, with
    -- O_DIRECT the buffer size is a power of two that fits the file, and neither text nor buffer nor
    -- page is above 2^30 bytes, mmap_junk writes and flushes
    -- only inside the file, every flush starts on a page boundary, and if it returns, then with one
    -- of 96, 97 and 99 to 102.
    pub mmap_junk-Inside :
        (opens memory maps : Bool) (fuel : ℕ)
        → All
            (Inside page_size job.file_size)
            (mmap_junk (some page_size) job opens memory maps turns fuel).0
          × ((status : ℕ)
              → (mmap_junk (some page_size) job opens memory maps turns fuel).1 ≡ some status
              → In status mmap_statuses)
    unfolding mmap_junk
    mmap_junk-Inside opens memory maps fuel =
        let fine =
          rounds-IsFine (Inside page_size job.file_size) mmap_statuses
            (λ k. mmap_body page_size job (turns k)) mmap_body-IsFine fuel 0 in
        ground arith

-- How many of the `n` calls of `fork` from call `k` on fail.
abbrev pub failures : (ℕ → Bool) → ℕ → ℕ → ℕ
failures forks k zero = 0
failures forks k (suc n) = let rest = failures forks (k + 1) n in if forks k then rest else suc rest

failures-add :
    (forks : ℕ → Bool) (k a b : ℕ)
    → failures forks k (a + b) ≡ failures forks k a + failures forks (k + a) b
failures-add forks k zero b = ground arith
failures-add forks k (suc a) b =
    let ih = failures-add forks (k + 1) a b in
    let next : k + 1 + a ≡ k + suc a = omega arith in
    let sum : suc a + b ≡ suc (a + b) = omega arith in
    let rest = rw next at ih in rw sum (ground (arith, rest))

length-fork_each :
    (forks : ℕ → Bool) (w : Worker) (k n : ℕ)
    → length (fork_each forks w k n) + failures forks k n ≡ n
unfolding fork_each
length-fork_each forks w k zero = refl
length-fork_each forks w k (suc n) = ground (arith, length-fork_each forks w (k + 1) n)

-- When main forks, there is not exactly one writer, each fork for a writer or a mapper has given a
-- process or has failed, and main waits for as many processes as it has forked, in 64 bits.
pub start_workers_lem :
    (forks : ℕ → Bool) (nthreads mthreads waits : ℕ) (ws : List Worker)
    → start_workers forks nthreads mthreads ≡ forked ws waits
    → (nthreads ≢ 1)
      × (length ws + failures forks 0 (nthreads + mthreads) ≡ nthreads + mthreads)
      × (waits ≡ u64 (nthreads + mthreads))
unfolding start_workers
start_workers_lem forks nthreads mthreads waits ws e =
    let place : 0 + nthreads ≡ nthreads = omega arith in
    let sum = failures-add forks 0 nthreads mthreads in
    let all = rw place at sum in
    ground (
      arith,
      all,
      length-append (fork_each forks writer 0 nthreads) (fork_each forks mapper nthreads mthreads),
      length-fork_each forks writer 0 nthreads,
      length-fork_each forks mapper nthreads mthreads,
    )

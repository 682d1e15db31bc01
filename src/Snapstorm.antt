-- ===== src/Snapstorm.antt =====
-- incoming/snapstorm.c: threads that all wait for a common start and then take a snapshot each, as a
-- step relation. What happens between a lock and its unlock is one step.
pub mod Counts
pub mod Invariant
pub mod Progress
pub mod Gate
pub mod Refine
pub mod Snap
pub mod Whole
mod Tests
use testunion.Common.{
  ℕ, zero, suc, ◌+◌, ◌<◌, ◌≤◌, ◌≡◌, List, [], ◌∷◌, ◌++◌, Bool, true, false, if◌then◌else◌, some,
  length, map, get_elem?, set,
}

-- Where a worker stands in `t_worker`: before the first lock, in `pthread_cond_wait`, woken there, in
-- `do_snap`, and after `nr_finished++`.
pub data Place : Type 0 where
  created asleep awake snapping finished : Place

-- Where `main` stands: in the loop that creates the threads, in the loop that waits for them to be
-- ready, before `can_start = 1`, in the loop that waits for them to finish, and at its end.
pub data MainPlace : Type 0 where
  creating waiting starting ending done : MainPlace

pub record System : Type 0 where
  pub workers : List Place
  pub can_start : Bool
  pub nr_ready : ℕ
  pub nr_finished : ℕ
  pub main : MainPlace

-- `pthread_cond_broadcast`.
abbrev pub wake : Place → Place
wake asleep = awake
wake p = p

-- The loop `while (!can_start) pthread_cond_wait(…)` when its test is reached.
abbrev pub test_start : Bool → Place
test_start b = if b then snapping else asleep

-- Before `main` creates the first thread.
unfoldable pub start : System
start = record { workers = []; can_start = false; nr_ready = 0; nr_finished = 0; main = creating }

module _ (nr_threads : ℕ) where
  pub data Step : System → System → Type 0 where
    -- `main` starts the next thread, or leaves the loop when all are started.
    create :
        (s : System)
        → s.main ≡ creating
        → length s.workers < nr_threads
        → Step s (record s { workers = s.workers ++ (created ∷ []) })
    all_created :
        (s : System)
        → s.main ≡ creating
        → length s.workers ≡ nr_threads
        → Step s (record s { main = waiting })
    -- `nr_ready < nr_threads` fails; and then everything up to the second unlock.
    all_ready :
        (s : System)
        → s.main ≡ waiting
        → nr_threads ≤ s.nr_ready
        → Step s (record s { main = starting })
    go :
        (s : System)
        → s.main ≡ starting
        → Step s (record s { workers = map wake s.workers; can_start = true; main = ending })
    all_finished :
        (s : System)
        → s.main ≡ ending
        → nr_threads ≤ s.nr_finished
        → Step s (record s { main = done })
    -- A worker gets the lock for the first time.
    get_ready :
        (s : System) (i : ℕ)
        → get_elem? s.workers i ≡ some created
        → Step s (record s {
          workers = set s.workers i (test_start s.can_start);
          nr_ready = s.nr_ready + 1;
        })
    -- A wait may end without a broadcast.
    spurious :
        (s : System) (i : ℕ)
        → get_elem? s.workers i ≡ some asleep
        → Step s (record s { workers = set s.workers i awake })
    test_again :
        (s : System) (i : ℕ)
        → get_elem? s.workers i ≡ some awake
        → Step s (record s { workers = set s.workers i (test_start s.can_start) })
    finish :
        (s : System) (i : ℕ)
        → get_elem? s.workers i ≡ some snapping
        → Step s (record s { workers = set s.workers i finished; nr_finished = s.nr_finished + 1 })

  pub data Reach : System → Type 0 where
    at_start : Reach start
    after : (s s' : System) → Reach s → Step s s' → Reach s'

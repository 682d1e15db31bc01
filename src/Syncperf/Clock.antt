-- ===== src/Syncperf/Clock.antt =====
-- The clock and the report of incoming/syncperf.c, and the bytes that it writes.
use testunion.Common.{
  ℕ, zero, suc, ◌+◌, ◌-◌, ◌*◌, ◌%◌, ◌^◌, ◌≤◌, ◌<◌, ◌≡◌, arith, List, [], ◌∷◌, u64,
}
use testunion.Common.Options.{Text}

-- `struct timespec`, of a time after 1970.
pub record Timespec : Type 0 where
  pub tv_sec : ℕ
  pub tv_nsec : ℕ

unfoldable pub nsecs : Timespec → ℕ
nsecs t = u64 (t.tv_sec * 1000000000 + t.tv_nsec)

-- The bytes that `rand` gives, from its call `k` on.
unfoldable pub fill : (ℕ → ℕ) → ℕ → ℕ → List ℕ
fill rand k zero = []
fill rand k (suc n) = rand k % 2 ^ 8 ∷ fill rand (k + 1) n

-- What `time_sync` prints, with the time in nanoseconds; the program divides it by a million.
pub record SyncTime : Type 0 where
  pub label : Text
  pub files : ℕ
  pub elapsed : ℕ

unfoldable pub time_sync : Text → ℕ → Timespec → Timespec → SyncTime
time_sync label n before after = record {
  label = label;
  files = n;
  elapsed = u64 (nsecs after + (2 ^ 64 - nsecs before));
}

abbrev nanoseconds : Timespec → ℕ
nanoseconds t = t.tv_sec * 1000000000 + t.tv_nsec

module _ (label : Text) (n : ℕ) (before after : Timespec) (fits : nanoseconds before < 2 ^ 64)
    (fits' : nanoseconds after < 2 ^ 64) where
  -- If the clock was not set back, the time that passed is printed.
  elapsed_forward :
      nanoseconds before ≤ nanoseconds after
      → (time_sync label n before after).elapsed + nanoseconds before ≡ nanoseconds after
  unfolding time_sync nsecs
  elapsed_forward le = omega arith

  -- If the clock was set back during the `sync`, the time printed is nearly 2^64 nanoseconds.
  elapsed_back :
      nanoseconds after < nanoseconds before
      → (time_sync label n before after).elapsed + nanoseconds before ≡ nanoseconds after + 2 ^ 64
  unfolding time_sync nsecs
  elapsed_back lt = omega arith

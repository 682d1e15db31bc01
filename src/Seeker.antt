-- ===== src/Seeker.antt =====
-- incoming/seeker.c: reads blocks at random places of a device for thirty seconds.
pub mod Laws
mod Tests
use testunion.Common.{
  ℕ, ◌+◌, ◌-◌, ◌*◌, ◌/◌, ◌%◌, ◌^◌, List, [], ◌∷◌, Bool, not, Option, none, some, ◌==◌, ltb,
  if◌then◌else◌, u64,
}

-- TIMEOUT
abbrev pub timeout : ℕ
timeout = 30

-- A round of `for (;;)`, with the random number and whether `lseek64` and `read` succeed, or the signal
-- SIGALRM with the time at which it comes. A signal within a round counts as one before it, since
-- `count` changes at its end.
pub data Event : Type 0 where
  seek : ℕ → Bool → Bool → Event
  alarm : ℕ → Event

-- The program runs, or has left with a status and, if it prints results, the seeks per second.
pub data Ending : Type 0 where
  running : Ending
  exits : ℕ → Option ℕ → Ending

-- The part of `done` that prints results.
unfoldable pub results : ℕ → Option ℕ
results count = if count == 0 then none else some (count / timeout)

-- `(off64_t) numblocks * random() / RAND_MAX` as a 64-bit word: the product wraps around, and is
-- divided as a signed number.
unfoldable pub choose_offset : ℕ → ℕ → ℕ → ℕ
choose_offset rand_max numblocks random =
    let product = u64 (numblocks * random) in
    if ltb product (2 ^ 63)
    then product / rand_max
    else u64 (2 ^ 64 - (2 ^ 64 - product) / rand_max)

-- `BLOCKSIZE * offset`
unfoldable pub position_of : ℕ → ℕ
position_of offset = u64 (512 * offset)

-- What `lseek64` returned, -1 where it failed, is kept in an `int` and then compared with -1.
unfoldable pub seems_failed : Bool → ℕ → Bool
seems_failed succeeds position =
    let retval = (if succeeds then position else 2 ^ 64 - 1) % 2 ^ 32 in retval == (2 ^ 32 - 1)

module _ (rand_max start numblocks : ℕ) where
  -- The loop and the signal handler `done`, with the count so far: the positions, and the ending.
  unfoldable pub run : List Event → ℕ → List ℕ × Ending
  run [] count = ([], running)
  run (alarm now ∷ events) count =
      let rest = run events count in
      if ltb now (start + timeout) then rest else ([], exits 0 (results count))
  run (seek random seeks reads ∷ events) count =
      let rest = run events (count + 1) in
      let position = position_of (choose_offset rand_max numblocks random) in
      if seems_failed seeks position
      then (position ∷ [], exits 1 none)
      else if not reads
      then (position ∷ [], exits 1 none)
      else (position ∷ rest.0, rest.1)

-- `main`; the arguments tell whether the device opens and what BLKGETSIZE gives, if it succeeds.
unfoldable pub main : ℕ → ℕ → ℕ → Bool → Option ℕ → List Event → List ℕ × Ending
main rand_max start argc opens numblocks events =
    if not (argc == 2)
    then ([], exits 0 none)
    else if not opens
    then ([], exits 1 none)
    else elim numblocks [ none ↦ ([], exits 1 none) | some n ↦ run rand_max start n events 0 ]

-- ===== src/Seeker/Laws.antt =====
-- The program stays within the device and is not misled by the `int` in which it keeps a position.
use native.Mathlib.Nat.{mod-eq_of_lt, mul-le-mul, mul-le-mul_left, div-le_of_le-mul, mul-mod_right}
use testunion.Common.{
  ℕ, ◌+◌, ◌-◌, ◌*◌, ◌/◌, ◌%◌, ◌^◌, ◌≤◌, ◌<◌, ◌≡◌, refl, arith, List, [], ◌∷◌, Bool, true, false,
  not, none, some, ltb, u64, All, Bool-cases, inl, inr,
}
use testunion.Seeker.{
  timeout, Event, seek, alarm, Ending, running, exits, results, choose_offset, position_of,
  seems_failed, run, main,
}

-- How a run ends after `n` seeks: at the first alarm after the timeout, or at the first call that fails.
pub data Ends (start : ℕ) : ℕ → List Event → Ending → Type 0 where
  not_yet : (n : ℕ) → Ends start n [] running
  early :
      (n now : ℕ) (events : List Event) (e : Ending)
      → now < start + timeout
      → Ends start n events e
      → Ends start n (alarm now ∷ events) e
  time_out :
      (n now : ℕ) (events : List Event)
      → start + timeout ≤ now
      → Ends start n (alarm now ∷ events) (exits 0 (results n))
  goes_on :
      (n random : ℕ) (events : List Event) (e : Ending)
      → Ends start (n + 1) events e
      → Ends start n (seek random true true ∷ events) e
  cannot_seek :
      (n random : ℕ) (reads : Bool) (events : List Event)
      → Ends start n (seek random false reads ∷ events) (exits 1 none)
  cannot_read :
      (n random : ℕ) (events : List Event)
      → Ends start n (seek random true false ∷ events) (exits 1 none)

-- `random` returns RAND_MAX at most.
abbrev pub IsRandom : ℕ → Event → Type 0
IsRandom rand_max (alarm now) = Unit
IsRandom rand_max (seek random seeks reads) = random ≤ rand_max

-- The start of a block, or the end of the last one.
abbrev pub IsBlock : ℕ → ℕ → Type 0
IsBlock numblocks position = (position % 512 ≡ 0) × (position ≤ 512 * numblocks)

module _ (rand_max start numblocks : ℕ) (positive : 0 < rand_max) (max_small : rand_max < 2 ^ 31)
    (small : numblocks < 2 ^ 32) where
  choose_offset_bound :
      (random : ℕ) → random ≤ rand_max → choose_offset rand_max numblocks random ≤ numblocks
  unfolding choose_offset
  choose_offset_bound random h =
      let limit : numblocks * random ≤ (2 ^ 32 - 1) * 2 ^ 31 =
        mul-le-mul {n₂ = 2 ^ 32 - 1} {m₂ = 2 ^ 31} (omega (arith, small))
          (omega (arith, h, max_small)) in
      let below : numblocks * random < 2 ^ 63 = omega (arith, limit) in
      let same : u64 (numblocks * random) ≡ numblocks * random =
        mod-eq_of_lt (omega (arith, below)) in
      let part : numblocks * random / rand_max ≤ numblocks =
        div-le_of_le-mul rand_max (omega (arith, mul-le-mul_left numblocks h)) in
      ground (arith, same, below, part)

  position_lem :
      (random : ℕ)
      → random ≤ rand_max
      → IsBlock numblocks (position_of (choose_offset rand_max numblocks random))
  unfolding position_of
  position_lem random h =
      let bound = choose_offset_bound random h in
      let offset = choose_offset rand_max numblocks random in
      let same : u64 (512 * offset) ≡ 512 * offset = mod-eq_of_lt (omega (arith, bound, small)) in
      rw same (mul-mod_right 512 offset, omega (arith, bound))

  -- A multiple of 512 does not look like -1.
  seems_failed_lem : (seeks : Bool) (p : ℕ) → p % 512 ≡ 0 → seems_failed seeks p ≡ not seeks
  unfolding seems_failed
  seems_failed_lem true p h = ground arith
  seems_failed_lem false p h = refl

  run_lem :
      (events : List Event) (n : ℕ)
      → All (IsRandom rand_max) events
      → let r = run rand_max start numblocks events n in
        Ends start n events r.1 × All (IsBlock numblocks) r.0
  unfolding run
  run_lem [] n h = (not_yet n, tt)
  run_lem (alarm now ∷ events) n (_, h) =
      let rest = run_lem events n h in
      elim (Bool-cases (ltb now (start + timeout))) [
        | inl e ↦ rw e (early n now events _ (ground arith) rest.0, rest.1)
        | inr e ↦ rw e (time_out n now events (ground arith), tt)
      ]
  run_lem (seek random true true ∷ events) n (r, h) =
      let own = position_lem random r in
      let rest = run_lem events (n + 1) h in
      rw (seems_failed_lem true _ own.0) (goes_on n random events _ rest.0, (own, rest.1))
  run_lem (seek random true false ∷ events) n (r, h) =
      let own = position_lem random r in
      rw (seems_failed_lem true _ own.0) (cannot_read n random events, (own, tt))
  run_lem (seek random false reads ∷ events) n (r, h) =
      let own = position_lem random r in
      rw (seems_failed_lem false _ own.0) (cannot_seek n random reads events, (own, tt))

  -- With one argument, a device that opens and has less than 2^32 blocks, a RAND_MAX below 2^31 and
  -- random numbers up to it, every position is a multiple of 512 and not behind the end of the
  -- device, and the program ends exactly as the signals and answers say: with status 0 at the first
  -- signal that comes timeout seconds after the start or later, with the number of seeks divided by
  -- timeout if there were any, or with status 1 at the first lseek64 or read that fails, though the
  -- position is kept in an int.
  pub main-Ends :
      (events : List Event)
      → All (IsRandom rand_max) events
      → let r = main rand_max start 2 true (some numblocks) events in
        Ends start 0 events r.1 × All (IsBlock numblocks) r.0
  unfolding main
  main-Ends events h = run_lem events 0 h

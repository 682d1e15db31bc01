-- ===== src/Fiemap/Compare.antt =====
-- `compare_fiemap_and_map` of incoming/fiemap-test.c: asks FIEMAP for the file piece by piece, and
-- checks the answer against each letter of the map.
pub mod Blocks
pub mod Pieces
pub mod Rounds
pub mod Letters
pub mod Verdict
use testunion.Common.{
  ℕ, zero, suc, ◌+◌, ◌*◌, ◌%◌, List, [], ◌∷◌, ◌++◌, Bool, true, false, not, ◌&&◌, Option, none,
  some, ltb, ◌==◌, if◌then◌else◌, u64, length,
}
use testunion.Fiemap.Extent.{
  Extent, ExtentFlags, Message, weird_value, map_is, indeterminate_read, fibmap_failed, no_memory,
  read_failed, data_block, hole_block, prealloc_block, show_extents,
}
use testunion.Fiemap.Flags.{check_flags}
use testunion.Fiemap.Data.{check_data}
use testunion.Fiemap.Hole.{FileSystem, Checked, check_hole}

-- The loop that finds the last block with data from index `i` on. `none` is the variable
-- `last_data` that was never assigned.
unfoldable pub find_last_data : List ℕ → ℕ → Option ℕ → Option ℕ
find_last_data [] i last_data = last_data
find_last_data (ch ∷ map) i last_data =
    find_last_data map (i + 1) (if ch == hole_block then last_data else some i)

-- The inner loop stops at the index `next`, before the letters `rest`, unless a check failed.
pub record Chunk : Type 0 where
  pub log : List Message
  pub passed : Bool
  pub warned : Bool
  pub next : ℕ
  pub rest : List ℕ

-- How `compare_fiemap_and_map` returns: 0, -1 for want of memory, at a failed ioctl or through the
-- label `error`. A remainder or a quotient by 0 stops the program.
pub data Compared : Type 0 where
  same : List Message → Bool → Compared
  no_buffers ioctl_failed : Compared
  differs : List Message → Compared
  fault out_of_fuel : Compared

-- What is printed before the rest of the comparison.
unfoldable pub after_log : List Message → Compared → Compared
after_log log (same l warned) = same (log ++ l) warned
after_log log (differs l) = differs (log ++ l)
after_log log c = c

-- Does a line show a number that was divided by the block size?
abbrev shows_quotient : Message → Bool
shows_quotient fibmap_failed = false
shows_quotient no_memory = false
shows_quotient read_failed = false
shows_quotient (weird_value ch) = false
shows_quotient (map_is map) = false
shows_quotient indeterminate_read = false
shows_quotient _ = true

abbrev show_quotients : List Message → Bool
show_quotients [] = false
show_quotients (m ∷ log) = if shows_quotient m then true else show_quotients log

-- The program does not get past a line with a quotient if the block size is 0.
unfoldable pub divided : ℕ → Compared → Compared
divided blocksize (same log warned) =
    if blocksize == 0 && show_quotients log then fault else same log warned
divided blocksize (differs log) =
    if blocksize == 0 && show_quotients log then fault else differs log
divided blocksize c = c

module _ (fl : ExtentFlags) (sys : FileSystem) (blocksize : ℕ) where
  -- The two calls of `check_data`, whose argument reads `last_data`.
  unfoldable pub check_data_block : List Extent → Option ℕ → ℕ → Bool → Bool → Checked
  check_data_block xs none i prealloc warned = record {
    log = indeterminate_read ∷ [];
    passed = false;
    warned = warned;
  }
  check_data_block xs (some last) i prealloc warned =
      elim (check_data fl blocksize xs (u64 (i * blocksize)) (last == i) prealloc) [
        | none ↦ record { log = []; passed = true; warned = warned }
        | some m ↦ record { log = m ∷ []; passed = false; warned = warned }
      ]

  -- The `switch` on the letter of block `i`.
  unfoldable pub check_block : List Extent → Option ℕ → ℕ → ℕ → Bool → Checked
  check_block xs last_data i ch warned =
      if ch == data_block
      then check_data_block xs last_data i false warned
      else if ch == hole_block
      then check_hole sys blocksize xs (u64 (i * blocksize)) warned
      else if ch == prealloc_block
      then check_data_block xs last_data i true warned
      else record { log = weird_value ch ∷ []; passed = false; warned = warned }

  -- `for (i = cur_extent, c = 1; i < blocks; i++, c++)`, over the letters from index `i` on.
  unfoldable pub check_chunk : ℕ → List Extent → Option ℕ → ℕ → ℕ → List ℕ → Bool → Chunk
  check_chunk blocks_to_map xs last_data c i [] warned = record {
    log = [];
    passed = true;
    warned = warned;
    next = i;
    rest = [];
  }
  check_chunk blocks_to_map xs last_data c i (ch ∷ map) warned =
      let r = check_block xs last_data i ch warned in
      let k = check_chunk blocks_to_map xs last_data (c + 1) (i + 1) map r.warned in
      if ltb blocks_to_map c
      then record { log = []; passed = true; warned = warned; next = i; rest = ch ∷ map }
      else if r.passed
      then record k { log = r.log ++ k.log }
      else record { log = r.log; passed = false; warned = r.warned; next = i; rest = ch ∷ map }

  module _ (map : List ℕ) (blocks_to_map : ℕ) where
    -- The label `error`: the map and the extents of the last answer are printed.
    unfoldable pub report : List Extent → List Message
    report xs = map_is map ∷ show_extents xs blocksize

    -- The `do … while` loop. Fuel bounds the rounds; `rest` are the letters from `cur_extent` on.
    unfoldable pub compare_loop : ℕ → Option ℕ → ℕ → List ℕ → Bool → Compared
    compare_loop zero last_data cur_extent rest warned = out_of_fuel
    compare_loop (suc fuel) last_data cur_extent rest warned =
        elim (sys.fiemap (u64 (cur_extent * blocksize)) (u64 (blocks_to_map * blocksize))
          blocks_to_map) [
            | none ↦ ioctl_failed
            | some xs ↦ elim (check_flags fl blocksize xs) [
              | some m ↦ differs (m ∷ report xs)
              | none ↦
                  let k = check_chunk blocks_to_map xs last_data 1 cur_extent rest warned in
                  elim k.passed [
                    | false ↦ differs (k.log ++ report xs)
                    | true ↦ elim (ltb k.next (length map)) [
                      | true ↦ after_log k.log (compare_loop fuel last_data k.next k.rest k.warned)
                      | false ↦ same k.log k.warned
                    ]
                  ]
            ]
          ]

  -- The argument `random` is what `random()` returns. `header` and `per_extent` are the sizes of
  -- the two structs that the buffer holds.
  unfoldable pub compare_fiemap_and_map : ℕ → ℕ → ℕ → List ℕ → Bool → Compared
  compare_fiemap_and_map header per_extent random [] warned = fault
  compare_fiemap_and_map header per_extent random (ch ∷ map) warned =
      let blocks_to_map = random % length (ch ∷ map) + 1 in
      if sys.malloc (header + blocks_to_map * per_extent)
      then divided blocksize (
          compare_loop (ch ∷ map) blocks_to_map (length (ch ∷ map))
            (find_last_data (ch ∷ map) 0 none) 0 (ch ∷ map) warned)
      else no_buffers

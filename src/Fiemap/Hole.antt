-- ===== src/Fiemap/Hole.antt =====
-- `check_weird_fs_hole` and `check_hole` of incoming/fiemap-test.c: is a block that was skipped
-- really a hole? What the kernel answers is a parameter; the file does not change meanwhile.
pub mod Laws
use testunion.Common.{
  ℕ, zero, suc, ◌+◌, ◌/◌, List, [], ◌∷◌, ◌++◌, Bool, true, false, ◌&&◌, Option, none, some, ltb,
  leb, ◌==◌, if◌then◌else◌, u32, u64,
}
use testunion.Fiemap.Extent.{
  Extent, Message, fibmap_failed, no_memory, read_failed, fiemap_is_wrong, not_zero_filled,
  weird_fs, allocated_hole, end_of,
}

-- The calls that leave the program, on the file under test.
pub record FileSystem : Type 0 where
  -- FIBMAP: the physical block of a file block, 0 for none; `none` is an error.
  pub fibmap : ℕ → Option ℕ
  pub malloc : ℕ → Bool
  -- pread of `n` bytes at an offset: the `n` bytes of the buffer after the call.
  pub pread : ℕ → ℕ → Option (List ℕ)
  -- FS_IOC_FIEMAP for a start, a length and room for so many extents.
  pub fiemap : ℕ → ℕ → ℕ → Option (List Extent)

-- What a check of one block prints, whether it returned 0, and the flag `warning_printed` after it.
pub record Checked : Type 0 where
  pub log : List Message
  pub passed : Bool
  pub warned : Bool

-- The loop over the buffer: the first byte that is not zero.
unfoldable pub first_nonzero : List ℕ → Option ℕ
first_nonzero [] = none
first_nonzero (b ∷ bs) = let rest = first_nonzero bs in if b == 0 then rest else some b

module _ (sys : FileSystem) (blocksize : ℕ) where
  abbrev refuse : Message → Bool → Checked
  refuse m warned = record { log = m ∷ []; passed = false; warned = warned }

  -- The last part of `check_weird_fs_hole`: the buffer has been read.
  unfoldable pub check_buffer : List ℕ → ℕ → Bool → Checked
  check_buffer buf block warned = elim (first_nonzero buf) [
    | some b ↦ refuse (not_zero_filled b block) warned
    | none ↦
        if warned
        then record { log = []; passed = true; warned = warned }
        else record { log = weird_fs block ∷ []; passed = true; warned = true }
  ]

  -- The argument `warned` is the static `warning_printed`. The block number is cast to `int`.
  unfoldable pub check_weird_fs_hole : ℕ → Bool → Checked
  check_weird_fs_hole logical_offset warned =
      let block = logical_offset / blocksize in
      elim (sys.fibmap (u32 block)) [
        | none ↦ refuse fibmap_failed warned
        | some zero ↦ refuse (fiemap_is_wrong block) warned
        | some (suc physical) ↦
            if sys.malloc blocksize
            then elim (sys.pread blocksize logical_offset) [
              | none ↦ refuse read_failed warned
              | some buf ↦ check_buffer buf block warned
            ]
            else refuse no_memory warned
      ]

  -- In the loop an extent over the hole ends it: by `break` if the file system is only weird, by
  -- the return of -1 otherwise.
  unfoldable pub check_hole : List Extent → ℕ → Bool → Checked
  check_hole [] logical_offset warned = record { log = []; passed = true; warned = warned }
  check_hole (x ∷ xs) logical_offset warned =
      let rest = check_hole xs logical_offset warned in
      let weird = check_weird_fs_hole logical_offset warned in
      if ltb (end_of x) logical_offset
      then rest
      else if ltb (u64 (logical_offset + blocksize)) x.fe_logical
      then record { log = []; passed = true; warned = warned }
      else if leb x.fe_logical logical_offset && ltb logical_offset (end_of x)
      then (if weird.passed then weird else record {
        log = weird.log ++ (allocated_hole (x.fe_logical / blocksize) ∷ []);
        passed = false;
        warned = weird.warned;
      })
      else rest

-- ===== src/Fiemap/Data/Gaps.antt =====
-- What `check_data` does with a block that is split between two extents, which cannot happen with
-- extents of whole blocks: after the first part the search goes on one byte too far.
use testunion.Common.{
  ℕ, ◌+◌, ◌/◌, ◌^◌, ◌≤◌, ◌<◌, ◌≡◌, arith, [], ◌∷◌, Bool, true, false, none, some, has,
}
use testunion.Fiemap.Extent.{Extent, ExtentFlags, no_extent}
use testunion.Fiemap.Data.{search_extent, after_search, check_data}
use testunion.Fiemap.Data.Laws.{logical_end, has-not_ℕ}

module _ (fl : ExtentFlags) (blocksize : ℕ) (clear : has 1 fl.unwritten ≡ false) (x y : Extent)
    (a : ℕ) (last prealloc : Bool) (room : logical_end blocksize y + blocksize + 1 < 2 ^ 64)
    (before : x.fe_logical ≤ a) (splits : a < logical_end blocksize x)
    (inside : logical_end blocksize x < a + blocksize) where
  -- If bit 0 of UNWRITTEN is clear, a block that two adjacent extents cover between them is
  -- reported by check_data as missing, when the second one ends with the block, whether or not the
  -- block is preallocated or the last one with data.
  pub check_data-split :
      y.fe_logical ≡ logical_end blocksize x
      → logical_end blocksize y ≡ a + blocksize
      → check_data fl blocksize (x ∷ y ∷ []) a last prealloc ≡ some (no_extent (a / blocksize))
  unfolding search_extent after_search check_data
  check_data-split e f =
      let first = has-not_ℕ x.fe_flags fl.unwritten clear in
      let second = has-not_ℕ y.fe_flags fl.unwritten clear in ground (arith, first, second)

  -- If bit 0 of UNWRITTEN is clear, a block with one byte that neither extent covers is accepted by
  -- check_data, when the second extent begins behind that byte, is at least a block long, and is
  -- marked LAST if the block is the last one with data, whether or not the block is preallocated.
  pub check_data-gap :
      y.fe_logical ≡ logical_end blocksize x + 1
      → blocksize ≤ y.fe_length
      → (last ≡ true → has y.fe_flags fl.last ≡ true)
      → check_data fl blocksize (x ∷ y ∷ []) a last prealloc ≡ none
  unfolding search_extent after_search check_data
  check_data-gap e f final =
      let first = has-not_ℕ x.fe_flags fl.unwritten clear in
      let second = has-not_ℕ y.fe_flags fl.unwritten clear in ground (arith, first, second)

-- ===== src/Fiemap/Data.antt =====
-- `check_data` of incoming/fiemap-test.c: does an extent hold the block at an offset?
pub mod Laws
pub mod Gaps
use testunion.Common.{
  ℕ, ◌+◌, ◌-◌, ◌/◌, List, [], ◌∷◌, Bool, true, false, not, ◌&&◌, Option, none, some, ltb, leb,
  if◌then◌else◌, has, not_ℕ, u64,
}
use testunion.Fiemap.Extent.{
  Extent, ExtentFlags, Message, unwritten_not_set, no_extent, last_not_set, end_of,
}

-- How the loop over the extents ends: by an early return, at the end of the list or by the `break`
-- on a later extent, or with `found = 1` at an extent.
pub data Search : Type 0 where
  not_unwritten : ℕ → Search
  not_found : Search
  found : Extent → Search

module _ (fl : ExtentFlags) (blocksize : ℕ) where
  -- The test for a preallocated block is `!extent->fe_flags & FIEMAP_EXTENT_UNWRITTEN`, in which the
  -- `!` belongs to the flags and not to the `&`.
  unfoldable pub search_extent : List Extent → Bool → ℕ → Search
  search_extent [] prealloc logical_offset = not_found
  search_extent (x ∷ xs) prealloc logical_offset =
      let skip = search_extent xs prealloc logical_offset in
      let go_on = search_extent xs prealloc (u64 (end_of x + 1)) in
      if ltb (end_of x) logical_offset
      then skip
      else if ltb (u64 (logical_offset + blocksize)) x.fe_logical
      then not_found
      else if leb x.fe_logical logical_offset && ltb logical_offset (end_of x)
      then (if prealloc && has (not_ℕ x.fe_flags) fl.unwritten
          then not_unwritten (x.fe_logical / blocksize)
          else if ltb (end_of x) (u64 (logical_offset + blocksize))
          then go_on
          else found x)
      else skip

  -- What follows the loop; `none` is the return of 0. `block` is `orig_offset / blocksize`.
  unfoldable pub after_search : Search → ℕ → Bool → Option Message
  after_search (not_unwritten n) block last = some (unwritten_not_set n)
  after_search not_found block last = some (no_extent block)
  after_search (found x) block last =
      if last && not (has x.fe_flags fl.last) then some (last_not_set block) else none

  unfoldable pub check_data : List Extent → ℕ → Bool → Bool → Option Message
  check_data xs logical_offset last prealloc =
      after_search (search_extent xs prealloc logical_offset) (logical_offset / blocksize) last

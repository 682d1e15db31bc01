-- ===== src/Fiemap/Flags.antt =====
-- `check_flags` of incoming/fiemap-test.c: are the flags of the returned extents consistent?
pub mod Laws
use testunion.Common.{
  ℕ, ◌-◌, ◌/◌, ◌+◌, ◌^◌, List, [], ◌∷◌, Bool, true, false, not, ◌&&◌, ◌||◌, Option, none, some,
  ◌==◌, if◌then◌else◌, has, u64, not64, bit_and,
}
use testunion.Fiemap.Extent.{
  Extent, ExtentFlags, FlagError, not_aligned_not_set, encoded_not_set, not_aligned_set, last_set,
  unknown_not_set, inline_not_aligned_not_set, tail_not_aligned_not_set, Message, flag_error,
}

-- `x & ~((__u64) blocksize - 1)`
unfoldable pub align : ℕ → ℕ → ℕ
align x blocksize = bit_and x (not64 (u64 (blocksize + (2 ^ 64 - 1))))

-- `c + 1 < fiemap->fm_mapped_extents`: extents follow the one at hand.
abbrev pub more_left : List Extent → Bool
more_left [] = false
more_left (x ∷ xs) = true

module _ (fl : ExtentFlags) (blocksize : ℕ) where
  -- The body of the loop of `check_flags`, for one extent.
  unfoldable pub check_extent : Extent → Bool → Option FlagError
  check_extent x more =
      let unaligned =
        not (align x.fe_physical blocksize == x.fe_physical)
        || not (align x.fe_length blocksize == x.fe_length) in
      let flagged = has x.fe_flags fl.not_aligned in
      if unaligned && not flagged
      then some not_aligned_not_set
      else if has x.fe_flags fl.data_encrypted && not (has x.fe_flags fl.encoded)
      then some encoded_not_set
      else if flagged && not unaligned
      then some not_aligned_set
      else if has x.fe_flags fl.last && more
      then some last_set
      else if has x.fe_flags fl.delalloc && not (has x.fe_flags fl.unknown)
      then some unknown_not_set
      else if has x.fe_flags fl.data_inline && not flagged
      then some inline_not_aligned_not_set
      else if has x.fe_flags fl.data_tail && not flagged
      then some tail_not_aligned_not_set
      else none

  -- `none` is the return of 0; a message is printed before the return of -1.
  unfoldable pub check_flags : List Extent → Option Message
  check_flags [] = none
  check_flags (x ∷ xs) =
      let rest = check_flags xs in
      elim (check_extent x (more_left xs)) [
        | some e ↦ some (flag_error e (x.fe_logical / blocksize))
        | none ↦ rest
      ]

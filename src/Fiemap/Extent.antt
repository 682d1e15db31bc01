-- ===== src/Fiemap/Extent.antt =====
-- The data of incoming/fiemap-test.c: the extents that the FIEMAP ioctl returns, the letters of a
-- file map, and the lines that the checks print.
use testunion.Common.{ℕ, ◌-◌, ◌/◌, ◌+◌, ◌^◌, List, [], ◌∷◌, u64}

-- `struct fiemap_extent`: three `__u64` and a `__u32`.
pub record Extent : Type 0 where
  pub fe_logical : ℕ
  pub fe_physical : ℕ
  pub fe_length : ℕ
  pub fe_flags : ℕ

-- The constants FIEMAP_EXTENT_* that the checks use; <linux/fiemap.h> gives their values.
pub record ExtentFlags : Type 0 where
  pub last : ℕ
  pub unknown : ℕ
  pub delalloc : ℕ
  pub encoded : ℕ
  pub data_encrypted : ℕ
  pub not_aligned : ℕ
  pub data_inline : ℕ
  pub data_tail : ℕ
  pub unwritten : ℕ

-- What is wrong with the flags of one extent, in the order of the tests of `check_flags`.
pub data FlagError : Type 0 where
  not_aligned_not_set encoded_not_set not_aligned_set last_set : FlagError
  unknown_not_set inline_not_aligned_not_set tail_not_aligned_not_set : FlagError

-- One line of `show_extent_block`: the first and last logical and physical block, flags, total.
pub record ExtentLine : Type 0 where
  pub logical_first : ℕ
  pub logical_last : ℕ
  pub phys_first : ℕ
  pub phys_last : ℕ
  pub flags : ℕ
  pub tot : ℕ

-- The lines that the checks print, with the number that each line shows.
pub data Message : Type 0 where
  flag_error : FlagError → ℕ → Message
  unwritten_not_set no_extent last_not_set : ℕ → Message
  fibmap_failed no_memory read_failed : Message
  fiemap_is_wrong : ℕ → Message
  not_zero_filled : ℕ → ℕ → Message
  weird_fs allocated_hole weird_value : ℕ → Message
  map_is : List ℕ → Message
  extent_line : ExtentLine → Message
  indeterminate_read : Message

-- The letters of a map: data, hole, preallocated.
abbrev pub data_block : ℕ
data_block = b'D'

abbrev pub hole_block : ℕ
hole_block = b'H'

abbrev pub prealloc_block : ℕ
prealloc_block = b'P'

-- The first byte after an extent, in `__u64` arithmetic.
abbrev pub end_of : Extent → ℕ
end_of x = u64 (x.fe_logical + x.fe_length)

-- `show_extent_block`; `length - 1` wraps for an empty extent.
unfoldable pub show_extent_block : Extent → ℕ → ExtentLine
show_extent_block x blocksize = record {
  logical_first = x.fe_logical / blocksize;
  logical_last = u64 (x.fe_logical + x.fe_length + (2 ^ 64 - 1)) / blocksize;
  phys_first = x.fe_physical / blocksize;
  phys_last = u64 (x.fe_physical + x.fe_length + (2 ^ 64 - 1)) / blocksize;
  flags = x.fe_flags;
  tot = x.fe_length / blocksize;
}

-- `show_extents`: a line for each mapped extent.
unfoldable pub show_extents : List Extent → ℕ → List Message
show_extents [] blocksize = []
show_extents (x ∷ xs) blocksize =
    extent_line (show_extent_block x blocksize) ∷ show_extents xs blocksize

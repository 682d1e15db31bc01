-- ===== src/Fiemap/Create.antt =====
-- `generate_file_mapping` and `create_file_from_mapping` of incoming/fiemap-test.c.
pub mod Laws
pub mod File
use testunion.Common.{
  ℕ, zero, suc, ◌+◌, ◌-◌, ◌%◌, ◌^◌, List, [], ◌∷◌, ◌++◌, Bool, true, false, Option, none, some, ltb,
  ◌==◌, if◌then◌else◌, u32, extend,
}
use testunion.Fiemap.Extent.{data_block, hole_block, prealloc_block}

-- The `switch` of `generate_file_mapping` on `random() % num_types`.
unfoldable pub letter : ℕ → ℕ
letter num = if num == 0 then data_block else if num == 1 then hole_block else prealloc_block

-- `random k` is what the k-th call of `random()` returns. The argument counts the blocks left.
unfoldable pub generate_from : (ℕ → ℕ) → ℕ → ℕ → ℕ → List ℕ
generate_from random num_types zero i = []
generate_from random num_types (suc n) i =
    letter (random i % num_types) ∷ generate_from random num_types n (i + 1)

-- `none` is the return of NULL when `malloc` failed.
unfoldable pub generate_file_mapping : (ℕ → ℕ) → Bool → ℕ → Bool → Option (List ℕ)
generate_file_mapping random memory blocks prealloc =
    if memory then some (generate_from random (if prealloc then 3 else 2) blocks 0) else none

-- A system call on the file, and what it returned: a count or an offset, or -1.
pub data Call : Type 0 where
  write : ℕ → Call
  fallocate : ℕ → ℕ → Call
  lseek : ℕ → Call

pub data Answer : Type 0 where
  returned : ℕ → Answer
  failed : Answer

-- How `create_file_from_mapping` ends; all but `created` return -1 or the error of `fallocate`.
pub data Created : Type 0 where
  created no_memory short_write fallocate_error lseek_error unrecognized : Created

abbrev pub Kernel : Type 0
Kernel = List Call → Call → Answer

module _ (kernel : Kernel) (blocksize : ℕ) where
  -- `ret < bufsize`, which holds of -1 too.
  abbrev pub is_short : Answer → Bool
  is_short (returned n) = ltb n blocksize
  is_short failed = true

  abbrev pub is_failed : Answer → Bool
  is_failed (returned n) = false
  is_failed failed = true

  -- `ret == (off_t) -1`, where `ret` is the `int` that keeps 32 bits of an offset.
  abbrev pub seek_failed : Answer → Bool
  seek_failed (returned n) = u32 n == 2 ^ 32 - 1
  seek_failed failed = true

  -- The case 'H', into which 'P' falls through.
  unfoldable pub seek_block : List Call → List Call × Created
  seek_block calls = (
    calls ++ (lseek blocksize ∷ []),
    (if seek_failed (kernel calls (lseek blocksize)) then lseek_error else created),
  )

  -- The `switch` on one letter: the calls made so far and how it ended. The argument `cur_offset` is
  -- the 32 bits of an `int`, which `fallocate` is given as an `off_t`.
  unfoldable pub create_block : ℕ → ℕ → List Call → List Call × Created
  create_block ch cur_offset calls =
      if ch == data_block
      then (
        calls ++ (write blocksize ∷ []),
        (if is_short (kernel calls (write blocksize)) then short_write else created),
      )
      else if ch == prealloc_block
      then (if is_failed (kernel calls (fallocate (extend cur_offset) blocksize))
          then (calls ++ (fallocate (extend cur_offset) blocksize ∷ []), fallocate_error)
          else seek_block (calls ++ (fallocate (extend cur_offset) blocksize ∷ [])))
      else if ch == hole_block
      then seek_block calls
      else (calls, unrecognized)

  unfoldable pub create_blocks : List ℕ → ℕ → List Call → List Call × Created
  create_blocks [] cur_offset calls = (calls, created)
  create_blocks (ch ∷ map) cur_offset calls =
      let step = create_block ch cur_offset calls in
      let rest = create_blocks map (u32 (cur_offset + blocksize)) step.0 in
      elim step.1 [ created ↦ rest | _ ↦ step ]

  unfoldable pub create_file_from_mapping : Bool → List ℕ → List Call × Created
  create_file_from_mapping memory map = if memory then create_blocks map 0 [] else ([], no_memory)

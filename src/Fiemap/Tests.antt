-- ===== src/Fiemap/Tests.antt =====
-- The theorems of Fiemap at a file of one block of data and one hole, and runs of the checks.
use mathlib.Core.Option.{some-injective}
use testunion.Common.{
  ℕ, ◌≡◌, ◌↔◌, refl, arith, subst, List, [], ◌∷◌, Bool, true, false, none, some, All, In, get_elem?,
  length, pos,
}
use testunion.Fiemap.Extent.{Extent, ExtentFlags, no_extent}
use testunion.Fiemap.Flags.Laws.{IsBlocksize, FitsU64, AllWellFlagged, check_flags_iff}
use testunion.Fiemap.Flags.{check_flags, check_extent, align}
use testunion.Fiemap.Data.{check_data, search_extent, after_search}
use testunion.Fiemap.Data.Laws.{
  IsBlocks, IsSorted, Holds, Backed, check_data_iff, check_data-prealloc,
}
use testunion.Fiemap.Data.Gaps.{check_data-split, check_data-gap}
use testunion.Fiemap.Hole.{FileSystem, check_hole}
use testunion.Fiemap.Hole.Laws.{IsZeroBlock, check_hole_iff}
use testunion.Fiemap.Compare.{
  compare_fiemap_and_map, compare_loop, check_chunk, check_block, check_data_block, find_last_data,
  divided, after_log,
}
use testunion.Fiemap.Compare.Letters.{IsRegular}
use testunion.Fiemap.Compare.Pieces.{is_same, returns}
use testunion.Fiemap.Compare.Verdict.{IsShown, compare_iff, compare_returns}
use testunion.Fiemap.Create.{
  generate_file_mapping, generate_from, letter, Kernel, returned, Call, create_file_from_mapping,
  create_blocks, create_block, seek_block,
}
use testunion.Fiemap.Create.Laws.{IsLetter, generate-IsLetter}
use testunion.Fiemap.Main.{Round, done, main_loop, run_body, test_map, passed}
use testunion.Fiemap.Main.Laws.{main_loop-returns}

-- The values of the constants on Linux.
abbrev flags : ExtentFlags
flags = record {
  last = 0x1;
  unknown = 0x2;
  delalloc = 0x4;
  encoded = 0x8;
  data_encrypted = 0x80;
  not_aligned = 0x100;
  data_inline = 0x200;
  data_tail = 0x400;
  unwritten = 0x800;
}

abbrev first_block : Extent
first_block = record { fe_logical = 0; fe_physical = 4096; fe_length = 512; fe_flags = 1 }

abbrev extents : List Extent
extents = first_block ∷ []

abbrev sys : FileSystem
sys = record {
  fibmap = λ _. some 0;
  malloc = λ _. true;
  pread = λ _ _. none;
  fiemap = λ _ _ _. some extents;
}

b512 : IsBlocksize 512
b512 = record { exponent = 9; is_pow = refl; small = omega arith }

extents-fit : All FitsU64 extents
extents-fit = omega arith

extents-IsBlocks : All (IsBlocks 512) extents
extents-IsBlocks = omega arith

regular : IsRegular sys 512
regular start len count xs e =
    subst (λ l. All FitsU64 l × All (IsBlocks 512) l × IsSorted 512 l) (some-injective _ _ e)
      (extents-fit, extents-IsBlocks, (tt, tt))

abbrev letters : List ℕ
letters = b'D' ∷ b'H' ∷ []

-- The comparison of that file runs to the return of 0.
compare_runs : is_same (compare_fiemap_and_map flags sys 512 32 56 7 letters false) ≡ true
unfolding compare_fiemap_and_map compare_loop divided check_chunk check_block check_data_block
    find_last_data after_log check_flags check_extent align check_data search_extent after_search
    check_hole
compare_runs = refl

compare_iff_example :
    (is_same (compare_fiemap_and_map flags sys 512 32 56 7 letters false) ≡ true)
    ↔ ((i a : ℕ) → get_elem? letters i ≡ some a → IsShown flags sys 512 letters 2 i a)
compare_iff_example =
    compare_iff flags sys 512 32 56 7 b'D' (b'H' ∷ []) false b512 regular (omega arith) refl

compare_returns_example :
    returns (compare_fiemap_and_map flags sys 512 32 56 7 letters false) ≡ true
compare_returns_example = compare_returns flags sys 512 32 56 7 b'D' (b'H' ∷ []) false (omega arith)

check_flags_iff_example : (check_flags flags 512 extents ≡ none) ↔ AllWellFlagged flags 512 extents
check_flags_iff_example = check_flags_iff flags b512 extents extents-fit

check_data_iff_example :
    (check_data flags 512 extents 0 true false ≡ none) ↔ Backed flags 512 extents 0 true false
check_data_iff_example =
    check_data_iff flags 512 extents 0 true false (omega arith) extents-IsBlocks (tt, tt)

check_hole_iff_example :
    ((check_hole sys 512 extents 512 false).passed ≡ true)
    ↔ ((x : Extent) → In x extents → Holds 512 512 x → IsZeroBlock sys 512 512)
check_hole_iff_example =
    check_hole_iff sys 512 512 false (omega arith) extents extents-IsBlocks (tt, tt)

abbrev part : ℕ → ℕ → Extent
part start len = record { fe_logical = start; fe_physical = 0; fe_length = len; fe_flags = 0 }

check_data-split_example :
    check_data flags 512 (part 0 100 ∷ part 100 412 ∷ []) 0 true true ≡ some (no_extent 0)
check_data-split_example =
    check_data-split flags 512 refl (part 0 100) (part 100 412) 0 true true (omega arith)
      (omega arith) (omega arith) (omega arith) refl refl

check_data-gap_example : check_data flags 512 (part 0 100 ∷ part 101 512 ∷ []) 0 false true ≡ none
check_data-gap_example =
    check_data-gap flags 512 refl (part 0 100) (part 101 512) 0 false true (omega arith)
      (omega arith) (omega arith) (omega arith) refl (omega arith) (λ e. absurd (cc))

check_data-prealloc_example :
    check_data flags 512 extents 0 true true ≡ check_data flags 512 extents 0 true false
check_data-prealloc_example = check_data-prealloc flags 512 refl extents 0 true true

abbrev map_of_two : List ℕ
map_of_two = b'H' ∷ b'H' ∷ []

generate-IsLetter_example : (length map_of_two ≡ 2) × All (IsLetter false) map_of_two
unfolding generate_file_mapping generate_from letter
generate-IsLetter_example = generate-IsLetter (λ _. 5) true 2 false refl

-- A kernel that always does what it is asked.
abbrev obliging : Kernel
obliging calls (Call.write n) = returned n
obliging calls _ = returned 0

-- A run that makes a file of one hole and finds it right.
abbrev good_round : Round
good_round = record {
  random_blocks = 1;
  random_letter = λ _. 1;
  random_piece = 0;
  map_memory = true;
  buffer_memory = true;
  kernel = obliging;
  sys = record sys { fiemap = λ _ _ _. some [] };
  truncates = true;
  seeks = true;
}

good_body : (v : Bool) → run_body flags 32 56 512 true good_round none v ≡ passed v
unfolding run_body test_map generate_file_mapping generate_from letter create_file_from_mapping
    create_blocks create_block seek_block compare_fiemap_and_map divided compare_loop check_chunk
    check_block find_last_data check_flags check_hole
good_body v = refl

two_runs : main_loop flags 32 56 512 true 3 (λ _. good_round) 0 0 (pos 2) none false ≡ done 2
two_runs =
    main_loop-returns flags 32 56 512 true (λ _. good_round) 3 0 0 1 false (omega arith)
      λ j v. (v, good_body v)

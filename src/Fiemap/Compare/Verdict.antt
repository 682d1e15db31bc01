-- ===== src/Fiemap/Compare/Verdict.antt =====
-- What a return of 0 from `compare_fiemap_and_map` means for every block of the map.
use testunion.Common.{
  ℕ, ◌+◌, ◌*◌, ◌/◌, ◌%◌, ◌<◌, ◌^◌, ◌≡◌, ◌↔◌, arith, List, ◌∷◌, Bool, true, none, some, length,
  get_elem?, AllFrom-get_elem?, get_elem?-AllFrom, u64,
}
use testunion.Fiemap.Extent.{Extent, ExtentFlags}
use testunion.Fiemap.Flags.Laws.{IsBlocksize, AllWellFlagged, check_flags_iff, blocksize-positive}
use testunion.Fiemap.Hole.{FileSystem}
use testunion.Fiemap.Compare.{Compared, find_last_data, compare_loop, compare_fiemap_and_map}
use testunion.Fiemap.Compare.Letters.{IsRegular, Matches, passes_iff}
use testunion.Fiemap.Compare.Pieces
use testunion.Fiemap.Compare.Pieces.{is_same, returns, divided-positive}
use testunion.Fiemap.Compare.Rounds

module _ (fl : ExtentFlags) (sys : FileSystem) (blocksize : ℕ) where
  -- The program asked FIEMAP for the piece of `n` blocks that holds block `i`; the flags of the
  -- answer are consistent, and it shows the block as its letter says.
  pub record IsShown (map : List ℕ) (n i ch : ℕ) : Type 0 where
    pub extents : List Extent
    pub answer : sys.fiemap (u64 (i / n * n * blocksize)) (u64 (n * blocksize)) n ≡ some extents
    pub flags : AllWellFlagged fl blocksize extents
    pub matches : Matches fl sys blocksize map extents i ch

  module _ (header per_extent random : ℕ) (ch : ℕ) (tail : List ℕ) (warned : Bool) where
    abbrev letters : List ℕ
    letters = ch ∷ tail

    abbrev pieces : ℕ
    pieces = random % length letters + 1

    abbrev loop_result : Compared
    loop_result =
        compare_loop fl sys blocksize letters pieces (length letters)
          (find_last_data letters 0 none) 0 letters warned

    IsAt-start :
        Rounds.IsAt fl sys blocksize letters pieces
          (find_last_data letters 0 none)
          (length letters)
          0
          letters
    IsAt-start = record {
      piece = omega arith;
      left = omega arith;
      place = omega arith;
      enough = omega arith;
    }

    -- For a positive block size, the comparison of a map with a block returns: with as much fuel as
    -- the map has blocks the rounds end, and neither random() % blocks nor a division by the block
    -- size stops the program.
    pub compare_returns :
        0 < blocksize
        → returns (compare_fiemap_and_map fl sys blocksize header per_extent random letters warned)
          ≡ true
    unfolding compare_fiemap_and_map
    compare_returns positive =
        let ends =
          Rounds.loop-returns fl sys blocksize letters pieces (find_last_data letters 0 none)
            (length letters) 0 0 letters warned (omega arith) IsAt-start in
        ground (arith, divided-positive blocksize loop_result positive, ends)

    module _ (b : IsBlocksize blocksize) (regular : IsRegular sys blocksize)
        (small : length letters * blocksize < 2 ^ 31) where
      IsConfirmed-iff :
          (i a : ℕ)
          → get_elem? letters i ≡ some a
          → Pieces.IsConfirmed fl sys blocksize letters pieces (find_last_data letters 0 none) i a
            ↔ IsShown letters pieces i a
      IsConfirmed-iff i a e = (
        λ c.
            let (fits, blocks, sorted) = regular _ _ _ c.extents c.answer in
            record {
              extents = c.extents;
              answer = c.answer;
              flags = (check_flags_iff fl b c.extents fits).0 c.flags;
              matches =
                  (passes_iff fl sys blocksize letters small c.extents i a e blocks sorted).0
                    c.passes;
            },
        λ c.
            let (fits, blocks, sorted) = regular _ _ _ c.extents c.answer in
            record {
              extents = c.extents;
              answer = c.answer;
              flags = (check_flags_iff fl b c.extents fits).1 c.flags;
              passes =
                  (passes_iff fl sys blocksize letters small c.extents i a e blocks sorted).1
                    c.matches;
            },
      )

      -- For a power-of-two block size, a file below 2 GB, memory for the buffer and a FIEMAP whose
      -- answers are sorted, of whole blocks and within 64 bits, compare_fiemap_and_map returns 0
      -- exactly when for every block of the map the answer for the piece that holds it has
      -- consistent flags and shows the block as its letter says: backed by an extent, which is
      -- marked LAST if only holes follow and, for a preallocated block, has !fe_flags & UNWRITTEN
      -- equal to 0, or, for a hole, covered only by extents that FIBMAP confirms and that read as
      -- zeros.
      pub compare_iff :
          sys.malloc (header + pieces * per_extent) ≡ true
          → (is_same
                (compare_fiemap_and_map fl sys blocksize header per_extent random letters warned)
              ≡ true)
            ↔ ((i : ℕ) (a : ℕ) → get_elem? letters i ≡ some a → IsShown letters pieces i a)
      unfolding compare_fiemap_and_map
      compare_iff memory =
          rw (memory, divided-positive blocksize loop_result (blocksize-positive b))
            (
              λ same i a e.
                  let n : 0 + i ≡ i = omega arith in
                  let all =
                    Rounds.loop_sound fl sys blocksize letters pieces
                      (find_last_data letters 0 none) (length letters) 0 0 letters warned
                      (omega arith) IsAt-start same in
                  let own = AllFrom-get_elem? _ letters 0 i all e in
                  (IsConfirmed-iff i a e).0 (rw n at own),
              λ shown.
                  Rounds.loop_complete fl sys blocksize letters pieces
                    (find_last_data letters 0 none) (length letters) 0 0 letters warned
                    (omega arith) IsAt-start
                    (get_elem?-AllFrom _ letters 0 λ j a e.
                      let n : 0 + j ≡ j = omega arith in
                      rw n ((IsConfirmed-iff j a e).1 (shown j a e))),
            )

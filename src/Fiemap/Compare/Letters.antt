-- ===== src/Fiemap/Compare/Letters.antt =====
-- What it means that a block passes: the extents show it as its letter says.
use native.Mathlib.Nat.{mul-mod_left}
use mathlib.Core.Bool.{false≢true}
use testunion.Common.{
  ℕ, suc, ◌+◌, ◌*◌, ◌≤◌, ◌<◌, ◌^◌, ◌≡◌, ◌↔◌, ◌⊎◌, arith, List, Bool, true, false, none, some,
  length, drop, get_elem?, get_elem?-lt, ==_iff, Bool-cases, inl, inr, All, In, u64, ◌==◌,
}
use testunion.Fiemap.Extent.{Extent, ExtentFlags, data_block, hole_block, prealloc_block}
use testunion.Fiemap.Flags.Laws.{FitsU64}
use testunion.Fiemap.Data.{check_data}
use testunion.Fiemap.Data.Laws.{IsBlockOffset, IsBlocks, IsSorted, Holds, Backed, check_data_iff}
use testunion.Fiemap.Hole.{FileSystem}
use testunion.Fiemap.Hole.Laws.{IsZeroBlock, check_hole_iff}
use testunion.Fiemap.Compare.{check_data_block, check_block, find_last_data}
use testunion.Fiemap.Compare.Blocks.{BlockPasses, all_holes, find_last_data_lem}

module _ (sys : FileSystem) (blocksize : ℕ) where
  -- The answers of FIEMAP are sorted, of whole blocks and within 64 bits.
  abbrev pub IsRegular : Type 0
  IsRegular =
      (start len count : ℕ) (xs : List Extent)
      → sys.fiemap start len count ≡ some xs
      → All FitsU64 xs × All (IsBlocks blocksize) xs × IsSorted blocksize xs

module _ (fl : ExtentFlags) (sys : FileSystem) (blocksize : ℕ) where
  -- The extents show block `i` as its letter says.
  abbrev pub Matches : List ℕ → List Extent → ℕ → ℕ → Type 0
  Matches map xs i ch =
      ((ch ≡ data_block)
        × Backed fl blocksize xs (i * blocksize) (all_holes (drop (suc i) map)) false)
      ⊎ ((ch ≡ prealloc_block)
          × Backed fl blocksize xs (i * blocksize) (all_holes (drop (suc i) map)) true)
      ⊎ ((ch ≡ hole_block)
          × ((x : Extent)
              → In x xs
              → Holds blocksize (i * blocksize) x
              → IsZeroBlock sys blocksize (i * blocksize)))

  data_block_iff :
      (xs : List Extent) (l i : ℕ) (prealloc warned : Bool)
      → ((check_data_block fl sys blocksize xs (some l) i prealloc warned).passed ≡ true)
        ↔ (check_data fl blocksize xs (u64 (i * blocksize)) (l == i) prealloc ≡ none)
  unfolding check_data_block
  data_block_iff xs l i prealloc warned = ground arith

  module _ (map : List ℕ) (small : length map * blocksize < 2 ^ 31) where
    block_offset :
        (i : ℕ) {ch : ℕ}
        → get_elem? map i ≡ some ch
        → IsBlockOffset blocksize (i * blocksize) × (u64 (i * blocksize) ≡ i * blocksize)
    block_offset i e =
        let inside : i * blocksize + blocksize ≤ length map * blocksize =
          grind (arith, get_elem?-lt map i e) in
        ((mul-mod_left i blocksize, omega arith), omega arith)

    data_passes_iff :
        (xs : List Extent) (i : ℕ) {ch : ℕ} (prealloc : Bool)
        → get_elem? map i ≡ some ch
        → (ch == hole_block) ≡ false
        → All (IsBlocks blocksize) xs
        → IsSorted blocksize xs
        → ((check_data_block fl sys blocksize xs
              (find_last_data map 0 none)
              i
              prealloc
              false).passed
            ≡ true)
          ↔ Backed fl blocksize xs (i * blocksize) (all_holes (drop (suc i) map)) prealloc
    data_passes_iff xs i prealloc e no_hole h s =
        let (l, assigned, is_last) = find_last_data_lem map 0 none i e no_hole in
        let n : 0 + i ≡ i = omega arith in
        let last : (l == i) ≡ all_holes (drop (suc i) map) = rw n at is_last in
        let (o, wrap) = block_offset i e in
        let code = data_block_iff xs l i prealloc false in
        let spec = check_data_iff fl blocksize xs (i * blocksize) (l == i) prealloc o h s in
        rw (assigned, ← last)
          ((λ p. spec.0 (rw (← wrap) (code.0 p))), (λ p. code.1 (rw wrap (spec.1 p))))

    pub passes_iff :
        (xs : List Extent) (i ch : ℕ)
        → get_elem? map i ≡ some ch
        → All (IsBlocks blocksize) xs
        → IsSorted blocksize xs
        → BlockPasses fl sys blocksize xs (find_last_data map 0 none) i ch ↔ Matches map xs i ch
    unfolding check_block
    passes_iff xs i ch e h s = elim (Bool-cases (ch == data_block)) [
      | inl d ↦
          let is : ch ≡ data_block = (==_iff ch data_block).0 d in
          let own = data_passes_iff xs i false e (ground arith) h s in
          (
            λ p. inl (is, own.0 (rw d at p)),
            elim [
              | inl q ↦ rw d (own.1 q.1)
              | inr (inl q) ↦ absurd (omega (arith, q.0, is))
              | inr (inr q) ↦ absurd (omega (arith, q.0, is))
            ],
          )
      | inr no_data ↦ elim (Bool-cases (ch == hole_block)) [
        | inl d ↦
            let is : ch ≡ hole_block = (==_iff ch hole_block).0 d in
            let (o, wrap) = block_offset i e in
            let own = check_hole_iff sys blocksize (i * blocksize) false o xs h s in
            (
              λ p. inr (inr (is, own.0 (rw (← wrap) (rw (no_data, d) at p)))),
              elim [
                | inl q ↦ absurd (omega (arith, q.0, is))
                | inr (inl q) ↦ absurd (omega (arith, q.0, is))
                | inr (inr q) ↦ rw (no_data, d, wrap) (own.1 q.1)
              ],
            )
        | inr no_hole ↦ elim (Bool-cases (ch == prealloc_block)) [
          | inl d ↦
              let is : ch ≡ prealloc_block = (==_iff ch prealloc_block).0 d in
              let own = data_passes_iff xs i true e no_hole h s in
              (
                λ p. inr (inl (is, own.0 (rw (no_data, no_hole, d) at p))),
                elim [
                  | inl q ↦ absurd (omega (arith, q.0, is))
                  | inr (inl q) ↦ rw (no_data, no_hole, d) (own.1 q.1)
                  | inr (inr q) ↦ absurd (omega (arith, q.0, is))
                ],
              )
          | inr other ↦ (
            λ p. absurd (false≢true (rw (no_data, no_hole, other) at p)),
            elim [
              | inl q ↦ absurd (ground (arith, q.0))
              | inr (inl q) ↦ absurd (ground (arith, q.0))
              | inr (inr q) ↦ absurd (ground (arith, q.0))
            ],
          )
        ]
      ]
    ]

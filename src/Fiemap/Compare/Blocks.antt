-- ===== src/Fiemap/Compare/Blocks.antt =====
-- The inner loop of `compare_fiemap_and_map`: which blocks one answer is checked for.
use testunion.Common.{
  ℕ, zero, suc, ◌+◌, ◌*◌, ◌≤◌, ◌<◌, ◌≡◌, ◌↔◌, refl, arith, List, [], ◌∷◌, Bool, true, false, Option,
  some, ◌==◌, if◌then◌else◌, length, get_elem?, drop, take, AllFrom, Bool-cases, inl, inr, ◌⊎◌, u64,
}
use testunion.Fiemap.Extent.{Extent, ExtentFlags, hole_block}
use testunion.Fiemap.Hole.{FileSystem, check_weird_fs_hole, check_buffer, check_hole}
use testunion.Fiemap.Compare.{check_data_block, check_block, check_chunk, find_last_data}

-- No block of data or preallocation is left.
abbrev pub all_holes : List ℕ → Bool
all_holes [] = true
all_holes (ch ∷ map) = if ch == hole_block then all_holes map else false

find_last_data-some :
    (map : List ℕ) (i k : ℕ)
    → k < i
    → (l : ℕ) × (find_last_data map i (some k) ≡ some l)
      × ((l == k) ≡ all_holes map)
      × ((l ≡ k) ⊎ (i ≤ l))
unfolding find_last_data
find_last_data-some [] i k h = (k, refl, ground arith, inl refl)
find_last_data-some (ch ∷ map) i k h = elim (Bool-cases (ch == hole_block)) [
  | inl e ↦
      let (l, p, q, r) = find_last_data-some map (i + 1) k (omega arith) in
      (l, rw e p, ground arith, ground arith)
  | inr e ↦
      let (l, p, q, r) = find_last_data-some map (i + 1) i (omega arith) in
      (l, rw e p, ground arith, ground arith)
]

-- At a block that is no hole the variable `last_data` has been assigned, and it is the index of
-- the block exactly when only holes follow.
pub find_last_data_lem :
    (map : List ℕ) (i : ℕ) (acc : Option ℕ) (j : ℕ) {ch : ℕ}
    → get_elem? map j ≡ some ch
    → (ch == hole_block) ≡ false
    → (l : ℕ) × (find_last_data map i acc ≡ some l) × ((l == i + j) ≡ all_holes (drop (suc j) map))
unfolding find_last_data
find_last_data_lem [] i acc j e h = absurd (cc)
find_last_data_lem (x ∷ map) i acc zero {ch} e h =
    let (l, p, q, r) = find_last_data-some map (i + 1) i (omega arith) in
    let test : (x == hole_block) ≡ false = ground arith in (l, rw test p, ground arith)
find_last_data_lem (x ∷ map) i acc (suc j) e h =
    let (l, p, q) =
      find_last_data_lem map (i + 1) (if x == hole_block then acc else some i) j e h in
    let n : i + suc j ≡ i + 1 + j = omega arith in (l, p, rw n q)

module _ (fl : ExtentFlags) (sys : FileSystem) (blocksize : ℕ) where
  check_hole-warned :
      (xs : List Extent) (a : ℕ) (w v : Bool)
      → (check_hole sys blocksize xs a w).passed ≡ (check_hole sys blocksize xs a v).passed
  unfolding check_hole check_weird_fs_hole check_buffer
  check_hole-warned [] a w v = refl
  check_hole-warned (x ∷ xs) a w v = ground (arith, check_hole-warned xs a w v)

  -- Whether a block passes does not depend on the warning.
  pub check_block-warned :
      (xs : List Extent) (last : Option ℕ) (i ch : ℕ) (w v : Bool)
      → (check_block fl sys blocksize xs last i ch w).passed
        ≡ (check_block fl sys blocksize xs last i ch v).passed
  unfolding check_block check_data_block
  check_block-warned xs last i ch w v =
      ground (arith, check_hole-warned xs (u64 (i * blocksize)) w v)

  abbrev pub BlockPasses : List Extent → Option ℕ → ℕ → ℕ → Type 0
  BlockPasses xs last i ch = (check_block fl sys blocksize xs last i ch false).passed ≡ true

  -- The loop over a piece of at most `n` blocks looks at the first `n` letters that are left.
  pub check_chunk_lem :
      (btm : ℕ) (xs : List Extent) (last : Option ℕ) (n c i : ℕ) (map : List ℕ) (w : Bool)
      → c + n ≡ btm + 1
      → ((check_chunk fl sys blocksize btm xs last c i map w).passed ≡ true)
        ↔ AllFrom (BlockPasses xs last) i (take n map)
  unfolding check_chunk
  check_chunk_lem btm xs last zero c i [] w e = (λ _. tt, λ _. refl)
  check_chunk_lem btm xs last zero c i (ch ∷ map) w e = (λ _. tt, λ _. ground arith)
  check_chunk_lem btm xs last (suc n) c i [] w e = (λ _. tt, λ _. refl)
  check_chunk_lem btm xs last (suc n) c i (ch ∷ map) w e =
      let r = check_block fl sys blocksize xs last i ch w in
      ground (
        arith,
        check_block-warned xs last i ch w false,
        check_chunk_lem btm xs last n (c + 1) (i + 1) map r.warned (omega arith),
      )

  pub check_chunk-next :
      (btm : ℕ) (xs : List Extent) (last : Option ℕ) (n c i : ℕ) (map : List ℕ) (w : Bool)
      → c + n ≡ btm + 1
      → (check_chunk fl sys blocksize btm xs last c i map w).passed ≡ true
      → ((check_chunk fl sys blocksize btm xs last c i map w).next ≡ i + length (take n map))
        × ((check_chunk fl sys blocksize btm xs last c i map w).rest ≡ drop n map)
  unfolding check_chunk
  check_chunk-next btm xs last zero c i [] w e p = (omega arith, refl)
  check_chunk-next btm xs last zero c i (ch ∷ map) w e p = ground arith
  check_chunk-next btm xs last (suc n) c i [] w e p = (omega arith, refl)
  check_chunk-next btm xs last (suc n) c i (ch ∷ map) w e p =
      let r = check_block fl sys blocksize xs last i ch w in
      ground (arith, check_chunk-next btm xs last n (c + 1) (i + 1) map r.warned (omega arith))

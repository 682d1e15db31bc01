-- ===== src/Fiemap/Main/Truth.antt =====
-- What a FIEMAP that tells the truth about a file is, and that the comparison then finds every
-- block of the map shown.
use Prim.Native.Nat.{bit_and, bit_and-bitwise}
use native.Mathlib.Decide.{dec_lt}
use native.Mathlib.Nat.{
  div-add-mod, mod-lt, div-lt_iff_lt-mul, le-div_iff_mul-le, mul-mod_left, mul-le-mul_right,
}
use mathlib.Core.Option.{some-injective}
use testunion.Common.{
  ℕ, zero, suc, ◌+◌, ◌*◌, ◌/◌, ◌%◌, ◌≤◌, ◌<◌, ◌^◌, ◌≡◌, ◌≢◌, refl, arith, List, [], ◌∷◌, Bool, true,
  false, some, has, not_ℕ, length, drop, get_elem?, get_elem?-lt, lt-get_elem?, In, u64, inl, inr,
  ◌∙◌,
}
use testunion.Fiemap.Extent.{Extent, ExtentFlags, hole_block}
use testunion.Fiemap.Flags.Laws.{AllWellFlagged}
use testunion.Fiemap.Data.Laws.{Holds, Backed}
use testunion.Fiemap.Hole.{FileSystem}
use testunion.Fiemap.Compare.Blocks.{all_holes}
use testunion.Fiemap.Compare.Letters.{IsRegular}
use testunion.Fiemap.Compare.Verdict.{IsShown}
use testunion.Fiemap.Create.Laws.{IsLetter}
use testunion.Fiemap.Create.File.{Space, absent, stored, reserved, File, Lays, space_of}

module _ (fl : ExtentFlags) (blocksize : ℕ) where
  -- The answers of FIEMAP for a file of whole blocks: sorted, of whole blocks, with consistent
  -- flags, complete for the range that was asked for when there is room for an extent per block,
  -- UNWRITTEN where the file is preallocated, LAST where only a hole follows, and no extent over a
  -- hole.
  pub record IsTruthful (f : File) (sys : FileSystem) : Type 0 where
    pub answers :
        (start len count : ℕ) → (xs : List Extent) × (sys.fiemap start len count ≡ some xs)
    pub regular : IsRegular sys blocksize
    pub flagged :
        (start len count : ℕ) (xs : List Extent)
        → sys.fiemap start len count ≡ some xs
        → AllWellFlagged fl blocksize xs
    pub backs :
        (start len count a : ℕ) (xs : List Extent) (k : Space)
        → sys.fiemap start len count ≡ some xs
        → len ≤ count * blocksize
        → a % blocksize ≡ 0
        → start ≤ a
        → a + blocksize ≤ start + len
        → k ≢ absent
        → ((p : ℕ) → a ≤ p → p < a + blocksize → f.space p ≡ k)
        → (x : Extent) × In x xs
          × Holds blocksize a x
          × (k ≡ reserved → has x.fe_flags fl.unwritten ≡ true)
          × (((p : ℕ) → a + blocksize ≤ p → f.space p ≡ absent) → has x.fe_flags fl.last ≡ true)
    pub holes :
        (start len count a : ℕ) (xs : List Extent) (x : Extent)
        → sys.fiemap start len count ≡ some xs
        → f.space a ≡ absent
        → In x xs
        → Holds blocksize a x
        → ⊥

  -- An extent that is marked UNWRITTEN passes the test of a preallocated block.
  unwritten-passes :
      (x : Extent)
      → has x.fe_flags fl.unwritten ≡ true
      → has (not_ℕ x.fe_flags) fl.unwritten ≡ false
  unwritten-passes x e =
      let none_set : bit_and 0 fl.unwritten ≡ 0 = bit_and-bitwise 0 fl.unwritten in
      ground (arith, none_set)

  -- The block of a byte.
  block-bounds :
      (p : ℕ)
      → 0 < blocksize
      → (p / blocksize * blocksize ≤ p) × (p < p / blocksize * blocksize + blocksize)
  block-bounds p pos =
      let split = div-add-mod p blocksize in let rest = mod-lt p pos in (grind arith, grind arith)

  all_holes-hole :
      (map : List ℕ) (i j : ℕ) {ch : ℕ}
      → all_holes (drop i map) ≡ true
      → i ≤ j
      → get_elem? map j ≡ some ch
      → ch ≡ hole_block
  all_holes-hole [] i j e le q = absurd (ground arith)
  all_holes-hole (c ∷ map) zero zero e le q = ground (arith, some-injective _ _ q)
  all_holes-hole (c ∷ map) zero (suc j) {ch} e le q =
      ground (arith, all_holes-hole map 0 j {ch = ch})
  all_holes-hole (c ∷ map) (suc i) zero e le q = absurd (omega arith)
  all_holes-hole (c ∷ map) (suc i) (suc j) e le q = all_holes-hole map i j e (omega arith) q

  module _ (map : List ℕ) (f : File) (laid : Lays blocksize 0 map f)
      (positive : 0 < blocksize) where
    -- Where only holes of the map follow, only a hole of the file follows.
    all_holes-absent :
        (i p : ℕ) → all_holes (drop i map) ≡ true → i * blocksize ≤ p → f.space p ≡ absent
    all_holes-absent i p e le = elim (dec_lt p (length map * blocksize)) [
      | no ge ↦ laid.behind p (omega arith)
      | yes lt ↦
          let (lo, hi) = block-bounds p positive in
          let (ch, q) = lt-get_elem? map (p / blocksize) ((div-lt_iff_lt-mul positive).1 lt) in
          let is : ch ≡ hole_block =
            all_holes-hole map i (p / blocksize) e ((le-div_iff_mul-le positive).1 le) q in
          laid.blocks (p / blocksize) ch p q (omega arith) (omega arith) ∙ rw is refl
    ]

    module _ (sys : FileSystem) (truth : IsTruthful f sys) (small : length map * blocksize < 2 ^ 31)
        (n : ℕ) (asks : 0 < n) (fits : n ≤ length map) where
      -- The piece that is asked for holds the block, and its numbers fit their types.
      piece-holds :
          (i : ℕ)
          → i < length map
          → let start = u64 (i / n * n * blocksize) in
            let len = u64 (n * blocksize) in
            (start ≤ i * blocksize)
            × (i * blocksize + blocksize ≤ start + len)
            × (len ≤ n * blocksize)
      piece-holds i inside =
          let split = div-add-mod i n in
          let rest = mod-lt i asks in
          let le : i / n * n ≤ i = grind arith in
          let lt : suc i ≤ i / n * n + n = grind arith in
          let low = mul-le-mul_right blocksize le in
          let high = mul-le-mul_right blocksize lt in
          let top = mul-le-mul_right blocksize inside in
          let part = mul-le-mul_right blocksize fits in omega arith

      allocated-Backed :
          (i ch : ℕ) (xs : List Extent) (k : Space)
          → get_elem? map i ≡ some ch
          → space_of ch ≡ k
          → k ≢ absent
          → sys.fiemap (u64 (i / n * n * blocksize)) (u64 (n * blocksize)) n ≡ some xs
          → (prealloc : Bool) → (prealloc ≡ true → k ≡ reserved)
          → Backed fl blocksize xs (i * blocksize) (all_holes (drop (suc i) map)) prealloc
      allocated-Backed i ch xs k q is some_space answer prealloc pre =
          let (lo, hi, room) = piece-holds i (get_elem?-lt map i q) in
          let (x, member, held, unw, last) =
            truth.backs _ _ n (i * blocksize) xs k answer room (mul-mod_left i blocksize) lo hi
              some_space (λ p le lt. laid.blocks i ch p q (omega arith) (omega arith) ∙ is) in
          (
            x,
            member,
            held,
            (λ p. unwritten-passes x (unw (pre p))),
            λ e. last (λ p le. all_holes-absent (suc i) p e (omega arith)),
          )

      -- Each block of the map is shown.
      pub truth-IsShown :
          (prealloc : Bool) (i ch : ℕ)
          → IsLetter prealloc ch
          → get_elem? map i ≡ some ch
          → IsShown fl sys blocksize map n i ch
      truth-IsShown prealloc i ch letter q =
          let (xs, answer) = truth.answers (u64 (i / n * n * blocksize)) (u64 (n * blocksize)) n in
          record {
            extents = xs;
            answer = answer;
            flags = truth.flagged _ _ _ xs answer;
            matches = elim letter [
              | inl d ↦
                  inl (
                    d,
                    allocated-Backed i ch xs stored q (rw d refl) (λ e. cc) answer false λ e. cc,
                  )
              | inr (inl h) ↦ inr (
                  inr (
                    h,
                    λ x member held. absurd (
                        truth.holes _ _ _ (i * blocksize) xs x answer
                          (laid.blocks i ch (i * blocksize) q (omega arith) (omega arith)
                            ∙ rw h refl)
                          member held),
                  ))
              | inr (inr (p, on)) ↦ inr (
                  inl (
                    p,
                    allocated-Backed i ch xs reserved q (rw p refl) (λ e. cc) answer true λ e. refl,
                  ))
            ];
          }

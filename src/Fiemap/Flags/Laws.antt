-- ===== src/Fiemap/Flags/Laws.antt =====
-- What `check_flags` accepts, said without masks.
use native.Mathlib.Nat.{pow-le-pow_right, one-le-pow, mod-le}
use testunion.Common.{
  ℕ, ◌+◌, ◌-◌, ◌%◌, ◌^◌, ◌≤◌, ◌<◌, ◌≡◌, ◌↔◌, refl, arith, List, [], ◌∷◌, Bool, true, false, none,
  has, not64, u64, All,
}
use testunion.Bits.{bit_and_high_mask}
use testunion.Fiemap.Extent.{Extent, ExtentFlags}
use testunion.Fiemap.Flags.{align, check_extent, check_flags, more_left}

-- A block size that a file system can have: a power of two that fits an `int`.
pub record IsBlocksize (blocksize : ℕ) : Type 0 where
  pub exponent : ℕ
  pub is_pow : blocksize ≡ 2 ^ exponent
  pub small : exponent < 31

pub blocksize-positive : {blocksize : ℕ} → IsBlocksize blocksize → 0 < blocksize
blocksize-positive b = rw (b.is_pow) (one-le-pow b.exponent 2 (omega arith))

-- `align` rounds down to a multiple of the block size.
pub align_lem :
    {x blocksize : ℕ} → x < 2 ^ 64 → IsBlocksize blocksize → align x blocksize ≡ x - x % blocksize
unfolding align
align_lem {x} {blocksize} h b =
    let k : ℕ = b.exponent in
    let width : k + (64 - k) ≡ 64 = omega (arith, b.small) in
    let positive : 1 ≤ 2 ^ k = one-le-pow k 2 (omega arith) in
    let bounded : 2 ^ k ≤ 2 ^ 31 =
      pow-le-pow_right {n = 2} (omega arith) {j = 31} (omega (arith, b.small)) in
    let mask : not64 (u64 (2 ^ k + (2 ^ 64 - 1))) ≡ 2 ^ (k + (64 - k)) - 2 ^ k =
      rw width (omega (arith, positive, bounded)) in
    let x_fits : x < 2 ^ (k + (64 - k)) = rw width h in
    rw (b.is_pow, mask) (bit_and_high_mask k (64 - k) x x_fits)

pub align_iff :
    {x blocksize : ℕ}
    → x < 2 ^ 64
    → IsBlocksize blocksize
    → (align x blocksize ≡ x) ↔ (x % blocksize ≡ 0)
align_iff {x} {blocksize} h b = ground (arith, align_lem h b, mod-le x blocksize)

module _ (fl : ExtentFlags) (blocksize : ℕ) where
  -- The flags that an extent may have, by what they say of it.
  pub record IsWellFlagged (x : Extent) (more : Bool) : Type 0 where
    pub aligned :
        (has x.fe_flags fl.not_aligned ≡ false)
        ↔ ((x.fe_physical % blocksize ≡ 0) × (x.fe_length % blocksize ≡ 0))
    pub encrypted : has x.fe_flags fl.data_encrypted ≡ true → has x.fe_flags fl.encoded ≡ true
    pub final : has x.fe_flags fl.last ≡ true → more ≡ false
    pub delayed : has x.fe_flags fl.delalloc ≡ true → has x.fe_flags fl.unknown ≡ true
    pub inline_data : has x.fe_flags fl.data_inline ≡ true → has x.fe_flags fl.not_aligned ≡ true
    pub tail_data : has x.fe_flags fl.data_tail ≡ true → has x.fe_flags fl.not_aligned ≡ true

  abbrev pub AllWellFlagged : List Extent → Type 0
  AllWellFlagged [] = Unit
  AllWellFlagged (x ∷ xs) = IsWellFlagged x (more_left xs) × AllWellFlagged xs

abbrev pub FitsU64 : Extent → Type 0
FitsU64 x = (x.fe_physical < 2 ^ 64) × (x.fe_length < 2 ^ 64)

module _ (fl : ExtentFlags) {blocksize : ℕ} (b : IsBlocksize blocksize) where
  check_extent_iff :
      (x : Extent) (more : Bool)
      → FitsU64 x
      → (check_extent fl blocksize x more ≡ none) ↔ IsWellFlagged fl blocksize x more
  unfolding check_extent
  check_extent_iff x more fits = ground (arith, align_iff fits.0 b, align_iff fits.1 b)

  -- For a power-of-two block size and extents within 64 bits, check_flags returns 0 exactly when
  -- every extent is well flagged: NOT_ALIGNED is clear exactly for a physical offset and a length
  -- that are multiples of the block size, ENCRYPTED comes with ENCODED, LAST stands only on the
  -- final extent, DELALLOC comes with UNKNOWN, and INLINE and TAIL with NOT_ALIGNED.
  pub check_flags_iff :
      (xs : List Extent)
      → All FitsU64 xs
      → (check_flags fl blocksize xs ≡ none) ↔ AllWellFlagged fl blocksize xs
  unfolding check_flags
  check_flags_iff [] h = (λ _. tt, λ _. refl)
  check_flags_iff (x ∷ xs) h =
      ground (arith, check_extent_iff x (more_left xs) h.0, check_flags_iff xs h.1)

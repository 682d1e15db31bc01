-- ===== src/Fiemap/Data/Laws.antt =====
-- What `check_data` decides, for extents that start and end on block boundaries.
use Prim.Native.Nat.{bit_and, bit_and-bitwise}
use native.Mathlib.Nat.{div-add-mod}
use testunion.Common.{
  ℕ, ◌+◌, ◌%◌, ◌^◌, ◌≤◌, ◌<◌, ◌≡◌, ◌↔◌, inl, inr, refl, arith, List, [], ◌∷◌, Bool, true, false,
  ◌/◌, none, has, not_ℕ, u64, All, In, All-In,
}
use testunion.Fiemap.Extent.{Extent, ExtentFlags, end_of}
use testunion.Fiemap.Data.{
  Search, found, not_found, not_unwritten, search_extent, after_search, check_data,
}

-- The next multiple of the block size is at least a block away.
pub next_multiple :
    (blocksize a b : ℕ) → a % blocksize ≡ 0 → b % blocksize ≡ 0 → a < b → a + blocksize ≤ b
next_multiple blocksize a b ha hb lt =
    grind (arith, div-add-mod a blocksize, div-add-mod b blocksize)

module _ (blocksize : ℕ) where
  -- A place in the file: on a block boundary, with room for the arithmetic of the checks.
  abbrev pub IsBlockOffset : ℕ → Type 0
  IsBlockOffset a = (a % blocksize ≡ 0) × (a + blocksize < 2 ^ 64)

  abbrev pub logical_end : Extent → ℕ
  logical_end x = x.fe_logical + x.fe_length

  -- An extent of whole blocks.
  pub record IsBlocks (x : Extent) : Type 0 where
    pub starts : x.fe_logical % blocksize ≡ 0
    pub ends : logical_end x % blocksize ≡ 0
    pub inhabited : 0 < x.fe_length
    pub bounded : logical_end x + blocksize < 2 ^ 64

  -- The extents come in the order of their offsets and do not overlap.
  abbrev pub IsSorted : List Extent → Type 0
  IsSorted [] = Unit
  IsSorted (x ∷ xs) = All (λ y. logical_end x ≤ y.fe_logical) xs × IsSorted xs

  -- The whole block at offset `a` lies in the extent.
  abbrev pub Holds : ℕ → Extent → Type 0
  Holds a x = (x.fe_logical ≤ a) × (a + blocksize ≤ logical_end x)

module _ (fl : ExtentFlags) (blocksize : ℕ) where
  search-found :
      (xs : List Extent) (prealloc : Bool) (a : ℕ) {x : Extent}
      → IsBlockOffset blocksize a
      → All (IsBlocks blocksize) xs
      → search_extent fl blocksize xs prealloc a ≡ found x
      → In x xs
        × Holds blocksize a x
        × (prealloc ≡ true → has (not_ℕ x.fe_flags) fl.unwritten ≡ false)
  unfolding search_extent
  search-found [] prealloc a {x} o h e = absurd (cc)
  search-found (y ∷ ys) prealloc a {x} o h e = ground (
    arith,
    next_multiple blocksize a (logical_end blocksize y),
    search-found ys prealloc a {x = x} o h.1,
  )

  found-search :
      (xs : List Extent) (prealloc : Bool) (a : ℕ) {x : Extent}
      → IsBlockOffset blocksize a
      → All (IsBlocks blocksize) xs
      → IsSorted blocksize xs
      → In x xs
      → Holds blocksize a x
      → (prealloc ≡ true → has (not_ℕ x.fe_flags) fl.unwritten ≡ false)
      → search_extent fl blocksize xs prealloc a ≡ found x
  unfolding search_extent
  found-search [] prealloc a o h s i held unw = absurd i
  found-search (y ∷ ys) prealloc a {x} o h s (inl e) held unw =
      ground (arith, next_multiple blocksize a (logical_end blocksize y))
  found-search (y ∷ ys) prealloc a {x} o h s (inr i) held unw =
      let after : logical_end blocksize y ≤ x.fe_logical =
        All-In (λ z. logical_end blocksize y ≤ z.fe_logical) ys s.0 i in
      ground (arith, after, found-search ys prealloc a {x = x} o h.1 s.1 i held unw)

  -- An extent of the list holds the block at `a`, with the flags that the checks ask for.
  abbrev pub Backed : List Extent → ℕ → Bool → Bool → Type 0
  Backed xs a last prealloc =
      (x : Extent) × In x xs
      × Holds blocksize a x
      × (prealloc ≡ true → has (not_ℕ x.fe_flags) fl.unwritten ≡ false)
      × (last ≡ true → has x.fe_flags fl.last ≡ true)

  after_search-found :
      (r : Search) (block : ℕ) (last : Bool)
      → after_search fl blocksize r block last ≡ none
      → (x : Extent) × (r ≡ found x) × (last ≡ true → has x.fe_flags fl.last ≡ true)
  unfolding after_search
  after_search-found (not_unwritten n) block last e = absurd (cc)
  after_search-found not_found block last e = absurd (cc)
  after_search-found (found x) block last e = (x, refl, ground arith)

  check_data_sound :
      (xs : List Extent) (a : ℕ) (last prealloc : Bool)
      → IsBlockOffset blocksize a
      → All (IsBlocks blocksize) xs
      → check_data fl blocksize xs a last prealloc ≡ none
      → Backed xs a last prealloc
  unfolding check_data
  check_data_sound xs a last prealloc o h e =
      let (x, hit, final) = after_search-found _ (a / blocksize) last e in
      let (i, held, unw) = search-found xs prealloc a o h hit in (x, i, held, unw, final)

  -- For sorted extents of whole blocks, check_data returns 0 for a block exactly when an extent
  -- holds the whole block, is marked LAST if the block is the last one with data, and has !fe_flags
  -- & UNWRITTEN equal to 0 if the block is preallocated.
  pub check_data_iff :
      (xs : List Extent) (a : ℕ) (last prealloc : Bool)
      → IsBlockOffset blocksize a
      → All (IsBlocks blocksize) xs
      → IsSorted blocksize xs
      → (check_data fl blocksize xs a last prealloc ≡ none) ↔ Backed xs a last prealloc
  unfolding check_data after_search
  check_data_iff xs a last prealloc o h s = (
    check_data_sound xs a last prealloc o h,
    λ (x, i, held, unw, final).
        let hit = found-search xs prealloc a o h s i held unw in rw hit (ground arith),
  )

-- The test of a preallocated block gives 0 if bit 0 of the flag is clear.
pub has-not_ℕ : (flags flag : ℕ) → has 1 flag ≡ false → has (not_ℕ flags) flag ≡ false
has-not_ℕ flags flag e =
    let none_set : bit_and 0 flag ≡ 0 = bit_and-bitwise 0 flag in ground (arith, none_set)

module _ (fl : ExtentFlags) (blocksize : ℕ) (clear : has 1 fl.unwritten ≡ false) where
  search_extent-prealloc :
      (xs : List Extent) (prealloc : Bool) (a : ℕ)
      → search_extent fl blocksize xs prealloc a ≡ search_extent fl blocksize xs false a
  unfolding search_extent
  search_extent-prealloc [] prealloc a = refl
  search_extent-prealloc (x ∷ xs) prealloc a =
      let never = has-not_ℕ x.fe_flags fl.unwritten clear in
      ground (
        arith,
        never,
        search_extent-prealloc xs prealloc a,
        search_extent-prealloc xs prealloc (u64 (end_of x + 1)),
      )

  -- If bit 0 of UNWRITTEN is clear, as it is in linux/fiemap.h, check_data gives the same result
  -- for a preallocated block as for one with data, for any extents, flags and offset: it never asks
  -- for UNWRITTEN.
  pub check_data-prealloc :
      (xs : List Extent) (a : ℕ) (last prealloc : Bool)
      → check_data fl blocksize xs a last prealloc ≡ check_data fl blocksize xs a last false
  unfolding check_data
  check_data-prealloc xs a last prealloc = rw (search_extent-prealloc xs prealloc a) refl

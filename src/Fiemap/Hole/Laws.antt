-- ===== src/Fiemap/Hole/Laws.antt =====
-- When a block that was skipped passes `check_hole`.
use native.Mathlib.Decide.{dec_lt, dec_le}
use testunion.Common.{
  ℕ, zero, suc, ◌/◌, ◌≤◌, ◌≡◌, ◌↔◌, refl, arith, List, [], ◌∷◌, Bool, true, Option, none, some, u32,
  All, In, All-In, inl, inr,
}
use testunion.Fiemap.Extent.{Extent}
use testunion.Fiemap.Hole.{FileSystem, first_nonzero, check_buffer, check_weird_fs_hole, check_hole}
use testunion.Fiemap.Data.Laws.{
  IsBlockOffset, IsBlocks, IsSorted, Holds, logical_end, next_multiple,
}

first_nonzero_iff : (bs : List ℕ) → (first_nonzero bs ≡ none) ↔ All (λ b. b ≡ 0) bs
unfolding first_nonzero
first_nonzero_iff [] = (λ _. tt, λ _. refl)
first_nonzero_iff (b ∷ bs) = ground (arith, first_nonzero_iff bs)

module _ (sys : FileSystem) (blocksize : ℕ) where
  -- The file system gave the hole a physical block, and the block reads as zeros.
  pub record IsZeroBlock (a : ℕ) : Type 0 where
    pub physical : ℕ
    pub buf : List ℕ
    pub mapped : sys.fibmap (u32 (a / blocksize)) ≡ some (suc physical)
    pub memory : sys.malloc blocksize ≡ true
    pub reads : sys.pread blocksize a ≡ some buf
    pub zeros : All (λ b. b ≡ 0) buf

  check_buffer_iff :
      (buf : List ℕ) (block : ℕ) (warned : Bool)
      → ((check_buffer sys blocksize buf block warned).passed ≡ true) ↔ All (λ b. b ≡ 0) buf
  unfolding check_buffer
  check_buffer_iff buf block warned = ground (arith, first_nonzero_iff buf)

  weird-passes :
      (a : ℕ) (warned : Bool)
      → IsZeroBlock a
      → (check_weird_fs_hole sys blocksize a warned).passed ≡ true
  unfolding check_weird_fs_hole
  weird-passes a warned z = ground (arith, check_buffer_iff z.buf (a / blocksize) warned)

  passes-weird :
      (a : ℕ) (warned : Bool)
      → (check_weird_fs_hole sys blocksize a warned).passed ≡ true
      → IsZeroBlock a
  unfolding check_weird_fs_hole
  passes-weird a warned e =
      answers (sys.fibmap (u32 (a / blocksize))) (sys.pread blocksize a) refl refl
    where
      answers :
          (m : Option ℕ) (r : Option (List ℕ))
          → sys.fibmap (u32 (a / blocksize)) ≡ m
          → sys.pread blocksize a ≡ r
          → IsZeroBlock a
      answers none r p q = absurd (ground arith)
      answers (some zero) r p q = absurd (ground arith)
      answers (some (suc k)) none p q = absurd (ground arith)
      answers (some (suc k)) (some bytes) p q = record {
        physical = k;
        buf = bytes;
        mapped = p;
        memory = ground arith;
        reads = q;
        zeros = (check_buffer_iff bytes (a / blocksize) warned).0 (ground arith);
      }

  module _ (a : ℕ) (warned : Bool) (o : IsBlockOffset blocksize a) where
    check_hole_sound :
        (xs : List Extent)
        → All (IsBlocks blocksize) xs
        → IsSorted blocksize xs
        → (check_hole sys blocksize xs a warned).passed ≡ true
        → (x : Extent) → In x xs
        → Holds blocksize a x
        → IsZeroBlock a
    unfolding check_hole
    check_hole_sound [] h s e x i held = absurd i
    check_hole_sound (y ∷ ys) h s e x (inl q) held = passes-weird a warned (ground arith)
    check_hole_sound (y ∷ ys) h s e x (inr i) held =
        let after : logical_end blocksize y ≤ x.fe_logical =
          All-In (λ z. logical_end blocksize y ≤ z.fe_logical) ys s.0 i in
        check_hole_sound ys h.1 s.1 (ground arith) x i held

    check_hole_complete :
        (xs : List Extent)
        → All (IsBlocks blocksize) xs
        → ((x : Extent) → In x xs → Holds blocksize a x → IsZeroBlock a)
        → (check_hole sys blocksize xs a warned).passed ≡ true
    unfolding check_hole
    check_hole_complete [] h z = refl
    check_hole_complete (y ∷ ys) h z =
        let rest = check_hole_complete ys h.1 (λ x i held. z x (inr i) held) in
        elim (dec_lt a (logical_end blocksize y)) [
          | yes lt ↦ elim (dec_le y.fe_logical a) [
            | yes le ↦
                let own = weird-passes a warned (
                  z y (inl refl)
                    (le, next_multiple blocksize a (logical_end blocksize y) o.0 h.0.ends lt)) in
                ground arith
            | no gt ↦ ground arith
          ]
          | no ge ↦ ground arith
        ]

    -- For a FIEMAP answer of sorted extents of whole blocks, check_hole returns 0 exactly when each
    -- extent that holds the block, if there is one, is confirmed by FIBMAP and reads as zeros,
    -- whether or not the warning was printed before.
    pub check_hole_iff :
        (xs : List Extent)
        → All (IsBlocks blocksize) xs
        → IsSorted blocksize xs
        → ((check_hole sys blocksize xs a warned).passed ≡ true)
          ↔ ((x : Extent) → In x xs → Holds blocksize a x → IsZeroBlock a)
    check_hole_iff xs h s = (check_hole_sound xs h s, check_hole_complete xs h)

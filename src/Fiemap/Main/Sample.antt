-- ===== src/Fiemap/Main/Sample.antt =====
-- A file of a written block, a hole and a preallocated block, and a FIEMAP that tells the truth
-- about it.
use mathlib.Core.Option.{some-injective}
use native.Mathlib.Decide.{dec_lt}
use testunion.Common.{
  ℕ, ◌+◌, ◌%◌, ◌≤◌, ◌<◌, ◌≡◌, ◌≢◌, refl, arith, subst, sym, ◌∙◌, List, [], ◌∷◌, true, none, some,
  has, All, In, inl, inr,
}
use testunion.Fiemap.Extent.{Extent, ExtentFlags}
use testunion.Fiemap.Flags.Laws.{IsBlocksize, FitsU64, AllWellFlagged}
use testunion.Fiemap.Data.Laws.{IsBlocks, IsSorted, Holds}
use testunion.Fiemap.Hole.{FileSystem}
use testunion.Fiemap.Compare.Letters.{IsRegular}
use testunion.Fiemap.Create.{
  Kernel, Call, returned, created, create_file_from_mapping, create_blocks, create_block,
  seek_block,
}
use testunion.Fiemap.Create.File.{
  Space, absent, stored, reserved, File, Lays, empty_file, file_after, create_file-Lays,
}
use testunion.Fiemap.Main.Truth.{IsTruthful}

-- The values of the constants on Linux.
abbrev pub linux_flags : ExtentFlags
linux_flags = record {
  last = 0x1;
  unknown = 0x2;
  delalloc = 0x4;
  encoded = 0x8;
  data_encrypted = 0x80;
  not_aligned = 0x100;
  data_inline = 0x200;
  data_tail = 0x400;
  unwritten = 0x800;
}

abbrev pub kernel : Kernel
kernel calls (Call.write n) = returned n
kernel calls _ = returned 0

abbrev pub dhp : List ℕ
dhp = b'D' ∷ b'H' ∷ b'P' ∷ []

pub dhp-created : (create_file_from_mapping kernel 512 true dhp).1 ≡ created
unfolding create_file_from_mapping create_blocks create_block seek_block
dhp-created = refl

abbrev pub file : File
file = file_after (create_file_from_mapping kernel 512 true dhp).0 empty_file

pub file-Lays : Lays 512 0 dhp file
file-Lays = create_file-Lays kernel 512 true dhp (omega arith) dhp-created

abbrev written_extent : Extent
written_extent = record { fe_logical = 0; fe_physical = 4096; fe_length = 512; fe_flags = 0 }

abbrev unwritten_extent : Extent
unwritten_extent = record {
  fe_logical = 1024;
  fe_physical = 8192;
  fe_length = 512;
  fe_flags = 0x801;
}

abbrev both : List Extent
both = written_extent ∷ unwritten_extent ∷ []

abbrev pub sys : FileSystem
sys = record {
  fibmap = λ _. some 0;
  malloc = λ _. true;
  pread = λ _ _. none;
  fiemap = λ _ _ _. some both;
}

pub b512 : IsBlocksize 512
b512 = record { exponent = 9; is_pow = refl; small = omega arith }

both-IsRegular : All FitsU64 both × All (IsBlocks 512) both × IsSorted 512 both
both-IsRegular = ground arith

both-AllWellFlagged : AllWellFlagged linux_flags 512 both
both-AllWellFlagged = (ground arith, (ground arith, tt))

pub regular : IsRegular sys 512
regular start len count xs e =
    subst (λ l. All FitsU64 l × All (IsBlocks 512) l × IsSorted 512 l) (some-injective _ _ e)
      both-IsRegular

module _ (f : File) (laid : Lays 512 0 dhp f) where
  abbrev IsTold : ℕ → Space → List Extent → Type 0
  IsTold a k xs =
      (x : Extent) × In x xs
      × Holds 512 a x
      × (k ≡ reserved → has x.fe_flags linux_flags.unwritten ≡ true)
      × (((p : ℕ) → a + 512 ≤ p → f.space p ≡ absent) → has x.fe_flags linux_flags.last ≡ true)

  written : (a : ℕ) → a < 512 → f.space a ≡ stored
  written a lt = laid.blocks 0 b'D' a refl (omega arith) (omega arith)

  told : (a : ℕ) (k : Space) → a % 512 ≡ 0 → k ≢ absent → f.space a ≡ k → IsTold a k both
  told a k block used is = elim (dec_lt a 512) [
    | yes lt ↦
        let here = written a lt in
        (
          written_extent,
          inl refl,
          omega arith,
          (λ r. absurd (cc)),
          λ behind.
              let later = laid.blocks 2 b'P' 1024 refl (omega arith) (omega arith) in
              let free = behind 1024 (omega arith) in absurd (cc),
        )
    | no ge ↦ elim (dec_lt a 1024) [
      | yes lt ↦
          let here = laid.blocks 1 b'H' a refl (omega arith) (omega arith) in
          absurd (used (sym is ∙ here))
      | no ge' ↦ elim (dec_lt a 1536) [
        | yes lt ↦ (unwritten_extent, inr (inl refl), omega arith, (λ r. refl), λ behind. refl)
        | no far ↦ let here = laid.behind a (omega arith) in absurd (used (sym is ∙ here))
      ]
    ]
  ]

  untold : (a : ℕ) (x : Extent) → f.space a ≡ absent → In x both → Holds 512 a x → ⊥
  untold a x free (inl q) held =
      let on = subst (Holds 512 a) (sym q) held in let here = written a (omega arith) in cc
  untold a x free (inr (inl q)) held =
      let on = subst (Holds 512 a) (sym q) held in
      let here = laid.blocks 2 b'P' a refl (omega arith) (omega arith) in cc
  untold a x free (inr (inr i)) held = absurd i

  pub truth : IsTruthful linux_flags 512 f sys
  truth = record {
    answers = λ start len count. (both, refl);
    regular = regular;
    flagged = λ start len count xs e.
        subst (AllWellFlagged linux_flags 512) (some-injective _ _ e) both-AllWellFlagged;
    backs = λ start len count a xs k e room block lo hi used all.
        subst (IsTold a k) (some-injective _ _ e)
          (told a k block used (all a (omega arith) (omega arith)));
    holes = λ start len count a xs x e free member.
        untold a x free (subst (In x) (sym (some-injective _ _ e)) member);
  }

-- ===== src/Fiemap/Create/File.antt =====
-- The file that the calls of `create_file_from_mapping` make, read off the log of the calls by
-- their documented effects: `write` stores bytes at the file offset and moves it, `fallocate`
-- reserves the holes of a range and leaves the offset, `lseek` with SEEK_CUR moves the offset.
use mathlib.Core.Option.{some-injective}
use testunion.Common.{
  ℕ, zero, suc, subst, ◌+◌, ◌*◌, ◌^◌, ◌≤◌, ◌<◌, ◌≡◌, refl, arith, List, [], ◌∷◌, ◌++◌, Bool, false,
  some, ltb, leb, ◌&&◌, ◌==◌, if◌then◌else◌, length, get_elem?, ap, sym, ◌∙◌,
}
use testunion.Fiemap.Extent.{data_block, prealloc_block}
use testunion.Fiemap.Create.{
  Call, write, fallocate, lseek, created, Kernel, create_file_from_mapping,
}
use testunion.Fiemap.Create.Laws.{block_plan, plan, create_file-InPlace}

-- A byte of the file: in a hole, written, or preallocated and not written.
pub data Space : Type 0 where
  absent stored reserved : Space

pub record File : Type 0 where
  pub offset : ℕ
  pub space : ℕ → Space

-- The file after `ftruncate(fd, 0)` and `lseek(fd, 0, SEEK_SET)`.
abbrev pub empty_file : File
empty_file = record { offset = 0; space = λ p. absent }

abbrev within : ℕ → ℕ → ℕ → Bool
within start len p = leb start p && ltb p (start + len)

abbrev reserve : Space → Space
reserve absent = reserved
reserve stored = stored
reserve reserved = reserved

unfoldable pub effect : Call → File → File
effect (write n) f = record {
  offset = f.offset + n;
  space = λ p. if within f.offset n p then stored else f.space p;
}
effect (fallocate start len) f = record f {
  space = λ p. if within start len p then reserve (f.space p) else f.space p;
}
effect (lseek n) f = record f { offset = f.offset + n }

unfoldable pub file_after : List Call → File → File
file_after [] f = f
file_after (c ∷ calls) f = file_after calls (effect c f)

file_after-append :
    (xs ys : List Call) (f : File) → file_after (xs ++ ys) f ≡ file_after ys (file_after xs f)
unfolding file_after
file_after-append [] ys f = refl
file_after-append (c ∷ xs) ys f = file_after-append xs ys (effect c f)

-- What a letter of the map asks for.
abbrev pub space_of : ℕ → Space
space_of ch = if ch == data_block then stored else if ch == prealloc_block then reserved else absent

-- The file has a map's blocks from `off` on, and nothing behind them.
pub record Lays (blocksize off : ℕ) (map : List ℕ) (f : File) : Type 0 where
  pub ends : f.offset ≡ off + length map * blocksize
  pub blocks :
      (i ch p : ℕ)
      → get_elem? map i ≡ some ch
      → off + i * blocksize ≤ p
      → p < off + i * blocksize + blocksize
      → f.space p ≡ space_of ch
  pub behind : (p : ℕ) → off + length map * blocksize ≤ p → f.space p ≡ absent

module _ (blocksize : ℕ) where
  block-file :
      (ch : ℕ) (f : File) (p : ℕ)
      → f.space p ≡ absent
      → let g = file_after (block_plan blocksize f.offset ch) f in
        g.space p ≡ (if within f.offset blocksize p then space_of ch else absent)
  unfolding file_after effect
  block-file ch f p e = ground arith

  block-elsewhere :
      (ch : ℕ) (f : File) (p : ℕ)
      → within f.offset blocksize p ≡ false
      → (file_after (block_plan blocksize f.offset ch) f).space p ≡ f.space p
  unfolding file_after effect
  block-elsewhere ch f p e = ground arith

  block-offset :
      (ch : ℕ) (f : File)
      → (file_after (block_plan blocksize f.offset ch) f).offset ≡ f.offset + blocksize
  unfolding file_after effect
  block-offset ch f = ground arith

  abbrev after_block : ℕ → File → File
  after_block ch f = file_after (block_plan blocksize f.offset ch) f

  plan-step :
      (ch : ℕ) (map : List ℕ) (f : File)
      → file_after (plan blocksize f.offset (ch ∷ map)) f
        ≡ file_after (plan blocksize (after_block ch f).offset map) (after_block ch f)
  plan-step ch map f =
      file_after-append (block_plan blocksize f.offset ch)
        (plan blocksize (f.offset + blocksize) map) f
      ∙ ap (λ off. file_after (plan blocksize off map) (after_block ch f)) (sym (block-offset ch f))

  plan-elsewhere :
      (map : List ℕ) (f : File) (p : ℕ)
      → p < f.offset
      → (file_after (plan blocksize f.offset map) f).space p ≡ f.space p
  plan-elsewhere [] f p lt = unfold file_after in refl
  plan-elsewhere (ch ∷ map) f p lt =
      let on = block-offset ch f in
      let ih = plan-elsewhere map (after_block ch f) p (omega arith) in
      let own = block-elsewhere ch f p (ground arith) in
      ap (λ g. g.space p) (plan-step ch map f) ∙ ih ∙ own

  -- One more block in front of a file that is right from its end on.
  module _ (ch : ℕ) (map : List ℕ) (f h : File) (free : (p : ℕ) → f.offset ≤ p → f.space p ≡ absent)
      (later : Lays blocksize (after_block ch f).offset map h)
      (sooner : (p : ℕ)
        → p < (after_block ch f).offset
        → h.space p ≡ (after_block ch f).space p) where
    block-blocks :
        (i a p : ℕ)
        → get_elem? (ch ∷ map) i ≡ some a
        → f.offset + i * blocksize ≤ p
        → p < f.offset + i * blocksize + blocksize
        → h.space p ≡ space_of a
    block-blocks zero a p e lo hi =
        let own = block-file ch f p (free p (omega arith)) in
        sooner p (omega (arith, block-offset ch f)) ∙ own ∙ ground (arith, some-injective _ _ e)
    block-blocks (suc i) a p e lo hi =
        let on = block-offset ch f in later.blocks i a p e (omega arith) (omega arith)

    block-Lays : Lays blocksize f.offset (ch ∷ map) h
    block-Lays =
        let on = block-offset ch f in
        record {
          ends = omega (arith, on, later.ends);
          blocks = block-blocks;
          behind = λ p le. later.behind p (omega (arith, on));
        }

  plan-Lays :
      (map : List ℕ) (f : File)
      → ((p : ℕ) → f.offset ≤ p → f.space p ≡ absent)
      → Lays blocksize f.offset map (file_after (plan blocksize f.offset map) f)
  plan-Lays [] f free =
      unfold file_after in
      record {
        ends = omega arith;
        blocks = λ i ch p e lo hi. absurd (ground arith);
        behind = λ p le. free p (omega arith);
      }
  plan-Lays (ch ∷ map) f free =
      let g = after_block ch f in
      let on = block-offset ch f in
      let ih =
        plan-Lays map g (λ p le. block-file ch f p (free p (omega arith)) ∙ (ground arith)) in
      subst (Lays blocksize f.offset (ch ∷ map)) (sym (plan-step ch map f))
        (block-Lays ch map f _ free ih (plan-elsewhere map g))

module _ (kernel : Kernel) (blocksize : ℕ) where
  -- When create_file_from_mapping succeeds for a map below 2 GB, the file that its calls make out
  -- of an empty file, by the documented effects of write, fallocate and lseek, is the map: each
  -- byte of a block is written for D, preallocated for P and in a hole for any other letter, behind
  -- the last block there is nothing, and the file offset is at the end of the map.
  pub create_file-Lays :
      (memory : Bool) (map : List ℕ)
      → length map * blocksize < 2 ^ 31
      → (create_file_from_mapping kernel blocksize memory map).1 ≡ created
      → Lays blocksize 0 map
          (file_after (create_file_from_mapping kernel blocksize memory map).0 empty_file)
  create_file-Lays memory map small e =
      rw (create_file-InPlace kernel blocksize memory map small e).0
        (plan-Lays blocksize map empty_file λ p le. refl)

-- ===== src/Fiemap/Compare/Pieces.antt =====
-- One round of the outer loop of `compare_fiemap_and_map`, and the blocks that it confirms.
use native.Mathlib.Nat.{div-eq_of_lt-le}
use mathlib.Core.Option.{some-injective}
use testunion.Common.{
  ℕ, suc, ◌+◌, ◌*◌, ◌/◌, ◌≤◌, ◌<◌, ◌≡◌, refl, arith, List, Bool, true, false, Option, none, some,
  ltb, length, AllFrom, AllFrom-mono, u64, subst, sym, ◌∙◌,
}
use testunion.Fiemap.Extent.{Extent, ExtentFlags, Message}
use testunion.Fiemap.Flags.{check_flags}
use testunion.Fiemap.Hole.{FileSystem}
use testunion.Fiemap.Compare.{
  Compared, Chunk, same, differs, no_buffers, ioctl_failed, fault, out_of_fuel, after_log,
  check_chunk, compare_loop, divided,
}
use testunion.Fiemap.Compare.Blocks.{BlockPasses}

-- The return of 0.
abbrev pub is_same : Compared → Bool
is_same (same log warned) = true
is_same _ = false

is_same-after_log : (log : List Message) (c : Compared) → is_same (after_log log c) ≡ is_same c
unfolding after_log
is_same-after_log log (same l w) = refl
is_same-after_log log no_buffers = refl
is_same-after_log log _ = refl

-- A return of `compare_fiemap_and_map`, whatever its value.
abbrev pub returns : Compared → Bool
returns fault = false
returns out_of_fuel = false
returns _ = true

pub returns-after_log : (log : List Message) (c : Compared) → returns (after_log log c) ≡ returns c
unfolding after_log
returns-after_log log fault = refl
returns-after_log log out_of_fuel = refl
returns-after_log log _ = refl

pub divided-positive : (blocksize : ℕ) (c : Compared) → 0 < blocksize → divided blocksize c ≡ c
unfolding divided
divided-positive blocksize (same log w) pos = ground arith
divided-positive blocksize (differs log) pos = ground arith
divided-positive blocksize no_buffers pos = refl
divided-positive blocksize ioctl_failed pos = refl
divided-positive blocksize fault pos = refl
divided-positive blocksize out_of_fuel pos = refl

module _ (fl : ExtentFlags) (sys : FileSystem) (blocksize : ℕ) (map : List ℕ) (btm : ℕ)
    (last : Option ℕ) where
  -- FIEMAP, asked for the piece that holds block `i`, gives extents with consistent flags against
  -- which the block passes.
  pub record IsConfirmed (i ch : ℕ) : Type 0 where
    pub extents : List Extent
    pub answer :
        sys.fiemap (u64 (i / btm * btm * blocksize)) (u64 (btm * blocksize)) btm ≡ some extents
    pub flags : check_flags fl blocksize extents ≡ none
    pub passes : BlockPasses fl sys blocksize extents last i ch

  abbrev pub ask : ℕ → Option (List Extent)
  ask cur = sys.fiemap (u64 (cur * blocksize)) (u64 (btm * blocksize)) btm

  -- Every block of a piece is asked for at the start of the piece.
  pub piece_start :
      (q j : ℕ) {cur : ℕ} → cur ≡ q * btm → cur ≤ j → j < cur + btm → j / btm * btm ≡ cur
  piece_start q j at lo hi =
      let piece : j / btm ≡ q = div-eq_of_lt-le btm (omega arith) (grind arith) in rw piece (sym at)

  module _ (q : ℕ) {cur : ℕ} (at : cur ≡ q * btm) (xs : List Extent)
      (answers : ask cur ≡ some xs) where
    pub to_confirmed :
        (letters : List ℕ)
        → length letters ≤ btm
        → check_flags fl blocksize xs ≡ none
        → AllFrom (BlockPasses fl sys blocksize xs last) cur letters
        → AllFrom IsConfirmed cur letters
    to_confirmed letters len good = AllFrom-mono _ _ letters cur λ j a lo hi p. record {
      extents = xs;
      answer = rw (piece_start q j at lo (omega arith)) answers;
      flags = good;
      passes = p;
    }

    pub of_confirmed :
        (letters : List ℕ)
        → length letters ≤ btm
        → AllFrom IsConfirmed cur letters
        → AllFrom (BlockPasses fl sys blocksize xs last) cur letters
    of_confirmed letters len = AllFrom-mono _ _ letters cur λ j a lo hi (c : IsConfirmed j a).
        let asked : ask cur ≡ some c.extents =
          rw (piece_start q j at lo (omega arith)) at c.answer in
        subst (λ ys. BlockPasses fl sys blocksize ys last j a)
          (some-injective _ _ (sym asked ∙ answers)) c.passes

  abbrev pub loop : ℕ → ℕ → List ℕ → Bool → Compared
  loop fuel cur rest w = compare_loop fl sys blocksize map btm fuel last cur rest w

  abbrev pub chunk : List Extent → ℕ → List ℕ → Bool → Chunk
  chunk xs cur rest w = check_chunk fl sys blocksize btm xs last 1 cur rest w

  -- A round of the loop that returns or goes on towards 0.
  pub record IsRound (fuel cur : ℕ) (rest : List ℕ) (w : Bool) : Type 0 where
    pub xs : List Extent
    pub answers : ask cur ≡ some xs
    pub good : check_flags fl blocksize xs ≡ none
    pub passes : (chunk xs cur rest w).passed ≡ true
    pub goes_on :
        ltb (chunk xs cur rest w).next (length map) ≡ true
        → is_same (
            loop fuel
              (chunk xs cur rest w).next
              (chunk xs cur rest w).rest
              (chunk xs cur rest w).warned)
          ≡ true

  pub IsRound-same :
      (fuel cur : ℕ) (rest : List ℕ) (w : Bool)
      → is_same (loop (suc fuel) cur rest w) ≡ true
      → IsRound fuel cur rest w
  unfolding compare_loop
  IsRound-same fuel cur rest w e = answered (ask cur) refl
    where
      answered : (r : Option (List Extent)) → ask cur ≡ r → IsRound fuel cur rest w
      answered none p = absurd (ground arith)
      answered (some xs) p =
          let k = chunk xs cur rest w in
          record {
            xs = xs;
            answers = p;
            good = ground arith;
            passes = ground arith;
            goes_on =
                λ more. ground (arith, is_same-after_log k.log (loop fuel k.next k.rest k.warned));
          }

  pub same_round :
      (fuel cur : ℕ) (rest : List ℕ) (w : Bool)
      → IsRound fuel cur rest w
      → is_same (loop (suc fuel) cur rest w) ≡ true
  unfolding compare_loop
  same_round fuel cur rest w r =
      let k = chunk r.xs cur rest w in
      ground (
        arith,
        is_same-after_log k.log (loop fuel k.next k.rest k.warned),
        r.answers,
        r.good,
        r.passes,
        r.goes_on,
      )

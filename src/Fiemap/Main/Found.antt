-- ===== src/Fiemap/Main/Found.antt =====
-- What one run finds, once its file has been created.
use testunion.Common.{
  ℕ, ◌+◌, ◌*◌, ◌%◌, ◌<◌, ◌^◌, ◌≡◌, ◌≢◌, ◌↔◌, refl, arith, List, ◌∷◌, Bool, true, false, some,
  length, get_elem?, inl, inr, Bool-cases,
}
use testunion.Fiemap.Extent.{ExtentFlags, Message}
use testunion.Fiemap.Flags.Laws.{IsBlocksize, blocksize-positive}
use testunion.Fiemap.Create.{created, create_file_from_mapping}
use testunion.Fiemap.Compare.{
  Compared, same, no_buffers, ioctl_failed, differs, fault, out_of_fuel, compare_fiemap_and_map,
}
use testunion.Fiemap.Compare.Letters.{IsRegular}
use testunion.Fiemap.Compare.Pieces.{is_same}
use testunion.Fiemap.Compare.Verdict.{IsShown, compare_iff, compare_returns}
use testunion.Fiemap.Main.{Round, Body, passed, stopped, mismatch, test_map}

is_same_inv :
    (c : Compared) → is_same c ≡ true → (log : List Message) × (w : Bool) × (c ≡ same log w)
is_same_inv (same log w) e = (log, w, refl)
is_same_inv no_buffers e = absurd (cc)
is_same_inv ioctl_failed e = absurd (cc)
is_same_inv (differs log) e = absurd (cc)
is_same_inv fault e = absurd (cc)
is_same_inv out_of_fuel e = absurd (cc)

module _ (fl : ExtentFlags) (header per_extent blocksize : ℕ) (prealloc : Bool) (r : Round) (ch : ℕ)
    (tail : List ℕ) (warned : Bool) where
  abbrev compared : Compared
  compared =
      compare_fiemap_and_map fl r.sys blocksize header per_extent r.random_piece (ch ∷ tail) warned

  abbrev pieces : ℕ
  pieces = r.random_piece % length (ch ∷ tail) + 1

  abbrev body : Body
  body = test_map fl header per_extent blocksize prealloc r (ch ∷ tail) warned

  module _
      (made : (create_file_from_mapping r.kernel blocksize r.buffer_memory (ch ∷ tail)).1
        ≡ created) where
    test_map-fails : 0 < blocksize → is_same compared ≡ false → body ≡ stopped mismatch
    unfolding test_map
    test_map-fails positive e =
        let ends =
          compare_returns fl r.sys blocksize header per_extent r.random_piece ch tail warned
            positive in
        ground arith

    pub test_map-passes :
        is_same compared ≡ true
        → r.truncates ≡ true
        → r.seeks ≡ true
        → (w : Bool) × (body ≡ passed w)
    unfolding test_map
    test_map-passes e t s = let (log, w, q) = is_same_inv compared e in (w, ground arith)

    same-not_mismatch : is_same compared ≡ true → body ≢ stopped mismatch
    unfolding test_map
    same-not_mismatch e p = let (log, w, q) = is_same_inv compared e in ground arith

    -- For a power-of-two block size, a file that was created and is below 2 GB, memory for the
    -- buffer and a FIEMAP whose answers are sorted, of whole blocks and within 64 bits, a run stops
    -- the program with the report of a mismatch exactly when not every block of the map is shown by
    -- the answer for the piece that holds it as its letter says, P like D but that !fe_flags &
    -- UNWRITTEN is 0.
    pub test_map-mismatch :
        IsBlocksize blocksize
        → IsRegular r.sys blocksize
        → length (ch ∷ tail) * blocksize < 2 ^ 31
        → r.sys.malloc (header + pieces * per_extent) ≡ true
        → (body ≡ stopped mismatch)
          ↔ ¬ (
              (i a : ℕ)
              → get_elem? (ch ∷ tail) i ≡ some a
              → IsShown fl r.sys blocksize (ch ∷ tail) pieces i a)
    test_map-mismatch b regular small memory =
        let verdict =
          compare_iff fl r.sys blocksize header per_extent r.random_piece ch tail warned b regular
            small memory in
        (
          λ e shown. same-not_mismatch (verdict.1 shown) e,
          λ hidden. elim (Bool-cases (is_same compared)) [
            | inl good ↦ absurd (hidden (verdict.0 good))
            | inr bad ↦ test_map-fails (blocksize-positive b) bad
          ],
        )

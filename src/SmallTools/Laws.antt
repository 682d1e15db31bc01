-- ===== src/SmallTools/Laws.antt =====
-- What the small programs ask the kernel for, and when they say that all went well.
use native.Mathlib.Nat.{mod-eq_of_lt}
use testunion.Common.{
  ℕ, ◌+◌, ◌≤◌, ◌<◌, ◌^◌, ◌≡◌, refl, ap, arith, List, [], ◌∷◌, Bool, true, false, some, ltb, ℤ, pos,
  negsuc, word64, get_or, All,
}
use testunion.Common.Options.{Text}
use testunion.SmallTools.{
  CloneRange, clone_range, Test, Seek, open_file, seek_set, write, fsync, seek_data, close, do_test,
  printed_range, tests, run_tests, seektest,
}

-- The data that a list of calls leaves in each file that it opens: the first byte, and the end.
abbrev pub written_from : ℕ → List Seek → List (ℕ × ℕ)
written_from place [] = []
written_from place (open_file f ∷ calls) = written_from 0 calls
written_from place (seek_set offset ∷ calls) = written_from offset calls
written_from place (write n ∷ calls) = (place, place + n) ∷ written_from (place + n) calls
written_from place (fsync ∷ calls) = written_from place calls
written_from place (seek_data ∷ calls) = written_from place calls
written_from place (close ∷ calls) = written_from place calls

-- What the tests mean to write.
abbrev pub wanted : List Test → List (ℕ × ℕ)
wanted [] = []
wanted (t ∷ ts) = (t.data_start, t.data_start + t.len) ∷ wanted ts

run_tests_lem :
    (opens : ℕ → Bool) (place : ℕ) (ts : List Test)
    → ((f : ℕ) → opens f ≡ true)
    → (written_from place (run_tests opens ts).0 ≡ wanted ts) × ((run_tests opens ts).1 ≡ 0)
unfolding run_tests do_test
run_tests_lem opens place [] works = (refl, refl)
run_tests_lem opens place (t ∷ ts) works =
    let rest = run_tests_lem opens 0 ts works in
    rw (works t.fname) (ap (λ l. (t.data_start, t.data_start + t.len) ∷ l) rest.0, rest.1)

-- The printed ranges of data are empty in all tests: they end before they start.
pub printed_range_lem : All (λ t. (printed_range t).1 < (printed_range t).0) tests
unfolding printed_range
printed_range_lem = omega arith

-- If every file opens, seektest.c writes the wanted data and ends with 0.
pub seektest_lem :
    (opens : ℕ → Bool)
    → ((f : ℕ) → opens f ≡ true)
    → (written_from 0 (seektest opens).0 ≡ wanted tests) × ((seektest opens).1 ≡ 0)
unfolding seektest
seektest_lem opens works = run_tests_lem opens 0 tests works

-- Numbers that fit an `int` and are not negative are asked for as they are; a negative length asks
-- for at least 2^63 bytes.
pub clone_range_lem :
    (atoi : Text → ℤ) (argc : ℕ) (argv : List Text) (src dst : ℤ) (ioctl : CloneRange → ℤ)
    (a b c : ℕ)
    → 6 ≤ argc
    → atoi (get_or argv 2 []) ≡ pos a
    → atoi (get_or argv 3 []) ≡ pos b
    → atoi (get_or argv 5 []) ≡ pos c
    → (a < 2 ^ 31) × (b < 2 ^ 31) × (c < 2 ^ 31)
    → let ca : CloneRange = record {
      src_fd = src;
      src_offset = a;
      src_length = b;
      dest_offset = c;
    } in
      clone_range atoi argc argv src dst ioctl ≡ (some (dst, ca), ioctl ca)
unfolding clone_range
clone_range_lem atoi argc argv src dst ioctl a b c enough ea eb ec (la, lb, lc) =
    let few : ltb argc 6 ≡ false = ground arith in
    rw (few, ea, eb, ec, same a la, same b lb, same c lc) refl
  where
    same : (n : ℕ) → n < 2 ^ 31 → word64 (pos n) ≡ n
    same n l = mod-eq_of_lt (omega (arith, l))

negative_length : (n : ℕ) → n < 2 ^ 31 → 2 ^ 63 ≤ word64 (negsuc n)
negative_length n l = omega arith

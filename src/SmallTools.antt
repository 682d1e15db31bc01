-- ===== src/SmallTools.antt =====
-- incoming/clone_range.c, incoming/drop_caches.c and incoming/seektest.c: programs of a few calls.
pub mod Laws
mod Tests
use testunion.Common.{
  ℕ, zero, suc, ◌-◌, List, [], ◌∷◌, ◌++◌, Bool, true, false, if◌then◌else◌, Option, none, some, ltb,
  ℤ, pos, negsuc, word64, get_or, is_minus_one,
}
use testunion.Common.Options.{Text}

-- The fields of `ca`; `__u64` fields keep the bits of the `int` that `atoi` gives.
pub record CloneRange : Type 0 where
  pub src_fd : ℤ
  pub src_offset : ℕ
  pub src_length : ℕ
  pub dest_offset : ℕ

-- A run of clone_range.c: what it asks for on which descriptor, and what it returns. Neither
-- descriptor is looked at.
unfoldable pub clone_range :
    (Text → ℤ) → ℕ → List Text → ℤ → ℤ → (CloneRange → ℤ) → Option (ℤ × CloneRange) × ℤ
clone_range atoi argc argv src dst ioctl =
    let ca : CloneRange = record {
      src_fd = src;
      src_offset = word64 (atoi (get_or argv 2 []));
      src_length = word64 (atoi (get_or argv 3 []));
      dest_offset = word64 (atoi (get_or argv 5 []));
    } in
    if ltb argc 6 then (none, pos 1) else (some (dst, ca), ioctl ca)

pub data Call : Type 0 where
  sync open_caches write_three : Call

-- drop_caches.c: the calls that it makes, and its status.
unfoldable pub drop_caches : Bool → Bool → List Call × ℕ
drop_caches opens writes =
    if opens
    then (sync ∷ sync ∷ open_caches ∷ write_three ∷ [], (if writes then 0 else 1))
    else (sync ∷ sync ∷ open_caches ∷ [], 1)

-- A test of seektest.c.
pub record Test : Type 0 where
  pub fname : ℕ
  pub data_start : ℕ
  pub len : ℕ

pub data Seek : Type 0 where
  open_file : ℕ → Seek
  seek_set write : ℕ → Seek
  fsync seek_data close : Seek

-- The calls of `do_test` on a file that opens.
unfoldable pub do_test : Test → List Seek
do_test t =
    open_file t.fname
    ∷ seek_set t.data_start
    ∷ write t.len
    ∷ fsync
    ∷ seek_set 0
    ∷ seek_data
    ∷ close
    ∷ []

-- What is printed of the data: its first and its last byte.
unfoldable pub printed_range : Test → ℕ × ℕ
printed_range t = (t.data_start, t.len - 1)

abbrev pub test : ℕ → ℕ → ℕ → Test
test fname data_start len = record { fname = fname; data_start = data_start; len = len }

-- The files are numbered in the order of the tests.
abbrev pub tests : List Test
tests =
    test 0 3072 512
    ∷ test 1 3072 511
    ∷ test 2 8192 512
    ∷ test 3 8192 511
    ∷ test 4 8192 4096
    ∷ test 5 8192 4095
    ∷ test 6 8192 4097
    ∷ []

-- `main`: a file that does not open ends the program with status 1.
unfoldable pub run_tests : (ℕ → Bool) → List Test → List Seek × ℕ
run_tests opens [] = ([], 0)
run_tests opens (t ∷ ts) =
    let rest = run_tests opens ts in
    if opens t.fname then (do_test t ++ rest.0, rest.1) else (open_file t.fname ∷ [], 1)

unfoldable pub seektest : (ℕ → Bool) → List Seek × ℕ
seektest opens = run_tests opens tests

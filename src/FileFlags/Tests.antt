-- ===== src/FileFlags/Tests.antt =====
-- The theorems of FileFlags at a table of two flags, and a run of the program.
use testunion.Common.{
  ℕ, ◌^◌, ◌<◌, In, has, none, ◌≡◌, ◌⊎◌, ◌↔◌, inl, inr, refl, arith, List, [], ◌∷◌, true, false,
  some, All, Any,
}
use testunion.FileFlags.{
  FlagsName, Text, Request, Kernel, set_flags, list_flags, c2val, find_flag, add_flags, listed,
  parse_options, new_flags, change_file, handle_file, handle_files, main,
}
use testunion.FileFlags.Table.{FsFlags, defined_or, flags, entry, FlagsDiffer}
use testunion.FileFlags.Letters.{AreBits, Names, line, letters_iff}
use testunion.FileFlags.Laws.{IsOption, IsAllowed, handle_files-IsAllowed}

abbrev table : List FlagsName
table =
    record { flag = 0x800000; short_name = b'C'; long_name = "NOCOW" }
    ∷ record { flag = 0x400; short_name = b'z'; long_name = "Not_Compressed" }
    ∷ []

abbrev file : Text
file = b'f' ∷ []

-- A kernel with one file, that has the flag C.
abbrev kernel : Kernel
kernel = record { opens = λ f. true; get_flags = λ f. some 0x800000; accepts = λ f w. true }

-- `+Cz -C f`: C is named by both, and is cleared.
main_runs :
    main table kernel ((b'+' ∷ b'C' ∷ b'z' ∷ []) ∷ (b'-' ∷ b'C' ∷ []) ∷ file ∷ [])
    ≡ some (set_flags file 0x400 ∷ list_flags file ((b'z', "Not_Compressed") ∷ []) ∷ [])
unfolding main parse_options add_flags c2val find_flag handle_files handle_file change_file
    new_flags listed
main_runs = refl

abbrev letters : List Text
letters = (b'+' ∷ b'a' ∷ b'C' ∷ []) ∷ (b'-' ∷ b'C' ∷ []) ∷ []

letters-IsOption : All IsOption letters
letters-IsOption = (inl refl, (inr (refl, (λ e. absurd (omega arith))), tt))

-- The values of linux/fs.h, as if it did not define the first two.
abbrev linux : FsFlags
linux = record {
  nocow_fl = none;
  nocomp_fl = none;
  secrm = 0x1;
  unrm = 0x2;
  sync = 0x8;
  dirsync = 0x10000;
  immutable = 0x10;
  append = 0x20;
  nodump = 0x40;
  noatime = 0x80;
  compr = 0x4;
  comprblk = 0x200;
  dirty = 0x100;
  ecompr = 0x800;
  journal_data = 0x4000;
  index = 0x1000;
  notail = 0x8000;
  topdir = 0x20000;
}

bit_at : (k : ℕ) → k < 64 → (j : ℕ) × (◌≡◌ {A = ℕ} (2 ^ k) (2 ^ j)) × (j < 64)
bit_at k small = (k, refl, small)

linux-AreBits : AreBits (flags linux)
unfolding defined_or
linux-AreBits = (
  bit_at 23 (omega arith),
  (
    bit_at 10 (omega arith),
    (
      bit_at 0 (omega arith),
      (
        bit_at 1 (omega arith),
        (
          bit_at 3 (omega arith),
          (
            bit_at 16 (omega arith),
            (
              bit_at 4 (omega arith),
              (
                bit_at 5 (omega arith),
                (
                  bit_at 6 (omega arith),
                  (
                    bit_at 7 (omega arith),
                    (
                      bit_at 2 (omega arith),
                      (
                        bit_at 9 (omega arith),
                        (
                          bit_at 8 (omega arith),
                          (
                            bit_at 11 (omega arith),
                            (
                              bit_at 14 (omega arith),
                              (
                                bit_at 12 (omega arith),
                                (bit_at 15 (omega arith), (bit_at 17 (omega arith), tt)),
                              ),
                            ),
                          ),
                        ),
                      ),
                    ),
                  ),
                ),
              ),
            ),
          ),
        ),
      ),
    ),
  ),
)

linux-FlagsDiffer : FlagsDiffer (flags linux)
unfolding defined_or
linux-FlagsDiffer = omega arith

abbrev append_only : FlagsName
append_only = entry 0x20 b'a' "Append_Only"

letters_iff_example :
    let new = new_flags (flags linux) (parse_options (flags linux) 0 0 false letters) 0x800000 in
    In (line append_only) (listed (flags linux) new) ↔ (
      ((has 0x800000 0x20 ≡ true) ⊎ Any (Names b'+' b'a') letters)
      × ¬ Any (Names b'-' b'a') letters)
letters_iff_example =
    letters_iff linux letters 0x800000 append_only linux-AreBits linux-FlagsDiffer letters-IsOption
      (inr (inr (inr (inr (inr (inr (inr (inl refl))))))))

abbrev request : Request
request = record { to_set = 0x400; to_unset = 0x800000; modify = true; files = file ∷ [] }

handle_files-IsAllowed_example :
    All (IsAllowed table kernel request) (handle_files table kernel request (file ∷ []))
handle_files-IsAllowed_example = handle_files-IsAllowed table kernel request (file ∷ [])

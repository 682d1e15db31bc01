-- ===== src/FileFlags/Table.antt =====
-- The table `flags` of incoming/fileflags.c, and what its letters mean.
use Prim.Native.String.{String}
use testunion.Common.{ℕ, ◌≢◌, arith, List, [], ◌∷◌, Option, none, some, All}
use testunion.FileFlags.{FlagsName}

-- The constants FS_*_FL of linux/fs.h. The first two are `none` where it does not define them.
pub record FsFlags : Type 0 where
  pub nocow_fl : Option ℕ
  pub nocomp_fl : Option ℕ
  pub secrm : ℕ
  pub unrm : ℕ
  pub sync : ℕ
  pub dirsync : ℕ
  pub immutable : ℕ
  pub append : ℕ
  pub nodump : ℕ
  pub noatime : ℕ
  pub compr : ℕ
  pub comprblk : ℕ
  pub dirty : ℕ
  pub ecompr : ℕ
  pub journal_data : ℕ
  pub index : ℕ
  pub notail : ℕ
  pub topdir : ℕ

-- `#ifndef`
unfoldable pub defined_or : Option ℕ → ℕ → ℕ
defined_or (some n) fallback = n
defined_or none fallback = fallback

abbrev pub entry : ℕ → ℕ → String → FlagsName
entry flag short_name long_name = record {
  flag = flag;
  short_name = short_name;
  long_name = long_name;
}

abbrev pub flags : FsFlags → List FlagsName
flags fs =
    entry (defined_or fs.nocow_fl 0x00800000) b'C' "NOCOW"
    ∷ entry (defined_or fs.nocomp_fl 0x00000400) b'z' "Not_Compressed"
    ∷ entry fs.secrm b's' "Secure_Deletion"
    ∷ entry fs.unrm b'u' "Undelete"
    ∷ entry fs.sync b'S' "Synchronous_Updates"
    ∷ entry fs.dirsync b'D' "Synchronous_Directory_Updates"
    ∷ entry fs.immutable b'i' "Immutable"
    ∷ entry fs.append b'a' "Append_Only"
    ∷ entry fs.nodump b'd' "No_Dump"
    ∷ entry fs.noatime b'A' "No_Atime"
    ∷ entry fs.compr b'c' "Compression_Requested"
    ∷ entry fs.comprblk b'B' "Compressed_File"
    ∷ entry fs.dirty b'Z' "Compressed_Dirty_File"
    ∷ entry fs.ecompr b'E' "Compression_Error"
    ∷ entry fs.journal_data b'j' "Journaled_Data"
    ∷ entry fs.index b'I' "Indexed_directory"
    ∷ entry fs.notail b't' "No_Tailmerging"
    ∷ entry fs.topdir b'T' "Top_of_Directory_Hierarchies"
    ∷ []

-- No two rows have the same letter, or the same flag.
abbrev pub LettersDiffer : List FlagsName → Type 0
LettersDiffer [] = Unit
LettersDiffer (r ∷ rows) = All (λ s. s.short_name ≢ r.short_name) rows × LettersDiffer rows

abbrev pub FlagsDiffer : List FlagsName → Type 0
FlagsDiffer [] = Unit
FlagsDiffer (r ∷ rows) = All (λ s. s.flag ≢ r.flag) rows × FlagsDiffer rows

pub flags-LettersDiffer : (fs : FsFlags) → LettersDiffer (flags fs)
flags-LettersDiffer fs = omega arith

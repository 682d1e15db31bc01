-- ===== src/FileFlags.antt =====
-- incoming/fileflags.c: sets and clears the flags of files, by the letters of its arguments.
pub mod Laws
pub mod Table
pub mod Letters
mod Tests
use Prim.Native.String.{String}
use testunion.Common.{
  ℕ, zero, suc, ◌-◌, ◌^◌, drop, bit_and, bit_or, List, [], ◌∷◌, ◌++◌, Bool, true, false,
  if◌then◌else◌, ◌==◌, ◌&&◌, Option, none, some, has, not64,
}

-- A row of the table `flags`.
pub record FlagsName : Type 0 where
  pub flag : ℕ
  pub short_name : ℕ
  pub long_name : String

-- A string, as the codes of its characters without the final NUL.
abbrev pub Text : Type 0
Text = List ℕ

abbrev pub char_at : Text → ℕ → ℕ
char_at [] i = 0
char_at (c ∷ cs) zero = c
char_at (c ∷ cs) (suc i) = char_at cs i

-- The static `to_set` and `to_unset`, and the local `modify` and the arguments left of `main`.
pub record Request : Type 0 where
  pub to_set : ℕ
  pub to_unset : ℕ
  pub modify : Bool
  pub files : List Text

-- What the program does with a file after it is opened.
pub data Action : Type 0 where
  set_flags : Text → ℕ → Action
  list_flags : Text → List (ℕ × String) → Action

-- What the kernel answers: the flags of a file that opens, and whether new flags are accepted.
pub record Kernel : Type 0 where
  pub opens : Text → Bool
  pub get_flags : Text → Option ℕ
  pub accepts : Text → ℕ → Bool

unfoldable pub find_flag : List FlagsName → ℕ → ℕ
find_flag [] c = 0
find_flag (row ∷ rows) c =
    let rest = find_flag rows c in if row.short_name == c then row.flag else rest

-- The lines of the flags that are in `fflags`, in the order of the table.
unfoldable pub listed : List FlagsName → ℕ → List (ℕ × String)
listed [] fflags = []
listed (row ∷ rows) fflags =
    let rest = listed rows fflags in
    if has fflags row.flag then (row.short_name, row.long_name) ∷ rest else rest

module _ (flags : List FlagsName) where
  unfoldable pub c2val : ℕ → ℕ
  c2val c = find_flag flags c

  -- `set_flag` and `unset_flag`, which differ in the word that they change.
  unfoldable pub add_flags : Text → ℕ → ℕ
  add_flags [] word = word
  add_flags (c ∷ cs) word = add_flags cs (bit_or word (c2val c))

  -- The loop over the options. It goes on with the rest of the arguments, or stops at a file.
  unfoldable pub parse_options : ℕ → ℕ → Bool → List Text → Request
  parse_options to_set to_unset modify [] = record {
    to_set = to_set;
    to_unset = to_unset;
    modify = modify;
    files = [];
  }
  parse_options to_set to_unset modify (o ∷ args) =
      let unset = parse_options to_set (add_flags (drop 1 o) to_unset) true args in
      let set = parse_options (add_flags (drop 1 o) to_set) to_unset true args in
      if (char_at o 0 == b'-') && (char_at o 1 == b'-')
      then record { to_set = to_set; to_unset = to_unset; modify = modify; files = args }
      else if char_at o 0 == b'-'
      then unset
      else if char_at o 0 == b'+'
      then set
      else record { to_set = to_set; to_unset = to_unset; modify = modify; files = o ∷ args }

  -- `fflags |= to_set; fflags &= ~to_unset;`
  unfoldable pub new_flags : Request → ℕ → ℕ
  new_flags r fflags = bit_and (bit_or fflags r.to_set) (not64 r.to_unset)

  -- The body of the loop over the files, after `ioctl(GETFLAGS)`.
  unfoldable pub change_file : Kernel → Request → Text → ℕ → List Action
  change_file kernel r file fflags =
      if r.modify
      then (if kernel.accepts file (new_flags r fflags)
          then set_flags file (new_flags r fflags)
            ∷ list_flags file (listed flags (new_flags r fflags))
            ∷ []
          else [])
      else list_flags file (listed flags fflags) ∷ []

  unfoldable pub handle_file : Kernel → Request → Text → List Action
  handle_file kernel r file =
      if kernel.opens file
      then elim (kernel.get_flags file) [
        | none ↦ []
        | some fflags ↦ change_file kernel r file fflags
      ]
      else []

  unfoldable pub handle_files : Kernel → Request → List Text → List Action
  handle_files kernel r [] = []
  handle_files kernel r (file ∷ files) = handle_file kernel r file ++ handle_files kernel r files

  -- `main`: the test of `argc`, the options, then the files. `none` is the exit with status 1.
  unfoldable pub main : Kernel → List Text → Option (List Action)
  main kernel [] = none
  main kernel (arg ∷ args) =
      let r = parse_options 0 0 false (arg ∷ args) in some (handle_files kernel r r.files)

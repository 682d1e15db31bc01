-- ===== src/Snapstorm/Snap.antt =====
-- `do_snap` with what it calls, and the options of `main`.
use testunion.Common.{
  ℕ, zero, List, [], ◌∷◌, Bool, true, false, not, ◌&&◌, ◌||◌, if◌then◌else◌, ◌==◌, ltb, Option,
  none, some, ℤ, pos, negsuc, get_or,
}
use testunion.Common.Options.{Text, Opt, fold_options}

-- What `stat` tells of a path.
pub record Stat : Type 0 where
  pub st_ino : ℕ
  pub is_dir : Bool

-- What the kernel answers for a path: to `stat`, and to `opendir` or `open`, with a descriptor.
pub record Answer : Type 0 where
  pub stat : Option Stat
  pub fd : Option ℕ

-- The calls of `do_snap` that change something.
pub data Snap : Type 0 where
  opened closed : ℕ → Snap
  snap_create : ℕ → ℕ → Snap

-- 1, 0 or -1.
unfoldable pub test_issubvolume : Option Stat → ℤ
test_issubvolume none = negsuc 0
test_issubvolume (some st) = if (st.st_ino == 256) && st.is_dir then pos 1 else pos 0

-- The descriptor, or -1, -2 or -3.
unfoldable pub open_file_or_dir : Answer → ℤ
open_file_or_dir a = elim a.stat [
  | none ↦ negsuc 0
  | some st ↦ elim a.fd [ none ↦ (if st.is_dir then negsuc 1 else negsuc 2) | some fd ↦ pos fd ]
]

-- `fddst` and `fd` are what `open_file_or_dir` gave for "." and for the source.
unfoldable pub take_snap : ℤ → ℤ → ℤ → List Snap
take_snap (negsuc n) subvolume fd = []
take_snap (pos fddst) (pos zero) fd = opened fddst ∷ []
take_snap (pos fddst) _ (negsuc n) = opened fddst ∷ []
take_snap (pos fddst) _ (pos fd) =
    opened fddst ∷ opened fd ∷ snap_create fddst fd ∷ closed fd ∷ closed fddst ∷ []

-- `tested` is the answer to the `stat` of `test_issubvolume`.
unfoldable pub do_snap : Answer → Option Stat → Answer → List Snap
do_snap dot tested source =
    take_snap (open_file_or_dir dot) (test_issubvolume tested) (open_file_or_dir source)

pub record Settings : Type 0 where
  pub opt_readonly : Bool
  pub nr_threads : ℕ
  pub opt_rounds : ℕ

abbrev pub defaults : Settings
defaults = record { opt_readonly = false; nr_threads = 10; opt_rounds = 1 }

-- A number from 1 to 4096, or else the default.
abbrev pub or_default : ℤ → ℕ → ℕ
or_default (pos n) default = if (n == 0) || ltb 4096 n then default else n
or_default (negsuc n) default = default

module _ (atoi : Text → ℤ) where
  unfoldable pub set_option : Settings → Opt → Option Settings
  set_option s o =
      if o.letter == b'r'
      then some (record s { opt_readonly = true })
      else if o.letter == b'c'
      then some (record s { nr_threads = or_default (atoi o.optarg) 10 })
      else if o.letter == b'n'
      then some (record s { opt_rounds = or_default (atoi o.optarg) 1 })
      else some s

  -- `main` up to the threads: their number and the source, or an exit. `argv` holds all arguments, of
  -- which `left` follow the options.
  unfoldable pub prepare : List Opt → List Text → ℕ → Option (ℕ × Text)
  prepare opts argv left = elim (fold_options set_option opts defaults) [
    | none ↦ none
    | some s ↦ if not (left == 2) then none else some (s.nr_threads, get_or argv 1 [])
  ]

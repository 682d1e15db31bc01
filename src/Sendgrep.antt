-- ===== src/Sendgrep.antt =====
-- incoming/sendgrep.c: prints the commands of a btrfs send stream that touch paths with a prefix. The
-- library that reads the stream is a parameter: the commands for which it calls back, in their order.
pub mod Laws
mod Tests
use testunion.Common.{
  ℕ, List, [], ◌∷◌, Bool, true, false, not, ◌&&◌, ◌||◌, Option, none, some, ◌==◌, if◌then◌else◌,
}
use testunion.Common.Options.{Text}

-- The callbacks of `myops`, with the arguments that they read. Each path is a C string.
pub data Command : Type 0 where
  subvol snapshot set_xattr remove_xattr truncate chmod chown utimes update_extent : Text → Command
  mkfile mkdir mkfifo mksock unlink rmdir : Text → Command
  mknod : Text → ℕ → ℕ → Command
  symlink rename link : Text → Text → Command
  write : Text → ℕ → ℕ → Command
  clone : Text → ℕ → ℕ → Text → ℕ → Command

-- What a `printf` prints: its first word, and its arguments in their order.
pub data Verb : Type 0 where
  says_mkfile says_mkdir says_mknod says_mkfifo says_mksock says_mksymlink says_rename says_unlink :
      Verb
  says_rmdir says_write says_clone : Verb

pub data Arg : Type 0 where
  str : Text → Arg
  hex : ℕ → Arg

pub record Line : Type 0 where
  pub verb : Verb
  pub args : List Arg

-- `!memcmp(pathstring, path, pathlen)`, where `pathlen` is the length of `pathstring`, which holds no
-- NUL: the comparison is over at the NUL of a shorter path.
unfoldable pub has_prefix : Text → Text → Bool
has_prefix [] path = true
has_prefix (c ∷ cs) [] = false
has_prefix (c ∷ cs) (d ∷ path) = (c == d) && has_prefix cs path

abbrev pub line : Verb → List Arg → Line
line verb args = record { verb = verb; args = args }

module _ (pathstring : Text) where
  -- The body of a callback with one path, and of one with two.
  abbrev pub print_one : Text → Line → Option Line
  print_one path l = if has_prefix pathstring path then some l else none

  abbrev pub print_two : Text → Text → Line → Option Line
  print_two path other l =
      if has_prefix pathstring path || has_prefix pathstring other then some l else none

  -- `myops`: what the callback of a command prints. All of them return 0.
  unfoldable pub myops : Command → Option Line
  myops (subvol path) = none
  myops (snapshot path) = none
  myops (mkfile path) = print_one path (line says_mkfile (str path ∷ []))
  myops (mkdir path) = print_one path (line says_mkdir (str path ∷ []))
  myops (mknod path mode dev) =
      print_one path (line says_mknod (str path ∷ hex mode ∷ hex dev ∷ []))
  myops (mkfifo path) = print_one path (line says_mkfifo (str path ∷ []))
  myops (mksock path) = print_one path (line says_mksock (str path ∷ []))
  myops (symlink path lnk) = print_two path lnk (line says_mksymlink (str path ∷ str lnk ∷ []))
  myops (rename from to) = print_two from to (line says_rename (str from ∷ str to ∷ []))
  myops (link path lnk) = print_two path lnk (line says_mkdir (str path ∷ str lnk ∷ []))
  myops (unlink path) = print_one path (line says_unlink (str path ∷ []))
  myops (rmdir path) = print_one path (line says_rmdir (str path ∷ []))
  myops (write path offset len) =
      print_one path (line says_write (str path ∷ hex len ∷ hex offset ∷ []))
  myops (clone path offset len clone_path clone_offset) =
      print_two path clone_path
        (line says_clone (str path ∷ str clone_path ∷ hex len ∷ hex offset ∷ hex clone_offset ∷ []))
  myops (set_xattr path) = none
  myops (remove_xattr path) = none
  myops (truncate path) = none
  myops (chmod path) = none
  myops (chown path) = none
  myops (utimes path) = none
  myops (update_extent path) = none

  -- `btrfs_read_and_process_send_stream`, seen from its callbacks: it goes on while they return 0.
  unfoldable pub process : List Command → List Line
  process [] = []
  process (c ∷ commands) =
      let rest = process commands in elim (myops c) [ none ↦ rest | some l ↦ l ∷ rest ]

-- What a run prints on standard output, and its exit status. The arguments are `argc`, the prefix,
-- whether the stream file opens, and its commands.
unfoldable pub main : ℕ → Text → Bool → List Command → List Line × ℕ
main argc pathstring opens commands =
    if not (argc == 3) then ([], 1) else if opens then (process pathstring commands, 0) else ([], 1)

-- ===== src/Sendgrep/Laws.antt =====
-- The program is a grep: what it prints, said without its tests.
use testunion.Common.{
  ℕ, ◌≡◌, ◌⊎◌, inl, inr, refl, arith, List, [], ◌∷◌, ◌++◌, true, false, Option, none, some,
  Bool-cases, Any, map, subst,
}
use testunion.Common.Options.{Text}
use testunion.Sendgrep.{
  Command, subvol, snapshot, set_xattr, remove_xattr, truncate, chmod, chown, utimes, update_extent,
  mkfile, mkdir, mkfifo, mksock, unlink, rmdir, mknod, symlink, rename, link, write, clone, Line,
  str, hex, has_prefix, print_one, print_two, myops, process, main,
}

-- The path is the prefix, followed by anything.
abbrev pub StartsWith : Text → Text → Type 0
StartsWith prefix path = (rest : Text) × (prefix ++ rest ≡ path)

has_prefix_sound : (prefix path : Text) → has_prefix prefix path ≡ true → StartsWith prefix path
unfolding has_prefix
has_prefix_sound [] path h = (path, refl)
has_prefix_sound (c ∷ cs) [] h = absurd (cc)
has_prefix_sound (c ∷ cs) (d ∷ path) h =
    let both : (c ≡ d) × (has_prefix cs path ≡ true) = ground arith in
    let (rest, e) = has_prefix_sound cs path both.1 in (rest, ground (arith, both, e))

has_prefix-append : (prefix rest : Text) → has_prefix prefix (prefix ++ rest) ≡ true
unfolding has_prefix
has_prefix-append [] rest = refl
has_prefix-append (c ∷ cs) rest = ground (arith, has_prefix-append cs rest)

-- The paths of a command: every command has one or two.
abbrev pub paths : Command → List Text
paths (mkfile path) = path ∷ []
paths (mkdir path) = path ∷ []
paths (mknod path mode dev) = path ∷ []
paths (mkfifo path) = path ∷ []
paths (mksock path) = path ∷ []
paths (unlink path) = path ∷ []
paths (rmdir path) = path ∷ []
paths (write path offset len) = path ∷ []
paths (symlink path lnk) = path ∷ lnk ∷ []
paths (rename from to) = from ∷ to ∷ []
paths (link path lnk) = path ∷ lnk ∷ []
paths (clone path offset len clone_path clone_offset) = path ∷ clone_path ∷ []
paths (subvol path) = path ∷ []
paths (snapshot path) = path ∷ []
paths (set_xattr path) = path ∷ []
paths (remove_xattr path) = path ∷ []
paths (truncate path) = path ∷ []
paths (chmod path) = path ∷ []
paths (chown path) = path ∷ []
paths (utimes path) = path ∷ []
paths (update_extent path) = path ∷ []

-- The numbers that are printed after the paths.
abbrev pub numbers : Command → List ℕ
numbers (mknod path mode dev) = mode ∷ dev ∷ []
numbers (write path offset len) = len ∷ offset ∷ []
numbers (clone path offset len clone_path clone_offset) = len ∷ offset ∷ clone_offset ∷ []
numbers _ = []

-- The commands that are shown at all: those that make, move, link or remove a name, and those that
-- write or clone data. New subvolumes and snapshots, attributes, modes, owners, times, sizes and
-- extents are not.
abbrev pub IsReported : Command → Type 0
IsReported (subvol path) = ⊥
IsReported (snapshot path) = ⊥
IsReported (set_xattr path) = ⊥
IsReported (remove_xattr path) = ⊥
IsReported (truncate path) = ⊥
IsReported (chmod path) = ⊥
IsReported (chown path) = ⊥
IsReported (utimes path) = ⊥
IsReported (update_extent path) = ⊥
IsReported _ = Unit

-- The command is one of those, and a path of it has the prefix.
abbrev pub Mentions : Text → Command → Type 0
Mentions p c = IsReported c × Any (StartsWith p) (paths c)

-- The line shows the command's paths and numbers.
abbrev pub Shows : Command → Line → Type 0
Shows c l = l.args ≡ map str (paths c) ++ map hex (numbers c)

-- The lines are those of the commands that mention the prefix, in the order of the stream.
pub data Grep (p : Text) : List Command → List Line → Type 0 where
  nothing : Grep p [] []
  found :
      (c : Command) (l : Line) (cs : List Command) (ls : List Line)
      → Mentions p c
      → Shows c l
      → Grep p cs ls
      → Grep p (c ∷ cs) (l ∷ ls)
  passed :
      (c : Command) (cs : List Command) (ls : List Line)
      → ¬ Mentions p c
      → Grep p cs ls
      → Grep p (c ∷ cs) ls

-- What a callback prints, against the paths that it looks at.
abbrev Answers : Text → List Text → Line → Option Line → Type 0
Answers p looked l o =
    ((o ≡ none) × ¬ Any (StartsWith p) looked) ⊎ ((o ≡ some l) × Any (StartsWith p) looked)

module _ (p : Text) where
  refuted : (path : Text) → has_prefix p path ≡ false → ¬ StartsWith p path
  refuted path e (rest, s) =
      let t : has_prefix p (p ++ rest) ≡ true = has_prefix-append p rest in
      let u : has_prefix p path ≡ true = subst (λ q. has_prefix p q ≡ true) s t in cc

  print_one_lem : (path : Text) (l : Line) → Answers p (path ∷ []) l (print_one p path l)
  print_one_lem path l = elim (Bool-cases (has_prefix p path)) [
    | inl e ↦ inr (rw e refl, inl (has_prefix_sound p path e))
    | inr e ↦ inl (rw e refl, λ m. elim m [ inl s ↦ refuted path e s | inr n ↦ n ])
  ]

  print_two_lem :
      (path other : Text) (l : Line) → Answers p (path ∷ other ∷ []) l (print_two p path other l)
  print_two_lem path other l = elim (Bool-cases (has_prefix p path)) [
    | inl e ↦ inr (rw e refl, inl (has_prefix_sound p path e))
    | inr e ↦ elim (Bool-cases (has_prefix p other)) [
      | inl f ↦ inr (rw (e, f) refl, inr (inl (has_prefix_sound p other f)))
      | inr f ↦ inl (
        rw (e, f) refl,
        λ m. elim m [
          | inl s ↦ refuted path e s
          | inr n ↦ elim n [ inl s ↦ refuted other f s | inr n ↦ n ]
        ],
      )
    ]
  ]

  -- What a callback does for its command.
  abbrev IsRight : Command → Option Line → Type 0
  IsRight c o =
      ((o ≡ none) × ¬ Mentions p c) ⊎ ((l : Line) × (o ≡ some l) × Mentions p c × Shows c l)

  shown :
      (c : Command) (l : Line) (o : Option Line)
      → IsReported c
      → Shows c l
      → Answers p (paths c) l o
      → IsRight c o
  shown c l o r s (inl (e, n)) = inl (e, λ m. n m.1)
  shown c l o r s (inr (e, m)) = inr (l, e, (r, m), s)

  silent : (c : Command) → ¬ IsReported c → myops p c ≡ none → IsRight c (myops p c)
  silent c n e = inl (e, λ m. n m.0)

  myops-IsRight : (c : Command) → IsRight c (myops p c)
  unfolding myops
  myops-IsRight (mkfile path) = shown (mkfile path) _ _ tt refl (print_one_lem path _)
  myops-IsRight (mkdir path) = shown (mkdir path) _ _ tt refl (print_one_lem path _)
  myops-IsRight (mknod path m d) = shown (mknod path m d) _ _ tt refl (print_one_lem path _)
  myops-IsRight (mkfifo path) = shown (mkfifo path) _ _ tt refl (print_one_lem path _)
  myops-IsRight (mksock path) = shown (mksock path) _ _ tt refl (print_one_lem path _)
  myops-IsRight (unlink path) = shown (unlink path) _ _ tt refl (print_one_lem path _)
  myops-IsRight (rmdir path) = shown (rmdir path) _ _ tt refl (print_one_lem path _)
  myops-IsRight (write path o n) = shown (write path o n) _ _ tt refl (print_one_lem path _)
  myops-IsRight (symlink path lnk) = shown (symlink path lnk) _ _ tt refl (print_two_lem path lnk _)
  myops-IsRight (rename from to) = shown (rename from to) _ _ tt refl (print_two_lem from to _)
  myops-IsRight (link path lnk) = shown (link path lnk) _ _ tt refl (print_two_lem path lnk _)
  myops-IsRight (clone path o n q o') =
      shown (clone path o n q o') _ _ tt refl (print_two_lem path q _)
  myops-IsRight (subvol path) = silent (subvol path) (λ n. n) refl
  myops-IsRight (snapshot path) = silent (snapshot path) (λ n. n) refl
  myops-IsRight (set_xattr path) = silent (set_xattr path) (λ n. n) refl
  myops-IsRight (remove_xattr path) = silent (remove_xattr path) (λ n. n) refl
  myops-IsRight (truncate path) = silent (truncate path) (λ n. n) refl
  myops-IsRight (chmod path) = silent (chmod path) (λ n. n) refl
  myops-IsRight (chown path) = silent (chown path) (λ n. n) refl
  myops-IsRight (utimes path) = silent (utimes path) (λ n. n) refl
  myops-IsRight (update_extent path) = silent (update_extent path) (λ n. n) refl

  process-Grep : (cs : List Command) → Grep p cs (process p cs)
  unfolding process
  process-Grep [] = nothing
  process-Grep (c ∷ cs) = elim (myops-IsRight c) [
    | inl (e, n) ↦ rw (e, process) (passed c cs (process p cs) n (process-Grep cs))
    | inr (l, e, m, s) ↦ rw (e, process) (found c l cs (process p cs) m s (process-Grep cs))
  ]

-- With two arguments and a stream that opens, the program prints one line, with the paths and
-- numbers of the command, for each command that has a path with the given prefix and makes,
-- renames, links or removes a name, writes or clones, in the order of the stream, prints nothing
-- for any other command, and ends with status 0.
pub main-Grep :
    (pathstring : Text) (commands : List Command)
    → let r = main 3 pathstring true commands in Grep pathstring commands r.0 × (r.1 ≡ 0)
unfolding main
main-Grep p commands = (process-Grep p commands, refl)

-- ===== src/Sendgrep/Tests.antt =====
-- The theorem of Sendgrep at a stream of four commands, of which two touch the prefix.
use testunion.Common.{◌≡◌, refl, List, [], ◌∷◌, true, false}
use testunion.Common.Options.{Text}
use testunion.Sendgrep.{
  Command, mkfile, write, rename, truncate, Line, line, says_mkfile, says_rename, str, has_prefix,
  myops, process, main,
}
use testunion.Sendgrep.Laws.{Grep, main-Grep}

abbrev prefix : Text
prefix = b'a' ∷ b'/' ∷ []

abbrev inside : Text
inside = b'a' ∷ b'/' ∷ b'x' ∷ []

abbrev outside : Text
outside = b'a' ∷ []

abbrev stream : List Command
stream = mkfile inside ∷ write outside 0 3 ∷ rename outside inside ∷ truncate inside ∷ []

abbrev output : List Line
output = line says_mkfile (str inside ∷ []) ∷ line says_rename (str outside ∷ str inside ∷ []) ∷ []

main_runs : main 3 prefix true stream ≡ (output, 0)
unfolding main process myops has_prefix
main_runs = refl

main_fails : (main 2 prefix true stream ≡ ([], 1)) × (main 3 prefix false stream ≡ ([], 1))
unfolding main
main_fails = (refl, refl)

main-Grep_example :
    Grep prefix stream (main 3 prefix true stream).0 × ((main 3 prefix true stream).1 ≡ 0)
main-Grep_example = main-Grep prefix stream

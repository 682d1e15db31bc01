-- ===== src/Syncperf.antt =====
-- incoming/syncperf.c: creates files, reads them and unlinks them, with a sync after each of the three.
-- Failing calls only print a message, so the calls do not depend on what the kernel answers.
pub mod Names
pub mod Laws
pub mod Clock
mod Tests
use testunion.Common.{
  ℕ, zero, suc, ◌+◌, ◌*◌, ◌^◌, List, [], ◌∷◌, ◌++◌, Bool, Option, none, some, leb, if◌then◌else◌,
  take, set, get_or,
}
use testunion.Common.Options.{Text}

abbrev pub max_name : ℕ
max_name = 12

abbrev pub file_size : ℕ
file_size = 2 ^ 14

abbrev pub num_start_files : ℕ
num_start_files = 2 ^ 15

abbrev pub num_files : ℕ
num_files = 2 ^ 15

-- The calls. `write`, `read` and `close` are on the file opened before.
pub data Call : Type 0 where
  mkdir chdir_in chdir_up remove_all sync read close : Call
  creat open_file unlink : Text → Call
  write : ℕ → Call

module _ (decimal : ℕ → Text) where
  -- `snprintf(name, MAX_NAME, "f%d", i)`, where `decimal` is what `%d` prints.
  unfoldable pub file_name : ℕ → Text
  file_name i = take 11 (b'f' ∷ decimal i)

  -- The loops, from index `i` on. `files` is the array `File`, which only the first one changes.
  unfoldable pub createfiles : ℕ → ℕ → List Text → List Call × List Text
  createfiles i zero files = ([], files)
  createfiles i (suc left) files =
      let rest = createfiles (i + 1) left (set files i (file_name i)) in
      (creat (file_name i) ∷ write file_size ∷ close ∷ rest.0, rest.1)

unfoldable pub unlinkfiles : ℕ → ℕ → List Text → List Call
unlinkfiles i zero files = []
unlinkfiles i (suc left) files = unlink (get_or files i []) ∷ unlinkfiles (i + 1) left files

unfoldable pub readfiles : ℕ → ℕ → List Text → List Call
readfiles i zero files = []
readfiles i (suc left) files =
    open_file (get_or files i []) ∷ read ∷ close ∷ readfiles (i + 1) left files

module _ (decimal : ℕ → Text) where
  unfoldable pub crsyncdel : ℕ → List Text → List Call × List Text
  crsyncdel n files =
      let made = createfiles decimal 0 n files in
      (
        made.0
            ++ (sync ∷ (readfiles 0 n made.1 ++ (sync ∷ (unlinkfiles 0 n made.1 ++ (sync ∷ []))))),
        made.1,
      )

  -- `for (i = …; i <= limit; i <<= 1)`; `none` means that the fuel ran out.
  unfoldable pub runs : ℕ → ℕ → ℕ → List Text → Option (List Call)
  runs limit zero i files = none
  runs limit (suc fuel) i files =
      let done = crsyncdel i files in
      let rest = runs limit fuel (i * 2) done.1 in
      if leb i limit
      then elim rest [ none ↦ none | some calls ↦ some (done.0 ++ calls) ]
      else some []

  -- `files` is the array as `malloc` gives it.
  unfoldable pub main : ℕ → List Text → Option (List Call)
  main fuel files = elim (runs num_files fuel num_start_files files) [
    | none ↦ none
    | some calls ↦ some ((mkdir ∷ chdir_in ∷ sync ∷ []) ++ (calls ++ (chdir_up ∷ remove_all ∷ [])))
  ]

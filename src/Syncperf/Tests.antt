-- ===== src/Syncperf/Tests.antt =====
-- The theorem of Syncperf at an empty array, and a run on three files.
use testunion.Common.{ℕ, zero, suc, ◌+◌, ◌≡◌, refl, ap, arith, List, [], ◌∷◌, some, get_or, length}
use testunion.Common.Options.{Text}
use testunion.Syncperf.{
  num_files, Call, file_name, createfiles, readfiles, unlinkfiles, crsyncdel, main, creat,
  open_file, unlink, write, sync, read, close,
}
use testunion.Syncperf.Names.{IsDecimal, Distinct, names_from, names, creat_of, open_of, unlink_of}
use testunion.Syncperf.Laws.{main_lem}

-- A number as one digit; the program's numbers have up to five.
abbrev decimal : ℕ → Text
decimal n = (b'0' + n) ∷ []

crsyncdel_runs :
    (crsyncdel decimal 1 ([] ∷ [])).0
    ≡ creat (b'f' ∷ b'0' ∷ [])
      ∷ write 16384
      ∷ close
      ∷ sync
      ∷ open_file (b'f' ∷ b'0' ∷ [])
      ∷ read
      ∷ close
      ∷ sync
      ∷ unlink (b'f' ∷ b'0' ∷ [])
      ∷ sync
      ∷ []
unfolding crsyncdel createfiles readfiles unlinkfiles file_name
crsyncdel_runs = refl

decimal-IsDecimal : IsDecimal decimal
decimal-IsDecimal = record {
  injective = λ m n e. omega (arith, ap (λ l. get_or l 0 0) e);
  short = λ n h. omega arith;
}

blank : ℕ → List Text
blank zero = []
blank (suc n) = [] ∷ blank n

length-blank : (n : ℕ) → length (blank n) ≡ n
unfolding blank
length-blank zero = refl
length-blank (suc n) = ap suc (length-blank n)

main_lem_example :
    let made = names_from decimal 0 num_files in
    Distinct made
    × ((calls : List Call) × (main decimal 2 (blank num_files) ≡ some calls)
        × (names creat_of calls ≡ made)
        × (names open_of calls ≡ made)
        × (names unlink_of calls ≡ made))
main_lem_example =
    main_lem decimal decimal-IsDecimal 2 (blank num_files) (omega arith)
      (omega (arith, length-blank num_files))

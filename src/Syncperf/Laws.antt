-- ===== src/Syncperf/Laws.antt =====
-- The three loops work on the same files, whose names are all different, and the program makes one
-- run.
use mathlib.Core.List.{append-nil}
use native.Mathlib.Decide.{dec_lt}
use testunion.Common.{
  ℕ, zero, suc, ◌+◌, ◌^◌, ◌≤◌, ◌<◌, ◌≡◌, refl, ap, subst, ◌∙◌, arith, List, [], ◌∷◌, ◌++◌, Option,
  some, set, get_or, length, length-set, get_or-set_self, get_or-set_ne, take_all,
}
use testunion.Common.Options.{Text}
use testunion.Syncperf.{
  num_files, Call, mkdir, chdir_in, chdir_up, remove_all, sync, file_name, createfiles, unlinkfiles,
  readfiles, crsyncdel, runs, main,
}
use testunion.Syncperf.Names.{
  IsDecimal, creat_of, open_of, unlink_of, Distinct, names, names-append, split, names_from,
  names_from-Distinct,
}

module _ (decimal : ℕ → Text) where
  -- The array holds the names of the files from `i` up to `n`.
  abbrev Holds : ℕ → ℕ → List Text → Type 0
  Holds i n files = (j : ℕ) → i ≤ j → j < n → get_or files j [] ≡ b'f' ∷ decimal j

module _ (decimal : ℕ → Text) (d : IsDecimal decimal) where
  file_name_lem : (i : ℕ) → i < 2 ^ 31 → file_name decimal i ≡ b'f' ∷ decimal i
  unfolding file_name
  file_name_lem i h = take_all 11 (b'f' ∷ decimal i) (omega (arith, d.short i h))

  createfiles_lem :
      (left i : ℕ) (files : List Text)
      → i + left ≤ length files
      → i + left ≤ 2 ^ 31
      → let r = createfiles decimal i left files in
        (names creat_of r.0 ≡ names_from decimal i left)
        × (names open_of r.0 ≡ [])
        × (names unlink_of r.0 ≡ [])
        × (length r.1 ≡ length files)
        × Holds decimal i (i + left) r.1
        × ((j : ℕ) → j < i → get_or r.1 j [] ≡ get_or files j [])
  unfolding createfiles names_from
  createfiles_lem zero i files h s =
      (refl, refl, refl, refl, (λ j a b. absurd (omega arith)), λ j a. refl)
  createfiles_lem (suc left) i files h s =
      let name = file_name_lem i (omega arith) in
      let files' = set files i (file_name decimal i) in
      let same_length = length-set files i (file_name decimal i) in
      let (made, opened, removed, size, holds, before) =
        createfiles_lem left (i + 1) files' (omega (arith, same_length)) (omega arith) in
      let rest = createfiles decimal (i + 1) left files' in
      let own =
        before i (omega arith)
        ∙ get_or-set_self files i (file_name decimal i) [] (omega (arith, h))
        ∙ name in
      (
        ap (λ n. n ∷ names creat_of rest.0) name ∙ ap (λ l. (b'f' ∷ decimal i) ∷ l) made,
        opened,
        removed,
        size ∙ same_length,
        λ j a b. elim (dec_lt i j) [
          | yes l ↦ holds j (omega arith) (omega arith)
          | no l ↦
              let e : i ≡ j = omega (arith, l, a) in
              subst (λ k. get_or rest.1 k [] ≡ b'f' ∷ decimal k) e own
        ],
        λ j l.
            before j (omega arith)
            ∙ get_or-set_ne files i j (file_name decimal i) [] (λ e. absurd (omega (arith, e))),
      )

  readfiles_lem :
      (left i n : ℕ) (files : List Text)
      → i + left ≡ n
      → Holds decimal i n files
      → let r = readfiles i left files in
        (names open_of r ≡ names_from decimal i left)
        × (names creat_of r ≡ [])
        × (names unlink_of r ≡ [])
  unfolding readfiles names_from
  readfiles_lem zero i n files e h = (refl, refl, refl)
  readfiles_lem (suc left) i n files e h =
      let (o, c, u) =
        readfiles_lem left (i + 1) n files (omega (arith, e)) (λ j a b. h j (omega arith) b) in
      let own = h i (omega arith) (omega (arith, e)) in (rw (own, o) refl, c, u)

  unlinkfiles_lem :
      (left i n : ℕ) (files : List Text)
      → i + left ≡ n
      → Holds decimal i n files
      → let r = unlinkfiles i left files in
        (names unlink_of r ≡ names_from decimal i left)
        × (names creat_of r ≡ [])
        × (names open_of r ≡ [])
  unfolding unlinkfiles names_from
  unlinkfiles_lem zero i n files e h = (refl, refl, refl)
  unlinkfiles_lem (suc left) i n files e h =
      let (u, c, o) =
        unlinkfiles_lem left (i + 1) n files (omega (arith, e)) (λ j a b. h j (omega arith) b) in
      let own = h i (omega arith) (omega (arith, e)) in (rw (own, u) refl, c, o)

  -- One run creates, opens and unlinks the same files, and the array keeps its length.
  crsyncdel_lem :
      (n : ℕ) (files : List Text)
      → n ≤ length files
      → n ≤ 2 ^ 31
      → let r = crsyncdel decimal n files in
        (names creat_of r.0 ≡ names_from decimal 0 n)
        × (names open_of r.0 ≡ names_from decimal 0 n)
        × (names unlink_of r.0 ≡ names_from decimal 0 n)
        × (length r.1 ≡ length files)
  unfolding crsyncdel
  crsyncdel_lem n files h s =
      let (mc, mo, mu, size, holds, before) =
        createfiles_lem n 0 files (omega arith) (omega arith) in
      let made = createfiles decimal 0 n files in
      let e : 0 + n ≡ n = omega arith in
      let held : Holds decimal 0 n made.1 = λ j a b. holds j a (omega arith) in
      let (ro, rc, ru) = readfiles_lem n 0 n made.1 e held in
      let (uu, uc, uo) = unlinkfiles_lem n 0 n made.1 e held in
      let read_them = readfiles 0 n made.1 in
      let unlink_them = unlinkfiles 0 n made.1 in
      (
        split creat_of refl made.0 read_them unlink_them
            ∙ (rw (mc, rc, uc) (append-nil (names_from decimal 0 n))),
        split open_of refl made.0 read_them unlink_them
            ∙ (rw (mo, ro, uo) (append-nil (names_from decimal 0 n))),
        split unlink_of refl made.0 read_them unlink_them ∙ rw (mu, ru, uu) refl,
        size,
      )

  -- Where %d tells numbers apart and prints an int in at most ten digits, the array has room for
  -- NUM_FILES names and the fuel is 2 or more, main ends, and it creates, opens and unlinks the
  -- same NUM_FILES files, each of them once, in the same order and under names that are not cut off
  -- and are all different.
  pub main_lem :
      (fuel : ℕ) (files : List Text)
      → 2 ≤ fuel
      → num_files ≤ length files
      → let made = names_from decimal 0 num_files in
        Distinct made
        × ((calls : List Call) × (main decimal fuel files ≡ some calls)
            × (names creat_of calls ≡ made)
            × (names open_of calls ≡ made)
            × (names unlink_of calls ≡ made))
  unfolding main runs
  main_lem zero files f h = absurd (omega arith)
  main_lem (suc zero) files f h = absurd (omega arith)
  main_lem (suc (suc fuel)) files f h =
      let (c, o, u, size) = crsyncdel_lem num_files files h (omega arith) in
      let run = crsyncdel decimal num_files files in
      (
        names_from-Distinct decimal d num_files 0,
        (
          (mkdir ∷ chdir_in ∷ sync ∷ []) ++ ((run.0 ++ []) ++ (chdir_up ∷ remove_all ∷ [])),
          refl,
          around creat_of refl run.0 ∙ c,
          around open_of refl run.0 ∙ o,
          around unlink_of refl run.0 ∙ u,
        ),
      )
    where
      around :
          (f : Call → Option Text)
          → names f (chdir_up ∷ remove_all ∷ []) ≡ []
          → (calls : List Call)
          → names f ((calls ++ []) ++ (chdir_up ∷ remove_all ∷ [])) ≡ names f calls
      around f e calls =
          names-append f (calls ++ []) (chdir_up ∷ remove_all ∷ [])
          ∙ rw (e, append-nil (names f (calls ++ [])), append-nil calls) refl

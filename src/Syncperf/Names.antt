-- ===== src/Syncperf/Names.antt =====
-- The names in a list of calls, and those that the program gives its files.
use mathlib.Core.List.{append-nil}
use testunion.Common.{
  ℕ, zero, suc, ◌+◌, ◌^◌, ◌≤◌, ◌<◌, ◌≡◌, ◌≢◌, refl, ap, ◌∙◌, arith, List, [], ◌∷◌, ◌++◌, Option,
  none, some, drop, length, Option-cases, inl, inr,
}
use testunion.Common.Options.{Text}
use testunion.Syncperf.{Call, sync, creat, open_file, unlink}

-- What `printf` documents of `%d`: numbers are told apart, and an `int` has ten digits at most.
pub record IsDecimal (decimal : ℕ → Text) : Type 0 where
  pub injective : (m n : ℕ) → decimal m ≡ decimal n → m ≡ n
  pub short : (n : ℕ) → n < 2 ^ 31 → length (decimal n) ≤ 10

-- The name that a call creates, opens or unlinks.
abbrev pub creat_of : Call → Option Text
creat_of (creat name) = some name
creat_of call = none

abbrev pub open_of : Call → Option Text
open_of (open_file name) = some name
open_of call = none

abbrev pub unlink_of : Call → Option Text
unlink_of (unlink name) = some name
unlink_of call = none

abbrev pub Absent : Text → List Text → Type 0
Absent name [] = Unit
Absent name (other ∷ names) = (other ≢ name) × Absent name names

-- No name stands twice.
abbrev pub Distinct : List Text → Type 0
Distinct [] = Unit
Distinct (name ∷ names) = Absent name names × Distinct names

-- The names of a kind in a list of calls, in their order.
abbrev pub names : (Call → Option Text) → List Call → List Text
names f [] = []
names f (call ∷ calls) = elim (f call) [ none ↦ names f calls | some n ↦ n ∷ names f calls ]

pub names-append :
    (f : Call → Option Text) (xs ys : List Call) → names f (xs ++ ys) ≡ names f xs ++ names f ys
names-append f [] ys = refl
names-append f (call ∷ xs) ys = elim (Option-cases (f call)) [
  | inl e ↦ rw (e, names) (names-append f xs ys)
  | inr (n, e) ↦ rw (e, names) (ap (λ l. n ∷ l) (names-append f xs ys))
]

-- A sync names nothing.
pub split :
    (f : Call → Option Text)
    → f sync ≡ none
    → (xs ys zs : List Call)
    → names f (xs ++ (sync ∷ (ys ++ (sync ∷ (zs ++ (sync ∷ []))))))
      ≡ names f xs ++ (names f ys ++ names f zs)
split f e xs ys zs =
    names-append f xs (sync ∷ (ys ++ (sync ∷ (zs ++ (sync ∷ [])))))
    ∙ ap (λ l. names f xs ++ l)
        (skip (ys ++ (sync ∷ (zs ++ (sync ∷ []))))
          ∙ names-append f ys (sync ∷ (zs ++ (sync ∷ [])))
          ∙ ap (λ l. names f ys ++ l)
              (skip (zs ++ (sync ∷ []))
                ∙ names-append f zs (sync ∷ [])
                ∙ ap (λ l. names f zs ++ l) (skip [])
                ∙ append-nil (names f zs)))
  where
    skip : (calls : List Call) → names f (sync ∷ calls) ≡ names f calls
    skip calls = rw (e, names) refl

module _ (decimal : ℕ → Text) where
  -- The names of `left` files from file `i` on, not cut off.
  unfoldable pub names_from : ℕ → ℕ → List Text
  names_from i zero = []
  names_from i (suc left) = (b'f' ∷ decimal i) ∷ names_from (i + 1) left

module _ (decimal : ℕ → Text) (d : IsDecimal decimal) where
  names_from-Absent : (left i j : ℕ) → j < i → Absent (b'f' ∷ decimal j) (names_from decimal i left)
  unfolding names_from
  names_from-Absent zero i j h = tt
  names_from-Absent (suc left) i j h = (
    λ e. absurd (omega (arith, h, d.injective i j (ap (drop 1) e))),
    names_from-Absent left (i + 1) j (omega arith),
  )

  pub names_from-Distinct : (left i : ℕ) → Distinct (names_from decimal i left)
  unfolding names_from
  names_from-Distinct zero i = tt
  names_from-Distinct (suc left) i =
      (names_from-Absent left (i + 1) i (omega arith), names_from-Distinct left (i + 1))

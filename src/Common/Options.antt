-- ===== src/Common/Options.antt =====
-- What `getopt` gives a program, and the loop over it that the programs share.
use mathlib.Core.Path.{◌≡◌}
use mathlib.Core.Bool.{Bool, true, false, ◌&&◌}
use mathlib.Core.List.{List, [], ◌∷◌}
use mathlib.Core.Option.{Option, none, some, some-injective}
use mathlib.Core.Path.{subst}
use Prim.Native.Nat.{ℕ}
use testunion.Common.Tests.{◌==◌, Option-cases}
use mathlib.Core.Logic.{inl, inr}

-- A string, as the codes of its characters without the final NUL.
abbrev pub Text : Type 0
Text = List ℕ

-- The letter that `getopt` returns, `?` for one that is not known, and `optarg`.
pub record Opt : Type 0 where
  pub letter : ℕ
  pub optarg : Text

-- `strcmp(s, t) == 0`
abbrev pub same_text : Text → Text → Bool
same_text [] [] = true
same_text [] (d ∷ t) = false
same_text (c ∷ s) [] = false
same_text (c ∷ s) (d ∷ t) = (c == d) && same_text s t

module _ {ℓ} {S : Type ℓ} (set_option : S → Opt → Option S) where
  -- `while ((c = getopt(…)) != -1) switch (c) …`; `none` is an exit of the program.
  unfoldable pub fold_options : List Opt → S → Option S
  fold_options [] s = some s
  fold_options (o ∷ os) s = elim (set_option s o) [ none ↦ none | some t ↦ fold_options os t ]

  -- What each option keeps, the loop keeps.
  pub fold_options_inv {κ} :
      (P : S → Type κ)
      → ((s : S) (o : Opt) (t : S) → P s → set_option s o ≡ some t → P t)
      → (os : List Opt) (s t : S) → P s
      → fold_options os s ≡ some t
      → P t
  unfolding fold_options
  fold_options_inv P keeps [] s t p e = subst P (some-injective _ _ e) p
  fold_options_inv P keeps (o ∷ os) s t p e = elim (Option-cases (set_option s o)) [
    | inl n ↦ absurd (cc)
    | inr (u, v) ↦ fold_options_inv P keeps os u t (keeps s o u p v) (rw (v, fold_options) at e)
  ]

-- ===== src/FileFlags/Letters.antt =====
-- What the options do to the lines that are printed for a file, letter by letter.
use Prim.Native.String.{String}
use native.Mathlib.Nat.{pow-le-pow_right}
use testunion.Common.{
  ℕ, ◌^◌, ◌≤◌, ◌<◌, ◌≡◌, ◌≢◌, ◌↔◌, ◌⊎◌, inl, inr, refl, arith, List, [], ◌∷◌, true, false, ◌==◌,
  ==_iff, drop, All, All-In, All-mono, Any, Any-iff, In, has, Bool-cases, ap, sym, ◌∙◌,
}
use testunion.Bits.{bit, bit-zero, bit-power, has-pow}
use testunion.FileFlags.{
  FlagsName, Text, char_at, find_flag, c2val, listed, parse_options, new_flags,
}
use testunion.FileFlags.Laws.{Asks, IsOption, new_flags_iff}
use testunion.FileFlags.Table.{FsFlags, flags, LettersDiffer, FlagsDiffer, flags-LettersDiffer}

-- Each flag is a bit of a word.
abbrev pub AreBits : List FlagsName → Type 0
AreBits rows = All (λ r. (k : ℕ) × (r.flag ≡ 2 ^ k) × (k < 64)) rows

find_flag-In :
    (rows : List FlagsName) (r : FlagsName)
    → LettersDiffer rows
    → In r rows
    → find_flag rows r.short_name ≡ r.flag
unfolding find_flag
find_flag-In [] r d i = absurd i
find_flag-In (x ∷ rows) r d (inl e) =
    let n : x.short_name ≡ r.short_name = ap (λ t. t.short_name) e in
    let f : x.flag ≡ r.flag = ap (λ t. t.flag) e in ground arith
find_flag-In (x ∷ rows) r d (inr i) =
    let n : r.short_name ≢ x.short_name = All-In (λ s. s.short_name ≢ x.short_name) rows d.0 i in
    ground (arith, find_flag-In rows r d.1 i)

find_flag_inv :
    (rows : List FlagsName) (c k : ℕ)
    → bit (find_flag rows c) k ≡ 1
    → (r : FlagsName) × In r rows × (r.short_name ≡ c) × (bit r.flag k ≡ 1)
unfolding find_flag
find_flag_inv [] c k e = absurd (omega (arith, bit-zero k))
find_flag_inv (x ∷ rows) c k e = elim (Bool-cases (x.short_name == c)) [
  | inl h ↦ (x, inl refl, (==_iff x.short_name c).0 h, rw h at e)
  | inr h ↦ let (r, i, same, hit) = find_flag_inv rows c k (rw h at e) in (r, inr i, same, hit)
]

flags_unique :
    (rows : List FlagsName) (r s : FlagsName)
    → FlagsDiffer rows
    → In r rows
    → In s rows
    → r.flag ≡ s.flag
    → r.short_name ≡ s.short_name
flags_unique [] r s d i j e = absurd i
flags_unique (x ∷ rows) r s d (inl p) (inl q) e = ap (λ t. t.short_name) (sym p ∙ q)
flags_unique (x ∷ rows) r s d (inl p) (inr j) e =
    absurd (All-In (λ t. t.flag ≢ x.flag) rows d.0 j (sym e ∙ ap (λ t. t.flag) (sym p)))
flags_unique (x ∷ rows) r s d (inr i) (inl q) e =
    absurd (All-In (λ t. t.flag ≢ x.flag) rows d.0 i (e ∙ ap (λ t. t.flag) (sym q)))
flags_unique (x ∷ rows) r s d (inr i) (inr j) e = flags_unique rows r s d.1 i j e

abbrev pub line : FlagsName → ℕ × String
line r = (r.short_name, r.long_name)

-- A printed letter is that of a row.
listed_inv :
    (rows : List FlagsName) (w : ℕ) (l : ℕ × String)
    → In l (listed rows w)
    → (s : FlagsName) × In s rows × (s.short_name ≡ l.0) × (has w s.flag ≡ true)
unfolding listed
listed_inv [] w l i = absurd i
listed_inv (x ∷ rows) w l i = elim (Bool-cases (has w x.flag)) [
  | inl h ↦ elim (rw h at i) [
    | inl e ↦ (x, inl refl, ap (λ t. t.0) e, h)
    | inr j ↦ let (s, k, same, hit) = listed_inv rows w l j in (s, inr k, same, hit)
  ]
  | inr h ↦ let (s, k, same, hit) = listed_inv rows w l (rw h at i) in (s, inr k, same, hit)
]

same_letter :
    (rows : List FlagsName) (r s : FlagsName)
    → LettersDiffer rows
    → In r rows
    → In s rows
    → r.short_name ≡ s.short_name
    → r.flag ≡ s.flag
same_letter rows r s d i j e =
    sym (find_flag-In rows r d i) ∙ ap (find_flag rows) e ∙ find_flag-In rows s d j

In-listed :
    (rows : List FlagsName) (w : ℕ) (r : FlagsName)
    → In r rows
    → has w r.flag ≡ true
    → In (line r) (listed rows w)
unfolding listed
In-listed [] w r i h = absurd i
In-listed (x ∷ rows) w r (inl e) h =
    let f : has w x.flag ≡ true = ap (λ t. has w t.flag) e ∙ h in rw f (inl (ap line e))
In-listed (x ∷ rows) w r (inr i) h = elim (Bool-cases (has w x.flag)) [
  | inl f ↦ rw f (inr (In-listed rows w r i h))
  | inr f ↦ rw f (In-listed rows w r i h)
]

-- The line of a row is printed exactly for the files that have its flag.
listed_iff :
    (rows : List FlagsName) (w : ℕ) (r : FlagsName)
    → LettersDiffer rows
    → In r rows
    → In (line r) (listed rows w) ↔ (has w r.flag ≡ true)
listed_iff rows w r d i = (
  λ l.
      let (s, j, same, hit) = listed_inv rows w (line r) l in
      ap (has w) (same_letter rows r s d i j (sym same)) ∙ hit,
  In-listed rows w r i,
)

-- The option starts with this sign and has this letter.
abbrev pub Names : ℕ → ℕ → Text → Type 0
Names sign c o = (char_at o 0 ≡ sign) × In c (drop 1 o)

module _ (rows : List FlagsName) (bits : AreBits rows) (letters : LettersDiffer rows)
    (differ : FlagsDiffer rows) (r : FlagsName) (i : In r rows) (k : ℕ)
    (is_bit : r.flag ≡ 2 ^ k) where
  own_bit : (d : ℕ) → (bit (c2val rows d) k ≡ 1) ↔ (d ≡ r.short_name)
  unfolding c2val
  own_bit d = (
    λ e.
        let (s, j, same, hit) = find_flag_inv rows d k e in
        let (k', pow, small) = All-In (λ t. (n : ℕ) × (t.flag ≡ 2 ^ n) × (n < 64)) rows bits j in
        let power = bit-power k k' in
        let at : k ≡ k' = ground (arith, rw pow at hit) in
        sym same ∙ flags_unique rows s r differ j i (pow ∙ sym (rw at at is_bit)),
    λ e.
        let own = find_flag-In rows r letters i in
        let power = bit-power k k in rw (e, own, is_bit) (ground arith),
  )

  Asks-Names : (sign : ℕ) (o : Text) → Asks rows k sign o ↔ Names sign r.short_name o
  Asks-Names sign o =
      let all = Any-iff (drop 1 o) own_bit in ((λ (s, h). (s, all.0 h)), λ (s, h). (s, all.1 h))

AreBits-fit : (rows : List FlagsName) → AreBits rows → All (λ r. r.flag < 2 ^ 64) rows
AreBits-fit rows bits =
    All-mono _ _ rows
      (λ r (k, pow, small).
        let le : 2 ^ k ≤ 2 ^ 63 = pow-le-pow_right {n = 2} (omega arith) {j = 63} (omega arith) in
        omega (arith, pow, le))
      bits

has-bit : (r : FlagsName) (k w : ℕ) → r.flag ≡ 2 ^ k → (has w r.flag ≡ true) ↔ (bit w k ≡ 1)
has-bit r k w pow = rw (pow, has-pow k w) (==_iff (bit w k) 1)

-- For constants that are different bits of a word and options that start with one sign, the line of
-- a row of the table is printed for the new flags of a file exactly when the file had the flag or
-- some + option has the letter of the row, and no - option has it, in whatever order the options
-- stand.
pub letters_iff :
    (fs : FsFlags) (os : List Text) (fflags : ℕ) (r : FlagsName)
    → AreBits (flags fs)
    → FlagsDiffer (flags fs)
    → All IsOption os
    → In r (flags fs)
    → let new = new_flags (flags fs) (parse_options (flags fs) 0 0 false os) fflags in
      In (line r) (listed (flags fs) new) ↔ (
        ((has fflags r.flag ≡ true) ⊎ Any (Names b'+' r.short_name) os)
        × ¬ Any (Names b'-' r.short_name) os)
letters_iff fs os fflags r bits differ options i =
    let rows = flags fs in
    let letters = flags-LettersDiffer fs in
    let new = new_flags rows (parse_options rows 0 0 false os) fflags in
    let (k, pow, small) = All-In (λ t. (n : ℕ) × (t.flag ≡ 2 ^ n) × (n < 64)) rows bits i in
    let plus = Any-iff os (Asks-Names rows bits letters differ r i k pow b'+') in
    let minus = Any-iff os (Asks-Names rows bits letters differ r i k pow b'-') in
    let core = new_flags_iff rows (AreBits-fit rows bits) os fflags k options small in
    let printed = listed_iff rows new r letters i in
    let has_new = has-bit r k new pow in
    let had = has-bit r k fflags pow in
    (
      λ l.
          let (kept, no_minus) = core.0 (has_new.0 (printed.0 l)) in
          (elim kept [ inl e ↦ inl (had.1 e) | inr a ↦ inr (plus.0 a) ], λ m. no_minus (minus.1 m)),
      λ (kept, no_minus). printed.1 (
          has_new.1 (
            core.1 (
              elim kept [ inl e ↦ inl (had.0 e) | inr a ↦ inr (plus.1 a) ],
              λ m. no_minus (minus.0 m),
            ))),
    )

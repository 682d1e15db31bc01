-- ===== src/FileFlags/Laws.antt =====
-- Which flags a file has afterwards: an unset flag wins over a set one, wherever they stand.
use testunion.Common.{
  ℕ, ◌^◌, ◌<◌, ◌≡◌, ◌≢◌, ◌↔◌, ◌⊎◌, inl, inr, refl, arith, List, [], ◌∷◌, Bool, true, false, bit_or,
  not64, drop, All, Any, if◌then◌else◌, Bool-cases, Option-cases, All-append, some, ap, sym,
}
use testunion.Bits.{bit, bit-le, bit-zero, bit-bit_and, bit-bit_or, bit_or-lt, bit-complement}
use testunion.FileFlags.{
  FlagsName, Text, char_at, Request, find_flag, c2val, add_flags, parse_options, new_flags, Kernel,
  Action, set_flags, list_flags, listed, change_file, handle_file, handle_files,
}

module _ (flags : List FlagsName) (k : ℕ) where
  -- The option starts with this sign and names a flag with bit `k`.
  abbrev pub HasLetter : Text → Type 0
  HasLetter cs = Any (λ c. bit (c2val flags c) k ≡ 1) cs

  abbrev pub Asks : ℕ → Text → Type 0
  Asks sign o = (char_at o 0 ≡ sign) × HasLetter (drop 1 o)

  add_flags_iff :
      (cs : Text) (word : ℕ)
      → (bit (add_flags flags cs word) k ≡ 1) ↔ ((bit word k ≡ 1) ⊎ HasLetter cs)
  unfolding add_flags
  add_flags_iff [] word = (inl, λ h. elim h [ inl e ↦ e | inr e ↦ absurd e ])
  add_flags_iff (c ∷ cs) word =
      let or_bit = bit-bit_or k word (c2val flags c) in
      let small = bit-le word k in
      let small' = bit-le (c2val flags c) k in
      ground (arith, add_flags_iff cs (bit_or word (c2val flags c)))

-- An argument that the first loop of `main` takes as an option.
abbrev pub IsOption : Text → Type 0
IsOption o = (char_at o 0 ≡ b'+') ⊎ ((char_at o 0 ≡ b'-') × (char_at o 1 ≢ b'-'))

module _ (flags : List FlagsName) (k : ℕ) where
  parse_options_iff :
      (os : List Text) (s u : ℕ) (m : Bool)
      → All IsOption os
      → let r = parse_options flags s u m os in
        ((bit r.to_set k ≡ 1) ↔ ((bit s k ≡ 1) ⊎ Any (Asks flags k b'+') os))
        × ((bit r.to_unset k ≡ 1) ↔ ((bit u k ≡ 1) ⊎ Any (Asks flags k b'-') os))
  unfolding parse_options
  parse_options_iff [] s u m h = (
    (inl, λ h. elim h [ inl e ↦ e | inr e ↦ absurd e ]),
    (inl, λ h. elim h [ inl e ↦ e | inr e ↦ absurd e ]),
  )
  parse_options_iff (o ∷ os) s u m h =
      let own = h.0 in
      ground (
        arith,
        parse_options_iff os s (add_flags flags (drop 1 o) u) true h.1,
        parse_options_iff os (add_flags flags (drop 1 o) s) u true h.1,
        add_flags_iff flags k (drop 1 o) s,
        add_flags_iff flags k (drop 1 o) u,
      )

module _ (flags : List FlagsName) (fits : All (λ row. row.flag < 2 ^ 64) flags) where
  find_flag-lt :
      (rows : List FlagsName) (c : ℕ)
      → All (λ row. row.flag < 2 ^ 64) rows
      → find_flag rows c < 2 ^ 64
  unfolding find_flag
  find_flag-lt [] c h = omega arith
  find_flag-lt (row ∷ rows) c h = let own = h.0 in ground (arith, find_flag-lt rows c h.1)

  add_flags-lt : (cs : Text) (word : ℕ) → word < 2 ^ 64 → add_flags flags cs word < 2 ^ 64
  unfolding add_flags c2val
  add_flags-lt [] word h = h
  add_flags-lt (c ∷ cs) word h =
      add_flags-lt cs (bit_or word (find_flag flags c))
        (bit_or-lt 64 word (find_flag flags c) h (find_flag-lt flags c fits))

  to_unset-lt :
      (os : List Text) (s u : ℕ) (m : Bool)
      → u < 2 ^ 64
      → (parse_options flags s u m os).to_unset < 2 ^ 64
  unfolding parse_options
  to_unset-lt [] s u m h = h
  to_unset-lt (o ∷ os) s u m h = ground (
    arith,
    to_unset-lt os s (add_flags flags (drop 1 o) u) true (add_flags-lt (drop 1 o) u h),
    to_unset-lt os (add_flags flags (drop 1 o) s) u true h,
  )

  -- For flags of 64 bits and options that start with one sign, a file gets the flags that it had or
  -- that some + option names, less those that some - option names, in whatever order.
  pub new_flags_iff :
      (os : List Text) (fflags k : ℕ)
      → All IsOption os
      → k < 64
      → (bit (new_flags flags (parse_options flags 0 0 false os) fflags) k ≡ 1)
        ↔ (((bit fflags k ≡ 1) ⊎ Any (Asks flags k b'+') os) × ¬ Any (Asks flags k b'-') os)
  unfolding new_flags
  new_flags_iff os fflags k h small =
      let r = parse_options flags 0 0 false os in
      let both = bit-bit_and k (bit_or fflags r.to_set) (not64 r.to_unset) in
      let either = bit-bit_or k fflags r.to_set in
      let rest = bit-complement 64 r.to_unset k (to_unset-lt os 0 0 false (omega arith)) small in
      let z = bit-zero k in
      let asked = parse_options_iff flags k os 0 0 false h in
      let le1 = bit-le fflags k in
      let le2 = bit-le r.to_set k in let le3 = bit-le r.to_unset k in ground arith

module _ (flags : List FlagsName) (kernel : Kernel) (r : Request) where
  -- New flags are set only on request, in a file that opens, and they come from the file's flags;
  -- what is listed are the flags that the file then has: the new ones on request, which it has
  -- accepted, and otherwise its own.
  abbrev pub IsAllowed : Action → Type 0
  IsAllowed (set_flags file w) =
      (r.modify ≡ true)
      × (kernel.opens file ≡ true)
      × (kernel.accepts file w ≡ true)
      × ((f : ℕ) × (kernel.get_flags file ≡ some f) × (w ≡ new_flags flags r f))
  IsAllowed (list_flags file lines) =
      (f : ℕ) × (kernel.opens file ≡ true)
      × (kernel.get_flags file ≡ some f)
      × (r.modify ≡ true → kernel.accepts file (new_flags flags r f) ≡ true)
      × (lines ≡ listed flags (if r.modify then new_flags flags r f else f))

  change_file-IsAllowed :
      (file : Text) (f : ℕ)
      → kernel.opens file ≡ true
      → kernel.get_flags file ≡ some f
      → All IsAllowed (change_file flags kernel r file f)
  unfolding change_file
  change_file-IsAllowed file f o g = changed r.modify (kernel.accepts file new) refl refl
    where
      new : ℕ
      new = new_flags flags r f

      shown :
          {m : Bool}
          → r.modify ≡ m
          → listed flags (if m then new else f) ≡ listed flags (if r.modify then new else f)
      shown e = ap (λ m. listed flags (if m then new else f)) (sym e)

      changed :
          (m a : Bool)
          → r.modify ≡ m
          → kernel.accepts file new ≡ a
          → All IsAllowed (
              if m
              then (if a then set_flags file new ∷ list_flags file (listed flags new) ∷ [] else [])
              else list_flags file (listed flags f) ∷ [])
      changed true true m a = ((m, o, a, (f, g, refl)), ((f, o, g, (λ e. a), shown m), tt))
      changed true false m a = tt
      changed false a m b = ((f, o, g, (λ e. absurd (cc)), shown m), tt)

  -- New flags are set only on request, in a file that opens, which accepts them, and they come from
  -- the file's flags; what is listed, only for a file that opens, are the flags that it then has:
  -- on request the new ones, which it has accepted, and otherwise its own.
  pub handle_files-IsAllowed :
      (files : List Text) → All IsAllowed (handle_files flags kernel r files)
  unfolding handle_files handle_file
  handle_files-IsAllowed [] = tt
  handle_files-IsAllowed (file ∷ files) =
      All-append IsAllowed _ _ (handled file) (handle_files-IsAllowed files)
    where
      handled : (file : Text) → All IsAllowed (handle_file flags kernel r file)
      handled file = elim (Bool-cases (kernel.opens file)) [
        | inl o ↦ elim (Option-cases (kernel.get_flags file)) [
          | inl g ↦ ground arith
          | inr (f, g) ↦ ground (arith, change_file-IsAllowed file f o g)
        ]
        | inr o ↦ ground arith
      ]

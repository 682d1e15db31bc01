-- ===== src/Seekmark/Options.antt =====
-- `getargs` and the first part of `main`: the options, and the size that the threads work in.
use testunion.Common.{
  ℕ, ◌-◌, ◌*◌, ◌≤◌, ◌<◌, ◌^◌, ◌≡◌, inl, inr, arith, List, [], ◌∷◌, Bool, true, false, Option, none,
  some, ltb, ◌==◌, if◌then◌else◌, length, Option-cases, ℤ, pos, negsuc, ◌||◌,
}
use testunion.Common.Options.{Text, Opt, same_text, fold_options, fold_options_inv}

-- The globals that the options set; `file` is `none` while `gotrequired` is 0. A number that is
-- checked to be positive is a natural number.
pub record Settings : Type 0 where
  pub file : Option Text
  pub seeks : ℕ
  pub numthreads : ℕ
  pub sizelimit : ℕ
  pub writetest : Bool
  pub block : ℕ
  pub quiet : Bool
  pub writerandomdata : Bool
  pub delay : ℕ
  pub endless : Bool
  pub align : ℕ

abbrev pub defaults : Settings
defaults = record {
  file = none;
  seeks = 5000;
  numthreads = 1;
  sizelimit = 0;
  writetest = false;
  block = 512;
  quiet = false;
  writerandomdata = true;
  delay = 0;
  endless = false;
  align = 0;
}

-- The check of a number against its range; `none` is the exit.
abbrev pub in_range : ℕ → ℕ → ℤ → Option ℕ
in_range low high (pos n) = if ltb n low || ltb high n then none else some n
in_range low high (negsuc n) = none

-- What `atoi` and `atoll` can give at most.
abbrev pub int_max : ℕ
int_max = 2 ^ 31 - 1

abbrev pub longlong_max : ℕ
longlong_max = 2 ^ 63 - 1

abbrev pub destroy_data : Text
destroy_data =
    b'd' ∷ b'e' ∷ b's' ∷ b't' ∷ b'r' ∷ b'o' ∷ b'y' ∷ b'-' ∷ b'd' ∷ b'a' ∷ b't' ∷ b'a' ∷ []

module _ (atoi atoll : Text → ℤ) where
  -- The `switch` of `getargs`.
  unfoldable pub set_option : Settings → Opt → Option Settings
  set_option s o =
      if o.letter == b'f'
      then (if ltb 255 (length o.optarg) then none else some (record s { file = some o.optarg }))
      else if o.letter == b'S'
      then elim (in_range 0 longlong_max (atoll o.optarg)) [
        | none ↦ none
        | some n ↦ some (record s { sizelimit = n })
      ]
      else if o.letter == b't'
      then elim (in_range 1 int_max (atoi o.optarg)) [
        | none ↦ none
        | some n ↦ some (record s { numthreads = n })
      ]
      else if o.letter == b'a'
      then elim (in_range 1 int_max (atoi o.optarg)) [
        | none ↦ none
        | some n ↦ some (record s { align = n })
      ]
      else if o.letter == b's'
      then elim (in_range 1 int_max (atoi o.optarg)) [
        | none ↦ none
        | some n ↦ some (record s { seeks = n })
      ]
      else if o.letter == b'h'
      then none
      else if o.letter == b'w'
      then (if same_text o.optarg destroy_data then some (record s { writetest = true }) else none)
      else if o.letter == b'R'
      then some (record s { writerandomdata = false })
      else if o.letter == b'i'
      then elim (in_range 1 1048577 (atoi o.optarg)) [
        | none ↦ none
        | some n ↦ some (record s { block = n })
      ]
      else if o.letter == b'q'
      then some (record s { quiet = true })
      else if o.letter == b'd'
      then elim (in_range 1 10000 (atoi o.optarg)) [
        | none ↦ none
        | some n ↦ some (record s { delay = n })
      ]
      else if o.letter == b'e'
      then some (record s { endless = true })
      else some s

  -- `getargs`: the loop, and the file name that has to be there.
  unfoldable pub getargs : List Opt → Option Settings
  getargs opts = elim (fold_options set_option opts defaults) [
    | none ↦ none
    | some s ↦ elim s.file [ none ↦ none | some name ↦ some s ]
  ]

-- `main` up to the start of the threads, if it comes so far: the delay is in microseconds then, and
-- the size is the limit or what `lseek` found. `none` is an exit with status 1. The arguments tell
-- whether the file opens, and what `lseek` returns, `none` for -1.
unfoldable pub prepare : Settings → Bool → Option ℕ → Option (Settings × ℕ)
prepare s opens found =
    let t = record s { delay = s.delay * 1000 } in
    if opens
    then (if ltb 0 s.sizelimit
        then some (t, s.sizelimit)
        else elim found [ none ↦ none | some size ↦ some (t, size) ])
    else none

-- Every setting is in its range, and a file is named.
pub record InRange (s : Settings) : Type 0 where
  pub seeks : (1 ≤ s.seeks) × (s.seeks < 2 ^ 31)
  pub threads : (1 ≤ s.numthreads) × (s.numthreads < 2 ^ 31)
  pub block : (1 ≤ s.block) × (s.block ≤ 1048577)
  pub delay : s.delay ≤ 10000
  pub limit : s.sizelimit < 2 ^ 63
  pub align : s.align < 2 ^ 31

defaults-InRange : InRange defaults
defaults-InRange = omega arith

set_option-InRange :
    (atoi atoll : Text → ℤ) (s : Settings) (o : Opt) (t : Settings)
    → InRange s
    → set_option atoi atoll s o ≡ some t
    → InRange t
unfolding set_option
set_option-InRange atoi atoll s o t h e = ground arith

-- What `getargs` lets through is in range.
pub getargs-InRange :
    (atoi atoll : Text → ℤ) (opts : List Opt) (s : Settings)
    → getargs atoi atoll opts ≡ some s
    → InRange s
unfolding getargs
getargs-InRange atoi atoll opts s e =
    elim (Option-cases (fold_options (set_option atoi atoll) opts defaults)) [
      | inl n ↦ absurd (cc)
      | inr (t, f) ↦
          let own =
            fold_options_inv (set_option atoi atoll) InRange (set_option-InRange atoi atoll) opts
              defaults t defaults-InRange f in
          ground arith
    ]

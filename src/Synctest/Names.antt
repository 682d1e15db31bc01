-- ===== src/Synctest/Names.antt =====
-- The names that synctest.c prints into its buffers: `mk_dirname`, `mk_filename`, `mk_new_filename`.
use testunion.Common.{
  ℕ, ◌+◌, ◌^◌, ◌≤◌, ◌<◌, ◌≡◌, ◌≢◌, ◌↔◌, refl, arith, [], ◌∷◌, ◌++◌, Option, none, some, All,
  All-mono, length, length-append, ap, sym,
}
use testunion.Common.Options.{Text}
use testunion.Synctest.Child.{Name}

-- `malloc(strlen(dirname) + 64)`
unfoldable pub buffer_size : Text → ℕ
buffer_size dirname = length dirname + 64

-- `padded w n` is what `%0wd` prints for the number n.
module _ (padded : ℕ → ℕ → Text) where
  unfoldable pub dir_text : Text → ℕ → Text
  dir_text dirname thread_group = dirname ++ (b'/' ∷ padded 5 thread_group)

  -- What stands behind the directory: `%05d-%05d` or `%02d-%05d-%05d`.
  unfoldable pub base_text : Option ℕ → ℕ → ℕ → Text
  base_text none pid fileno = padded 5 pid ++ (b'-' ∷ padded 5 fileno)
  base_text (some pass) pid fileno =
      padded 2 pass ++ (b'-' ∷ (padded 5 pid ++ (b'-' ∷ padded 5 fileno)))

  unfoldable pub name_text : Text → Name → Text
  name_text dirname n =
      dirname ++ (b'/' ∷ (padded 5 n.thread_group ++ (b'/' ∷ base_text n.pass n.pid n.fileno)))

-- Different numbers are printed differently, without a slash or a dash, and an `int` in ten digits.
pub record IsPadded (padded : ℕ → ℕ → Text) : Type 0 where
  pub injective : (w m n : ℕ) → padded w m ≡ padded w n → m ≡ n
  pub digits : (w n : ℕ) → All (λ c. (c ≢ b'/') × (c ≢ b'-')) (padded w n)
  pub short : (w n : ℕ) → w ≤ 10 → n < 2 ^ 31 → length (padded w n) ≤ 10

-- A list ends at its first separator.
split_unique :
    (c : ℕ) (xs ys r s : Text)
    → All (λ d. d ≢ c) xs
    → All (λ d. d ≢ c) ys
    → xs ++ (c ∷ r) ≡ ys ++ (c ∷ s)
    → (xs ≡ ys) × (r ≡ s)
split_unique c [] [] r s h k e = (refl, cc)
split_unique c [] (y ∷ ys) r s h k e = absurd (k.0 (cc))
split_unique c (x ∷ xs) [] r s h k e = absurd (h.0 (cc))
split_unique c (x ∷ xs) (y ∷ ys) r s h k e =
    let (same, rest) = split_unique c xs ys r s h.1 k.1 (cc) in (cc, rest)

append_cancel : (c : ℕ) (d r s : Text) → d ++ (c ∷ r) ≡ d ++ (c ∷ s) → r ≡ s
append_cancel c [] r s e = cc
append_cancel c (x ∷ d) r s e = append_cancel c d r s (cc)

name_ext :
    (m n : Name)
    → m.thread_group ≡ n.thread_group
    → m.pid ≡ n.pid
    → m.pass ≡ n.pass
    → m.fileno ≡ n.fileno
    → m ≡ n
name_ext m n g p q f = cc

no_separator : (c : ℕ) (xs ys r : Text) → All (λ d. d ≢ c) xs → xs ≢ ys ++ (c ∷ r)
no_separator c [] [] r h e = cc
no_separator c [] (y ∷ ys) r h e = cc
no_separator c (x ∷ xs) [] r h e = h.0 (cc)
no_separator c (x ∷ xs) (y ∷ ys) r h e = no_separator c xs ys r h.1 (cc)

module _ {padded : ℕ → ℕ → Text} (p : IsPadded padded) where
  no_slash : (w n : ℕ) → All (λ c. c ≢ b'/') (padded w n)
  no_slash w n = All-mono _ _ (padded w n) (λ c h. h.0) (p.digits w n)

  no_dash : (w n : ℕ) → All (λ c. c ≢ b'-') (padded w n)
  no_dash w n = All-mono _ _ (padded w n) (λ c h. h.1) (p.digits w n)

  -- A process number, a dash and a file number.
  pair-injective :
      (pid fileno pid' fileno' : ℕ)
      → padded 5 pid ++ (b'-' ∷ padded 5 fileno) ≡ padded 5 pid' ++ (b'-' ∷ padded 5 fileno')
      → (pid ≡ pid') × (fileno ≡ fileno')
  pair-injective pid fileno pid' fileno' e =
      let (l, r) =
        split_unique b'-' (padded 5 pid) (padded 5 pid') _ _ (no_dash 5 pid) (no_dash 5 pid') e in
      (p.injective 5 pid pid' l, p.injective 5 fileno fileno' r)

  base_text-injective :
      (pass pass' : Option ℕ) (pid fileno pid' fileno' : ℕ)
      → base_text padded pass pid fileno ≡ base_text padded pass' pid' fileno'
      → (pass ≡ pass') × (pid ≡ pid') × (fileno ≡ fileno')
  unfolding base_text
  base_text-injective none none pid fileno pid' fileno' e =
      let (pids, files) = pair-injective pid fileno pid' fileno' e in (refl, pids, files)
  base_text-injective none (some b) pid fileno pid' fileno' e =
      let (l, r) =
        split_unique b'-' (padded 5 pid) (padded 2 b) _ _ (no_dash 5 pid) (no_dash 2 b) e in
      absurd (no_separator b'-' _ _ _ (no_dash 5 fileno) r)
  base_text-injective (some a) none pid fileno pid' fileno' e =
      let (l, r) =
        split_unique b'-' (padded 2 a) (padded 5 pid') _ _ (no_dash 2 a) (no_dash 5 pid') e in
      absurd (no_separator b'-' _ _ _ (no_dash 5 fileno') (sym r))
  base_text-injective (some a) (some b) pid fileno pid' fileno' e =
      let (l, r) = split_unique b'-' (padded 2 a) (padded 2 b) _ _ (no_dash 2 a) (no_dash 2 b) e in
      let (pids, files) = pair-injective pid fileno pid' fileno' r in
      (ap some (p.injective 2 a b l), pids, files)

  name_text-injective :
      (dirname : Text) (m n : Name)
      → name_text padded dirname m ≡ name_text padded dirname n
      → m ≡ n
  unfolding name_text
  name_text-injective dirname m n e =
      let below = append_cancel b'/' dirname _ _ e in
      let (group, base) =
        split_unique b'/' (padded 5 m.thread_group) (padded 5 n.thread_group) _ _
          (no_slash 5 m.thread_group) (no_slash 5 n.thread_group) below in
      let (pass, pid, fileno) =
        base_text-injective m.pass n.pass m.pid m.fileno n.pid n.fileno base in
      let groups = p.injective 5 m.thread_group n.thread_group group in
      name_ext m n groups pid pass fileno

  -- The numbers of a name are of the type `int`.
  abbrev pub HasInts : Name → Type 0
  HasInts n =
      (n.thread_group < 2 ^ 31)
      × (n.pid < 2 ^ 31)
      × (n.fileno < 2 ^ 31)
      × ((pass : ℕ) → n.pass ≡ some pass → pass < 2 ^ 31)

  base_text-fits :
      (pass : Option ℕ) (pid fileno : ℕ)
      → pid < 2 ^ 31
      → fileno < 2 ^ 31
      → ((k : ℕ) → pass ≡ some k → k < 2 ^ 31)
      → length (base_text padded pass pid fileno) ≤ 32
  unfolding base_text
  base_text-fits none pid fileno small small' h = omega (
    arith,
    length-append (padded 5 pid) (b'-' ∷ padded 5 fileno),
    p.short 5 pid (omega arith) small,
    p.short 5 fileno (omega arith) small',
  )
  base_text-fits (some k) pid fileno small small' h = omega (
    arith,
    length-append (padded 2 k) (b'-' ∷ (padded 5 pid ++ (b'-' ∷ padded 5 fileno))),
    length-append (padded 5 pid) (b'-' ∷ padded 5 fileno),
    p.short 2 k (omega arith) (h k refl),
    p.short 5 pid (omega arith) small,
    p.short 5 fileno (omega arith) small',
  )

  name_text-fits :
      (dirname : Text) (n : Name)
      → HasInts n
      → length (name_text padded dirname n) + 1 ≤ buffer_size dirname
  unfolding name_text buffer_size
  name_text-fits dirname n (g, pid, fileno, pass) =
      let base = base_text padded n.pass n.pid n.fileno in
      omega (
        arith,
        length-append dirname (b'/' ∷ (padded 5 n.thread_group ++ (b'/' ∷ base))),
        length-append (padded 5 n.thread_group) (b'/' ∷ base),
        p.short 5 n.thread_group (omega arith) g,
        base_text-fits n.pass n.pid n.fileno pid fileno pass,
      )

  dir_text-fits :
      (dirname : Text) (g : ℕ)
      → g < 2 ^ 31
      → length (dir_text padded dirname g) + 1 ≤ buffer_size dirname
  unfolding dir_text buffer_size
  dir_text-fits dirname g small =
      omega (arith, length-append dirname (b'/' ∷ padded 5 g), p.short 5 g (omega arith) small)

  -- Where %05d and %02d tell numbers apart and print an int in at most ten digits, without a slash
  -- or a dash, and the numbers of a name are of type int, the text of the name and of its directory
  -- fit the buffer of strlen(dirname) + 64 bytes with the final NUL, and two names have the same
  -- text exactly when they are the same name.
  pub name_text_lem :
      (dirname : Text) (m n : Name)
      → HasInts m
      → (length (name_text padded dirname m) + 1 ≤ buffer_size dirname)
        × (length (dir_text padded dirname m.thread_group) + 1 ≤ buffer_size dirname)
        × ((name_text padded dirname m ≡ name_text padded dirname n) ↔ (m ≡ n))
  name_text_lem dirname m n ints = (
    name_text-fits dirname m ints,
    dir_text-fits dirname m.thread_group ints.0,
    (name_text-injective dirname m n, ap (name_text padded dirname)),
  )

-- ===== src/Seekmark/Whole.antt =====
-- The options, the size and the threads together.
use mathlib.Core.Option.{some-injective}
use testunion.Common.{
  ℕ, zero, suc, ◌+◌, ◌*◌, ◌≤◌, ◌<◌, ◌^◌, ◌≡◌, refl, arith, List, [], ◌∷◌, Bool, true, false, not,
  if◌then◌else◌, Option, none, some, ℤ, All, length, Option-cases, inl, inr, subst, ap, ◌∙◌,
}
use testunion.Common.Options.{Text, Opt}
use testunion.Seekmark.Options.{Settings, getargs, prepare, InRange, getargs-InRange}
use testunion.Seekmark.Thread.{Turn, Rest, threadseek}
use testunion.Seekmark.Thread.Counts.{transfers, threadseek_count}
use testunion.Seekmark.Main.{start_threads, Test, main}

-- A size that `lseek` can return.
abbrev pub IsOffset : Option ℕ → Type 0
IsOffset none = Unit
IsOffset (some size) = size < 2 ^ 63

prepare_lem :
    (s : Settings) (opens : Bool) (found : Option ℕ) (t : Settings) (size : ℕ)
    → prepare s opens found ≡ some (t, size)
    → InRange s
    → IsOffset found
    → (t.seeks ≡ s.seeks)
      × (t.delay ≡ s.delay * 1000)
      × (t.numthreads ≡ s.numthreads)
      × (size < 2 ^ 63)
unfolding prepare
prepare_lem s true none t size e r f = ground arith
prepare_lem s true (some n) t size e r f = ground arith
prepare_lem s false found t size e r f = absurd (cc)

-- What `main` has settled when it starts the threads.
pub record IsSettled (t : Settings) (size : ℕ) : Type 0 where
  pub seeks : 1 ≤ t.seeks
  pub delay : t.delay < 2 ^ 31
  pub threads : 1 ≤ t.numthreads
  pub small : size < 2 ^ 63

-- What all threads transfer together.
abbrev pub transferred : List Rest → ℕ
transferred [] = 0
transferred (r ∷ rs) = transfers r.calls + transferred rs

module _ (t : Settings) (size : ℕ) (turns : ℕ → ℕ → Turn) (fuel : ℕ) where
  start_threads-All :
      (P : Rest → Type 0)
      → ((i : ℕ) → P (threadseek t size (turns i) fuel))
      → (i left : ℕ)
      → All P (start_threads t size turns fuel i left)
        × (length (start_threads t size turns fuel i left) ≡ left)
  unfolding start_threads
  start_threads-All P each i zero = (tt, refl)
  start_threads-All P each i (suc left) =
      let rest = start_threads-All P each (i + 1) left in ((each i, rest.0), omega (arith, rest.1))

transferred-All :
    (n : ℕ) (rs : List Rest) → All (λ r. transfers r.calls ≡ n) rs → transferred rs ≡ length rs * n
transferred-All n [] h = omega arith
transferred-All n (r ∷ rs) h =
    let rest = transferred-All n rs h.1 in omega (arith, h.0, rest, suc_mul (length rs) n)
  where
    suc_mul : (k n : ℕ) → suc k * n ≡ k * n + n
    suc_mul k n = omega arith

module _ (atoi atoll : Text → ℤ) (opts : List Opt) (opens : Bool) (found : Option ℕ)
    (turns : ℕ → ℕ → Turn) (fuel : ℕ) (offset : IsOffset found) (test : Test)
    (e : main atoi atoll opts opens found turns fuel ≡ some test) where
  main-IsSettled :
      IsSettled test.settings test.size
      × (test.threads ≡ start_threads test.settings test.size turns fuel 0 test.settings.numthreads)
  unfolding main
  main-IsSettled = elim (Option-cases (getargs atoi atoll opts)) [
    | inl n ↦ absurd (cc)
    | inr (s, f) ↦ elim (Option-cases (prepare s opens found)) [
      | inl n ↦ absurd (cc)
      | inr ((t, size), g) ↦
          let r = getargs-InRange atoi atoll opts s f in
          let (seeks, delay, threads, small) = prepare_lem s opens found t size g r offset in
          let settled : IsSettled t size = record {
            seeks = omega (arith, seeks, r.seeks.0);
            delay = omega (arith, delay, r.delay);
            threads = omega (arith, threads, r.threads.0);
            small = small;
          } in
          subst
            (λ u.
              IsSettled u.settings u.size
              × (u.threads ≡ start_threads u.settings u.size turns fuel 0 u.settings.numthreads))
            (some-injective _ _ (rw (main, f, g) at e)) (settled, refl)
    ]
  ]

  -- With options that getargs accepts, a size below 2^63 where lseek gives it, and fuel for more
  -- than `seeks` rounds, main starts `numthreads` threads, at least one; each ends unless it is in
  -- endless mode, and together they make numthreads * seeks reads or writes, as the summary has it;
  -- in endless mode each makes one in each round; and the delay in microseconds fits an int.
  pub main_count :
      test.settings.seeks < fuel
      → let rounds = if test.settings.endless then fuel else test.settings.seeks in
        (length test.threads ≡ test.settings.numthreads)
        × (1 ≤ test.settings.numthreads)
        × All (λ r. r.ends ≡ not test.settings.endless) test.threads
        × (transferred test.threads ≡ test.settings.numthreads * rounds)
        × (test.settings.delay < 2 ^ 31)
  main_count enough =
      let (settled, threads) = main-IsSettled in
      let t = test.settings in
      let count = λ (i : ℕ). threadseek_count t test.size (turns i) fuel settled.seeks enough in
      let ends =
        start_threads-All t test.size turns fuel (λ r. r.ends ≡ not t.endless) (λ i. (count i).0) 0
          t.numthreads in
      let all_transfers =
        start_threads-All t test.size turns fuel
          (λ r. transfers r.calls ≡ (if t.endless then fuel else t.seeks)) (λ i. (count i).1) 0
          t.numthreads in
      let sum = transferred-All _ _ all_transfers.0 in
      rw threads (
        ends.1,
        settled.threads,
        ends.0,
        sum ∙ ap (λ n. n * (if t.endless then fuel else t.seeks)) ends.1,
        settled.delay,
      )

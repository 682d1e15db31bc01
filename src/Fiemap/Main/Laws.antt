-- ===== src/Fiemap/Main/Laws.antt =====
-- How many files a call of the program compares.
use testunion.Common.{
  ℕ, zero, suc, ◌+◌, ◌<◌, ◌≡◌, ◌≢◌, refl, arith, List, Bool, true, Option, none, some, ℤ, pos,
  negsuc, ◌⊎◌,
}
use testunion.Fiemap.Extent.{ExtentFlags}
use testunion.Fiemap.Main.{
  Opt, Settings, settings, parse, defaults, Round, Exit, done, Body, skipped, passed, stopped,
  run_body, main_loop,
}

module _ (fl : ExtentFlags) (header per_extent blocksize : ℕ) (prealloc : Bool)
    (rounds : ℕ → Round) where
  abbrev body : ℕ → Option (List ℕ) → Bool → Body
  body k map w = run_body fl header per_extent blocksize prealloc (rounds k) map w

  abbrev loop : ℕ → ℕ → ℕ → ℤ → Option (List ℕ) → Bool → Exit
  loop fuel k count runs map w =
      main_loop fl header per_extent blocksize prealloc fuel rounds k count runs map w

  -- With -r n, n positive, a normal end comes after exactly n compared files; files of length 0
  -- that were skipped do not count.
  main_loop-count :
      (fuel k count n : ℕ) (map : Option (List ℕ)) (w : Bool) {c : ℕ}
      → loop fuel k count (pos (suc n)) map w ≡ done c
      → c ≡ count + suc n
  unfolding main_loop
  main_loop-count zero k count n map w {c} e = absurd (cc)
  main_loop-count (suc fuel) k count zero map w {c} e =
      ground (arith, main_loop-count fuel (k + 1) count 0 map w {c = c})
  main_loop-count (suc fuel) k count (suc n) map w {c} e =
      after (body k map w) refl (λ m v. main_loop-count fuel (k + 1) count (suc n) m v {c = c})
        (λ m v. main_loop-count fuel (k + 1) (count + 1) n m v {c = c})
    where
      after :
          (b : Body)
          → body k map w ≡ b
          → ((m : Option (List ℕ)) (v : Bool)
              → loop fuel (k + 1) count (pos (suc (suc n))) m v ≡ done c
              → c ≡ count + suc (suc n))
          → ((m : Option (List ℕ)) (v : Bool)
              → loop fuel (k + 1) (count + 1) (pos (suc n)) m v ≡ done c
              → c ≡ count + 1 + suc n)
          → c ≡ count + suc (suc n)
      after skipped p again next = ground (arith, again map w)
      after (passed v) p again next = ground (arith, next none v)
      after (stopped x) p again next = ground arith

  -- With a negative number of runs, the default, the loop never ends normally.
  main_loop-endless :
      (fuel k count n : ℕ) (map : Option (List ℕ)) (w : Bool) {c : ℕ}
      → loop fuel k count (negsuc n) map w ≢ done c
  unfolding main_loop
  main_loop-endless zero k count n map w {c} e = cc
  main_loop-endless (suc fuel) k count n map w {c} e =
      after (body k map w) refl (λ m v. main_loop-endless fuel (k + 1) count n m v {c = c})
        (λ m v. main_loop-endless fuel (k + 1) (count + 1) (suc n) m v {c = c})
    where
      after :
          (b : Body)
          → body k map w ≡ b
          → ((m : Option (List ℕ)) (v : Bool) → loop fuel (k + 1) count (negsuc n) m v ≢ done c)
          → ((m : Option (List ℕ)) (v : Bool)
              → loop fuel (k + 1) (count + 1) (negsuc (suc n)) m v ≢ done c)
          → ⊥
      after skipped p again next = ground (arith, again map w)
      after (passed v) p again next = ground (arith, next none v)
      after (stopped x) p again next = ground arith

  -- If every run makes a map, compares its file and finds it right, -r n ends normally, after n
  -- files.
  pub main_loop-returns :
      (fuel k count n : ℕ) (w : Bool)
      → n < fuel
      → ((j : ℕ) (v : Bool) → (v' : Bool) × (body j none v ≡ passed v'))
      → loop fuel k count (pos (suc n)) none w ≡ done (count + suc n)
  unfolding main_loop
  main_loop-returns zero k count n w lt good = absurd (omega arith)
  main_loop-returns (suc fuel) k count zero w lt good = let (v, p) = good k w in ground arith
  main_loop-returns (suc fuel) k count (suc n) w lt good =
      let (v, p) = good k w in
      ground (arith, main_loop-returns fuel (k + 1) (count + 1) n v (omega arith) good)

-- The program starts only with a file name, with the options as they were parsed, and never with
-- both a map and a number of runs other than -1.
pub settings_lem :
    (opts : List Opt) (named : Bool) {s : Settings}
    → settings opts named ≡ some s
    → (named ≡ true) × (parse opts defaults ≡ some s) × ((s.runs ≡ negsuc 0) ⊎ (s.map ≡ none))
unfolding settings
settings_lem opts named {s} e = parsed (parse opts defaults) refl
  where
    parsed :
        (r : Option Settings)
        → parse opts defaults ≡ r
        → (named ≡ true) × (parse opts defaults ≡ some s) × ((s.runs ≡ negsuc 0) ⊎ (s.map ≡ none))
    parsed none p = absurd (ground arith)
    parsed (some t) p = ground arith

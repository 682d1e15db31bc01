-- ===== src/Fiemap/Main/Sound.antt =====
-- A normal end of the program means that every file was checked and found right.
use native.Mathlib.Decide.{dec_lt}
use testunion.Common.{
  ℕ, zero, suc, ◌+◌, ◌≤◌, ◌<◌, ◌≡◌, ◌≢◌, ◌⊎◌, refl, arith, List, Bool, true, false, none, some,
  ◌==◌, if◌then◌else◌, pos, inl, inr, ◌&&◌, Bool-cases, subst, ap,
}
use testunion.Fiemap.Extent.{ExtentFlags}
use testunion.Fiemap.Flags.Laws.{IsBlocksize, blocksize-positive}
use testunion.Fiemap.Compare.Letters.{IsRegular}
use testunion.Fiemap.Main.{
  skipped, Opt, Settings, Setup, Round, Failure, done, passed, settings, prepare, exit_failure,
  run_body, main_loop, main,
}
use testunion.Fiemap.Main.Honest.{drawn, tries}
use testunion.Fiemap.Main.Laws.{settings_lem}
use testunion.Fiemap.Main.Checked.{Body-cases, skipped_inv, passed_inv, IsChecked, passed-IsChecked}

module _ (fl : ExtentFlags) (header per_extent blocksize : ℕ) (prealloc : Bool)
    (rounds : ℕ → Round) where
  -- Each of the next `m` rounds drew no block, or its file was checked; `n` drew a block.
  pub record AreChecked (k m n : ℕ) : Type 0 where
    pub counted : tries blocksize m rounds k ≡ n
    pub checked :
        (j : ℕ)
        → k ≤ j
        → j < k + m
        → ((drawn blocksize (rounds j) == 0) ≡ true)
          ⊎ IsChecked fl header per_extent blocksize prealloc (rounds j)

  first-AreChecked :
      (k m n : ℕ)
      → ((drawn blocksize (rounds k) == 0) ≡ true)
        ⊎ IsChecked fl header per_extent blocksize prealloc (rounds k)
      → AreChecked (k + 1) m n
      → AreChecked k (suc m) (if drawn blocksize (rounds k) == 0 then n else n + 1)
  first-AreChecked k m n own h = record {
    counted = rw (h.counted) refl;
    checked = λ j le lt. elim (dec_lt k j) [
      | yes after ↦ h.checked j (omega arith) (omega arith)
      | no not_after ↦
          let same : k ≡ j = omega arith in
          subst
            (λ i.
              ((drawn blocksize (rounds i) == 0) ≡ true)
              ⊎ IsChecked fl header per_extent blocksize prealloc (rounds i))
            same own
    ];
  }

  first_empty :
      (k m n : ℕ)
      → (drawn blocksize (rounds k) == 0) ≡ true
      → AreChecked (k + 1) m n
      → AreChecked k (suc m) n
  first_empty k m n empty h =
      subst (AreChecked k (suc m)) (ap (λ t. if t then n else n + 1) empty)
        (first-AreChecked k m n (inl empty) h)

  none-AreChecked : (k : ℕ) → AreChecked k 0 0
  none-AreChecked k = record { counted = refl; checked = λ j le lt. absurd (omega arith) }

module _ (fl : ExtentFlags) (header per_extent blocksize : ℕ) (prealloc : Bool) (rounds : ℕ → Round)
    (b : IsBlocksize blocksize) (regular : (k : ℕ) → IsRegular (rounds k).sys blocksize) where
  abbrev Checked : ℕ → ℕ → ℕ → Type 0
  Checked = AreChecked fl header per_extent blocksize prealloc rounds

  first_passed :
      (k m n : ℕ) (w : Bool) {v : Bool}
      → run_body fl header per_extent blocksize prealloc (rounds k) none w ≡ passed v
      → Checked (k + 1) m n
      → Checked k (suc m) (n + 1)
  first_passed k m n w {v} e h =
      let (some_blocks, divides, drew) =
        passed_inv fl header per_extent blocksize prealloc (rounds k) w e in
      let own =
        passed-IsChecked fl header per_extent blocksize prealloc (rounds k) w b (regular k) e in
      subst (Checked k (suc m)) (ap (λ t. if t then n else n + 1) some_blocks)
        (first-AreChecked fl header per_extent blocksize prealloc rounds k m n (inr own) h)

  first_skipped :
      (k n : ℕ) (w : Bool)
      → run_body fl header per_extent blocksize prealloc (rounds k) none w ≡ skipped
      → (m : ℕ) × Checked (k + 1) m n
      → (m : ℕ) × Checked k m n
  first_skipped k n w skips (m, h) =
      let empty = skipped_inv fl header per_extent blocksize prealloc (rounds k) w skips in
      (suc m, first_empty fl header per_extent blocksize prealloc rounds k m n empty h)

  main_loop-AreChecked :
      (fuel k count n : ℕ) (w : Bool) {c : ℕ}
      → main_loop fl header per_extent blocksize prealloc fuel rounds k count (pos (suc n)) none w
        ≡ done c
      → (c ≡ count + suc n) × ((m : ℕ) × Checked k m (suc n))
  unfolding main_loop
  main_loop-AreChecked zero k count n w {c} e = absurd (cc)
  main_loop-AreChecked (suc fuel) k count zero w {c} e =
      elim (Body-cases (run_body fl header per_extent blocksize prealloc (rounds k) none w)) [
        | inl skips ↦
            let (sum, rest) =
              main_loop-AreChecked fuel (k + 1) count 0 w (rw (main_loop, skips) at e) in
            (sum, first_skipped k 1 w skips rest)
        | inr (inl (v, passes)) ↦
            let rest = none-AreChecked fl header per_extent blocksize prealloc rounds (k + 1) in
            (ground arith, (1, first_passed k 0 0 w passes rest))
        | inr (inr (f, stops)) ↦ absurd (ground arith)
      ]
  main_loop-AreChecked (suc fuel) k count (suc n) w {c} e =
      elim (Body-cases (run_body fl header per_extent blocksize prealloc (rounds k) none w)) [
        | inl skips ↦
            let (sum, rest) =
              main_loop-AreChecked fuel (k + 1) count (suc n) w (rw (main_loop, skips) at e) in
            (sum, first_skipped k (suc (suc n)) w skips rest)
        | inr (inl (v, passes)) ↦
            let (sum, (m, h)) =
              main_loop-AreChecked fuel (k + 1) (count + 1) n v (rw (main_loop, passes) at e) in
            let more : suc n + 1 ≡ suc (suc n) = omega arith in
            (omega arith, (suc m, rw more at (first_passed k m (suc n) w passes h)))
        | inr (inr (f, stops)) ↦ absurd (ground arith)
      ]

exit_not_done : {f : Failure} {c : ℕ} → exit_failure f ≢ done c
exit_not_done e = cc

-- If the program was started with -r n, n positive, on a file with a power-of-two block size, the
-- answers of FIEMAP are sorted, of whole blocks and within 64 bits, and the program ends with
-- status 0, then it has compared n files, and each of its rounds drew no block or made the file of
-- the map that it drew and was shown each block of it by FIEMAP as its letter says, P like D but
-- that !fe_flags & UNWRITTEN is 0.
pub main-AreChecked :
    (fl : ExtentFlags) (header per_extent blocksize : ℕ) (opts : List Opt) (named : Bool)
    (setup : Setup) (rounds : ℕ → Round) (fuel n : ℕ) {s : Settings} {c : ℕ}
    → settings opts named ≡ some s
    → s.runs ≡ pos (suc n)
    → setup.blocksize ≡ some blocksize
    → (b : IsBlocksize blocksize) → (regular : (k : ℕ) → IsRegular (rounds k).sys blocksize)
    → main fl header per_extent opts named setup fuel rounds ≡ done c
    → (c ≡ suc n)
      × ((m : ℕ) × AreChecked fl header per_extent blocksize
            (s.prealloc && setup.preallocates)
            rounds
            0
            m
            (suc n))
unfolding main prepare
main-AreChecked fl header per_extent blocksize opts named setup rounds fuel n {s} {c} given runs
      size b regular e =
    let (is_named, parsed, one) = settings_lem opts named given in
    let no_map : s.map ≡ none = elim one [ inl q ↦ absurd (cc) | inr q ↦ q ] in
    let positive = blocksize-positive b in
    let is_size : (blocksize == 0) ≡ false = ground arith in
    elim (Bool-cases (setup.opens && setup.truncates)) [
      | inl ready ↦
          let (sum, checked) =
            main_loop-AreChecked fl header per_extent blocksize (s.prealloc && setup.preallocates)
              rounds b regular fuel 0 0 n false
              (rw (main, given, prepare, size, ready, no_map, runs, is_size) at e) in
          (omega arith, checked)
      | inr refused ↦ absurd (exit_not_done (rw (main, given, prepare, size, refused) at e))
    ]

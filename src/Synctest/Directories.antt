-- ===== src/Synctest/Directories.antt =====
-- The directories that `doit` makes for its children, and the ones that it removes.
use native.Mathlib.Nat.{div-add-mod', mod-lt, lt_of_mul-lt-mul_right, le_of_mul-le-mul_right}
use testunion.Common.{
  ℕ, zero, suc, ◌+◌, ◌-◌, ◌*◌, ◌/◌, ◌%◌, ◌≤◌, ◌<◌, ◌≡◌, ◌≢◌, ◌↔◌, refl, arith, List, [], ◌∷◌, Bool,
  true, ◌==◌, Bool-cases, subst, sym, inl, inr,
}
use testunion.Synctest.Parent.{
  Action, make_dir, start_child, remove_dir, start_from, remove_from, remove_dirs,
}

-- How many directories the actions make, and how many they remove.
abbrev pub made : List Action → ℕ
made [] = 0
made (make_dir g ∷ actions) = suc (made actions)
made (start_child i g ∷ actions) = made actions
made (remove_dir g ∷ actions) = made actions

abbrev pub removed : List Action → ℕ
removed [] = 0
removed (make_dir g ∷ actions) = removed actions
removed (start_child i g ∷ actions) = removed actions
removed (remove_dir g ∷ actions) = suc (removed actions)

removed-remove_from : (g n : ℕ) → removed (remove_from g n) ≡ n
unfolding remove_from
removed-remove_from g zero = refl
removed-remove_from g (suc n) = ground (arith, removed-remove_from (g + 1) n)

-- The actions are in order when `made` directories have been made: the next directory is the next
-- number, and child `i` starts in directory `i / threads_per_dir`, which has been made.
abbrev pub InOrder : ℕ → ℕ → List Action → Type 0
InOrder threads_per_dir groups [] = Unit
InOrder threads_per_dir groups (make_dir g ∷ actions) =
    (g ≡ groups) × InOrder threads_per_dir (groups + 1) actions
InOrder threads_per_dir groups (start_child i g ∷ actions) =
    (g ≡ i / threads_per_dir) × (g < groups) × InOrder threads_per_dir groups actions
InOrder threads_per_dir groups (remove_dir g ∷ actions) = ⊥

zero_add : (n : ℕ) → 0 + n ≡ n
zero_add n = omega arith

module _ (t : ℕ) (positive : 0 < t) where
  -- `groups` directories are enough for `i` children, and one less is not.
  abbrev IsCount : ℕ → ℕ → Type 0
  IsCount i groups = (i ≤ groups * t) × (groups * t < i + t)

  count_new : (i g : ℕ) → i % t ≡ 0 → IsCount i g → (g * t ≡ i) × (i / t ≡ g)
  count_new i g m c =
      let whole : i / t * t ≡ i = omega (arith, div-add-mod' i t, m) in
      let less : g < i / t + 1 = lt_of_mul-lt-mul_right t (omega (arith, whole, c.1)) in
      let more : i / t ≤ g = le_of_mul-le-mul_right (omega (arith, whole, c.0)) positive in
      let same : i / t ≡ g = omega (arith, less, more) in (rw same at whole, same)

  count_old : (i g : ℕ) → i % t ≢ 0 → IsCount i g → (i / t + 1 ≡ g) × (i < g * t)
  count_old i g m c =
      let whole : i / t * t + i % t ≡ i = div-add-mod' i t in
      let small : i % t < t = mod-lt i positive in
      let some_left : 0 < i % t = ground arith in
      let more : i / t < g = lt_of_mul-lt-mul_right t (omega (arith, whole, some_left, c.0)) in
      let less : g < i / t + 2 = lt_of_mul-lt-mul_right t (omega (arith, whole, small, c.1)) in
      let same : i / t + 1 ≡ g = omega (arith, less, more) in
      (same, subst (λ k. i < k * t) same (omega (arith, whole, small)))

  -- The count goes on, with a new directory and without.
  next_new : (i g : ℕ) → i % t ≡ 0 → IsCount i g → IsCount (i + 1) (g + 1)
  next_new i g m c =
      let same = (count_new i g m c).0 in
      (omega (arith, same, positive), omega (arith, same, positive))

  next_old : (i g : ℕ) → i % t ≢ 0 → IsCount i g → IsCount (i + 1) g
  next_old i g m c = (omega (arith, (count_old i g m c).1), omega (arith, c.1))

  module _ (mkdir : ℕ → Bool) (works : (g : ℕ) → mkdir g ≡ true) where
    -- What the loop does from child `i` on: it is in order, and makes as many as are needed.
    abbrev IsStarted : ℕ → ℕ → ℕ → List Action → Type 0
    IsStarted i g n actions = InOrder t g actions × IsCount (i + n) (g + made actions)

    IsStarted-new :
        (i g n : ℕ) (rest : List Action)
        → i % t ≡ 0
        → IsCount i g
        → IsStarted (i + 1) (g + 1) n rest
        → IsStarted i g (suc n) (make_dir g ∷ start_child i g ∷ rest)
    IsStarted-new i g n rest m c h =
        let same = (count_new i g m c).1 in
        let e : i + suc n ≡ i + 1 + n = omega arith in
        let e' : g + suc (made rest) ≡ g + 1 + made rest = omega arith in
        ((refl, (sym same, omega arith, h.0)), rw (e, e') h.1)

    IsStarted-old :
        (i g n : ℕ) (rest : List Action)
        → i % t ≢ 0
        → IsCount i g
        → IsStarted (i + 1) g n rest
        → IsStarted i g (suc n) (start_child i (g - 1) ∷ rest)
    IsStarted-old i g n rest m c h =
        let same = (count_old i g m c).0 in
        let e : i + suc n ≡ i + 1 + n = omega arith in
        ((omega (arith, same), omega (arith, same), h.0), rw e h.1)

    start_from_lem : (n i g : ℕ) → IsCount i g → IsStarted i g n (start_from t mkdir i g n)
    unfolding start_from
    start_from_lem zero i g c =
        let e : i + 0 ≡ i = omega arith in let e' : g + 0 ≡ g = omega arith in (tt, rw (e, e') c)
    start_from_lem (suc n) i g c = elim (Bool-cases (i % t == 0)) [
      | inl z ↦
          let m : i % t ≡ 0 = ground arith in
          rw (z, works g)
            (IsStarted-new i g n _ m c (start_from_lem n (i + 1) (g + 1) (next_new i g m c)))
      | inr z ↦
          let m : i % t ≢ 0 = ground arith in
          rw z (IsStarted-old i g n _ m c (start_from_lem n (i + 1) g (next_old i g m c)))
    ]

-- If every mkdir succeeds and a directory is for at least one child, then each directory is made
-- before its children start, child i in directory i / threads_per_dir; and as many directories are
-- removed as were made exactly when threads_per_dir divides n_threads.
pub directories_lem :
    (threads_per_dir n_threads : ℕ) (mkdir : ℕ → Bool)
    → 0 < threads_per_dir
    → ((g : ℕ) → mkdir g ≡ true)
    → InOrder threads_per_dir 0 (start_from threads_per_dir mkdir 0 0 n_threads)
      × ((made (start_from threads_per_dir mkdir 0 0 n_threads)
            ≡ removed (remove_dirs n_threads threads_per_dir))
          ↔ (n_threads % threads_per_dir ≡ 0))
unfolding remove_dirs
directories_lem t n mkdir positive works =
    let (order, count) = start_from_lem t positive mkdir works n 0 0 (omega (arith, positive)) in
    let k = made (start_from t mkdir 0 0 n) in
    let c : IsCount t positive n k = rw (zero_add n, zero_add k) at count in
    let gone : removed (remove_from 0 (n / t)) ≡ n / t = removed-remove_from 0 (n / t) in
    (
      order,
      (
        λ e. elim (Bool-cases (n % t == 0)) [
          | inl z ↦ ground arith
          | inr z ↦
              let old : n / t + 1 ≡ k = (count_old t positive n k (ground arith) c).0 in
              absurd (omega (arith, e, gone, old))
        ],
        λ m. omega (arith, gone, (count_new t positive n k m c).1),
      ),
    )

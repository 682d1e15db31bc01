-- ===== src/CreatUnlink/Laws.antt =====
-- What the program has done when it ends well.
use testunion.Common.{ℕ, zero, suc, ◌+◌, ◌<◌, ◌≡◌, refl, arith, [], ◌∷◌, true, ℤ, pos, negsuc}
use testunion.CreatUnlink.{
  Call, mkdir, chdir_in, chdir_up, rmdir, get_time, creat, close, unlink, did, failed, Trace,
  Kernel, try, initialize, cleanup, create_from, create_files, unlink_from, unlink_files, work,
  main,
}

-- How often a file and the directory were created and removed.
abbrev pub created : Trace → ℕ
created [] = 0
created (did (creat i) ∷ t) = suc (created t)
created (did _ ∷ t) = created t
created (failed call ∷ t) = created t

abbrev pub unlinked : Trace → ℕ
unlinked [] = 0
unlinked (did (unlink i) ∷ t) = suc (unlinked t)
unlinked (did _ ∷ t) = unlinked t
unlinked (failed call ∷ t) = unlinked t

abbrev pub dirs_made : Trace → ℕ
dirs_made [] = 0
dirs_made (did mkdir ∷ t) = suc (dirs_made t)
dirs_made (did _ ∷ t) = dirs_made t
dirs_made (failed call ∷ t) = dirs_made t

abbrev pub dirs_removed : Trace → ℕ
dirs_removed [] = 0
dirs_removed (did rmdir ∷ t) = suc (dirs_removed t)
dirs_removed (did _ ∷ t) = dirs_removed t
dirs_removed (failed call ∷ t) = dirs_removed t

module _ (kernel : Kernel) where
  create_from_lem :
      (left i : ℕ) (t : Trace)
      → let r = create_from kernel i left t in
        (created r.0 + i ≡ created t + r.1)
        × (unlinked r.0 ≡ unlinked t)
        × (dirs_made r.0 ≡ dirs_made t)
        × (dirs_removed r.0 ≡ dirs_removed t)
  unfolding create_from try
  create_from_lem zero i t = ground arith
  create_from_lem (suc left) i t = ground (
    arith,
    create_from_lem left (i + 1) (did (close i) ∷ did (creat i) ∷ t),
    create_from_lem left (i + 1) (failed (close i) ∷ did (creat i) ∷ t),
  )

  -- The loop of `unlink_files` does nothing but unlink, and all files if it returns 0.
  unlink_from_lem :
      (left i : ℕ) (t : Trace)
      → let r = unlink_from kernel i left t in
        (r.1 ≡ true → unlinked r.0 ≡ unlinked t + left)
        × (created r.0 ≡ created t)
        × (dirs_made r.0 ≡ dirs_made t)
        × (dirs_removed r.0 ≡ dirs_removed t)
  unfolding unlink_from try
  unlink_from_lem zero i t = ground arith
  unlink_from_lem (suc left) i t = ground (arith, unlink_from_lem left (i + 1) (did (unlink i) ∷ t))

  pub initialize_lem :
      let r = initialize kernel [] in
      (created r.0 ≡ 0)
      × (unlinked r.0 ≡ 0)
      × (r.1 ≡ true → (dirs_made r.0 ≡ 1) × (dirs_removed r.0 ≡ 0))
  unfolding initialize try
  initialize_lem = ground arith

  pub create_files_lem :
      (n : ℕ) (t : Trace)
      → let r = create_files kernel n t in
        (created r.0 ≡ created t + r.1)
        × (unlinked r.0 ≡ unlinked t)
        × (dirs_made r.0 ≡ dirs_made t)
        × (dirs_removed r.0 ≡ dirs_removed t)
  unfolding create_files try
  create_files_lem n t = ground (arith, create_from_lem n 0 (did get_time ∷ t))

  pub unlink_files_lem :
      (n : ℕ) (t : Trace)
      → let r = unlink_files kernel n t in
        (r.1 ≡ true → unlinked r.0 ≡ unlinked t + n)
        × (created r.0 ≡ created t)
        × (dirs_made r.0 ≡ dirs_made t)
        × (dirs_removed r.0 ≡ dirs_removed t)
  unfolding unlink_files try
  unlink_files_lem n t = ground (arith, unlink_from_lem n 0 (did get_time ∷ t))

  pub cleanup_lem :
      (t : Trace)
      → let r = cleanup kernel t in
        (r.1 ≡ true → dirs_removed r.0 ≡ suc (dirs_removed t))
        × (created r.0 ≡ created t)
        × (unlinked r.0 ≡ unlinked t)
        × (dirs_made r.0 ≡ dirs_made t)
  unfolding cleanup try
  cleanup_lem t = ground arith

  -- If the program exits with 0, it has created and unlinked nfiles files, and made and removed one
  -- directory.
  exits_well :
      (argc : ℕ) (nfiles : ℤ)
      → (main kernel argc nfiles).1 ≡ 0
      → let t = (main kernel argc nfiles).0 in
        (pos (created t) ≡ nfiles)
        × (unlinked t ≡ created t)
        × (dirs_removed t ≡ 1)
        × (dirs_made t ≡ 1)
  unfolding main work
  exits_well argc (negsuc n) e = absurd (omega (arith, e))
  exits_well argc (pos n) e =
      let begun = initialize kernel [] in
      let made = create_files kernel n begun.0 in
      let gone = unlink_files kernel made.1 made.0 in
      ground (
        arith,
        initialize_lem,
        create_files_lem n begun.0,
        unlink_files_lem made.1 made.0,
        cleanup_lem gone.0,
      )

  module _ (timed : (t : Trace) → kernel t get_time ≡ true)
      (unlinks : (t : Trace) (i : ℕ) → kernel t (unlink i) ≡ true)
      (goes_up : (t : Trace) → kernel t chdir_up ≡ true)
      (removes : (t : Trace) → kernel t rmdir ≡ true) where
    unlink_from_works : (left i : ℕ) (t : Trace) → (unlink_from kernel i left t).1 ≡ true
    unfolding unlink_from try
    unlink_from_works zero i t = refl
    unlink_from_works (suc left) i t =
        rw (unlinks t i) (unlink_from_works left (i + 1) (did (unlink i) ∷ t))

    unlink_files_works : (n : ℕ) (t : Trace) → (unlink_files kernel n t).1 ≡ true
    unfolding unlink_files try
    unlink_files_works n t = rw (timed t) (unlink_from_works n 0 (did get_time ∷ t))

    cleanup_works : (t : Trace) → (cleanup kernel t).1 ≡ true
    unfolding cleanup try
    cleanup_works t = rw (goes_up t, removes (did chdir_up ∷ t)) refl

module _ (kernel : Kernel) (works : (t : Trace) (call : Call) → kernel t call ≡ true) where
  create_from_works : (left i : ℕ) (t : Trace) → (create_from kernel i left t).1 ≡ i + left
  unfolding create_from try
  create_from_works zero i t = omega arith
  create_from_works (suc left) i t =
      rw (works t (creat i), works (did (creat i) ∷ t) (close i))
        (omega (arith, create_from_works left (i + 1) (did (close i) ∷ did (creat i) ∷ t)))

  create_files_works : (n : ℕ) (t : Trace) → (create_files kernel n t).1 ≡ n
  unfolding create_files try
  create_files_works n t =
      rw (works t get_time) (omega (arith, create_from_works n 0 (did get_time ∷ t)))

  initialize_works : (initialize kernel []).1 ≡ true
  unfolding initialize try
  initialize_works = rw (works [] mkdir, works (did mkdir ∷ []) chdir_in) refl

  -- With two arguments and a positive number of files, the program exits with 0 if every call
  -- succeeds.
  pub main-exits : (argc n : ℕ) → 2 < argc → 0 < n → (main kernel argc (pos n)).1 ≡ 0
  unfolding main work
  main-exits argc n enough some_files =
      let begun = initialize kernel [] in
      let made = create_files kernel n begun.0 in
      let gone = unlink_files kernel made.1 made.0 in
      ground (
        arith,
        initialize_works,
        create_files_works n begun.0,
        unlink_files_works kernel (λ t. works t get_time) (λ t i. works t (unlink i))
            (λ t. works t chdir_up) (λ t. works t rmdir) made.1 made.0,
        cleanup_works kernel (λ t. works t get_time) (λ t i. works t (unlink i))
            (λ t. works t chdir_up) (λ t. works t rmdir) gone.0,
      )

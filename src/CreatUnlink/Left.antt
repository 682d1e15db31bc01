-- ===== src/CreatUnlink/Left.antt =====
-- Which files the program has created and not unlinked, and that it leaves nothing behind.
use testunion.Common.{
  ℕ, zero, suc, ◌+◌, ◌≡◌, refl, arith, List, [], ◌∷◌, true, false, In, remove, ◌==◌, inl, inr,
  subst, sym, ℤ, pos, negsuc,
}
use testunion.CreatUnlink.{
  mkdir, chdir_in, chdir_up, rmdir, get_time, creat, close, unlink, did, failed, Trace, Kernel, try,
  initialize, cleanup, create_from, create_files, unlink_from, unlink_files, work, main,
}
use testunion.CreatUnlink.Laws.{
  dirs_made, dirs_removed, initialize_lem, create_files_lem, unlink_files_lem, cleanup_lem,
}

-- The numbers of the files that were created and not unlinked, the latest first.
abbrev pub left : Trace → List ℕ
left [] = []
left (did (creat i) ∷ t) = i ∷ left t
left (did (unlink i) ∷ t) = remove i (left t)
left (did _ ∷ t) = left t
left (failed call ∷ t) = left t

-- No file is left, and the directory was removed if it was made.
abbrev pub LeavesNothing : Trace → Type 0
LeavesNothing t = (left t ≡ []) × (dirs_removed t ≡ dirs_made t)

-- The `n` numbers from `i` on, the largest first.
abbrev from : ℕ → ℕ → List ℕ
from i zero = []
from i (suc n) = (i + n) ∷ from i n

from-In : (i n : ℕ) → In i (from i (suc n))
from-In i zero = inl (omega arith)
from-In i (suc n) = inr (from-In i n)

remove-from : (i n : ℕ) → remove i (from i (suc n)) ≡ from (i + 1) n
remove-from i zero = ground arith
remove-from i (suc n) =
    let other : (i + suc n == i) ≡ false = ground arith in
    let next : i + suc n ≡ i + 1 + n = omega arith in rw other (rw (remove-from i n, next) refl)

module _ (kernel : Kernel) where
  create_from-left :
      (n i : ℕ) (t : Trace)
      → left t ≡ from 0 i
      → let r = create_from kernel i n t in left r.0 ≡ from 0 r.1
  unfolding create_from try
  create_from-left zero i t e = e
  create_from-left (suc n) i t e =
      let next : from 0 (i + 1) ≡ i ∷ from 0 i = ground arith in
      ground (
        arith,
        create_from-left n (i + 1) (did (close i) ∷ did (creat i) ∷ t),
        create_from-left n (i + 1) (failed (close i) ∷ did (creat i) ∷ t),
      )

  initialize-left : left (initialize kernel []).0 ≡ []
  unfolding initialize try
  initialize-left = ground arith

  create_files-left :
      (n : ℕ) (t : Trace) → left t ≡ [] → let r = create_files kernel n t in left r.0 ≡ from 0 r.1
  unfolding create_files try
  create_files-left n t e = ground (arith, create_from-left n 0 (did get_time ∷ t))

  cleanup-left : (t : Trace) → left (cleanup kernel t).0 ≡ left t
  unfolding cleanup try
  cleanup-left t = ground arith

  module _ (timed : (t : Trace) → kernel t get_time ≡ true)
      (unlinks : (t : Trace) (i : ℕ) → In i (left t) → kernel t (unlink i) ≡ true)
      (goes_up : (t : Trace) → kernel t chdir_up ≡ true)
      (removes : (t : Trace) → left t ≡ [] → kernel t rmdir ≡ true) where
    unlink_from-left :
        (n i : ℕ) (t : Trace)
        → left t ≡ from i n
        → let r = unlink_from kernel i n t in (r.1 ≡ true) × (left r.0 ≡ [])
    unfolding unlink_from try
    unlink_from-left zero i t e = (refl, e)
    unlink_from-left (suc n) i t e =
        let gone = unlinks t i (subst (In i) (sym e) (from-In i n)) in
        let rest : left (did (unlink i) ∷ t) ≡ from (i + 1) n = rw e (remove-from i n) in
        rw gone (unlink_from-left n (i + 1) (did (unlink i) ∷ t) rest)

    unlink_files-left :
        (n : ℕ) (t : Trace)
        → left t ≡ from 0 n
        → let r = unlink_files kernel n t in (r.1 ≡ true) × (left r.0 ≡ [])
    unfolding unlink_files try
    unlink_files-left n t e = rw (timed t) (unlink_from-left n 0 (did get_time ∷ t) e)

    initialize_undone :
        let r = initialize kernel [] in r.1 ≡ false → dirs_removed r.0 ≡ dirs_made r.0
    unfolding initialize try
    initialize_undone e = ground (arith, removes (failed chdir_in ∷ did mkdir ∷ []))

    cleanup_works : (t : Trace) → left t ≡ [] → (cleanup kernel t).1 ≡ true
    unfolding cleanup try
    cleanup_works t e = rw (goes_up t, removes (did chdir_up ∷ t) e) refl

    -- If the clock and chdir("..") do not fail, unlink does not for a file that was created and not
    -- unlinked, and rmdir does not when no such file is left, then whatever mkdir, the first chdir
    -- and creat do, the program leaves nothing behind: each file that it created is unlinked by its
    -- own number, and its directory is removed if it was made.
    pub main-LeavesNothing : (argc : ℕ) (nfiles : ℤ) → LeavesNothing (main kernel argc nfiles).0
    unfolding main work
    main-LeavesNothing argc (negsuc n) = (refl, refl)
    main-LeavesNothing argc (pos n) =
        let begun = initialize kernel [] in
        let made = create_files kernel n begun.0 in
        let gone = unlink_files kernel made.1 made.0 in
        let stands = create_files-left n begun.0 initialize-left in
        let unlinked = unlink_files-left made.1 made.0 stands in
        let cleaned = cleanup-left gone.0 in
        ground (
          arith,
          initialize-left,
          initialize_lem kernel,
          initialize_undone,
          create_files_lem kernel n begun.0,
          unlink_files_lem kernel made.1 made.0,
          unlinked,
          cleaned,
          cleanup_lem kernel gone.0,
          cleanup_works gone.0 unlinked.1,
        )

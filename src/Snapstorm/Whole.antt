-- ===== src/Snapstorm/Whole.antt =====
-- The options with the threads, and what a worker leaves behind.
use testunion.Common.{
  ℕ, zero, suc, ◌≤◌, ◌≡◌, ◌≢◌, refl, arith, List, [], ◌∷◌, true, false, ◌==◌, Option, none, some,
  length, In, remove, ℤ, pos, negsuc, All, Option-cases, Bool-cases, inl, inr, ◌⊎◌, ◌&&◌,
}
use testunion.Common.Options.{Text, Opt, fold_options, fold_options_inv}
use testunion.Snapstorm.{finished, done, System, Reach}
use testunion.Snapstorm.Progress.{done-All}
use testunion.Snapstorm.Snap.{
  Stat, Answer, Snap, opened, closed, snap_create, test_issubvolume, open_file_or_dir, take_snap,
  do_snap, Settings, defaults, or_default, set_option, prepare,
}

abbrev HasThreads : Settings → Type 0
HasThreads s = (1 ≤ s.nr_threads) × (s.nr_threads ≤ 4096)

or_default_bounds :
    (z : ℤ) (d : ℕ) → 1 ≤ d → d ≤ 4096 → (1 ≤ or_default z d) × (or_default z d ≤ 4096)
or_default_bounds (pos n) d h k = ground arith
or_default_bounds (negsuc n) d h k = (h, k)

set_option-HasThreads :
    (atoi : Text → ℤ) (s : Settings) (o : Opt) (t : Settings)
    → HasThreads s
    → set_option atoi s o ≡ some t
    → HasThreads t
unfolding set_option
set_option-HasThreads atoi s o t h e =
    ground (arith, or_default_bounds (atoi o.optarg) 10 (omega arith) (omega arith))

-- If main accepts its options and arguments, then it starts between 1 and 4096 threads, and in a
-- state that can be reached in which main is at its end, all of them have finished.
pub main_ends :
    (atoi : Text → ℤ) (opts : List Opt) (argv : List Text) (left nr_threads : ℕ) (source : Text)
    → prepare atoi opts argv left ≡ some (nr_threads, source)
    → (s : System) → Reach nr_threads s
    → s.main ≡ done
    → (1 ≤ nr_threads)
      × (nr_threads ≤ 4096)
      × (length s.workers ≡ nr_threads)
      × All (λ p. p ≡ finished) s.workers
unfolding prepare
main_ends atoi opts argv left n source e s r d =
    elim (Option-cases (fold_options (set_option atoi) opts defaults)) [
      | inl f ↦ absurd (cc)
      | inr (t, f) ↦
          let h =
            fold_options_inv (set_option atoi) HasThreads (set_option-HasThreads atoi) opts defaults
              t (omega arith) f in
          let same : t.nr_threads ≡ n = ground arith in
          let (len, all) = done-All n s r d in
          (omega (arith, h, same), omega (arith, h, same), len, all)
    ]

-- With the descriptors `xs` open, each call uses or closes open descriptors only, and `ys` are open
-- at the end.
abbrev pub Turns : List Snap → List ℕ → List ℕ → Type 0
Turns [] xs ys = xs ≡ ys
Turns (opened fd ∷ calls) xs ys = Turns calls (fd ∷ xs) ys
Turns (closed fd ∷ calls) xs ys = In fd xs × Turns calls (remove fd xs) ys
Turns (snap_create dst src ∷ calls) xs ys = In dst xs × In src xs × Turns calls xs ys

-- The snapshots that are asked for: the directory's and the source's descriptor.
abbrev pub creates : List Snap → List (ℕ × ℕ)
creates [] = []
creates (snap_create dst src ∷ calls) = (dst, src) ∷ creates calls
creates (opened fd ∷ calls) = creates calls
creates (closed fd ∷ calls) = creates calls

-- The path is there and can be opened.
abbrev pub CanOpen : Answer → Type 0
CanOpen a = (a.stat ≢ none) × (a.fd ≢ none)

-- `stat` shows something that is no subvolume.
abbrev pub IsRefused : Option Stat → Type 0
IsRefused none = ⊥
IsRefused (some st) = (st.st_ino ≢ 256) ⊎ (st.is_dir ≡ false)

abbrev Opens : Answer → ℤ → Type 0
Opens a (pos fd) = CanOpen a × (a.fd ≡ some fd)
Opens a (negsuc n) = ¬ CanOpen a

open_file_or_dir_lem : (a : Answer) → Opens a (open_file_or_dir a)
unfolding open_file_or_dir
open_file_or_dir_lem a = elim (Option-cases a.stat) [
  | inl e ↦ rw e (λ c. c.0 refl)
  | inr (st, e) ↦ elim (Option-cases a.fd) [
    | inl f ↦ elim (Bool-cases st.is_dir) [
      | inl d ↦ rw (e, f, d) (λ c. c.1 refl)
      | inr d ↦ rw (e, f, d) (λ c. c.1 refl)
    ]
    | inr (fd, f) ↦ rw (e, f) (((λ n. absurd (cc)), λ n. absurd (cc)), refl)
  ]
]

abbrev Tests : Option Stat → ℤ → Type 0
Tests tested (pos zero) = IsRefused tested
Tests tested _ = ¬ IsRefused tested

test_issubvolume_lem : (tested : Option Stat) → Tests tested (test_issubvolume tested)
unfolding test_issubvolume
test_issubvolume_lem none = λ n. n
test_issubvolume_lem (some st) = elim (Bool-cases ((st.st_ino == 256) && st.is_dir)) [
  | inl e ↦
      let both : (st.st_ino ≡ 256) × (st.is_dir ≡ true) = ground arith in
      rw e (λ r. elim r [ inl n ↦ n both.0 | inr f ↦ absurd (cc) ])
  | inr e ↦ rw e (elim (Bool-cases st.is_dir) [ inl d ↦ inl (ground arith) | inr d ↦ inr d ])
]

-- What is done: a snapshot, with every descriptor closed; or nothing; or no snapshot, with the
-- directory's descriptor left open.
abbrev pub Did : Answer → Option Stat → Answer → List Snap → Type 0
Did dot tested source calls =
    ((d : ℕ) × (s : ℕ) × (dot.fd ≡ some d)
      × (source.fd ≡ some s)
      × (creates calls ≡ (d, s) ∷ [])
      × Turns calls [] []
      × CanOpen dot
      × (¬ IsRefused tested)
      × CanOpen source)
    ⊎ ((calls ≡ []) × ¬ CanOpen dot)
    ⊎ ((d : ℕ) × (dot.fd ≡ some d)
        × (creates calls ≡ [])
        × Turns calls [] (d ∷ [])
        × CanOpen dot
        × (IsRefused tested ⊎ (¬ CanOpen source)))

-- The calls that take a snapshot with two descriptors.
both_closed :
    (d s : ℕ) → Turns (opened d ∷ opened s ∷ snap_create d s ∷ closed s ∷ closed d ∷ []) [] []
both_closed d s = ground arith

take_snap-Did :
    (dot : Answer) (tested : Option Stat) (source : Answer) (fddst subvolume fd : ℤ)
    → Opens dot fddst
    → Tests tested subvolume
    → Opens source fd
    → Did dot tested source (take_snap fddst subvolume fd)
unfolding take_snap
take_snap-Did dot tested source (negsuc n) v f d t o = inr (inl (refl, d))
take_snap-Did dot tested source (pos n) (pos zero) f d t o =
    inr (inr (n, d.1, refl, refl, d.0, inl t))
take_snap-Did dot tested source (pos n) (pos (suc k)) (negsuc m) d t o =
    inr (inr (n, d.1, refl, refl, d.0, inr o))
take_snap-Did dot tested source (pos n) (negsuc k) (negsuc m) d t o =
    inr (inr (n, d.1, refl, refl, d.0, inr o))
take_snap-Did dot tested source (pos n) (pos (suc k)) (pos m) d t o =
    inl (n, m, d.1, o.1, refl, both_closed n m, d.0, t, o.0)
take_snap-Did dot tested source (pos n) (negsuc k) (pos m) d t o =
    inl (n, m, d.1, o.1, refl, both_closed n m, d.0, t, o.0)

-- Do_snap uses and closes only descriptors that are open, and does one of three things. It asks for
-- one snapshot, with the descriptors of the directory and of the source, and none is open at the
-- end: then both could be opened, and stat did not show that the source is no subvolume. Or the
-- directory cannot be opened, and it does nothing. Or it asks for none and exactly the descriptor
-- of the directory is open at the end: then the source is refused or cannot be opened.
pub do_snap_lem :
    (dot : Answer) (tested : Option Stat) (source : Answer)
    → Did dot tested source (do_snap dot tested source)
unfolding do_snap
do_snap_lem dot tested source =
    take_snap-Did dot tested source (open_file_or_dir dot) (test_issubvolume tested)
      (open_file_or_dir source) (open_file_or_dir_lem dot) (test_issubvolume_lem tested)
      (open_file_or_dir_lem source)

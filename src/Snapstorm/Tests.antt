-- ===== src/Snapstorm/Tests.antt =====
-- The theorems of Snapstorm at a run with one thread.
use testunion.Common.{
  ℕ, ◌-◌, ◌≤◌, List, some, ℤ, pos, ◌≡◌, ◌≢◌, refl, arith, [], ◌∷◌, Bool, true, false, All,
}
use testunion.Snapstorm.{
  Place, created, asleep, awake, snapping, finished, MainPlace, creating, waiting, starting, ending,
  done, System, start, create, all_created, all_ready, go, all_finished, get_ready, test_again,
  finish, Reach, at_start, after,
}
use testunion.Snapstorm.Gate.{gate, Course}
use testunion.Snapstorm.Refine.{Follows, Step-refines}
use testunion.Common.Options.{Text, Opt, fold_options}
use testunion.Snapstorm.Snap.{
  Stat, Answer, opened, do_snap, prepare, set_option, take_snap, open_file_or_dir, test_issubvolume,
}
use testunion.Snapstorm.Whole.{Did, main_ends, do_snap_lem}
use testunion.Snapstorm.Progress.{CanMove, barrier, CanMove-Reach}

abbrev system : Place → Bool → ℕ → ℕ → MainPlace → System
system p b ready over m = record {
  workers = p ∷ [];
  can_start = b;
  nr_ready = ready;
  nr_finished = over;
  main = m;
}

started : Reach 1 (system created false 0 0 creating)
unfolding start
started = after start _ at_start (create start refl (omega arith))

sleeping : Reach 1 (system asleep false 1 0 waiting)
sleeping =
    after _ _ (after _ _ started (all_created (system created false 0 0 creating) refl refl))
      (get_ready (system created false 0 0 waiting) 0 refl)

snaps : Reach 1 (system snapping true 1 0 ending)
snaps =
    after _ _
      (after _ _
        (after _ _ sleeping (all_ready (system asleep false 1 0 waiting) refl (omega arith)))
        (go (system asleep false 1 0 starting) refl))
      (test_again (system awake true 1 0 ending) 0 refl)

over : Reach 1 (system finished true 1 1 done)
over =
    after _ _ (after _ _ snaps (finish (system snapping true 1 0 ending) 0 refl))
      (all_finished (system finished true 1 1 ending) refl (omega arith))

barrier_example :
    ◌≡◌ {A = ℕ} 1 1 × All (λ q. q ≢ created) (snapping ∷ []) × All (λ q. q ≢ asleep) (snapping ∷ [])
barrier_example = barrier 1 (system snapping true 1 0 ending) 0 snapping snaps refl refl

CanMove-Reach_example : CanMove 1 (system asleep false 1 0 waiting)
CanMove-Reach_example =
    CanMove-Reach 1 (system asleep false 1 0 waiting) sleeping (λ e. absurd (cc))

Step-refines_example :
    Course 1 (gate 1 true 1 0 false) × Follows 1 (gate 1 true 1 0 false) (gate 1 true 1 1 false)
Step-refines_example =
    Step-refines 1 (system snapping true 1 0 ending) (system finished true 1 1 ending) snaps
      (finish (system snapping true 1 0 ending) 0 refl)

-- A single digit, as `atoi` reads it.
abbrev digit : Text → ℤ
digit [] = pos 0
digit (c ∷ cs) = pos (c - b'0')

abbrev options : List Opt
options = record { letter = b'c'; optarg = b'1' ∷ [] } ∷ []

-- `snapstorm -c1 a b`: what is taken for the source is the option.
abbrev argv : List Text
argv = (b's' ∷ []) ∷ (b'-' ∷ b'c' ∷ b'1' ∷ []) ∷ (b'a' ∷ []) ∷ (b'b' ∷ []) ∷ []

prepare_runs : prepare digit options argv 2 ≡ some (1, b'-' ∷ b'c' ∷ b'1' ∷ [])
unfolding prepare set_option fold_options
prepare_runs = refl

main_ends_example : ◌≤◌ 1 1 × ◌≤◌ 1 4096 × ◌≡◌ {A = ℕ} 1 1 × All (λ p. p ≡ finished) (finished ∷ [])
main_ends_example =
    main_ends digit options argv 2 1 (b'-' ∷ b'c' ∷ b'1' ∷ []) prepare_runs
      (system finished true 1 1 done) over refl

abbrev here : Answer
here = record { stat = some (record { st_ino = 256; is_dir = true }); fd = some 3 }

abbrev plain : Stat
plain = record { st_ino = 257; is_dir = true }

abbrev there : Answer
there = record { stat = some plain; fd = some 4 }

refused_runs : do_snap here (some plain) there ≡ opened 3 ∷ []
unfolding do_snap take_snap open_file_or_dir test_issubvolume
refused_runs = refl

do_snap_lem_example : Did here (some plain) there (do_snap here (some plain) there)
do_snap_lem_example = do_snap_lem here (some plain) there

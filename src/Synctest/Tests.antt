-- ===== src/Synctest/Tests.antt =====
-- The theorems of Synctest at two or three children, and runs of the two processes.
use testunion.Common.{
  ap, get_or, ◌+◌, ℕ, ◌-◌, ℤ, pos, some, none, ◌%◌, ◌≤◌, ◌≡◌, ◌↔◌, refl, arith, List, [], ◌∷◌, ◌++◌,
  Bool, true, false, All, ◌==◌, length, if◌then◌else◌,
}
use testunion.Synctest.Child.{
  Name, Call, Run, going, exited, iterations, do_child, create_from, Settings, first_child,
  next_to_write, do_one_file, and_then, make_call, write_stuff_to, sync_dir, rename_from,
}
use testunion.Synctest.Parent.{
  Event, finish, reaped, interrupted, Parent, parent, finished, first_parent, wait_loop, scan,
}
use testunion.Synctest.Ends.{Ends}
use testunion.Synctest.Lag.{iterations_lag}
use testunion.Synctest.Waiting.{wait_loop_sound, finishes, IsPossible}
use testunion.Common.Options.{Text, Opt, fold_options}
use testunion.Synctest.Main.{
  Options, defaults, set_option, to_int, exits, killed, stopped, main, doit, start_and_wait,
  run_child, child_settings, iter_count,
}
use testunion.Synctest.Whole.{main-returns}
use testunion.Synctest.Names.{IsPadded, name_text, dir_text, buffer_size, name_text_lem}
use testunion.Synctest.Together.{here, there, Merge, none_left, latest, Leads}
use testunion.Synctest.Children.{Fork, run_fork, is_going, traces, children-Leads}
use testunion.Synctest.Directories.{InOrder, made, removed}

abbrev options : Settings
options = record {
  use_fsync = true;
  use_osync = false;
  fsync_parent = true;
  do_unlink = true;
  thread_group = 0;
  pid = 42;
}

-- Every call succeeds.
abbrev all_well : List Call → Call → Bool
all_well calls call = true

-- The eleventh call fails.
abbrev eleventh_fails : List Call → Call → Bool
eleventh_fails calls call = if length calls == 10 then false else true

abbrev calls_of : Run → ℕ
calls_of (going c) = length c.calls
calls_of (exited call calls) = length calls

-- A file takes eleven calls with these options.
one_file_runs : calls_of (do_one_file all_well options 0 first_child) ≡ 11
unfolding do_one_file and_then make_call write_stuff_to sync_dir rename_from
one_file_runs = refl

failing_runs : calls_of (do_one_file eleventh_fails options 0 first_child) ≡ 10
unfolding do_one_file and_then make_call write_stuff_to sync_dir rename_from
failing_runs = refl

to_write_runs : (next_to_write 5000 ≡ 5500) × (next_to_write 240000 ≡ 5000)
unfolding next_to_write
to_write_runs = (refl, refl)

iterations_lag_example : Ends all_well 42 [] (iterations all_well options 2 first_child)
iterations_lag_example = iterations_lag all_well options 2 refl

-- Two children finish, with a `wait3` between, and one that a signal interrupts.
abbrev events : List Event
events = finish 1 ∷ reaped ∷ interrupted ∷ finish 0 ∷ []

abbrev seen : Parent
seen = parent (2 ∷ 2 ∷ []) 0 2

wait_runs : wait_loop (events ++ (reaped ∷ [])) (first_parent 2) ≡ finished seen
unfolding wait_loop first_parent scan
wait_runs = refl

events-IsPossible : IsPossible events (first_parent 2)
unfolding first_parent scan
events-IsPossible = (refl, (refl, tt))

more_events-IsPossible : IsPossible (events ++ (reaped ∷ [])) (first_parent 2)
unfolding first_parent scan
more_events-IsPossible = (refl, (refl, tt))

wait_loop_sound_example :
    All (λ s. s ≡ 2) seen.child_status × (seen.stars ≡ 2) × (2 ≤ finishes (events ++ (reaped ∷ [])))
wait_loop_sound_example =
    wait_loop_sound 2 (events ++ (reaped ∷ [])) seen more_events-IsPossible wait_runs

-- A single digit, as `strtol` reads it.
abbrev digit : Text → ℤ
digit [] = pos 0
digit (c ∷ cs) = pos (c - b'0')

-- -t 2 -u
abbrev two_threads : List Opt
two_threads =
    record { letter = b't'; optarg = b'2' ∷ [] } ∷ record { letter = b'u'; optarg = [] } ∷ []

abbrev parsed : Options
parsed = record defaults { n_threads = pos 2; do_unlink = 1 }

parsed_runs : fold_options (set_option digit) two_threads defaults ≡ some parsed
unfolding fold_options set_option to_int
parsed_runs = refl

main-returns_example :
    let d = main (λ _. true) (λ _. true) (events ++ (reaped ∷ [])) digit two_threads 1 in
    (d.ending ≡ exits 0)
    × InOrder 1 0 d.started
    × ((made d.started ≡ removed d.removed) ↔ (2 % 1 ≡ 0))
main-returns_example =
    main-returns digit two_threads parsed 2 1 (λ _. true) (λ _. true) events parsed_runs refl refl
      (omega arith) refl (λ _. refl) events-IsPossible tt (omega arith)

-- With -p 0 the program is killed by a division.
no_dirs_runs :
    main (λ _. true) (λ _. true) [] digit (record { letter = b'p'; optarg = b'0' ∷ [] } ∷ []) 1
    ≡ stopped [] killed
unfolding main doit start_and_wait fold_options set_option to_int
no_dirs_runs = refl

-- Two children in one directory: the fourth call of the first fails, and the third of the second.
abbrev stops_at : ℕ → List Call → Call → Bool
stops_at k calls call = if length calls == k then false else true

abbrev forks : List Fork
forks =
    record { pid = 7; thread_group = 0; kernel = stops_at 3 }
    ∷ record { pid = 8; thread_group = 0; kernel = stops_at 2 }
    ∷ []

abbrev first_name : ℕ → Name
first_name pid = record { thread_group = 0; pid = pid; pass = none; fileno = 0 }

abbrev mixed : List Call
mixed =
    Call.write 5000
    ∷ Call.open_file (first_name 7) false
    ∷ Call.open_file (first_name 8) false
    ∷ Call.open_dir 0
    ∷ Call.open_dir 0
    ∷ []

mixed-Merge : Merge (traces parsed forks) mixed
unfolding run_child child_settings iter_count iterations do_child create_from do_one_file and_then
    make_call write_stuff_to
mixed-Merge = latest _ _ _ _ (here _ _ _) (
    latest _ _ _ _ (here _ _ _) (
      latest _ _ _ _ (there _ _ _ _ (here _ _ _)) (
        latest _ _ _ _ (there _ _ _ _ (here _ _ _))
          (latest _ _ _ _ (here _ _ _) (none_left _ (refl, (refl, tt)))))))

children-Leads_example :
    (names : List Name) × Leads 62 mixed names
    × (All (λ f. is_going (run_fork parsed f) ≡ true) forks → names ≡ [])
children-Leads_example =
    children-Leads parsed refl forks mixed ((omega arith, tt), ((tt), tt)) mixed-Merge

-- A number as one character; `%05d` prints five digits or more.
abbrev padded : ℕ → ℕ → Text
padded w n = (b'0' + n) ∷ []

padded-IsPadded : IsPadded padded
padded-IsPadded = record {
  injective = λ w m n e. omega (arith, ap (λ l. get_or l 0 0) e);
  digits = λ w n. (((λ e. omega (arith, e)), λ e. omega (arith, e)), tt);
  short = λ w n le small. omega arith;
}

abbrev renamed_once : Name
renamed_once = record { thread_group = 0; pid = 7; pass = some 0; fileno = 0 }

name_text_lem_example :
    (length (name_text padded (b't' ∷ []) (first_name 7)) + 1 ≤ buffer_size (b't' ∷ []))
    × (length (dir_text padded (b't' ∷ []) 0) + 1 ≤ buffer_size (b't' ∷ []))
    × ((name_text padded (b't' ∷ []) (first_name 7) ≡ name_text padded (b't' ∷ []) renamed_once)
        ↔ (first_name 7 ≡ renamed_once))
name_text_lem_example =
    name_text_lem padded-IsPadded (b't' ∷ []) (first_name 7) renamed_once
      (omega arith, omega arith, omega arith, λ k e. absurd (cc))

-- ===== src/Snaptest/Tests.antt =====
-- The theorems of Snaptest at rounds that read 10, 3 and 200.
use testunion.Common.{ℕ, ◌≡◌, refl, [], true, false, none, some, ltb, if◌then◌else◌, length, pos}
use testunion.Snaptest.{files, Turn, Run, pause_of, max_rounds, rounds, main}
use testunion.Snaptest.Laws.{IsFine}
use testunion.Snaptest.Whole.{IsGood, appended, main-IsFine, main-whole}

abbrev good_turn : Turn
good_turn = record {
  random = some (10, 3, 200);
  starts = true;
  appended = 0;
  append_ok = true;
  written = 4086;
  killed = λ stage. false;
}

-- The third round reads nothing.
abbrev turns : ℕ → Turn
turns k = if ltb k 2 then good_turn else record good_turn { random = none }

-- The second byte counts as -56.
pause_runs : pause_of 3 200 ≡ some (pos 2944)
unfolding pause_of
pause_runs = refl

first_bytes : pause_of 0 200 ≡ some (pos 200)
unfolding pause_of
first_bytes = refl

abbrev run : Run
run = rounds 9 turns max_rounds (files [] []) 0 0

main_runs : main 9 true true true true turns ≡ some run
unfolding main
main_runs = refl

main-IsFine_example : IsFine 0 400 run
main-IsFine_example = main-IsFine 9 true true true true turns run main_runs

good_turn-IsGood : IsGood good_turn
good_turn-IsGood = record {
  bytes = (10, 3, 200);
  reads = refl;
  starts = refl;
  appends = refl;
  survives = λ stage. refl;
  writes = refl;
}

main-whole_example :
    (r : Run) × (main 9 true true true true (λ _. good_turn) ≡ some r)
    × (r.files.ca ≡ appended (λ k. good_turn-IsGood) 0 400)
    × (r.files.db ≡ appended (λ k. good_turn-IsGood) 0 400)
    × (r.totalsize ≡ length r.files.ca)
    × (r.blocks ≡ 400)
    × (length r.commands ≡ 400)
main-whole_example = main-whole 9 (λ _. good_turn) (λ _. good_turn-IsGood)

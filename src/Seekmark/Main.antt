-- ===== src/Seekmark/Main.antt =====
-- `main` of seekmark.c: the size as it is printed, and the threads that it starts and joins.
use testunion.Common.{
  ℕ, zero, suc, ◌+◌, ◌/◌, List, [], ◌∷◌, Bool, Option, none, some, ltb, if◌then◌else◌, ℤ,
}
use testunion.Common.Options.{Text, Opt}
use testunion.Seekmark.Options.{Settings, getargs, prepare}
use testunion.Seekmark.Thread.{Turn, Rest, threadseek}

pub data SizeUnit : Type 0 where
  bytes kilobytes megabytes : SizeUnit

-- `printsize` and `unit`.
unfoldable pub print_size : ℕ → ℕ × SizeUnit
print_size size =
    if ltb 1048576 size
    then (size / 1048576, megabytes)
    else if ltb 1024 size
    then (size / 1024, kilobytes)
    else (size, bytes)

module _ (s : Settings) (size : ℕ) (turns : ℕ → ℕ → Turn) (fuel : ℕ) where
  -- The loop that starts thread `i` and those after it. The joins take their results in this order.
  unfoldable pub start_threads : ℕ → ℕ → List Rest
  start_threads i zero = []
  start_threads i (suc left) = threadseek s size (turns i) fuel ∷ start_threads (i + 1) left

-- What is known of a run: the settings, the size as printed, and the threads.
pub record Test : Type 0 where
  pub settings : Settings
  pub size : ℕ
  pub printed : ℕ × SizeUnit
  pub threads : List Rest

-- `none` is an exit with status 1; `turns i k` is what round `k` of thread `i` meets.
unfoldable pub main :
    (Text → ℤ) → (Text → ℤ) → List Opt → Bool → Option ℕ → (ℕ → ℕ → Turn) → ℕ → Option Test
main atoi atoll opts opens found turns fuel = elim (getargs atoi atoll opts) [
  | none ↦ none
  | some s ↦ elim (prepare s opens found) [
    | none ↦ none
    | some (t, size) ↦ some (record {
      settings = t;
      size = size;
      printed = print_size size;
      threads = start_threads t size turns fuel 0 t.numthreads;
    })
  ]
]

-- ===== src/Seekmark/Tests.antt =====
-- The theorems of Seekmark at a file of 8192 bytes, and runs of its options and of a thread.
use testunion.Common.{
  ℕ, zero, suc, ◌≤◌, All, ◌<◌, ◌-◌, ◌^◌, ◌≡◌, refl, arith, List, [], ◌∷◌, true, false, none, some,
  ℤ, pos,
}
use testunion.Common.Options.{Text, Opt, fold_options}
use testunion.Seekmark.Options.{Settings, defaults, set_option, getargs, prepare}
use testunion.Seekmark.Thread.{
  open_file, lseek, read, close, Turn, threadseek, seek_loop, seekthenreadwrite, choose_position,
  align_position,
}
use testunion.Seekmark.Main.{Test, kilobytes, main, print_size, start_threads}
use testunion.Seekmark.Whole.{transferred, main_count}

-- A single digit, as `atoi` reads it.
abbrev digit : Text → ℤ
digit [] = pos 0
digit (c ∷ cs) = pos (c - b'0')

abbrev name : Text
name = b'x' ∷ []

-- `-f x -s 2 -a 9 -e`, without and with the last one.
abbrev two_seeks : List Opt
two_seeks =
    record { letter = b'f'; optarg = name }
    ∷ record { letter = b's'; optarg = b'2' ∷ [] }
    ∷ record { letter = b'a'; optarg = b'9' ∷ [] }
    ∷ []

abbrev parsed : Settings
parsed = record defaults { file = some name; seeks = 2; align = 9 }

getargs_runs : getargs digit digit two_seeks ≡ some parsed
unfolding getargs fold_options set_option
getargs_runs = refl

prepare_runs : prepare parsed true (some 8192) ≡ some (parsed, 8192)
unfolding prepare
prepare_runs = refl

-- A random number of almost one, and then one of a tenth.
abbrev turns : ℕ → Turn
turns zero = record { part = λ n. n; randchar = λ i. i; seeks = true; bytes = pos 512 }
turns (suc k) = record { part = λ n. 819; randchar = λ i. i; seeks = true; bytes = pos 100 }

thread_runs :
    (threadseek parsed 8192 turns 3).calls
    ≡ open_file false ∷ lseek 7680 true ∷ read 512 ∷ lseek 512 true ∷ read 512 ∷ close ∷ []
unfolding threadseek seek_loop seekthenreadwrite choose_position align_position
thread_runs = refl

-- Both threads of `-t 2` meet the same.
abbrev two_threads : List Opt
two_threads = record { letter = b't'; optarg = b'2' ∷ [] } ∷ two_seeks

abbrev test : Test
test = record {
  settings = record parsed { numthreads = 2 };
  size = 8192;
  printed = (8, kilobytes);
  threads = let t = threadseek (record parsed { numthreads = 2 }) 8192 turns 3 in t ∷ t ∷ [];
}

main_runs : main digit digit two_threads true (some 8192) (λ i. turns) 3 ≡ some test
unfolding main getargs fold_options set_option prepare print_size start_threads
main_runs = refl

main_count_example :
    ◌≡◌ {A = ℕ} 2 2
    × ◌≤◌ 1 2
    × All (λ r. r.ends ≡ true) test.threads
    × (transferred test.threads ≡ 4)
    × ◌<◌ 0 (2 ^ 31)
main_count_example =
    main_count digit digit two_threads true (some 8192) (λ i. turns) 3 (omega arith) test main_runs
      (omega arith)

-- Without `-f` the program stops, and so it does for -w without the words.
refused_runs :
    (getargs digit digit [] ≡ none)
    × (getargs digit digit (record { letter = b'w'; optarg = name } ∷ two_seeks) ≡ none)
unfolding getargs fold_options set_option
refused_runs = (refl, refl)

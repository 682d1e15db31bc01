-- ===== src/Fiemap/Main/Tests.antt =====
-- The theorems of the whole program at that file, over three rounds.
use mathlib.Core.Option.{some-injective}
use testunion.Common.{
  inl, inr, ℕ, zero, suc, ◌≡◌, ◌↔◌, refl, arith, subst, sym, [], ◌∷◌, true, false, some, get_elem?,
  All, In, pos,
}
use testunion.Fiemap.Flags.Laws.{FitsU64, AllWellFlagged}
use testunion.Fiemap.Data.Laws.{IsBlocks, IsSorted}
use testunion.Fiemap.Compare.Letters.{IsRegular}
use testunion.Fiemap.Compare.Verdict.{IsShown}
use testunion.Fiemap.Create.{
  generate_file_mapping, generate_from, letter, create_file_from_mapping, create_blocks,
}
use testunion.Fiemap.Create.File.{Lays, empty_file, file_after, create_file-Lays}
use testunion.Fiemap.Main.{
  opt_r, opt_m, Setup, settings, parse, Round, stopped, mismatch, done, test_map, main,
}
use testunion.Fiemap.Main.Truth.{IsTruthful}
use testunion.Fiemap.Main.Honest.{IsHonest, Serves}
use testunion.Fiemap.Main.Found.{test_map-mismatch}
use testunion.Fiemap.Main.Whole.{main-done, main-map_done}
use testunion.Fiemap.Main.Sound.{AreChecked, main-AreChecked}
use testunion.Fiemap.Create.Laws.{IsLetter}
use testunion.Fiemap.Main.Sample.{
  linux_flags, kernel, dhp, dhp-created, file, file-Lays, sys, b512, regular, truth,
}

create_file-Lays_example : Lays 512 0 dhp file
create_file-Lays_example = create_file-Lays kernel 512 true dhp (omega arith) dhp-created

-- A round that makes the three blocks.
abbrev three_blocks : Round
three_blocks = record {
  random_blocks = 3;
  random_letter = λ i. i;
  random_piece = 1;
  map_memory = true;
  buffer_memory = true;
  kernel = kernel;
  sys = sys;
  truncates = true;
  seeks = true;
}

three_blocks-IsHonest : IsHonest linux_flags 512 true three_blocks
unfolding generate_file_mapping generate_from letter
three_blocks-IsHonest = record {
  map_memory = refl;
  buffer_memory = refl;
  memory = λ n. refl;
  truncates = refl;
  seeks = refl;
  obeys = record { writes = λ calls. refl; allocates = λ calls off. refl; seeks = λ calls. refl };
  truth = λ map e.
      subst
        (λ m.
          IsTruthful linux_flags 512
            (file_after (create_file_from_mapping kernel 512 true m).0 empty_file) sys)
        (some-injective _ _ e) (truth file file-Lays);
}

-- A three_blocks that draws no block.
abbrev idle : Round
idle = record three_blocks { random_blocks = 0; sys = record sys { fiemap = λ _ _ _. some [] } }

idle-IsHonest : IsHonest linux_flags 512 true idle
unfolding generate_file_mapping generate_from letter create_file_from_mapping create_blocks
    file_after
idle-IsHonest = record {
  map_memory = refl;
  buffer_memory = refl;
  memory = λ n. refl;
  truncates = refl;
  seeks = refl;
  obeys = three_blocks-IsHonest.obeys;
  truth = λ map e.
      subst
        (λ m.
          IsTruthful linux_flags 512
            (file_after (create_file_from_mapping kernel 512 true m).0 empty_file) idle.sys)
        (some-injective _ _ e)
        (record {
          answers = λ start len count. ([], refl);
          regular = λ start len count xs q.
              subst (λ l. All FitsU64 l × All (IsBlocks 512) l × IsSorted 512 l)
                (some-injective _ _ q) (tt, tt, tt);
          flagged = λ start len count xs q.
              subst (AllWellFlagged linux_flags 512) (some-injective _ _ q) tt;
          backs = λ start len count a xs k q room block lo hi used all.
              absurd (used (sym (all a (omega arith) (omega arith))));
          holes = λ start len count a xs x q free member held.
              absurd (subst (In x) (sym (some-injective _ _ q)) member);
        });
}

-- The second three_blocks is idle.
abbrev rounds : ℕ → Round
rounds zero = three_blocks
rounds (suc zero) = idle
rounds (suc (suc k)) = three_blocks

rounds-IsHonest : (k : ℕ) → IsHonest linux_flags 512 true (rounds k)
rounds-IsHonest zero = three_blocks-IsHonest
rounds-IsHonest (suc zero) = idle-IsHonest
rounds-IsHonest (suc (suc k)) = three_blocks-IsHonest

abbrev ready : Setup
ready = record { opens = true; blocksize = some 512; preallocates = true; truncates = true }

main-done_example : main linux_flags 32 56 (opt_r (pos 2) ∷ []) true ready 3 rounds ≡ done 2
unfolding settings parse
main-done_example =
    main-done linux_flags 32 56 512 (opt_r (pos 2) ∷ []) true ready rounds 3 1 refl refl refl refl
      refl b512 (omega arith) rounds-IsHonest (omega arith)

no_extents-IsRegular : IsRegular idle.sys 512
no_extents-IsRegular start len count xs q =
    subst (λ l. All FitsU64 l × All (IsBlocks 512) l × IsSorted 512 l) (some-injective _ _ q)
      (tt, tt, tt)

rounds-IsRegular : (k : ℕ) → IsRegular (rounds k).sys 512
rounds-IsRegular zero = regular
rounds-IsRegular (suc zero) = no_extents-IsRegular
rounds-IsRegular (suc (suc k)) = regular

ends_twice : main linux_flags 32 56 (opt_r (pos 2) ∷ []) true ready 3 rounds ≡ done 2
unfolding settings parse
ends_twice =
    main-done linux_flags 32 56 512 (opt_r (pos 2) ∷ []) true ready rounds 3 1 refl refl refl refl
      refl b512 (omega arith) rounds-IsHonest (omega arith)

main-AreChecked_example :
    ◌≡◌ {A = ℕ} 2 2 × ((m : ℕ) × AreChecked linux_flags 32 56 512 true rounds 0 m 2)
unfolding settings parse
main-AreChecked_example =
    main-AreChecked linux_flags 32 56 512 (opt_r (pos 2) ∷ []) true ready rounds 3 1 refl refl refl
      b512 rounds-IsRegular ends_twice

-- A FIEMAP that keeps the extents to itself.
abbrev secretive : Round
secretive = record three_blocks { sys = record sys { fiemap = λ _ _ _. some [] } }

test_map-mismatch_example :
    (test_map linux_flags 32 56 512 true secretive dhp false ≡ stopped mismatch)
    ↔ ¬ ((i a : ℕ) → get_elem? dhp i ≡ some a → IsShown linux_flags secretive.sys 512 dhp 2 i a)
test_map-mismatch_example =
    test_map-mismatch linux_flags 32 56 512 true secretive b'D' (b'H' ∷ b'P' ∷ []) false dhp-created
      b512 no_extents-IsRegular (omega arith) refl

dhp-Serves : Serves linux_flags 512 three_blocks dhp
dhp-Serves = record {
  buffer_memory = refl;
  memory = λ n. refl;
  truncates = refl;
  seeks = refl;
  obeys = three_blocks-IsHonest.obeys;
  truth = truth file file-Lays;
}

dhp-IsLetter : All (IsLetter true) dhp
dhp-IsLetter = (inl refl, (inr (inl refl), (inr (inr (refl, refl)), tt)))

main-map_done_example :
    main linux_flags 32 56 (opt_m dhp ∷ []) true ready 1 (λ _. three_blocks) ≡ done 1
unfolding settings parse
main-map_done_example =
    main-map_done linux_flags 32 56 512 (opt_m dhp ∷ []) true ready (λ _. three_blocks) 0 b'D'
      (b'H' ∷ b'P' ∷ []) refl refl refl refl refl b512 (omega arith) dhp-IsLetter dhp-Serves

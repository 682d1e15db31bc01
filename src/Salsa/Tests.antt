-- ===== src/Salsa/Tests.antt =====
-- The theorems of Salsa at the block of the numbers 1 to 16.
use testunion.Common.{ℕ, ◌≡◌, refl, List, [], ◌∷◌}
use testunion.Salsa.{Buffers, rotate, run_lines, salsa_scrambler, scrambler_lines, written}
use testunion.Salsa.Laws.{backwards, unscramble}
use testunion.Salsa.Stream.{texts, written_lem}

abbrev block : List ℕ
block = 1 ∷ 2 ∷ 3 ∷ 4 ∷ 5 ∷ 6 ∷ 7 ∷ 8 ∷ 9 ∷ 10 ∷ 11 ∷ 12 ∷ 13 ∷ 14 ∷ 15 ∷ 16 ∷ []

rotate_wraps : rotate 0x8000_0001 7 ≡ 0xc0
unfolding rotate
rotate_wraps = refl

unscramble_example : run_lines (salsa_scrambler block).0 (backwards scrambler_lines) ≡ block
unscramble_example = unscramble block refl

abbrev seeded : Buffers
seeded = record { input = block ∷ []; output = [] }

written_lem_example : written 3 seeded ≡ texts 3 (block ∷ [])
written_lem_example = written_lem 3 seeded

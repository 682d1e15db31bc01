-- ===== src/Salsa/Stream.antt =====
-- What the program writes: every round writes the scrambled text of the round before, although the
-- two buffers change places.
use testunion.Common.{ℕ, zero, suc, ◌≡◌, refl, ap, List, [], ◌∷◌, map}
use testunion.Salsa.{Buffers, salsa_scrambler, scramble_groups, write_round, written}

-- One group, scrambled.
abbrev pub scrambled : List ℕ → List ℕ
scrambled x = (salsa_scrambler x).0

-- The texts of `n` rounds from a seed.
abbrev pub texts : ℕ → List (List ℕ) → List (List (List ℕ))
texts zero seed = []
texts (suc n) seed = map scrambled seed ∷ texts n (map scrambled seed)

groups_lem :
    (xs : List (List ℕ))
    → scramble_groups xs ≡ record { input = map scrambled xs; output = map scrambled xs }
unfolding scramble_groups salsa_scrambler
groups_lem [] = refl
groups_lem (x ∷ xs) = rw (groups_lem xs)

-- The first n writes are the seed scrambled once, twice, and so on, whatever the second buffer held
-- at the start.
pub written_lem : (n : ℕ) (b : Buffers) → written n b ≡ texts n b.input
unfolding written write_round
written_lem zero b = refl
written_lem (suc n) b = rw (groups_lem b.input) (
    ap (λ t. map scrambled b.input ∷ t)
      (written_lem n (record { input = map scrambled b.input; output = map scrambled b.input })))

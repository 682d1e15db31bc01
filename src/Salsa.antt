-- ===== src/Salsa.antt =====
-- incoming/salsa_scrambler.c: a stream of pseudo-random bytes by one round of Salsa20, and the loop
-- that writes it.
pub mod Laws
pub mod Stream
mod Tests
use testunion.Common.{
  ℕ, zero, suc, ◌+◌, ◌-◌, ◌*◌, ◌/◌, ◌^◌, List, [], ◌∷◌, map, bit_or, bit_xor, u32, get_or, set,
}

-- The macro `R`, on `uint32_t`.
unfoldable pub rotate : ℕ → ℕ → ℕ
rotate a b = bit_or (u32 (a * 2 ^ b)) (a / 2 ^ (32 - b))

-- A line of the body, `x[target] ^= R(x[left] + x[right], shift)`.
pub record Line : Type 0 where
  pub target : ℕ
  pub left : ℕ
  pub right : ℕ
  pub shift : ℕ

unfoldable pub quarter_line : List ℕ → Line → List ℕ
quarter_line x l =
    set x l.target (
      bit_xor (get_or x l.target 0) (rotate (u32 (get_or x l.left 0 + get_or x l.right 0)) l.shift))

abbrev pub line : ℕ → ℕ → ℕ → ℕ → Line
line t a b k = record { target = t; left = a; right = b; shift = k }

-- The sixteen lines, in their order.
abbrev pub scrambler_lines : List Line
scrambler_lines =
    line 4 0 12 7
    ∷ line 8 4 0 9
    ∷ line 12 8 4 13
    ∷ line 0 12 8 18
    ∷ line 9 5 1 7
    ∷ line 13 9 5 9
    ∷ line 1 13 9 13
    ∷ line 5 1 13 18
    ∷ line 14 10 6 7
    ∷ line 2 14 10 9
    ∷ line 6 2 14 13
    ∷ line 10 6 2 18
    ∷ line 3 15 11 7
    ∷ line 7 3 15 9
    ∷ line 11 7 3 13
    ∷ line 15 11 7 18
    ∷ []

unfoldable pub run_lines : List ℕ → List Line → List ℕ
run_lines x [] = x
run_lines x (l ∷ ls) = run_lines (quarter_line x l) ls

-- The scrambler changes `x` in place and copies it to `out`: both hold the result.
unfoldable pub salsa_scrambler : List ℕ → List ℕ × List ℕ
salsa_scrambler x = let x' = run_lines x scrambler_lines in (x', x')

-- The buffers of `main`, as their groups of 16 words.
pub record Buffers : Type 0 where
  pub input : List (List ℕ)
  pub output : List (List ℕ)

unfoldable pub scramble_groups : List (List ℕ) → Buffers
scramble_groups [] = record { input = []; output = [] }
scramble_groups (x ∷ xs) =
    let (out, x') = salsa_scrambler x in
    let rest = scramble_groups xs in record { input = x' ∷ rest.input; output = out ∷ rest.output }

-- A round of `while (1)`: the buffer that is written, and the buffers after the swap.
unfoldable pub write_round : Buffers → List (List ℕ) × Buffers
write_round b =
    let r = scramble_groups b.input in (r.output, record { input = r.output; output = r.input })

-- What the first `n` rounds write.
unfoldable pub written : ℕ → Buffers → List (List (List ℕ))
written zero b = []
written (suc n) b = let (out, b') = write_round b in out ∷ written n b'

-- ===== src/Bits/Digits.antt =====
-- The native bit operations are recursions on binary digits with fuel. Each has one equation for
-- the lowest digit, in which the fuel is gone.
use Prim.Native.Nat.{
  min, max, digits, bitwise, bit_and-bitwise, bit_or-bitwise, bit_xor-bitwise, differ,
}
use testunion.Common.{
  ℕ, zero, suc, ◌+◌, ◌-◌, ◌*◌, ◌/◌, ◌%◌, ◌≤◌, bit_and, bit_or, bit_xor, ◌≡◌, refl, ◌∙◌, arith,
}

module _ (rest : ℕ → ℕ) (op : ℕ → ℕ → ℕ) where
  -- Fuel beyond the number itself changes nothing: a step of more fuel, then any amount.
  more_fuel : (n a b : ℕ) → a ≤ n → digits rest op (suc n) a b ≡ digits rest op n a b
  more_fuel zero zero b p = refl
  more_fuel zero (suc a) b p = absurd (omega arith)
  more_fuel (suc n) zero b p = refl
  more_fuel (suc n) (suc a) b p = omega (arith, more_fuel n (suc a / 2) (b / 2) (omega arith))

  enough_fuel : (k n a b : ℕ) → a + k ≡ n → digits rest op n a b ≡ digits rest op a a b
  enough_fuel zero n a b e = let e' : n ≡ a = omega arith in rw e'
  enough_fuel (suc k) zero a b e = absurd (omega arith)
  enough_fuel (suc k) (suc n) a b e =
      more_fuel n a b (omega arith) ∙ enough_fuel k n a b (omega arith)

  lowest_digit :
      (a b : ℕ)
      → bitwise rest op (suc a) b ≡ bitwise rest op (suc a / 2) (b / 2) * 2 + op (suc a % 2) (b % 2)
  lowest_digit a b = omega (arith, enough_fuel (a - suc a / 2) a (suc a / 2) (b / 2) (omega arith))

pub bit_and_digit : (a b : ℕ) → bit_and a b ≡ bit_and (a / 2) (b / 2) * 2 + min (a % 2) (b % 2)
bit_and_digit zero b = simp bit_and-bitwise (omega arith)
bit_and_digit (suc a) b = simp bit_and-bitwise (lowest_digit (λ _. 0) min a b)

pub bit_or_digit : (a b : ℕ) → bit_or a b ≡ bit_or (a / 2) (b / 2) * 2 + max (a % 2) (b % 2)
bit_or_digit zero b = simp bit_or-bitwise (omega arith)
bit_or_digit (suc a) b = simp bit_or-bitwise (lowest_digit (λ y. y) max a b)

pub bit_xor_digit : (a b : ℕ) → bit_xor a b ≡ bit_xor (a / 2) (b / 2) * 2 + differ (a % 2) (b % 2)
bit_xor_digit zero b = simp bit_xor-bitwise (omega arith)
bit_xor_digit (suc a) b = simp bit_xor-bitwise (lowest_digit (λ y. y) differ a b)

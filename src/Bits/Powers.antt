-- ===== src/Bits/Powers.antt =====
-- Masks of a power of two: `~(a - 1)` clears the low bits of a word.
use native.Mathlib.Nat.{pow-le-pow_right, one-le-pow, mod-add-div', mul-mod_left}
use testunion.Common.{ℕ, ◌+◌, ◌-◌, ◌*◌, ◌/◌, ◌%◌, ◌^◌, ◌≤◌, ◌<◌, ◌≡◌, arith, bit_and, not64}
use testunion.Bits.{bit_and_high_mask}

pub record IsPowerOfTwo (a : ℕ) : Type 0 where
  pub exponent : ℕ
  pub is_pow : a ≡ 2 ^ exponent
  pub small : exponent < 63

pub clear_low : {x a : ℕ} → x < 2 ^ 64 → IsPowerOfTwo a → bit_and x (not64 (a - 1)) ≡ x - x % a
clear_low {x} {a} h p =
    let k : ℕ = p.exponent in
    let width : k + (64 - k) ≡ 64 = omega (arith, p.small) in
    let positive : 1 ≤ 2 ^ k = one-le-pow k 2 (omega arith) in
    let bounded : 2 ^ k ≤ 2 ^ 62 =
      pow-le-pow_right {n = 2} (omega arith) {j = 62} (omega (arith, p.small)) in
    let mask : not64 (2 ^ k - 1) ≡ 2 ^ (k + (64 - k)) - 2 ^ k =
      rw width (omega (arith, positive, bounded)) in
    let x_fits : x < 2 ^ (k + (64 - k)) = rw width h in
    rw (p.is_pow, mask) (bit_and_high_mask k (64 - k) x x_fits)

pub sub-mod_multiple : (x a : ℕ) → (x - x % a) % a ≡ 0
sub-mod_multiple x a =
    let e : x - x % a ≡ x / a * a = omega (arith, mod-add-div' x a) in rw e (mul-mod_left (x / a) a)

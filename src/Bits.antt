-- ===== src/Bits.antt =====
-- The bits of a word, and what `&`, `|`, `^` and `~` of the C code do to each of them.
mod Digits
pub mod Powers
use Prim.Native.Nat.{min, max, differ}
use native.Mathlib.Nat.{
  pow-suc, one-le-pow, div-div-eq-div-mul, mod-add-div', mul_comm, mod-eq_of_lt,
}
use testunion.Common.{
  ℕ, zero, suc, ◌+◌, ◌-◌, ◌*◌, ◌/◌, ◌%◌, ◌^◌, ◌≤◌, ◌<◌, bit_and, bit_or, bit_xor, ◌≡◌, refl, ap,
  arith, ◌==◌, if◌then◌else◌, has, Bool,
}
use Digits.{bit_and_digit, bit_or_digit, bit_xor_digit}

-- Bit `k` of a number, as 0 or 1.
pub bit : ℕ → ℕ → ℕ
bit x zero = x % 2
bit x (suc k) = bit (x / 2) k

pub bit-le : (x k : ℕ) → bit x k ≤ 1
unfolding bit
bit-le x zero = omega arith
bit-le x (suc k) = bit-le (x / 2) k

pub bit-zero : (k : ℕ) → bit 0 k ≡ 0
unfolding bit
bit-zero zero = refl
bit-zero (suc k) = bit-zero k

-- Bits of the results of the C operators.
pub bit-bit_and : (k a b : ℕ) → bit (bit_and a b) k ≡ min (bit a k) (bit b k)
unfolding bit
bit-bit_and zero a b = omega (arith, bit_and_digit a b)
bit-bit_and (suc k) a b =
    let half : bit_and a b / 2 ≡ bit_and (a / 2) (b / 2) = omega (arith, bit_and_digit a b) in
    rw half (bit-bit_and k (a / 2) (b / 2))

pub bit-bit_or : (k a b : ℕ) → bit (bit_or a b) k ≡ max (bit a k) (bit b k)
unfolding bit
bit-bit_or zero a b = omega (arith, bit_or_digit a b)
bit-bit_or (suc k) a b =
    let half : bit_or a b / 2 ≡ bit_or (a / 2) (b / 2) = omega (arith, bit_or_digit a b) in
    rw half (bit-bit_or k (a / 2) (b / 2))

differ-le : (a b : ℕ) → a ≤ 1 → b ≤ 1 → differ a b ≤ 1
differ-le zero b p q = q
differ-le (suc a) zero p q = p
differ-le (suc a) (suc b) p q = differ-le a b (omega arith) (omega arith)

digit-le : (a b : ℕ) → differ (a % 2) (b % 2) ≤ 1
digit-le a b = differ-le (a % 2) (b % 2) (omega arith) (omega arith)

pub bit-bit_xor : (k a b : ℕ) → bit (bit_xor a b) k ≡ differ (bit a k) (bit b k)
unfolding bit
bit-bit_xor zero a b = omega (arith, bit_xor_digit a b, digit-le a b)
bit-bit_xor (suc k) a b =
    let half : bit_xor a b / 2 ≡ bit_xor (a / 2) (b / 2) =
      omega (arith, bit_xor_digit a b, digit-le a b) in
    rw half (bit-bit_xor k (a / 2) (b / 2))

-- Two numbers with the same bits are equal.
bit_ext_fuel : (n x y : ℕ) → x ≤ n → y ≤ n → ((k : ℕ) → bit x k ≡ bit y k) → x ≡ y
unfolding bit
bit_ext_fuel zero x y hx hy h = omega arith
bit_ext_fuel (suc n) x y hx hy h =
    omega (arith, h 0, bit_ext_fuel n (x / 2) (y / 2) (omega arith) (omega arith) (λ k. h (suc k)))

pub bit_ext : (x y : ℕ) → ((k : ℕ) → bit x k ≡ bit y k) → x ≡ y
bit_ext x y h = bit_ext_fuel (x + y) x y (omega arith) (omega arith) h

bit_and-zero : (x : ℕ) → bit_and x 0 ≡ 0
bit_and-zero x = bit_ext (bit_and x 0) 0 (λ k. omega (arith, bit-bit_and k x 0, bit-zero k))

mod-pow-suc : (k x : ℕ) → x % 2 ^ suc k ≡ x / 2 % 2 ^ k * 2 + x % 2
mod-pow-suc k x = omega (
  arith,
  mod-add-div' x (2 ^ suc k),
  mod-add-div' (x / 2) (2 ^ k),
  ap (λ (t : ℕ). x / t * t) (pow-suc 2 k),
  ap (λ (t : ℕ). x / t * t) (mul_comm (2 ^ k) 2),
  ap (λ (t : ℕ). t * (2 * 2 ^ k)) (div-div-eq-div-mul x 2 (2 ^ k)),
)

-- A mask of one bit.
pub bit_and-pow : (k x : ℕ) → bit_and x (2 ^ k) ≡ bit x k * 2 ^ k
unfolding bit
bit_and-pow zero x = omega (arith, bit_and_digit x 1, bit_and-zero (x / 2))
bit_and-pow (suc k) x =
    let half : 2 ^ suc k / 2 ≡ 2 ^ k = omega (arith, pow-suc 2 k) in
    let step : bit_and x (2 ^ suc k) ≡ bit_and (x / 2) (2 ^ k) * 2 =
      rw (← half) (omega (arith, bit_and_digit x (2 ^ suc k), pow-suc 2 k)) in
    omega (arith, step, bit_and-pow k (x / 2), ap (λ (t : ℕ). bit (x / 2) k * t) (pow-suc 2 k))

-- A mask of `m` low bits.
pub bit_and_low_mask : (m x : ℕ) → bit_and x (2 ^ m - 1) ≡ x % 2 ^ m
bit_and_low_mask zero x = omega (arith, bit_and-zero x)
bit_and_low_mask (suc m) x =
    let half : (2 ^ suc m - 1) / 2 ≡ 2 ^ m - 1 = omega (arith, pow-suc 2 m, one-le-pow m 2) in
    let step : bit_and x (2 ^ suc m - 1) ≡ bit_and (x / 2) (2 ^ m - 1) * 2 + x % 2 =
      rw (← half) (omega (arith, bit_and_digit x (2 ^ suc m - 1), pow-suc 2 m, one-le-pow m 2)) in
    omega (arith, step, bit_and_low_mask m (x / 2), mod-pow-suc m x)

-- `x & ~(2 ^ k - 1)` clears the `k` low bits.
pub bit_and_high_mask :
    (k m x : ℕ) → x < 2 ^ (k + m) → bit_and x (2 ^ (k + m) - 2 ^ k) ≡ x - x % 2 ^ k
bit_and_high_mask zero m x h =
    let e : 0 + m ≡ m = omega arith in
    let small : x % 2 ^ m ≡ x = mod-eq_of_lt (rw e at h) in
    rw e (omega (arith, bit_and_low_mask m x, small))
bit_and_high_mask (suc k) m x h =
    let e : suc k + m ≡ suc (k + m) = omega arith in
    let half : (2 ^ suc (k + m) - 2 ^ suc k) / 2 ≡ 2 ^ (k + m) - 2 ^ k =
      omega (arith, pow-suc 2 (k + m), pow-suc 2 k) in
    let small : x < 2 ^ suc (k + m) = rw e at h in
    let step : bit_and x (2 ^ suc (k + m) - 2 ^ suc k) ≡ bit_and (x / 2) (2 ^ (k + m) - 2 ^ k) * 2 =
      rw (← half) (
        omega
          (arith, bit_and_digit x (2 ^ suc (k + m) - 2 ^ suc k), pow-suc 2 (k + m), pow-suc 2 k)) in
    rw e (
      omega (
        arith,
        step,
        bit_and_high_mask k m (x / 2) (omega (arith, pow-suc 2 (k + m))),
        mod-pow-suc k x,
      ))

-- The operators stay within a width.
pub bit_or-lt : (n a b : ℕ) → a < 2 ^ n → b < 2 ^ n → bit_or a b < 2 ^ n
bit_or-lt zero a b ha hb =
    let za : a ≡ 0 = omega arith in let zb : b ≡ 0 = omega arith in rw (za, zb) (omega arith)
bit_or-lt (suc n) a b ha hb =
    let half =
      bit_or-lt n (a / 2) (b / 2) (omega (arith, pow-suc 2 n)) (omega (arith, pow-suc 2 n)) in
    omega (arith, bit_or_digit a b, pow-suc 2 n, half)

-- A test of one bit in a condition.
pub has-pow : (k x : ℕ) → has x (2 ^ k) ≡ (bit x k == 1)
has-pow k x = ground (arith, bit_and-pow k x, bit-le x k, one-le-pow k 2)

-- Exclusive or is its own inverse.
differ_self : (b : ℕ) → differ b b ≡ 0
differ_self zero = refl
differ_self (suc b) = differ_self b

differ-differ : (a b : ℕ) → a ≤ 1 → b ≤ 1 → differ (differ a b) b ≡ a
differ-differ zero zero p q = refl
differ-differ zero (suc b) p q = differ_self b
differ-differ (suc a) zero p q = refl
differ-differ (suc zero) (suc zero) p q = refl
differ-differ (suc zero) (suc (suc b)) p q = absurd (omega arith)
differ-differ (suc (suc a)) (suc b) p q = absurd (omega arith)

pub bit_xor_cancel : (a b : ℕ) → bit_xor (bit_xor a b) b ≡ a
bit_xor_cancel a b =
    bit_ext (bit_xor (bit_xor a b) b) a λ k.
      rw (bit-bit_xor, bit-bit_xor) (differ-differ (bit a k) (bit b k) (bit-le a k) (bit-le b k))

-- Bit `k` of the complement of a word of `n` bits.
pub bit-complement : (n u k : ℕ) → u < 2 ^ n → k < n → bit (2 ^ n - 1 - u) k ≡ 1 - bit u k
unfolding bit
bit-complement zero u k h l = absurd (omega arith)
bit-complement (suc n) u zero h l = omega (arith, pow-suc 2 n)
bit-complement (suc n) u (suc k) h l =
    let half : (2 ^ suc n - 1 - u) / 2 ≡ 2 ^ n - 1 - u / 2 = omega (arith, pow-suc 2 n) in
    rw half (bit-complement n (u / 2) k (omega (arith, pow-suc 2 n)) (omega arith))

-- Bit `k` of a power of two.
pub bit-power : (k n : ℕ) → bit (2 ^ n) k ≡ (if k == n then 1 else 0)
unfolding bit
bit-power zero zero = refl
bit-power zero (suc n) = ground (arith, pow-suc 2 n)
bit-power (suc k) zero = ground (arith, bit-zero k)
bit-power (suc k) (suc n) =
    let half : 2 ^ suc n / 2 ≡ 2 ^ n = omega (arith, pow-suc 2 n) in
    rw half (ground (arith, bit-power k n))

-- ===== src/CreatUnlink/Time.antt =====
-- `account_time`: how long the calls took, in whole numbers up to the printing.
use testunion.Common.{
  ℕ, zero, suc, ◌+◌, ◌-◌, ◌*◌, ◌≤◌, ◌<◌, ◌≡◌, arith, if◌then◌else◌, ◌==◌, ltb, Option, none, some,
  ℤ, pos, negsuc, sub_ℕ, pred_ℤ, Bool-cases, inl, inr,
}

-- `struct timeval`, as `gettimeofday` fills it.
pub record Timeval : Type 0 where
  pub tv_sec : ℕ
  pub tv_usec : ℕ

-- What is printed: an error of `gettimeofday`, that there were no files, or seconds and microseconds
-- for a number of files.
pub data Account : Type 0 where
  no_end_time no_files : Account
  took : ℤ → ℕ → ℕ → Account

-- `tv_sec++`, and `tv_sec` less the seconds of the start.
abbrev pub suc_ℤ : ℤ → ℤ
suc_ℤ (pos n) = pos (suc n)
suc_ℤ (negsuc zero) = pos zero
suc_ℤ (negsuc (suc n)) = negsuc n

abbrev pub minus_ℕ : ℤ → ℕ → ℤ
minus_ℕ (pos n) m = sub_ℕ n m
minus_ℕ (negsuc n) m = negsuc (n + m)

-- The two loops; `none` means that the fuel ran out.
unfoldable pub borrow : ℕ → ℤ → ℕ → ℕ → Option (ℤ × ℕ)
borrow zero sec usec start = none
borrow (suc fuel) sec usec start =
    let rest = borrow fuel (pred_ℤ sec) (usec + 1000000) start in
    if ltb usec start then rest else some (sec, usec)

unfoldable pub carry : ℕ → ℤ → ℕ → Option (ℤ × ℕ)
carry zero sec usec = none
carry (suc fuel) sec usec =
    let rest = carry fuel (suc_ℤ sec) (usec - 1000000) in
    if ltb 1000000 usec then rest else some (sec, usec)

-- `etv` is `none` where `gettimeofday` fails.
unfoldable pub account_time : ℕ → Timeval → Option Timeval → ℕ → Option Account
account_time fuel stv none files = some no_end_time
account_time fuel stv (some etv) files =
    if files == 0
    then some no_files
    else elim (borrow fuel (pos etv.tv_sec) etv.tv_usec stv.tv_usec) [
      | none ↦ none
      | some (sec, usec) ↦ elim (carry fuel (minus_ℕ sec stv.tv_sec) (usec - stv.tv_usec)) [
        | none ↦ none
        | some (s, u) ↦ some (took s u files)
      ]
    ]

-- What POSIX says of a time.
abbrev pub IsTime : Timeval → Type 0
IsTime t = t.tv_usec < 1000000

abbrev pub micros : Timeval → ℕ
micros t = t.tv_sec * 1000000 + t.tv_usec

-- For times with less than 1000000 microseconds, an end that is not before the start, at least one
-- file and fuel of 2 or more, account_time reports, in seconds and less than 1000000 microseconds,
-- exactly the time between the two.
pub account_time_lem :
    (fuel : ℕ) (stv etv : Timeval) (files : ℕ)
    → 2 ≤ fuel
    → IsTime stv
    → IsTime etv
    → micros stv ≤ micros etv
    → 0 < files
    → (s : ℕ) × (u : ℕ) × (account_time fuel stv (some etv) files ≡ some (took (pos s) u files))
      × (u < 1000000)
      × (micros stv + (s * 1000000 + u) ≡ micros etv)
unfolding account_time borrow carry
account_time_lem zero stv etv files f h k le some_files = absurd (omega arith)
account_time_lem (suc zero) stv etv files f h k le some_files = absurd (omega arith)
account_time_lem (suc (suc fuel)) stv etv files f h k le some_files =
    elim (Bool-cases (ltb etv.tv_usec stv.tv_usec)) [
      | inr e ↦ (
        etv.tv_sec - stv.tv_sec,
        etv.tv_usec - stv.tv_usec,
        ground arith,
        omega (arith, k),
        ground arith,
      )
      | inl e ↦ (
        etv.tv_sec - 1 - stv.tv_sec,
        etv.tv_usec + 1000000 - stv.tv_usec,
        ground arith,
        ground arith,
        ground arith,
      )
    ]

-- ===== src/Checksum/Places.antt =====
-- Where the writes go: `get_randnum`, `get_randnum_align` and the arithmetic before `msync`.
use testunion.Common.{ℕ, ◌+◌, ◌-◌, ◌^◌, bit_and, Bool, if◌then◌else◌, u64, not64, u32, extend}

-- The argument `part` stands for the product of floating point numbers: `part d` is what
-- `(uint64_t) ((double) d * (rand() / (RAND_MAX + 1.0)))` gives in this call.
unfoldable pub get_randnum : (ℕ → ℕ) → ℕ → ℕ → ℕ
get_randnum part min max = u64 (min + part (u64 (max + 2 ^ 64 - min)))

unfoldable pub get_randnum_align : (ℕ → ℕ) → ℕ → ℕ → ℕ → ℕ
get_randnum_align part min max align =
    bit_and (u64 (min + part (u64 (max + 2 ^ 64 - min)))) (not64 (u64 (align + 2 ^ 64 - 1)))

-- The place of a write: an offset in the file and a length. The `int len` is given as the 64 bits that
-- it is extended to where it is used.
pub record Place : Type 0 where
  pub offset : ℕ
  pub len : ℕ

-- The first part of both loops. `printed` is the length that `snprintf` returned. In `len = bufsize` an
-- `int` is given the 32 bits of a `uint32_t`.
unfoldable pub choose_place : (ℕ → ℕ) → Bool → ℕ → ℕ → ℕ → Place
choose_place part direct bufsize file_size printed =
    if direct
    then record {
      offset = get_randnum_align part 0 (u64 (file_size + 2 ^ 64 - extend bufsize)) bufsize;
      len = extend bufsize;
    }
    else record { offset = get_randnum part 0 (u64 (file_size + 2 ^ 64 - printed)); len = printed }

-- `len += offset & (page_size - 1); offset &= ~(page_size - 1);`
unfoldable pub whole_pages : ℕ → Place → Place
whole_pages page_size p = record {
  offset = bit_and p.offset (not64 (page_size - 1));
  len = extend (u32 (p.len + bit_and p.offset (page_size - 1)));
}

-- ===== src/Checksum/Bounds.antt =====
-- Where a write lies, and which pages are flushed after it.
use mathlib.Core.Bool.{false≢true}
use native.Mathlib.Nat.{pow-le-pow_right, one-le-pow, mod-le, mod-lt}
use testunion.Common.{
  ℕ, ◌+◌, ◌-◌, ◌%◌, ◌^◌, ◌≤◌, ◌<◌, ◌≡◌, inl, inr, Bool-cases, arith, true, bit_and, u64, not64, u32,
  extend,
}
use testunion.Bits.{bit_and_low_mask}
use testunion.Bits.Powers.{IsPowerOfTwo, clear_low, sub-mod_multiple}
use testunion.Checksum.Places.{get_randnum, get_randnum_align, Place, choose_place, whole_pages}
use testunion.Checksum.Loops.{Turn, Job}

-- The product with a number below 1 does not exceed its other factor; this holds of `double` up to
-- 2 ^ 53, where the conversion is exact.
abbrev pub IsPart : (ℕ → ℕ) → Type 0
IsPart part = (d : ℕ) → d < 2 ^ 53 → part d ≤ d

-- `get_randnum` lies in its range.
get_randnum_bounds :
    (part : ℕ → ℕ) (min max : ℕ)
    → IsPart part
    → min ≤ max
    → max < 2 ^ 53
    → (min ≤ get_randnum part min max) × (get_randnum part min max ≤ max)
unfolding get_randnum
get_randnum_bounds part min max h le small =
    let d : u64 (max + 2 ^ 64 - min) ≡ max - min = omega arith in
    let below : part (max - min) ≤ max - min = h (max - min) (omega arith) in rw d (omega arith)

-- From 0 on, `get_randnum_align` lies in its range and on a multiple of the alignment.
get_randnum_align_bounds :
    (part : ℕ → ℕ) (max align : ℕ)
    → IsPart part
    → max < 2 ^ 53
    → IsPowerOfTwo align
    → (get_randnum_align part 0 max align ≤ max) × (get_randnum_align part 0 max align % align ≡ 0)
unfolding get_randnum_align
get_randnum_align_bounds part max align h small p =
    let positive : 1 ≤ align = rw p.is_pow (one-le-pow p.exponent 2 (omega arith)) in
    let bounded : align ≤ 2 ^ 62 =
      rw p.is_pow (pow-le-pow_right {n = 2} (omega arith) {j = 62} (omega (arith, p.small))) in
    let d : u64 (max + 2 ^ 64 - 0) ≡ max = omega arith in
    let below : part max ≤ max = h max small in
    let x : u64 (0 + part max) ≡ part max = omega arith in
    let mask : u64 (align + 2 ^ 64 - 1) ≡ align - 1 = omega arith in
    let low : bit_and (part max) (not64 (align - 1)) ≡ part max - part max % align =
      clear_low (omega arith) p in
    rw (d, x, mask, low) (omega arith, sub-mod_multiple (part max) align)

-- What makes a call of the loops sound: texts that fit the file, and for direct access a block
-- size that is a power of two and fits too. Both have at most 2^30 bytes.
pub record IsSound (job : Job) (t : Turn) : Type 0 where
  pub part_law : IsPart t.part
  pub small : job.file_size < 2 ^ 53
  pub text_fits : t.printed ≤ job.file_size
  pub text_short : t.printed ≤ 2 ^ 30
  pub direct_fits :
      job.direct ≡ true
      → IsPowerOfTwo job.bufsize × (job.bufsize ≤ job.file_size) × (job.bufsize ≤ 2 ^ 30)

abbrev pub place_of : Job → Turn → Place
place_of job t = choose_place t.part job.direct job.bufsize job.file_size t.printed

-- If the text fits the file, the file is below 2^53 bytes, and with O_DIRECT the buffer size is a
-- power of two that fits the file, and neither text nor buffer is above 2^30 bytes, a write lies
-- inside the file, has at most 2^30 bytes, and with O_DIRECT starts on a multiple of the buffer size.
pub choose_place_lem :
    (job : Job) (t : Turn)
    → IsSound job t
    → ((place_of job t).offset + (place_of job t).len ≤ job.file_size)
      × ((place_of job t).len ≤ 2 ^ 30)
      × (job.direct ≡ true → (place_of job t).offset % job.bufsize ≡ 0)
unfolding choose_place
choose_place_lem job t s = elim (Bool-cases job.direct) [
  | inl d ↦
      let (p, fits, short) = s.direct_fits d in
      let same : extend job.bufsize ≡ job.bufsize = ground arith in
      let room : u64 (job.file_size + 2 ^ 64 - job.bufsize) ≡ job.file_size - job.bufsize =
        omega (arith, s.small) in
      let (low, aligned) =
        get_randnum_align_bounds t.part (job.file_size - job.bufsize) job.bufsize s.part_law
          (omega (arith, s.small)) p in
      rw (d, same, room) (omega arith, short, λ _. aligned)
  | inr d ↦
      let room : u64 (job.file_size + 2 ^ 64 - t.printed) ≡ job.file_size - t.printed =
        omega (arith, s.small, s.text_fits) in
      let inside =
        get_randnum_bounds t.part 0 (job.file_size - t.printed) s.part_law (omega arith)
          (omega (arith, s.small)) in
      rw (d, room) (omega (arith, inside.1, s.text_fits), s.text_short, λ h. absurd (false≢true h))
]

-- For pages of a power of two and a text that starts within 64 bits and is with a page not above 2^31
-- bytes, msync is given a range that
-- starts on the page where the text starts and ends where the text ends.
pub whole_pages_lem :
    (page_size : ℕ) (p : Place)
    → IsPowerOfTwo page_size
    → p.offset < 2 ^ 64
    → p.len + page_size ≤ 2 ^ 31
    → let q = whole_pages page_size p in
      (q.offset % page_size ≡ 0)
      × (q.offset ≤ p.offset)
      × (p.offset < q.offset + page_size)
      × (q.offset + q.len ≡ p.offset + p.len)
unfolding whole_pages
whole_pages_lem page_size p h small short =
    let high : bit_and p.offset (not64 (page_size - 1)) ≡ p.offset - p.offset % page_size =
      clear_low small h in
    let low : bit_and p.offset (page_size - 1) ≡ p.offset % page_size =
      rw h.is_pow (bit_and_low_mask h.exponent p.offset) in
    let positive : 1 ≤ page_size = rw h.is_pow (one-le-pow h.exponent 2 (omega arith)) in
    let rest = mod-lt p.offset positive in
    let len : extend (u32 (p.len + p.offset % page_size)) ≡ p.len + p.offset % page_size =
      ground arith in
    rw (high, low, len)
      (
        sub-mod_multiple p.offset page_size,
        omega arith,
        omega (arith, mod-lt p.offset positive),
        omega (arith, mod-le p.offset page_size),
      )

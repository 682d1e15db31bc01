-- ===== src/InodeFlags/Laws.antt =====
-- Both programs change one bit of the flags, and none if anything fails before.
use testunion.Common.{
  ℕ, ◌≤◌, ◌<◌, ◌^◌, ◌≡◌, ◌↔◌, ◌⊎◌, inl, inr, refl, arith, List, [], ◌∷◌, Bool, true, false, Option,
  none, some, ltb, bit_or, ltb→lt, Bool-cases, ◌==◌,
}
use testunion.Bits.{bit, bit-le, bit-bit_or, bit-power, has-pow}
use testunion.InodeFlags.{Report, report, Run, add_flag, nocow, nocomp, stop}

-- Bit `n` is added, and no other changes.
abbrev pub Adds : ℕ → ℕ → ℕ → Type 0
Adds n f w = (k : ℕ) → (bit w k ≡ 1) ↔ ((bit f k ≡ 1) ⊎ (k ≡ n))

-- The reports of the bits of NOCOW, NOCOMP and COMPR, with what is said of each.
abbrev pub reports_of : Bool → Bool → Bool → List Report
reports_of nocow_on nocomp_on compr_on =
    report (2 ^ 23) nocow_on ∷ report (2 ^ 10) nocomp_on ∷ report (2 ^ 2) compr_on ∷ []

-- A run that adds bit `n` and says `said f` of the flags `f`: either nothing is reported or written
-- and the status is 1, since there is no argument, or the file does not open or give its flags; or
-- the reports are made, the flags are written with bit `n`, and the status is 0 if they are
-- accepted.
abbrev pub DoesAdd : ℕ → (ℕ → List Report) → ℕ → Bool → Option ℕ → (ℕ → Bool) → Run → Type 0
DoesAdd n said argc opens flags accepts r =
    ((r.reports ≡ [])
      × (r.written ≡ none)
      × (r.status ≡ 1)
      × ((argc < 2) ⊎ (opens ≡ false) ⊎ (flags ≡ none)))
    ⊎ ((f : ℕ) × (w : ℕ) × (2 ≤ argc)
        × (opens ≡ true)
        × (flags ≡ some f)
        × (r.reports ≡ said f)
        × (r.written ≡ some w)
        × Adds n f w
        × ((r.status ≡ 0) ↔ (accepts w ≡ true)))

bit_or-power : (n f : ℕ) → Adds n f (bit_or f (2 ^ n))
bit_or-power n f k = let small = bit-le f k in ground (arith, bit-bit_or k f (2 ^ n), bit-power k n)

-- What nocow.c says, which is true, and what nocomp.c says, which does not look at the flags.
abbrev pub nocow_says : ℕ → List Report
nocow_says f = reports_of (bit f 23 == 1) (bit f 10 == 1) (bit f 2 == 1)

abbrev pub nocomp_says : ℕ → List Report
nocomp_says f = reports_of true true true

nocow-DoesAdd :
    (argc : ℕ) (opens : Bool) (flags : Option ℕ) (accepts : ℕ → Bool)
    → DoesAdd 23 nocow_says argc opens flags accepts (nocow argc opens flags accepts)
unfolding nocow add_flag
nocow-DoesAdd argc opens none accepts =
    let e : nocow argc opens none accepts ≡ stop = ground arith in
    rw (e, stop) (inl (refl, refl, refl, inr (inr refl)))
nocow-DoesAdd argc false (some f) accepts =
    let e : nocow argc false (some f) accepts ≡ stop = ground arith in
    rw (e, stop) (inl (refl, refl, refl, inr (inl refl)))
nocow-DoesAdd argc true (some f) accepts = elim (Bool-cases (ltb argc 2)) [
  | inl few ↦ rw few (inl (refl, refl, refl, inl (ltb→lt argc 2 few)))
  | inr many ↦
      let enough : 2 ≤ argc = ground arith in
      let a = has-pow 23 f in
      let b = has-pow 10 f in
      let c = has-pow 2 f in
      rw (many, a, b, c)
        (inr (
          f,
          bit_or f (2 ^ 23),
          enough,
          refl,
          refl,
          refl,
          refl,
          bit_or-power 23 f,
          (λ z. ground arith, λ w. ground arith),
        ))
]

nocomp-DoesAdd :
    (argc : ℕ) (opens : Bool) (flags : Option ℕ) (accepts : ℕ → Bool)
    → DoesAdd 10 nocomp_says argc opens flags accepts (nocomp argc opens flags accepts)
unfolding nocomp add_flag
nocomp-DoesAdd argc opens none accepts =
    let e : nocomp argc opens none accepts ≡ stop = ground arith in
    rw (e, stop) (inl (refl, refl, refl, inr (inr refl)))
nocomp-DoesAdd argc false (some f) accepts =
    let e : nocomp argc false (some f) accepts ≡ stop = ground arith in
    rw (e, stop) (inl (refl, refl, refl, inr (inl refl)))
nocomp-DoesAdd argc true (some f) accepts = elim (Bool-cases (ltb argc 2)) [
  | inl few ↦ rw few (inl (refl, refl, refl, inl (ltb→lt argc 2 few)))
  | inr many ↦
      let enough : 2 ≤ argc = ground arith in
      rw many (
        inr (
          f,
          bit_or f (2 ^ 10),
          enough,
          refl,
          refl,
          ground arith,
          refl,
          bit_or-power 10 f,
          (λ z. ground arith, λ w. ground arith),
        ))
]

-- If there is an argument and the file opens and gives its flags, nocow.c reports of NOCOW, NOCOMP
-- and COMPR, in this order, whether they are set, writes the flags with bit 23 added and no other
-- changed, and ends with status 0 exactly if they are accepted; otherwise it reports and writes
-- nothing and ends with status 1; nocomp.c does the same with bit 10, but reports each flag as set.
pub inode_flags_lem :
    (argc : ℕ) (opens : Bool) (flags : Option ℕ) (accepts : ℕ → Bool)
    → DoesAdd 23 nocow_says argc opens flags accepts (nocow argc opens flags accepts)
      × DoesAdd 10 nocomp_says argc opens flags accepts (nocomp argc opens flags accepts)
inode_flags_lem argc opens flags accepts =
    (nocow-DoesAdd argc opens flags accepts, nocomp-DoesAdd argc opens flags accepts)

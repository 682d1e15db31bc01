-- ===== src/SlowRm/Laws.antt =====
-- The program leaves no name behind from round to round, and stops only at a call that fails.
use testunion.Common.{
  ℕ, zero, suc, ◌+◌, ◌≤◌, ◌≡◌, refl, arith, [], ◌∷◌, Bool-cases, inl, inr, subst,
}
use testunion.SlowRm.{
  size, Call, open_file, mmap, munmap, sync_file_range, unlink, ftruncate, close, dot, fallocate,
  memset, did, failed, Trace, Kernel, Run, going, exited, killed, and_then, try, store, ignore,
  hammer, rounds, main,
}

-- How many files were created, truncated and unlinked.
abbrev pub created : Trace → ℕ
created [] = 0
created (did open_file ∷ t) = suc (created t)
created (e ∷ t) = created t

abbrev pub unlinked : Trace → ℕ
unlinked [] = 0
unlinked (did unlink ∷ t) = suc (unlinked t)
unlinked (e ∷ t) = unlinked t

abbrev pub truncated : Trace → ℕ
truncated [] = 0
truncated (did ftruncate ∷ t) = suc (truncated t)
truncated (e ∷ t) = truncated t

-- The latest call failed.
abbrev pub EndsWithFailure : Trace → Type 0
EndsWithFailure [] = ⊥
EndsWithFailure (did call ∷ t) = ⊥
EndsWithFailure (failed call ∷ t) = Unit

-- What is left when the program ends: its name at most.
abbrev pub IsOver : Trace → Type 0
IsOver t = EndsWithFailure t × (created t ≤ suc (unlinked t)) × (unlinked t ≤ created t)

-- Where a run stands, with exact counts while it goes on.
abbrev pub Stands : ℕ → ℕ → ℕ → Run → Type 0
Stands c u r (going t) = (created t ≡ c) × (unlinked t ≡ u) × (truncated t ≡ r)
Stands c u r (exited t status) = (status ≡ 1) × IsOver t
Stands c u r (killed t) = IsOver t

Stands-and_then :
    (c u r c' u' r' : ℕ) (m : Run) (f : Trace → Run)
    → Stands c u r m
    → ((t : Trace) → Stands c u r (going t) → Stands c' u' r' (f t))
    → Stands c' u' r' (and_then m f)
Stands-and_then c u r c' u' r' (going t) f h k = k t h
Stands-and_then c u r c' u' r' (exited t status) f h k = h
Stands-and_then c u r c' u' r' (killed t) f h k = h

module _ (kernel : Kernel) where
  -- A call that changes no count, while the counts are those of one file or of none.
  abbrev IsPlain : Call → Type 0
  IsPlain call =
      (t : Trace)
      → (created (did call ∷ t) ≡ created t)
        × (unlinked (did call ∷ t) ≡ unlinked t)
        × (truncated (did call ∷ t) ≡ truncated t)

  module _ (c u r : ℕ) (less : u ≤ c) (more : c ≤ suc u) where
    Stands-try :
        (call : Call) (c' u' r' : ℕ) (t : Trace)
        → Stands c' u' r' (going (did call ∷ t))
        → Stands c u r (going t)
        → Stands c' u' r' (try kernel call t)
    unfolding try
    Stands-try call c' u' r' t h k = elim (Bool-cases (kernel t call)) [
      | inl e ↦ rw e h
      | inr e ↦ rw e (refl, (tt, omega (arith, k), omega (arith, k)))
    ]

    Stands-store :
        (n : ℕ) (t : Trace) → Stands c u r (going t) → Stands c u r (store kernel (memset n) t)
    unfolding store
    Stands-store n t k = elim (Bool-cases (kernel t (memset n))) [
      | inl e ↦ rw e k
      | inr e ↦ rw e (tt, omega (arith, k), omega (arith, k))
    ]

    Stands-ignore :
        (call : Call) (t : Trace)
        → IsPlain call
        → Stands c u r (going t)
        → Stands c u r (ignore kernel call t)
    unfolding ignore
    Stands-ignore call t p k = elim (Bool-cases (kernel t call)) [
      | inl e ↦ rw e (omega (arith, p t, k))
      | inr e ↦ rw e k
    ]

  -- One round creates a file, unlinks it and truncates it.
  hammer-Stands :
      (n : ℕ) (t : Trace)
      → Stands n n n (going t)
      → Stands (suc n) (suc n) (suc n) (hammer kernel t)
  unfolding hammer
  hammer-Stands n t h =
      let m = suc n in
      Stands-and_then _ _ _ _ _ _ _ _
        (Stands-try n n n (omega arith) (omega arith) open_file m n n t (omega (arith, h)) h)
        λ t1 h1.
          Stands-and_then _ _ _ _ _ _ _ _
            (Stands-ignore m n n open_le open_ge (fallocate size) t1 (λ u. plain) h1)
            λ t2 h2. Stands-and_then _ _ _ _ _ _ _ _ (open_try mmap t2 h2 h2) λ t3 h3.
              Stands-and_then _ _ _ _ _ _ _ _ (Stands-store m n n open_le open_ge size t3 h3)
                λ t4 h4. Stands-and_then _ _ _ _ _ _ _ _ (open_try munmap t4 h4 h4) λ t5 h5.
                  Stands-and_then _ _ _ _ _ _ _ _ (open_try sync_file_range t5 h5 h5) λ t6 h6.
                    Stands-and_then _ _ _ _ _ _ _ _
                      (Stands-try m n n open_le open_ge unlink m m n t6 (omega (arith, h6)) h6)
                      λ t7 h7.
                        Stands-and_then _ _ _ _ _ _ _ _
                          (Stands-try m m n (omega arith) (omega arith) ftruncate m m m t7
                            (omega (arith, h7)) h7)
                          λ t8 h8.
                            Stands-ignore m m m (omega arith) (omega arith) close t8 (λ u. plain) h8
    where
      open_le : n ≤ suc n
      open_le = omega arith

      open_ge : suc n ≤ suc n
      open_ge = omega arith

      plain : {a b c : ℕ} → (a ≡ a) × (b ≡ b) × (c ≡ c)
      plain = (refl, refl, refl)

      open_try :
          (call : Call) (u : Trace)
          → Stands (suc n) n n (going (did call ∷ u))
          → Stands (suc n) n n (going u)
          → Stands (suc n) n n (try kernel call u)
      open_try call u = Stands-try (suc n) n n open_le open_ge call (suc n) n n u

  rounds-Stands :
      (fuel n : ℕ) (t : Trace)
      → Stands n n n (going t)
      → Stands (fuel + n) (fuel + n) (fuel + n) (rounds kernel fuel t)
  unfolding rounds
  rounds-Stands zero n t h = omega (arith, h)
  rounds-Stands (suc fuel) n t h =
      let e : suc fuel + n ≡ fuel + suc n = omega arith in
      rw e (
        Stands-and_then _ _ _ _ _ _ _ _ (hammer-Stands n t h) λ u k.
          Stands-and_then _ _ _ _ _ _ _ _
            (Stands-ignore (suc n) (suc n) (suc n) (omega arith) (omega arith) dot u
              (λ v. (refl, refl, refl)) k)
            (rounds-Stands fuel (suc n)))

  -- For every kernel and every number n of rounds, the program has either created, unlinked and
  -- truncated n files, or it is over with a call that failed, with status 1 or by a signal, and at
  -- most one file that it created is not unlinked.
  pub main-Stands : (fuel : ℕ) → Stands fuel fuel fuel (main kernel fuel 2)
  unfolding main
  main-Stands fuel =
      let e : fuel + 0 ≡ fuel = omega arith in
      subst (λ n. Stands n n n (rounds kernel fuel [])) e (rounds-Stands fuel 0 [] (omega arith))

-- ===== src/Snapstorm/Progress.antt =====
-- The common start, the end, and that the program is never stuck before it.
use mathlib.Core.Option.{some-injective}
use native.Mathlib.Decide.{dec_lt}
use testunion.Common.{
  ℕ, zero, suc, ◌+◌, ◌<◌, ◌≤◌, ◌≡◌, ◌≢◌, refl, arith, List, [], ◌∷◌, Bool, true, false, some,
  length, get_elem?, All, ap, subst,
}
use testunion.Snapstorm.{
  Place, created, asleep, awake, snapping, finished, MainPlace, creating, waiting, starting, ending,
  done, System, Step, create, all_created, all_ready, go, all_finished, get_ready, spurious,
  test_again, finish, Reach,
}
use testunion.Snapstorm.Counts.{unready, sleeps, passed, ended, sum, sum-ended_le}
use testunion.Snapstorm.Invariant.{Blocks, IsSound, IsSound-Reach, Knows-at}

not_unready : (ps : List Place) → sum unready ps ≡ 0 → All (λ q. q ≢ created) ps
not_unready [] e = tt
not_unready (created ∷ ps) e = absurd (omega arith)
not_unready (asleep ∷ ps) e = ((λ d. absurd (cc)), not_unready ps (omega arith))
not_unready (awake ∷ ps) e = ((λ d. absurd (cc)), not_unready ps (omega arith))
not_unready (snapping ∷ ps) e = ((λ d. absurd (cc)), not_unready ps (omega arith))
not_unready (finished ∷ ps) e = ((λ d. absurd (cc)), not_unready ps (omega arith))

not_asleep : (ps : List Place) → sum sleeps ps ≡ 0 → All (λ q. q ≢ asleep) ps
not_asleep [] e = tt
not_asleep (created ∷ ps) e = ((λ d. absurd (cc)), not_asleep ps (omega arith))
not_asleep (asleep ∷ ps) e = absurd (omega arith)
not_asleep (awake ∷ ps) e = ((λ d. absurd (cc)), not_asleep ps (omega arith))
not_asleep (snapping ∷ ps) e = ((λ d. absurd (cc)), not_asleep ps (omega arith))
not_asleep (finished ∷ ps) e = ((λ d. absurd (cc)), not_asleep ps (omega arith))

everyone_finished : (ps : List Place) → length ps ≤ sum ended ps → All (λ q. q ≡ finished) ps
everyone_finished [] h = tt
everyone_finished (created ∷ ps) h = absurd (omega (arith, sum-ended_le ps))
everyone_finished (asleep ∷ ps) h = absurd (omega (arith, sum-ended_le ps))
everyone_finished (awake ∷ ps) h = absurd (omega (arith, sum-ended_le ps))
everyone_finished (snapping ∷ ps) h = absurd (omega (arith, sum-ended_le ps))
everyone_finished (finished ∷ ps) h = (refl, everyone_finished ps (omega arith))

has_passed :
    (ps : List Place) (i : ℕ) (p : Place) → get_elem? ps i ≡ some p → passed p ≤ sum passed ps
has_passed [] i p e = absurd (cc)
has_passed (x ∷ ps) zero p e =
    let same : passed x ≡ passed p = ap passed (some-injective _ _ e) in omega (arith, same)
has_passed (x ∷ ps) (suc i) p e = omega (arith, has_passed ps i p e)

-- A place that some worker has, with its index.
abbrev Has : Place → List Place → Type 0
Has p ps = (i : ℕ) × (get_elem? ps i ≡ some p)

later : (p x : Place) (ps : List Place) → Has p ps → Has p (x ∷ ps)
later p x ps (i, e) = (suc i, e)

find_unready : (ps : List Place) → 0 < sum unready ps → Has created ps
find_unready [] h = absurd (omega arith)
find_unready (created ∷ ps) h = (0, refl)
find_unready (asleep ∷ ps) h = later _ _ ps (find_unready ps (omega arith))
find_unready (awake ∷ ps) h = later _ _ ps (find_unready ps (omega arith))
find_unready (snapping ∷ ps) h = later _ _ ps (find_unready ps (omega arith))
find_unready (finished ∷ ps) h = later _ _ ps (find_unready ps (omega arith))

-- A step that does not need a wait to end without a broadcast.
abbrev pub IsOwn : (n : ℕ) (s s' : System) → Step n s s' → Type 0
IsOwn n s s' (spurious _ i e) = ⊥
IsOwn n s s' t = Unit

abbrev pub CanMove : ℕ → System → Type 0
CanMove n s = (s' : System) × ((t : Step n s s') × IsOwn n s s' t)

module _ (n : ℕ) where
  -- If nobody sleeps, a worker that is not at its end has a step.
  unended_move :
      (s : System) (ps : List Place) (i : ℕ)
      → ((j : ℕ) (p : Place) → get_elem? ps j ≡ some p → get_elem? s.workers (i + j) ≡ some p)
      → sum sleeps ps ≡ 0
      → sum ended ps < length ps
      → CanMove n s
  unended_move s [] i at z h = absurd (omega arith)
  unended_move s (created ∷ ps) i at z h = (_, (get_ready s (i + 0) (at 0 created refl), tt))
  unended_move s (asleep ∷ ps) i at z h = absurd (omega arith)
  unended_move s (awake ∷ ps) i at z h = (_, (test_again s (i + 0) (at 0 awake refl), tt))
  unended_move s (snapping ∷ ps) i at z h = (_, (finish s (i + 0) (at 0 snapping refl), tt))
  unended_move s (finished ∷ ps) i at z h =
      unended_move s ps (i + 1)
        (λ j p e. let k : i + 1 + j ≡ i + suc j = omega arith in rw k (at (suc j) p e))
        (omega arith) (omega arith)

  -- In a state that can be reached, if a worker has passed the start, then all nr_threads workers
  -- were created, each has been ready, and none is left asleep.
  pub barrier :
      (s : System) (i : ℕ) (p : Place)
      → Reach n s
      → get_elem? s.workers i ≡ some p
      → passed p ≡ 1
      → (length s.workers ≡ n) × All (λ q. q ≢ created) s.workers × All (λ q. q ≢ asleep) s.workers
  barrier s i p r e one = started s.main s.can_start refl refl
    where
      h : IsSound n s
      h = IsSound-Reach n s r

      all_up :
          length s.workers ≡ n
          → s.nr_ready ≡ n
          → s.can_start ≡ true
          → (length s.workers ≡ n)
            × All (λ q. q ≢ created) s.workers
            × All (λ q. q ≢ asleep) s.workers
      all_up len up b = (
        len,
        not_unready s.workers (omega (arith, h.ready, len, up)),
        not_asleep s.workers (subst (λ c. Blocks c s.workers) b h.blocks),
      )

      held : s.can_start ≡ false → ⊥
      held b =
          let z : sum passed s.workers ≡ 0 = subst (λ c. Blocks c s.workers) b h.blocks in
          absurd (omega (arith, has_passed s.workers i p e, one, z))

      started :
          (m : MainPlace) (b : Bool)
          → s.main ≡ m
          → s.can_start ≡ b
          → (length s.workers ≡ n)
            × All (λ q. q ≢ created) s.workers
            × All (λ q. q ≢ asleep) s.workers
      started m false em eb = absurd (held eb)
      started creating true em eb = absurd (held (Knows-at n s creating em h).0)
      started waiting true em eb = absurd (held (Knows-at n s waiting em h).0)
      started starting true em eb = absurd (held (Knows-at n s starting em h).0)
      started ending true em eb = let k = Knows-at n s ending em h in all_up k.1 k.2 eb
      started done true em eb = let k = Knows-at n s done em h in all_up k.1 k.2 eb

  -- In a state that can be reached in which main is at its end, all nr_threads workers have
  -- finished.
  pub done-All :
      (s : System)
      → Reach n s
      → s.main ≡ done
      → (length s.workers ≡ n) × All (λ q. q ≡ finished) s.workers
  done-All s r e =
      let h = IsSound-Reach n s r in
      let k = Knows-at n s done e h in
      (k.1, everyone_finished s.workers (omega (arith, h.over, k.1, k.3)))

  -- In a state that can be reached, as long as main is not at its end, main or a worker has a step,
  -- and one that does not need a wait to end without a broadcast; so no broadcast is lost.
  pub CanMove-Reach : (s : System) → Reach n s → s.main ≢ done → CanMove n s
  CanMove-Reach s r going = moves s.main refl
    where
      h : IsSound n s
      h = IsSound-Reach n s r

      same :
          (j : ℕ) (p : Place)
          → get_elem? s.workers j ≡ some p
          → get_elem? s.workers (0 + j) ≡ some p
      same j p e = let z : 0 + j ≡ j = omega arith in rw z e

      moves : (m : MainPlace) → s.main ≡ m → CanMove n s
      moves creating em = elim (dec_lt (length s.workers) n) [
        | yes l ↦ (_, (create s em l, tt))
        | no l ↦
            let k = Knows-at n s creating em h in (_, (all_created s em (ground (arith, k.1)), tt))
      ]
      moves waiting em = elim (dec_lt s.nr_ready n) [
        | yes l ↦
            let k = Knows-at n s waiting em h in
            let (i, e) = find_unready s.workers (omega (arith, h.ready, k.1, l)) in
            (_, (get_ready s i e, tt))
        | no l ↦ (_, (all_ready s em (ground arith), tt))
      ]
      moves starting em = (_, (go s em, tt))
      moves ending em = elim (dec_lt s.nr_finished n) [
        | yes l ↦
            let k = Knows-at n s ending em h in
            unended_move s s.workers 0 same (subst (λ c. Blocks c s.workers) k.0 h.blocks)
              (omega (arith, h.over, k.1, l))
        | no l ↦ (_, (all_finished s em (ground arith), tt))
      ]
      moves done em = absurd (going em)

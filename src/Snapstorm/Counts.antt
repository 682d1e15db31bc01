-- ===== src/Snapstorm/Counts.antt =====
-- How many workers stand where, and what a move or a broadcast does to that.
use mathlib.Core.Option.{some-injective}
use testunion.Common.{
  ℕ, zero, suc, ◌+◌, ◌≤◌, ◌≡◌, refl, arith, List, [], ◌∷◌, ◌++◌, some, length, map, get_elem?, set,
  ap,
}
use testunion.Snapstorm.{Place, created, asleep, awake, snapping, finished, wake}

-- How many workers have not been ready, sleep, have passed the start, and have finished.
abbrev pub unready : Place → ℕ
unready created = 1
unready p = 0

abbrev pub sleeps : Place → ℕ
sleeps asleep = 1
sleeps p = 0

abbrev pub passed : Place → ℕ
passed snapping = 1
passed finished = 1
passed p = 0

abbrev pub ended : Place → ℕ
ended finished = 1
ended p = 0

abbrev pub sum : (Place → ℕ) → List Place → ℕ
sum f [] = 0
sum f (p ∷ ps) = f p + sum f ps

pub sum-set :
    (f : Place → ℕ) (ps : List Place) (i : ℕ) (p q : Place)
    → get_elem? ps i ≡ some p
    → sum f (set ps i q) + f p ≡ sum f ps + f q
sum-set f [] i p q e = absurd (cc)
sum-set f (x ∷ ps) zero p q e =
    let same : f x ≡ f p = ap f (some-injective _ _ e) in omega (arith, same)
sum-set f (x ∷ ps) (suc i) p q e = omega (arith, sum-set f ps i p q e)

pub sum-append :
    (f : Place → ℕ) (ps : List Place) (p : Place) → sum f (ps ++ (p ∷ [])) ≡ sum f ps + f p
sum-append f [] p = omega arith
sum-append f (x ∷ ps) p = omega (arith, sum-append f ps p)

-- A broadcast changes no count but that of the sleepers.
pub sum-wake :
    (f : Place → ℕ) → f awake ≡ f asleep → (ps : List Place) → sum f (map wake ps) ≡ sum f ps
sum-wake f e [] = refl
sum-wake f e (created ∷ ps) = omega (arith, sum-wake f e ps)
sum-wake f e (asleep ∷ ps) = omega (arith, sum-wake f e ps, e)
sum-wake f e (awake ∷ ps) = omega (arith, sum-wake f e ps)
sum-wake f e (snapping ∷ ps) = omega (arith, sum-wake f e ps)
sum-wake f e (finished ∷ ps) = omega (arith, sum-wake f e ps)

pub sleeps-wake : (ps : List Place) → sum sleeps (map wake ps) ≡ 0
sleeps-wake [] = refl
sleeps-wake (created ∷ ps) = omega (arith, sleeps-wake ps)
sleeps-wake (asleep ∷ ps) = omega (arith, sleeps-wake ps)
sleeps-wake (awake ∷ ps) = omega (arith, sleeps-wake ps)
sleeps-wake (snapping ∷ ps) = omega (arith, sleeps-wake ps)
sleeps-wake (finished ∷ ps) = omega (arith, sleeps-wake ps)

pub length-wake : (ps : List Place) → length (map wake ps) ≡ length ps
length-wake [] = refl
length-wake (p ∷ ps) = ap suc (length-wake ps)

pub sum-ended_le : (ps : List Place) → sum ended ps ≤ length ps
sum-ended_le [] = omega arith
sum-ended_le (p ∷ ps) = ground (arith, sum-ended_le ps)

pub sum-passed_le : (ps : List Place) → sum passed ps ≤ length ps
sum-passed_le [] = omega arith
sum-passed_le (p ∷ ps) = ground (arith, sum-passed_le ps)

-- Who has finished has passed the start.
pub sum-ended_passed : (ps : List Place) → sum ended ps ≤ sum passed ps
sum-ended_passed [] = omega arith
sum-ended_passed (p ∷ ps) = ground (arith, sum-ended_passed ps)

-- ===== src/Synctest/Waiting.antt =====
-- When the parent stops waiting: every child has finished, and each was counted once.
use testunion.Common.{
  ℕ, zero, suc, ◌+◌, ◌-◌, ◌≤◌, ◌≡◌, inl, inr, refl, ap, subst, arith, List, [], ◌∷◌, some,
  if◌then◌else◌, ◌==◌, set, get_elem?, All, Bool-cases,
}
use testunion.Synctest.Parent.{
  Parent, parent, scan, unstarted, first_parent, Event, finish, reaped, interrupted, wait_error,
  Wait, finished, waiting, failed, wait_loop,
}

-- How many statuses are not 2.
abbrev pub pending : List ℕ → ℕ
pending [] = 0
pending (s ∷ rest) = if s == 2 then pending rest else suc (pending rest)

-- Events that can happen: a child finishes only once.
abbrev pub IsPossible : List Event → Parent → Type 0
IsPossible [] p = Unit
IsPossible (finish i ∷ events) p =
    (get_elem? p.child_status i ≡ some 0)
    × IsPossible events (parent (set p.child_status i 1) p.children_left p.stars)
IsPossible (reaped ∷ events) p = IsPossible events (scan p.child_status p.children_left p.stars)
IsPossible (interrupted ∷ events) p = IsPossible events p
IsPossible (wait_error ∷ events) p = Unit

-- The parent waits for the children whose status it has not seen, and it has seen the others.
abbrev pub IsSound : ℕ → Parent → Type 0
IsSound n p = (p.children_left ≡ pending p.child_status) × (p.stars + p.children_left ≡ n)

scan_lem :
    (s : List ℕ) (left stars : ℕ)
    → pending s ≤ left
    → ((scan s left stars).children_left + pending s
        ≡ left + pending (scan s left stars).child_status)
      × ((scan s left stars).stars + (scan s left stars).children_left ≡ stars + left)
unfolding scan
scan_lem [] left stars h = ground arith
scan_lem (x ∷ s) left stars h =
    ground (arith, scan_lem s (left - 1) (stars + 1), scan_lem s left stars)

pending-set : (s : List ℕ) (i : ℕ) → get_elem? s i ≡ some 0 → pending (set s i 1) ≡ pending s
pending-set [] i e = refl
pending-set (x ∷ s) zero e = ground arith
pending-set (x ∷ s) (suc i) e = ground (arith, pending-set s i e)

pending-unstarted : (n : ℕ) → pending (unstarted n) ≡ n
pending-unstarted zero = refl
pending-unstarted (suc n) = ground (arith, pending-unstarted n)

pending_zero : (s : List ℕ) → pending s ≡ 0 → All (λ x. x ≡ 2) s
pending_zero [] e = tt
pending_zero (x ∷ s) e = ground (arith, pending_zero s)

-- How many children have not finished, by the statuses and by the events.
abbrev pub unfinished : List ℕ → ℕ
unfinished [] = 0
unfinished (s ∷ rest) = if s == 0 then suc (unfinished rest) else unfinished rest

abbrev pub finishes : List Event → ℕ
finishes [] = 0
finishes (finish i ∷ events) = suc (finishes events)
finishes (reaped ∷ events) = finishes events
finishes (interrupted ∷ events) = finishes events
finishes (wait_error ∷ events) = finishes events

pub unfinished-scan :
    (s : List ℕ) (left stars : ℕ) → unfinished (scan s left stars).child_status ≡ unfinished s
unfolding scan
unfinished-scan [] left stars = refl
unfinished-scan (x ∷ s) left stars =
    ground (arith, unfinished-scan s (left - 1) (stars + 1), unfinished-scan s left stars)

pub unfinished-set :
    (s : List ℕ) (i : ℕ) → get_elem? s i ≡ some 0 → suc (unfinished (set s i 1)) ≡ unfinished s
unfinished-set [] i e = absurd (cc)
unfinished-set (x ∷ s) zero e = ground arith
unfinished-set (x ∷ s) (suc i) e = ground (arith, unfinished-set s i e)

unfinished_zero : (s : List ℕ) → All (λ x. x ≡ 2) s → unfinished s ≡ 0
unfinished_zero [] h = refl
unfinished_zero (x ∷ s) h = let e = h.0 in ground (arith, unfinished_zero s h.1)

pub unfinished-unstarted : (n : ℕ) → unfinished (unstarted n) ≡ n
unfinished-unstarted zero = refl
unfinished-unstarted (suc n) = ground (arith, unfinished-unstarted n)

module _ (n : ℕ) where
  pub IsSound-scan :
      (p : Parent) → IsSound n p → IsSound n (scan p.child_status p.children_left p.stars)
  IsSound-scan p h =
      let l = scan_lem p.child_status p.children_left p.stars (omega (arith, h.0)) in
      (omega (arith, l.0, h.0), omega (arith, l.1, h.1))

  pub IsSound-set :
      (p : Parent) (i : ℕ)
      → get_elem? p.child_status i ≡ some 0
      → IsSound n p
      → IsSound n (parent (set p.child_status i 1) p.children_left p.stars)
  IsSound-set p i e h = (omega (arith, pending-set p.child_status i e, h.0), h.1)

  finished-injective : {p q : Parent} → finished p ≡ finished q → p ≡ q
  finished-injective {p} {q} e = ap (λ w. elim w [ finished r ↦ r | _ ↦ p ]) e

  abbrev IsDone : List Event → Parent → Parent → Type 0
  IsDone events p q =
      IsSound n q
      × (q.children_left ≡ 0)
      × (unfinished p.child_status ≤ finishes events + unfinished q.child_status)

  stops :
      (events : List Event) (p : Parent) {q : Parent}
      → IsSound n p
      → p.children_left ≡ 0
      → finished p ≡ finished q
      → IsDone events p q
  stops events p s z e = subst (IsDone events p) (finished-injective e) (s, z, omega arith)

  -- The test of `while`, before the rest of the loop.
  tested :
      (events : List Event) (p : Parent) (rest : Wait) {q : Parent}
      → IsSound n p
      → (rest ≡ finished q → IsDone events p q)
      → ((if p.children_left == 0 then finished p else rest) ≡ finished q)
      → IsDone events p q
  tested events p rest s later e = elim (Bool-cases (p.children_left == 0)) [
    | inl z ↦ stops events p s (ground arith) (rw z at e)
    | inr z ↦ later (rw z at e)
  ]

  loop_sound :
      (events : List Event) (p : Parent) {q : Parent}
      → IsPossible events p
      → IsSound n p
      → wait_loop events p ≡ finished q
      → IsDone events p q
  unfolding wait_loop
  loop_sound [] p h s e = tested [] p (waiting p) s (λ d. absurd (cc)) e
  loop_sound (finish i ∷ events) p h s e =
      let next = parent (set p.child_status i 1) p.children_left p.stars in
      let less = unfinished-set p.child_status i h.0 in
      tested (finish i ∷ events) p (wait_loop events next) s
        (λ d.
          let (sound, none_left, each) = loop_sound events next h.1 (IsSound-set p i h.0 s) d in
          (sound, none_left, omega (arith, each, less)))
        e
  loop_sound (reaped ∷ events) p h s e =
      let next = scan p.child_status p.children_left p.stars in
      let same = unfinished-scan p.child_status p.children_left p.stars in
      tested (reaped ∷ events) p (wait_loop events next) s
        (λ d.
          let (sound, none_left, each) = loop_sound events next h (IsSound-scan p s) d in
          (sound, none_left, omega (arith, each, same)))
        e
  loop_sound (interrupted ∷ events) p h s e =
      tested (interrupted ∷ events) p (wait_loop events p) s (loop_sound events p h s) e
  loop_sound (wait_error ∷ events) p h s e =
      tested (wait_error ∷ events) p (failed p) s (λ d. absurd (cc)) e

pub IsSound-first : (n : ℕ) → IsSound n (first_parent n)
unfolding first_parent
IsSound-first n = (omega (arith, pending-unstarted n), omega arith)

-- If a child finishes at most once, and the parent leaves its loop, then it has seen every one of
-- its children: the statuses are 2, it has printed a star for each, and each has finished.
pub wait_loop_sound :
    (n_threads : ℕ) (events : List Event) (q : Parent)
    → IsPossible events (first_parent n_threads)
    → wait_loop events (first_parent n_threads) ≡ finished q
    → All (λ s. s ≡ 2) q.child_status × (q.stars ≡ n_threads) × (n_threads ≤ finishes events)
unfolding first_parent
wait_loop_sound n events q h e =
    let (sound, none_left, each) = loop_sound n events (first_parent n) h (IsSound-first n) e in
    let all = pending_zero q.child_status (omega (arith, sound.0, none_left)) in
    (
      all,
      omega (arith, sound.1, none_left),
      omega (arith, each, unfinished_zero q.child_status all, unfinished-unstarted n),
    )

-- No event is an error of `wait3`.
abbrev pub IsCalm : List Event → Type 0
IsCalm [] = Unit
IsCalm (wait_error ∷ events) = ⊥
IsCalm (finish i ∷ events) = IsCalm events
IsCalm (reaped ∷ events) = IsCalm events
IsCalm (interrupted ∷ events) = IsCalm events

abbrev pub IsStatus : ℕ → Type 0
IsStatus s = s ≤ 2

pub scan_settles :
    (s : List ℕ) (left stars : ℕ)
    → All IsStatus s
    → All IsStatus (scan s left stars).child_status
      × (pending (scan s left stars).child_status ≡ unfinished s)
unfolding scan
scan_settles [] left stars h = (tt, refl)
scan_settles (x ∷ s) left stars h =
    ground (arith, scan_settles s (left - 1) (stars + 1) h.1, scan_settles s left stars h.1)

pub IsStatus-set : (s : List ℕ) (i : ℕ) → All IsStatus s → All IsStatus (set s i 1)
IsStatus-set [] i h = tt
IsStatus-set (x ∷ s) zero h = (omega arith, h.1)
IsStatus-set (x ∷ s) (suc i) h = (h.0, IsStatus-set s i h.1)

pub IsStatus-unstarted : (n : ℕ) → All IsStatus (unstarted n)
IsStatus-unstarted zero = tt
IsStatus-unstarted (suc n) = (omega arith, IsStatus-unstarted n)

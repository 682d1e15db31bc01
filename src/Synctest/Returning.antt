-- ===== src/Synctest/Returning.antt =====
-- The parent does stop waiting, once its children have finished and a `wait3` follows.
use testunion.Common.{
  ℕ, ◌≤◌, ◌≡◌, refl, arith, List, [], ◌∷◌, ◌++◌, if◌then◌else◌, ◌==◌, set, All, Bool-cases, inl,
  inr,
}
use testunion.Synctest.Parent.{
  Parent, parent, scan, first_parent, Event, finish, reaped, interrupted, wait_error, Wait,
  finished, wait_loop,
}
use testunion.Synctest.Waiting.{
  IsPossible, IsSound, IsSound-scan, IsSound-set, IsSound-first, unfinished, finishes, IsCalm,
  IsStatus, scan_settles, IsStatus-set, IsStatus-unstarted, unfinished-scan, unfinished-set,
  unfinished-unstarted,
}

abbrev Finishes : Wait → Type 0
Finishes w = (q : Parent) × (w ≡ finished q)

tested :
    (p : Parent) (rest : Wait)
    → Finishes rest
    → Finishes (if p.children_left == 0 then finished p else rest)
tested p rest h = elim (Bool-cases (p.children_left == 0)) [
  | inl z ↦ (p, rw z refl)
  | inr z ↦ rw z h
]

module _ (n : ℕ) where
  -- A `wait3` after the last child finished ends the loop.
  last_wait :
      (p : Parent)
      → IsSound n p
      → All IsStatus p.child_status
      → unfinished p.child_status ≡ 0
      → Finishes (wait_loop (reaped ∷ []) p)
  unfolding wait_loop
  last_wait p s h z =
      let next = scan p.child_status p.children_left p.stars in
      let none_left : next.children_left ≡ 0 = omega (
        arith,
        (IsSound-scan n p s).0,
        (scan_settles p.child_status p.children_left p.stars h).1,
        z,
      ) in
      tested p _ (next, ground arith)

  loop_finishes :
      (events : List Event) (p : Parent)
      → IsPossible events p
      → IsCalm events
      → IsSound n p
      → All IsStatus p.child_status
      → unfinished p.child_status ≤ finishes events
      → Finishes (wait_loop (events ++ (reaped ∷ [])) p)
  unfolding wait_loop
  loop_finishes [] p h c s t u = last_wait p s t (omega arith)
  loop_finishes (finish i ∷ events) p h c s t u = tested p _ (
      loop_finishes events (parent (set p.child_status i 1) p.children_left p.stars) h.1 c
        (IsSound-set n p i h.0 s) (IsStatus-set p.child_status i t)
        (omega (arith, unfinished-set p.child_status i h.0, u)))
  loop_finishes (reaped ∷ events) p h c s t u = tested p _ (
      loop_finishes events (scan p.child_status p.children_left p.stars) h c (IsSound-scan n p s)
        (scan_settles p.child_status p.children_left p.stars t).0
        (omega (arith, unfinished-scan p.child_status p.children_left p.stars, u)))
  loop_finishes (interrupted ∷ events) p h c s t u = tested p _ (loop_finishes events p h c s t u)
  loop_finishes (wait_error ∷ events) p h c s t u = absurd c

-- If every child finishes, once, and no wait3 fails but with EINTR, then the parent leaves its loop
-- at the latest after one more wait3.
pub wait_loop_returns :
    (n_threads : ℕ) (events : List Event)
    → IsPossible events (first_parent n_threads)
    → IsCalm events
    → n_threads ≤ finishes events
    → (q : Parent) × (wait_loop (events ++ (reaped ∷ [])) (first_parent n_threads) ≡ finished q)
unfolding first_parent
wait_loop_returns n events h c u =
    loop_finishes n events (first_parent n) h c (IsSound-first n) (IsStatus-unstarted n)
      (omega (arith, unfinished-unstarted n, u))

-- ===== src/Snapstorm/Refine.antt =====
-- The program is a gate: each step of a thread is an event at the gate, or cannot be seen there.
use testunion.Common.{
  ℕ, ◌+◌, ◌<◌, ◌≤◌, ◌≡◌, ◌⊎◌, inl, inr, refl, sym, ◌∙◌, ap, subst, arith, Bool, true, false, some,
  length, get_elem?, set, length-set, Bool-cases,
}
use testunion.Snapstorm.{
  Place, created, asleep, awake, snapping, finished, MainPlace, creating, waiting, starting, ending,
  done, System, test_start, start, Step, create, all_created, all_ready, go, all_finished,
  get_ready, spurious, test_again, finish, Reach, at_start, after,
}
use testunion.Snapstorm.Counts.{
  unready, passed, ended, sum, sum-set, sum-append, sum-wake, sum-passed_le, sum-ended_passed,
}
use testunion.Snapstorm.Invariant.{
  IsSound, IsSound-Reach, Knows, Knows-at, Blocks, test_start-passed,
}
use testunion.Snapstorm.Gate.{
  Gate, gate, Event, arrive, open_up, enter, leave, close, Course, shut, then_comes,
}

abbrev pub is_done : MainPlace → Bool
is_done done = true
is_done m = false

-- What can be seen of the program: its three counters, how many workers passed the start, and
-- whether main is at its end.
abbrev pub view : System → Gate
view s = gate s.nr_ready s.can_start (sum passed s.workers) s.nr_finished (is_done s.main)

gate-eq :
    {a a' e e' l l' : ℕ} {o o' c c' : Bool}
    → a ≡ a'
    → o ≡ o'
    → e ≡ e'
    → l ≡ l'
    → c ≡ c'
    → gate a o e l c ≡ gate a' o' e' l' c'
gate-eq p q r s t = rw (p, q, r, s, t) refl

module _ (n : ℕ) where
  -- The gate stays as it is, or there is an event.
  abbrev pub Follows : Gate → Gate → Type 0
  Follows g g' = (g ≡ g') ⊎ Event n g g'

  event : {g g' h h' : Gate} → Event n g g' → g ≡ h → g' ≡ h' → Follows h h'
  event {g = g} {h' = h'} t p q = inr (subst (λ x. Event n x h') p (subst (λ y. Event n g y) q t))

  module _ (s : System) (h : IsSound n s) where
    few : length s.workers ≤ n
    few = go_on s.main s.can_start s.nr_ready s.nr_finished h.knows
      where
        go_on :
            (m : MainPlace) (b : Bool) (r o : ℕ)
            → Knows n m b (length s.workers) r o
            → length s.workers ≤ n
        go_on creating b r o k = k.1
        go_on waiting b r o k = omega (arith, k.1)
        go_on starting b r o k = omega (arith, k.1)
        go_on ending b r o k = omega (arith, k.1)
        go_on done b r o k = omega (arith, k.1)

    open_means : s.can_start ≡ true → (s.nr_ready ≡ n) × (length s.workers ≡ n)
    open_means e =
        go_on s.main s.nr_finished
          (subst (λ b. Knows n s.main b (length s.workers) s.nr_ready s.nr_finished) e h.knows)
      where
        go_on :
            (m : MainPlace) (o : ℕ)
            → Knows n m true (length s.workers) s.nr_ready o
            → (s.nr_ready ≡ n) × (length s.workers ≡ n)
        go_on creating o k = absurd (cc)
        go_on waiting o k = absurd (cc)
        go_on starting o k = absurd (cc)
        go_on ending o k = (k.2, k.1)
        go_on done o k = (k.2, k.1)

    none_passed : s.can_start ≡ false → sum passed s.workers ≡ 0
    none_passed e = subst (λ c. Blocks c s.workers) e h.blocks

    -- A worker with a place takes one that is as far, or farther.
    same_passed :
        (i : ℕ) (p q : Place)
        → get_elem? s.workers i ≡ some p
        → passed q ≡ passed p
        → sum passed s.workers ≡ sum passed (set s.workers i q)
    same_passed i p q e same = omega (arith, sum-set passed s.workers i p q e, same)

    get_ready-Follows :
        (i : ℕ)
        → get_elem? s.workers i ≡ some created
        → Follows (view s) (
            view (record s {
              workers = set s.workers i (test_start s.can_start);
              nr_ready = s.nr_ready + 1;
            }))
    get_ready-Follows i e = elim (Bool-cases s.can_start) [
      | inl o ↦ let (r, len) = open_means o in absurd (omega (arith, counted, h.ready, r, len))
      | inr o ↦
          let z = none_passed o in
          event
            (arrive s.nr_ready s.nr_finished (is_done s.main)
              (omega (arith, counted, h.ready, few)))
            (gate-eq refl (sym o) (sym z) refl refl)
            (gate-eq refl (sym o)
              (sym z
                ∙ same_passed i created (test_start s.can_start) e
                    (test_start-passed s.can_start o))
              refl refl)
    ]
      where
        counted : sum unready (set s.workers i asleep) + 1 ≡ sum unready s.workers + 0
        counted = sum-set unready s.workers i created asleep e

    test_again-Follows :
        (i : ℕ)
        → get_elem? s.workers i ≡ some awake
        → Follows (view s) (view (record s { workers = set s.workers i (test_start s.can_start) }))
    test_again-Follows i e = elim (Bool-cases s.can_start) [
      | inl o ↦
          let (r, len) = open_means o in
          let one : passed (test_start s.can_start) ≡ 1 = rw o refl in
          let more = sum-set passed s.workers i awake (test_start s.can_start) e in
          let most = sum-passed_le (set s.workers i (test_start s.can_start)) in
          let size = length-set s.workers i (test_start s.can_start) in
          event
            (enter (sum passed s.workers) s.nr_finished (is_done s.main)
              (omega (arith, one, more, most, size, len)))
            (gate-eq (sym r) (sym o) refl refl refl)
            (gate-eq (sym r) (sym o) (omega (arith, one, more)) refl refl)
      | inr o ↦ inl (
          gate-eq refl refl
            (same_passed i awake (test_start s.can_start) e (test_start-passed s.can_start o)) refl
            refl)
    ]

    finish-Follows :
        (i : ℕ)
        → get_elem? s.workers i ≡ some snapping
        → Follows (view s) (
            view (record s { workers = set s.workers i finished; nr_finished = s.nr_finished + 1 }))
    finish-Follows i e =
        let same = same_passed i snapping finished e refl in
        let more = sum-set ended s.workers i snapping finished e in
        let less : s.nr_finished < sum passed s.workers =
          omega (arith, h.over, more, same, sum-ended_passed (set s.workers i finished)) in
        elim (Bool-cases s.can_start) [
          | inl o ↦
              let (r, len) = open_means o in
              event (leave (sum passed s.workers) s.nr_finished (is_done s.main) less)
                (gate-eq (sym r) (sym o) refl refl refl) (gate-eq (sym r) (sym o) same refl refl)
          | inr o ↦ absurd (omega (arith, less, none_passed o))
        ]

    Step-Follows : (s' : System) → Step n s s' → Follows (view s) (view s')
    Step-Follows s' (create _ e l) =
        inl (gate-eq refl refl (omega (arith, sum-append passed s.workers created)) refl refl)
    Step-Follows s' (all_created _ e l) = inl (gate-eq refl refl refl refl (ap is_done e))
    Step-Follows s' (all_ready _ e l) = inl (gate-eq refl refl refl refl (ap is_done e))
    Step-Follows s' (go _ e) =
        let k = Knows-at n s starting e h in
        let z = none_passed k.0 in
        event (open_up s.nr_finished false)
          (gate-eq (sym k.2) (sym k.0) (sym z) refl (sym (ap is_done e)))
          (gate-eq (sym k.2) refl (omega (arith, z, sum-wake passed refl s.workers)) refl refl)
    Step-Follows s' (all_finished _ e l) =
        let k = Knows-at n s ending e h in
        let over : n ≡ s.nr_finished =
          omega (arith, h.over, l, sum-ended_passed s.workers, sum-passed_le s.workers, k.1) in
        let in_all : n ≡ sum passed s.workers =
          omega (arith, over, h.over, sum-ended_passed s.workers, sum-passed_le s.workers, k.1) in
        event close (gate-eq (sym k.2) (sym k.0) in_all over (sym (ap is_done e)))
          (gate-eq (sym k.2) (sym k.0) in_all over refl)
    Step-Follows s' (get_ready _ i e) = get_ready-Follows i e
    Step-Follows s' (spurious _ i e) =
        inl (gate-eq refl refl (same_passed i asleep awake e refl) refl refl)
    Step-Follows s' (test_again _ i e) = test_again-Follows i e
    Step-Follows s' (finish _ i e) = finish-Follows i e

  Course-Reach : (s : System) → Reach n s → Course n (view s)
  unfolding start
  Course-Reach s at_start = shut
  Course-Reach s' (after s _ r t) = elim (Step-Follows s (IsSound-Reach n s r) s' t) [
    | inl same ↦ subst (λ g. Course n g) same (Course-Reach s r)
    | inr e ↦ then_comes (view s) (view s') (Course-Reach s r) e
  ]

  -- The program implements a gate for nr_threads: a state that can be reached shows a gate in a
  -- course of its own, which starts shut, opens when all have arrived and closes when all have
  -- left, and each step from there is either an event at that gate or does not change what it
  -- shows.
  pub Step-refines :
      (s s' : System) → Reach n s → Step n s s' → Course n (view s) × Follows (view s) (view s')
  Step-refines s s' r t = (Course-Reach s r, Step-Follows s (IsSound-Reach n s r) s' t)

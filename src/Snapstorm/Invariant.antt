-- ===== src/Snapstorm/Invariant.antt =====
-- The counters count what they say, and nobody passes before all are ready.
use testunion.Common.{
  ℕ, ◌+◌, ◌<◌, ◌≤◌, ◌≡◌, refl, arith, List, [], ◌∷◌, ◌++◌, Bool, true, false, some, length, map,
  get_elem?, set, length-set, length-append, subst, sym,
}
use testunion.Snapstorm.{
  Place, created, asleep, awake, snapping, finished, MainPlace, creating, waiting, starting, ending,
  done, System, wake, test_start, start, Step, create, all_created, all_ready, go, all_finished,
  get_ready, spurious, test_again, finish, Reach, at_start, after,
}
use testunion.Snapstorm.Counts.{
  unready, sleeps, passed, ended, sum, sum-set, sum-append, sum-wake, sleeps-wake, length-wake,
  sum-ended_le,
}

-- What `main` knows where it stands: `can_start`, how many workers there are, and how many of them
-- are ready and have finished.
abbrev pub Knows : ℕ → MainPlace → Bool → ℕ → ℕ → ℕ → Type 0
Knows n creating b len ready over = (b ≡ false) × (len ≤ n)
Knows n waiting b len ready over = (b ≡ false) × (len ≡ n)
Knows n starting b len ready over = (b ≡ false) × (len ≡ n) × (ready ≡ n)
Knows n ending b len ready over = (b ≡ true) × (len ≡ n) × (ready ≡ n)
Knows n done b len ready over = (b ≡ true) × (len ≡ n) × (ready ≡ n) × (over ≡ n)

-- Before `can_start` is set nobody passes, and afterwards nobody sleeps.
abbrev pub Blocks : Bool → List Place → Type 0
Blocks false ps = sum passed ps ≡ 0
Blocks true ps = sum sleeps ps ≡ 0

pub record IsSound (n : ℕ) (s : System) : Type 0 where
  pub ready : s.nr_ready + sum unready s.workers ≡ length s.workers
  pub over : s.nr_finished ≡ sum ended s.workers
  pub knows : Knows n s.main s.can_start (length s.workers) s.nr_ready s.nr_finished
  pub blocks : Blocks s.can_start s.workers

Knows-ready :
    (n : ℕ) (m : MainPlace) (b : Bool) (len ready over : ℕ)
    → ready < len
    → Knows n m b len ready over
    → Knows n m b len (ready + 1) over
Knows-ready n creating b len ready over h k = k
Knows-ready n waiting b len ready over h k = k
Knows-ready n starting b len ready over h k = ground arith
Knows-ready n ending b len ready over h k = ground arith
Knows-ready n done b len ready over h k = ground arith

Knows-over :
    (n : ℕ) (m : MainPlace) (b : Bool) (len ready over : ℕ)
    → over < len
    → Knows n m b len ready over
    → Knows n m b len ready (over + 1)
Knows-over n creating b len ready over h k = k
Knows-over n waiting b len ready over h k = k
Knows-over n starting b len ready over h k = k
Knows-over n ending b len ready over h k = k
Knows-over n done b len ready over h k = ground arith

Blocks-set :
    (b : Bool) (ps : List Place) (i : ℕ) (p q : Place)
    → get_elem? ps i ≡ some p
    → (b ≡ false → passed q ≤ passed p)
    → (b ≡ true → sleeps q ≤ sleeps p)
    → Blocks b ps
    → Blocks b (set ps i q)
Blocks-set false ps i p q e h k z = omega (arith, sum-set passed ps i p q e, h refl, z)
Blocks-set true ps i p q e h k z = omega (arith, sum-set sleeps ps i p q e, k refl, z)

Blocks-append : (b : Bool) (ps : List Place) → Blocks b ps → Blocks b (ps ++ (created ∷ []))
Blocks-append false ps h = omega (arith, sum-append passed ps created, h)
Blocks-append true ps h = omega (arith, sum-append sleeps ps created, h)

test_start-unready : (b : Bool) → unready (test_start b) ≡ 0
test_start-unready true = refl
test_start-unready false = refl

test_start-ended : (b : Bool) → ended (test_start b) ≡ 0
test_start-ended true = refl
test_start-ended false = refl

pub test_start-passed : (b : Bool) → b ≡ false → passed (test_start b) ≡ 0
test_start-passed true e = absurd (cc)
test_start-passed false e = refl

test_start-sleeps : (b : Bool) → b ≡ true → sleeps (test_start b) ≡ 0
test_start-sleeps true e = refl
test_start-sleeps false e = absurd (cc)

module _ (n : ℕ) where
  IsSound-start : IsSound n start
  unfolding start
  IsSound-start = record { ready = refl; over = refl; knows = (refl, omega arith); blocks = refl }

  -- A worker moves from `p` to `q`, and the counters with it.
  IsSound-move :
      (s : System) (i : ℕ) (p q : Place) (ready over : ℕ)
      → IsSound n s
      → get_elem? s.workers i ≡ some p
      → ready + unready q ≡ s.nr_ready + unready p
      → over + ended p ≡ s.nr_finished + ended q
      → Knows n s.main s.can_start (length s.workers) ready over
      → (s.can_start ≡ false → passed q ≤ passed p)
      → (s.can_start ≡ true → sleeps q ≤ sleeps p)
      → IsSound n (record s { workers = set s.workers i q; nr_ready = ready; nr_finished = over })
  IsSound-move s i p q ready over h e r o k before later = record {
    ready = omega (arith, sum-set unready s.workers i p q e, length-set s.workers i q, h.ready, r);
    over = omega (arith, sum-set ended s.workers i p q e, h.over, o);
    knows = rw (length-set s.workers i q) k;
    blocks = Blocks-set s.can_start s.workers i p q e before later h.blocks;
  }

  -- The knowledge of `main` where it stands, read at that place.
  pub Knows-at :
      (s : System) (m : MainPlace)
      → s.main ≡ m
      → IsSound n s
      → Knows n m s.can_start (length s.workers) s.nr_ready s.nr_finished
  Knows-at s m e h =
      subst (λ m. Knows n m s.can_start (length s.workers) s.nr_ready s.nr_finished) e h.knows

  IsSound-go :
      (s : System)
      → s.main ≡ starting
      → IsSound n s
      → IsSound n (record s { workers = map wake s.workers; can_start = true; main = ending })
  IsSound-go s e h =
      let k = Knows-at s starting e h in
      let same = length-wake s.workers in
      record {
        ready = omega (arith, h.ready, same, sum-wake unready refl s.workers);
        over = omega (arith, h.over, sum-wake ended refl s.workers);
        knows = (refl, omega (arith, k.1, same), k.2);
        blocks = sleeps-wake s.workers;
      }

  IsSound-Step : (s s' : System) → Step n s s' → IsSound n s → IsSound n s'
  IsSound-Step s s' (create _ e l) h =
      let k = Knows-at s creating e h in
      let longer : length (s.workers ++ (created ∷ [])) ≡ length s.workers + 1 =
        omega (arith, length-append s.workers (created ∷ [])) in
      record {
        ready = omega (arith, h.ready, longer, sum-append unready s.workers created);
        over = omega (arith, h.over, sum-append ended s.workers created);
        knows =
            subst
              (λ m.
                Knows n m s.can_start (length (s.workers ++ (created ∷ []))) s.nr_ready
                  s.nr_finished)
              (sym e) (k.0, omega (arith, longer, l));
        blocks = Blocks-append s.can_start s.workers h.blocks;
      }
  IsSound-Step s s' (all_created _ e l) h =
      let k = Knows-at s creating e h in
      record { ready = h.ready; over = h.over; knows = (k.0, l); blocks = h.blocks }
  IsSound-Step s s' (all_ready _ e l) h =
      let k = Knows-at s waiting e h in
      record {
        ready = h.ready;
        over = h.over;
        knows = (k.0, k.1, omega (arith, h.ready, k.1, l));
        blocks = h.blocks;
      }
  IsSound-Step s s' (go _ e) h = IsSound-go s e h
  IsSound-Step s s' (all_finished _ e l) h =
      let k = Knows-at s ending e h in
      record {
        ready = h.ready;
        over = h.over;
        knows = (k.0, k.1, k.2, omega (arith, h.over, sum-ended_le s.workers, k.1, l));
        blocks = h.blocks;
      }
  IsSound-Step s s' (get_ready _ i e) h =
      let counted = sum-set unready s.workers i created asleep e in
      IsSound-move s i created (test_start s.can_start) (s.nr_ready + 1) s.nr_finished h e
        (omega (arith, test_start-unready s.can_start))
        (omega (arith, test_start-ended s.can_start))
        (Knows-ready n s.main s.can_start (length s.workers) s.nr_ready s.nr_finished
          (omega (arith, counted, h.ready)) h.knows)
        (λ b. omega (arith, test_start-passed s.can_start b))
        (λ b. omega (arith, test_start-sleeps s.can_start b))
  IsSound-Step s s' (spurious _ i e) h =
      IsSound-move s i asleep awake s.nr_ready s.nr_finished h e refl refl h.knows
        (λ b. omega arith) (λ b. omega arith)
  IsSound-Step s s' (test_again _ i e) h =
      IsSound-move s i awake (test_start s.can_start) s.nr_ready s.nr_finished h e
        (omega (arith, test_start-unready s.can_start))
        (omega (arith, test_start-ended s.can_start)) h.knows
        (λ b. omega (arith, test_start-passed s.can_start b))
        (λ b. omega (arith, test_start-sleeps s.can_start b))
  IsSound-Step s s' (finish _ i e) h =
      let counted = sum-set ended s.workers i snapping finished e in
      IsSound-move s i snapping finished s.nr_ready (s.nr_finished + 1) h e (omega arith)
        (omega arith)
        (Knows-over n s.main s.can_start (length s.workers) s.nr_ready s.nr_finished
          (omega (
            arith,
            counted,
            h.over,
            sum-ended_le (set s.workers i finished),
            length-set s.workers i finished,
          ))
          h.knows)
        (λ b. omega arith) (λ b. omega arith)

  pub IsSound-Reach : (s : System) → Reach n s → IsSound n s
  IsSound-Reach s at_start = IsSound-start
  IsSound-Reach s' (after s _ r t) = IsSound-Step s s' t (IsSound-Reach s r)

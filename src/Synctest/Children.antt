-- ===== src/Synctest/Children.antt =====
-- The children that `doit` forks with the options of `main`, side by side.
use testunion.Common.{
  ℕ, ◌*◌, ◌≡◌, ◌≢◌, refl, List, [], ◌∷◌, ◌++◌, Bool, true, false, not, ◌==◌, All, length, ap,
}
use testunion.Synctest.Child.{Name, Call, Run, going, exited}
use testunion.Synctest.History.{History}
use testunion.Synctest.Ends.{limit, Ends}
use testunion.Synctest.Lag.{iterations_lag}
use testunion.Synctest.Main.{Options, child_settings, iter_count, run_child}
use testunion.Synctest.Together.{Merge, Leads, Family, nobody, member, Merge-Leads}

-- A child: the pid and the directory that it gets, and what the kernel answers it.
pub record Fork : Type 0 where
  pub pid : ℕ
  pub thread_group : ℕ
  pub kernel : List Call → Call → Bool

-- The calls of a run that succeeded, the latest first, and whether the run came to its end.
abbrev pub calls_of : Run → List Call
calls_of (going c) = c.calls
calls_of (exited call calls) = calls

abbrev pub is_going : Run → Bool
is_going (going c) = true
is_going (exited call calls) = false

abbrev pub run_fork : Options → Fork → Run
run_fork o f = run_child f.kernel o f.thread_group f.pid

abbrev pub pids : List Fork → List ℕ
pids [] = []
pids (f ∷ forks) = f.pid ∷ pids forks

abbrev pub traces : Options → List Fork → List (List Call)
traces o [] = []
traces o (f ∷ forks) = calls_of (run_fork o f) ∷ traces o forks

-- No two processes have the same number.
abbrev pub AreDistinct : List ℕ → Type 0
AreDistinct [] = Unit
AreDistinct (p ∷ ps) = All (λ q. q ≢ p) ps × AreDistinct ps

run-History :
    (kernel : List Call → Call → Bool) (pid : ℕ) (r : Run)
    → Ends kernel pid [] r
    → (names : List Name) × History kernel pid limit (calls_of r) names
      × (is_going r ≡ true → names ≡ [])
run-History kernel pid (going c) h = ([], h.history, λ e. refl)
run-History kernel pid (exited call calls) (fails, (names, h)) = (names, h, λ e. absurd (cc))

module _ (o : Options) (unlinking : (o.do_unlink == 0) ≡ false) where
  fork-History :
      (f : Fork)
      → (names : List Name) × History f.kernel f.pid limit (calls_of (run_fork o f)) names
        × (is_going (run_fork o f) ≡ true → names ≡ [])
  unfolding run_child child_settings
  fork-History f = run-History f.kernel f.pid _ (
      iterations_lag f.kernel (child_settings o f.thread_group f.pid) (iter_count o.n_iters)
        (ap not unlinking))

  forks-Family :
      (forks : List Fork)
      → AreDistinct (pids forks)
      → (names : List Name) × Family (pids forks) (traces o forks) names
        × (All (λ f. is_going (run_fork o f) ≡ true) forks → names ≡ [])
  forks-Family [] d = ([], nobody, λ e. refl)
  forks-Family (f ∷ forks) d =
      let (mine, h, gone) = fork-History f in
      let (names, fam, all_gone) = forks-Family forks d.1 in
      (
        mine ++ names,
        member f.kernel f.pid _ mine (pids forks) (traces o forks) names h d.0 fam,
        λ e. rw (gone e.0) (all_gone e.1),
      )

  -- With -u given, children with different pids run side by side as if each were alone: in whatever
  -- order their calls are mixed, each rename and unlink finds its file, no file is created or
  -- renamed over another one, no more than 31 files per child are there at any time, and if all the
  -- children run to their end, no file is left.
  pub children-Leads :
      (forks : List Fork) (calls : List Call)
      → AreDistinct (pids forks)
      → Merge (traces o forks) calls
      → (names : List Name) × Leads (length (pids forks) * limit) calls names
        × (All (λ f. is_going (run_fork o f) ≡ true) forks → names ≡ [])
  children-Leads forks calls d merge =
      let (names, fam, gone) = forks-Family forks d in (names, Merge-Leads merge fam, gone)

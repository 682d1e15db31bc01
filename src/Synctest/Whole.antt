-- ===== src/Synctest/Whole.antt =====
-- The options, the children, the loop that waits and the directories together.
use testunion.Common.{
  ℕ, zero, suc, ◌+◌, ◌*◌, ◌%◌, ◌≤◌, ◌<◌, ◌≡◌, ◌↔◌, refl, arith, List, [], ◌∷◌, ◌++◌, Bool, true,
  ◌==◌, some, ℤ, pos, word64, u64, Bool-cases, inl, inr,
}
use testunion.Common.Options.{Text, Opt, fold_options}
use testunion.Synctest.Parent.{first_parent, Event, reaped}
use testunion.Synctest.Main.{
  Options, defaults, set_option, exits, starts_all, wait_and_remove, start_and_wait, doit, main,
}
use testunion.Synctest.Waiting.{IsPossible, IsCalm, finishes}
use testunion.Synctest.Returning.{wait_loop_returns}
use testunion.Synctest.Directories.{InOrder, made, removed, directories_lem}

starts_all_lem :
    (t : ℕ) (mkdir : ℕ → Bool)
    → ((g : ℕ) → mkdir g ≡ true)
    → (i groups left : ℕ) → starts_all t mkdir i groups left ≡ true
unfolding starts_all
starts_all_lem t mkdir works i groups zero = refl
starts_all_lem t mkdir works i groups (suc left) = elim (Bool-cases (i % t == 0)) [
  | inl z ↦ rw (z, works groups) (starts_all_lem t mkdir works (i + 1) (groups + 1) left)
  | inr z ↦ rw z (starts_all_lem t mkdir works (i + 1) groups left)
]

-- With options that give at least one thread per directory and no negative number of threads, if
-- the mapping and every mkdir succeed, every child finishes, once, and no wait3 fails but with
-- EINTR, then main ends with status 0 at the latest after one more wait3; each directory was made
-- before its children started, and as many were removed as were made exactly when the threads
-- divide evenly among the directories.
pub main-returns :
    (strtol : Text → ℤ) (opts : List Opt) (o : Options) (n t : ℕ) (mmap mkdir : ℕ → Bool)
    (events : List Event)
    → fold_options (set_option strtol) opts defaults ≡ some o
    → o.n_threads ≡ pos n
    → o.threads_per_dir ≡ pos t
    → 0 < t
    → mmap (u64 (word64 (pos n) * 4)) ≡ true
    → ((g : ℕ) → mkdir g ≡ true)
    → IsPossible events (first_parent n)
    → IsCalm events
    → n ≤ finishes events
    → let d = main mmap mkdir (events ++ (reaped ∷ [])) strtol opts 1 in
      (d.ending ≡ exits 0)
      × InOrder t 0 d.started
      × ((made d.started ≡ removed d.removed) ↔ (n % t ≡ 0))
unfolding main doit start_and_wait wait_and_remove
main-returns strtol opts o n zero mmap mkdir events parsed threads dirs positive maps works possible
      calm enough =
    absurd (omega arith)
main-returns strtol opts o n (suc t) mmap mkdir events parsed threads dirs positive maps works
      possible calm enough =
    let (q, ends) = wait_loop_returns n events possible calm enough in
    let all_start = starts_all_lem (suc t) mkdir works 0 0 n in
    let (order, count) = directories_lem (suc t) n mkdir positive works in
    rw (main, parsed, doit, threads, dirs, maps, start_and_wait, all_start, wait_and_remove, ends)
      (refl, order, count)

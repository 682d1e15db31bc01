-- ===== src/SmallTools/Tests.antt =====
-- Runs of the small programs.
use testunion.Common.{◌≡◌, refl, [], ◌∷◌, true, false, none, pos}
use testunion.SmallTools.{
  clone_range, sync, open_caches, write_three, drop_caches, seektest, run_tests, do_test, open_file,
}

drop_caches_runs :
    (drop_caches true true ≡ (sync ∷ sync ∷ open_caches ∷ write_three ∷ [], 0))
    × (drop_caches false true ≡ (sync ∷ sync ∷ open_caches ∷ [], 1))
unfolding drop_caches
drop_caches_runs = (refl, refl)

-- Without enough arguments there is no request.
clone_range_runs : clone_range (λ _. pos 7) 5 [] (pos 3) (pos 4) (λ ca. pos 0) ≡ (none, pos 1)
unfolding clone_range
clone_range_runs = refl

seektest_stops : seektest (λ _. false) ≡ (open_file 0 ∷ [], 1)
unfolding seektest run_tests do_test
seektest_stops = refl

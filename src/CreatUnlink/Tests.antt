-- ===== src/CreatUnlink/Tests.antt =====
-- The theorems of CreatUnlink at two files, with a kernel that does everything and with one that
-- refuses the second file.
use testunion.Common.{
  ℕ, ◌+◌, ◌*◌, ◌<◌, some, zero, suc, ◌≡◌, refl, arith, [], ◌∷◌, true, false, pos,
}
use testunion.CreatUnlink.{
  mkdir, chdir_in, chdir_up, rmdir, get_time, creat, close, unlink, did, failed, Kernel, try,
  initialize, cleanup, create_from, create_files, unlink_from, unlink_files, work, main,
}
use testunion.CreatUnlink.Time.{
  Timeval, account_time, borrow, carry, took, micros, account_time_lem,
}
use testunion.CreatUnlink.Left.{LeavesNothing, main-LeavesNothing}

abbrev willing : Kernel
willing t call = true

-- Only the first file can be created.
abbrev full : Kernel
full t (creat zero) = true
full t (creat (suc i)) = false
full t call = true

full_runs : main full 3 (pos 2) ≡ (
  did rmdir
      ∷ did chdir_up
      ∷ did (unlink 0)
      ∷ did get_time
      ∷ failed (creat 1)
      ∷ did (close 0)
      ∷ did (creat 0)
      ∷ did get_time
      ∷ did chdir_in
      ∷ did mkdir
      ∷ [],
  1,
)
unfolding main work initialize cleanup create_from create_files unlink_from unlink_files try
full_runs = refl

main-LeavesNothing_example : LeavesNothing (main full 3 (pos 2)).0
main-LeavesNothing_example =
    main-LeavesNothing full (λ t. refl) (λ t i there. refl) (λ t. refl) (λ t empty. refl) 3 (pos 2)

abbrev begun : Timeval
begun = record { tv_sec = 100; tv_usec = 900000 }

abbrev ended : Timeval
ended = record { tv_sec = 102; tv_usec = 100000 }

account_time_lem_example :
    (s : ℕ) × (u : ℕ) × (account_time 2 begun (some ended) 7 ≡ some (took (pos s) u 7))
    × (u < 1000000)
    × (micros begun + (s * 1000000 + u) ≡ micros ended)
account_time_lem_example =
    account_time_lem 2 begun ended 7 (omega arith) (omega arith) (omega arith) (omega arith)
      (omega arith)

took_runs : account_time 2 begun (some ended) 7 ≡ some (took (pos 1) 200000 7)
unfolding account_time borrow carry
took_runs = refl

-- ===== src/SlowRm/Tests.antt =====
-- The theorem of SlowRm at a kernel that fails in the second round.
use testunion.Common.{ℕ, ◌≡◌, refl, ◌==◌, not, length}
use testunion.SlowRm.{Kernel, Run, going, exited, killed, try, store, ignore, hammer, rounds, main}
use testunion.SlowRm.Laws.{Stands, main-Stands}

-- The call after the sixteenth is refused.
abbrev kernel : Kernel
kernel t call = not (length t == 16)

abbrev status_of : Run → ℕ
status_of (going t) = 0
status_of (exited t status) = status
status_of (killed t) = 135

main_runs : status_of (main kernel 2 2) ≡ 1
unfolding main rounds hammer try store ignore
main_runs = refl

main-Stands_example : Stands 2 2 2 (main kernel 2 2)
main-Stands_example = main-Stands kernel 2

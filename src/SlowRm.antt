-- ===== src/SlowRm.antt =====
-- incoming/luto-slow-rm.c: writes a file through a mapping, unlinks it while it is dirty, and starts
-- again.
pub mod Laws
mod Tests
use testunion.Common.{
  ℕ, zero, suc, ◌*◌, List, [], ◌∷◌, Bool, not, Option, none, some, ◌==◌, if◌then◌else◌,
}

-- SIZE
abbrev pub size : ℕ
size = 16 * 1048576

-- The calls of `hammer` on its file, and the dot that `main` writes.
pub data Call : Type 0 where
  open_file mmap munmap sync_file_range unlink ftruncate close dot : Call
  fallocate memset : ℕ → Call

-- A call that was made, and whether it succeeded. The latest comes first.
pub data Entry : Type 0 where
  did failed : Call → Entry

abbrev pub Trace : Type 0
Trace = List Entry

abbrev pub Kernel : Type 0
Kernel = Trace → Call → Bool

-- A run goes on with its trace, has left the program with a status, or was killed by a signal.
pub data Run : Type 0 where
  going killed : Trace → Run
  exited : Trace → ℕ → Run

abbrev pub and_then : Run → (Trace → Run) → Run
and_then (going t) next = next t
and_then (exited t status) next = exited t status
and_then (killed t) next = killed t

module _ (kernel : Kernel) where
  -- A call whose failure is an `err(1, …)`, and one whose result is not looked at.
  unfoldable pub try : Call → Trace → Run
  try call t = if kernel t call then going (did call ∷ t) else exited (failed call ∷ t) 1

  unfoldable pub ignore : Call → Trace → Run
  ignore call t = going ((if kernel t call then did call else failed call) ∷ t)

  -- A store that the kernel cannot back, as in a file without blocks, is a signal.
  unfoldable pub store : Call → Trace → Run
  store call t = if kernel t call then going (did call ∷ t) else killed (failed call ∷ t)

  unfoldable pub hammer : Trace → Run
  hammer t0 = and_then (try open_file t0) λ t1. and_then (ignore (fallocate size) t1) λ t2.
      and_then (try mmap t2) λ t3. and_then (store (memset size) t3) λ t4.
        and_then (try munmap t4) λ t5.
          and_then (try sync_file_range t5)
            λ t6. and_then (try unlink t6) λ t7. and_then (try ftruncate t7) λ t8. ignore close t8

  -- `while (true)`, cut off after as many rounds as the fuel says.
  unfoldable pub rounds : ℕ → Trace → Run
  rounds zero t = going t
  rounds (suc fuel) t = and_then (hammer t) λ u. and_then (ignore dot u) λ v. rounds fuel v

  unfoldable pub main : ℕ → ℕ → Run
  main fuel argc = if not (argc == 2) then exited [] 1 else rounds fuel []

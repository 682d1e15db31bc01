-- ===== src/CreatUnlink.antt =====
-- incoming/creat_unlink.c: makes a directory, creates files in it, unlinks them, and takes the
-- directory away again.
pub mod Laws
pub mod Left
pub mod Time
mod Tests
use testunion.Common.{
  ℕ, zero, suc, ◌+◌, List, [], ◌∷◌, Bool, true, false, not, ◌||◌, if◌then◌else◌, ◌==◌, leb, ℤ, pos,
  negsuc, is_zero,
}

-- The calls. `chdir_in` goes into `tst_dir` and `chdir_up` out of it; `creat` and `close` are those
-- of the file with this number for its name; `get_time` is `gettimeofday` for the start time.
pub data Call : Type 0 where
  mkdir chdir_in chdir_up rmdir get_time : Call
  creat close unlink : ℕ → Call

-- A call that was made, and whether it succeeded. The latest comes first.
pub data Entry : Type 0 where
  did failed : Call → Entry

abbrev pub Trace : Type 0
Trace = List Entry

-- What the kernel answers, given what was done before.
abbrev pub Kernel : Type 0
Kernel = Trace → Call → Bool

module _ (kernel : Kernel) where
  -- A call that is made: what was done then, and whether it succeeded.
  unfoldable pub try : Call → Trace → Trace × Bool
  try call t = if kernel t call then (did call ∷ t, true) else (failed call ∷ t, false)

  -- The results are `true` for a return of 0.
  unfoldable pub initialize : Trace → Trace × Bool
  initialize t =
      let made = try mkdir t in
      let moved = try chdir_in made.0 in
      let undone = try rmdir moved.0 in
      if not made.1 then made else if not moved.1 then (undone.0, false) else moved

  unfoldable pub cleanup : Trace → Trace × Bool
  cleanup t =
      let moved = try chdir_up t in
      let gone = try rmdir moved.0 in if not moved.1 then moved else gone

  -- The loop of `create_files` from file `i` on; the result is the `i` at which it stops. What
  -- `close` returns is not looked at.
  unfoldable pub create_from : ℕ → ℕ → Trace → Trace × ℕ
  create_from i zero t = (t, i)
  create_from i (suc left) t =
      let made = try (creat i) t in
      let closed = try (close i) made.0 in
      let rest = create_from (i + 1) left closed.0 in if made.1 then rest else (made.0, i)

  unfoldable pub create_files : ℕ → Trace → Trace × ℕ
  create_files nfiles t =
      let timed = try get_time t in if timed.1 then create_from 0 nfiles timed.0 else (timed.0, 0)

  unfoldable pub unlink_from : ℕ → ℕ → Trace → Trace × Bool
  unlink_from i zero t = (t, true)
  unlink_from i (suc left) t =
      let gone = try (unlink i) t in
      let rest = unlink_from (i + 1) left gone.0 in if gone.1 then rest else gone

  unfoldable pub unlink_files : ℕ → Trace → Trace × Bool
  unlink_files nfiles t =
      let timed = try get_time t in if timed.1 then unlink_from 0 nfiles timed.0 else timed

  -- `main` from `initialize` on; the result is the exit status.
  unfoldable pub work : ℕ → Trace × ℕ
  work nfiles =
      let begun = initialize [] in
      let made = create_files nfiles begun.0 in
      let gone = unlink_files made.1 made.0 in
      let left = cleanup gone.0 in
      if not begun.1
      then (begun.0, 1)
      else if not (made.1 == nfiles)
      then (left.0, 1)
      else if not gone.1
      then (gone.0, 1)
      else (left.0, (if left.1 then 0 else 1))

  -- `nfiles` is what `atoi` returns.
  unfoldable pub main : ℕ → ℤ → Trace × ℕ
  main argc (negsuc n) = ([], 1)
  main argc (pos n) = if leb argc 2 || n == 0 then ([], 1) else work n

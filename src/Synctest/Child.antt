-- ===== src/Synctest/Child.antt =====
-- The work of one child process: `do_child`, `do_one_file`, `unlink_one_file` and what they call.
-- A failed call ends the process, so a function returns the child as it goes on, or its end.
use testunion.Common.{
  ℕ, zero, suc, ◌+◌, ◌-◌, ◌*◌, ◌/◌, List, [], ◌∷◌, Bool, if◌then◌else◌, Option, none, some, ltb,
  leb,
}

-- The names of `mk_filename` and `mk_new_filename` below `dirname`, read as their numbers.
pub record Name : Type 0 where
  pub thread_group : ℕ
  pub pid : ℕ
  pub pass : Option ℕ
  pub fileno : ℕ

-- The system calls of a child. `open_dir` is the `open` of its directory, `open_file` has O_SYNC or
-- not, and `fsync_dir` is the `fsync` of `dir_fd`.
pub data Call : Type 0 where
  open_dir : ℕ → Call
  open_file : Name → Bool → Call
  write : ℕ → Call
  fsync close fsync_dir : Call
  rename : Name → Name → Call
  unlink : Name → Call

-- The static `to_write`, and the calls that succeeded, the latest first.
pub record Child : Type 0 where
  pub to_write : ℕ
  pub calls : List Call

-- A child that has just started.
abbrev pub first_child : Child
first_child = record { to_write = 5000; calls = [] }

-- `exited` has the call whose failure led to `exit(1)`, and the calls that succeeded before it.
pub data Run : Type 0 where
  going : Child → Run
  exited : Call → List Call → Run

unfoldable pub and_then : Run → (Child → Run) → Run
and_then (going c) next = next c
and_then (exited call calls) next = exited call calls

abbrev pub n_files : ℕ
n_files = 100

abbrev pub unlink_lag : ℕ
unlink_lag = 30

abbrev pub rename_passes : ℕ
rename_passes = 3

-- The options that a child reads, its directory and its process.
pub record Settings : Type 0 where
  pub use_fsync : Bool
  pub use_osync : Bool
  pub fsync_parent : Bool
  pub do_unlink : Bool
  pub thread_group : ℕ
  pub pid : ℕ

-- `to_write *= 1.1`, cut off to an `int`, and the reset.
unfoldable pub next_to_write : ℕ → ℕ
next_to_write n = let grown = n * 11 / 10 in if leb grown 250000 then grown else 5000

-- `kernel calls call` tells whether the call succeeds after the calls made so far; for `write`, that
-- it writes all of it.
module _ (kernel : List Call → Call → Bool) (set : Settings) where
  unfoldable pub make_call : Call → Child → Run
  make_call call c =
      if kernel c.calls call
      then going (record { to_write = c.to_write; calls = call ∷ c.calls })
      else exited call c.calls

  abbrev pub mk_filename : ℕ → Name
  mk_filename n = record { thread_group = set.thread_group; pid = set.pid; pass = none; fileno = n }

  abbrev pub mk_new_filename : ℕ → ℕ → Name
  mk_new_filename n p = record {
    thread_group = set.thread_group;
    pid = set.pid;
    pass = some p;
    fileno = n;
  }

  unfoldable pub sync_dir : Child → Run
  sync_dir c = if set.fsync_parent then make_call fsync_dir c else going c

  unfoldable pub write_stuff_to : Child → Run
  write_stuff_to c =
      and_then (make_call (write c.to_write) c)
        λ d. going (record { to_write = next_to_write d.to_write; calls = d.calls })

  -- `pass` is the `rename_pass` of the loop, and `left` the passes that follow.
  unfoldable pub rename_from : ℕ → ℕ → ℕ → Name → Child → Run
  rename_from n pass zero name c = going c
  rename_from n pass (suc left) name c =
      and_then (make_call (rename name (mk_new_filename n pass)) c)
        λ d. and_then (sync_dir d) λ e. rename_from n (pass + 1) left (mk_new_filename n pass) e

  unfoldable pub do_one_file : ℕ → Child → Run
  do_one_file n c = and_then (make_call (open_file (mk_filename n) set.use_osync) c) λ c1.
      and_then (write_stuff_to c1) λ c2.
        and_then (if set.use_fsync then make_call fsync c2 else going c2) λ c3.
          and_then (make_call close c3)
            λ c4. and_then (sync_dir c4) λ c5. rename_from n 0 rename_passes (mk_filename n) c5

  unfoldable pub unlink_one_file : ℕ → ℕ → Child → Run
  unlink_one_file n pass c =
      if set.do_unlink
      then and_then (make_call (unlink (mk_new_filename n pass)) c) sync_dir
      else going c

  -- The first loop of `do_child` from file `n` on, and the loop that unlinks the last files.
  unfoldable pub create_from : ℕ → ℕ → Child → Run
  create_from n zero c = going c
  create_from n (suc left) c = and_then (do_one_file n c) λ d.
      and_then
        (if ltb n unlink_lag
          then going d
          else unlink_one_file (n - unlink_lag) (rename_passes - 1) d)
        λ e. create_from (n + 1) left e

  unfoldable pub unlink_from : ℕ → ℕ → Child → Run
  unlink_from n zero c = going c
  unlink_from n (suc left) c =
      and_then (unlink_one_file n (rename_passes - 1) c) λ d. unlink_from (n + 1) left d

  unfoldable pub do_child : Child → Run
  do_child c =
      and_then (make_call (open_dir set.thread_group) c)
        λ d. and_then (create_from 0 n_files d) λ e. unlink_from (n_files - unlink_lag) unlink_lag e

  -- `for (iter = 0; iter < n_iters; iter++) do_child();` of `doit`.
  unfoldable pub iterations : ℕ → Child → Run
  iterations zero c = going c
  iterations (suc left) c = and_then (do_child c) λ d. iterations left d

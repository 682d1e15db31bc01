-- ===== src/Snaptest.antt =====
-- incoming/lxo-snaptest.cc, without -D options: appends the same blocks to a file through leveldb and
-- to another one by write, while snapshots are taken and compared in the background.
pub mod Laws
pub mod Whole
mod Tests
use testunion.Common.{
  ℕ, zero, suc, ◌+◌, ◌-◌, ◌*◌, List, [], ◌∷◌, ◌++◌, Bool, true, false, not, ◌&&◌, ◌||◌,
  if◌then◌else◌, ◌==◌, ltb, Option, none, some, length, take, ℤ, sub_ℕ,
}

-- MAXROUNDS
abbrev pub max_rounds : ℕ
max_rounds = 400

-- The two files: `ca` is written, `db` is appended to through leveldb.
pub record Files : Type 0 where
  pub ca : List ℕ
  pub db : List ℕ

-- A command that `system` starts in the background: it waits for some microseconds, unless that is
-- left out, takes a snapshot with a number, and compares the files in it after 5 seconds; if they are
-- equal it deletes the snapshot, and otherwise it kills the process `pid`, which is this program.
pub record Command : Type 0 where
  pub pause : Option ℤ
  pub number : ℕ
  pub pid : ℕ

-- Where in a round the program can find itself killed by the command of an earlier one: before it
-- starts the next command, and before each change of a file.
pub data Stage : Type 0 where
  before_command before_append before_write : Stage

-- What a round meets: the three random bytes, if they are read, whether the command is started, how
-- much of a block `Append` leaves in the file and whether it succeeds, how much `write` writes, and
-- whether the program is killed by then.
pub record Turn : Type 0 where
  pub random : Option (ℕ × ℕ × ℕ)
  pub starts : Bool
  pub appended : ℕ
  pub append_ok : Bool
  pub written : ℕ
  pub killed : Stage → Bool

-- `usleep` is left out where both bytes are 0. The second byte is signed if the first is not 0.
unfoldable pub pause_of : ℕ → ℕ → Option ℤ
pause_of first second =
    if not (first == 0) || not (second == 0)
    then some (
        sub_ℕ (1000 * first + second) (if not (first == 0) && not (ltb second 128) then 256 else 0))
    else none

unfoldable pub ones : ℕ → List ℕ
ones zero = []
ones (suc n) = 1 ∷ ones n

-- `buf` after the random bytes, and the first `size` bytes of it.
unfoldable pub block : ℕ × ℕ × ℕ → List ℕ
block (a, b, c) = take (4096 - a) (a ∷ b ∷ c ∷ ones 4093)

-- A run: the files whenever they change, the commands, the files at the end, `blocks`, `totalsize`,
-- and whether no `break` was reached and the program not killed.
pub record Run : Type 0 where
  pub moments : List Files
  pub commands : List Command
  pub files : Files
  pub blocks : ℕ
  pub totalsize : ℕ
  pub whole : Bool

abbrev pub files : List ℕ → List ℕ → Files
files ca db = record { ca = ca; db = db }

-- A `break`, or the end by a signal.
abbrev pub broken : Files → ℕ → ℕ → Run
broken f blocks totalsize = record {
  moments = [];
  commands = [];
  files = f;
  blocks = blocks;
  totalsize = totalsize;
  whole = false;
}

-- The files change, and a command is started, before the rest of a run.
abbrev pub changed : Files → Run → Run
changed f r = record r { moments = f ∷ r.moments }

abbrev pub started : Command → Run → Run
started c r = record r { commands = c ∷ r.commands }

-- A round after the random bytes. `next` is what follows it.
unfoldable pub round : ℕ → Turn → ℕ × ℕ × ℕ → Files → ℕ → ℕ → (Files → ℕ → Run) → Run
round pid t random f blocks totalsize next =
    let buf = block random in
    let size = 4096 - random.0 in
    let appended = files f.ca (f.db ++ (if t.append_ok then buf else take t.appended buf)) in
    let both = files (f.ca ++ take t.written buf) appended.db in
    let command : Command = record {
      pause = pause_of random.1 random.2;
      number = blocks;
      pid = pid;
    } in
    if t.killed before_command || not t.starts
    then broken f blocks totalsize
    else started command (
        if t.killed before_append
        then broken f blocks totalsize
        else changed appended (
            if not t.append_ok || t.killed before_write
            then broken appended blocks totalsize
            else changed both (
                if not (t.written == size)
                then broken both blocks totalsize
                else next both (totalsize + size))))

-- The loop, with `left` rounds to go.
unfoldable pub rounds : ℕ → (ℕ → Turn) → ℕ → Files → ℕ → ℕ → Run
rounds pid turns zero f blocks totalsize = record {
  moments = [];
  commands = [];
  files = f;
  blocks = blocks;
  totalsize = totalsize;
  whole = true;
}
rounds pid turns (suc left) f blocks totalsize =
    let next : Files → ℕ → Run = λ g total. rounds pid turns left g (blocks + 1) total in
    elim (turns blocks).random [
      | none ↦ broken f blocks totalsize
      | some random ↦ round pid (turns blocks) random f blocks totalsize next
    ]

-- `main`: an `abort`, or the loop. The arguments are what `getpid` returns, and whether /dev/urandom opens, whether the
-- subvolume is made, and whether the two files are opened, which are empty then.
unfoldable pub main : ℕ → Bool → Bool → Bool → Bool → (ℕ → Turn) → Option Run
main pid urandom subvolume wd out turns =
    if urandom && (subvolume && (wd && out))
    then some (rounds pid turns max_rounds (files [] []) 0 0)
    else none

-- ===== src/Synctest/History.antt =====
-- The files that the calls of a child leave, and how many there are at any time.
use testunion.Common.{ℕ, ◌≤◌, ◌≡◌, ◌≢◌, All, List, [], ◌∷◌, ◌++◌, Bool, true, length}
use testunion.Synctest.Child.{
  Name, Call, open_dir, open_file, write, fsync, close, fsync_dir, rename, unlink,
}

-- The names in a call are those of one process.
abbrev pub IsOwn : ℕ → Call → Type 0
IsOwn pid (open_file n sync) = n.pid ≡ pid
IsOwn pid (rename from to) = (from.pid ≡ pid) × (to.pid ≡ pid)
IsOwn pid (unlink n) = n.pid ≡ pid
IsOwn pid (open_dir g) = Unit
IsOwn pid (write n) = Unit
IsOwn pid fsync = Unit
IsOwn pid close = Unit
IsOwn pid fsync_dir = Unit

-- No file of these has the name.
abbrev pub IsNew : Name → List Name → Type 0
IsNew n names = All (λ m. m ≢ n) names

-- What a call that succeeds does to the files. A file is renamed or unlinked only if it is there, it
-- is created or renamed only to a name that no other file has, and a write reads at most the 500000
-- bytes of `buf`.
pub data Does : Call → List Name → List Name → Type 0 where
  opens :
      (n : Name) (sync : Bool) (xs ys : List Name)
      → IsNew n xs
      → IsNew n ys
      → Does (open_file n sync) (xs ++ ys) (xs ++ (n ∷ ys))
  renames :
      (from to : Name) (xs ys : List Name)
      → IsNew to xs
      → IsNew to ys
      → Does (rename from to) (xs ++ (from ∷ ys)) (xs ++ (to ∷ ys))
  unlinks : (n : Name) (xs ys : List Name) → Does (unlink n) (xs ++ (n ∷ ys)) (xs ++ ys)
  opens_dir : (g : ℕ) (names : List Name) → Does (open_dir g) names names
  writes : (n : ℕ) (names : List Name) → n ≤ 500000 → Does (write n) names names
  fsyncs : (names : List Name) → Does fsync names names
  closes : (names : List Name) → Does close names names
  fsyncs_dir : (names : List Name) → Does fsync_dir names names

-- The calls, the latest first, all succeeded, are on the files of the process, and they lead from no
-- file to these, with at most `limit` files at any time.
pub data History (kernel : List Call → Call → Bool) (pid limit : ℕ)
    : List Call → List Name → Type 0 where
  start : History kernel pid limit [] []
  next :
      (calls : List Call) (call : Call) (names names' : List Name)
      → kernel calls call ≡ true
      → IsOwn pid call
      → History kernel pid limit calls names
      → Does call names names'
      → length names' ≤ limit
      → History kernel pid limit (call ∷ calls) names'

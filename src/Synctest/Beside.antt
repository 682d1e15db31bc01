-- ===== src/Synctest/Beside.antt =====
-- A call of one process beside the files of others.
use mathlib.Core.List.{append_assoc}
use testunion.Common.{ℕ, ◌≡◌, ◌≢◌, List, [], ◌∷◌, ◌++◌, All, All-append, ◌∙◌, ap}
use testunion.Synctest.Child.{Name, Call}
use testunion.Synctest.History.{
  IsOwn, IsNew, Does, opens, renames, unlinks, opens_dir, writes, fsyncs, closes, fsyncs_dir,
}

-- The files of other processes.
abbrev pub IsForeign : ℕ → List Name → Type 0
IsForeign pid names = All (λ m. m.pid ≢ pid) names

foreign-IsNew :
    (n : Name) (pid : ℕ) (names : List Name) → n.pid ≡ pid → IsForeign pid names → IsNew n names
foreign-IsNew n pid [] own h = tt
foreign-IsNew n pid (m ∷ names) own h =
    ((λ e. h.0 (ap (λ l. l.pid) e ∙ own)), foreign-IsNew n pid names own h.1)

-- A call does the same beside files of other processes.
pub Does-before :
    (pid : ℕ) (c : Call) (a b others : List Name)
    → IsOwn pid c
    → IsForeign pid others
    → Does c a b
    → Does c (others ++ a) (others ++ b)
Does-before pid _ _ _ others own h (opens n sync xs ys l r) =
    rw (← append_assoc others xs ys, ← append_assoc others xs (n ∷ ys))
      (opens n sync (others ++ xs) ys (All-append _ others xs (foreign-IsNew n pid others own h) l)
        r)
Does-before pid _ _ _ others own h (renames from to xs ys l r) =
    rw (← append_assoc others xs (from ∷ ys), ← append_assoc others xs (to ∷ ys))
      (renames from to (others ++ xs) ys
        (All-append _ others xs (foreign-IsNew to pid others own.1 h) l) r)
Does-before pid _ _ _ others own h (unlinks n xs ys) =
    rw (← append_assoc others xs (n ∷ ys), ← append_assoc others xs ys)
      (unlinks n (others ++ xs) ys)
Does-before pid _ _ _ others own h (opens_dir g names) = opens_dir g (others ++ names)
Does-before pid _ _ _ others own h (writes n names le) = writes n (others ++ names) le
Does-before pid _ _ _ others own h (fsyncs names) = fsyncs (others ++ names)
Does-before pid _ _ _ others own h (closes names) = closes (others ++ names)
Does-before pid _ _ _ others own h (fsyncs_dir names) = fsyncs_dir (others ++ names)

pub Does-after :
    (pid : ℕ) (c : Call) (a b others : List Name)
    → IsOwn pid c
    → IsForeign pid others
    → Does c a b
    → Does c (a ++ others) (b ++ others)
Does-after pid _ _ _ others own h (opens n sync xs ys l r) =
    rw (append_assoc xs ys others, append_assoc xs (n ∷ ys) others)
      (opens n sync xs (ys ++ others) l
        (All-append _ ys others r (foreign-IsNew n pid others own h)))
Does-after pid _ _ _ others own h (renames from to xs ys l r) =
    rw (append_assoc xs (from ∷ ys) others, append_assoc xs (to ∷ ys) others)
      (renames from to xs (ys ++ others) l
        (All-append _ ys others r (foreign-IsNew to pid others own.1 h)))
Does-after pid _ _ _ others own h (unlinks n xs ys) =
    rw (append_assoc xs (n ∷ ys) others, append_assoc xs ys others) (unlinks n xs (ys ++ others))
Does-after pid _ _ _ others own h (opens_dir g names) = opens_dir g (names ++ others)
Does-after pid _ _ _ others own h (writes n names le) = writes n (names ++ others) le
Does-after pid _ _ _ others own h (fsyncs names) = fsyncs (names ++ others)
Does-after pid _ _ _ others own h (closes names) = closes (names ++ others)
Does-after pid _ _ _ others own h (fsyncs_dir names) = fsyncs_dir (names ++ others)

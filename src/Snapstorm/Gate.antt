-- ===== src/Snapstorm/Gate.antt =====
-- What the threads of snapstorm.c and its main are for, without the threads: a gate that opens when
-- all have arrived, and closes when all have left.
use testunion.Common.{ℕ, ◌+◌, ◌<◌, Bool, true, false}

pub record Gate : Type 0 where
  pub arrived : ℕ
  pub opened : Bool
  pub entered : ℕ
  pub left : ℕ
  pub closed : Bool

abbrev pub gate : ℕ → Bool → ℕ → ℕ → Bool → Gate
gate a o e l c = record { arrived = a; opened = o; entered = e; left = l; closed = c }

module _ (n : ℕ) where
  -- What may happen at a gate for `n`.
  pub data Event : Gate → Gate → Type 0 where
    arrive : (a l : ℕ) (c : Bool) → a < n → Event (gate a false 0 l c) (gate (a + 1) false 0 l c)
    open_up : (l : ℕ) (c : Bool) → Event (gate n false 0 l c) (gate n true 0 l c)
    enter : (e l : ℕ) (c : Bool) → e < n → Event (gate n true e l c) (gate n true (e + 1) l c)
    leave : (e l : ℕ) (c : Bool) → l < e → Event (gate n true e l c) (gate n true e (l + 1) c)
    close : Event (gate n true n n false) (gate n true n n true)

  pub data Course : Gate → Type 0 where
    shut : Course (gate 0 false 0 0 false)
    then_comes : (g g' : Gate) → Course g → Event g g' → Course g'

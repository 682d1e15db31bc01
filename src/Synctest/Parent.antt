-- ===== src/Synctest/Parent.antt =====
-- `doit` and the options of `main`: the children that the parent starts, their directories, and the
-- loop that waits for them.
use testunion.Common.{
  ℕ, zero, suc, ◌+◌, ◌-◌, ◌/◌, ◌%◌, List, [], ◌∷◌, Bool, if◌then◌else◌, ◌==◌, set,
}

-- What the parent does: the `mkdir` of `make_dir`, the fork of a child, the `rmdir` of `remove_dir`,
-- whose answer is not looked at.
pub data Action : Type 0 where
  make_dir : ℕ → Action
  start_child : ℕ → ℕ → Action
  remove_dir : ℕ → Action

-- The loop that forks child `this_child_index` in directory `thread_group`. `groups` is
-- `thread_group + 1`, which counts the directories made. `mkdir` tells for each directory whether it
-- is made; where it is not, `exit(1)` ends the loop.
module _ (threads_per_dir : ℕ) (mkdir : ℕ → Bool) where
  unfoldable pub start_from : ℕ → ℕ → ℕ → List Action
  start_from this_child_index groups zero = []
  start_from this_child_index groups (suc left) =
      let in_new = start_from (this_child_index + 1) (groups + 1) left in
      let in_old = start_from (this_child_index + 1) groups left in
      if this_child_index % threads_per_dir == 0
      then (if mkdir groups
          then make_dir groups ∷ start_child this_child_index groups ∷ in_new
          else [])
      else start_child this_child_index (groups - 1) ∷ in_old

-- The last loop of `doit`, from `thread_group` on.
unfoldable pub remove_from : ℕ → ℕ → List Action
remove_from thread_group zero = []
remove_from thread_group (suc left) = remove_dir thread_group ∷ remove_from (thread_group + 1) left

unfoldable pub remove_dirs : ℕ → ℕ → List Action
remove_dirs n_threads threads_per_dir = remove_from 0 (n_threads / threads_per_dir)

-- The parent while it waits: the shared `child_status`, `children_left`, and the stars printed.
pub record Parent : Type 0 where
  pub child_status : List ℕ
  pub children_left : ℕ
  pub stars : ℕ

abbrev pub parent : List ℕ → ℕ → ℕ → Parent
parent statuses left stars = record { child_status = statuses; children_left = left; stars = stars }

-- The `for` loop after each `wait3`: every status 1 becomes 2.
unfoldable pub scan : List ℕ → ℕ → ℕ → Parent
scan [] children_left stars = parent [] children_left stars
scan (s ∷ rest) children_left stars =
    let one = scan rest (children_left - 1) (stars + 1) in
    let other = scan rest children_left stars in
    if s == 1
    then parent (2 ∷ one.child_status) one.children_left one.stars
    else parent (s ∷ other.child_status) other.children_left other.stars

abbrev pub unstarted : ℕ → List ℕ
unstarted zero = []
unstarted (suc n) = 0 ∷ unstarted n

-- The parent after `memset` and the forks.
unfoldable pub first_parent : ℕ → Parent
first_parent n_threads = parent (unstarted n_threads) n_threads 0

-- How `wait3` returns, and what the children do meanwhile: `finish i` is the store of child `i`
-- before its `exit(0)`.
pub data Event : Type 0 where
  finish : ℕ → Event
  reaped interrupted wait_error : Event

pub data Wait : Type 0 where
  finished : Parent → Wait
  waiting : Parent → Wait
  failed : Parent → Wait

-- The loop `while (children_left)` along the events: `waiting` where they end before the loop does.
unfoldable pub wait_loop : List Event → Parent → Wait
wait_loop [] p = if p.children_left == 0 then finished p else waiting p
wait_loop (finish i ∷ events) p =
    let rest = wait_loop events (parent (set p.child_status i 1) p.children_left p.stars) in
    if p.children_left == 0 then finished p else rest
wait_loop (reaped ∷ events) p =
    let rest = wait_loop events (scan p.child_status p.children_left p.stars) in
    if p.children_left == 0 then finished p else rest
wait_loop (interrupted ∷ events) p =
    let rest = wait_loop events p in if p.children_left == 0 then finished p else rest
wait_loop (wait_error ∷ events) p = if p.children_left == 0 then finished p else failed p

-- ===== src/Synctest/Ends.antt =====
-- How a run of a child ends, and the files that are there then; for `do_one_file` and what it calls.
use testunion.Common.{
  ℕ, zero, suc, ◌+◌, ◌≤◌, ◌<◌, ◌≡◌, ◌≢◌, All, ap, refl, arith, List, [], ◌∷◌, Bool, true, false,
  if◌then◌else◌, length,
}
use testunion.Synctest.Child
use testunion.Synctest.Child.{
  Name, Call, open_dir, open_file, write, fsync, close, fsync_dir, rename, unlink, Child, Run,
  going, exited, and_then, Settings, next_to_write, make_call, sync_dir, write_stuff_to,
  rename_from, do_one_file, unlink_one_file, create_from, unlink_from, do_child, iterations,
  unlink_lag,
}
use testunion.Synctest.History.{
  IsOwn, IsNew, Does, opens, renames, writes, fsyncs, closes, fsyncs_dir, History, next,
}

-- The next size of a write lies between 5000 and 250000 if the last was at least 5000.
next_to_write_bounds : (n : ℕ) → 5000 ≤ n → (5000 ≤ next_to_write n) × (next_to_write n ≤ 250000)
unfolding next_to_write
next_to_write_bounds n h = ground arith

abbrev pub limit : ℕ
limit = 31

module _ (kernel : List Call → Call → Bool) (pid : ℕ) where
  -- The child has made these calls, these files are there, and its next write fits.
  pub record IsAt (names : List Name) (c : Child) : Type 0 where
    pub history : History kernel pid limit c.calls names
    pub fits : length names ≤ limit
    pub least : 5000 ≤ c.to_write
    pub most : c.to_write ≤ 250000

  -- A run that goes on has these files. One that ends does so by a call that fails, and up to there
  -- its calls are a history.
  abbrev pub Ends : List Name → Run → Type 0
  Ends names (going c) = IsAt names c
  Ends names (exited call calls) =
      (kernel calls call ≡ false) × ((names' : List Name) × History kernel pid limit calls names')

  pub Ends-and_then :
      {names : List Name} (names' : List Name) (r : Run) (f : Child → Run)
      → Ends names r
      → ((c : Child) → IsAt names c → Ends names' (f c))
      → Ends names' (and_then r f)
  unfolding and_then
  Ends-and_then names' (going c) f h k = k c h
  Ends-and_then names' (exited call calls) f h k = h

  Ends-if :
      (names : List Name) (b : Bool) (r s : Run)
      → Ends names r
      → Ends names s
      → Ends names (if b then r else s)
  Ends-if names true r s h k = h
  Ends-if names false r s h k = k

  pub Ends-test :
      (names : List Name) (b : Bool) (r s : Run)
      → (b ≡ true → Ends names r)
      → (b ≡ false → Ends names s)
      → Ends names (if b then r else s)
  Ends-test names true r s h k = h refl
  Ends-test names false r s h k = k refl

module _ (kernel : List Call → Call → Bool) (set : Settings) where
  -- A file with another number has another name.
  unlike-IsNew :
      (to : Name) (names : List Name) → All (λ m. m.fileno ≢ to.fileno) names → IsNew to names
  unlike-IsNew to [] h = tt
  unlike-IsNew to (m ∷ names) h = ((λ e. h.0 (ap (λ l. l.fileno) e)), unlike-IsNew to names h.1)

  pub Ends-make_call :
      {names names' : List Name} {call : Call} (c : Child)
      → Does call names names'
      → length names' ≤ limit
      → IsOwn set.pid call
      → IsAt kernel set.pid names c
      → Ends kernel set.pid names' (make_call kernel set call c)
  unfolding make_call
  Ends-make_call {names} {names'} {call} c does fits own h =
      Ends-test kernel set.pid names' (kernel c.calls call) _ _
        (λ succeeds. record {
          history = next c.calls call names names' succeeds own h.history does fits;
          fits = fits;
          least = h.least;
          most = h.most;
        })
        λ fails. (fails, (names, h.history))

  pub Ends-sync_dir :
      {names : List Name} (c : Child)
      → IsAt kernel set.pid names c
      → Ends kernel set.pid names (sync_dir kernel set c)
  unfolding sync_dir
  Ends-sync_dir {names} c h =
      Ends-if kernel set.pid names set.fsync_parent _ _
        (Ends-make_call c (fsyncs_dir names) h.fits tt h) h

  pub Ends-write :
      {names : List Name} (c : Child)
      → IsAt kernel set.pid names c
      → Ends kernel set.pid names (write_stuff_to kernel set c)
  unfolding write_stuff_to
  Ends-write {names} c h =
      Ends-and_then kernel set.pid _ _ _
        (Ends-make_call c (writes c.to_write names (omega (arith, h.most))) h.fits tt h)
        λ d k. record {
          history = k.history;
          fits = k.fits;
          least = (next_to_write_bounds d.to_write k.least).0;
          most = (next_to_write_bounds d.to_write k.least).1;
        }

  abbrev pub new_name : ℕ → Name
  new_name n = Child.mk_new_filename kernel set n 2

  abbrev renamed : ℕ → ℕ → ℕ → Name → Name
  renamed n pass zero name = name
  renamed n pass (suc left) name =
      renamed n (pass + 1) left (Child.mk_new_filename kernel set n pass)

  Ends-rename :
      (n pass left : ℕ) (name : Name) (names : List Name) (c : Child)
      → name.pid ≡ set.pid
      → All (λ m. m.fileno ≢ n) names
      → IsAt kernel set.pid (name ∷ names) c
      → Ends kernel set.pid
          (renamed n pass left name ∷ names)
          (rename_from kernel set n pass left name c)
  unfolding rename_from
  Ends-rename n pass zero name names c own others h = h
  Ends-rename n pass (suc left) name names c own others h =
      let to = Child.mk_new_filename kernel set n pass in
      Ends-and_then kernel set.pid _ _ _
        (Ends-make_call c (renames name to [] names tt (unlike-IsNew to names others)) h.fits
          (own, refl) h)
        λ d k.
          Ends-and_then kernel set.pid _ _ _ (Ends-sync_dir d k)
            λ e. Ends-rename n (pass + 1) left to names e refl others

  -- `do_one_file` adds one file, under the name of the last pass.
  pub Ends-do_one_file :
      (n : ℕ) (names : List Name) (c : Child)
      → length names < limit
      → All (λ m. m.fileno ≢ n) names
      → IsAt kernel set.pid names c
      → Ends kernel set.pid (new_name n ∷ names) (do_one_file kernel set n c)
  unfolding do_one_file
  Ends-do_one_file n names c fits others h =
      let name = Child.mk_filename kernel set n in
      Ends-and_then kernel set.pid _ _ _
        (Ends-make_call c (opens name set.use_osync [] names tt (unlike-IsNew name names others))
          (omega (arith, fits)) refl h)
        λ c1 h1. Ends-and_then kernel set.pid _ _ _ (Ends-write c1 h1) λ c2 h2.
          Ends-and_then kernel set.pid _ _ _ (synced (name ∷ names) c2 h2) λ c3 h3.
            Ends-and_then kernel set.pid _ _ _
              (Ends-make_call c3 (closes (name ∷ names)) h3.fits tt h3)
              λ c4 h4.
                Ends-and_then kernel set.pid _ _ _ (Ends-sync_dir c4 h4)
                  λ c5. Ends-rename n 0 3 name names c5 refl others
    where
      synced :
          (ns : List Name) (d : Child)
          → IsAt kernel set.pid ns d
          → Ends kernel set.pid ns (if set.use_fsync then make_call kernel set fsync d else going d)
      synced ns d k =
          Ends-if kernel set.pid ns set.use_fsync _ _ (Ends-make_call d (fsyncs ns) k.fits tt k) k

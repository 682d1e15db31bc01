-- ===== src/Synctest/Lag.antt =====
-- With `do_unlink`, files are unlinked UNLINK_LAG files later: no more than 31 are there at a time,
-- and none when `do_child` returns.
use Prim.Native.Nat.{min}
use mathlib.Core.List.{append-nil}
use mathlib.Core.Bool.{true≢false}
use testunion.Common.{
  ℕ, zero, suc, ◌+◌, ◌-◌, ◌≤◌, ◌<◌, ◌≡◌, ◌≢◌, All, refl, arith, List, [], ◌∷◌, ◌++◌, Bool, true,
  if◌then◌else◌, ltb, length, ap, subst, sym, ◌∙◌, ltb→lt,
}
use testunion.Synctest.Child.{
  Name, Call, unlink, Child, going, Settings, unlink_one_file, create_from, unlink_from, do_child,
  iterations, unlink_lag, first_child,
}
use testunion.Synctest.History.{Does, unlinks, opens_dir, start}
use testunion.Synctest.Ends.{
  limit, IsAt, Ends, Ends-and_then, Ends-test, Ends-make_call, Ends-sync_dir, Ends-do_one_file,
  new_name,
}

module _ (kernel : List Call → Call → Bool) (set : Settings) where
  abbrev final_name : ℕ → Name
  final_name = new_name kernel set

  -- The newest `k` of the files before file `n`, the newest first.
  abbrev recent : ℕ → ℕ → List Name
  recent zero n = []
  recent (suc k) n = final_name (n - 1) ∷ recent k (n - 1)

  length-recent : (k n : ℕ) → length (recent k n) ≡ k
  length-recent zero n = refl
  length-recent (suc k) n = ap suc (length-recent k (n - 1))

  -- The recent files have smaller numbers.
  recent_below : (k n bound : ℕ) → k ≤ n → n ≤ bound → All (λ m. m.fileno ≢ bound) (recent k n)
  recent_below zero n bound le h = tt
  recent_below (suc k) n bound le h =
      ((λ e. omega (arith, e)), recent_below k (n - 1) bound (omega arith) (omega arith))

  recent_other : (k n : ℕ) → k ≤ n → All (λ m. m.fileno ≢ n) (recent k n)
  recent_other k n le = recent_below k n n le (omega arith)

  recent_oldest : (k n : ℕ) → recent (suc k) n ≡ recent k n ++ (final_name (n - 1 - k) ∷ [])
  recent_oldest zero n = let e : n - 1 - 0 ≡ n - 1 = omega arith in rw e refl
  recent_oldest (suc k) n =
      let e : n - 1 - 1 - k ≡ n - 1 - suc k = omega arith in
      ap (λ l. final_name (n - 1) ∷ l) (rw (recent_oldest k (n - 1), e) refl)

  module _ (unlinking : set.do_unlink ≡ true) where
    is_last :
        (k n oldest : ℕ)
        → n - 1 - k ≡ oldest
        → Does (unlink (final_name oldest)) (recent (suc k) n) (recent k n)
    is_last k n oldest e =
        rw (recent_oldest k n, e)
          (subst (λ l. Does (unlink (final_name oldest)) (recent k n ++ (final_name oldest ∷ [])) l)
            (append-nil (recent k n)) (unlinks (final_name oldest) (recent k n) []))

    newest : (k n : ℕ) → final_name n ∷ recent k n ≡ recent (suc k) (n + 1)
    newest k n = let e : n + 1 - 1 ≡ n = omega arith in rw e refl

    -- The oldest of the recent files is unlinked.
    Ends-unlink :
        (k n oldest : ℕ) (c : Child)
        → n - 1 - k ≡ oldest
        → k < limit
        → IsAt kernel set.pid (recent (suc k) n) c
        → Ends kernel set.pid (recent k n) (unlink_one_file kernel set oldest 2 c)
    unfolding unlink_one_file
    Ends-unlink k n oldest c e small h =
        Ends-test kernel set.pid (recent k n) set.do_unlink _ _
          (λ u.
            Ends-and_then kernel set.pid _ _ _
              (Ends-make_call kernel set c (is_last k n oldest e)
                (omega (arith, length-recent k n, small)) refl h)
              (Ends-sync_dir kernel set))
          λ u. absurd (true≢false (sym unlinking ∙ u))

    -- After each new file the one that is 30 older is unlinked, if there is one.
    lagging :
        (n : ℕ) (d : Child)
        → IsAt kernel set.pid (recent (suc (min n 30)) (n + 1)) d
        → Ends kernel set.pid
            (recent (min (n + 1) 30) (n + 1))
            (if ltb n unlink_lag then going d else unlink_one_file kernel set (n - unlink_lag) 2 d)
    lagging n d h =
        Ends-test kernel set.pid (recent (min (n + 1) 30) (n + 1)) (ltb n unlink_lag) _ _
          (λ t.
            let small : n < 30 = ltb→lt n 30 t in
            let e : min (n + 1) 30 ≡ suc (min n 30) = omega arith in rw e h)
          λ t.
            let large : 30 ≤ n = ground arith in
            let e : min (n + 1) 30 ≡ 30 = omega arith in
            let e' : min n 30 ≡ 30 = omega arith in
            rw e (Ends-unlink 30 (n + 1) (n - 30) d (omega arith) (omega arith) (rw e' at h))

    -- `create_from` keeps the newest 30 files, or all if there are fewer.
    Ends-create_from :
        (n left : ℕ) (c : Child)
        → IsAt kernel set.pid (recent (min n 30) n) c
        → Ends kernel set.pid
            (recent (min (n + left) 30) (n + left))
            (create_from kernel set n left c)
    unfolding create_from
    Ends-create_from n zero c h = let e : n + zero ≡ n = omega arith in rw e h
    Ends-create_from n (suc left) c h =
        let e : n + suc left ≡ n + 1 + left = omega arith in
        rw e (
          Ends-and_then kernel set.pid _ _ _
            (Ends-do_one_file kernel set n (recent (min n 30) n) c
              (omega (arith, length-recent (min n 30) n)) (recent_other (min n 30) n (omega arith))
              h)
            λ d k.
              Ends-and_then kernel set.pid _ _ _
                (lagging n d (subst (λ l. IsAt kernel set.pid l d) (newest (min n 30) n) k))
                (Ends-create_from (n + 1) left))

    Ends-unlink_from :
        (n left : ℕ) (c : Child)
        → left ≤ 30
        → IsAt kernel set.pid (recent left (n + left)) c
        → Ends kernel set.pid [] (unlink_from kernel set n left c)
    unfolding unlink_from
    Ends-unlink_from n zero c small h = h
    Ends-unlink_from n (suc left) c small h =
        let e : n + suc left ≡ n + 1 + left = omega arith in
        Ends-and_then kernel set.pid _ _ _
          (Ends-unlink left (n + suc left) n c (omega arith) (omega (arith, small)) h)
          λ d k. Ends-unlink_from (n + 1) left d (omega (arith, small)) (rw e at k)

    Ends-do_child :
        (c : Child) → IsAt kernel set.pid [] c → Ends kernel set.pid [] (do_child kernel set c)
    unfolding do_child
    Ends-do_child c h =
        Ends-and_then kernel set.pid _ _ _
          (Ends-make_call kernel set c (opens_dir set.thread_group []) h.fits tt h)
          λ d k.
            Ends-and_then kernel set.pid _ _ _ (Ends-create_from 0 100 d k)
              λ e l. Ends-unlink_from 70 30 e (omega arith) l

    Ends-iterations :
        (left : ℕ) (c : Child)
        → IsAt kernel set.pid [] c
        → Ends kernel set.pid [] (iterations kernel set left c)
    unfolding iterations
    Ends-iterations zero c h = h
    Ends-iterations (suc left) c h =
        Ends-and_then kernel set.pid _ _ _ (Ends-do_child c h) (Ends-iterations left)

-- With do_unlink, a child ends in one of two ways. Either a call fails, and it ends at once, or it
-- runs all its iterations, and then none of its files is left. Up to its end the calls that it made
-- are on names with its own pid, they rename and unlink only files that are there, they create and
-- rename only to names that no file has, no write reads behind buf, and no more than 31 files are
-- there at any time.
pub iterations_lag :
    (kernel : List Call → Call → Bool) (set : Settings) (n_iters : ℕ)
    → set.do_unlink ≡ true
    → Ends kernel set.pid [] (iterations kernel set n_iters first_child)
iterations_lag kernel set n_iters u =
    Ends-iterations kernel set u n_iters first_child
      (record { history = start; fits = omega arith; least = omega arith; most = omega arith })

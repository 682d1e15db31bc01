-- ===== src/Seekmark/Thread/Counts.antt =====
-- A thread makes as many transfers as it was told, and ends.
use testunion.Common.{
  ℕ, zero, suc, ◌+◌, ◌≤◌, ◌<◌, ◌≡◌, refl, arith, List, [], ◌∷◌, ◌++◌, Bool, true, false,
  if◌then◌else◌, ltb, Bool-cases, not, inl, inr,
}
use testunion.Seekmark.Options.{Settings}
use testunion.Seekmark.Thread.{
  Call, open_file, lseek, usleep, read, write, close, Turn, datafill, seekthenreadwrite, Rest, io,
  seek_loop, threadseek,
}

-- How many calls transfer bytes.
abbrev pub transfers : List Call → ℕ
transfers [] = 0
transfers (open_file w ∷ cs) = transfers cs
transfers (lseek offset sought ∷ cs) = transfers cs
transfers (usleep d ∷ cs) = transfers cs
transfers (read n ∷ cs) = suc (transfers cs)
transfers (write bytes ∷ cs) = suc (transfers cs)
transfers (close ∷ cs) = transfers cs

transfers-append : (cs ds : List Call) → transfers (cs ++ ds) ≡ transfers cs + transfers ds
transfers-append [] ds = omega arith
transfers-append (open_file w ∷ cs) ds = transfers-append cs ds
transfers-append (lseek o sought ∷ cs) ds = transfers-append cs ds
transfers-append (usleep d ∷ cs) ds = transfers-append cs ds
transfers-append (read n ∷ cs) ds = omega (arith, transfers-append cs ds)
transfers-append (write bytes ∷ cs) ds = omega (arith, transfers-append cs ds)
transfers-append (close ∷ cs) ds = transfers-append cs ds

module _ (s : Settings) (size : ℕ) (turns : ℕ → Turn) where
  transfers-io : (t : Turn) → transfers (io s size t).0 ≡ 1
  unfolding seekthenreadwrite
  transfers-io t = counted (ltb 0 s.delay) s.writetest
    where
      counted :
          (delays writes : Bool)
          → transfers (
              (if delays then usleep s.delay ∷ [] else [])
              ++ ((if writes
                    then write (datafill t.randchar s.block s.writerandomdata)
                    else read s.block)
                  ∷ []))
            ≡ 1
      counted true true = refl
      counted true false = refl
      counted false true = refl
      counted false false = refl

  seek_loop_ends :
      (fuel i k : ℕ)
      → s.endless ≡ false
      → s.seeks < fuel + i
      → i ≤ s.seeks
      → let r = seek_loop s size turns fuel i k in
        (r.ends ≡ true) × (transfers r.calls + i ≡ s.seeks)
  unfolding seek_loop
  seek_loop_ends zero i k e h le = absurd (omega arith)
  seek_loop_ends (suc fuel) i k e h le =
      let rest = (seek_loop s size turns fuel (i + 1) (k + 1)).calls in
      ground (
        arith,
        seek_loop_ends fuel (i + 1) (k + 1),
        transfers-append (io s size (turns k)).0 rest,
        transfers-io (turns k),
      )

  seek_loop_endless :
      (fuel k : ℕ)
      → s.endless ≡ true
      → 1 ≤ s.seeks
      → let r = seek_loop s size turns fuel 0 k in (r.ends ≡ false) × (transfers r.calls ≡ fuel)
  unfolding seek_loop
  seek_loop_endless zero k e h = (refl, refl)
  seek_loop_endless (suc fuel) k e h =
      let rest = (seek_loop s size turns fuel 0 (k + 1)).calls in
      ground (
        arith,
        seek_loop_endless fuel (k + 1),
        transfers-append (io s size (turns k)).0 rest,
        transfers-io (turns k),
      )

  transfers-closed :
      (r : Rest) → transfers (r.calls ++ (if r.ends then close ∷ [] else [])) ≡ transfers r.calls
  transfers-closed r =
      ground (arith, transfers-append r.calls (close ∷ []), transfers-append r.calls [])

  -- An endless thread is still at work after any number of rounds; any other ends, if it is given
  -- a round more than it has seeks.
  pub threadseek_count :
      (fuel : ℕ)
      → 1 ≤ s.seeks
      → s.seeks < fuel
      → let r = threadseek s size turns fuel in
        (r.ends ≡ not s.endless) × (transfers r.calls ≡ (if s.endless then fuel else s.seeks))
  unfolding threadseek
  threadseek_count fuel h enough = elim (Bool-cases s.endless) [
    | inl e ↦
        let (ends, count) = seek_loop_endless fuel 0 e h in
        let closed = transfers-closed (seek_loop s size turns fuel 0 0) in
        ground (arith, ends, count, closed)
    | inr e ↦
        let (ends, count) = seek_loop_ends fuel 0 0 e (omega arith) (omega arith) in
        let closed = transfers-closed (seek_loop s size turns fuel 0 0) in
        ground (arith, ends, count, closed)
  ]

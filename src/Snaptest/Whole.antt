-- ===== src/Snaptest/Whole.antt =====
-- All rounds of `main` together.
use mathlib.Core.List.{append-nil, append_assoc}
use testunion.Common.{
  ℕ, zero, suc, ◌+◌, ◌-◌, ◌≡◌, refl, ◌∙◌, subst, arith, List, [], ◌++◌, ap, sym, take, take_all,
  Bool, true, false, some, length, Option-cases, inl, inr, ◌==◌,
}
use testunion.Snaptest.{
  Stage, before_command, before_append, before_write, max_rounds, Files, files, block, Turn, Run,
  round, rounds, main,
}
use testunion.Snaptest.Laws.{IsFine, AreEqual, broken-IsFine, round-IsFine, length-block}

rounds-IsFine :
    (pid : ℕ) (turns : ℕ → Turn) (left : ℕ) (f : Files) (blocks total : ℕ)
    → AreEqual f total
    → IsFine blocks left (rounds pid turns left f blocks total)
unfolding rounds
rounds-IsFine pid turns zero f blocks total (equal, count) = record {
  prefixes = tt;
  at_end = ([], append-nil f.ca ∙ equal);
  numbered = tt;
  few = omega arith;
  same = λ e. equal;
  counted = λ e. count;
  complete = λ e. (omega arith, refl);
}
rounds-IsFine pid turns (suc left) f blocks total (equal, count) =
    elim (Option-cases (turns blocks).random) [
      | inl n ↦
          rw (n, rounds)
            (broken-IsFine f blocks (suc left) blocks total ([], append-nil f.ca ∙ equal))
      | inr (random, e) ↦
          rw (e, rounds)
            (round-IsFine pid (turns blocks) random f blocks left total _ (equal, count)
              λ g sum h. rounds-IsFine pid turns left g (blocks + 1) sum h)
    ]

-- If main comes to its loop, then, whatever the calls answer, the written file is a prefix of the
-- appended one whenever they change and at the end, at most 400 snapshots are started, with the
-- numbers 0, 1, 2, ... and a positive pause if any; and if no break is reached and no comparison in
-- the background kills the program, the files are equal, totalsize is their length, all 400 rounds
-- were made and as many snapshots started.
pub main-IsFine :
    (pid : ℕ) (urandom subvolume wd out : Bool) (turns : ℕ → Turn) (r : Run)
    → main pid urandom subvolume wd out turns ≡ some r
    → IsFine 0 400 r
unfolding main
main-IsFine pid urandom subvolume wd out turns r e =
    let same : rounds pid turns max_rounds (files [] []) 0 0 ≡ r = ground arith in
    subst (IsFine 0 400) same (rounds-IsFine pid turns max_rounds (files [] []) 0 0 (refl, refl))

-- A round in which no call fails and the program is not killed.
pub record IsGood (t : Turn) : Type 0 where
  pub bytes : ℕ × ℕ × ℕ
  pub reads : t.random ≡ some bytes
  pub starts : t.starts ≡ true
  pub appends : t.append_ok ≡ true
  pub survives : (stage : Stage) → t.killed stage ≡ false
  pub writes : t.written ≡ 4096 - bytes.0

rounds-whole :
    (pid : ℕ) (turns : ℕ → Turn) (left : ℕ) (f : Files) (blocks total : ℕ)
    → ((k : ℕ) → IsGood (turns k))
    → (rounds pid turns left f blocks total).whole ≡ true
unfolding rounds round
rounds-whole pid turns zero f blocks total good = refl
rounds-whole pid turns (suc left) f blocks total good =
    let g = good blocks in
    let w : (turns blocks).written == (4096 - g.bytes.0) ≡ true = ground (arith, g.writes) in
    rw
      (
        g.reads,
        rounds,
        round,
        g.survives before_command,
        g.starts,
        g.survives before_append,
        g.appends,
        g.survives before_write,
        w,
      )
      (rounds-whole pid turns left _ (blocks + 1) _ good)

-- The blocks of `n` rounds from round `k` on, one after the other.
abbrev pub appended : {turns : ℕ → Turn} → ((k : ℕ) → IsGood (turns k)) → ℕ → ℕ → List ℕ
appended good k zero = []
appended good k (suc n) = block (good k).bytes ++ appended good (k + 1) n

rounds-appended :
    (pid : ℕ) (turns : ℕ → Turn) (left : ℕ) (f : Files) (blocks total : ℕ)
    → (good : (k : ℕ) → IsGood (turns k))
    → (rounds pid turns left f blocks total).files.ca ≡ f.ca ++ appended good blocks left
unfolding rounds round
rounds-appended pid turns zero f blocks total good = sym (append-nil f.ca)
rounds-appended pid turns (suc left) f blocks total good =
    let g = good blocks in
    let buf = block g.bytes in
    let w : (turns blocks).written == (4096 - g.bytes.0) ≡ true = ground (arith, g.writes) in
    let all : take (turns blocks).written buf ≡ buf =
      take_all (turns blocks).written buf (omega (arith, length-block g.bytes, g.writes)) in
    let rest =
      rounds-appended pid turns left (files (f.ca ++ take (turns blocks).written buf) (f.db ++ buf))
        (blocks + 1) (total + (4096 - g.bytes.0)) good in
    rw
      (
        g.reads,
        rounds,
        round,
        g.survives before_command,
        g.starts,
        g.survives before_append,
        g.appends,
        g.survives before_write,
        w,
      )
      (rest
        ∙ ap (λ l. (f.ca ++ l) ++ appended good (blocks + 1) left) all
        ∙ append_assoc f.ca buf (appended good (blocks + 1) left))

-- If no call fails and no comparison in the background kills the program, main makes its 400
-- rounds, starts 400 snapshots, and ends with both files made of the blocks of all rounds in their
-- order, totalsize bytes long.
pub main-whole :
    (pid : ℕ) (turns : ℕ → Turn) (good : (k : ℕ) → IsGood (turns k))
    → (r : Run) × (main pid true true true true turns ≡ some r)
      × (r.files.ca ≡ appended good 0 400)
      × (r.files.db ≡ appended good 0 400)
      × (r.totalsize ≡ length r.files.ca)
      × (r.blocks ≡ 400)
      × (length r.commands ≡ 400)
unfolding main
main-whole pid turns good =
    let r = rounds pid turns max_rounds (files [] []) 0 0 in
    let h = rounds-IsFine pid turns max_rounds (files [] []) 0 0 (refl, refl) in
    let w = rounds-whole pid turns max_rounds (files [] []) 0 0 good in
    let bytes = rounds-appended pid turns max_rounds (files [] []) 0 0 good in
    let (all_blocks, all_commands) = h.complete w in
    (r, refl, bytes, sym (h.same w) ∙ bytes, h.counted w, all_blocks, all_commands)

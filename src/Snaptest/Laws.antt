-- ===== src/Snaptest/Laws.antt =====
-- Whenever a snapshot is taken, the shorter file is a prefix of the longer one, so that a difference
-- is not the program's.
use mathlib.Core.List.{append-nil, append_assoc}
use testunion.Common.{
  ℕ, zero, suc, ◌+◌, ◌-◌, ◌≤◌, ◌≡◌, refl, ◌∙◌, ap, arith, List, [], ◌∷◌, ◌++◌, true, not, ◌||◌,
  if◌then◌else◌, Option, none, some, length, take, All, AllFrom, ℤ, pos, negsuc, Bool-cases, inl,
  inr, ◌==◌, length-append, take_all, length-take, take-append-drop, drop,
}
use testunion.Snaptest.{
  Files, files, Command, Turn, pause_of, ones, block, Run, broken, changed, started, round,
  before_command, before_append, before_write,
}

-- What has been written is the beginning of what was appended.
abbrev pub IsPrefix : Files → Type 0
IsPrefix f = (rest : List ℕ) × (f.ca ++ rest ≡ f.db)

-- `usleep` is given a positive number, if it is called.
abbrev pub IsPause : Option ℤ → Type 0
IsPause none = Unit
IsPause (some (pos n)) = 1 ≤ n
IsPause (some (negsuc n)) = ⊥

-- The command that is started as number `k`.
abbrev pub IsCommand : ℕ → Command → Type 0
IsCommand k c = (c.number ≡ k) × IsPause c.pause

-- The rest of a run, with `left` rounds to go.
pub record IsFine (blocks left : ℕ) (r : Run) : Type 0 where
  pub prefixes : All IsPrefix r.moments
  pub at_end : IsPrefix r.files
  pub numbered : AllFrom IsCommand blocks r.commands
  pub few : length r.commands ≤ left
  pub same : r.whole ≡ true → r.files.ca ≡ r.files.db
  pub counted : r.whole ≡ true → r.totalsize ≡ length r.files.ca
  pub complete : r.whole ≡ true → (r.blocks ≡ blocks + left) × (length r.commands ≡ left)

pause_of-IsPause : (b c : ℕ) → IsPause (pause_of b c)
unfolding pause_of
pause_of-IsPause b c = ground arith

length-ones : (n : ℕ) → length (ones n) ≡ n
unfolding ones
length-ones zero = refl
length-ones (suc n) = ap suc (length-ones n)

pub length-block : (random : ℕ × ℕ × ℕ) → length (block random) ≡ 4096 - random.0
unfolding block
length-block (a, b, c) =
    omega (arith, length-take (4096 - a) (a ∷ b ∷ c ∷ ones 4093), length-ones 4093)

-- The files before a round, while all went well.
abbrev pub AreEqual : Files → ℕ → Type 0
AreEqual f total = (f.ca ≡ f.db) × (total ≡ length f.ca)

pub broken-IsFine :
    (f : Files) (blocks left reached total : ℕ)
    → IsPrefix f
    → IsFine blocks left (broken f reached total)
broken-IsFine f blocks left reached total p = record {
  prefixes = tt;
  at_end = p;
  numbered = tt;
  few = omega arith;
  same = λ e. absurd (cc);
  counted = λ e. absurd (cc);
  complete = λ e. absurd (cc);
}

-- A change of the files, and the start of a command.
changed-IsFine :
    (f : Files) (blocks left : ℕ) (r : Run)
    → IsPrefix f
    → IsFine blocks left r
    → IsFine blocks left (changed f r)
changed-IsFine f blocks left r p h = record {
  prefixes = (p, h.prefixes);
  at_end = h.at_end;
  numbered = h.numbered;
  few = h.few;
  same = h.same;
  counted = h.counted;
  complete = h.complete;
}

started-IsFine :
    (c : Command) (blocks left : ℕ) (r : Run)
    → IsCommand blocks c
    → IsFine (blocks + 1) left r
    → IsFine blocks (suc left) (started c r)
started-IsFine c blocks left r k h = record {
  prefixes = h.prefixes;
  at_end = h.at_end;
  numbered = (k, h.numbered);
  few = omega (arith, h.few);
  same = h.same;
  counted = h.counted;
  complete = λ w. let e = h.complete w in (omega (arith, e.0), omega (arith, e.1));
}

pub round-IsFine :
    (pid : ℕ) (t : Turn) (random : ℕ × ℕ × ℕ) (f : Files) (blocks left total : ℕ)
    (next : Files → ℕ → Run)
    → AreEqual f total
    → ((g : Files) (sum : ℕ) → AreEqual g sum → IsFine (blocks + 1) left (next g sum))
    → IsFine blocks (suc left) (round pid t random f blocks total next)
unfolding round
round-IsFine pid t random f blocks left total next (equal, count) then_fine =
    elim (Bool-cases (t.killed before_command || not t.starts)) [
      | inl s ↦ rw s (broken-IsFine f blocks (suc left) blocks total ([], append-nil f.ca ∙ equal))
      | inr s ↦ elim (Bool-cases (t.killed before_append)) [
        | inl d ↦
            rw (s, d)
              (begin (broken-IsFine f (blocks + 1) left blocks total ([], append-nil f.ca ∙ equal)))
        | inr d ↦ elim (Bool-cases (not t.append_ok || t.killed before_write)) [
          | inl a ↦
              let part = if t.append_ok then buf else take t.appended buf in
              rw (s, d, a)
                (begin (
                  changed-IsFine (files f.ca (f.db ++ part)) (blocks + 1) left _
                    (part, ap (λ l. l ++ part) equal)
                    (broken-IsFine (files f.ca (f.db ++ part)) (blocks + 1) left blocks total
                      (part, ap (λ l. l ++ part) equal))))
          | inr a ↦
              let appends : t.append_ok ≡ true = ground arith in
              elim (Bool-cases (t.written == 4096 - random.0)) [
                | inr w ↦
                    rw (s, d, a, appends, w)
                      (begin (
                        changed-IsFine _ (blocks + 1) left _ (buf, ap (λ l. l ++ buf) equal)
                          (changed-IsFine _ (blocks + 1) left _ both
                            (broken-IsFine _ (blocks + 1) left blocks total both))))
                | inl w ↦
                    let n : 4096 - random.0 ≡ t.written = ground arith in
                    rw (s, d, a, appends, w)
                      (begin (
                        changed-IsFine _ (blocks + 1) left _ (buf, ap (λ l. l ++ buf) equal)
                          (changed-IsFine _ (blocks + 1) left _ both (
                            then_fine _ (total + (4096 - random.0)) (equal_then n, count_then n)))))
              ]
        ]
      ]
    ]
  where
    buf : List ℕ
    buf = block random

    begin :
        {r : Run}
        → IsFine (blocks + 1) left r
        → IsFine blocks
            (suc left)
            (started (record { pause = pause_of random.1 random.2; number = blocks; pid = pid }) r)
    begin {r} h = started-IsFine _ blocks left r (refl, pause_of-IsPause random.1 random.2) h

    both : IsPrefix (files (f.ca ++ take t.written buf) (f.db ++ buf))
    both = (
      drop t.written buf,
      append_assoc f.ca (take t.written buf) (drop t.written buf)
          ∙ ap (λ l. f.ca ++ l) (take-append-drop t.written buf)
          ∙ ap (λ l. l ++ buf) equal,
    )

    all_written : 4096 - random.0 ≡ t.written → take t.written buf ≡ buf
    all_written n = take_all t.written buf (omega (arith, length-block random, n))

    equal_then : 4096 - random.0 ≡ t.written → f.ca ++ take t.written buf ≡ f.db ++ buf
    equal_then n = ap (λ l. f.ca ++ l) (all_written n) ∙ ap (λ l. l ++ buf) equal

    count_then :
        4096 - random.0 ≡ t.written
        → total + (4096 - random.0) ≡ length (f.ca ++ take t.written buf)
    count_then n = omega (
      arith,
      length-append f.ca (take t.written buf),
      ap length (all_written n),
      length-block random,
      count,
    )

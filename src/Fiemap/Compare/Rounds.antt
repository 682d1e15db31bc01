-- ===== src/Fiemap/Compare/Rounds.antt =====
-- The outer loop of `compare_fiemap_and_map`: a round for each piece of the map.
use mathlib.Core.Path.{subst₂}
use testunion.Common.{
  ℕ, zero, suc, ◌+◌, ◌-◌, ◌*◌, ◌≤◌, ◌<◌, ◌≡◌, arith, List, [], ◌∷◌, Bool, true, false, Option, some,
  ltb, length, drop, take, take-append-drop, length-take, length-drop, AllFrom, AllFrom-append, sym,
  Bool-cases, Option-cases, inl, inr, ltb→lt,
}
use testunion.Fiemap.Extent.{Extent, ExtentFlags}
use testunion.Fiemap.Hole.{FileSystem}
use testunion.Fiemap.Compare.{Compared, Chunk, compare_loop}
use testunion.Fiemap.Compare.Blocks.{check_chunk_lem, check_chunk-next}
use testunion.Fiemap.Compare.Pieces
use testunion.Fiemap.Compare.Pieces.{is_same, returns, returns-after_log}

module _ (fl : ExtentFlags) (sys : FileSystem) (blocksize : ℕ) (map : List ℕ) (btm : ℕ)
    (last : Option ℕ) where
  abbrev ask : ℕ → Option (List Extent)
  ask = Pieces.ask fl sys blocksize map btm last

  abbrev IsConfirmed : ℕ → ℕ → Type 0
  IsConfirmed = Pieces.IsConfirmed fl sys blocksize map btm last

  abbrev loop : ℕ → ℕ → List ℕ → Bool → Compared
  loop = Pieces.loop fl sys blocksize map btm last

  abbrev chunk : List Extent → ℕ → List ℕ → Bool → Chunk
  chunk = Pieces.chunk fl sys blocksize map btm last

  -- Where the loop stands: `cur` is the start of piece `q`, and `rest` are the letters from there.
  pub record IsAt (fuel q : ℕ) (rest : List ℕ) : Type 0 where
    pub piece : 0 < btm
    pub left : 0 < length rest
    pub place : q * btm + length rest ≡ length map
    pub enough : length rest ≤ fuel

  AllFrom-empty : (P : ℕ → ℕ → Type 0) (xs : List ℕ) (i : ℕ) → length xs ≡ 0 → AllFrom P i xs
  AllFrom-empty P [] i e = tt
  AllFrom-empty P (x ∷ xs) i e = absurd (omega arith)

  -- The next round begins where the chunk stopped, at the start of the next piece.
  module _ {fuel q cur : ℕ} {rest : List ℕ} (c : cur ≡ q * btm) (a : IsAt (suc fuel) q rest) where
    next_place :
        (k : Chunk)
        → k.next ≡ cur + length (take btm rest)
        → k.rest ≡ drop btm rest
        → k.next < length map
        → (k.next ≡ suc q * btm) × IsAt fuel (suc q) k.rest
    next_place k next tail more =
        let taken : length (take btm rest) ≡ btm =
          omega (arith, length-take btm rest, a.place, c, next) in
        let left : length k.rest ≡ length rest - btm = rw tail (length-drop btm rest) in
        (
          omega (arith, taken, next, c),
          record {
            piece = a.piece;
            left = omega (arith, taken, next, c, left, a.place);
            place = omega (arith, taken, next, c, left, a.place);
            enough = omega (arith, left, a.enough, a.piece);
          },
        )

    last_place :
        (k : Chunk)
        → k.next ≡ cur + length (take btm rest)
        → (ltb k.next (length map) ≡ false)
        → length (drop btm rest) ≡ 0
    last_place k next done =
        let stop : length map ≤ k.next = ground arith in
        omega (arith, length-take btm rest, length-drop btm rest, a.place, c, next)

  pub loop_sound :
      (fuel q cur : ℕ) (rest : List ℕ) (w : Bool)
      → cur ≡ q * btm
      → IsAt fuel q rest
      → is_same (loop fuel cur rest w) ≡ true
      → AllFrom IsConfirmed cur rest
  loop_sound zero q cur rest w c a e = absurd (omega (arith, a.left, a.enough))
  loop_sound (suc fuel) q cur rest w c a e =
      let r = Pieces.IsRound-same fl sys blocksize map btm last fuel cur rest w e in
      let k = chunk r.xs cur rest w in
      let ends =
        check_chunk-next fl sys blocksize btm r.xs last btm 1 cur rest w (omega arith) r.passes in
      let first : AllFrom IsConfirmed cur (take btm rest) =
        Pieces.to_confirmed fl sys blocksize map btm last q c r.xs r.answers (take btm rest)
          (omega (arith, length-take btm rest)) r.good
          ((check_chunk_lem fl sys blocksize btm r.xs last btm 1 cur rest w (omega arith)).0
            r.passes) in
      let others : AllFrom IsConfirmed (cur + length (take btm rest)) (drop btm rest) =
        elim (Bool-cases (ltb k.next (length map))) [
          | inl more ↦
              let (place, at) = next_place c a k ends.0 ends.1 (ltb→lt _ _ more) in
              subst₂ (λ i l. AllFrom IsConfirmed i l) ends.0 ends.1
                (loop_sound fuel (suc q) k.next k.rest k.warned place at (r.goes_on more))
          | inr done ↦ AllFrom-empty IsConfirmed (drop btm rest) _ (last_place c a k ends.0 done)
        ] in
      rw (← take-append-drop btm rest)
        ((AllFrom-append IsConfirmed (take btm rest) (drop btm rest) cur).1 (first, others))

  pub loop_complete :
      (fuel q cur : ℕ) (rest : List ℕ) (w : Bool)
      → cur ≡ q * btm
      → IsAt fuel q rest
      → AllFrom IsConfirmed cur rest
      → is_same (loop fuel cur rest w) ≡ true
  loop_complete zero q cur rest w c a all = absurd (omega (arith, a.left, a.enough))
  loop_complete (suc fuel) q cur [] w c a all = absurd (omega (arith, a.left))
  loop_complete (suc fuel) q cur (ch ∷ map') w c a all =
      Pieces.same_round fl sys blocksize map btm last fuel cur rest w (record {
        xs = own.extents;
        answers = answers;
        good = own.flags;
        passes = passes;
        goes_on = λ more.
            let ends =
              check_chunk-next fl sys blocksize btm own.extents last btm 1 cur rest w (omega arith)
                passes in
            let (place, at) =
              next_place c a (chunk own.extents cur rest w) ends.0 ends.1 (ltb→lt _ _ more) in
            loop_complete fuel (suc q) (chunk own.extents cur rest w).next
              (chunk own.extents cur rest w).rest (chunk own.extents cur rest w).warned place at
              (subst₂ (λ i l. AllFrom IsConfirmed i l) (sym ends.0) (sym ends.1) parts.1);
      })
    where
      rest : List ℕ
      rest = ch ∷ map'

      own : IsConfirmed cur ch
      own = all.0

      parts :
          AllFrom IsConfirmed cur (take btm rest)
          × AllFrom IsConfirmed (cur + length (take btm rest)) (drop btm rest)
      parts =
          (AllFrom-append IsConfirmed (take btm rest) (drop btm rest) cur).0
            (rw take-append-drop all)

      answers : ask cur ≡ some own.extents
      answers =
          rw
            (Pieces.piece_start fl sys blocksize map btm last q cur c (omega arith)
              (omega (arith, a.piece)))
            at own.answer

      passes : (chunk own.extents cur rest w).passed ≡ true
      passes =
          (check_chunk_lem fl sys blocksize btm own.extents last btm 1 cur rest w (omega arith)).1 (
            Pieces.of_confirmed fl sys blocksize map btm last q c own.extents answers
              (take btm rest) (omega (arith, length-take btm rest)) parts.0)

  -- Each round moves on by at least one block, so the fuel suffices.
  pub loop-returns :
      (fuel q cur : ℕ) (rest : List ℕ) (w : Bool)
      → cur ≡ q * btm
      → IsAt fuel q rest
      → returns (loop fuel cur rest w) ≡ true
  unfolding compare_loop
  loop-returns zero q cur rest w c a = absurd (omega (arith, a.left, a.enough))
  loop-returns (suc fuel) q cur rest w c a = elim (Option-cases (ask cur)) [
    | inl p ↦ ground arith
    | inr (xs, p) ↦
        let k = chunk xs cur rest w in
        elim (Bool-cases k.passed) [
          | inl passes ↦
              let ends =
                check_chunk-next fl sys blocksize btm xs last btm 1 cur rest w (omega arith)
                  passes in
              elim (Bool-cases (ltb k.next (length map))) [
                | inl more ↦
                    let (place, at) = next_place c a k ends.0 ends.1 (ltb→lt _ _ more) in
                    ground (
                      arith,
                      loop-returns fuel (suc q) k.next k.rest k.warned place at,
                      returns-after_log k.log (loop fuel k.next k.rest k.warned),
                    )
                | inr done ↦ ground arith
              ]
          | inr stops ↦ ground arith
        ]
  ]

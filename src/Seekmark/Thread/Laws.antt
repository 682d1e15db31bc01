-- ===== src/Seekmark/Thread/Laws.antt =====
-- Every transfer of a thread lies inside the file, on a multiple of the alignment.
use native.Mathlib.Nat.{mod-le}
use mathlib.Core.List.{append_assoc}
use testunion.Common.{
  ℕ, zero, suc, ◌+◌, ◌-◌, ◌%◌, ◌^◌, ◌≤◌, ◌<◌, ◌≡◌, refl, arith, List, [], ◌∷◌, ◌++◌, Bool, true,
  false, Option, none, some, if◌then◌else◌, ltb, length, pos, Bool-cases, inl, inr,
}
use testunion.Bits.Powers.{IsPowerOfTwo, clear_low, sub-mod_multiple}
use testunion.Seekmark.Options.{Settings}
use testunion.Seekmark.Thread.{
  Call, open_file, lseek, usleep, read, write, close, Turn, choose_position, align_position,
  datafill, fill_from, seekthenreadwrite, io, seek_loop, threadseek,
}

-- A transfer at a place: within the file, and aligned.
abbrev pub Fits : ℕ → ℕ → ℕ → ℕ → Type 0
Fits size align place n = (place + n ≤ size) × (place % 2 ^ align ≡ 0)

-- A transfer of `n` bytes fits if it is known where it starts.
abbrev pub FitsAt : ℕ → ℕ → Option ℕ → ℕ → Type 0
FitsAt size align none n = Unit
FitsAt size align (some place) n = Fits size align place n

-- `place` is where the last `lseek` has moved the file offset, if it succeeded and nothing was
-- transferred since. Every `lseek` is to a place where a block fits, and what is transferred there
-- fits.
abbrev pub Follows : ℕ → ℕ → ℕ → Option ℕ → List Call → Type 0
Follows size align block place [] = Unit
Follows size align block place (open_file w ∷ cs) = Follows size align block place cs
Follows size align block place (lseek offset true ∷ cs) =
    Fits size align offset block × Follows size align block (some offset) cs
Follows size align block place (lseek offset false ∷ cs) =
    Fits size align offset block × Follows size align block none cs
Follows size align block place (usleep d ∷ cs) = Follows size align block place cs
Follows size align block place (read n ∷ cs) =
    FitsAt size align place n × Follows size align block none cs
Follows size align block place (write bytes ∷ cs) =
    FitsAt size align place (length bytes) × Follows size align block none cs
Follows size align block place (close ∷ cs) = Follows size align block place cs

length-fill_from : (randchar : ℕ → ℕ) (i n : ℕ) → length (fill_from randchar i n) ≡ n
unfolding fill_from
length-fill_from randchar i zero = refl
length-fill_from randchar i (suc n) = omega (arith, length-fill_from randchar (i + 1) n)

-- The buffer is filled, and not overrun.
length-datafill :
    (randchar : ℕ → ℕ) (block : ℕ) (makerandom : Bool)
    → length (datafill randchar block makerandom) ≡ block
unfolding datafill
length-datafill randchar block makerandom = length-fill_from randchar 0 block

choose_position_lem :
    (part : ℕ → ℕ) (size block : ℕ)
    → block ≤ size
    → (p : ℕ) × (choose_position part size block ≡ pos p) × (p + block ≤ size)
unfolding choose_position
choose_position_lem part size block h = elim (Bool-cases (ltb size (part size + block))) [
  | inl e ↦ (size - block, ground arith, omega arith)
  | inr e ↦ (part size, rw e refl, ground arith)
]

align_position_lem :
    (size block align p : ℕ)
    → size < 2 ^ 63
    → align < 32
    → p + block ≤ size
    → Fits size align (align_position (pos p) align) block
unfolding align_position
align_position_lem size block align p s a h =
    let word : p % 2 ^ 64 ≡ p = omega arith in
    let power : IsPowerOfTwo (2 ^ align) = record {
      exponent = align;
      is_pow = refl;
      small = omega arith;
    } in
    let fits : p < 2 ^ 64 = omega arith in
    rw (word, clear_low fits power)
      (omega (arith, mod-le p (2 ^ align)), sub-mod_multiple p (2 ^ align))

module _ (s : Settings) (size : ℕ) (align : s.align < 32) (block : s.block ≤ size)
    (small : size < 2 ^ 63) where
  -- A round seeks by itself, so it fits from wherever it starts.
  io-Follows :
      (place : Option ℕ) (t : Turn) (rest : List Call)
      → ((p : Option ℕ) → Follows size s.align s.block p rest)
      → Follows size s.align s.block place ((io s size t).0 ++ rest)
  unfolding seekthenreadwrite
  io-Follows place t rest h = elim (Bool-cases t.seeks) [
    | inl e ↦ rw e (fits, transferred (some offset) fits (ltb 0 s.delay) s.writetest)
    | inr e ↦ rw e (fits, transferred none tt (ltb 0 s.delay) s.writetest)
  ]
    where
      offset : ℕ
      offset = align_position (choose_position t.part size s.block) s.align

      fits : Fits size s.align offset s.block
      fits =
          let (p, same, within) = choose_position_lem t.part size s.block block in
          rw same (align_position_lem size s.block s.align p small align within)

      transferred :
          (p : Option ℕ)
          → FitsAt size s.align p s.block
          → (delays writes : Bool)
          → Follows size s.align s.block p (
              ((if delays then usleep s.delay ∷ [] else [])
                ++ ((if writes
                      then write (datafill t.randchar s.block s.writerandomdata)
                      else read s.block)
                    ∷ []))
              ++ rest)
      transferred p f true true =
          let n = length-datafill t.randchar s.block s.writerandomdata in rw n (f, h none)
      transferred p f true false = (f, h none)
      transferred p f false true =
          let n = length-datafill t.randchar s.block s.writerandomdata in rw n (f, h none)
      transferred p f false false = (f, h none)

  seek_loop-Follows :
      (turns : ℕ → Turn) (fuel i k : ℕ) (place : Option ℕ) (last : List Call)
      → ((p : Option ℕ) → Follows size s.align s.block p last)
      → Follows size s.align s.block place ((seek_loop s size turns fuel i k).calls ++ last)
  unfolding seek_loop
  seek_loop-Follows turns zero i k place last h = h place
  seek_loop-Follows turns (suc fuel) i k place last h = elim (Bool-cases (ltb i s.seeks)) [
    | inl e ↦
        let i' : ℕ = if s.endless then i else i + 1 in
        let rest = (seek_loop s size turns fuel i' (k + 1)).calls in
        rw (e, append_assoc (io s size (turns k)).0 rest last)
          (io-Follows place (turns k) (rest ++ last)
            λ p. seek_loop-Follows turns fuel i' (k + 1) p last h)
    | inr e ↦ rw e (h place)
  ]

  -- Whatever the random numbers, all seeks and transfers of a thread fit.
  pub threadseek-Follows :
      (turns : ℕ → Turn) (fuel : ℕ)
      → Follows size s.align s.block none (threadseek s size turns fuel).calls
  unfolding threadseek
  threadseek-Follows turns fuel =
      seek_loop-Follows turns fuel 0 0 none _ (closed (seek_loop s size turns fuel 0 0).ends)
    where
      closed :
          (b : Bool) (p : Option ℕ) → Follows size s.align s.block p (if b then close ∷ [] else [])
      closed true p = tt
      closed false p = tt

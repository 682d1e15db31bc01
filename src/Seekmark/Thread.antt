-- ===== src/Seekmark/Thread.antt =====
-- `threadseek` and `seekthenreadwrite`: where a thread reads or writes, and how often.
pub mod Laws
pub mod Counts
use testunion.Common.{
  ℕ, zero, suc, ◌+◌, ◌-◌, ◌%◌, ◌^◌, List, [], ◌∷◌, ◌++◌, Bool, true, false, if◌then◌else◌, ◌==◌,
  ltb, bit_and, not64, ℤ, pos, negsuc, sub_ℕ, word64,
}
use testunion.Seekmark.Options.{Settings}

-- The calls of a thread; `open` has O_RDWR or not, an offset is its 64-bit word, and with `lseek` stands
-- whether it succeeded.
pub data Call : Type 0 where
  open_file : Bool → Call
  lseek : ℕ → Bool → Call
  usleep read : ℕ → Call
  write : List ℕ → Call
  close : Call

-- What `seekthenreadwrite` prints, with the number `seekpos` or `offset` that a line shows.
pub data Message : Type 0 where
  failed_to_seek : ℤ → ℕ → Message
  unable : ℤ → Message
  partial : ℕ → Message

-- What the outside answers in one round: the product of a size with the random number, the random
-- characters, whether `lseek` succeeds, and what `read` or `write` returns.
pub record Turn : Type 0 where
  pub part : ℕ → ℕ
  pub randchar : ℕ → ℕ
  pub seeks : Bool
  pub bytes : ℤ

-- The position of a round: `size - block` where the random one lies behind it.
unfoldable pub choose_position : (ℕ → ℕ) → ℕ → ℕ → ℤ
choose_position part size block =
    if ltb size (part size + block) then sub_ℕ size block else pos (part size)

-- `position & ~0 << align`, where the shift is defined: up to 31.
unfoldable pub align_position : ℤ → ℕ → ℕ
align_position position align = bit_and (word64 position) (not64 (2 ^ align - 1))

-- What is said of the bytes that were read or written.
abbrev pub judge : ℕ → ℤ → ℕ → ℤ → List Message
judge block seekpos offset (negsuc n) = unable seekpos ∷ []
judge block seekpos offset (pos zero) = unable seekpos ∷ []
judge block seekpos offset (pos (suc n)) = if suc n == block then [] else partial offset ∷ []

-- The calls and messages of the rest of the loop, and whether it ends within the fuel.
pub record Rest : Type 0 where
  pub calls : List Call
  pub messages : List Message
  pub ends : Bool

-- The loop of `datafill` from index `i` on.
unfoldable pub fill_from : (ℕ → ℕ) → ℕ → ℕ → List ℕ
fill_from randchar i zero = []
fill_from randchar i (suc left) = (randchar i % 256) ∷ fill_from randchar (i + 1) left

abbrev pub memset : ℕ → ℕ → List ℕ
memset byte zero = []
memset byte (suc n) = byte ∷ memset byte n

-- The test of `datafill` is `makerandom = 1`, which sets the variable.
unfoldable pub datafill : (ℕ → ℕ) → ℕ → Bool → List ℕ
datafill randchar block makerandom =
    let makerandom' = true in if makerandom' then fill_from randchar 0 block else memset 234 block

module _ (s : Settings) where
  unfoldable pub seekthenreadwrite : ℕ → Turn → List Call × List Message
  seekthenreadwrite offset t = (
    lseek offset t.seeks
        ∷ ((if ltb 0 s.delay then usleep s.delay ∷ [] else [])
            ++ ((if s.writetest
                  then write (datafill t.randchar s.block s.writerandomdata)
                  else read s.block)
                ∷ [])),
    (if t.seeks
        then judge s.block (pos offset) offset t.bytes
        else failed_to_seek (negsuc 0) offset ∷ judge s.block (negsuc 0) offset t.bytes),
  )

  abbrev pub io : ℕ → Turn → List Call × List Message
  io size t = seekthenreadwrite (align_position (choose_position t.part size s.block) s.align) t

  -- `i` stays where it is in endless mode, `i += endless^1`; `k` counts the rounds.
  unfoldable pub seek_loop : ℕ → (ℕ → Turn) → ℕ → ℕ → ℕ → Rest
  seek_loop size turns zero i k = record { calls = []; messages = []; ends = false }
  seek_loop size turns (suc fuel) i k =
      let done = io size (turns k) in
      let rest = seek_loop size turns fuel (if s.endless then i else i + 1) (k + 1) in
      if ltb i s.seeks
      then record {
        calls = done.0 ++ rest.calls;
        messages = done.1 ++ rest.messages;
        ends = rest.ends;
      }
      else record { calls = []; messages = []; ends = true }

  -- A thread, cut off after as many rounds as the fuel says. It does not look at what `open` returns.
  unfoldable pub threadseek : ℕ → (ℕ → Turn) → ℕ → Rest
  threadseek size turns fuel =
      let rest = seek_loop size turns fuel 0 0 in
      record rest {
        calls = open_file s.writetest ∷ (rest.calls ++ (if rest.ends then close ∷ [] else []));
      }

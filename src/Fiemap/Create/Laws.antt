-- ===== src/Fiemap/Create/Laws.antt =====
-- What the file looks like after `create_file_from_mapping`, and that a generated map is one that
-- it accepts.
use mathlib.Core.List.{append-nil, append_assoc}
use mathlib.Core.Option.{some-injective}
use testunion.Common.{
  ℕ, zero, suc, ◌+◌, ◌*◌, ◌%◌, ◌^◌, ◌<◌, u32, extend, ◌≡◌, ◌⊎◌, inl, inr, refl, arith, List, [],
  ◌∷◌, ◌++◌, Bool, true, false, some, ◌==◌, length, All, ap, subst, sym, ◌∙◌, if◌then◌else◌,
}
use testunion.Fiemap.Extent.{data_block, hole_block, prealloc_block}
use testunion.Fiemap.Create.{
  letter, generate_from, generate_file_mapping, Call, write, fallocate, lseek, created, Kernel,
  seek_block, create_block, create_blocks, create_file_from_mapping, is_short, is_failed,
  seek_failed,
}

-- A letter that the tests can write: preallocated blocks only if the file system can do them.
abbrev pub IsLetter : Bool → ℕ → Type 0
IsLetter prealloc ch =
    (ch ≡ data_block) ⊎ (ch ≡ hole_block) ⊎ ((ch ≡ prealloc_block) × (prealloc ≡ true))

letter-IsLetter :
    (prealloc : Bool) (r : ℕ) → IsLetter prealloc (letter (r % (if prealloc then 3 else 2)))
unfolding letter
letter-IsLetter true r = ground arith
letter-IsLetter false r = ground arith

generate_from-IsLetter :
    (random : ℕ → ℕ) (prealloc : Bool) (n i : ℕ)
    → (length (generate_from random (if prealloc then 3 else 2) n i) ≡ n)
      × All (IsLetter prealloc) (generate_from random (if prealloc then 3 else 2) n i)
unfolding generate_from
generate_from-IsLetter random prealloc zero i = (refl, tt)
generate_from-IsLetter random prealloc (suc n) i =
    let (len, all) = generate_from-IsLetter random prealloc n (i + 1) in
    (omega arith, (letter-IsLetter prealloc (random i), all))

-- A map that generate_file_mapping returns has a letter for each block, none but D, H and P, and P
-- only if preallocation is on.
pub generate-IsLetter :
    (random : ℕ → ℕ) (memory : Bool) (blocks : ℕ) (prealloc : Bool) {map : List ℕ}
    → generate_file_mapping random memory blocks prealloc ≡ some map
    → (length map ≡ blocks) × All (IsLetter prealloc) map
unfolding generate_file_mapping
generate-IsLetter random true blocks prealloc {map} e =
    subst (λ m. (length m ≡ blocks) × All (IsLetter prealloc) m) (some-injective _ _ e)
      (generate_from-IsLetter random prealloc blocks 0)
generate-IsLetter random false blocks prealloc {map} e = absurd (cc)

-- How far a call moves the file offset.
abbrev pub moves : Call → ℕ
moves (write n) = n
moves (fallocate off len) = 0
moves (lseek n) = n

abbrev pub position : List Call → ℕ
position [] = 0
position (c ∷ calls) = moves c + position calls

-- The calls for one letter and for a map, from the offset `off` on.
abbrev pub block_plan : ℕ → ℕ → ℕ → List Call
block_plan blocksize off ch =
    if ch == data_block
    then write blocksize ∷ []
    else if ch == prealloc_block
    then fallocate off blocksize ∷ lseek blocksize ∷ []
    else lseek blocksize ∷ []

abbrev pub plan : ℕ → ℕ → List ℕ → List Call
plan blocksize off [] = []
plan blocksize off (ch ∷ map) = block_plan blocksize off ch ++ plan blocksize (off + blocksize) map

-- Each `fallocate` is for the place where the file offset stands.
abbrev pub InPlace : ℕ → List Call → Type 0
InPlace off [] = Unit
InPlace off (write n ∷ calls) = InPlace (off + n) calls
InPlace off (fallocate at len ∷ calls) = (at ≡ off) × InPlace off calls
InPlace off (lseek n ∷ calls) = InPlace (off + n) calls

plan-InPlace :
    (blocksize off : ℕ) (map : List ℕ)
    → InPlace off (plan blocksize off map)
      × (position (plan blocksize off map) ≡ length map * blocksize)
plan-InPlace blocksize off [] = (tt, omega arith)
plan-InPlace blocksize off (ch ∷ map) = ground (arith, plan-InPlace blocksize (off + blocksize) map)

module _ (kernel : Kernel) (blocksize : ℕ) where
  create_block-plan :
      (ch off : ℕ) (calls : List Call)
      → off < 2 ^ 31
      → (create_block kernel blocksize ch off calls).1 ≡ created
      → (create_block kernel blocksize ch off calls).0 ≡ calls ++ block_plan blocksize off ch
  unfolding create_block seek_block
  create_block-plan ch off calls fits e =
      ground (arith, append_assoc calls (fallocate off blocksize ∷ []) (lseek blocksize ∷ []))

  created_inv :
      (ch : ℕ) (map : List ℕ) (off : ℕ) (calls : List Call)
      → off + blocksize < 2 ^ 31
      → (create_blocks kernel blocksize (ch ∷ map) off calls).1 ≡ created
      → let step = create_block kernel blocksize ch off calls in
        (step.1 ≡ created)
        × (create_blocks kernel blocksize (ch ∷ map) off calls
            ≡ create_blocks kernel blocksize map (off + blocksize) step.0)
  unfolding create_blocks
  created_inv ch map off calls fits e =
      let no_wrap : u32 (off + blocksize) ≡ off + blocksize = omega arith in ground (arith, no_wrap)

  create_blocks-plan :
      (map : List ℕ) (off : ℕ) (calls : List Call)
      → off < 2 ^ 31
      → off + length map * blocksize < 2 ^ 31
      → (create_blocks kernel blocksize map off calls).1 ≡ created
      → (create_blocks kernel blocksize map off calls).0 ≡ calls ++ plan blocksize off map
  create_blocks-plan [] off calls fits small e = unfold create_blocks in sym (append-nil calls)
  create_blocks-plan (ch ∷ map) off calls fits small e =
      let (ok, rest) = created_inv ch map off calls (omega arith) e in
      let step = create_block kernel blocksize ch off calls in
      let ih =
        create_blocks-plan map (off + blocksize) step.0 (omega arith) (omega arith)
          (rw (← rest) e) in
      rw rest (
        ih
        ∙ ap (λ l. l ++ plan blocksize (off + blocksize) map)
            (create_block-plan ch off calls fits ok)
        ∙ append_assoc calls (block_plan blocksize off ch) (plan blocksize (off + blocksize) map))

  -- When create_file_from_mapping succeeds for a map below 2 GB, it has made the calls planned for the map, each
  -- fallocate at the place where the file offset stood, and the offset is at the end of the map.
  pub create_file-InPlace :
      (memory : Bool) (map : List ℕ)
      → length map * blocksize < 2 ^ 31
      → (create_file_from_mapping kernel blocksize memory map).1 ≡ created
      → let calls = (create_file_from_mapping kernel blocksize memory map).0 in
        (calls ≡ plan blocksize 0 map) × InPlace 0 calls × (position calls ≡ length map * blocksize)
  unfolding create_file_from_mapping
  create_file-InPlace false map small e = absurd (cc)
  create_file-InPlace true map small e =
      let same = create_blocks-plan map 0 [] (omega arith) (omega arith) e in
      let (place, ends) = plan-InPlace blocksize 0 map in rw same (refl, place, ends)

  -- The kernel does what it is asked: a full write, and no error.
  abbrev pub Succeeds : List Call → Call → Type 0
  Succeeds calls (write n) = is_short kernel blocksize (kernel calls (write n)) ≡ false
  Succeeds calls (lseek n) = seek_failed kernel blocksize (kernel calls (lseek n)) ≡ false
  Succeeds calls (fallocate off n) =
      is_failed kernel blocksize (kernel calls (fallocate off n)) ≡ false

  abbrev pub AllSucceed : List Call → List Call → Type 0
  AllSucceed calls [] = Unit
  AllSucceed calls (c ∷ cs) = Succeeds calls c × AllSucceed (calls ++ (c ∷ [])) cs

  create_block-succeeds :
      (prealloc : Bool) (ch off : ℕ) (calls rest : List Call)
      → off < 2 ^ 31
      → IsLetter prealloc ch
      → AllSucceed calls (block_plan blocksize off ch ++ rest)
      → ((create_block kernel blocksize ch off calls).1 ≡ created)
        × AllSucceed (calls ++ block_plan blocksize off ch) rest
  unfolding create_block seek_block
  create_block-succeeds prealloc ch off calls rest fits (inl e) h =
      let h' = rw e at h in rw e (rw (h'.0), h'.1)
  create_block-succeeds prealloc ch off calls rest fits (inr (inl e)) h =
      let h' = rw e at h in rw e (rw (h'.0), h'.1)
  create_block-succeeds prealloc ch off calls rest fits (inr (inr (e, p))) h =
      let h' = rw e at h in
      let same_offset : extend off ≡ off = ground arith in
      let apart = append_assoc calls (fallocate off blocksize ∷ []) (lseek blocksize ∷ []) in
      rw (e, same_offset) (rw (h'.0, h'.1.0), rw (← apart) h'.1.1)

  create_blocks-succeeds :
      (prealloc : Bool) (map : List ℕ) (off : ℕ) (calls : List Call)
      → off < 2 ^ 31
      → off + length map * blocksize < 2 ^ 31
      → All (IsLetter prealloc) map
      → AllSucceed calls (plan blocksize off map)
      → (create_blocks kernel blocksize map off calls).1 ≡ created
  unfolding create_blocks
  create_blocks-succeeds prealloc [] off calls fits small l h = refl
  create_blocks-succeeds prealloc (ch ∷ map) off calls fits small l h =
      let (ok, others) =
        create_block-succeeds prealloc ch off calls (plan blocksize (off + blocksize) map) fits l.0
          h in
      let same = create_block-plan ch off calls fits ok in
      let no_wrap : u32 (off + blocksize) ≡ off + blocksize = omega arith in
      let ih =
        create_blocks-succeeds prealloc map (off + blocksize)
          (create_block kernel blocksize ch off calls).0 (omega arith) (omega arith) l.1
          (rw same others) in
      ground (arith, ok, ih, no_wrap)

  -- For a map of the three letters below 2 GB, create_file_from_mapping succeeds if the buffer can be
  -- allocated and the kernel carries out each call of the plan.
  pub create_file-succeeds :
      (prealloc : Bool) (map : List ℕ)
      → length map * blocksize < 2 ^ 31
      → All (IsLetter prealloc) map
      → AllSucceed [] (plan blocksize 0 map)
      → (create_file_from_mapping kernel blocksize true map).1 ≡ created
  unfolding create_file_from_mapping
  create_file-succeeds prealloc map small l h =
      create_blocks-succeeds prealloc map 0 [] (omega arith) (omega arith) l h

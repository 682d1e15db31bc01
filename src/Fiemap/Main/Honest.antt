-- ===== src/Fiemap/Main/Honest.antt =====
-- A round passes when the system does what it is asked and FIEMAP tells the truth.
use native.Mathlib.Nat.{mod-lt, le-div_iff_mul-le, div-mul-le_self, mul-le-mul_right}
use testunion.Common.{
  All, if◌then◌else◌, ℕ, zero, suc, ◌+◌, ◌*◌, ◌/◌, ◌%◌, ◌≤◌, ◌<◌, ◌^◌, ◌≡◌, refl, arith, List, [],
  ◌∷◌, Bool, true, false, none, some, ◌==◌, length, get_elem?, All-get_elem?, inl, inr, Bool-cases,
  subst, sym,
}
use testunion.Fiemap.Extent.{ExtentFlags, data_block, prealloc_block}
use testunion.Fiemap.Flags.Laws.{IsBlocksize, blocksize-positive}
use testunion.Fiemap.Create.{
  Call, write, fallocate, lseek, created, Kernel, generate_from, generate_file_mapping,
  create_file_from_mapping,
}
use testunion.Fiemap.Create.Laws.{
  IsLetter, generate-IsLetter, plan, Succeeds, AllSucceed, create_file-succeeds,
}
use testunion.Fiemap.Create.File.{empty_file, file_after, create_file-Lays}
use testunion.Fiemap.Compare.Verdict.{IsShown, compare_iff}
use testunion.Fiemap.Main.{Round, passed, test_map, run_body}
use testunion.Fiemap.Main.Truth.{IsTruthful, truth-IsShown}
use testunion.Fiemap.Main.Found.{test_map-passes}

generate-some :
    (random : ℕ → ℕ) (memory prealloc : Bool) (blocks : ℕ)
    → memory ≡ true
    → (blocks == 0) ≡ false
    → (ch : ℕ) × (tail : List ℕ) × (generate_file_mapping random memory blocks prealloc
        ≡ some (ch ∷ tail))
unfolding generate_file_mapping generate_from
generate-some random memory prealloc zero m e = absurd (cc)
generate-some random true prealloc (suc n) m e = (_, _, refl)
generate-some random false prealloc (suc n) m e = absurd (cc)

-- The number of blocks that a run draws.
abbrev pub drawn : ℕ → Round → ℕ
drawn blocksize r = r.random_blocks % (2 * 1024 * 1024 / blocksize)

-- How many of the next rounds draw a file with a block.
abbrev pub tries : ℕ → ℕ → (ℕ → Round) → ℕ → ℕ
tries blocksize zero rounds k = 0
tries blocksize (suc fuel) rounds k =
    let rest = tries blocksize fuel rounds (k + 1) in
    if drawn blocksize (rounds k) == 0 then rest else rest + 1

module _ (blocksize : ℕ) where
  -- The kernel carries out the three calls on a block, whenever they are made.
  pub record Obeys (kernel : Kernel) : Type 0 where
    pub writes : (calls : List Call) → Succeeds kernel blocksize calls (write blocksize)
    pub allocates :
        (calls : List Call) (off : ℕ) → Succeeds kernel blocksize calls (fallocate off blocksize)
    pub seeks : (calls : List Call) → Succeeds kernel blocksize calls (lseek blocksize)

  AllSucceed-Obeys :
      (kernel : Kernel) (map : List ℕ) (calls : List Call) (off : ℕ)
      → Obeys kernel
      → AllSucceed kernel blocksize calls (plan blocksize off map)
  AllSucceed-Obeys kernel [] calls off obeys = tt
  AllSucceed-Obeys kernel (ch ∷ map) calls off obeys =
      let after : (cs : List Call)
          → AllSucceed kernel blocksize cs (plan blocksize (off + blocksize) map) =
        λ cs. AllSucceed-Obeys kernel map cs (off + blocksize) obeys in
      elim (Bool-cases (ch == data_block)) [
        | inl d ↦ rw d (obeys.writes calls, after _)
        | inr no_data ↦ elim (Bool-cases (ch == prealloc_block)) [
          | inl p ↦ rw (no_data, p) (obeys.allocates calls off, (obeys.seeks _, after _))
          | inr no_prealloc ↦ rw (no_data, no_prealloc) (obeys.seeks calls, after _)
        ]
      ]

module _ (fl : ExtentFlags) (blocksize : ℕ) (prealloc : Bool) where
  -- In this run there is memory, the kernel does what it is asked, and FIEMAP tells the truth about
  -- the file that the run makes.
  pub record IsHonest (r : Round) : Type 0 where
    pub map_memory : r.map_memory ≡ true
    pub buffer_memory : r.buffer_memory ≡ true
    pub memory : (n : ℕ) → r.sys.malloc n ≡ true
    pub truncates : r.truncates ≡ true
    pub seeks : r.seeks ≡ true
    pub obeys : Obeys blocksize r.kernel
    pub truth :
        (map : List ℕ)
        → generate_file_mapping r.random_letter r.map_memory (drawn blocksize r) prealloc ≡ some map
        → IsTruthful fl blocksize
            (file_after
              (create_file_from_mapping r.kernel blocksize r.buffer_memory map).0
              empty_file)
            r.sys

-- A file of one block is not too large.
pub max_blocks :
    {blocksize : ℕ}
    → IsBlocksize blocksize
    → blocksize ≤ 2 * 1024 * 1024
    → 0 < 2 * 1024 * 1024 / blocksize
max_blocks b le = (le-div_iff_mul-le (blocksize-positive b)).1 (omega arith)

-- No file has 2 MB.
pub drawn-small :
    (blocksize : ℕ) (r : Round) (n : ℕ)
    → 0 < 2 * 1024 * 1024 / blocksize
    → n ≡ drawn blocksize r
    → n * blocksize < 2 ^ 31
drawn-small blocksize r n room e =
    let below : n ≤ 2 * 1024 * 1024 / blocksize = omega (arith, mod-lt r.random_blocks room, e) in
    let whole = div-mul-le_self (2 * 1024 * 1024) blocksize in
    let grown = mul-le-mul_right blocksize below in omega arith

-- What a run on this map needs: memory, a kernel that does what it is asked, and a FIEMAP that tells
-- the truth about the file.
pub record Serves (fl : ExtentFlags) (blocksize : ℕ) (r : Round) (map : List ℕ) : Type 0 where
  pub buffer_memory : r.buffer_memory ≡ true
  pub memory : (n : ℕ) → r.sys.malloc n ≡ true
  pub truncates : r.truncates ≡ true
  pub seeks : r.seeks ≡ true
  pub obeys : Obeys blocksize r.kernel
  pub truth :
      IsTruthful fl blocksize
        (file_after (create_file_from_mapping r.kernel blocksize r.buffer_memory map).0 empty_file)
        r.sys

module _ (fl : ExtentFlags) (header per_extent blocksize : ℕ) (prealloc : Bool)
    (b : IsBlocksize blocksize) (r : Round) (w : Bool) where
  pub served-test :
      (ch : ℕ) (tail : List ℕ)
      → All (IsLetter prealloc) (ch ∷ tail)
      → Serves fl blocksize r (ch ∷ tail)
      → length (ch ∷ tail) * blocksize < 2 ^ 31
      → (w' : Bool) × (test_map fl header per_extent blocksize prealloc r (ch ∷ tail) w ≡ passed w')
  served-test ch tail letters serves small =
      let map : List ℕ = ch ∷ tail in
      let made =
        subst (λ m. (create_file_from_mapping r.kernel blocksize m map).1 ≡ created)
          (sym serves.buffer_memory)
          (create_file-succeeds r.kernel blocksize prealloc map small letters
            (AllSucceed-Obeys blocksize r.kernel map [] 0 serves.obeys)) in
      let laid = create_file-Lays r.kernel blocksize r.buffer_memory map small made in
      let n : ℕ = r.random_piece % length map + 1 in
      let fits : n ≤ length map =
        let block : 0 < length map = omega arith in
        let below = mod-lt r.random_piece block in omega arith in
      let shown : (i a : ℕ) → get_elem? map i ≡ some a → IsShown fl r.sys blocksize map n i a =
        λ i a q.
          truth-IsShown fl blocksize map _ laid (blocksize-positive b) r.sys serves.truth small n
            (omega arith) fits prealloc i a (All-get_elem? (IsLetter prealloc) map i letters q) q in
      let compares =
        (compare_iff fl r.sys blocksize header per_extent r.random_piece ch tail w b
            serves.truth.regular small (serves.memory _)).1
          shown in
      test_map-passes fl header per_extent blocksize prealloc r ch tail w made compares
        serves.truncates serves.seeks

module _ (fl : ExtentFlags) (header per_extent blocksize : ℕ) (prealloc : Bool)
    (b : IsBlocksize blocksize) (r : Round) (honest : IsHonest fl blocksize prealloc r)
    (w : Bool) where
  -- A run that draws no empty file passes.
  pub honest-body :
      blocksize ≤ 2 * 1024 * 1024
      → (drawn blocksize r == 0) ≡ false
      → (w' : Bool) × (run_body fl header per_extent blocksize prealloc r none w ≡ passed w')
  unfolding run_body
  honest-body le some_blocks =
      let room = max_blocks b le in
      let divides : (2 * 1024 * 1024 / blocksize == 0) ≡ false = ground arith in
      let (ch, tail, made) =
        generate-some r.random_letter r.map_memory prealloc (drawn blocksize r) honest.map_memory
          some_blocks in
      let (len, letters) =
        generate-IsLetter r.random_letter r.map_memory (drawn blocksize r) prealloc made in
      let serves : Serves fl blocksize r (ch ∷ tail) = record {
        buffer_memory = honest.buffer_memory;
        memory = honest.memory;
        truncates = honest.truncates;
        seeks = honest.seeks;
        obeys = honest.obeys;
        truth = honest.truth (ch ∷ tail) made;
      } in
      let (w', passes) =
        served-test fl header per_extent blocksize prealloc b r w ch tail letters serves
          (drawn-small blocksize r _ room len) in
      (w', rw (divides, some_blocks, made) passes)

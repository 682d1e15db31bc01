-- ===== src/Fiemap/Main/Whole.antt =====
-- `-r n` from the command line to the normal end of the program.
use testunion.Common.{
  ap, All, length, ◌^◌, ◌<◌, ◌∷◌, ℕ, zero, suc, ◌+◌, ◌*◌, ◌≤◌, ◌≡◌, ◌/◌, refl, arith, List, Bool,
  true, false, none, some, ◌&&◌, ◌==◌, pos, inl, inr, Bool-cases,
}
use testunion.Fiemap.Extent.{ExtentFlags}
use testunion.Fiemap.Flags.Laws.{IsBlocksize, blocksize-positive}
use testunion.Fiemap.Create.Laws.{IsLetter}
use testunion.Fiemap.Main.{
  Opt, Settings, Setup, Round, done, skipped, passed, is_given, test_map, settings, prepare,
  run_body, main_loop, main,
}
use testunion.Fiemap.Main.Laws.{settings_lem}
use testunion.Fiemap.Main.Honest.{
  drawn, tries, IsHonest, max_blocks, Serves, served-test, honest-body,
}

run_body-skipped :
    (fl : ExtentFlags) (header per_extent blocksize : ℕ) (prealloc : Bool) (r : Round) (w : Bool)
    → IsBlocksize blocksize
    → blocksize ≤ 2 * 1024 * 1024
    → (drawn blocksize r == 0) ≡ true
    → run_body fl header per_extent blocksize prealloc r none w ≡ skipped
unfolding run_body
run_body-skipped fl header per_extent blocksize prealloc r w b le e =
    let room = max_blocks b le in
    let divides : (2 * 1024 * 1024 / blocksize == 0) ≡ false = ground arith in rw (divides, e) refl

module _ (fl : ExtentFlags) (header per_extent blocksize : ℕ) (prealloc : Bool)
    (b : IsBlocksize blocksize) (le : blocksize ≤ 2 * 1024 * 1024) (rounds : ℕ → Round)
    (honest : (k : ℕ) → IsHonest fl blocksize prealloc (rounds k)) where
  round-skipped :
      (k : ℕ) (w : Bool)
      → (drawn blocksize (rounds k) == 0) ≡ true
      → run_body fl header per_extent blocksize prealloc (rounds k) none w ≡ skipped
  round-skipped k w = run_body-skipped fl header per_extent blocksize prealloc (rounds k) w b le

  round-passes :
      (k : ℕ) (w : Bool)
      → (drawn blocksize (rounds k) == 0) ≡ false
      → (w' : Bool) × (run_body fl header per_extent blocksize prealloc (rounds k) none w
          ≡ passed w')
  round-passes k w =
      honest-body fl header per_extent blocksize prealloc b (rounds k) (honest k) w le

  main_loop-honest :
      (fuel k count n : ℕ) (w : Bool)
      → suc n ≤ tries blocksize fuel rounds k
      → main_loop fl header per_extent blocksize prealloc fuel rounds k count (pos (suc n)) none w
        ≡ done (count + suc n)
  unfolding main_loop
  main_loop-honest zero k count n w enough = absurd (omega arith)
  main_loop-honest (suc fuel) k count zero w enough =
      elim (Bool-cases (drawn blocksize (rounds k) == 0)) [
        | inl empty ↦
            let skips = round-skipped k w empty in
            rw (main_loop, skips) (main_loop-honest fuel (k + 1) count 0 w (rw empty at enough))
        | inr some_blocks ↦
            let (w', passes) = round-passes k w some_blocks in ground (arith, passes)
      ]
  main_loop-honest (suc fuel) k count (suc n) w enough =
      elim (Bool-cases (drawn blocksize (rounds k) == 0)) [
        | inl empty ↦
            let skips = round-skipped k w empty in
            rw (main_loop, skips)
              (main_loop-honest fuel (k + 1) count (suc n) w (rw empty at enough))
        | inr some_blocks ↦
            let (w', passes) = round-passes k w some_blocks in
            let more : suc n ≤ tries blocksize fuel rounds (k + 1) =
              omega (arith, rw some_blocks at enough) in
            let rest = main_loop-honest fuel (k + 1) (count + 1) n w' more in
            ground (arith, passes, rest)
      ]

-- Started with -r n, n positive, on a file that opens and truncates, with a power-of-two block size
-- of at most 2 MB, the program ends with status 0 after n compared files, if in every round there
-- is memory, the kernel carries out each write, fallocate and lseek, and FIEMAP tells the truth
-- about the file that the round has made, and if n rounds draw a file with a block within the fuel.
pub main-done :
    (fl : ExtentFlags) (header per_extent blocksize : ℕ) (opts : List Opt) (named : Bool)
    (setup : Setup) (rounds : ℕ → Round) (fuel n : ℕ) {s : Settings}
    → settings opts named ≡ some s
    → s.runs ≡ pos (suc n)
    → setup.opens ≡ true
    → setup.truncates ≡ true
    → setup.blocksize ≡ some blocksize
    → IsBlocksize blocksize
    → blocksize ≤ 2 * 1024 * 1024
    → ((k : ℕ) → IsHonest fl blocksize (s.prealloc && setup.preallocates) (rounds k))
    → suc n ≤ tries blocksize fuel rounds 0
    → main fl header per_extent opts named setup fuel rounds ≡ done (suc n)
unfolding main prepare
main-done fl header per_extent blocksize opts named setup rounds fuel n {s} given runs o t size b le
      honest enough =
    let (is_named, parsed, one) = settings_lem opts named given in
    let no_map : s.map ≡ none = elim one [ inl e ↦ absurd (cc) | inr e ↦ e ] in
    let positive = blocksize-positive b in
    let is_size : (blocksize == 0) ≡ false = ground arith in
    let ends =
      main_loop-honest fl header per_extent blocksize (s.prealloc && setup.preallocates) b le rounds
        honest fuel 0 0 n false enough in
    let total : 0 + suc n ≡ suc n = omega arith in
    rw (main, given, prepare, size, o, t, no_map, runs, is_size) (rw total at ends)

map-done :
    (fl : ExtentFlags) (header per_extent blocksize : ℕ) (prealloc : Bool) (rounds : ℕ → Round)
    (fuel : ℕ) (map : List ℕ) {w : Bool}
    → test_map fl header per_extent blocksize prealloc (rounds 0) map false ≡ passed w
    → main_loop fl header per_extent blocksize prealloc
        (suc fuel)
        rounds
        0
        0
        (pos 0)
        (some map)
        false
      ≡ done 1
unfolding main_loop run_body
map-done fl header per_extent blocksize prealloc rounds fuel map e = ground arith

-- Started with -m and a map of D, H, and, where preallocation is on, P, that is not empty, on a
-- file that opens and truncates, with a power-of-two block size and a map below 2 GB, the program
-- ends with status 0 after one compared file, if there is memory, the kernel carries out each
-- write, fallocate and lseek, and FIEMAP tells the truth about the file of the map.
pub main-map_done :
    (fl : ExtentFlags) (header per_extent blocksize : ℕ) (opts : List Opt) (named : Bool)
    (setup : Setup) (rounds : ℕ → Round) (fuel ch : ℕ) (tail : List ℕ) {s : Settings}
    → settings opts named ≡ some s
    → s.map ≡ some (ch ∷ tail)
    → setup.opens ≡ true
    → setup.truncates ≡ true
    → setup.blocksize ≡ some blocksize
    → IsBlocksize blocksize
    → length (ch ∷ tail) * blocksize < 2 ^ 31
    → All (IsLetter (s.prealloc && setup.preallocates)) (ch ∷ tail)
    → Serves fl blocksize (rounds 0) (ch ∷ tail)
    → main fl header per_extent opts named setup (suc fuel) rounds ≡ done 1
unfolding main prepare
main-map_done fl header per_extent blocksize opts named setup rounds fuel ch tail {s} given mapped o
      t size b small letters serves =
    let positive = blocksize-positive b in
    let is_size : (blocksize == 0) ≡ false = ground arith in
    let (w, passes) =
      served-test fl header per_extent blocksize (s.prealloc && setup.preallocates) b (rounds 0)
        false ch tail letters serves small in
    let has_map : is_given s.map ≡ true = ap is_given mapped in
    rw (main, given, prepare, size, o, t, has_map, mapped, is_size)
      (map-done fl header per_extent blocksize (s.prealloc && setup.preallocates) rounds fuel
        (ch ∷ tail) passes)

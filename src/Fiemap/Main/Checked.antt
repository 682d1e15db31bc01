-- ===== src/Fiemap/Main/Checked.antt =====
-- What the end of one round says of its file.
use testunion.Common.{
  ℕ, ◌+◌, ◌*◌, ◌/◌, ◌%◌, ◌<◌, ◌≡◌, ◌≢◌, ◌^◌, ◌⊎◌, refl, arith, List, [], ◌∷◌, Bool, true, false,
  none, some, ◌==◌, length, get_elem?, inl, inr, Bool-cases, Option-cases,
}
use testunion.Fiemap.Extent.{ExtentFlags}
use testunion.Fiemap.Flags.Laws.{IsBlocksize}
use testunion.Fiemap.Create.{created, generate_file_mapping, create_file_from_mapping}
use testunion.Fiemap.Create.Laws.{generate-IsLetter}
use testunion.Fiemap.Create.File.{empty_file, file_after, Lays, create_file-Lays}
use testunion.Fiemap.Compare.{compare_fiemap_and_map}
use testunion.Fiemap.Compare.Letters.{IsRegular}
use testunion.Fiemap.Compare.Pieces.{is_same}
use testunion.Fiemap.Compare.Verdict.{IsShown, compare_iff}
use testunion.Fiemap.Main.{Round, Body, Failure, skipped, passed, stopped, test_map, run_body}
use testunion.Fiemap.Main.Honest.{drawn, drawn-small}

pub Body-cases :
    (t : Body) → (t ≡ skipped) ⊎ ((v : Bool) × (t ≡ passed v)) ⊎ ((f : Failure) × (t ≡ stopped f))
Body-cases skipped = inl refl
Body-cases (passed v) = inr (inl (v, refl))
Body-cases (stopped f) = inr (inr (f, refl))

module _ (fl : ExtentFlags) (header per_extent blocksize : ℕ) (prealloc : Bool) (r : Round) where
  test_map-not_skipped :
      (map : List ℕ) (w : Bool) → test_map fl header per_extent blocksize prealloc r map w ≢ skipped
  unfolding test_map
  test_map-not_skipped map w e = ground arith

  test_map_inv :
      (map : List ℕ) (w : Bool) {v : Bool}
      → test_map fl header per_extent blocksize prealloc r map w ≡ passed v
      → ((create_file_from_mapping r.kernel blocksize r.buffer_memory map).1 ≡ created)
        × (is_same
              (compare_fiemap_and_map fl r.sys blocksize header per_extent r.random_piece map w)
            ≡ true)
  unfolding test_map
  test_map_inv map w {v} e = ground arith

  abbrev max_blocks : ℕ
  max_blocks = 2 * 1024 * 1024 / blocksize

  pub skipped_inv :
      (w : Bool)
      → run_body fl header per_extent blocksize prealloc r none w ≡ skipped
      → (drawn blocksize r == 0) ≡ true
  unfolding run_body
  skipped_inv w e = elim (Bool-cases (drawn blocksize r == 0)) [
    | inl empty ↦ empty
    | inr some_blocks ↦ elim (Bool-cases (max_blocks == 0)) [
      | inl z ↦ absurd (ground arith)
      | inr divides ↦
          elim (Option-cases
            (generate_file_mapping r.random_letter r.map_memory (drawn blocksize r) prealloc)) [
              | inl g ↦ absurd (ground arith)
              | inr (map, g) ↦ absurd (ground (arith, test_map-not_skipped map w))
            ]
    ]
  ]

  pub passed_inv :
      (w : Bool) {v : Bool}
      → run_body fl header per_extent blocksize prealloc r none w ≡ passed v
      → ((drawn blocksize r == 0) ≡ false)
        × ((max_blocks == 0) ≡ false)
        × ((map : List ℕ) × (generate_file_mapping r.random_letter r.map_memory
                (drawn blocksize r)
                prealloc
              ≡ some map)
            × (test_map fl header per_extent blocksize prealloc r map w ≡ passed v))
  unfolding run_body
  passed_inv w {v} e = elim (Bool-cases (max_blocks == 0)) [
    | inl z ↦ absurd (ground arith)
    | inr divides ↦ elim (Bool-cases (drawn blocksize r == 0)) [
      | inl empty ↦ absurd (ground arith)
      | inr some_blocks ↦
          elim (Option-cases
            (generate_file_mapping r.random_letter r.map_memory (drawn blocksize r) prealloc)) [
              | inl g ↦ absurd (ground arith)
              | inr (map, g) ↦ (some_blocks, divides, (map, g, rw (divides, some_blocks, g) at e))
            ]
    ]
  ]

  same-memory :
      (map : List ℕ) (w : Bool)
      → is_same (compare_fiemap_and_map fl r.sys blocksize header per_extent r.random_piece map w)
        ≡ true
      → r.sys.malloc (header + (r.random_piece % length map + 1) * per_extent) ≡ true
  unfolding compare_fiemap_and_map
  same-memory map w e = ground arith

  -- The round drew a map and made the file of it, and FIEMAP was found to show each of its blocks.
  pub record IsChecked : Type 0 where
    pub map : List ℕ
    pub drew :
        generate_file_mapping r.random_letter r.map_memory (drawn blocksize r) prealloc ≡ some map
    pub laid :
        Lays blocksize 0 map (
          file_after (create_file_from_mapping r.kernel blocksize r.buffer_memory map).0 empty_file)
    pub shown :
        (i a : ℕ)
        → get_elem? map i ≡ some a
        → IsShown fl r.sys blocksize map (r.random_piece % length map + 1) i a

  blocks-IsShown :
      (w : Bool) (map : List ℕ)
      → IsBlocksize blocksize
      → IsRegular r.sys blocksize
      → (length map == 0) ≡ false
      → length map * blocksize < 2 ^ 31
      → is_same (compare_fiemap_and_map fl r.sys blocksize header per_extent r.random_piece map w)
        ≡ true
      → (i a : ℕ) → get_elem? map i ≡ some a
      → IsShown fl r.sys blocksize map (r.random_piece % length map + 1) i a
  blocks-IsShown w [] b regular z small good = λ i a q. absurd (ground arith)
  blocks-IsShown w (ch ∷ tail) b regular z small good =
      (compare_iff fl r.sys blocksize header per_extent r.random_piece ch tail w b regular small
          (same-memory (ch ∷ tail) w good)).0
        good

  pub passed-IsChecked :
      (w : Bool) {v : Bool}
      → IsBlocksize blocksize
      → IsRegular r.sys blocksize
      → run_body fl header per_extent blocksize prealloc r none w ≡ passed v
      → IsChecked
  passed-IsChecked w {v} b regular e =
      let (some_blocks, divides, (map, drew, test)) = passed_inv w e in
      let (len, letters) =
        generate-IsLetter r.random_letter r.map_memory (drawn blocksize r) prealloc drew in
      let (made, good) = test_map_inv map w test in
      let room : 0 < max_blocks = ground arith in
      let small = drawn-small blocksize r (length map) room len in
      record {
        map = map;
        drew = drew;
        laid = create_file-Lays r.kernel blocksize r.buffer_memory map small made;
        shown = blocks-IsShown w map b regular (rw len some_blocks) small good;
      }

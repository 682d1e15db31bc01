-- ===== src/Fiemap/Main.antt =====
-- `main` of incoming/fiemap-test.c: the options, the preparation of the file and the runs.
pub mod Laws
pub mod Truth
pub mod Found
pub mod Honest
pub mod Checked
pub mod Sound
pub mod Whole
mod Sample
mod Tests
use testunion.Common.{
  ℕ, zero, suc, ◌+◌, ◌*◌, ◌/◌, ◌%◌, List, [], ◌∷◌, Bool, true, false, not, ◌&&◌, Option, none, some,
  ◌==◌, if◌then◌else◌, length, ℤ, pos, negsuc, is_zero, is_minus_one, pred_ℤ,
}
use testunion.Fiemap.Extent.{ExtentFlags}
use testunion.Fiemap.Hole.{FileSystem}
use testunion.Fiemap.Create.{
  Kernel, Created, created, generate_file_mapping, create_file_from_mapping,
}
use testunion.Fiemap.Compare.{Compared, same, fault, compare_fiemap_and_map}

-- What `getopt` gives, with the arguments as `atoi` reads them.
pub data Opt : Type 0 where
  opt_m : List ℕ → Opt
  opt_p opt_r opt_s : ℤ → Opt
  unknown : Opt

pub record Settings : Type 0 where
  pub map : Option (List ℕ)
  pub runs : ℤ
  pub prealloc : Bool
  pub seed : ℤ

abbrev pub defaults : Settings
defaults = record { map = none; runs = negsuc 0; prealloc = true; seed = pos 1 }

-- `none` is the exit through `usage`.
unfoldable pub parse : List Opt → Settings → Option Settings
parse [] s = some s
parse (opt_m map ∷ opts) s = parse opts (record s { map = some map })
parse (opt_p n ∷ opts) s = parse opts (record s { prealloc = not (is_zero n) })
parse (opt_r n ∷ opts) s = parse opts (record s { runs = n })
parse (opt_s n ∷ opts) s = parse opts (record s { seed = n })
parse (unknown ∷ opts) s = none

abbrev pub is_given : Option (List ℕ) → Bool
is_given none = false
is_given (some map) = true

-- The tests behind the loop over the options: `runs != -1 && map`, and a file name is there.
unfoldable pub settings : List Opt → Bool → Option Settings
settings opts named = elim (parse opts defaults) [
  | none ↦ none
  | some s ↦
      if not (is_minus_one s.runs) && is_given s.map then none else if named then some s else none
]

-- What the preparation of the file can answer.
pub record Setup : Type 0 where
  pub opens : Bool
  pub blocksize : Option ℕ
  pub preallocates : Bool
  pub truncates : Bool

-- The state at the head of the loop over the runs.
pub record Start : Type 0 where
  pub map : Option (List ℕ)
  pub runs : ℤ
  pub prealloc : Bool
  pub blocksize : ℕ

-- `none` is an exit with status 1. With a map on the command line `runs` becomes 0.
unfoldable pub prepare : Settings → Setup → Option Start
prepare s e = elim e.blocksize [
  | none ↦ none
  | some blocksize ↦
      if e.opens && e.truncates
      then some (record {
        map = s.map;
        runs = (if is_given s.map then pos 0 else s.runs);
        prealloc = s.prealloc && e.preallocates;
        blocksize = blocksize;
      })
      else none
]

-- What the outside answers in one run: `random()`, `malloc` and the kernel.
pub record Round : Type 0 where
  pub random_blocks : ℕ
  pub random_letter : ℕ → ℕ
  pub random_piece : ℕ
  pub map_memory : Bool
  pub buffer_memory : Bool
  pub kernel : Kernel
  pub sys : FileSystem
  pub truncates : Bool
  pub seeks : Bool

-- Why the program ends with status 1, or stops at a division.
pub data Failure : Type 0 where
  bad_usage not_prepared : Failure
  no_map not_created mismatch not_truncated not_rewound divided_by_zero : Failure

-- How the program ends: with status 0 after a number of compared files, or with a failure.
pub data Exit : Type 0 where
  done : ℕ → Exit
  exit_failure : Failure → Exit
  out_of_fuel : Exit

-- What the body of the loop does: `continue`, reach its end, or leave the program.
pub data Body : Type 0 where
  skipped : Body
  passed : Bool → Body
  stopped : Failure → Body

module _ (fl : ExtentFlags) (header per_extent blocksize : ℕ) (prealloc : Bool) where
  -- From `create_file_from_mapping` to the end of the body.
  unfoldable pub test_map : Round → List ℕ → Bool → Body
  test_map r map warned =
      let compared =
        compare_fiemap_and_map fl r.sys blocksize header per_extent r.random_piece map warned in
      elim (create_file_from_mapping r.kernel blocksize r.buffer_memory map).1 [
        | created ↦ elim compared [
          | same log warned' ↦
              if not r.truncates
              then stopped not_truncated
              else if not r.seeks
              then stopped not_rewound
              else passed warned'
          | fault ↦ stopped divided_by_zero
          | _ ↦ stopped mismatch
        ]
        | _ ↦ stopped not_created
      ]

  -- The body of the loop. The largest file has 2 MB.
  unfoldable pub run_body : Round → Option (List ℕ) → Bool → Body
  run_body r (some map) warned = test_map r map warned
  run_body r none warned =
      let blocks = r.random_blocks % (2 * 1024 * 1024 / blocksize) in
      if (2 * 1024 * 1024 / blocksize) == 0
      then stopped divided_by_zero
      else if blocks == 0
      then skipped
      else elim (generate_file_mapping r.random_letter r.map_memory blocks prealloc) [
        | none ↦ stopped no_map
        | some map ↦ test_map r map warned
      ]

  -- `do … while (runs != 0)`, where `rounds k` is what the k-th pass meets and `count` the number
  -- of files compared so far. A `continue` goes to the test.
  unfoldable pub main_loop : ℕ → (ℕ → Round) → ℕ → ℕ → ℤ → Option (List ℕ) → Bool → Exit
  main_loop zero rounds k count runs map warned = out_of_fuel
  main_loop (suc fuel) rounds k count runs map warned = elim (run_body (rounds k) map warned) [
    | skipped ↦ elim (is_zero runs) [
      | true ↦ done count
      | false ↦ main_loop fuel rounds (k + 1) count runs map warned
    ]
    | passed warned' ↦
        let left = if is_zero runs then runs else pred_ℤ runs in
        elim (is_zero left) [
          | true ↦ done (count + 1)
          | false ↦ main_loop fuel rounds (k + 1) (count + 1) left none warned'
        ]
    | stopped e ↦ exit_failure e
  ]

-- `main`: the largest number of blocks is computed, and a block size of 0 divides, before the loop.
unfoldable pub main : ExtentFlags → ℕ → ℕ → List Opt → Bool → Setup → ℕ → (ℕ → Round) → Exit
main fl header per_extent opts named setup fuel rounds = elim (settings opts named) [
  | none ↦ exit_failure bad_usage
  | some s ↦ elim (prepare s setup) [
    | none ↦ exit_failure not_prepared
    | some t ↦
        if t.blocksize == 0
        then exit_failure divided_by_zero
        else main_loop fl header per_extent t.blocksize t.prealloc fuel rounds 0 0 t.runs t.map
            false
  ]
]

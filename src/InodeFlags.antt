-- ===== src/InodeFlags.antt =====
-- incoming/nocow.c and incoming/nocomp.c: each adds one flag to a file's flags.
pub mod Laws
mod Tests
use testunion.Common.{
  ℕ, List, [], ◌∷◌, Bool, true, false, Option, none, some, ltb, if◌then◌else◌, has, bit_or,
}

abbrev pub fs_nocow_fl : ℕ
fs_nocow_fl = 0x00800000

abbrev pub fs_compr_fl : ℕ
fs_compr_fl = 0x00000004

abbrev pub fs_nocomp_fl : ℕ
fs_nocomp_fl = 0x00000400

-- What is printed of a flag: its value, and whether it is said to be on.
pub record Report : Type 0 where
  pub flag : ℕ
  pub on : Bool

-- A run: the flags that it reports, those that it gives to `ioctl(SETFLAGS)`, if it comes so far, and
-- its exit status.
pub record Run : Type 0 where
  pub reports : List Report
  pub written : Option ℕ
  pub status : ℕ

abbrev pub stop : Run
stop = record { reports = []; written = none; status = 1 }

-- What follows a successful `ioctl(GETFLAGS)`: `accepts` tells whether the new flags are accepted.
unfoldable pub add_flag : ℕ → List Report → (ℕ → Bool) → ℕ → Run
add_flag flag reports accepts flags = record {
  reports = reports;
  written = some (bit_or flags flag);
  status = (if accepts (bit_or flags flag) then 0 else 1);
}

abbrev pub report : ℕ → Bool → Report
report flag on = record { flag = flag; on = on }

-- `main` of nocow.c: `argc`, whether the file opens, its flags, and whether new ones are accepted.
unfoldable pub nocow : ℕ → Bool → Option ℕ → (ℕ → Bool) → Run
nocow argc opens flags accepts =
    if ltb argc 2
    then stop
    else if opens
    then elim flags [
      | none ↦ stop
      | some f ↦
          add_flag fs_nocow_fl
            (report fs_nocow_fl (has f fs_nocow_fl)
              ∷ report fs_nocomp_fl (has f fs_nocomp_fl)
              ∷ report fs_compr_fl (has f fs_compr_fl)
              ∷ [])
            accepts f
    ]
    else stop

-- `main` of nocomp.c, whose two branches say the same of each flag.
unfoldable pub nocomp : ℕ → Bool → Option ℕ → (ℕ → Bool) → Run
nocomp argc opens flags accepts =
    if ltb argc 2
    then stop
    else if opens
    then elim flags [
      | none ↦ stop
      | some f ↦
          add_flag fs_nocomp_fl
            (report fs_nocow_fl (if has f fs_nocow_fl then true else true)
              ∷ report fs_nocomp_fl (if has f fs_nocomp_fl then true else true)
              ∷ report fs_compr_fl (if has f fs_compr_fl then true else true)
              ∷ [])
            accepts f
    ]
    else stop

-- ===== src/Admission/Storage.antt =====
-- `StorageProtection` of packages/host/src/storage-protection.ts. Bytes are whole numbers, and a
-- measurement that is not finite is absent.
use pidex.Prelude.{
  ℕ, ◌*◌, ◌^◌, Bool, true, false, ◌||◌, Option, none, some, ltb, leb, if◌then◌else◌,
}

abbrev pub minimum_supported_capacity_bytes : ℕ
minimum_supported_capacity_bytes = 8 * 1024 ^ 3

abbrev pub default_emergency_reserve_bytes : ℕ
default_emergency_reserve_bytes = 512 * 1024 ^ 2

abbrev pub default_admission_headroom_bytes : ℕ
default_admission_headroom_bytes = 1024 * 1024 ^ 2

pub record StorageProtection : Type 0 where
  pub capacity_bytes : ℕ
  pub emergency_reserve_bytes : ℕ
  pub admission_headroom_bytes : ℕ

pub data Mode : Type 0 where
  normal protected reserve : Mode

abbrev pub given_or : Option ℕ → ℕ → ℕ
given_or none default = default
given_or (some x) default = x

-- The test of the constructor; `headroom > capacity / 4` is a comparison of exact quotients.
unfoldable pub thresholds_invalid : ℕ → ℕ → ℕ → Bool
thresholds_invalid capacity emergency headroom =
    ltb capacity minimum_supported_capacity_bytes
    || (leb emergency 0 || (leb headroom emergency || ltb capacity (4 * headroom)))

-- The constructor, with its defaults; it throws for thresholds that do not fit.
unfoldable pub create_protection : Option ℕ → Option ℕ → Option ℕ → Option StorageProtection
unfolding thresholds_invalid
create_protection capacity emergency headroom =
    let c = given_or capacity minimum_supported_capacity_bytes in
    let e = given_or emergency default_emergency_reserve_bytes in
    let h = given_or headroom default_admission_headroom_bytes in
    if thresholds_invalid c e h
    then none
    else some
        (record { capacity_bytes = c; emergency_reserve_bytes = e; admission_headroom_bytes = h })

-- `status().mode`
unfoldable pub mode_of : StorageProtection → Option ℕ → Mode
mode_of p measured =
    let available = given_or measured 0 in
    if leb available p.emergency_reserve_bytes
    then reserve
    else if leb available p.admission_headroom_bytes
    then protected
    else normal

abbrev pub is_normal : Mode → Bool
is_normal normal = true
is_normal _ = false

pub data Admission : Type 0 where
  admitted : Admission
  admitted_after_cleaning : Admission
  storage_pressure : ℕ → Admission

-- The measurement before, and the one after the cleaning, which is made only under pressure.
unfoldable pub admit_discretionary : StorageProtection → Option ℕ → Option ℕ → Admission
unfolding mode_of
admit_discretionary p before cleaned =
    if is_normal (mode_of p before)
    then admitted
    else if is_normal (mode_of p cleaned)
    then admitted_after_cleaning
    else storage_pressure (given_or cleaned 0)

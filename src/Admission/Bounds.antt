-- ===== src/Admission/Bounds.antt =====
-- What an admission guarantees: packages/host/src/storage-protection.ts.
use pidex.Prelude.{ℕ, ◌*◌, ◌≤◌, ◌<◌, ◌≡◌, Option, some, arith}
use pidex.Admission.Storage.{
  StorageProtection, create_protection, given_or, admit_discretionary, Admission, admitted,
  admitted_after_cleaning, storage_pressure,
}

-- What each answer says about the measurements before and after the cleaning.
abbrev pub IsJustified : StorageProtection → Option ℕ → Option ℕ → Admission → Type 0
IsJustified p before cleaned admitted = p.admission_headroom_bytes < given_or before 0
IsJustified p before cleaned admitted_after_cleaning =
    (given_or before 0 ≤ p.admission_headroom_bytes)
    × (p.admission_headroom_bytes < given_or cleaned 0)
IsJustified p before cleaned (storage_pressure n) =
    (n ≡ given_or cleaned 0)
    × (given_or before 0 ≤ p.admission_headroom_bytes)
    × (n ≤ p.admission_headroom_bytes)

-- A protection that was created has an emergency reserve below its headroom, and a headroom of at
-- most a quarter of the capacity; a discretionary command is admitted where the storage measured
-- before the cleaning, or else after it, exceeds the headroom, and refused where neither does.
pub admit_discretionary-IsJustified :
    (capacity emergency headroom : Option ℕ) (p : StorageProtection) (before cleaned : Option ℕ)
    → create_protection capacity emergency headroom ≡ some p
    → (0 < p.emergency_reserve_bytes)
      × (p.emergency_reserve_bytes < p.admission_headroom_bytes)
      × (4 * p.admission_headroom_bytes ≤ p.capacity_bytes)
      × IsJustified p before cleaned (admit_discretionary p before cleaned)
unfolding create_protection admit_discretionary
admit_discretionary-IsJustified capacity emergency headroom p before cleaned e =
    (ground arith, ground arith, ground arith, ground arith)

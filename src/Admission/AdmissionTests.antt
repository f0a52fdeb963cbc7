-- ===== src/Admission/AdmissionTests.antt =====
-- Admissions of packages/host/src/storage-protection.ts and packages/host/src/capacity-admission.ts at
-- concrete inputs.
use pidex.Prelude.{◌≡◌, ◌<◌, refl, none, some}
use pidex.Admission.Storage.{StorageProtection, create_protection, admit_discretionary}
use pidex.Admission.Capacity.{assess, memory_pressure}
use pidex.Admission.Bounds.{admit_discretionary-IsJustified}

abbrev protection : StorageProtection
protection = record {
  capacity_bytes = 8589934592;
  emergency_reserve_bytes = 536870912;
  admission_headroom_bytes = 1073741824;
}

admit_discretionary-IsJustified_example : 1073741824 < 2000000000
unfolding create_protection admit_discretionary
admit_discretionary-IsJustified_example =
    (admit_discretionary-IsJustified none none none protection (some 2000000000) none refl).3

assess_under_pressure :
    assess
      (record {
        floor = record { resident_sessions = 8; executing_runs = 4 };
        os_headroom_bytes = 1073741824;
      })
      (record { resident_sessions = 1; executing_runs = 1; available_memory_bytes = 5 })
    ≡ memory_pressure 5 1073741824
unfolding assess
assess_under_pressure = refl

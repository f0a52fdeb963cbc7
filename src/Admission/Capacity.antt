-- ===== src/Admission/Capacity.antt =====
-- `HostCapacityAdmission` of packages/host/src/capacity-admission.ts.
use pidex.Prelude.{ℕ, ◌*◌, ◌^◌, Option, none, some, ltb, leb, if◌then◌else◌}
use pidex.Admission.Storage.{given_or}

abbrev pub gibibyte : ℕ
gibibyte = 1024 ^ 3

pub record CapacityFloor : Type 0 where
  pub resident_sessions : ℕ
  pub executing_runs : ℕ

pub record CapacityUse : Type 0 where
  pub resident_sessions : ℕ
  pub executing_runs : ℕ
  pub available_memory_bytes : ℕ

pub record HostCapacity : Type 0 where
  pub floor : CapacityFloor
  pub os_headroom_bytes : ℕ

-- The constructor throws below eight gibibytes.
unfoldable pub create_capacity : ℕ → Option ℕ → Option HostCapacity
create_capacity total_memory_bytes headroom =
    if ltb total_memory_bytes (8 * gibibyte)
    then none
    else some (record {
      floor =
          if leb (16 * gibibyte) total_memory_bytes
          then record { resident_sessions = 8; executing_runs = 4 }
          else record { resident_sessions = 4; executing_runs = 2 };
      os_headroom_bytes = given_or headroom gibibyte;
    })

pub data CapacityAssessment : Type 0 where
  admitted : CapacityAssessment
  memory_pressure : ℕ → ℕ → CapacityAssessment

unfoldable pub assess : HostCapacity → CapacityUse → CapacityAssessment
assess h use_ =
    if ltb use_.available_memory_bytes h.os_headroom_bytes
    then memory_pressure use_.available_memory_bytes h.os_headroom_bytes
    else admitted

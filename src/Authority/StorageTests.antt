-- ===== src/Authority/StorageTests.antt =====
-- The theorem on the blobs of packages/host/src/store.ts at a concrete input.
use pidex.Prelude.{◌≡◌, refl, true, [], ◌∷◌, inr}
use pidex.Authority.Schema.{Authority}
use pidex.Authority.Maintenance.{
  Disk, contains, is_referenced, run_maintenance, decide_maintenance, maintained, apply_to_disk,
  restore_blob, quarantine_blob, delete_quarantined_blob,
}
use pidex.Authority.BlobSafety.{run_maintenance-referenced}
use pidex.Authority.Fixture.{busy}

-- Blob 51 is referenced again and waits in quarantine; blob 52 was proved an orphan before; blob 53 is
-- a new orphan.
abbrev storing : Authority
storing = record busy {
  orphans =
      record { object_id = 51; first_proved_at = 4 }
      ∷ record { object_id = 52; first_proved_at = 4 }
      ∷ [];
  retained = record { owner_kind = 1; owner_id = 2; object_id = 51; is_protected = true } ∷ [];
}

abbrev a_disk : Disk
a_disk = record { blobs = 53 ∷ []; quarantine = 51 ∷ 52 ∷ [] }

run_maintenance-referenced_example : contains 51 (run_maintenance 9 a_disk storing).1.0.blobs ≡ true
unfolding is_referenced
run_maintenance-referenced_example =
    run_maintenance-referenced 9 a_disk storing 51 refl (inr (refl, refl))

run_maintenance_lem :
    (run_maintenance 9 a_disk storing).1.0 ≡ record { blobs = 51 ∷ []; quarantine = 53 ∷ [] }
unfolding run_maintenance decide_maintenance maintained apply_to_disk restore_blob quarantine_blob
    delete_quarantined_blob is_referenced
run_maintenance_lem = refl

-- ===== src/Authority/Maintenance.antt =====
-- `runMaintenance` of packages/host/src/store.ts, with `referencedObjectIds`, `storageOrphans` and
-- `retainObjectReference`, and the moves of blobs on disk by packages/host/src/run-artifacts.ts.
-- A blob's object identifier and its digest are one number.
use pidex.Prelude.{
  ℕ, Bool, true, not, ◌&&◌, ◌||◌, List, [], ◌∷◌, ◌++◌, some, ◌==◌, ltb, if◌then◌else◌, same?, any,
  select, length, map,
}
use pidex.Authority.Schema.{Entry, Orphan, RetainedReference, Authority}
use pidex.Authority.Synchronization.{compact_changes, is_expired}

-- The two folders of packages/host/src/run-artifacts.ts.
pub record Disk : Type 0 where
  pub blobs : List ℕ
  pub quarantine : List ℕ

pub record MaintenanceResult : Type 0 where
  pub changes_compacted : ℕ
  pub quarantined : List ℕ
  pub deleted : List ℕ
  pub restored : List ℕ

abbrev pub contains : ℕ → List ℕ → Bool
contains id = any (λ (x : ℕ). x == id)

-- `referencedObjectIds().has(id)`
unfoldable pub is_referenced : ℕ → Authority → Bool
is_referenced id db =
    any (λ (e : Entry). same? e.blob_id (some id)) db.entries
    || any (λ (r : RetainedReference). r.is_protected && (r.object_id == id)) db.retained

-- A row that the maintenance takes away, since its object is referenced again ...
abbrev pub is_restored : Authority → Orphan → Bool
is_restored db o = is_referenced o.object_id db

-- ... or since it was proved before.
abbrev pub is_deletable : ℕ → Authority → Orphan → Bool
is_deletable now db o = not (is_referenced o.object_id db) && ltb o.first_proved_at now

abbrev pub is_proved_orphan : ℕ → Authority → Bool
is_proved_orphan id db = any (λ (o : Orphan). o.object_id == id) db.orphans

-- The blobs on disk without a reference and without a row.
abbrev pub is_new_orphan : Authority → ℕ → Bool
is_new_orphan db id = not (is_referenced id db) && not (is_proved_orphan id db)

abbrev pub object_ids : List Orphan → List ℕ
object_ids = map (λ (o : Orphan). o.object_id)

unfoldable pub decide_maintenance : ℕ → Disk → Authority → MaintenanceResult
decide_maintenance now disk db = record {
  changes_compacted = length (select (is_expired now) db.changes);
  quarantined = select (is_new_orphan db) disk.blobs;
  deleted = object_ids (select (is_deletable now db) db.orphans);
  restored = object_ids (select (is_restored db) db.orphans);
}

abbrev pub new_orphan : ℕ → ℕ → Orphan
new_orphan now id = record { object_id = id; first_proved_at = now }

-- The rows after the transaction.
unfoldable pub maintained : ℕ → Disk → Authority → Authority
unfolding compact_changes
maintained now disk db = record (compact_changes now db) {
  orphans =
      select (λ (o : Orphan). not (is_restored db o || is_deletable now db o)) db.orphans
      ++ map (new_orphan now) (select (is_new_orphan db) disk.blobs);
}

abbrev pub remove_blob : ℕ → List ℕ → List ℕ
remove_blob id = select (λ (x : ℕ). not (x == id))

-- `restoreBlob`: what is not quarantined is left alone
unfoldable pub restore_blob : ℕ → Disk → Disk
restore_blob id disk =
    if contains id disk.quarantine
    then record {
      blobs = id ∷ remove_blob id disk.blobs;
      quarantine = remove_blob id disk.quarantine;
    }
    else disk

unfoldable pub quarantine_blob : ℕ → Disk → Disk
quarantine_blob id disk =
    if contains id disk.blobs
    then record {
      blobs = remove_blob id disk.blobs;
      quarantine = id ∷ remove_blob id disk.quarantine;
    }
    else disk

unfoldable pub delete_quarantined_blob : ℕ → Disk → Disk
delete_quarantined_blob id disk = record disk { quarantine = remove_blob id disk.quarantine }

abbrev pub for_each : (ℕ → Disk → Disk) → List ℕ → Disk → Disk
for_each move [] disk = disk
for_each move (id ∷ ids) disk = for_each move ids (move id disk)

-- The physical operations, once the decisions are durable.
unfoldable pub apply_to_disk : MaintenanceResult → Disk → Disk
unfolding restore_blob quarantine_blob delete_quarantined_blob
apply_to_disk r disk =
    for_each delete_quarantined_blob r.deleted
      (for_each quarantine_blob r.quarantined (for_each restore_blob r.restored disk))

unfoldable pub run_maintenance : ℕ → Disk → Authority → Authority × (Disk × MaintenanceResult)
unfolding decide_maintenance maintained apply_to_disk
run_maintenance now disk db =
    let result = decide_maintenance now disk db in
    (maintained now disk db, (apply_to_disk result disk, result))

-- INSERT OR REPLACE by the key of the owner and the object
unfoldable pub retain_object_reference : ℕ → ℕ → ℕ → Authority → Authority
retain_object_reference kind owner id db = record db {
  retained =
      select
        (λ (r : RetainedReference).
          not ((r.owner_kind == kind) && ((r.owner_id == owner) && (r.object_id == id))))
        db.retained
      ++ record { owner_kind = kind; owner_id = owner; object_id = id; is_protected = true } ∷ [];
}

-- ===== src/Authority/BlobSafety.antt =====
-- No referenced blob is lost: `runMaintenance` of packages/host/src/store.ts with the moves of
-- packages/host/src/run-artifacts.ts.
use pidex.Prelude.{
  ℕ, ◌≡◌, refl, Bool, true, false, List, [], ◌∷◌, ◌==◌, ==_iff, arith, any, select, Bool-cases, inl,
  inr, ◌⊎◌,
}
use pidex.Authority.Schema.{Orphan, Authority}
use pidex.Authority.Maintenance.{
  Disk, contains, is_referenced, is_restored, is_deletable, is_new_orphan, is_proved_orphan,
  object_ids, remove_blob, restore_blob, quarantine_blob, delete_quarantined_blob, for_each,
  run_maintenance,
}

contains-remove_blob :
    (id other : ℕ) (xs : List ℕ)
    → (other == id) ≡ false
    → contains id (remove_blob other xs) ≡ contains id xs
contains-remove_blob id other [] d = refl
contains-remove_blob id other (x ∷ xs) d =
    let ih = contains-remove_blob id other xs d in
    elim (Bool-cases (x == other)) [
      | inl gone ↦ let same : x ≡ other = (==_iff x other).0 gone in ground arith
      | inr kept ↦ ground arith
    ]

-- A move of another blob leaves this one where it is.
restore_blob-other :
    (id other : ℕ) (disk : Disk)
    → (other == id) ≡ false
    → (contains id (restore_blob other disk).blobs ≡ contains id disk.blobs)
      × (contains id (restore_blob other disk).quarantine ≡ contains id disk.quarantine)
unfolding restore_blob
restore_blob-other id other disk d = ground (
  arith,
  contains-remove_blob id other disk.blobs d,
  contains-remove_blob id other disk.quarantine d,
)

-- A blob that is in its place stays there.
restore_blob-kept :
    (id other : ℕ) (disk : Disk)
    → contains id disk.blobs ≡ true
    → contains id (restore_blob other disk).blobs ≡ true
unfolding restore_blob
restore_blob-kept id other disk h = elim (Bool-cases (other == id)) [
  | inl same ↦ ground arith
  | inr d ↦ ground (arith, contains-remove_blob id other disk.blobs d)
]

restore_all-kept :
    (id : ℕ) (ids : List ℕ) (disk : Disk)
    → contains id disk.blobs ≡ true
    → contains id (for_each restore_blob ids disk).blobs ≡ true
restore_all-kept id [] disk h = h
restore_all-kept id (x ∷ ids) disk h =
    restore_all-kept id ids (restore_blob x disk) (restore_blob-kept id x disk h)

-- A blob in quarantine whose row asks for it comes back.
restore_all-returned :
    (id : ℕ) (ids : List ℕ) (disk : Disk)
    → contains id ids ≡ true
    → contains id disk.quarantine ≡ true
    → contains id (for_each restore_blob ids disk).blobs ≡ true
restore_all-returned id [] disk m q = cc
restore_all-returned id (x ∷ ids) disk m q = elim (Bool-cases (x == id)) [
  | inl same ↦
      restore_all-kept id ids (restore_blob x disk)
        (unfold restore_blob in (let e : x ≡ id = (==_iff x id).0 same in ground arith))
  | inr d ↦
      let moved = restore_blob-other id x disk d in
      restore_all-returned id ids (restore_blob x disk) (ground arith) (ground arith)
]

quarantine_all-other :
    (id : ℕ) (ids : List ℕ) (disk : Disk)
    → contains id ids ≡ false
    → contains id (for_each quarantine_blob ids disk).blobs ≡ contains id disk.blobs
unfolding quarantine_blob
quarantine_all-other id [] disk m = refl
quarantine_all-other id (x ∷ ids) disk m =
    let ih = quarantine_all-other id ids (quarantine_blob x disk) (ground arith) in
    ground (arith, contains-remove_blob id x disk.blobs (ground arith), ih)

delete_all-blobs :
    (ids : List ℕ) (disk : Disk) → (for_each delete_quarantined_blob ids disk).blobs ≡ disk.blobs
unfolding delete_quarantined_blob
delete_all-blobs [] disk = refl
delete_all-blobs (x ∷ ids) disk = delete_all-blobs ids (delete_quarantined_blob x disk)

contains-select :
    (p : ℕ → Bool) (id : ℕ) (xs : List ℕ) → p id ≡ false → contains id (select p xs) ≡ false
contains-select p id [] h = refl
contains-select p id (x ∷ xs) h =
    let ih = contains-select p id xs h in
    elim (Bool-cases (x == id)) [
      | inl same ↦
          let e : x ≡ id = (==_iff x id).0 same in let left : p x ≡ false = rw e h in rw left ih
      | inr other ↦ elim (Bool-cases (p x)) [
        | inl kept ↦ rw kept (rw other ih)
        | inr left ↦ rw left ih
      ]
    ]

-- The row of a referenced orphan is among those to restore.
contains-restored :
    (id : ℕ) (db : Authority) (os : List Orphan)
    → is_referenced id db ≡ true
    → any (λ (o : Orphan). o.object_id == id) os ≡ true
    → contains id (object_ids (select (is_restored db) os)) ≡ true
contains-restored id db [] r m = cc
contains-restored id db (o ∷ os) r m = elim (Bool-cases (o.object_id == id)) [
  | inl same ↦
      let e : o.object_id ≡ id = (==_iff o.object_id id).0 same in
      let kept : is_restored db o ≡ true = rw e r in rw kept (rw same refl)
  | inr other ↦
      let ih = contains-restored id db os r (ground arith) in
      elim (Bool-cases (is_restored db o)) [
        | inl kept ↦ rw kept (rw other ih)
        | inr left ↦ rw left ih
      ]
]

-- After the maintenance a referenced object has its blob in place, if the blob was there, or if it
-- was in quarantine and the orphan's row was kept.
pub run_maintenance-referenced :
    (now : ℕ) (disk : Disk) (db : Authority) (id : ℕ)
    → is_referenced id db ≡ true
    → (contains id disk.blobs ≡ true)
      ⊎ ((is_proved_orphan id db ≡ true) × (contains id disk.quarantine ≡ true))
    → contains id (run_maintenance now disk db).1.0.blobs ≡ true
unfolding run_maintenance
run_maintenance-referenced now disk db id r there =
    rw
      (delete_all-blobs (object_ids (select (is_deletable now db) db.orphans))
        (for_each quarantine_blob (select (is_new_orphan db) disk.blobs) restored))
      (rw
        (quarantine_all-other id (select (is_new_orphan db) disk.blobs) restored
          (contains-select (is_new_orphan db) id disk.blobs (ground arith)))
        (elim there [
          | inl placed ↦
              restore_all-kept id (object_ids (select (is_restored db) db.orphans)) disk placed
          | inr (proved, held) ↦
              restore_all-returned id (object_ids (select (is_restored db) db.orphans)) disk
                (contains-restored id db db.orphans r proved) held
        ]))
  where
    restored : Disk
    restored = for_each restore_blob (object_ids (select (is_restored db) db.orphans)) disk

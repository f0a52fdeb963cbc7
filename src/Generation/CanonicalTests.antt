-- ===== src/Generation/CanonicalTests.antt =====
-- Runs of the canonical generation store of packages/host/src/authority-generation.ts.
use pidex.Prelude.{
  ℕ, ◌≡◌, ◌≢◌, refl, Bool, true, false, ◌||◌, List, [], ◌∷◌, Option, none, some, arith, ◌==◌,
  length, All,
}
use pidex.Generation.Transition.{completed}
use pidex.Generation.Canonical.{
  Version, is_no_later, release_within, CanonicalEnvelope, envelope_fits, agrees, Directory,
  StoredObject, CanonicalHost, never_returns, cleanup_proof_stale, ok, bad, has_closure,
  validate_envelope, validate_directory, sealed_directories, validate_all, check_candidates, walk,
  select_checked, select_candidate, select_generation, find_predecessor,
}
use pidex.Generation.Walk.{is_kept_by}
use pidex.Generation.Lineage.{
  IsSelected, IsClosed, select_generation_sound, select_generation_returns,
  select_generation_never_returns,
}
use pidex.Generation.Legacy.{
  LegacyCleanupProof, CanonicalStore, finished, stopped, canonical, open_canonical,
  create_genesis_envelope, directory_of, publish_generation, open_bridge, validate_bridge,
  publish_blobs, MigrationInput, publish_migrated, migrate_legacy, create_cleanup_generation,
  check_evidence, deletable, deletion_ids, validate_legacy_deletion, delete_legacy,
}
use pidex.Generation.Deletion.{IsDeletion, delete_legacy-IsDeletion, delete_legacy_twice}
use pidex.Generation.Migration.{IsMigration, migrate_legacy-IsMigration}

abbrev release_one : Version
release_one = record { major = 1; minor = 0; patch = 0 }

-- The digest of some bytes is their number.
abbrev host : CanonicalHost
host = record { release = release_one; sha256 = length }

abbrev sealed_generation : ℕ → Option ℕ → ℕ → CanonicalEnvelope
sealed_generation id predecessor index = record {
  generation_id = id;
  predecessor_id = predecessor;
  activation_index = index;
  schema_version = 2;
  format_version = 1;
  release_min = release_one;
  release_max = release_one;
  objects = 2 ∷ [];
}

abbrev two_bytes : StoredObject
two_bytes = record { name = 2; bytes = 7 ∷ 8 ∷ [] }

abbrev legacy_store : CanonicalStore
legacy_store = record {
  directories = [];
  objects = [];
  legacy = some true;
  blobs = record { is_file = true; is_digest = true; name = 2; bytes = 7 ∷ 8 ∷ [] } ∷ [];
  frozen = false;
  proof = none;
  selector = none;
  release_floor = none;
}

abbrev first : CanonicalEnvelope
first = sealed_generation 11 none 1

abbrev second : CanonicalEnvelope
second = sealed_generation 12 (some 11) 2

abbrev migrated : CanonicalStore
migrated = record legacy_store {
  directories = directory_of first ∷ [];
  objects = two_bytes ∷ [];
  frozen = true;
  selector = some 11;
}

abbrev cleanup_ready : CanonicalStore
cleanup_ready = record migrated {
  directories = directory_of first ∷ directory_of second ∷ [];
  selector = some 12;
  release_floor = some release_one;
}

abbrev proof : LegacyCleanupProof
proof = record { nonce = 5; generation_ids = 11 ∷ 12 ∷ [] }

abbrev proven : CanonicalStore
proven = record cleanup_ready { proof = some proof }

abbrev deleted : CanonicalStore
deleted = record cleanup_ready {
  legacy = none;
  blobs = [];
  proof = some (record { nonce = 6; generation_ids = 11 ∷ 12 ∷ [] });
}

abbrev migration : MigrationInput
migration = record {
  bridge = some (record { is_bridge = true; authority_format = 1 });
  backup_returns = true;
  new_id = 11;
  ends = completed;
}

unfoldable running : Unit {0}
unfolding is_no_later release_within envelope_fits agrees has_closure validate_envelope
    validate_directory validate_all check_candidates walk select_checked select_candidate
    select_generation open_canonical create_genesis_envelope publish_generation open_bridge
    validate_bridge publish_blobs publish_migrated migrate_legacy create_cleanup_generation
    check_evidence deletable deletion_ids validate_legacy_deletion delete_legacy
running = tt

migrates : migrate_legacy 10 host migration legacy_store ≡ finished migrated (canonical 11)
unfolding running
migrates = refl

advances : create_cleanup_generation 10 host 12 completed migrated ≡ finished cleanup_ready 12
unfolding running
advances = refl

proves : validate_legacy_deletion 10 host 5 cleanup_ready ≡ finished proven proof
unfolding running
proves = refl

deletes : delete_legacy 10 host 6 proof proven ≡ finished deleted tt
unfolding running
deletes = refl

migrate_legacy-IsMigration_example :
    IsMigration 10 host legacy_store (migrate_legacy 10 host migration legacy_store)
migrate_legacy-IsMigration_example = migrate_legacy-IsMigration 10 host legacy_store migration

delete_legacy-IsDeletion_example :
    IsDeletion 10 host 6 proof proven (delete_legacy 10 host 6 proof proven)
delete_legacy-IsDeletion_example = delete_legacy-IsDeletion 10 host 6 proof proven

delete_legacy_twice_example :
    delete_legacy 10 host 7 proof deleted ≡ stopped deleted cleanup_proof_stale
delete_legacy_twice_example =
    delete_legacy_twice 10 10 host 6 7 proof proven deleted (λ e. absurd (omega arith)) deletes

selects_second : select_generation 10 host (two_bytes ∷ []) cleanup_ready.directories ≡ ok second
unfolding running
selects_second = refl

select_generation_sound_example :
    (vs : List CanonicalEnvelope) × (validate_all host
        (two_bytes ∷ [])
        (sealed_directories cleanup_ready.directories)
      ≡ ok vs)
    × All (IsClosed host (two_bytes ∷ [])) vs
    × IsSelected 10 host vs second
select_generation_sound_example =
    select_generation_sound 10 host (two_bytes ∷ []) cleanup_ready.directories second selects_second

select_generation_returns_example :
    select_generation 3 host (two_bytes ∷ []) cleanup_ready.directories ≢ bad never_returns
unfolding running
select_generation_returns_example =
    select_generation_returns 3 host (two_bytes ∷ []) cleanup_ready.directories
      (first ∷ second ∷ []) refl (refl, (refl, tt)) (omega arith)

-- The second generation names the third, and the third the second.
abbrev cycle : List CanonicalEnvelope
cycle = first ∷ sealed_generation 12 (some 13) 2 ∷ sealed_generation 13 (some 12) 3 ∷ []

abbrev cycle_directories : List Directory
cycle_directories =
    directory_of first
    ∷ directory_of (sealed_generation 12 (some 13) 2)
    ∷ directory_of (sealed_generation 13 (some 12) 3)
    ∷ []

abbrev on_cycle : Option ℕ → Bool
on_cycle none = false
on_cycle (some id) = (id == 12) || (id == 13)

-- A candidate whose predecessor is one of the two.
abbrev is_on_cycle : CanonicalEnvelope → Bool
is_on_cycle v = on_cycle v.predecessor_id

on_cycle-found :
    (o : Option ℕ) → on_cycle o ≡ true → is_kept_by is_on_cycle (find_predecessor cycle o) ≡ true
on_cycle-found none h = cc
on_cycle-found (some id) h = ground arith

select_generation_never_returns_example :
    select_generation 1000 host (two_bytes ∷ []) cycle_directories ≡ bad never_returns
unfolding running
select_generation_never_returns_example =
    select_generation_never_returns 1000 host (two_bytes ∷ []) cycle_directories first
      (sealed_generation 12 (some 13) 2 ∷ sealed_generation 13 (some 12) 3 ∷ []) is_on_cycle refl
      refl refl refl (λ (x : CanonicalEnvelope). on_cycle-found x.predecessor_id) refl

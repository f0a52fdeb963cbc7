-- ===== src/Generation/Legacy.antt =====
-- The operations of `AuthorityGenerationStore` in packages/host/src/authority-generation.ts that open,
-- migrate and clean up: the legacy authority is the database and the blobs beside the generations.
use pidex.Prelude.{
  ℕ, Bool, true, false, not, ◌&&◌, ◌||◌, List, [], ◌∷◌, ◌++◌, Option, none, some, map, ◌==◌, leb,
  if◌then◌else◌, length, any, is_some, order_by, Text,
}
use pidex.Generation.Transition.{TransitionEnd, refused, published_then_threw, completed}
use pidex.Generation.Canonical.{
  Version, CanonicalEnvelope, generation_format_version, authority_schema_version, Metadata, named,
  stage_for, Directory, StoredObject, CanonicalHost, CanonicalFailure, invalid_generation,
  absent_closure, bridge_not_retained, bridge_incompatible, backup_failed, publication_failed,
  legacy_frozen, cleanup_generation_missing, cleanup_proof_missing, cleanup_proof_stale,
  generation_held, failed_evidence_protected, Checked, ok, bad, find_object, validate_directory,
  sealed_directories, validate_all, and_then, select_generation,
}

-- An entry of `blobs`; a name that is no digest has the number of none.
pub record BlobEntry : Type 0 where
  pub is_file : Bool
  pub is_digest : Bool
  pub name : ℕ
  pub bytes : Text

pub record LegacyCleanupProof : Type 0 where
  pub nonce : ℕ
  pub generation_ids : List ℕ

-- `legacy` is the result of the integrity check, where the database is there; its sidecar files go with
-- it. No blobs are a directory that is empty or missing.
pub record CanonicalStore : Type 0 where
  pub directories : List Directory
  pub objects : List StoredObject
  pub legacy : Option Bool
  pub blobs : List BlobEntry
  pub frozen : Bool
  pub proof : Option LegacyCleanupProof
  pub selector : Option ℕ
  pub release_floor : Option Version

pub data CanonicalRun {ℓ} (A : Type ℓ) : Type ℓ where
  finished : CanonicalStore → A → CanonicalRun A
  stopped : CanonicalStore → CanonicalFailure → CanonicalRun A

abbrev pub run_on {ℓ κ} :
    {A : Type ℓ} {B : Type κ}
    → CanonicalRun A
    → (CanonicalStore → A → CanonicalRun B)
    → CanonicalRun B
run_on (finished s a) f = f s a
run_on (stopped s e) f = stopped s e

pub data Opened : Type 0 where
  canonical : ℕ → Opened
  legacy_authority : Opened

-- `#openCanonical`, by what `#select` gives
abbrev pub open_selected : CanonicalStore → Checked CanonicalEnvelope → CanonicalRun Opened
open_selected s (bad e) = stopped s e
open_selected s (ok v) =
    finished (record s { selector = some v.generation_id }) (canonical v.generation_id)

unfoldable pub open_canonical : ℕ → CanonicalHost → CanonicalStore → CanonicalRun Opened
open_canonical fuel h s = open_selected s (select_generation fuel h s.objects s.directories)

abbrev pub has_none {ℓ} : {A : Type ℓ} → List A → Bool
has_none [] = true
has_none (x ∷ xs) = false

abbrev pub is_unsealed : CanonicalStore → Bool
is_unsealed s = has_none (sealed_directories s.directories)

unfoldable pub create_genesis_envelope : CanonicalHost → ℕ → List ℕ → CanonicalEnvelope
create_genesis_envelope h id objects = record {
  generation_id = id;
  predecessor_id = none;
  activation_index = 1;
  schema_version = authority_schema_version;
  format_version = generation_format_version;
  release_min = h.release;
  release_max = h.release;
  objects = objects;
}

-- `initializeGeneration` of the store
abbrev pub metadata_of : CanonicalEnvelope → Metadata
metadata_of v = record {
  generation_id = v.generation_id;
  predecessor_id = v.predecessor_id;
  activation_index = v.activation_index;
  schema_version = v.schema_version;
  format_version = v.format_version;
  release_min = v.release_min;
  release_max = v.release_max;
}

abbrev pub directory_of : CanonicalEnvelope → Directory
directory_of v = record {
  name = named v.generation_id;
  has_seal = true;
  envelope = some v;
  metadata = some (metadata_of v);
  has_hold = false;
  has_failed = false;
  has_warning = false;
}

abbrev pub stage_of : CanonicalEnvelope → Directory
stage_of v = record (directory_of v) { name = stage_for v.generation_id }

abbrev pub add_directory : CanonicalEnvelope → CanonicalStore → CanonicalStore
add_directory v s = record s { directories = s.directories ++ directory_of v ∷ [] }

abbrev pub publish_valid :
    TransitionEnd
    → CanonicalEnvelope
    → CanonicalStore
    → Checked CanonicalEnvelope
    → CanonicalRun (Unit {0})
publish_valid ends v s (bad e) = stopped s e
publish_valid refused v s (ok u) = stopped s publication_failed
publish_valid published_then_threw v s (ok u) = stopped (add_directory v s) publication_failed
publish_valid completed v s (ok u) = finished (add_directory v s) tt

-- `#publishGenerationCopy`; `ends` is how the publication ends if the stage is valid.
unfoldable pub publish_generation :
    CanonicalHost → TransitionEnd → CanonicalEnvelope → CanonicalStore → CanonicalRun (Unit {0})
publish_generation h ends v s = publish_valid ends v s (validate_directory h s.objects (stage_of v))

-- `open`: the first generation is made where there is none.
unfoldable pub open_ : ℕ → CanonicalHost → ℕ → TransitionEnd → CanonicalStore → CanonicalRun Opened
open_ fuel h id ends s =
    if is_unsealed s
    then run_on (publish_generation h ends (create_genesis_envelope h id []) s)
        (λ s' _. open_canonical fuel h s')
    else open_canonical fuel h s

-- The legacy store makes its database where there is none.
unfoldable pub open_bridge : ℕ → CanonicalHost → CanonicalStore → CanonicalRun Opened
open_bridge fuel h s =
    if is_unsealed s
    then if s.frozen
      then stopped s legacy_frozen
      else finished (record s { legacy = if is_some s.legacy then s.legacy else some true })
          legacy_authority
    else open_canonical fuel h s

-- What release.json of the bridge says, where it is there.
pub record BridgeManifest : Type 0 where
  pub is_bridge : Bool
  pub authority_format : ℕ

unfoldable pub validate_bridge : Option BridgeManifest → Checked (Unit {0})
validate_bridge none = bad bridge_not_retained
validate_bridge (some m) =
    if m.is_bridge && (m.authority_format == generation_format_version)
    then ok tt
    else bad bridge_incompatible

abbrev pub is_sound_blob : CanonicalHost → BlobEntry → Bool
is_sound_blob h b = (b.is_file && b.is_digest) && (h.sha256 b.bytes == b.name)

-- A file that is there already is not copied.
abbrev pub copy_object : BlobEntry → List StoredObject → List StoredObject
copy_object b objects =
    if is_some (find_object b.name objects)
    then objects
    else objects ++ record { name = b.name; bytes = b.bytes } ∷ []

abbrev pub add_object : BlobEntry → CanonicalStore → CanonicalStore
add_object b s = record s { objects = copy_object b s.objects }

abbrev pub with_name : ℕ → CanonicalRun (List ℕ) → CanonicalRun (List ℕ)
with_name n (finished s ns) = finished s (n ∷ ns)
with_name n (stopped s e) = stopped s e

-- The names, before they are sorted.
unfoldable pub publish_blobs :
    CanonicalHost → List BlobEntry → CanonicalStore → CanonicalRun (List ℕ)
publish_blobs h [] s = finished s []
publish_blobs h (b ∷ bs) s =
    let rest = with_name b.name (publish_blobs h bs (add_object b s)) in
    if is_sound_blob h b then rest else stopped s absent_closure

abbrev pub sorted : List ℕ → List ℕ
sorted ns = order_by leb ns

-- What else the migration meets: the bridge, and how the backup and the publication end.
pub record MigrationInput : Type 0 where
  pub bridge : Option BridgeManifest
  pub backup_returns : Bool
  pub new_id : ℕ
  pub ends : TransitionEnd

unfoldable pub publish_migrated :
    ℕ → CanonicalHost → MigrationInput → CanonicalStore → CanonicalRun Opened
publish_migrated fuel h m s = run_on (publish_blobs h s.blobs s) (λ s1 names.
    run_on (publish_generation h m.ends (create_genesis_envelope h m.new_id (sorted names)) s1)
      (λ s2 _. open_canonical fuel h s2))

abbrev pub migrate_database :
    ℕ → CanonicalHost → MigrationInput → CanonicalStore → Option Bool → CanonicalRun Opened
migrate_database fuel h m s none = stopped s invalid_generation
migrate_database fuel h m s (some false) = stopped s invalid_generation
migrate_database fuel h m s (some true) =
    let frozen = record s { frozen = true } in
    if m.backup_returns then publish_migrated fuel h m frozen else stopped frozen backup_failed

abbrev pub migrate_checked :
    ℕ → CanonicalHost → MigrationInput → CanonicalStore → Checked (Unit {0}) → CanonicalRun Opened
migrate_checked fuel h m s (bad e) = stopped s e
migrate_checked fuel h m s (ok u) = migrate_database fuel h m s s.legacy

-- `migrateLegacy`; what it opens is closed again.
unfoldable pub migrate_legacy :
    ℕ → CanonicalHost → MigrationInput → CanonicalStore → CanonicalRun Opened
migrate_legacy fuel h m s =
    if not (is_unsealed s)
    then open_canonical fuel h s
    else migrate_checked fuel h m s (validate_bridge m.bridge)

abbrev pub cleanup_activation_index : ℕ
cleanup_activation_index = 2

abbrev pub cleanup_envelope : CanonicalHost → ℕ → CanonicalEnvelope → CanonicalEnvelope
cleanup_envelope h id v = record v {
  generation_id = id;
  predecessor_id = some v.generation_id;
  activation_index = cleanup_activation_index;
  release_min = h.release;
  release_max = h.release;
}

abbrev pub cleanup_behind :
    ℕ
    → CanonicalHost
    → ℕ
    → TransitionEnd
    → CanonicalStore
    → Checked CanonicalEnvelope
    → CanonicalRun ℕ
cleanup_behind fuel h id ends s (bad e) = stopped s e
cleanup_behind fuel h id ends s (ok v) =
    if leb cleanup_activation_index v.activation_index
    then finished s v.generation_id
    else run_on (publish_generation h ends (cleanup_envelope h id v) s) (λ s1 _.
      run_on (open_canonical fuel h (record s1 { release_floor = some h.release }))
        (λ s2 _. finished s2 id))

unfoldable pub create_cleanup_generation :
    ℕ → CanonicalHost → ℕ → TransitionEnd → CanonicalStore → CanonicalRun ℕ
create_cleanup_generation fuel h id ends s =
    cleanup_behind fuel h id ends s (select_generation fuel h s.objects s.directories)

unfoldable pub check_evidence : List Directory → Checked (Unit {0})
check_evidence [] = ok tt
check_evidence (d ∷ ds) =
    let rest = check_evidence ds in
    if d.has_hold
    then bad generation_held
    else if d.has_failed || d.has_warning
    then bad failed_evidence_protected
    else rest

abbrev pub is_cleanup_lineage : List CanonicalEnvelope → CanonicalEnvelope → Bool
is_cleanup_lineage vs v =
    (length vs == 2)
    && ((v.activation_index == cleanup_activation_index)
        && any (λ (x : CanonicalEnvelope). x.activation_index == 1) vs)

abbrev pub ids_of_all : List CanonicalEnvelope → List ℕ
ids_of_all vs = sorted (map (λ (x : CanonicalEnvelope). x.generation_id) vs)

-- The checks of `validateLegacyDeletion`, and the identities that it proves.
unfoldable pub deletable :
    List Directory → List CanonicalEnvelope → CanonicalEnvelope → Checked (List ℕ)
deletable ds vs v =
    if not (is_cleanup_lineage vs v)
    then bad cleanup_generation_missing
    else elim (check_evidence (sealed_directories ds)) [ bad e ↦ bad e | ok u ↦ ok (ids_of_all vs) ]

unfoldable pub deletion_ids : ℕ → CanonicalHost → CanonicalStore → Checked (List ℕ)
deletion_ids fuel h s = and_then (select_generation fuel h s.objects s.directories) (λ v.
    and_then (validate_all h s.objects (sealed_directories s.directories))
      (λ vs. deletable s.directories vs v))

abbrev pub write_proof : ℕ → CanonicalStore → Checked (List ℕ) → CanonicalRun LegacyCleanupProof
write_proof nonce s (bad e) = stopped s e
write_proof nonce s (ok ids) =
    let proof : LegacyCleanupProof = record { nonce = nonce; generation_ids = ids } in
    finished (record s { proof = some proof }) proof

unfoldable pub validate_legacy_deletion :
    ℕ → CanonicalHost → ℕ → CanonicalStore → CanonicalRun LegacyCleanupProof
validate_legacy_deletion fuel h nonce s = write_proof nonce s (deletion_ids fuel h s)

abbrev pub same_ids : List ℕ → List ℕ → Bool
same_ids [] [] = true
same_ids [] (m ∷ ms) = false
same_ids (n ∷ ns) [] = false
same_ids (n ∷ ns) (m ∷ ms) = (n == m) && same_ids ns ms

-- The equality of two serialized proofs.
abbrev pub same_proof : LegacyCleanupProof → LegacyCleanupProof → Bool
same_proof p q = (p.nonce == q.nonce) && same_ids p.generation_ids q.generation_ids

abbrev pub remove_legacy : CanonicalStore → CanonicalStore
remove_legacy s = record s { legacy = none; blobs = [] }

abbrev pub delete_proven :
    ℕ
    → CanonicalHost
    → ℕ
    → LegacyCleanupProof
    → CanonicalStore
    → Option LegacyCleanupProof
    → CanonicalRun (Unit {0})
delete_proven fuel h nonce proof s none = stopped s cleanup_proof_missing
delete_proven fuel h nonce proof s (some durable) =
    if not (same_proof durable proof)
    then stopped s cleanup_proof_stale
    else run_on (validate_legacy_deletion fuel h nonce s) (λ s' current.
      if not (same_ids current.generation_ids proof.generation_ids)
      then stopped s' cleanup_proof_stale
      else finished (remove_legacy s') tt)

-- `deleteLegacy`; the nonce is that of the proof which it writes again.
unfoldable pub delete_legacy :
    ℕ → CanonicalHost → ℕ → LegacyCleanupProof → CanonicalStore → CanonicalRun (Unit {0})
delete_legacy fuel h nonce proof s = delete_proven fuel h nonce proof s s.proof

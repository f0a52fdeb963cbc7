-- ===== src/Generation/Canonical.antt =====
-- The canonical selection of `AuthorityGenerationStore` in packages/host/src/authority-generation.ts:
-- `#validateDirectory` and `#select`. Identities and digests stand as numbers.
use pidex.Prelude.{
  ℕ, zero, suc, Bool, true, false, not, ◌&&◌, List, [], ◌∷◌, Option, none, some, reverse, ◌==◌, ltb,
  leb, if◌then◌else◌, same?, length, any, all, select, find?, count, Text,
}

-- The three numbers of a release.
pub record Version : Type 0 where
  pub major : ℕ
  pub minor : ℕ
  pub patch : ℕ

-- `compareReleases(left, right) <= 0`
unfoldable pub is_no_later : Version → Version → Bool
is_no_later left right =
    if not (left.major == right.major)
    then ltb left.major right.major
    else if not (left.minor == right.minor)
    then ltb left.minor right.minor
    else leb left.patch right.patch

unfoldable pub release_within : Version → Version → Version → Bool
unfolding is_no_later
release_within release minimum maximum = is_no_later minimum release && is_no_later release maximum

pub record CanonicalEnvelope : Type 0 where
  pub generation_id : ℕ
  pub predecessor_id : Option ℕ
  pub activation_index : ℕ
  pub schema_version : ℕ
  pub format_version : ℕ
  pub release_min : Version
  pub release_max : Version
  pub objects : List ℕ

abbrev pub generation_format_version : ℕ
generation_format_version = 1

abbrev pub authority_schema_version : ℕ
authority_schema_version = 2

-- `envelopeSchema`, of what is no pattern of a text.
unfoldable pub envelope_fits : CanonicalEnvelope → Bool
envelope_fits v =
    ltb 0 v.activation_index
    && ((v.schema_version == authority_schema_version)
        && (v.format_version == generation_format_version))

-- The row of `authority_generation`.
pub record Metadata : Type 0 where
  pub generation_id : ℕ
  pub predecessor_id : Option ℕ
  pub activation_index : ℕ
  pub schema_version : ℕ
  pub format_version : ℕ
  pub release_min : Version
  pub release_max : Version

abbrev pub same_version : Version → Version → Bool
same_version a b = (a.major == b.major) && ((a.minor == b.minor) && (a.patch == b.patch))

unfoldable pub agrees : CanonicalEnvelope → Metadata → Bool
agrees v row =
    (v.generation_id == row.generation_id)
    && (same? v.predecessor_id row.predecessor_id
        && ((v.activation_index == row.activation_index)
            && ((v.schema_version == row.schema_version)
                && ((v.format_version == row.format_version)
                    && (same_version v.release_min row.release_min
                        && same_version v.release_max row.release_max)))))

-- The name of a generation, the name of a stage for it, or another name.
pub data DirectoryName : Type 0 where
  named stage_for : ℕ → DirectoryName
  other_name : DirectoryName

-- No envelope is one that cannot be read or does not fit its schema's types.
pub record Directory : Type 0 where
  pub name : DirectoryName
  pub has_seal : Bool
  pub envelope : Option CanonicalEnvelope
  pub metadata : Option Metadata
  pub has_hold : Bool
  pub has_failed : Bool
  pub has_warning : Bool

pub record StoredObject : Type 0 where
  pub name : ℕ
  pub bytes : Text

-- The release that runs, and the digest of `node:crypto`.
pub record CanonicalHost : Type 0 where
  pub release : Version
  pub sha256 : Text → ℕ

pub data CanonicalFailure : Type 0 where
  no_valid_generation invalid_generation incompatible_generation : CanonicalFailure
  ambiguous_activation_index forked_lineage broken_lineage absent_closure : CanonicalFailure
  never_returns bridge_not_retained bridge_incompatible backup_failed publication_failed :
      CanonicalFailure
  legacy_frozen cleanup_generation_missing cleanup_proof_missing cleanup_proof_stale :
      CanonicalFailure
  generation_held failed_evidence_protected : CanonicalFailure

pub data Checked {ℓ} (A : Type ℓ) : Type ℓ where
  ok : A → Checked A
  bad : CanonicalFailure → Checked A

abbrev pub is_identity : DirectoryName → ℕ → Bool
is_identity (named n) id = n == id
is_identity (stage_for n) id = n == id
is_identity other_name id = false

abbrev pub find_object : ℕ → List StoredObject → Option StoredObject
find_object digest objects = find? (λ (o : StoredObject). o.name == digest) objects

abbrev pub digest_is : CanonicalHost → ℕ → Option StoredObject → Bool
digest_is h digest none = false
digest_is h digest (some o) = h.sha256 o.bytes == digest

unfoldable pub has_closure : CanonicalHost → List StoredObject → List ℕ → Bool
has_closure h objects digests = all (λ d. digest_is h d (find_object d objects)) digests

abbrev pub metadata_agrees : CanonicalEnvelope → Option Metadata → Bool
metadata_agrees v none = false
metadata_agrees v (some row) = agrees v row

unfoldable pub validate_envelope :
    CanonicalHost → List StoredObject → Directory → CanonicalEnvelope → Checked CanonicalEnvelope
validate_envelope h objects d v =
    if not (envelope_fits v && is_identity d.name v.generation_id)
    then bad invalid_generation
    else if not (has_closure h objects v.objects)
    then bad absent_closure
    else if not (metadata_agrees v d.metadata)
    then bad invalid_generation
    else ok v

abbrev pub validate_read :
    CanonicalHost
    → List StoredObject
    → Directory
    → Option CanonicalEnvelope
    → Checked CanonicalEnvelope
validate_read h objects d none = bad invalid_generation
validate_read h objects d (some v) = validate_envelope h objects d v

unfoldable pub validate_directory :
    CanonicalHost → List StoredObject → Directory → Checked CanonicalEnvelope
validate_directory h objects d = validate_read h objects d d.envelope

abbrev pub with_first :
    Checked CanonicalEnvelope → Checked (List CanonicalEnvelope) → Checked (List CanonicalEnvelope)
with_first (bad e) rest = bad e
with_first (ok v) (bad e) = bad e
with_first (ok v) (ok vs) = ok (v ∷ vs)

abbrev pub sealed_directories : List Directory → List Directory
sealed_directories ds = select (λ (d : Directory). d.has_seal) ds

-- `map`, up to the first that throws
unfoldable pub validate_all :
    CanonicalHost → List StoredObject → List Directory → Checked (List CanonicalEnvelope)
validate_all h objects [] = ok []
validate_all h objects (d ∷ ds) =
    with_first (validate_directory h objects d) (validate_all h objects ds)

-- A map keeps the last of a key.
abbrev pub find_candidate : ℕ → List CanonicalEnvelope → Option CanonicalEnvelope
find_candidate id vs = find? (λ (v : CanonicalEnvelope). v.generation_id == id) (reverse vs)

abbrev pub is_known : List CanonicalEnvelope → Option ℕ → Bool
is_known vs none = true
is_known vs (some id) = any (λ (v : CanonicalEnvelope). v.generation_id == id) vs

-- The loop over the candidates, of which `seen` stand before.
unfoldable pub check_candidates :
    CanonicalHost → List CanonicalEnvelope → List ℕ → List CanonicalEnvelope → Checked (Unit {0})
check_candidates h all_ seen [] = ok tt
check_candidates h all_ seen (v ∷ vs) =
    let rest = check_candidates h all_ (v.activation_index ∷ seen) vs in
    if any (λ n. n == v.activation_index) seen
    then bad ambiguous_activation_index
    else if not (release_within h.release v.release_min v.release_max)
    then bad incompatible_generation
    else if not (is_known all_ v.predecessor_id)
    then bad broken_lineage
    else rest

abbrev pub is_child_of : ℕ → CanonicalEnvelope → Bool
is_child_of id v = same? v.predecessor_id (some id)

abbrev pub is_forked : List CanonicalEnvelope → CanonicalEnvelope → Bool
is_forked vs v = ltb 1 (count (is_child_of v.generation_id) vs)

abbrev pub is_root : CanonicalEnvelope → Bool
is_root v = same? v.predecessor_id none

abbrev pub higher : CanonicalEnvelope → CanonicalEnvelope → CanonicalEnvelope
higher selected v = if ltb selected.activation_index v.activation_index then v else selected

abbrev pub highest_from : CanonicalEnvelope → List CanonicalEnvelope → CanonicalEnvelope
highest_from selected [] = selected
highest_from selected (v ∷ vs) = highest_from (higher selected v) vs

abbrev pub find_predecessor : List CanonicalEnvelope → Option ℕ → Option CanonicalEnvelope
find_predecessor vs none = none
find_predecessor vs (some id) = find_candidate id vs

abbrev pub one_more : Option ℕ → Option ℕ
one_more none = none
one_more (some n) = some (suc n)

-- The walk to the root, counting what it visits; on fuel, since the code's loop has no bound.
unfoldable pub walk : ℕ → List CanonicalEnvelope → Option CanonicalEnvelope → Option ℕ
walk fuel vs none = some 0
walk zero vs (some v) = none
walk (suc fuel) vs (some v) = one_more (walk fuel vs (find_predecessor vs v.predecessor_id))

abbrev pub conclude : CanonicalEnvelope → ℕ → Option ℕ → Checked CanonicalEnvelope
conclude selected candidates none = bad never_returns
conclude selected candidates (some visited) =
    if visited == candidates then ok selected else bad broken_lineage

unfoldable pub select_checked :
    ℕ → List CanonicalEnvelope → CanonicalEnvelope → Checked CanonicalEnvelope
select_checked fuel vs selected =
    if any (is_forked vs) vs
    then bad forked_lineage
    else if not (count is_root vs == 1)
    then bad broken_lineage
    else conclude selected (length vs) (walk fuel vs (some selected))

abbrev pub and_then {ℓ κ} : {A : Type ℓ} {B : Type κ} → Checked A → (A → Checked B) → Checked B
and_then (bad e) f = bad e
and_then (ok a) f = f a

unfoldable pub select_candidate :
    ℕ → CanonicalHost → List CanonicalEnvelope → Checked CanonicalEnvelope
select_candidate fuel h [] = bad no_valid_generation
select_candidate fuel h (v ∷ vs) =
    and_then (check_candidates h (v ∷ vs) [] (v ∷ vs))
      (λ _. select_checked fuel (v ∷ vs) (highest_from v vs))

-- `#select`
unfoldable pub select_generation :
    ℕ → CanonicalHost → List StoredObject → List Directory → Checked CanonicalEnvelope
select_generation fuel h objects ds =
    and_then (validate_all h objects (sealed_directories ds)) (select_candidate fuel h)

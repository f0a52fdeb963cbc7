-- ===== src/Generation/Scan.antt =====
-- `AuthorityGenerationStore` of packages/host/src/authority-generations.ts: its directories as a state, the
-- scan that it makes at startup, and `activate`.
use pidex.Prelude.{
  ℕ, ◌+◌, Bool, true, false, not, ◌&&◌, List, [], ◌∷◌, ◌++◌, Option, none, some, ◌==◌, ltb,
  if◌then◌else◌, same?, any, all, select, find?, max_of,
}
use pidex.Generation.Envelope.{Spelling, is_safe, GenerationEnvelope, is_envelope}

-- A directory of `generations`; no envelope where the file is missing, is no JSON, or is of another shape.
pub record GenerationDirectory : Type 0 where
  pub name : ℕ
  pub envelope : Option GenerationEnvelope

-- The identity of a warning is the failed generation's name behind a prefix.
pub record RecoveryWarning : Type 0 where
  pub failed_generation : ℕ
  pub replacement_generation : ℕ

pub record ValidationScan : Type 0 where
  pub scanned : ℕ
  pub at_scan : ℕ

-- The directories in the order in which they are read, and the selector.
pub record GenerationStore : Type 0 where
  pub generations : List GenerationDirectory
  pub objects : List ℕ
  pub warnings : List RecoveryWarning
  pub holds : List ℕ
  pub protected_ : List ℕ
  pub selector : Option ℕ
  pub validation_scans : List ValidationScan
  pub scan_number : ℕ

pub data GenerationFailure : Type 0 where
  ambiguous_metadata broken_lineage no_valid_generation unsafe_fallback : GenerationFailure
  source_not_selected invalid_transition_envelope transition_threw not_selected : GenerationFailure
  cleanup_requires_validation ambiguous_evidence invalid_selector : GenerationFailure
  selected_missing retained_missing unsafe_identity : GenerationFailure

-- The state is kept where something throws after a change.
pub data Answer {ℓ} (A : Type ℓ) : Type ℓ where
  done : GenerationStore → A → Answer A
  failed : GenerationStore → GenerationFailure → Answer A

pub record GenerationResolution : Type 0 where
  pub selected : GenerationEnvelope
  pub warning : Option RecoveryWarning

pub record GenerationCandidates : Type 0 where
  pub envelopes : List GenerationEnvelope
  pub ambiguous : Bool

abbrev pub member : ℕ → List ℕ → Bool
member n ns = any (λ m. m == n) ns

abbrev pub finds_id : ℕ → List GenerationEnvelope → Bool
finds_id n vs = any (λ (v : GenerationEnvelope). v.generation_id == n) vs

abbrev pub has_index : ℕ → List GenerationEnvelope → Bool
has_index n vs = any (λ (v : GenerationEnvelope). v.activation_index == n) vs

-- `ids` and `indexes` are those of the envelopes found so far.
unfoldable pub is_acceptable : Spelling → List GenerationEnvelope → ℕ → GenerationEnvelope → Bool
is_acceptable w found name v =
    is_envelope w v
    && ((v.generation_id == name)
        && (not (finds_id name found) && not (has_index v.activation_index found)))

unfoldable pub take_envelope :
    Spelling → GenerationCandidates → ℕ → Option GenerationEnvelope → GenerationCandidates
take_envelope w c name none = record c { ambiguous = true }
take_envelope w c name (some v) =
    if is_acceptable w c.envelopes name v
    then record c { envelopes = c.envelopes ++ v ∷ [] }
    else record c { ambiguous = true }

abbrev pub take_entries :
    Spelling → GenerationCandidates → List GenerationDirectory → GenerationCandidates
take_entries w c [] = c
take_entries w c (e ∷ es) = take_entries w (take_envelope w c e.name e.envelope) es

abbrev pub no_candidates : GenerationCandidates
no_candidates = record { envelopes = []; ambiguous = false }

unfoldable pub enumerate : Spelling → List GenerationDirectory → GenerationCandidates
enumerate w es = take_entries w no_candidates es

unfoldable pub is_valid : Spelling → List ℕ → GenerationEnvelope → Bool
is_valid w objects v = all (λ o. is_safe w o && member o objects) v.objects

abbrev pub find_id : ℕ → List GenerationEnvelope → Option GenerationEnvelope
find_id n vs = find? (λ (v : GenerationEnvelope). v.generation_id == n) vs

abbrev pub precedes : Option GenerationEnvelope → ℕ → Bool
precedes none index = false
precedes (some p) index = ltb p.activation_index index

abbrev pub has_predecessor : List GenerationEnvelope → Option ℕ → ℕ → Bool
has_predecessor vs none index = true
has_predecessor vs (some p) index = precedes (find_id p vs) index

abbrev pub has_lineage : List GenerationEnvelope → GenerationEnvelope → Bool
has_lineage vs v = has_predecessor vs v.predecessor v.activation_index

unfoldable pub is_coherent : List GenerationEnvelope → Bool
is_coherent vs = all (has_lineage vs) vs

abbrev pub newer : GenerationEnvelope → GenerationEnvelope → GenerationEnvelope
newer current candidate =
    if ltb candidate.activation_index current.activation_index then current else candidate

abbrev pub newest_from : GenerationEnvelope → List GenerationEnvelope → GenerationEnvelope
newest_from current [] = current
newest_from current (v ∷ vs) = newest_from (newer current v) vs

-- `reduce` throws on an empty list, which its caller excludes.
unfoldable pub newest_generation : List GenerationEnvelope → Option GenerationEnvelope
newest_generation [] = none
newest_generation (v ∷ vs) = some (newest_from v vs)

abbrev pub index_of : GenerationEnvelope → ℕ
index_of v = v.activation_index

unfoldable pub highest_index : List GenerationEnvelope → ℕ
highest_index vs = max_of index_of vs

-- What `randomUUID` answers, in its order.
pub record Fresh : Type 0 where
  pub id : ℕ
  pub continuity : ℕ

abbrev pub entry_of : GenerationEnvelope → GenerationDirectory
entry_of v = record { name = v.generation_id; envelope = some v }

abbrev pub fallback_of : Fresh → GenerationEnvelope → ℕ → GenerationEnvelope
fallback_of fresh source index = record source {
  generation_id = fresh.id;
  activation_index = index;
  predecessor = some source.generation_id;
  continuity = fresh.continuity;
}

abbrev pub warning_of : GenerationEnvelope → GenerationEnvelope → RecoveryWarning
warning_of failed_ replacement = record {
  failed_generation = failed_.generation_id;
  replacement_generation = replacement.generation_id;
}

-- A file of the same name is overwritten.
abbrev pub write_warning : RecoveryWarning → List RecoveryWarning → List RecoveryWarning
write_warning w ws =
    select (λ (x : RecoveryWarning). not (x.failed_generation == w.failed_generation)) ws ++ w ∷ []

unfoldable pub copy_for_fallback :
    Fresh → GenerationEnvelope → GenerationEnvelope → ℕ → GenerationStore → GenerationStore
copy_for_fallback fresh source failed_ index s =
    let replacement = fallback_of fresh source index in
    record s {
      generations = s.generations ++ entry_of replacement ∷ [];
      warnings = write_warning (warning_of failed_ replacement) s.warnings;
    }

abbrev pub is_scanned : ℕ → List ValidationScan → Bool
is_scanned n scans = any (λ (x : ValidationScan). x.scanned == n) scans

abbrev pub note_scan : ℕ → GenerationEnvelope → List ValidationScan → List ValidationScan
note_scan number v scans =
    if is_scanned v.generation_id scans
    then scans
    else scans ++ record { scanned = v.generation_id; at_scan = number } ∷ []

abbrev pub note_scans : ℕ → List GenerationEnvelope → List ValidationScan → List ValidationScan
note_scans number [] scans = scans
note_scans number (v ∷ vs) scans = note_scans number vs (note_scan number v scans)

-- What a successful scan records.
unfoldable pub record_scan :
    List GenerationEnvelope → GenerationEnvelope → GenerationStore → GenerationStore
record_scan valid selected s = record s {
  scan_number = s.scan_number + 1;
  validation_scans =
      note_scan (s.scan_number + 1) selected
        (note_scans (s.scan_number + 1) valid s.validation_scans);
  selector = some selected.generation_id;
}

abbrev pub names_predecessor : GenerationEnvelope → GenerationEnvelope → Bool
names_predecessor failed_ selected = same? failed_.predecessor (some selected.generation_id)

abbrev pub replace_failed :
    Fresh
    → GenerationStore
    → List GenerationEnvelope
    → GenerationEnvelope
    → GenerationEnvelope
    → ℕ
    → Answer GenerationResolution
replace_failed fresh s valid selected failed_ index =
    let replacement = fallback_of fresh selected index in
    done (record_scan valid replacement (copy_for_fallback fresh selected failed_ index s))
      (record { selected = replacement; warning = some (warning_of failed_ replacement) })

-- The generation of the highest index is not valid.
unfoldable pub fall_back :
    Fresh
    → GenerationStore
    → List GenerationEnvelope
    → List GenerationEnvelope
    → GenerationEnvelope
    → Answer GenerationResolution
fall_back fresh s found valid selected =
    let highest = highest_index found in
    elim (find? (λ (v : GenerationEnvelope). v.activation_index == highest) found) [
      | none ↦ failed s unsafe_fallback
      | some failed_ ↦
          if names_predecessor failed_ selected
          then replace_failed fresh s valid selected failed_ (highest + 1)
          else failed s unsafe_fallback
    ]

unfoldable pub choose :
    Fresh
    → GenerationStore
    → List GenerationEnvelope
    → List GenerationEnvelope
    → Answer GenerationResolution
choose fresh s found valid = elim (newest_generation valid) [
  | none ↦ failed s no_valid_generation
  | some selected ↦
      if ltb selected.activation_index (highest_index found)
      then fall_back fresh s found valid selected
      else done (record_scan valid selected s) (record { selected = selected; warning = none })
]

-- The envelopes that the scan finds, and the valid ones of them.
unfoldable pub found_in : Spelling → GenerationStore → List GenerationEnvelope
found_in w s = (enumerate w s.generations).envelopes

unfoldable pub valid_in : Spelling → GenerationStore → List GenerationEnvelope
valid_in w s = select (is_valid w s.objects) (found_in w s)

unfoldable pub resolve : Spelling → Fresh → GenerationStore → Answer GenerationResolution
resolve w fresh s =
    if (enumerate w s.generations).ambiguous
    then failed s ambiguous_metadata
    else if not (is_coherent (valid_in w s))
    then failed s broken_lineage
    else choose fresh s (found_in w s) (valid_in w s)

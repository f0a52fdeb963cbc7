-- ===== src/Generation/Retention.antt =====
-- Retention in `AuthorityGenerationStore` of packages/host/src/authority-generations.ts: warnings, holds,
-- protection and `cleanup`.
use pidex.Prelude.{
  ℕ, Bool, true, false, not, ◌&&◌, ◌||◌, List, [], ◌∷◌, ◌++◌, Option, none, some, map, ◌==◌, ltb,
  if◌then◌else◌, any, all, select, find?,
}
use pidex.Generation.Envelope.{Spelling, is_safe, GenerationEnvelope}
use pidex.Generation.Scan.{
  GenerationDirectory, RecoveryWarning, ValidationScan, GenerationStore,
  cleanup_requires_validation, ambiguous_evidence, broken_lineage, invalid_selector,
  selected_missing, retained_missing, unsafe_identity, Answer, done, failed, member, finds_id,
  find_id, enumerate, is_valid, is_coherent,
}

pub data MarkerKind : Type 0 where
  holds protected_ : MarkerKind

-- `force` makes the removal of a warning that is not there no failure.
unfoldable pub clear_recovery_warning : ℕ → GenerationStore → GenerationStore
clear_recovery_warning id s = record s {
  warnings = select (λ (x : RecoveryWarning). not (x.failed_generation == id)) s.warnings;
}

abbrev pub mark : Bool → ℕ → List ℕ → List ℕ
mark true id ids = if member id ids then ids else ids ++ id ∷ []
mark false id ids = select (λ x. not (x == id)) ids

unfoldable pub set_retention_marker :
    Spelling → MarkerKind → ℕ → Bool → GenerationStore → Answer (Unit {0})
set_retention_marker w kind id enabled s =
    if not (is_safe w id) then failed s unsafe_identity else elim kind [
      | holds ↦ done (record s { holds = mark enabled id s.holds }) tt
      | protected_ ↦ done (record s { protected_ = mark enabled id s.protected_ }) tt
    ]

pub record CleanupResult : Type 0 where
  pub generations : List ℕ
  pub objects : List ℕ

abbrev pub option_list : Option ℕ → List ℕ
option_list none = []
option_list (some n) = n ∷ []

abbrev pub failed_generations : List RecoveryWarning → List ℕ
failed_generations ws = map (λ (x : RecoveryWarning). x.failed_generation) ws

-- The set as a list; an order or a repetition is never read.
unfoldable pub retained : GenerationStore → GenerationEnvelope → List ℕ
retained s selected =
    (selected.generation_id ∷ option_list selected.predecessor)
    ++ (failed_generations s.warnings ++ (s.holds ++ s.protected_))

abbrev pub scan_of : ℕ → List ValidationScan → Option ValidationScan
scan_of n scans = find? (λ (x : ValidationScan). x.scanned == n) scans

abbrev pub scanned_before : ℕ → Option ValidationScan → Bool
scanned_before number none = false
scanned_before number (some x) = ltb x.at_scan number

unfoldable pub is_disposable : GenerationStore → GenerationEnvelope → GenerationEnvelope → Bool
unfolding retained
is_disposable s selected v =
    not (member v.generation_id (retained s selected))
    && scanned_before s.scan_number (scan_of v.generation_id s.validation_scans)

abbrev pub ids_of : List GenerationEnvelope → List ℕ
ids_of vs = map (λ (v : GenerationEnvelope). v.generation_id) vs

-- A directory is removed by its name.
abbrev pub remove_generations : List ℕ → List GenerationDirectory → List GenerationDirectory
remove_generations names es = select (λ (e : GenerationDirectory). not (member e.name names)) es

-- The objects of the envelopes that stay.
abbrev pub is_pinned : List ℕ → List GenerationEnvelope → ℕ → Bool
is_pinned deleted found object =
    any
      (λ (v : GenerationEnvelope). not (member v.generation_id deleted) && member object v.objects)
      found

unfoldable pub dispose :
    List GenerationEnvelope → GenerationEnvelope → GenerationStore → Answer CleanupResult
dispose found selected s =
    let deleted = ids_of (select (is_disposable s selected) found) in
    done
      (record s {
        generations = remove_generations deleted s.generations;
        objects = select (is_pinned deleted found) s.objects;
      })
      (record {
        generations = deleted;
        objects = select (λ o. not (is_pinned deleted found o)) s.objects;
      })

unfoldable pub clean_selected :
    List GenerationEnvelope → GenerationEnvelope → GenerationStore → Answer CleanupResult
clean_selected found selected s =
    if all (λ n. finds_id n found) (retained s selected)
    then dispose found selected s
    else failed s retained_missing

abbrev pub clean_found :
    List GenerationEnvelope → GenerationStore → Option GenerationEnvelope → Answer CleanupResult
clean_found found s none = failed s selected_missing
clean_found found s (some selected) = clean_selected found selected s

abbrev pub clean_named : List GenerationEnvelope → GenerationStore → Option ℕ → Answer CleanupResult
clean_named found s none = failed s invalid_selector
clean_named found s (some id) = clean_found found s (find_id id found)

-- A selector that is missing or of another shape is no selector.
unfoldable pub cleanup : Spelling → GenerationStore → Answer CleanupResult
cleanup w s =
    if s.scan_number == 0
    then failed s cleanup_requires_validation
    else let c = enumerate w s.generations in
      if c.ambiguous || any (λ v. not (is_valid w s.objects v)) c.envelopes
      then failed s ambiguous_evidence
      else if not (is_coherent c.envelopes)
      then failed s broken_lineage
      else clean_named c.envelopes s s.selector

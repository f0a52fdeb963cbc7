-- ===== src/Generation/GenerationTests.antt =====
-- Runs of the generation store of packages/host/src/authority-generations.ts, among them the one of
-- test/authority-generation-recovery.product.test.ts with a held first generation.
use pidex.Prelude.{
  ℕ, ◌+◌, ◌≡◌, refl, true, List, [], ◌∷◌, Option, none, some, arith, any, if◌then◌else◌,
}
use pidex.Generation.Envelope.{Spelling, safe_file_name, is_safe, GenerationEnvelope, is_envelope}
use pidex.Generation.Scan.{
  ValidationScan, GenerationStore, broken_lineage, Answer, done, failed, GenerationResolution,
  is_acceptable, take_envelope, enumerate, is_valid, is_coherent, newest_generation, highest_index,
  Fresh, entry_of, copy_for_fallback, record_scan, fall_back, choose, found_in, valid_in, resolve,
}
use pidex.Generation.Transition.{
  published_then_threw, AuthorityTransition, transition_envelope, publish_transition, activate,
}
use pidex.Generation.Retention.{
  CleanupResult, retained, is_disposable, dispose, clean_selected, cleanup,
}
use pidex.Generation.Resolution.{resolve_twice}
use pidex.Generation.Activation.{
  store_of, standing, returns_done, is_completed, activate_then_resolve,
}
use pidex.Generation.Removal.{orphaned}
use pidex.Generation.Cleanup.{IsSpared, cleanup-keeps, resolve_after_cleanup}

-- Names are digits.
abbrev digits : Spelling
digits = record { spelled = λ n. (48 + n) ∷ []; basename = λ t. t }

abbrev generation : ℕ → ℕ → Option ℕ → GenerationEnvelope
generation id object predecessor = record {
  format_version = 1;
  generation_id = id;
  activation_index = id;
  predecessor = predecessor;
  continuity = 0;
  objects = object ∷ [];
  sealed_ = true;
}

-- Four generations in a line; the objects of some of them.
abbrev four : List ℕ → GenerationStore
four objects = record {
  generations =
      entry_of (generation 1 1 none)
      ∷ entry_of (generation 2 2 (some 1))
      ∷ entry_of (generation 3 3 (some 2))
      ∷ entry_of (generation 4 4 (some 3))
      ∷ [];
  objects = objects;
  warnings = [];
  holds = 1 ∷ [];
  protected_ = [];
  selector = none;
  validation_scans = [];
  scan_number = 0;
}

abbrev whole : GenerationStore
whole = four (1 ∷ 2 ∷ 3 ∷ 4 ∷ [])

abbrev fresh_names : ℕ → Fresh
fresh_names n = record { id = n; continuity = n }

-- The store that an answer leaves, and what it gives.
abbrev given {ℓ} : {A : Type ℓ} → A → Answer A → A
given a (done s b) = b
given a (failed s e) = a

abbrev no_resolution : GenerationResolution
no_resolution = record { selected = generation 0 0 none; warning = none }

abbrev no_result : CleanupResult
no_result = record { generations = []; objects = [] }

abbrev scanned_once : GenerationStore
scanned_once = store_of (resolve digits (fresh_names 5) whole)

unfoldable running : Unit {0}
unfolding safe_file_name is_safe is_envelope is_acceptable take_envelope enumerate is_valid
    is_coherent newest_generation highest_index copy_for_fallback record_scan fall_back choose
    found_in valid_in resolve transition_envelope publish_transition activate retained is_disposable
    dispose clean_selected cleanup
running = tt

-- The object of the newest generation is lost: the scan falls back to its predecessor.
falls_back :
    (given no_resolution (resolve digits (fresh_names 5) (four (1 ∷ 2 ∷ 3 ∷ [])))).selected
    ≡ record (generation 5 3 (some 3)) { continuity = 5 }
unfolding running
falls_back = refl

resolve_twice_example :
    let s = four (1 ∷ 2 ∷ 3 ∷ []) in
    let s' = store_of (resolve digits (fresh_names 5) s) in
    let r = given no_resolution (resolve digits (fresh_names 5) s) in
    (s'.selector ≡ some r.selected.generation_id)
    × (resolve digits (fresh_names 6) s'
        ≡ done
            (record_scan (valid_in digits s') r.selected s')
            (record { selected = r.selected; warning = none }))
unfolding running
resolve_twice_example =
    resolve_twice digits (fresh_names 5) (fresh_names 6) (four (1 ∷ 2 ∷ 3 ∷ []))
      (store_of (resolve digits (fresh_names 5) (four (1 ∷ 2 ∷ 3 ∷ []))))
      (given no_resolution (resolve digits (fresh_names 5) (four (1 ∷ 2 ∷ 3 ∷ []))))
      (record { safe = refl; unused = refl; room = omega arith }) refl

abbrev migration : AuthorityTransition
migration = record {
  source_generation = 4;
  objects = none;
  rotate_continuity = true;
  ends = published_then_threw;
}

-- The publication fails after the tree has its name: `activate` throws, and the next scan selects the
-- tree.
activate_then_resolve_example :
    let after =
      store_of (activate digits (fresh_names 5) (fresh_names 6) (fresh_names 7) migration whole) in
    let u =
      standing migration.ends
        (generation 4 4 (some 3))
        (transition_envelope (fresh_names 6) migration (generation 4 4 (some 3))) in
    (returns_done (activate digits (fresh_names 5) (fresh_names 6) (fresh_names 7) migration whole)
      ≡ is_completed migration.ends)
    × (resolve digits (fresh_names 8) after
        ≡ done
            (record_scan (valid_in digits after) u after)
            (record { selected = u; warning = none }))
unfolding running
activate_then_resolve_example =
    activate_then_resolve digits (fresh_names 5) (fresh_names 6) (fresh_names 7) migration whole
      scanned_once (given no_resolution (resolve digits (fresh_names 5) whole))
      (record { safe = refl; unused = refl; room = omega arith }) refl refl
      (record { sound = refl; unused = refl; closed = refl }) (fresh_names 8)

abbrev scanned : ℕ → ValidationScan
scanned n = record { scanned = n; at_scan = 1 }

-- After two scans; the first generation is held.
abbrev scanned_twice : GenerationStore
scanned_twice = record whole {
  selector = some 4;
  scan_number = 2;
  validation_scans = scanned 1 ∷ scanned 2 ∷ scanned 3 ∷ scanned 4 ∷ [];
}

two_scans : store_of (resolve digits (fresh_names 6) scanned_once) ≡ scanned_twice
unfolding running
two_scans = refl

abbrev cleaned : GenerationStore
cleaned = record scanned_twice {
  generations =
      entry_of (generation 1 1 none)
      ∷ entry_of (generation 3 3 (some 2))
      ∷ entry_of (generation 4 4 (some 3))
      ∷ [];
  objects = 1 ∷ 3 ∷ 4 ∷ [];
}

abbrev cleanup_result : CleanupResult
cleanup_result = record { generations = 2 ∷ []; objects = 2 ∷ [] }

-- As in the test of the repository, the second generation is deleted with its object.
deletes_second : cleanup digits scanned_twice ≡ done cleaned cleanup_result
unfolding running
deletes_second = refl

cleanup-keeps_example : IsSpared scanned_twice (found_in digits cleaned) cleaned.objects
unfolding running
cleanup-keeps_example = cleanup-keeps digits scanned_twice cleaned cleanup_result deletes_second

-- After it the scan throws: the third generation names the second.
resolve_after_cleanup_example : resolve digits (fresh_names 7) cleaned ≡ (
    if any (orphaned cleanup_result.generations) (found_in digits scanned_twice)
    then failed cleaned broken_lineage
    else done
        (record_scan (valid_in digits cleaned) (generation 4 4 (some 3)) cleaned)
        (record { selected = generation 4 4 (some 3); warning = none }))
unfolding running
resolve_after_cleanup_example =
    resolve_after_cleanup digits (fresh_names 7) scanned_twice cleaned (generation 4 4 (some 3))
      cleanup_result
      (record { clear = refl; coherent = refl; newest = refl; highest = omega arith }) refl
      deletes_second

throws_after_cleanup : resolve digits (fresh_names 7) cleaned ≡ failed cleaned broken_lineage
unfolding running
throws_after_cleanup = refl

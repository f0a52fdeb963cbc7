-- ===== src/Generation/Transition.antt =====
-- `activate` of `AuthorityGenerationStore` in packages/host/src/authority-generations.ts.
use pidex.Prelude.{
  ℕ, ◌+◌, Bool, true, List, [], ◌∷◌, ◌++◌, Option, none, some, ◌==◌, not, if◌then◌else◌,
}
use pidex.Generation.Envelope.{Spelling, GenerationEnvelope, is_envelope}
use pidex.Generation.Scan.{
  GenerationStore, source_not_selected, invalid_transition_envelope, transition_threw, not_selected,
  Answer, done, failed, GenerationResolution, Fresh, entry_of, resolve,
}

-- How `publishValidatedTree` ends with what `materialize` and `validate` of the transition do: before the
-- tree has its name, after it, or without a failure.
pub data TransitionEnd : Type 0 where
  refused published_then_threw completed : TransitionEnd

-- No objects are those of the source.
pub record AuthorityTransition : Type 0 where
  pub source_generation : ℕ
  pub objects : Option (List ℕ)
  pub rotate_continuity : Bool
  pub ends : TransitionEnd

abbrev pub objects_of : Option (List ℕ) → GenerationEnvelope → List ℕ
objects_of none source = source.objects
objects_of (some objects) source = objects

unfoldable pub transition_envelope :
    Fresh → AuthorityTransition → GenerationEnvelope → GenerationEnvelope
transition_envelope fresh t source = record {
  format_version = 1;
  generation_id = fresh.id;
  activation_index = source.activation_index + 1;
  predecessor = some source.generation_id;
  continuity = if t.rotate_continuity then fresh.continuity else source.continuity;
  objects = objects_of t.objects source;
  sealed_ = true;
}

abbrev pub publish_envelope : GenerationEnvelope → GenerationStore → GenerationStore
publish_envelope v s = record s { generations = s.generations ++ entry_of v ∷ [] }

abbrev pub assert_selected : ℕ → Answer GenerationResolution → Answer GenerationResolution
assert_selected id (failed s e) = failed s e
assert_selected id (done s r) =
    if r.selected.generation_id == id then done s r else failed s not_selected

-- The second scan takes the names that the third argument holds.
unfoldable pub publish_transition :
    Spelling
    → Fresh
    → TransitionEnd
    → GenerationEnvelope
    → GenerationStore
    → Answer GenerationResolution
publish_transition w later refused v s = failed s transition_threw
publish_transition w later published_then_threw v s = failed (publish_envelope v s) transition_threw
publish_transition w later completed v s =
    assert_selected v.generation_id (resolve w later (publish_envelope v s))

abbrev pub activate_from :
    Spelling
    → Fresh
    → Fresh
    → AuthorityTransition
    → Answer GenerationResolution
    → Answer GenerationResolution
activate_from w fresh later t (failed s e) = failed s e
activate_from w fresh later t (done s r) =
    if not (r.selected.generation_id == t.source_generation)
    then failed s source_not_selected
    else let v = transition_envelope fresh t r.selected in
      if not (is_envelope w v)
      then failed s invalid_transition_envelope
      else publish_transition w later t.ends v s

-- `first` are the names for the first scan, `fresh` those of the new generation.
unfoldable pub activate :
    Spelling
    → Fresh
    → Fresh
    → Fresh
    → AuthorityTransition
    → GenerationStore
    → Answer GenerationResolution
activate w first fresh later t s = activate_from w fresh later t (resolve w first s)

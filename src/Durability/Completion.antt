-- ===== src/Durability/Completion.antt =====
-- When `publish` of packages/durability/src/index.ts goes through.
use pidex.Prelude.{
  ◌≡◌, ◌≢◌, ap, ◌∙◌, Bool, true, not, ◌&&◌, List, [], ◌∷◌, Option, none, some, arith,
}
use pidex.Durability.Candidate.{Node, PublicationKind, file, tree, assert_candidate}
use pidex.Durability.Publication.{
  PublicationStep, stage_created, materialized, validated_before_publication, regular_files_flushed,
  writers_closed, published_step, validated_after_publication, parent_directory_flushed,
  parent_directory_flush_unsupported, PublicationMode, immutable, replace, Place, at_stage,
  at_target, DirectoryFlush, flushed, flush_threw, PublicationRequest, PublicationAdapter,
  PublicationOutcome, published, PublicationDisk, ActionResult, returned, go_on, regular_in,
  prepare_staged_candidate, is_there, is_immutable, flush_parent_directory,
  publish_staged_candidate, settle_candidate, clean_up, publish,
}

-- Nothing throws, and the candidate is one that the request accepts at both places.
pub record IsSmooth (a : PublicationAdapter) (r : PublicationRequest) (kind : PublicationKind)
    (candidate : Node) : Type 0 where
  pub steps_return : (p : PublicationStep) → a.step_returns p ≡ true
  pub files_flush : a.files_flush ≡ true
  pub no_open_writers : a.no_open_writers ≡ true
  pub rename_returns : a.rename_returns ≡ true
  pub leaves_candidate : r.leaves ≡ some candidate
  pub materialize_returns : r.materialize_returns ≡ true
  pub right_kind : assert_candidate kind candidate ≡ true
  pub regular : regular_in kind candidate ≡ true
  pub accepted : (x : Place) → r.validate x candidate ≡ true

abbrev directory_step : DirectoryFlush → PublicationStep
directory_step flushed = parent_directory_flushed
directory_step _ = parent_directory_flush_unsupported

abbrev steps_prepared : List PublicationStep
steps_prepared =
    stage_created ∷ materialized ∷ validated_before_publication ∷ regular_files_flushed
    ∷ writers_closed ∷ []

abbrev pub steps_in_order : DirectoryFlush → List PublicationStep
steps_in_order f =
    stage_created
    ∷ materialized
    ∷ validated_before_publication
    ∷ regular_files_flushed
    ∷ writers_closed
    ∷ published_step
    ∷ validated_after_publication
    ∷ directory_step f
    ∷ []

-- Nothing immutable stands in the way.
abbrev pub is_unobstructed : PublicationMode → Option Node → Bool
is_unobstructed mode existing = not (is_immutable mode && is_there existing)

abbrev pub completed : Node → DirectoryFlush → PublicationDisk × ActionResult PublicationOutcome
completed candidate f = (
  record { target = some candidate; staged = none; steps = steps_in_order f },
  returned published,
)

module _ (a : PublicationAdapter) (r : PublicationRequest) (candidate : Node) where
  prepare_completes :
      (kind : PublicationKind) (existing : Option Node)
      → IsSmooth a r kind candidate
      → prepare_staged_candidate a r kind (record { target = existing; staged = none; steps = [] })
        ≡ (
          record { target = existing; staged = some candidate; steps = steps_prepared },
          returned tt,
        )
  unfolding prepare_staged_candidate
  prepare_completes file existing smooth = ground (
    arith,
    smooth.steps_return stage_created,
    smooth.steps_return materialized,
    smooth.steps_return validated_before_publication,
    smooth.steps_return regular_files_flushed,
    smooth.steps_return writers_closed,
    smooth.accepted at_stage,
  )
  prepare_completes tree existing smooth = ground (
    arith,
    smooth.steps_return stage_created,
    smooth.steps_return materialized,
    smooth.steps_return validated_before_publication,
    smooth.steps_return regular_files_flushed,
    smooth.steps_return writers_closed,
    smooth.accepted at_stage,
  )

  settle_completes :
      (kind : PublicationKind) (mode : PublicationMode) (existing : Option Node)
      → IsSmooth a r kind candidate
      → is_unobstructed mode existing ≡ true
      → a.flush_directory ≢ flush_threw
      → settle_candidate a r kind mode
          (some candidate)
          existing
          (record { target = existing; staged = some candidate; steps = steps_prepared })
        ≡ completed candidate a.flush_directory
  unfolding settle_candidate publish_staged_candidate flush_parent_directory
  settle_completes kind immutable existing smooth free flushes = ground (
    arith,
    smooth.steps_return published_step,
    smooth.steps_return validated_after_publication,
    smooth.steps_return parent_directory_flushed,
    smooth.steps_return parent_directory_flush_unsupported,
    smooth.accepted at_target,
  )
  settle_completes kind replace existing smooth free flushes = ground (
    arith,
    smooth.steps_return published_step,
    smooth.steps_return validated_after_publication,
    smooth.steps_return parent_directory_flushed,
    smooth.steps_return parent_directory_flush_unsupported,
    smooth.accepted at_target,
  )

  -- A publication in which nothing throws, of a candidate that is accepted, ends as published, with the
  -- candidate at the target, the stage empty and the steps in their order.
  pub publish_completes :
      (kind : PublicationKind) (mode : PublicationMode) (existing : Option Node)
      → IsSmooth a r kind candidate
      → is_unobstructed mode existing ≡ true
      → a.flush_directory ≢ flush_threw
      → publish a r kind mode existing ≡ completed candidate a.flush_directory
  unfolding publish clean_up
  publish_completes kind mode existing smooth free flushes =
      let ready : PublicationDisk = record {
        target = existing;
        staged = some candidate;
        steps = steps_prepared;
      } in
      ap
        (λ (q : PublicationDisk × ActionResult (Unit {0})).
          clean_up a (go_on q (λ _. settle_candidate a r kind mode r.leaves existing)))
        (prepare_completes kind existing smooth)
      ∙ ap (λ (l : Option Node). clean_up a (settle_candidate a r kind mode l existing ready))
          smooth.leaves_candidate
      ∙ ap (clean_up a) (settle_completes kind mode existing smooth free flushes)

-- ===== src/Durability/PublicationTests.antt =====
-- Publications of packages/durability/src/index.ts that go through, fail and collide.
use pidex.Prelude.{◌≡◌, refl, ◌↔◌, Bool, true, false, [], ◌∷◌, none, some}
use pidex.Durability.Candidate.{
  Node, directory, nothing, entry, tree, assert_candidate, is_regular, are_equivalent,
}
use pidex.Durability.Publication.{
  PublicationStep, published_step, immutable, flushed, PublicationRequest, PublicationAdapter,
  collision, already_published, returned, threw, prepare_staged_candidate, flush_parent_directory,
  publish_staged_candidate, settle_candidate, clean_up, publish,
}
use pidex.Durability.Equivalence.{are_equivalent_iff}
use pidex.Durability.Atomicity.{IsAtomic, publish-IsAtomic}
use pidex.Durability.Completion.{completed, publish_completes}

abbrev one_file : Node
one_file = directory (entry (1 ∷ []) (Node.file (7 ∷ [])) nothing)

abbrev other_file : Node
other_file = directory (entry (1 ∷ []) (Node.file (8 ∷ [])) nothing)

abbrev request : PublicationRequest
request = record { leaves = some one_file; materialize_returns = true; validate = λ p n. true }

abbrev adapter : (PublicationStep → Bool) → PublicationAdapter
adapter returns = record {
  step_returns = returns;
  files_flush = true;
  no_open_writers = true;
  rename_returns = true;
  flush_directory = flushed;
}

abbrev fails_after_rename : PublicationStep → Bool
fails_after_rename published_step = false
fails_after_rename _ = true

unfoldable running : Unit {0}
unfolding assert_candidate is_regular are_equivalent prepare_staged_candidate flush_parent_directory
    publish_staged_candidate settle_candidate clean_up publish
running = tt

-- A failure after the renaming leaves the candidate at the target.
fails_late :
    (publish (adapter fails_after_rename) request tree immutable none).0.target ≡ some one_file
unfolding running
fails_late = refl

-- What is there already is taken for the candidate, if it equals it.
takes_existing :
    (publish (adapter (λ p. true)) request tree immutable (some one_file)).1
    ≡ returned already_published
unfolding running
takes_existing = refl

collides :
    (publish (adapter (λ p. true)) request tree immutable (some other_file)).1 ≡ threw collision
unfolding running
collides = refl

publish-IsAtomic_example :
    IsAtomic request tree immutable none
      (publish (adapter fails_after_rename) request tree immutable none)
publish-IsAtomic_example = publish-IsAtomic (adapter fails_after_rename) request tree immutable none

publish_completes_example :
    publish (adapter (λ p. true)) request tree immutable none ≡ completed one_file flushed
unfolding running
publish_completes_example =
    publish_completes (adapter (λ p. true)) request one_file tree immutable none
      (record {
        steps_return = λ p. refl;
        files_flush = refl;
        no_open_writers = refl;
        rename_returns = refl;
        leaves_candidate = refl;
        materialize_returns = refl;
        right_kind = refl;
        regular = refl;
        accepted = λ p. refl;
      })
      refl (λ e. cc)

are_equivalent_iff_example :
    (are_equivalent tree one_file other_file ≡ true) ↔ (one_file ≡ other_file)
unfolding running
are_equivalent_iff_example = are_equivalent_iff tree one_file other_file refl refl refl

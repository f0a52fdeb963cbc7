-- ===== src/Durability/Atomicity.antt =====
-- What `publish` of packages/durability/src/index.ts leaves at the target and at the stage, on every path.
use pidex.Prelude.{◌≡◌, refl, ◌⊎◌, Bool, true, false, [], Option, none, arith, Bool-cases, inl, inr}
use pidex.Durability.Candidate.{Node, PublicationKind, file, tree, assert_candidate}
use pidex.Durability.Publication.{
  PublicationMode, immutable, replace, at_stage, at_target, PublicationRequest, PublicationAdapter,
  PublicationOutcome, published, already_published, PublicationDisk, ActionResult, returned, threw,
  go_on, holding, target_is_reusable, is_collision, regular_in, prepare_staged_candidate, is_there,
  flush_parent_directory, publish_staged_candidate, settle_candidate, clean_up, publish,
}

-- What `prepareStagedCandidate` has checked when it returns.
pub record IsPrepared (r : PublicationRequest) (kind : PublicationKind) (d : PublicationDisk)
    : Type 0 where
  pub staged_as_left : d.staged ≡ r.leaves
  pub right_kind : holding (assert_candidate kind) r.leaves ≡ true
  pub accepted : holding (r.validate at_stage) r.leaves ≡ true
  pub regular : holding (regular_in kind) r.leaves ≡ true

-- The candidate has taken the target's place: it is what was prepared, and it replaces nothing that is
-- immutable.
pub record IsMoved (r : PublicationRequest) (kind : PublicationKind) (mode : PublicationMode)
    (existing : Option Node) (d : PublicationDisk) : Type 0 where
  pub target_as_left : d.target ≡ r.leaves
  pub right_kind : holding (assert_candidate kind) r.leaves ≡ true
  pub accepted : holding (r.validate at_stage) r.leaves ≡ true
  pub regular : holding (regular_in kind) r.leaves ≡ true
  pub nothing_lost : mode ≡ immutable → is_there existing ≡ false

-- Something lies at the target that stands for the candidate.
abbrev pub reuses : PublicationRequest → PublicationKind → Option Node → Bool
reuses r kind existing =
    holding (λ c. holding (λ e. target_is_reusable r kind c e) existing) r.leaves

pub record IsAtomic (r : PublicationRequest) (kind : PublicationKind) (mode : PublicationMode)
    (existing : Option Node) (p : PublicationDisk × ActionResult PublicationOutcome) : Type 0 where
  pub whole : (p.0.target ≡ existing) ⊎ IsMoved r kind mode existing p.0
  pub stage_empty : is_collision p.1 ≡ false → is_there p.0.staged ≡ false
  pub evidence :
      is_collision p.1 ≡ true
      → (p.0.staged ≡ r.leaves) × (p.0.target ≡ existing) × (reuses r kind existing ≡ false)
  pub when_published :
      p.1 ≡ returned published
      → IsMoved r kind mode existing p.0 × (holding (r.validate at_target) r.leaves ≡ true)
  pub when_reused :
      p.1 ≡ returned already_published
      → (p.0.target ≡ existing)
        × (mode ≡ immutable)
        × (is_there existing ≡ true)
        × (reuses r kind existing ≡ true)

module _ (a : PublicationAdapter) (r : PublicationRequest) where
  prepare-target :
      (kind : PublicationKind) (d : PublicationDisk)
      → (prepare_staged_candidate a r kind d).0.target ≡ d.target
  unfolding prepare_staged_candidate
  prepare-target file d = ground arith
  prepare-target tree d = ground arith

  prepare-IsPrepared :
      (kind : PublicationKind) (d : PublicationDisk)
      → (prepare_staged_candidate a r kind d).1 ≡ returned tt
      → IsPrepared r kind (prepare_staged_candidate a r kind d).0
  unfolding prepare_staged_candidate
  prepare-IsPrepared file d h = ground arith
  prepare-IsPrepared tree d h = ground arith

  prepare_without_collision :
      (kind : PublicationKind) (d : PublicationDisk)
      → is_collision (prepare_staged_candidate a r kind d).1 ≡ false
  unfolding prepare_staged_candidate
  prepare_without_collision file d = ground arith
  prepare_without_collision tree d = ground arith

  settled :
      (kind : PublicationKind) (mode : PublicationMode) (existing : Option Node)
      (q : PublicationDisk × ActionResult (Unit {0}))
      → q.0.target ≡ existing
      → is_collision q.1 ≡ false
      → (q.1 ≡ returned tt → IsPrepared r kind q.0)
      → IsAtomic r kind mode existing
          (clean_up a (go_on q (λ _. settle_candidate a r kind mode r.leaves existing)))
  unfolding clean_up settle_candidate publish_staged_candidate flush_parent_directory
  settled kind mode existing (d, threw e) t c p = ground arith
  settled kind immutable existing (d, returned u) t c p =
      let prepared = p refl in
      elim (Bool-cases (is_there existing)) [
        | inl e ↦ rw e (ground arith)
        | inr e ↦ rw e (ground arith)
      ]
  settled kind replace existing (d, returned u) t c p = let prepared = p refl in ground arith

  -- A publication leaves the target as it was, or holding the whole validated candidate, which never takes
  -- the place of an immutable target that exists, as `existsSync` says; nothing exists at the stage behind
  -- it, but for a collision, which keeps the candidate and the target. A success means a moved candidate
  -- that is valid at the target, or an immutable target that exists and stands for it.
  pub publish-IsAtomic :
      (kind : PublicationKind) (mode : PublicationMode) (existing : Option Node)
      → IsAtomic r kind mode existing (publish a r kind mode existing)
  unfolding publish
  publish-IsAtomic kind mode existing =
      let start : PublicationDisk = record { target = existing; staged = none; steps = [] } in
      settled kind mode existing (prepare_staged_candidate a r kind start)
        (prepare-target kind start) (prepare_without_collision kind start)
        (prepare-IsPrepared kind start)

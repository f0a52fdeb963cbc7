-- ===== src/Durability/Publication.antt =====
-- `publish` of packages/durability/src/index.ts as a run of its steps on the target and on the staged
-- candidate. The materializer, the validation and the adapter are the caller's.
use pidex.Prelude.{Bool, true, false, ◌&&◌, List, [], ◌∷◌, ◌++◌, Option, none, some, if◌then◌else◌}
use pidex.Durability.Candidate.{
  Node, directory, nothing, PublicationKind, file, tree, assert_candidate, is_regular,
  are_equivalent, exists,
}

pub data PublicationStep : Type 0 where
  stage_created materialized validated_before_publication regular_files_flushed : PublicationStep
  writers_closed published_step validated_after_publication parent_directory_flushed :
      PublicationStep
  parent_directory_flush_unsupported stage_cleaned : PublicationStep

pub data PublicationMode : Type 0 where
  immutable replace : PublicationMode

pub data Place : Type 0 where
  at_stage at_target : Place

pub data DirectoryFlush : Type 0 where
  flushed unsupported flush_threw : DirectoryFlush

-- `leaves` is what `materialize` leaves at the stage, whether it returns or throws; `validate` is
-- false where it returns false or throws.
pub record PublicationRequest : Type 0 where
  pub leaves : Option Node
  pub materialize_returns : Bool
  pub validate : Place → Node → Bool

-- The adapter and what else the system answers.
pub record PublicationAdapter : Type 0 where
  pub step_returns : PublicationStep → Bool
  pub files_flush : Bool
  pub no_open_writers : Bool
  pub rename_returns : Bool
  pub flush_directory : DirectoryFlush

pub data PublicationFailure : Type 0 where
  injected : PublicationStep → PublicationFailure
  materializer_threw candidate_missing not_regular_candidate irregular_tree flush_failed :
      PublicationFailure
  writer_left_open rename_failed collision parent_flush_failed : PublicationFailure
  rejected : Place → PublicationFailure

pub data PublicationOutcome : Type 0 where
  published already_published : PublicationOutcome

pub record PublicationDisk : Type 0 where
  pub target : Option Node
  pub staged : Option Node
  pub steps : List PublicationStep

pub data ActionResult {ℓ} (A : Type ℓ) : Type ℓ where
  returned : A → ActionResult A
  threw : PublicationFailure → ActionResult A

abbrev pub Action {ℓ} : Type ℓ → Type ℓ
Action A = PublicationDisk → PublicationDisk × ActionResult A

abbrev pub go_on {ℓ κ} :
    {A : Type ℓ} {B : Type κ}
    → PublicationDisk × ActionResult A
    → (A → Action B)
    → PublicationDisk × ActionResult B
go_on (d, returned a) f = f a d
go_on (d, threw e) f = (d, threw e)

infixl 5 ◌>>=◌ ◌>>◌
abbrev pub ◌>>=◌ {ℓ κ} : {A : Type ℓ} {B : Type κ} → Action A → (A → Action B) → Action B
(m >>= f) d = go_on (m d) f

abbrev pub ◌>>◌ {ℓ} : {B : Type ℓ} → Action (Unit {0}) → Action B → Action B
m >> k = m >>= λ _. k

abbrev pub give {ℓ} : {A : Type ℓ} → A → Action A
give a d = (d, returned a)

abbrev pub demand : Bool → PublicationFailure → Action (Unit {0})
demand true e d = (d, returned tt)
demand false e d = (d, threw e)

abbrev pub write_stage : Option Node → Action (Unit {0})
write_stage n d = (record d { staged = n }, returned tt)

-- `onStep` is called, then an injected failure is thrown.
abbrev pub take_step : PublicationAdapter → PublicationStep → Action (Unit {0})
take_step a p d = (
  record d { steps = d.steps ++ p ∷ [] },
  if a.step_returns p then returned tt else threw (injected p),
)

abbrev pub holding : (Node → Bool) → Option Node → Bool
holding p none = false
holding p (some n) = p n

-- `lstatSync` throws where nothing is.
abbrev pub require_candidate : PublicationKind → Option Node → Action (Unit {0})
require_candidate kind none = demand false candidate_missing
require_candidate kind (some n) = demand (assert_candidate kind n) not_regular_candidate

abbrev pub empty_stage : PublicationKind → Action (Unit {0})
empty_stage tree = write_stage (some (directory nothing))
empty_stage file = give tt

abbrev pub regular_in : PublicationKind → Node → Bool
regular_in file n = true
regular_in tree n = is_regular n

unfoldable pub prepare_staged_candidate :
    PublicationAdapter → PublicationRequest → PublicationKind → Action (Unit {0})
prepare_staged_candidate a r kind = do
  empty_stage kind
  take_step a stage_created
  write_stage r.leaves
  demand r.materialize_returns materializer_threw
  take_step a materialized
  require_candidate kind r.leaves
  demand (holding (r.validate at_stage) r.leaves) (rejected at_stage)
  take_step a validated_before_publication
  demand (holding (regular_in kind) r.leaves) irregular_tree
  demand a.files_flush flush_failed
  take_step a regular_files_flushed
  demand a.no_open_writers writer_left_open
  take_step a writers_closed

unfoldable pub flush_parent_directory : PublicationAdapter → Action (Unit {0})
flush_parent_directory a = elim a.flush_directory [
  | flushed ↦ take_step a parent_directory_flushed
  | unsupported ↦ take_step a parent_directory_flush_unsupported
  | flush_threw ↦ demand false parent_flush_failed
]

-- `renameSync(stagedPath, request.target)`
abbrev pub rename : PublicationAdapter → Action (Unit {0})
rename a d =
    if a.rename_returns
    then (record d { target = d.staged; staged = none }, returned tt)
    else (d, threw rename_failed)

unfoldable pub publish_staged_candidate :
    PublicationAdapter → PublicationRequest → Action (Unit {0})
unfolding flush_parent_directory
publish_staged_candidate a r = do
  rename a
  take_step a published_step
  demand (holding (r.validate at_target) r.leaves) (rejected at_target)
  take_step a validated_after_publication
  flush_parent_directory a

-- What lies at the target may be taken for the candidate.
abbrev pub target_is_reusable : PublicationRequest → PublicationKind → Node → Node → Bool
target_is_reusable r kind candidate existing =
    are_equivalent kind candidate existing && r.validate at_target existing

abbrev pub is_immutable : PublicationMode → Bool
is_immutable immutable = true
is_immutable replace = false

-- `existsSync` of a path at which something or nothing lies
abbrev pub is_there : Option Node → Bool
is_there n = holding exists n

abbrev pub reuse : PublicationAdapter → Bool → Action PublicationOutcome
reuse a true = do flush_parent_directory a; give already_published
reuse a false = do demand false collision; give already_published

abbrev pub move_candidate : PublicationAdapter → PublicationRequest → Action PublicationOutcome
move_candidate a r = do publish_staged_candidate a r; give published

unfoldable pub settle_candidate :
    PublicationAdapter
    → PublicationRequest
    → PublicationKind
    → PublicationMode
    → Option Node
    → Option Node
    → Action PublicationOutcome
settle_candidate a r kind mode candidate existing =
    if is_immutable mode && is_there existing
    then reuse a (holding (λ c. holding (λ e. target_is_reusable r kind c e) existing) candidate)
    else move_candidate a r

abbrev pub is_collision {ℓ} : {A : Type ℓ} → ActionResult A → Bool
is_collision (threw collision) = true
is_collision _ = false

-- `finally`: what `step` throws here takes the place of the outcome.
unfoldable pub clean_up {ℓ} :
    {A : Type ℓ}
    → PublicationAdapter
    → PublicationDisk × ActionResult A
    → PublicationDisk × ActionResult A
clean_up a (d, o) =
    if is_collision o
    then (d, o)
    else if is_there d.staged
    then go_on (take_step a stage_cleaned (record d { staged = none })) (λ _ e. (e, o))
    else (d, o)

-- The stage has a name of its own, so nothing lies there before.
unfoldable pub publish :
    PublicationAdapter
    → PublicationRequest
    → PublicationKind
    → PublicationMode
    → Option Node
    → PublicationDisk × ActionResult PublicationOutcome
publish a r kind mode existing =
    let start : PublicationDisk = record { target = existing; staged = none; steps = [] } in
    clean_up a (
      go_on (prepare_staged_candidate a r kind start)
        (λ _. settle_candidate a r kind mode r.leaves existing))

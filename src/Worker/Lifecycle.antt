-- ===== src/Worker/Lifecycle.antt =====
-- `SessionGenerationLifecycle` of packages/worker-protocol/src/index.ts: the Runs and Interactions of one
-- generation of a worker. A method that throws returns the code, and the state that it leaves.
use pidex.Prelude.{
  Bool, true, false, not, ◌&&◌, ◌||◌, List, [], ◌∷◌, map, Option, none, some, if◌then◌else◌, any,
  is_some, Text, text_eq, codes,
}

pub data GenerationRunState : Type 0 where
  idle executing cancelling completed failed cancelled interrupted : GenerationRunState

pub data GenerationInteractionState : Type 0 where
  open_ applying responded withdrawn : GenerationInteractionState

pub data Code : Type 0 where
  duplicate_readiness generation_not_ready generation_failed run_correlation_reused : Code
  generation_busy cancellation_unsupported terminal_proof_missing : Code
  generation_replacement_required interaction_unsupported interaction_correlation_reused : Code
  interaction_not_open interaction_not_applying stale_run_correlation : Code
  missing_required_capability : List Text → Code

-- `interactions` is a Map, in the order of its insertions; `used_correlations` is a Set, latest first.
pub record Lifecycle : Type 0 where
  pub required_capabilities : List Text
  pub capabilities : List Text
  pub config_generation : Option Text
  pub run_correlation : Option Text
  pub used_correlations : List Text
  pub run_state : GenerationRunState
  pub has_failed : Bool
  pub interactions : List (Text × GenerationInteractionState)

pub data Verdict : Type 0 where
  done : Lifecycle → Verdict
  threw : Code → Lifecycle → Verdict

abbrev pub after : Verdict → Lifecycle
after (done s) = s
after (threw code s) = s

unfoldable pub create_lifecycle : List Text → Lifecycle
create_lifecycle required = record {
  required_capabilities = required;
  capabilities = [];
  config_generation = none;
  run_correlation = none;
  used_correlations = [];
  run_state = idle;
  has_failed = false;
  interactions = [];
}

abbrev pub has : Text → List Text → Bool
has t ts = any (text_eq t) ts

-- A text that is there and not empty, as `!value` tests it.
abbrev pub is_truthy : Option Text → Bool
is_truthy none = false
is_truthy (some []) = false
is_truthy (some (c ∷ cs)) = true

abbrev pub is_active : GenerationRunState → Bool
is_active executing = true
is_active cancelling = true
is_active _ = false

abbrev pub is_at : Text → Option Text → Bool
is_at t none = false
is_at t (some u) = text_eq t u

-- `Map.get` and `Map.set`
unfoldable pub get_interaction :
    Text → List (Text × GenerationInteractionState) → Option GenerationInteractionState
get_interaction id [] = none
get_interaction id ((key, state) ∷ rest) =
    let found = get_interaction id rest in if text_eq id key then some state else found

unfoldable pub set_interaction :
    Text
    → GenerationInteractionState
    → List (Text × GenerationInteractionState)
    → List (Text × GenerationInteractionState)
set_interaction id state [] = (id, state) ∷ []
set_interaction id state ((key, old) ∷ rest) =
    let more = set_interaction id state rest in
    if text_eq id key then (key, state) ∷ rest else (key, old) ∷ more

abbrev pub missing_of : List Text → List Text → List Text
missing_of [] capabilities = []
missing_of (id ∷ ids) capabilities =
    let missing = missing_of ids capabilities in
    if has id capabilities then missing else id ∷ missing

-- The last step of `ready`, by the capabilities that are missing.
abbrev pub ready_with : List Text → Text → Lifecycle → Verdict
ready_with [] config s = done (record s { config_generation = some config })
ready_with (id ∷ ids) config s = threw (missing_required_capability (id ∷ ids)) s

unfoldable pub ready : List Text → Text → Lifecycle → Verdict
ready capabilities config s =
    if s.has_failed || is_truthy s.config_generation
    then threw duplicate_readiness s
    else ready_with (missing_of s.required_capabilities capabilities) config
        (record s { capabilities = capabilities })

unfoldable pub execute : Text → Lifecycle → Verdict
execute correlation s =
    if not (is_truthy s.config_generation)
    then threw generation_not_ready s
    else if s.has_failed
    then threw generation_failed s
    else if has correlation s.used_correlations
    then threw run_correlation_reused s
    else if is_active s.run_state
    then threw generation_busy s
    else done (record s {
      used_correlations = correlation ∷ s.used_correlations;
      run_correlation = some correlation;
      run_state = executing;
    })

-- The test of `#assertActive`
abbrev pub holds : Text → Lifecycle → Bool
holds correlation s = is_at correlation s.run_correlation && is_active s.run_state

unfoldable pub stop : Text → Lifecycle → Verdict
stop correlation s =
    if not (holds correlation s)
    then threw stale_run_correlation s
    else if not (has (codes "runtime.cancel") s.capabilities)
    then threw cancellation_unsupported s
    else done (record s { run_state = cancelling })

pub data Ending : Type 0 where
  completes fails cancels interrupts : Ending

abbrev pub state_of : Ending → GenerationRunState
state_of completes = completed
state_of fails = failed
state_of cancels = cancelled
state_of interrupts = interrupted

abbrev pub needs_proof : Ending → Bool
needs_proof completes = true
needs_proof cancels = true
needs_proof _ = false

unfoldable pub settle : Text → Ending → Option Text → Lifecycle → Verdict
settle correlation ending checkpoint s =
    if not (holds correlation s)
    then threw stale_run_correlation s
    else if needs_proof ending && not (is_truthy checkpoint)
    then threw terminal_proof_missing s
    else done (record s { run_state = state_of ending; run_correlation = none })

unfoldable pub configuration_changed : Text → Lifecycle → Verdict
configuration_changed config s =
    if is_at config s.config_generation then done s else threw generation_replacement_required s

unfoldable pub open_interaction : Text → Text → Lifecycle → Verdict
unfolding get_interaction set_interaction
open_interaction id correlation s =
    if not (holds correlation s)
    then threw stale_run_correlation s
    else if not (has (codes "interaction.basic") s.capabilities)
    then threw interaction_unsupported s
    else if is_some (get_interaction id s.interactions)
    then threw interaction_correlation_reused s
    else done (record s { interactions = set_interaction id open_ s.interactions })

abbrev pub is_open : Option GenerationInteractionState → Bool
is_open (some open_) = true
is_open _ = false

abbrev pub is_applying : Option GenerationInteractionState → Bool
is_applying (some applying) = true
is_applying _ = false

unfoldable pub respond_interaction : Text → Lifecycle → Verdict
unfolding get_interaction set_interaction
respond_interaction id s =
    if is_open (get_interaction id s.interactions)
    then done (record s { interactions = set_interaction id applying s.interactions })
    else threw interaction_not_open s

unfoldable pub acknowledge_interaction : Text → Lifecycle → Verdict
unfolding get_interaction set_interaction
acknowledge_interaction id s =
    if is_applying (get_interaction id s.interactions)
    then done (record s { interactions = set_interaction id responded s.interactions })
    else threw interaction_not_applying s

abbrev pub withdraw : Text × GenerationInteractionState → Text × GenerationInteractionState
withdraw (id, open_) = (id, withdrawn)
withdraw (id, applying) = (id, withdrawn)
withdraw (id, responded) = (id, responded)
withdraw (id, withdrawn) = (id, withdrawn)

unfoldable pub fail : Lifecycle → Verdict
fail s = done (record s {
  has_failed = true;
  run_state = if is_active s.run_state then interrupted else s.run_state;
  run_correlation = none;
  interactions = map withdraw s.interactions;
})

-- ===== src/Worker/LifecycleHistory.antt =====
-- Histories of `SessionGenerationLifecycle` of packages/worker-protocol/src/index.ts.
use pidex.Prelude.{
  ◌≡◌, refl, Bool, true, false, not, ◌&&◌, ◌||◌, List, [], ◌∷◌, map, Option, any, is_some, Text,
  codes, arith,
}
use pidex.Worker.Lifecycle.{
  GenerationRunState, cancelling, GenerationInteractionState, open_, applying, responded, withdrawn,
  Lifecycle, Verdict, after, create_lifecycle, has, is_truthy, is_active, get_interaction,
  missing_of, ready_with, ready, execute, stop, Ending, settle, configuration_changed,
  open_interaction, is_open, is_applying, respond_interaction, acknowledge_interaction, withdraw,
  fail,
}

-- A call of one of the methods, with its arguments.
pub data Call : Type 0 where
  readies : List Text → Text → Call
  executes stops changes responds acknowledges : Text → Call
  settles : Text → Ending → Option Text → Call
  opens : Text → Text → Call
  fails : Call

abbrev pub call : Call → Lifecycle → Verdict
call (readies capabilities config) s = ready capabilities config s
call (executes correlation) s = execute correlation s
call (stops correlation) s = stop correlation s
call (changes config) s = configuration_changed config s
call (responds id) s = respond_interaction id s
call (acknowledges id) s = acknowledge_interaction id s
call (settles correlation ending checkpoint) s = settle correlation ending checkpoint s
call (opens id correlation) s = open_interaction id correlation s
call fails s = fail s

-- The state after some calls, whether they throw or not.
abbrev pub after_calls : List Call → Lifecycle → Lifecycle
after_calls [] s = s
after_calls (c ∷ cs) s = after_calls cs (after (call c s))

abbrev pub is_pending : Text × GenerationInteractionState → Bool
is_pending (id, open_) = true
is_pending (id, applying) = true
is_pending (id, _) = false

abbrev is_cancelling : GenerationRunState → Bool
is_cancelling cancelling = true
is_cancelling _ = false

-- The state of a Run and of the Interactions agree, and neither outlives a failure.
pub record IsConsistent (s : Lifecycle) : Type 0 where
  pub correlated : is_some s.run_correlation ≡ is_active s.run_state
  pub configured : (is_active s.run_state && not (is_truthy s.config_generation)) ≡ false
  pub run_ended : (s.has_failed && is_active s.run_state) ≡ false
  pub interactions_ended : (s.has_failed && any is_pending s.interactions) ≡ false
  pub cancellable :
      (is_cancelling s.run_state && not (has (codes "runtime.cancel") s.capabilities)) ≡ false
  pub interactive :
      (any is_pending s.interactions
        && not (is_truthy s.config_generation && has (codes "interaction.basic") s.capabilities))
      ≡ false

any_pending-get :
    (id : Text) (xs : List (Text × GenerationInteractionState))
    → (is_open (get_interaction id xs) || is_applying (get_interaction id xs)) ≡ true
    → any is_pending xs ≡ true
unfolding get_interaction
any_pending-get id [] e = absurd (ground arith)
any_pending-get id ((key, state) ∷ xs) e = ground (arith, any_pending-get id xs)

any_pending-withdraw :
    (xs : List (Text × GenerationInteractionState)) → any is_pending (map withdraw xs) ≡ false
any_pending-withdraw [] = refl
any_pending-withdraw ((key, open_) ∷ xs) = any_pending-withdraw xs
any_pending-withdraw ((key, applying) ∷ xs) = any_pending-withdraw xs
any_pending-withdraw ((key, responded) ∷ xs) = any_pending-withdraw xs
any_pending-withdraw ((key, withdrawn) ∷ xs) = any_pending-withdraw xs

ready_with-IsConsistent :
    (missing : List Text) (config : Text) (s : Lifecycle)
    → is_active s.run_state ≡ false
    → s.has_failed ≡ false
    → any is_pending s.interactions ≡ false
    → is_some s.run_correlation ≡ is_active s.run_state
    → IsConsistent (after (ready_with missing config s))
ready_with-IsConsistent [] config s a f p c = ground arith
ready_with-IsConsistent (id ∷ ids) config s a f p c = ground arith

execute-IsConsistent :
    (correlation : Text) (s : Lifecycle)
    → IsConsistent s
    → IsConsistent (after (execute correlation s))
unfolding execute
execute-IsConsistent correlation s h = ground arith

stop-IsConsistent :
    (correlation : Text) (s : Lifecycle)
    → IsConsistent s
    → IsConsistent (after (stop correlation s))
unfolding stop
stop-IsConsistent correlation s h = ground arith

settle-IsConsistent :
    (correlation : Text) (ending : Ending) (checkpoint : Option Text) (s : Lifecycle)
    → IsConsistent s
    → IsConsistent (after (settle correlation ending checkpoint s))
unfolding settle
settle-IsConsistent correlation ending checkpoint s h = ground arith

ready-IsConsistent :
    (capabilities : List Text) (config : Text) (s : Lifecycle)
    → IsConsistent s
    → IsConsistent (after (ready capabilities config s))
unfolding ready
ready-IsConsistent capabilities config s h = ground (
  arith,
  λ (e : (s.has_failed || is_truthy s.config_generation) ≡ false).
      ready_with-IsConsistent (missing_of s.required_capabilities capabilities) config
        (record s { capabilities = capabilities }) (ground arith) (ground arith) (ground arith)
        h.correlated,
)

open_interaction-IsConsistent :
    (id correlation : Text) (s : Lifecycle)
    → IsConsistent s
    → IsConsistent (after (open_interaction id correlation s))
unfolding open_interaction
open_interaction-IsConsistent id correlation s h = ground arith

respond_interaction-IsConsistent :
    (id : Text) (s : Lifecycle) → IsConsistent s → IsConsistent (after (respond_interaction id s))
unfolding respond_interaction
respond_interaction-IsConsistent id s h = ground (arith, any_pending-get id s.interactions)

acknowledge_interaction-IsConsistent :
    (id : Text) (s : Lifecycle)
    → IsConsistent s
    → IsConsistent (after (acknowledge_interaction id s))
unfolding acknowledge_interaction
acknowledge_interaction-IsConsistent id s h = ground (arith, any_pending-get id s.interactions)

fail-IsConsistent : (s : Lifecycle) → IsConsistent s → IsConsistent (after (fail s))
unfolding fail
fail-IsConsistent s h = ground (arith, any_pending-withdraw s.interactions)

configuration_changed-IsConsistent :
    (config : Text) (s : Lifecycle)
    → IsConsistent s
    → IsConsistent (after (configuration_changed config s))
unfolding configuration_changed
configuration_changed-IsConsistent config s h = ground arith

call-IsConsistent : (c : Call) (s : Lifecycle) → IsConsistent s → IsConsistent (after (call c s))
call-IsConsistent (readies capabilities config) s h = ready-IsConsistent capabilities config s h
call-IsConsistent (executes correlation) s h = execute-IsConsistent correlation s h
call-IsConsistent (stops correlation) s h = stop-IsConsistent correlation s h
call-IsConsistent (changes config) s h = configuration_changed-IsConsistent config s h
call-IsConsistent (responds id) s h = respond_interaction-IsConsistent id s h
call-IsConsistent (acknowledges id) s h = acknowledge_interaction-IsConsistent id s h
call-IsConsistent (settles correlation ending checkpoint) s h =
    settle-IsConsistent correlation ending checkpoint s h
call-IsConsistent (opens id correlation) s h = open_interaction-IsConsistent id correlation s h
call-IsConsistent fails s h = fail-IsConsistent s h

calls_from-IsConsistent :
    (cs : List Call) (s : Lifecycle) → IsConsistent s → IsConsistent (after_calls cs s)
calls_from-IsConsistent [] s h = h
calls_from-IsConsistent (c ∷ cs) s h =
    calls_from-IsConsistent cs (after (call c s)) (call-IsConsistent c s h)

-- After any calls on a new generation, throwing or not: a Run is correlated exactly while it executes or
-- is cancelled; then the generation is ready and has not failed; a Run is cancelled and an Interaction
-- is pending only with the capability for it; and after a failure no Interaction is pending.
pub after_calls-IsConsistent :
    (cs : List Call) (required : List Text)
    → IsConsistent (after_calls cs (create_lifecycle required))
unfolding create_lifecycle
after_calls-IsConsistent cs required =
    calls_from-IsConsistent cs (create_lifecycle required) (record {
      correlated = refl;
      configured = refl;
      run_ended = refl;
      interactions_ended = refl;
      cancellable = refl;
      interactive = refl;
    })

-- ===== src/Worker/LifecycleFinal.antt =====
-- What `SessionGenerationLifecycle` of packages/worker-protocol/src/index.ts never undoes: a correlation
-- that was used, and the last state of an Interaction.
use pidex.Prelude.{
  ◌≡◌, refl, sym, ap, ◌∙◌, Bool, true, false, not, List, [], ◌∷◌, map, Option, some, if◌then◌else◌,
  Text, text_eq, text_eq_refl, text_eq_sound, arith, inl, inr, Bool-cases,
}
use pidex.Worker.Lifecycle.{
  GenerationInteractionState, open_, applying, responded, withdrawn, Code, generation_not_ready,
  generation_failed, run_correlation_reused, Lifecycle, done, threw, after, has, is_truthy,
  get_interaction, set_interaction, ready, execute, stop, settle, configuration_changed,
  open_interaction, respond_interaction, acknowledge_interaction, withdraw, fail,
}
use pidex.Worker.LifecycleHistory.{
  Call, readies, executes, stops, changes, responds, acknowledges, settles, opens, fails, call,
  after_calls,
}

call-used :
    (c : Call) (correlation : Text) (s : Lifecycle)
    → has correlation s.used_correlations ≡ true
    → has correlation (after (call c s)).used_correlations ≡ true
unfolding ready execute stop settle configuration_changed open_interaction respond_interaction
    acknowledge_interaction fail
call-used c correlation s h = ground arith

calls-used :
    (cs : List Call) (correlation : Text) (s : Lifecycle)
    → has correlation s.used_correlations ≡ true
    → has correlation (after_calls cs s).used_correlations ≡ true
calls-used [] correlation s h = h
calls-used (c ∷ cs) correlation s h =
    calls-used cs correlation (after (call c s)) (call-used c correlation s h)

execute_used :
    (correlation : Text) (s : Lifecycle)
    → has correlation s.used_correlations ≡ true
    → (code : Code) × (execute correlation s ≡ threw code s)
unfolding execute
execute_used correlation s h = (
  if not (is_truthy s.config_generation)
      then generation_not_ready
      else if s.has_failed
      then generation_failed
      else run_correlation_reused,
  ground arith,
)

execute_done :
    (correlation : Text) (s t : Lifecycle)
    → execute correlation s ≡ done t
    → has correlation t.used_correlations ≡ true
unfolding execute
execute_done correlation s t e = ground (arith, text_eq_refl correlation)

-- A Run that started is never started again, by any later call: the second `execute` throws, and changes
-- nothing.
pub execute-once :
    (correlation : Text) (s t : Lifecycle) (cs : List Call)
    → execute correlation s ≡ done t
    → (code : Code) × (execute correlation (after_calls cs t) ≡ threw code (after_calls cs t))
execute-once correlation s t cs e =
    execute_used correlation (after_calls cs t)
      (calls-used cs correlation t (execute_done correlation s t e))

abbrev pub is_final : Option GenerationInteractionState → Bool
is_final (some responded) = true
is_final (some withdrawn) = true
is_final _ = false

get-set_other :
    (id other : Text) (state : GenerationInteractionState)
    (xs : List (Text × GenerationInteractionState))
    → text_eq id other ≡ false
    → get_interaction id (set_interaction other state xs) ≡ get_interaction id xs
unfolding get_interaction set_interaction
get-set_other id other state [] e = ground arith
get-set_other id other state ((key, old) ∷ xs) e = elim (Bool-cases (text_eq other key)) [
  | inl same ↦
      let named : other ≡ key = text_eq_sound other key same in
      let apart : text_eq id key ≡ false = ap (text_eq id) (sym named) ∙ e in ground arith
  | inr differs ↦ ground (arith, get-set_other id other state xs e)
]

get-set_final :
    (id other : Text) (state : GenerationInteractionState)
    (xs : List (Text × GenerationInteractionState))
    → is_final (get_interaction id xs) ≡ true
    → is_final (get_interaction other xs) ≡ false
    → get_interaction id (set_interaction other state xs) ≡ get_interaction id xs
get-set_final id other state xs h k = elim (Bool-cases (text_eq id other)) [
  | inl same ↦
      let named : id ≡ other = text_eq_sound id other same in
      let alike : get_interaction id xs ≡ get_interaction other xs =
        ap (λ (t : Text). get_interaction t xs) named in
      absurd (ground arith)
  | inr differs ↦ get-set_other id other state xs differs
]

get-withdraw_final :
    (id : Text) (xs : List (Text × GenerationInteractionState))
    → is_final (get_interaction id xs) ≡ true
    → get_interaction id (map withdraw xs) ≡ get_interaction id xs
unfolding get_interaction
get-withdraw_final id [] h = refl
get-withdraw_final id ((key, state) ∷ xs) h = ground (arith, get-withdraw_final id xs)

call-final :
    (c : Call) (id : Text) (s : Lifecycle)
    → is_final (get_interaction id s.interactions) ≡ true
    → get_interaction id (after (call c s)).interactions ≡ get_interaction id s.interactions
unfolding ready execute stop settle configuration_changed open_interaction respond_interaction
    acknowledge_interaction fail
call-final (responds other) id s h =
    ground (arith, get-set_final id other applying s.interactions h)
call-final (acknowledges other) id s h =
    ground (arith, get-set_final id other responded s.interactions h)
call-final (opens other correlation) id s h =
    ground (arith, get-set_final id other open_ s.interactions h)
call-final fails id s h = get-withdraw_final id s.interactions h
call-final (readies capabilities config) id s h = ground arith
call-final (executes correlation) id s h = ground arith
call-final (stops correlation) id s h = ground arith
call-final (changes config) id s h = ground arith
call-final (settles correlation ending checkpoint) id s h = ground arith

-- An Interaction that was responded to or withdrawn stays so, after any calls.
after_calls-is_final :
    (cs : List Call) (id : Text) (s : Lifecycle)
    → is_final (get_interaction id s.interactions) ≡ true
    → get_interaction id (after_calls cs s).interactions ≡ get_interaction id s.interactions
after_calls-is_final [] id s h = refl
after_calls-is_final (c ∷ cs) id s h =
    let kept = call-final c id s h in
    after_calls-is_final cs id (after (call c s)) (ap is_final kept ∙ h) ∙ kept

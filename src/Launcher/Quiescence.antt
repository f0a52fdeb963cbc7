-- ===== src/Launcher/Quiescence.antt =====
-- The wait of `activateSignedRelease` of packages/launcher/src/release-update.ts ends.
use pidex.Prelude.{
  ℕ, zero, suc, ◌+◌, ◌*◌, ◌≤◌, ◌<◌, ◌≡◌, refl, subst, inl, inr, Bool, true, false, Option, none,
  some, arith, leb, if◌then◌else◌, Bool-cases, Text, any,
}
use pidex.Launcher.Program.{Ending, unfinished, Program, finish, perform, ◌>>◌, Behaviour}
use pidex.Launcher.Activation.{
  forcing, flushing, activating, starting, checking, pointing, stopping, ActivationEffect, slept,
  sessions_stopped, flushed, data_activated, release_started, pointer_written, stopped,
  ActivationFailure, ReleaseManifest, ActivationHooks, need_as, need, ask_as, unsupported, refuse,
  assert_compatible, pause_time, quiesce, switch_release, recover, is_data_activated, with_recovery,
  resuming, resume_always, quiescence_timeout_ms, activate_signed_release,
}

-- A clock that does not go back, and on which a pause takes the time that it was given.
pub record IsSteady (clock : ℕ → ℕ) (deadline : ℕ) : Type 0 where
  pub onward : (n : ℕ) → clock n ≤ clock (n + 1)
  pub pauses :
      (k : ℕ)
      → clock (2 * k + 2) + pause_time deadline (clock (2 * k + 2)) ≤ clock (2 * (k + 1) + 1)

abbrev pub is_done : Ending ActivationFailure → Bool
is_done unfinished = false
is_done _ = true

record Ends (p : Program ActivationEffect ActivationFailure) : Type 0 where
  pub done : is_done p.ended ≡ true

Ends-then : (p q : Program ActivationEffect ActivationFailure) → Ends p → Ends q → Ends (p >> q)
Ends-then p q h k = record { done = let a = h.done in let b = k.done in ground arith }

ask-Ends : (x : Behaviour) → Ends (ask_as x)
ask-Ends x = record { done = ground arith }

need-Ends : (x : Behaviour) (e : ActivationEffect) → Ends (need_as x e)
need-Ends x e = record { done = ground arith }

-- A round takes a millisecond at least.
quiesce-Ends :
    (h : ActivationHooks) (fuel k deadline : ℕ)
    → IsSteady h.clock deadline
    → deadline < fuel + h.clock (2 * k + 1)
    → 0 < fuel
    → Ends (quiesce h fuel k deadline)
unfolding quiesce
quiesce-Ends h zero k deadline c m s = absurd (omega arith)
quiesce-Ends h (suc fuel) k deadline c m s =
    let onward : h.clock (2 * k + 1) ≤ h.clock (2 * k + 2) =
      subst (λ (n : ℕ). h.clock (2 * k + 1) ≤ h.clock n) (omega arith) (c.onward (2 * k + 1)) in
    let pauses = c.pauses k in
    Ends-then _ _ (ask-Ends (h.behaves (checking k))) (elim (Bool-cases (h.is_quiescent k)) [
      | inl e ↦ rw e (record { done = refl })
      | inr e ↦ elim (Bool-cases (leb deadline (h.clock (2 * k + 1)))) [
        | inl f ↦ rw (e, f) (record { done = refl })
        | inr f ↦
            let early : h.clock (2 * k + 1) < deadline = ground arith in
            rw (e, f)
              (Ends-then (perform (slept (pause_time deadline (h.clock (2 * k + 2))))) _
                (record { done = refl })
                (quiesce-Ends h fuel (k + 1) deadline c (omega arith) (omega arith)))
      ]
    ])

switch_release-Ends :
    (h : ActivationHooks) (id : Text) (force : Bool) (timeout_ms : ℕ)
    → IsSteady h.clock (h.clock 0 + timeout_ms)
    → Ends (switch_release h id force timeout_ms)
unfolding switch_release
switch_release-Ends h id force timeout_ms c =
    let first = c.onward 0 in
    Ends-then _ _
      (Ends-then _ _
        (Ends-then _ _
          (Ends-then _ _
            (Ends-then (if force then need h forcing sessions_stopped else finish) _
              (record { done = ground arith })
              (quiesce-Ends h (timeout_ms + 1) 0 (h.clock 0 + timeout_ms) c (omega arith)
                (omega arith)))
            (need-Ends (h.behaves flushing) flushed))
          (need-Ends (h.behaves activating) data_activated))
        (need-Ends (h.behaves starting) release_started))
      (need-Ends (h.behaves (pointing id)) (pointer_written id))

recover-Ends :
    (h : ActivationHooks) (previous : Option Text) (activated : Bool) (cause : ActivationFailure)
    → Ends (recover h previous activated cause)
unfolding recover
recover-Ends h none activated cause = record { done = ground arith }
recover-Ends h (some id) activated cause = record { done = ground arith }

with_recovery-Ends :
    (h : ActivationHooks) (previous : Option Text) (p : Program ActivationEffect ActivationFailure)
    → Ends p
    → Ends (with_recovery h previous p)
unfolding with_recovery
with_recovery-Ends h previous p e = record {
  done = ground (
    arith,
    e.done,
    λ (c : ActivationFailure).
        let after = recover-Ends h previous (any is_data_activated p.effects) c in after.done,
  );
}

resume_always-Ends :
    (x : Behaviour) (p : Program ActivationEffect ActivationFailure)
    → Ends p
    → Ends (resume_always x p)
unfolding resume_always
resume_always-Ends x p e = record { done = ground (arith, e.done) }

-- On a clock that does not go back, and on which a pause takes its time, every activation returns or
-- throws within the rounds of its timeout in milliseconds plus one.
pub activate_signed_release-is_done :
    (h : ActivationHooks) (previous : Option Text) (manifest : ReleaseManifest) (force : Bool)
    (timeout_ms : Option ℕ)
    → IsSteady h.clock (h.clock 0 + quiescence_timeout_ms timeout_ms)
    → is_done (activate_signed_release h previous manifest force timeout_ms).ended ≡ true
unfolding activate_signed_release assert_compatible resume_always
activate_signed_release-is_done h previous manifest force timeout_ms c =
    let whole =
      Ends-then _
        (resume_always (h.behaves resuming) (
          with_recovery h previous
            (switch_release h manifest.release_id force (quiescence_timeout_ms timeout_ms))))
        (Ends-then (refuse (unsupported manifest h.current_heads)) (need h stopping stopped)
          (record { done = ground arith }) (need-Ends (h.behaves stopping) stopped))
        (resume_always-Ends (h.behaves resuming) _ (
          with_recovery-Ends h previous
            (switch_release h manifest.release_id force (quiescence_timeout_ms timeout_ms))
            (switch_release-Ends h manifest.release_id force (quiescence_timeout_ms timeout_ms)
              c))) in
    whole.done

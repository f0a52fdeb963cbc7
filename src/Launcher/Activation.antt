-- ===== src/Launcher/Activation.antt =====
-- `activateSignedRelease` and `assertPiArtifactCompatibility` of
-- packages/launcher/src/release-update.ts, as effects of the hooks. The pointer is written whole or not at all, since it is renamed into its place.
use pidex.Prelude.{
  ℕ, zero, suc, ◌+◌, ◌-◌, ◌*◌, max, min, Bool, true, false, not, ◌&&◌, ◌||◌, ◌==◌, List, [], ◌∷◌,
  ◌++◌, map, Option, none, some, leb, if◌then◌else◌, any, select, Text,
}
use pidex.Launcher.Program.{
  returned, unfinished, threw, Program, finish, perform, throw, exhausted, ◌>>◌, Behaviour, throws,
}

abbrev pub default_quiescence_timeout_ms : ℕ
default_quiescence_timeout_ms = 15 * 60000

abbrev pub quiescence_poll_interval_ms : ℕ
quiescence_poll_interval_ms = 100

-- A call of a hook, or a write of the pointer.
pub data HookPoint : Type 0 where
  stopping forcing flushing activating starting accepting rolling_back resuming : HookPoint
  checking : ℕ → HookPoint
  pointing : Text → HookPoint

pub data ActivationEffect : Type 0 where
  stopped resumed sessions_stopped flushed data_activated release_started : ActivationEffect
  data_rolled_back : ActivationEffect
  pointer_written : Text → ActivationEffect
  slept : ℕ → ActivationEffect

pub data ActivationFailure : Type 0 where
  quiescence_timeout : ActivationFailure
  pi_artifact_incompatible : List Text → ActivationFailure
  managed_restore_required : ActivationFailure
  hook : ℕ → ActivationFailure

pub record PiArtifactHead : Type 0 where
  pub session_id : Text
  pub generation : ℕ

pub record ConverterPath : Type 0 where
  pub from : ℕ
  pub to : ℕ

-- What is read of a manifest here; no paths are an empty list.
pub record ReleaseManifest : Type 0 where
  pub release_id : Text
  pub pi_artifact_generation : Option ℕ
  pub pi_artifact_compatibility : List ConverterPath

-- `clock n` is the reading of `now()` at its n-th call, from 0, and `is_quiescent k` the k-th answer.
pub record ActivationHooks : Type 0 where
  pub behaves : HookPoint → Behaviour
  pub current_heads : List PiArtifactHead
  pub is_quiescent : ℕ → Bool
  pub has_accepted_new_mutations : Bool
  pub clock : ℕ → ℕ

abbrev pub need_as : Behaviour → ActivationEffect → Program ActivationEffect ActivationFailure
need_as (throws c) e = throw (hook c)
need_as _ e = perform e

abbrev pub need :
    ActivationHooks → HookPoint → ActivationEffect → Program ActivationEffect ActivationFailure
need h p e = need_as (h.behaves p) e

abbrev pub ask_as : Behaviour → Program ActivationEffect ActivationFailure
ask_as (throws c) = throw (hook c)
ask_as _ = finish

abbrev pub is_supported_by : ℕ → List ConverterPath → PiArtifactHead → Bool
is_supported_by target paths head =
    (head.generation == target)
    || any (λ (p : ConverterPath). (p.from == head.generation) && (p.to == target)) paths

abbrev pub is_supported : ReleaseManifest → PiArtifactHead → Bool
is_supported manifest head = elim manifest.pi_artifact_generation [
  | none ↦ false
  | some target ↦ is_supported_by target manifest.pi_artifact_compatibility head
]

-- The heads that the release cannot read.
unfoldable pub unsupported : ReleaseManifest → List PiArtifactHead → List PiArtifactHead
unsupported manifest heads = select (λ (x : PiArtifactHead). not (is_supported manifest x)) heads

abbrev pub refuse : List PiArtifactHead → Program ActivationEffect ActivationFailure
refuse [] = finish
refuse (head ∷ heads) =
    throw (pi_artifact_incompatible (map (λ (x : PiArtifactHead). x.session_id) (head ∷ heads)))

unfoldable pub assert_compatible :
    ReleaseManifest → List PiArtifactHead → Program ActivationEffect ActivationFailure
unfolding unsupported
assert_compatible manifest heads = refuse (unsupported manifest heads)

abbrev pub pause_time : ℕ → ℕ → ℕ
pause_time deadline now = min quiescence_poll_interval_ms (max 1 (deadline - now))

-- The loop that waits for the Host to be quiescent, from its round k.
unfoldable pub quiesce : ActivationHooks → ℕ → ℕ → ℕ → Program ActivationEffect ActivationFailure
quiesce h zero k deadline = exhausted
quiesce h (suc fuel) k deadline =
    let rest = quiesce h fuel (k + 1) deadline in
    ask_as (h.behaves (checking k))
    >> (if h.is_quiescent k
        then finish
        else if leb deadline (h.clock (2 * k + 1))
        then throw quiescence_timeout
        else perform (slept (pause_time deadline (h.clock (2 * k + 2)))) >> rest)

-- The body of `try`; a round of the loop takes a millisecond at least.
unfoldable pub switch_release :
    ActivationHooks → Text → Bool → ℕ → Program ActivationEffect ActivationFailure
unfolding quiesce
switch_release h release_id force timeout_ms =
    (if force then need h forcing sessions_stopped else finish)
    >> quiesce h (timeout_ms + 1) 0 (h.clock 0 + timeout_ms)
    >> need h flushing flushed
    >> need h activating data_activated
    >> need h starting release_started
    >> need h (pointing release_id) (pointer_written release_id)

abbrev pub is_data_activated : ActivationEffect → Bool
is_data_activated data_activated = true
is_data_activated _ = false

abbrev pub restore_pointer :
    ActivationHooks → Option Text → Program ActivationEffect ActivationFailure
restore_pointer h none = finish
restore_pointer h (some release_id) = need h (pointing release_id) (pointer_written release_id)

-- `catch`: `activated` says that `activateData` gave a rollback.
unfoldable pub recover :
    ActivationHooks
    → Option Text
    → Bool
    → ActivationFailure
    → Program ActivationEffect ActivationFailure
recover h previous activated cause =
    ask_as (h.behaves accepting)
    >> (if h.has_accepted_new_mutations
        then throw managed_restore_required
        else (if activated then need h rolling_back data_rolled_back else finish)
          >> restore_pointer h previous
          >> throw cause)

-- What `catch` adds to the body.
unfoldable pub with_recovery :
    ActivationHooks
    → Option Text
    → Program ActivationEffect ActivationFailure
    → Program ActivationEffect ActivationFailure
unfolding recover
with_recovery h previous p = elim p.ended [
  | returned ↦ p
  | unfinished ↦ p
  | threw cause ↦
      let after = recover h previous (any is_data_activated p.effects) cause in
      record { effects = p.effects ++ after.effects; ended = after.ended }
]

-- `finally`: what `resumeAcceptingMutations` throws takes the place of the end before.
unfoldable pub resume_always :
    Behaviour
    → Program ActivationEffect ActivationFailure
    → Program ActivationEffect ActivationFailure
resume_always x p = elim p.ended [
  | returned ↦ p >> need_as x resumed
  | unfinished ↦ p
  | threw cause ↦
      let after = need_as x resumed >> throw cause in
      record { effects = p.effects ++ after.effects; ended = after.ended }
]

abbrev pub quiescence_timeout_ms : Option ℕ → ℕ
quiescence_timeout_ms none = default_quiescence_timeout_ms
quiescence_timeout_ms (some ms) = ms

-- `previous` is the release that the pointer names before.
unfoldable pub activate_signed_release :
    ActivationHooks
    → Option Text
    → ReleaseManifest
    → Bool
    → Option ℕ
    → Program ActivationEffect ActivationFailure
unfolding assert_compatible switch_release with_recovery resume_always
activate_signed_release h previous manifest force timeout_ms =
    assert_compatible manifest h.current_heads
    >> need h stopping stopped
    >> resume_always (h.behaves resuming) (
        with_recovery h previous
          (switch_release h manifest.release_id force (quiescence_timeout_ms timeout_ms)))

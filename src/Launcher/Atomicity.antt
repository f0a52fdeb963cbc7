-- ===== src/Launcher/Atomicity.antt =====
-- What `activateSignedRelease` of packages/launcher/src/release-update.ts leaves behind: the pointer, the
-- data, and whether mutations are accepted.
use pidex.Prelude.{
  ℕ, zero, suc, ◌+◌, ◌*◌, ◌≡◌, refl, sym, ap, subst, ◌∙◌, inl, inr, Bool, true, false, ◌||◌, List,
  [], ◌∷◌, ◌++◌, Option, some, arith, leb, if◌then◌else◌, Bool-cases, append-nil, any, Text,
}
use pidex.Launcher.Program.{
  returned, threw, Program, finish, perform, throw, ◌>>◌, Behaviour, returns, absent, throws,
  Ending-cases, then_returned, then_unfinished, then_threw,
}
use pidex.Launcher.Activation.{
  forcing, flushing, activating, starting, checking, pointing, ActivationEffect, stopped, resumed,
  sessions_stopped, flushed, data_activated, release_started, data_rolled_back, pointer_written,
  slept, ActivationFailure, quiescence_timeout, hook, ActivationHooks, need_as, need, ask_as,
  pause_time, quiesce, switch_release, is_data_activated,
}

-- The pointer, whether the data are those of the new release, and whether mutations are accepted.
pub record Condition : Type 0 where
  pub pointer : Option Text
  pub migrated : Bool
  pub open_ : Bool

abbrev pub apply : ActivationEffect → Condition → Condition
apply stopped s = record s { open_ = false }
apply resumed s = record s { open_ = true }
apply data_activated s = record s { migrated = true }
apply data_rolled_back s = record s { migrated = false }
apply (pointer_written release_id) s = record s { pointer = some release_id }
apply _ s = s

abbrev pub apply_all : List ActivationEffect → Condition → Condition
apply_all [] s = s
apply_all (e ∷ es) s = apply_all es (apply e s)

pub apply_all-append :
    (es fs : List ActivationEffect) (s : Condition)
    → apply_all (es ++ fs) s ≡ apply_all fs (apply_all es s)
apply_all-append [] fs s = refl
apply_all-append (e ∷ es) fs s = apply_all-append es fs (apply e s)

any-append :
    (es fs : List ActivationEffect)
    → any is_data_activated (es ++ fs) ≡ any is_data_activated es || any is_data_activated fs
any-append [] fs = refl
any-append (e ∷ es) fs = ground (arith, any-append es fs)

-- A program that changes the data at most, and only by their activation.
pub record IsQuiet (p : Program ActivationEffect ActivationFailure) : Type 0 where
  pub leaves :
      (s : Condition)
      → apply_all p.effects s
        ≡ record s { migrated = s.migrated || any is_data_activated p.effects }

pub IsQuiet-then :
    (p q : Program ActivationEffect ActivationFailure) → IsQuiet p → IsQuiet q → IsQuiet (p >> q)
IsQuiet-then p q h k = elim (Ending-cases p.ended) [
  | inl e ↦ subst IsQuiet (sym (then_returned p q e)) (record {
    leaves = λ (s : Condition).
        apply_all-append p.effects q.effects s
        ∙ ap (apply_all q.effects) (h.leaves s)
        ∙ k.leaves (record s { migrated = s.migrated || any is_data_activated p.effects })
        ∙ ap (λ (b : Bool). record s { migrated = b })
            (let joined = any-append p.effects q.effects in ground arith);
  })
  | inr (inl e) ↦ subst IsQuiet (sym (then_unfinished p q e)) h
  | inr (inr (cause, e)) ↦ subst IsQuiet (sym (then_threw p q cause e)) h
]

-- An effect that changes neither the pointer nor the acceptance.
abbrev is_quiet : ActivationEffect → Bool
is_quiet sessions_stopped = true
is_quiet flushed = true
is_quiet data_activated = true
is_quiet release_started = true
is_quiet (slept ms) = true
is_quiet _ = false

pub perform-IsQuiet : (e : ActivationEffect) → is_quiet e ≡ true → IsQuiet (perform e)
perform-IsQuiet e h = record { leaves = λ s. ground arith }

pub need-IsQuiet :
    (x : Behaviour) (e : ActivationEffect) → is_quiet e ≡ true → IsQuiet (need_as x e)
need-IsQuiet x e h = record { leaves = λ s. ground arith }

pub finish-IsQuiet : IsQuiet finish
finish-IsQuiet = record { leaves = λ s. ground arith }

pub throw-IsQuiet : (c : ActivationFailure) → IsQuiet (throw c)
throw-IsQuiet c = record { leaves = λ s. ground arith }

pub ask-IsQuiet : (x : Behaviour) → IsQuiet (ask_as x)
ask-IsQuiet x = record { leaves = λ s. ground arith }

quiesce-IsQuiet : (h : ActivationHooks) (fuel k deadline : ℕ) → IsQuiet (quiesce h fuel k deadline)
unfolding quiesce
quiesce-IsQuiet h zero k deadline = record { leaves = λ s. ground arith }
quiesce-IsQuiet h (suc fuel) k deadline =
    IsQuiet-then _ _ (ask-IsQuiet (h.behaves (checking k))) (elim (Bool-cases (h.is_quiescent k)) [
      | inl e ↦ rw e finish-IsQuiet
      | inr e ↦ elim (Bool-cases (leb deadline (h.clock (2 * k + 1)))) [
        | inl f ↦ rw (e, f) (throw-IsQuiet quiescence_timeout)
        | inr f ↦
            rw (e, f)
              (IsQuiet-then _ _
                (perform-IsQuiet (slept (pause_time deadline (h.clock (2 * k + 2)))) refl)
                (quiesce-IsQuiet h fuel (k + 1) deadline))
      ]
    ])

-- The body of `try` up to the data, and up to the pointer.
abbrev wind_down : ActivationHooks → Bool → ℕ → Program ActivationEffect ActivationFailure
wind_down h force timeout_ms =
    (if force then need h forcing sessions_stopped else finish)
    >> quiesce h (timeout_ms + 1) 0 (h.clock 0 + timeout_ms)
    >> need h flushing flushed

abbrev prepare : ActivationHooks → Bool → ℕ → Program ActivationEffect ActivationFailure
prepare h force timeout_ms =
    wind_down h force timeout_ms
    >> need h activating data_activated
    >> need h starting release_started

force-IsQuiet :
    (h : ActivationHooks) (force : Bool)
    → IsQuiet (if force then need h forcing sessions_stopped else finish)
force-IsQuiet h true = need-IsQuiet (h.behaves forcing) sessions_stopped refl
force-IsQuiet h false = finish-IsQuiet

prepare-IsQuiet :
    (h : ActivationHooks) (force : Bool) (timeout_ms : ℕ) → IsQuiet (prepare h force timeout_ms)
prepare-IsQuiet h force timeout_ms =
    IsQuiet-then _ _
      (IsQuiet-then _ _
        (IsQuiet-then _ _
          (IsQuiet-then _ _ (force-IsQuiet h force)
            (quiesce-IsQuiet h (timeout_ms + 1) 0 (h.clock 0 + timeout_ms)))
          (need-IsQuiet (h.behaves flushing) flushed refl))
        (need-IsQuiet (h.behaves activating) data_activated refl))
      (need-IsQuiet (h.behaves starting) release_started refl)

-- Where the second part returns, both did.
activates :
    (p q : Program ActivationEffect ActivationFailure) (x : Behaviour)
    → (p >> need_as x data_activated >> q).ended ≡ returned
    → any is_data_activated (p >> need_as x data_activated >> q).effects ≡ true
activates p q x e = ground (
  arith,
  any-append p.effects (data_activated ∷ []),
  any-append (p.effects ++ data_activated ∷ []) q.effects,
)

-- The switch is whole, or leaves the data at most, where they were activated.
pub record Switches (id : Text) (p : Program ActivationEffect ActivationFailure) : Type 0 where
  pub succeeded :
      p.ended ≡ returned
      → (s : Condition) → apply_all p.effects s ≡ record s { pointer = some id; migrated = true }
  pub failed : (c : ActivationFailure) → p.ended ≡ threw c → IsQuiet p

Switches-last :
    (id : Text) (p : Program ActivationEffect ActivationFailure) (x : Behaviour)
    → IsQuiet p
    → (p.ended ≡ returned → any is_data_activated p.effects ≡ true)
    → Switches id (p >> need_as x (pointer_written id))
Switches-last id p x h k = elim (Ending-cases p.ended) [
  | inl e ↦
      subst (Switches id) (sym (then_returned p (need_as x (pointer_written id)) e))
        (last_returned x (k e))
  | inr (inl e) ↦
      subst (Switches id) (sym (then_unfinished p (need_as x (pointer_written id)) e)) (record {
        succeeded = λ (f : p.ended ≡ returned). absurd (ground arith);
        failed = λ c f. h;
      })
  | inr (inr (cause, e)) ↦
      subst (Switches id) (sym (then_threw p (need_as x (pointer_written id)) cause e)) (record {
        succeeded = λ (f : p.ended ≡ returned). absurd (ground arith);
        failed = λ c f. h;
      })
]
  where
    last_written :
        any is_data_activated p.effects ≡ true
        → Switches id (record { effects = p.effects ++ pointer_written id ∷ []; ended = returned })
    last_written a = record {
      succeeded = λ f (s : Condition).
          apply_all-append p.effects (pointer_written id ∷ []) s
          ∙ ap (apply_all (pointer_written id ∷ [])) (h.leaves s)
          ∙ ap (λ (b : Bool). record s { pointer = some id; migrated = b }) (ground arith);
      failed = λ d (f : returned ≡ threw d). absurd (ground arith);
    }

    last_returned :
        (y : Behaviour)
        → any is_data_activated p.effects ≡ true
        → Switches id (record {
          effects = p.effects ++ (need_as y (pointer_written id)).effects;
          ended = (need_as y (pointer_written id)).ended;
        })
    last_returned returns a = last_written a
    last_returned absent a = last_written a
    last_returned (throws c) a = record {
      succeeded = λ (f : threw (hook c) ≡ returned). absurd (ground arith);
      failed = λ d f.
          subst
            (λ (es : List ActivationEffect).
              IsQuiet (record { effects = es; ended = threw (hook c) }))
            (sym (append-nil p.effects)) (record { leaves = h.leaves });
    }

pub switch_release-Switches :
    (h : ActivationHooks) (id : Text) (force : Bool) (timeout_ms : ℕ)
    → Switches id (switch_release h id force timeout_ms)
unfolding switch_release
switch_release-Switches h id force timeout_ms =
    Switches-last id (prepare h force timeout_ms) (h.behaves (pointing id))
      (prepare-IsQuiet h force timeout_ms)
      (activates (wind_down h force timeout_ms) (need h starting release_started)
        (h.behaves activating))

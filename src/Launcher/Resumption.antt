-- ===== src/Launcher/Resumption.antt =====
-- Whether the Host accepts mutations behind `coordinatePlannedLifecycle` of
-- packages/launcher/src/host-lifecycle.ts, and that its wait for the work ends.
use pidex.Prelude.{
  ℕ, zero, suc, ◌+◌, ◌*◌, ◌≡◌, refl, sym, ap, subst, ◌∙◌, inl, inr, Bool, true, false, List, [],
  ◌∷◌, ◌++◌, Option, none, some, arith, if◌then◌else◌, Bool-cases, Text, ◌⊎◌, append-nil,
}
use pidex.Launcher.Program.{
  returned, threw, Program, finish, ◌>>◌, Behaviour, returns, absent, throws, Ending-cases,
  then_returned, then_unfinished, then_threw,
}
use pidex.Launcher.HostLifecycle.{
  polling, reporting, removing, forcing, flushing, restarting, unregistering, unblocking,
  distrusting, rejecting, resuming, LifecycleEffect, rejected, resumed, force_stopped, flushed,
  restarted, registration_removed, rules_removed, trust_removed, reported, path_removed, Cause,
  hook, force_not_confirmed, purge_not_confirmed, Hooks, Paths, UninstallLayout, LifecycleOperation,
  stop, restart, uninstall, purge, Options, holds_durable, call_as, call_required, need, ask_as,
  round_ends, drain, remove_paths, remove_installation, remove_layout, carry_out, attempt_operation,
  drain_timeout_ms, is_restart, refuses_force, refuses_purge, resume_after, resume_failed,
  coordinate_planned_lifecycle,
}

abbrev accepts_behind : Bool → LifecycleEffect → Bool
accepts_behind b rejected = false
accepts_behind b resumed = true
accepts_behind b _ = b

-- Whether mutations are accepted behind some effects.
abbrev pub accepts : Bool → List LifecycleEffect → Bool
accepts b [] = b
accepts b (e ∷ es) = accepts (accepts_behind b e) es

accepts-append :
    (b : Bool) (es fs : List LifecycleEffect) → accepts b (es ++ fs) ≡ accepts (accepts b es) fs
accepts-append b [] fs = refl
accepts-append b (e ∷ es) fs = accepts-append (accepts_behind b e) es fs

-- A program that leaves it as it is.
record IsNeutral (p : Program LifecycleEffect Cause) : Type 0 where
  pub leaves : (b : Bool) → accepts b p.effects ≡ b

IsNeutral-then :
    (p q : Program LifecycleEffect Cause) → IsNeutral p → IsNeutral q → IsNeutral (p >> q)
IsNeutral-then p q h k = elim (Ending-cases p.ended) [
  | inl e ↦ subst IsNeutral (sym (then_returned p q e)) (record {
    leaves = λ b.
        accepts-append b p.effects q.effects
        ∙ ap (λ (c : Bool). accepts c q.effects) (h.leaves b)
        ∙ k.leaves b;
  })
  | inr (inl e) ↦ subst IsNeutral (sym (then_unfinished p q e)) h
  | inr (inr (cause, e)) ↦ subst IsNeutral (sym (then_threw p q cause e)) h
]

-- An effect that is none of the two.
abbrev is_neutral : LifecycleEffect → Bool
is_neutral rejected = false
is_neutral resumed = false
is_neutral _ = true

call-IsNeutral :
    (x : Behaviour) (e : LifecycleEffect) → is_neutral e ≡ true → IsNeutral (call_as x e)
call-IsNeutral x e h = record { leaves = λ b. ground arith }

need-IsNeutral :
    (x : Behaviour) (e : LifecycleEffect) → is_neutral e ≡ true → IsNeutral (call_required x e)
need-IsNeutral x e h = record { leaves = λ b. ground arith }

round_ends-IsNeutral :
    (deadline now later : ℕ) (work : List Text) (rest : Program LifecycleEffect Cause)
    → IsNeutral rest
    → IsNeutral (round_ends deadline now later work rest)
round_ends-IsNeutral deadline now later work rest h = record {
  leaves = λ b. let k = h.leaves b in ground arith;
}

drain-IsNeutral : (h : Hooks) (fuel k deadline : ℕ) → IsNeutral (drain h fuel k deadline)
unfolding drain
drain-IsNeutral h zero k deadline = record { leaves = λ b. refl }
drain-IsNeutral h (suc fuel) k deadline =
    IsNeutral-then _ _
      (IsNeutral-then (ask_as (h.behaves (polling k))) _ (record { leaves = λ b. ground arith })
        (need-IsNeutral (h.behaves (reporting k)) (reported (h.work k)) refl))
      (round_ends-IsNeutral deadline (h.clock (2 * k + 1)) (h.clock (2 * k + 2)) (h.work k)
        (drain h fuel (k + 1) deadline) (drain-IsNeutral h fuel (k + 1) deadline))

remove_paths-IsNeutral :
    (h : Hooks) (paths : Paths) (layout : UninstallLayout) (ps : List Text)
    → IsNeutral (remove_paths h paths layout ps)
unfolding remove_paths
remove_paths-IsNeutral h paths layout [] = record { leaves = λ b. refl }
remove_paths-IsNeutral h paths layout (p ∷ ps) = elim (Bool-cases (holds_durable paths layout p)) [
  | inl held ↦ rw (held, remove_paths) (record { leaves = λ b. refl })
  | inr free ↦
      rw (free, remove_paths)
        (IsNeutral-then _ _ (need-IsNeutral (h.behaves (removing p)) (path_removed p) refl)
          (remove_paths-IsNeutral h paths layout ps))
]

remove_installation-IsNeutral :
    (h : Hooks) (paths : Paths) (layout : UninstallLayout) (purges : Bool)
    → IsNeutral (remove_installation h paths layout purges)
unfolding remove_installation
remove_installation-IsNeutral h paths layout purges =
    IsNeutral-then _ _
      (IsNeutral-then _ _
        (IsNeutral-then _ _
          (IsNeutral-then _ _ (call-IsNeutral (h.behaves unregistering) registration_removed refl)
            (call-IsNeutral (h.behaves unblocking) rules_removed refl))
          (call-IsNeutral (h.behaves distrusting) trust_removed refl))
        (remove_paths-IsNeutral h paths layout
          (layout.install_directory ∷ layout.disposable_caches)))
      (record { leaves = λ b. ground arith })

remove_layout-IsNeutral :
    (h : Hooks) (paths : Paths) (x : Option UninstallLayout) (purges : Bool)
    → IsNeutral (remove_layout h paths x purges)
unfolding remove_layout
remove_layout-IsNeutral h paths none purges = record { leaves = λ b. refl }
remove_layout-IsNeutral h paths (some layout) purges =
    remove_installation-IsNeutral h paths layout purges

carry_out-IsNeutral :
    (h : Hooks) (paths : Paths) (o : Options) (x : LifecycleOperation)
    → IsNeutral (carry_out h paths o x)
unfolding carry_out
carry_out-IsNeutral h paths o stop = record { leaves = λ b. refl }
carry_out-IsNeutral h paths o restart = call-IsNeutral (h.behaves restarting) restarted refl
carry_out-IsNeutral h paths o uninstall = remove_layout-IsNeutral h paths o.layout false
carry_out-IsNeutral h paths o purge = remove_layout-IsNeutral h paths o.layout true

attempt_operation-IsNeutral :
    (h : Hooks) (paths : Paths) (o : Options) → IsNeutral (attempt_operation h paths o)
unfolding attempt_operation
attempt_operation-IsNeutral h paths o =
    IsNeutral-then _ _
      (IsNeutral-then _ _
        (IsNeutral-then (if o.force then need h forcing force_stopped else finish) _
          (record { leaves = λ b. ground arith })
          (drain-IsNeutral h (drain_timeout_ms o + 1) 0 (h.clock 0 + drain_timeout_ms o)))
        (need-IsNeutral (h.behaves flushing) flushed refl))
      (carry_out-IsNeutral h paths o o.operation)

-- The resumption itself threw what is thrown: that of a restart, or both that a failure calls for.
abbrev pub IsRefused : Behaviour → Behaviour → LifecycleOperation → Cause → Type 0
IsRefused first second x c =
    (d : ℕ) × (c ≡ hook d)
    × (((is_restart x ≡ true) × (first ≡ throws d))
        ⊎ ((a : ℕ) × (first ≡ throws a) × (second ≡ throws d)))

-- Mutations are accepted behind a program that threw, unless the resumption did, and behind one that
-- returned where it was a restart.
pub record IsResumed (first second : Behaviour) (x : LifecycleOperation)
    (p : Program LifecycleEffect Cause) : Type 0 where
  pub failed :
      (c : Cause) → p.ended ≡ threw c → (accepts true p.effects ≡ true) ⊎ IsRefused first second x c
  pub succeeded : p.ended ≡ returned → accepts true p.effects ≡ is_restart x

-- The two ways in which mutations are resumed, behind effects that leave them rejected.
resume_restart-IsResumed :
    (first second : Behaviour) (x : LifecycleOperation) (es : List LifecycleEffect)
    → ((b : Bool) → accepts b es ≡ b)
    → IsResumed first second x
        (record (resume_after first second x (record { effects = es; ended = returned })) {
          effects =
              rejected
              ∷ (resume_after first second x (record { effects = es; ended = returned })).effects;
        })
unfolding resume_after
resume_restart-IsResumed first second x es h =
    let left = h false in
    let more = accepts-append false es (resumed ∷ []) in
    let none_more = append-nil es in
    record { failed = λ (c : Cause) e. ground arith; succeeded = λ e. ground arith }

resume_failed-IsResumed :
    (first second : Behaviour) (x : LifecycleOperation) (c : Cause) (es : List LifecycleEffect)
    → ((b : Bool) → accepts b es ≡ b)
    → IsResumed first second x (record {
      effects = rejected ∷ es ++ (resume_failed first second c).effects;
      ended = (resume_failed first second c).ended;
    })
resume_failed-IsResumed (throws a) (throws d) x c es h = record {
  failed = λ (k : Cause) (e : threw (hook d) ≡ threw k). inr (d, ground arith, inr (a, refl, refl));
  succeeded = λ (e : threw (hook d) ≡ returned). absurd (ground arith);
}
resume_failed-IsResumed first second x c es h =
    let left = h false in
    let more = accepts-append false es (resumed ∷ []) in
    record { failed = λ (k : Cause) e. ground arith; succeeded = λ e. ground arith }

resume_after-IsResumed :
    (first second : Behaviour) (x : LifecycleOperation) (p : Program LifecycleEffect Cause)
    → IsNeutral p
    → IsResumed first second x (record (resume_after first second x p) {
      effects = rejected ∷ (resume_after first second x p).effects;
    })
unfolding resume_after
resume_after-IsResumed first second x p h = elim (Ending-cases p.ended) [
  | inl e ↦ rw e (resume_restart-IsResumed first second x p.effects h.leaves)
  | inr (inl e) ↦
      rw e
        (record { failed = λ c f. absurd (ground arith); succeeded = λ f. absurd (ground arith) })
  | inr (inr (c, e)) ↦ rw e (resume_failed-IsResumed first second x c p.effects h.leaves)
]

rejecting-IsResumed :
    (first second : Behaviour) (x : LifecycleOperation) (b : Behaviour)
    (p : Program LifecycleEffect Cause)
    → IsNeutral p
    → IsResumed first second x (call_required b rejected >> resume_after first second x p)
rejecting-IsResumed first second x returns p h = resume_after-IsResumed first second x p h
rejecting-IsResumed first second x absent p h = resume_after-IsResumed first second x p h
rejecting-IsResumed first second x (throws c) p h = record {
  failed = λ d e. inl refl;
  succeeded = λ (e : threw (hook c) ≡ returned). absurd (ground arith);
}

-- The Host accepts mutations behind a lifecycle operation that failed, at whatever hook, confirmation or
-- deadline, and behind a restart, unless what is thrown comes from the resumption itself: that of the
-- restart, or the second of the two that a failure calls for where the first threw as well. Behind a stop,
-- an uninstallation or a purge that succeeded it does not accept them.
pub coordinate_planned_lifecycle-IsResumed :
    (h : Hooks) (paths : Paths) (o : Options)
    → IsResumed
        (h.behaves (resuming 0))
        (h.behaves (resuming 1))
        o.operation
        (coordinate_planned_lifecycle h paths o)
unfolding coordinate_planned_lifecycle
coordinate_planned_lifecycle-IsResumed h paths o = elim (Bool-cases (refuses_force o)) [
  | inl e ↦
      rw (e, coordinate_planned_lifecycle)
        (record {
          failed = λ d f. inl refl;
          succeeded = λ (f : threw force_not_confirmed ≡ returned). absurd (ground arith);
        })
  | inr e ↦ elim (Bool-cases (refuses_purge o)) [
    | inl f ↦
        rw (e, f, coordinate_planned_lifecycle)
          (record {
            failed = λ d g. inl refl;
            succeeded = λ (g : threw purge_not_confirmed ≡ returned). absurd (ground arith);
          })
    | inr f ↦
        rw (e, f, coordinate_planned_lifecycle)
          (rejecting-IsResumed (h.behaves (resuming 0)) (h.behaves (resuming 1)) o.operation
            (h.behaves rejecting) (attempt_operation h paths o)
            (attempt_operation-IsNeutral h paths o))
  ]
]

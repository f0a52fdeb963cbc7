-- ===== src/Launcher/Waiting.antt =====
-- The wait of `coordinatePlannedLifecycle` of packages/launcher/src/host-lifecycle.ts ends.
use pidex.Prelude.{
  ℕ, zero, suc, ◌+◌, ◌*◌, ◌≤◌, ◌<◌, ◌≡◌, refl, subst, inl, inr, Bool, true, false, List, [], ◌∷◌,
  Option, none, some, arith, leb, if◌then◌else◌, Bool-cases, Text,
}
use pidex.Launcher.Program.{Ending, unfinished, Program, finish, perform, ◌>>◌, Behaviour}
use pidex.Launcher.HostLifecycle.{
  polling, reporting, removing, forcing, flushing, restarting, unregistering, unblocking,
  distrusting, rejecting, resuming, LifecycleEffect, rejected, force_stopped, flushed, restarted,
  reported, slept, path_removed, registration_removed, rules_removed, trust_removed, Cause, Hooks,
  Paths, UninstallLayout, LifecycleOperation, stop, restart, uninstall, purge, Options,
  holds_durable, call_as, call_required, need, ask_as, round_ends, sleep_time, drain, remove_paths,
  remove_installation, remove_layout, carry_out, attempt_operation, drain_timeout_ms, refuses_force,
  refuses_purge, resume_after, coordinate_planned_lifecycle,
}

-- A clock that does not go back, and on which a sleep takes the time that it was given.
pub record IsClock (clock : ℕ → ℕ) (deadline : ℕ) : Type 0 where
  pub onward : (n : ℕ) → clock n ≤ clock (n + 1)
  pub sleeps :
      (k : ℕ)
      → clock (2 * k + 2) + sleep_time deadline (clock (2 * k + 2)) ≤ clock (2 * (k + 1) + 1)

abbrev pub is_finished : Ending Cause → Bool
is_finished unfinished = false
is_finished _ = true

record Finishes (p : Program LifecycleEffect Cause) : Type 0 where
  pub finished : is_finished p.ended ≡ true

Finishes-then : (p q : Program LifecycleEffect Cause) → Finishes p → Finishes q → Finishes (p >> q)
Finishes-then p q h k = record {
  finished = let a = h.finished in let b = k.finished in ground arith;
}

ask-Finishes : (x : Behaviour) → Finishes (ask_as x)
ask-Finishes x = record { finished = ground arith }

need-Finishes : (x : Behaviour) (e : LifecycleEffect) → Finishes (call_required x e)
need-Finishes x e = record { finished = ground arith }

call-Finishes : (x : Behaviour) (e : LifecycleEffect) → Finishes (call_as x e)
call-Finishes x e = record { finished = ground arith }

round_ends-Finishes :
    (deadline now later : ℕ) (work : List Text) (rest : Program LifecycleEffect Cause)
    → (now < deadline → Finishes rest)
    → Finishes (round_ends deadline now later work rest)
round_ends-Finishes deadline now later [] rest h = record { finished = refl }
round_ends-Finishes deadline now later (w ∷ ws) rest h = elim (Bool-cases (leb deadline now)) [
  | inl e ↦ rw e (record { finished = refl })
  | inr e ↦ rw e (
      Finishes-then (perform (slept (sleep_time deadline later))) rest (record { finished = refl })
        (h (ground arith)))
]

sleep_time_some : (deadline now : ℕ) → 1 ≤ sleep_time deadline now
sleep_time_some deadline now = omega arith

-- A round takes a millisecond at least.
drain-Finishes :
    (h : Hooks) (fuel k deadline : ℕ)
    → IsClock h.clock deadline
    → deadline < fuel + h.clock (2 * k + 1)
    → 0 < fuel
    → Finishes (drain h fuel k deadline)
unfolding drain
drain-Finishes h zero k deadline c m s = absurd (omega arith)
drain-Finishes h (suc fuel) k deadline c m s =
    let onward : h.clock (2 * k + 1) ≤ h.clock (2 * k + 2) =
      subst (λ (n : ℕ). h.clock (2 * k + 1) ≤ h.clock n) (omega arith) (c.onward (2 * k + 1)) in
    let sleeps = c.sleeps k in
    let some_ = sleep_time_some deadline (h.clock (2 * k + 2)) in
    Finishes-then _ _
      (Finishes-then _ _ (ask-Finishes (h.behaves (polling k)))
        (need-Finishes (h.behaves (reporting k)) (reported (h.work k))))
      (round_ends-Finishes deadline (h.clock (2 * k + 1)) (h.clock (2 * k + 2)) (h.work k)
        (drain h fuel (k + 1) deadline)
        (λ (l : h.clock (2 * k + 1) < deadline).
          drain-Finishes h fuel (k + 1) deadline c (omega arith) (omega arith)))

remove_paths-Finishes :
    (h : Hooks) (paths : Paths) (layout : UninstallLayout) (ps : List Text)
    → Finishes (remove_paths h paths layout ps)
unfolding remove_paths
remove_paths-Finishes h paths layout [] = record { finished = refl }
remove_paths-Finishes h paths layout (p ∷ ps) = elim (Bool-cases (holds_durable paths layout p)) [
  | inl held ↦ rw (held, remove_paths) (record { finished = refl })
  | inr free ↦
      rw (free, remove_paths)
        (Finishes-then _ _ (need-Finishes (h.behaves (removing p)) (path_removed p))
          (remove_paths-Finishes h paths layout ps))
]

remove_installation-Finishes :
    (h : Hooks) (paths : Paths) (layout : UninstallLayout) (purges : Bool)
    → Finishes (remove_installation h paths layout purges)
unfolding remove_installation
remove_installation-Finishes h paths layout purges =
    Finishes-then _ _
      (Finishes-then _ _
        (Finishes-then _ _
          (Finishes-then _ _ (call-Finishes (h.behaves unregistering) registration_removed)
            (call-Finishes (h.behaves unblocking) rules_removed))
          (call-Finishes (h.behaves distrusting) trust_removed))
        (remove_paths-Finishes h paths layout
          (layout.install_directory ∷ layout.disposable_caches)))
      (record { finished = ground arith })

remove_layout-Finishes :
    (h : Hooks) (paths : Paths) (x : Option UninstallLayout) (purges : Bool)
    → Finishes (remove_layout h paths x purges)
unfolding remove_layout
remove_layout-Finishes h paths none purges = record { finished = refl }
remove_layout-Finishes h paths (some layout) purges =
    remove_installation-Finishes h paths layout purges

carry_out-Finishes :
    (h : Hooks) (paths : Paths) (o : Options) (x : LifecycleOperation)
    → Finishes (carry_out h paths o x)
unfolding carry_out
carry_out-Finishes h paths o stop = record { finished = refl }
carry_out-Finishes h paths o restart = call-Finishes (h.behaves restarting) restarted
carry_out-Finishes h paths o uninstall = remove_layout-Finishes h paths o.layout false
carry_out-Finishes h paths o purge = remove_layout-Finishes h paths o.layout true

attempt_operation-Finishes :
    (h : Hooks) (paths : Paths) (o : Options)
    → IsClock h.clock (h.clock 0 + drain_timeout_ms o)
    → Finishes (attempt_operation h paths o)
unfolding attempt_operation
attempt_operation-Finishes h paths o c =
    let first = c.onward 0 in
    Finishes-then _ _
      (Finishes-then _ _
        (Finishes-then (if o.force then need h forcing force_stopped else finish) _
          (record { finished = ground arith })
          (drain-Finishes h (drain_timeout_ms o + 1) 0 (h.clock 0 + drain_timeout_ms o) c
            (omega arith) (omega arith)))
        (need-Finishes (h.behaves flushing) flushed))
      (carry_out-Finishes h paths o o.operation)

resume_after-Finishes :
    (first second : Behaviour) (x : LifecycleOperation) (b : Behaviour)
    (p : Program LifecycleEffect Cause)
    → Finishes p
    → Finishes (call_required b rejected >> resume_after first second x p)
unfolding resume_after
resume_after-Finishes first second x b p h = record {
  finished = let a = h.finished in ground arith;
}

-- On a clock that does not go back, and on which a sleep takes its time, every lifecycle operation
-- ends: it returns or throws within the rounds of its timeout in milliseconds plus one.
pub coordinate_planned_lifecycle-is_finished :
    (h : Hooks) (paths : Paths) (o : Options)
    → IsClock h.clock (h.clock 0 + drain_timeout_ms o)
    → is_finished (coordinate_planned_lifecycle h paths o).ended ≡ true
unfolding coordinate_planned_lifecycle
coordinate_planned_lifecycle-is_finished h paths o c = elim (Bool-cases (refuses_force o)) [
  | inl e ↦ rw (e, coordinate_planned_lifecycle) refl
  | inr e ↦ elim (Bool-cases (refuses_purge o)) [
    | inl f ↦ rw (e, f, coordinate_planned_lifecycle) refl
    | inr f ↦
        let there =
          resume_after-Finishes (h.behaves (resuming 0)) (h.behaves (resuming 1)) o.operation
            (h.behaves rejecting) (attempt_operation h paths o)
            (attempt_operation-Finishes h paths o c) in
        rw (e, f, coordinate_planned_lifecycle) there.finished
  ]
]

-- ===== src/Launcher/OrderlyRun.antt =====
-- The run of `coordinatePlannedLifecycle` of packages/launcher/src/host-lifecycle.ts is in order.
use pidex.Prelude.{
  ℕ, zero, suc, ◌+◌, ◌*◌, ◌≡◌, refl, inl, inr, Bool, true, false, List, [], ◌∷◌, Option, none, some,
  arith, leb, if◌then◌else◌, Bool-cases, Text, append-nil,
}
use pidex.Launcher.Program.{
  returned, unfinished, threw, Program, finish, perform, ◌>>◌, Behaviour, returns, absent, throws,
}
use pidex.Launcher.HostLifecycle.{
  polling, reporting, removing, forcing, flushing, restarting, unregistering, unblocking,
  distrusting, rejecting, resuming, LifecycleEffect, rejected, resumed, force_stopped, flushed,
  restarted, registration_removed, rules_removed, trust_removed, durable_removed, reported, slept,
  path_removed, Cause, drain_timeout, layout_required, holds_durable_data, Hooks, Paths,
  UninstallLayout, LifecycleOperation, stop, restart, uninstall, purge, Options, holds_durable,
  call_required, need, is_none_left, round_ends, sleep_time, drain, remove_paths,
  remove_installation, remove_layout, carry_out, attempt_operation, drain_timeout_ms, is_purge,
  refuses_force, refuses_purge, resume_after, coordinate_planned_lifecycle,
}
use pidex.Launcher.Orderly.{
  Phase, working, drained, stopped, is_confirmed_purge, run, run-append, Leads, Leads-then,
  Leads-call, Leads-need, Leads-ask,
}

abbrev phase_of : List Text → Phase
phase_of work = if is_none_left work then drained else working

round_ends-Leads :
    (paths : Paths) (o : Options) (deadline now later : ℕ) (work : List Text)
    (rest : Program LifecycleEffect Cause)
    → Leads paths o working rest drained
    → Leads paths o (phase_of work) (round_ends deadline now later work rest) drained
round_ends-Leads paths o deadline now later [] rest h = record {
  somewhere = (drained, refl);
  there = λ _. refl;
}
round_ends-Leads paths o deadline now later (w ∷ ws) rest h = elim (Bool-cases (leb deadline now)) [
  | inl e ↦ rw e (record {
    somewhere = (working, refl);
    there = λ (f : threw drain_timeout ≡ returned). absurd (ground arith);
  })
  | inr e ↦ rw e (
      Leads-then paths o working working drained (perform (slept (sleep_time deadline later))) rest
        (record { somewhere = (working, refl); there = λ _. refl }) h)
]

drain-Leads :
    (h : Hooks) (paths : Paths) (o : Options) (fuel k deadline : ℕ) (a : Phase)
    → Leads paths o a (drain h fuel k deadline) drained
unfolding drain
drain-Leads h paths o zero k deadline a = record {
  somewhere = (a, refl);
  there = λ (f : unfinished ≡ returned). absurd (ground arith);
}
drain-Leads h paths o (suc fuel) k deadline a =
    Leads-then paths o a (phase_of (h.work k)) drained _ _
      (Leads-then paths o a a (phase_of (h.work k)) _ _
        (Leads-ask paths o a (h.behaves (polling k)))
        (Leads-need paths o a (phase_of (h.work k)) (h.behaves (reporting k)) (reported (h.work k))
          refl))
      (round_ends-Leads paths o deadline (h.clock (2 * k + 1)) (h.clock (2 * k + 2)) (h.work k)
        (drain h fuel (k + 1) deadline) (drain-Leads h paths o fuel (k + 1) deadline working))

remove_paths-Leads :
    (h : Hooks) (paths : Paths) (o : Options) (layout : UninstallLayout) (ps : List Text)
    → o.layout ≡ some layout
    → Leads paths o stopped (remove_paths h paths layout ps) stopped
unfolding remove_paths
remove_paths-Leads h paths o layout [] e = record { somewhere = (stopped, refl); there = λ _. refl }
remove_paths-Leads h paths o layout (p ∷ ps) e = elim (Bool-cases (holds_durable paths layout p)) [
  | inl held ↦
      rw (held, remove_paths)
        (record {
          somewhere = (stopped, refl);
          there = λ (f : threw holds_durable_data ≡ returned). absurd (ground arith);
        })
  | inr free ↦
      rw (free, remove_paths)
        (Leads-then paths o stopped stopped stopped _ _
          (Leads-need paths o stopped stopped (h.behaves (removing p)) (path_removed p)
            (ground arith))
          (remove_paths-Leads h paths o layout ps e))
]

Leads-finish : (paths : Paths) (o : Options) (a : Phase) → Leads paths o a finish a
Leads-finish paths o a = record { somewhere = (a, refl); there = λ _. refl }

remove_durable-Leads :
    (h : Hooks) (paths : Paths) (o : Options) (layout : UninstallLayout) (purges : Bool)
    → (purges ≡ true → is_confirmed_purge o ≡ true)
    → Leads paths o stopped
        (if purges
          then need h (removing (paths.resolve layout.durable_data_directory)) durable_removed
          else finish)
        stopped
remove_durable-Leads h paths o layout true k =
    let purge_ = k refl in
    Leads-need paths o stopped stopped
      (h.behaves (removing (paths.resolve layout.durable_data_directory))) durable_removed
      (ground arith)
remove_durable-Leads h paths o layout false k = Leads-finish paths o stopped

remove_installation-Leads :
    (h : Hooks) (paths : Paths) (o : Options) (layout : UninstallLayout) (purges : Bool)
    → o.layout ≡ some layout
    → (purges ≡ true → is_confirmed_purge o ≡ true)
    → Leads paths o stopped (remove_installation h paths layout purges) stopped
unfolding remove_installation
remove_installation-Leads h paths o layout purges e k =
    Leads-then paths o stopped stopped stopped _ _
      (Leads-then paths o stopped stopped stopped _ _
        (Leads-then paths o stopped stopped stopped _ _
          (Leads-then paths o stopped stopped stopped _ _
            (Leads-call paths o stopped (h.behaves unregistering) registration_removed refl)
            (Leads-call paths o stopped (h.behaves unblocking) rules_removed refl))
          (Leads-call paths o stopped (h.behaves distrusting) trust_removed refl))
        (remove_paths-Leads h paths o layout (layout.install_directory ∷ layout.disposable_caches)
          e))
      (remove_durable-Leads h paths o layout purges k)

remove_layout-Leads :
    (h : Hooks) (paths : Paths) (o : Options) (x : Option UninstallLayout) (purges : Bool)
    → o.layout ≡ x
    → (purges ≡ true → is_confirmed_purge o ≡ true)
    → Leads paths o stopped (remove_layout h paths x purges) stopped
unfolding remove_layout
remove_layout-Leads h paths o none purges e k = record {
  somewhere = (stopped, refl);
  there = λ (f : threw layout_required ≡ returned). absurd (ground arith);
}
remove_layout-Leads h paths o (some layout) purges e k =
    remove_installation-Leads h paths o layout purges e k

carry_out-Leads :
    (h : Hooks) (paths : Paths) (o : Options) (x : LifecycleOperation)
    → o.operation ≡ x
    → (is_purge o.operation ≡ true → is_confirmed_purge o ≡ true)
    → Leads paths o stopped (carry_out h paths o x) stopped
unfolding carry_out
carry_out-Leads h paths o stop e k = Leads-finish paths o stopped
carry_out-Leads h paths o restart e k =
    Leads-call paths o stopped (h.behaves restarting) restarted (ground arith)
carry_out-Leads h paths o uninstall e k =
    remove_layout-Leads h paths o o.layout false refl (λ (f : false ≡ true). absurd (ground arith))
carry_out-Leads h paths o purge e k =
    remove_layout-Leads h paths o o.layout true refl (λ _. k (ground arith))

force-Leads :
    (h : Hooks) (paths : Paths) (o : Options) (forced : Bool)
    → Leads paths o working (if forced then need h forcing force_stopped else finish) working
force-Leads h paths o true =
    Leads-need paths o working working (h.behaves forcing) force_stopped refl
force-Leads h paths o false = Leads-finish paths o working

attempt_operation-Leads :
    (h : Hooks) (paths : Paths) (o : Options)
    → (is_purge o.operation ≡ true → is_confirmed_purge o ≡ true)
    → Leads paths o working (attempt_operation h paths o) stopped
unfolding attempt_operation
attempt_operation-Leads h paths o k =
    Leads-then paths o working stopped stopped _ _
      (Leads-then paths o working drained stopped _ _
        (Leads-then paths o working working drained _ _ (force-Leads h paths o o.force) (
          drain-Leads h paths o (drain_timeout_ms o + 1) 0 (h.clock 0 + drain_timeout_ms o)
            working))
        (Leads-need paths o drained stopped (h.behaves flushing) flushed refl))
      (carry_out-Leads h paths o o.operation refl k)

abbrev pub is_in_order : Option Phase → Bool
is_in_order none = false
is_in_order (some phase) = true

resume_after-in_order :
    (paths : Paths) (o : Options) (first second : Behaviour) (x : LifecycleOperation) (a : Phase)
    (p : Program LifecycleEffect Cause)
    → run paths o (some working) p.effects ≡ some a
    → is_in_order (run paths o (some working) (resume_after first second x p).effects) ≡ true
unfolding resume_after
resume_after-in_order paths o first second x a p e =
    let more = run-append paths o (some working) p.effects (resumed ∷ []) in
    let none_more = append-nil p.effects in ground arith

abbrev pub starts : Paths → Options → List LifecycleEffect → Bool
starts paths o es = is_in_order (run paths o (some working) es)

rejecting-in_order :
    (h : Hooks) (paths : Paths) (o : Options) (first second x : Behaviour)
    → (is_purge o.operation ≡ true → is_confirmed_purge o ≡ true)
    → starts paths o
        (call_required x rejected
          >> resume_after first second o.operation (attempt_operation h paths o)).effects
      ≡ true
rejecting-in_order h paths o first second returns k =
    let (a, e) = (attempt_operation-Leads h paths o k).somewhere in
    resume_after-in_order paths o first second o.operation a (attempt_operation h paths o) e
rejecting-in_order h paths o first second absent k =
    let (a, e) = (attempt_operation-Leads h paths o k).somewhere in
    resume_after-in_order paths o first second o.operation a (attempt_operation h paths o) e
rejecting-in_order h paths o first second (throws c) k = refl

-- Whatever the hooks do, the workers are stopped only behind a poll that found no work, and the Host is
-- restarted and anything removed only behind that; no path is removed that holds the durable data; and
-- these are removed in a purge alone, one that was confirmed and whose consequences were acknowledged.
pub coordinate_planned_lifecycle-is_in_order :
    (h : Hooks) (paths : Paths) (o : Options)
    → starts paths o (coordinate_planned_lifecycle h paths o).effects ≡ true
unfolding coordinate_planned_lifecycle
coordinate_planned_lifecycle-is_in_order h paths o = elim (Bool-cases (refuses_force o)) [
  | inl e ↦ rw (e, coordinate_planned_lifecycle) refl
  | inr e ↦ elim (Bool-cases (refuses_purge o)) [
    | inl f ↦ rw (e, f, coordinate_planned_lifecycle) refl
    | inr f ↦
        rw (e, f, coordinate_planned_lifecycle)
          (rejecting-in_order h paths o (h.behaves (resuming 0)) (h.behaves (resuming 1))
            (h.behaves rejecting) (λ (g : is_purge o.operation ≡ true). ground arith))
  ]
]

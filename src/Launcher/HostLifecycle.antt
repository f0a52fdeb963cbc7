-- ===== src/Launcher/HostLifecycle.antt =====
-- `coordinatePlannedLifecycle` and `removeInstallation` of packages/launcher/src/host-lifecycle.ts. What
-- the hooks do, what the polls find and what the clock shows is given; each of them may throw.
use pidex.Prelude.{
  ℕ, zero, suc, ◌+◌, ◌-◌, ◌*◌, max, min, Bool, true, false, not, ◌&&◌, ◌||◌, List, [], ◌∷◌, ◌++◌,
  Option, none, some, leb, ◌==◌, if◌then◌else◌, Text, text_eq, codes,
}
use pidex.Launcher.Program.{
  returned, unfinished, threw, Program, finish, perform, throw, exhausted, ◌>>◌, Behaviour, returns,
  absent, throws,
}

abbrev pub default_drain_timeout_ms : ℕ
default_drain_timeout_ms = 15 * 60000

abbrev pub drain_poll_interval_ms : ℕ
drain_poll_interval_ms = 100

-- A call of a hook, or of `rm`.
pub data Point : Type 0 where
  rejecting forcing flushing restarting unregistering unblocking distrusting : Point
  polling reporting : ℕ → Point
  removing : Text → Point
  resuming : ℕ → Point

pub data LifecycleEffect : Type 0 where
  rejected resumed force_stopped flushed restarted registration_removed rules_removed :
      LifecycleEffect
  trust_removed durable_removed : LifecycleEffect
  reported : List Text → LifecycleEffect
  slept : ℕ → LifecycleEffect
  path_removed : Text → LifecycleEffect

pub data Cause : Type 0 where
  drain_timeout force_not_confirmed purge_not_confirmed layout_required holds_durable_data : Cause
  hook : ℕ → Cause

-- `clock n` is the reading of `now()` at its n-th call, from 0.
pub record Hooks : Type 0 where
  pub behaves : Point → Behaviour
  pub work : ℕ → List Text
  pub clock : ℕ → ℕ

-- node:path
pub record Paths : Type 0 where
  pub resolve : Text → Text
  pub relative : Text → Text → Text
  pub separator : Text

pub record UninstallLayout : Type 0 where
  pub install_directory : Text
  pub disposable_caches : List Text
  pub durable_data_directory : Text

pub data LifecycleOperation : Type 0 where
  stop restart uninstall purge : LifecycleOperation

pub record Options : Type 0 where
  pub operation : LifecycleOperation
  pub force : Bool
  pub force_confirmation : Option Text
  pub timeout_ms : Option ℕ
  pub layout : Option UninstallLayout
  pub purge_confirmation : Option Text
  pub backup_consequences_acknowledged : Bool

abbrev pub is_text : Option Text → Text → Bool
is_text none t = false
is_text (some u) t = text_eq u t

abbrev pub starts_with : Text → Text → Bool
starts_with [] t = true
starts_with (c ∷ cs) [] = false
starts_with (c ∷ cs) (d ∷ ds) = (c == d) && starts_with cs ds

unfoldable pub is_same_or_descendant_path : Paths → Text → Text → Bool
is_same_or_descendant_path paths parent candidate =
    let relative_path = paths.relative parent candidate in
    text_eq relative_path []
    || (not (text_eq relative_path (codes ".."))
        && not (starts_with (codes ".." ++ paths.separator) relative_path))

-- A path holds the durable data, by the test before it is removed.
unfoldable pub holds_durable : Paths → UninstallLayout → Text → Bool
unfolding is_same_or_descendant_path
holds_durable paths layout path =
    is_same_or_descendant_path paths (paths.resolve path)
      (paths.resolve layout.durable_data_directory)

abbrev pub call_as : Behaviour → LifecycleEffect → Program LifecycleEffect Cause
call_as returns e = perform e
call_as absent e = finish
call_as (throws c) e = throw (hook c)

abbrev pub call : Hooks → Point → LifecycleEffect → Program LifecycleEffect Cause
call h p e = call_as (h.behaves p) e

-- A hook that is always there.
abbrev pub call_required : Behaviour → LifecycleEffect → Program LifecycleEffect Cause
call_required (throws c) e = throw (hook c)
call_required _ e = perform e

abbrev pub need : Hooks → Point → LifecycleEffect → Program LifecycleEffect Cause
need h p e = call_required (h.behaves p) e

-- A hook that answers and does nothing.
abbrev pub ask_as : Behaviour → Program LifecycleEffect Cause
ask_as (throws c) = throw (hook c)
ask_as _ = finish

abbrev pub is_none_left : List Text → Bool
is_none_left [] = true
is_none_left (w ∷ ws) = false

abbrev pub sleep_time : ℕ → ℕ → ℕ
sleep_time deadline now = min drain_poll_interval_ms (max 1 (deadline - now))

-- The end of a round: no work is left, the deadline is reached, or the next round comes.
abbrev pub round_ends :
    ℕ → ℕ → ℕ → List Text → Program LifecycleEffect Cause → Program LifecycleEffect Cause
round_ends deadline now then_ work rest =
    if is_none_left work
    then finish
    else if leb deadline now
    then throw drain_timeout
    else perform (slept (sleep_time deadline then_)) >> rest

-- The loop that waits for the work to end, from its round k.
unfoldable pub drain : Hooks → ℕ → ℕ → ℕ → Program LifecycleEffect Cause
drain h zero k deadline = exhausted
drain h (suc fuel) k deadline =
    let rest = drain h fuel (k + 1) deadline in
    ask_as (h.behaves (polling k))
    >> need h (reporting k) (reported (h.work k))
    >> round_ends deadline (h.clock (2 * k + 1)) (h.clock (2 * k + 2)) (h.work k) rest

unfoldable pub remove_paths :
    Hooks → Paths → UninstallLayout → List Text → Program LifecycleEffect Cause
unfolding holds_durable
remove_paths h paths layout [] = finish
remove_paths h paths layout (path ∷ rest) =
    let others = remove_paths h paths layout rest in
    if holds_durable paths layout path
    then throw holds_durable_data
    else need h (removing path) (path_removed path) >> others

unfoldable pub remove_installation :
    Hooks → Paths → UninstallLayout → Bool → Program LifecycleEffect Cause
unfolding remove_paths
remove_installation h paths layout purges =
    call h unregistering registration_removed
    >> call h unblocking rules_removed
    >> call h distrusting trust_removed
    >> remove_paths h paths layout (layout.install_directory ∷ layout.disposable_caches)
    >> (if purges
        then need h (removing (paths.resolve layout.durable_data_directory)) durable_removed
        else finish)

unfoldable pub remove_layout :
    Hooks → Paths → Option UninstallLayout → Bool → Program LifecycleEffect Cause
unfolding remove_installation
remove_layout h paths none purges = throw layout_required
remove_layout h paths (some layout) purges = remove_installation h paths layout purges

unfoldable pub carry_out :
    Hooks → Paths → Options → LifecycleOperation → Program LifecycleEffect Cause
unfolding remove_layout
carry_out h paths o stop = finish
carry_out h paths o restart = call h restarting restarted
carry_out h paths o uninstall = remove_layout h paths o.layout false
carry_out h paths o purge = remove_layout h paths o.layout true

abbrev pub drain_timeout_ms : Options → ℕ
drain_timeout_ms o = elim o.timeout_ms [
  | none ↦ default_drain_timeout_ms
  | some ms ↦ min ms default_drain_timeout_ms
]

-- The body of `try`. A round of the loop takes a millisecond at least.
unfoldable pub attempt_operation : Hooks → Paths → Options → Program LifecycleEffect Cause
unfolding drain carry_out
attempt_operation h paths o =
    (if o.force then need h forcing force_stopped else finish)
    >> drain h (drain_timeout_ms o + 1) 0 (h.clock 0 + drain_timeout_ms o)
    >> need h flushing flushed
    >> carry_out h paths o o.operation

abbrev pub is_restart : LifecycleOperation → Bool
is_restart restart = true
is_restart _ = false

abbrev pub is_purge : LifecycleOperation → Bool
is_purge purge = true
is_purge _ = false

-- `catch`: where the resumption throws, `finally` tries it again.
abbrev pub resume_failed : Behaviour → Behaviour → Cause → Program LifecycleEffect Cause
resume_failed (throws d) second c = call_required second resumed >> throw (hook d)
resume_failed _ second c = perform resumed >> throw c

-- `catch` and `finally`, by what the first call of `resumeMutations` does and the second.
unfoldable pub resume_after :
    Behaviour
    → Behaviour
    → LifecycleOperation
    → Program LifecycleEffect Cause
    → Program LifecycleEffect Cause
resume_after first second operation p = elim p.ended [
  | returned ↦ if is_restart operation then p >> call_required first resumed else p
  | unfinished ↦ p
  | threw c ↦
      let resumption = resume_failed first second c in
      record { effects = p.effects ++ resumption.effects; ended = resumption.ended }
]

abbrev pub refuses_force : Options → Bool
refuses_force o = o.force && not (is_text o.force_confirmation (codes "FORCE STOP PIDEX"))

abbrev pub refuses_purge : Options → Bool
refuses_purge o =
    is_purge o.operation
    && (not (is_text o.purge_confirmation (codes "PURGE PIDEX AND MANAGED BACKUPS"))
        || not o.backup_consequences_acknowledged)

unfoldable pub coordinate_planned_lifecycle :
    Hooks → Paths → Options → Program LifecycleEffect Cause
unfolding attempt_operation resume_after
coordinate_planned_lifecycle h paths o =
    if refuses_force o
    then throw force_not_confirmed
    else if refuses_purge o
    then throw purge_not_confirmed
    else need h rejecting rejected
      >> resume_after (h.behaves (resuming 0)) (h.behaves (resuming 1)) o.operation
          (attempt_operation h paths o)

-- ===== src/Authority/Operation.antt =====
-- The operations of packages/host/src/store.ts that change the authority, as one data type, and what the
-- authority is after a sequence of them: all but `initializeGeneration` and the catalog that the
-- constructor writes. An operation that throws leaves it as it was.
use pidex.Prelude.{Text, ℕ, Bool, List, [], ◌∷◌, Option}
use pidex.Authority.Schema.{Availability, Workspace, InteractionState, TerminalCause, Authority}
use pidex.Authority.Result.{after}
use pidex.Authority.Command.{
  Hashes, SubmitCommand, SteerCommand, StopCommand, RenameCommand, AvailabilityCommand,
  MarkReadCommand,
}
use pidex.Authority.Runs.{submit_run, dispatch_next, hold_queued, release_run, cancel_queued_run}
use pidex.Authority.Interactions.{
  NewInteraction, create_interaction, reserve_interaction, settle_interaction,
}
use pidex.Authority.Control.{
  accept_steering, mark_steering, mark_run_steering_unapplied, accept_stop,
}
use pidex.Authority.Settlement.{
  TerminalState, Attempt, Recovery, settle_run, reconcile_accepted_runs, recover_worker_loss,
  reset_residency_on_startup,
}
use pidex.Authority.Sessions.{
  create_session, rename_session, change_session_availability, mark_session_read,
  set_session_sleeping,
}
use pidex.Authority.Timeline.{TimelineEvent, apply_timeline_event, finalize_assistant}
use pidex.Authority.Fork.{ForkRequest, fork_session, create_project_from_directory}
use pidex.Authority.Synchronization.{rotate_synchronization_epoch}
use pidex.Authority.Maintenance.{Disk, run_maintenance, retain_object_reference}

pub data Operation : Type 0 where
  creates : Option ℕ → Option ℕ → Option Workspace → ℕ → ℕ → Operation
  renames : RenameCommand → ℕ → Operation
  changes_availability : AvailabilityCommand → Availability → ℕ → Operation
  marks_read : MarkReadCommand → Bool → ℕ → Operation
  sleeps : ℕ → ℕ → Operation
  submits : SubmitCommand → ℕ → ℕ → ℕ → Operation
  dispatches : ℕ → Operation
  holds : ℕ → Operation
  releases : ℕ → Operation
  cancels : ℕ → ℕ → Operation
  steers : SteerCommand → Option ℕ → ℕ → ℕ → Operation
  marks_steering : ℕ → Bool → Operation
  unapplies_steering : ℕ → Operation
  stops : StopCommand → Option ℕ → ℕ → ℕ → Operation
  settles : ℕ → TerminalState → Text → Option Text → Attempt → ℕ → Operation
  reconciles : Recovery → ℕ → Operation
  recovers_worker : ℕ → ℕ → ℕ → Operation
  resets_residency : Operation
  asks : NewInteraction → ℕ → ℕ → Operation
  reserves : ℕ → ℕ → Operation
  settles_interaction :
      ℕ → InteractionState → InteractionState → TerminalCause → ℕ → Bool → Operation
  records : ℕ → ℕ → TimelineEvent → ℕ → ℕ → Operation
  finalizes : ℕ → ℕ → Operation
  rotates : ℕ → ℕ → Operation
  maintains : ℕ → Disk → Operation
  retains : ℕ → ℕ → ℕ → Operation
  forks : ForkRequest → ℕ → Operation
  adds_directory : (Text → Text) → Text → Text → ℕ → ℕ → ℕ → Operation

unfoldable pub apply : Hashes → Authority → Operation → Authority
apply h db (creates project workspace creation id now) =
    after db (create_session project workspace creation id now db)
apply h db (renames c now) = after db (rename_session h c now db)
apply h db (changes_availability c target now) =
    after db (change_session_availability h c target now db)
apply h db (marks_read c commits now) = after db (mark_session_read h c commits now db)
apply h db (sleeps id now) = after db (set_session_sleeping id now db)
apply h db (submits c run_id entry_id now) = after db (submit_run h c run_id entry_id now db)
apply h db (dispatches id) = after db (dispatch_next id db)
apply h db (holds id) = hold_queued id db
apply h db (releases id) = after db (release_run id db)
apply h db (cancels id now) = after db (cancel_queued_run id now db)
apply h db (steers c active entry_id now) = after db (accept_steering h c active entry_id now db)
apply h db (marks_steering id is_applied) = mark_steering id is_applied db
apply h db (unapplies_steering id) = mark_run_steering_unapplied id db
apply h db (stops c active entry_id now) = after db (accept_stop h c active entry_id now db)
apply h db (settles id result text checkpoint attempt now) =
    after db (settle_run h id result text checkpoint attempt now db)
apply h db (reconciles rec now) = (reconcile_accepted_runs h rec now db).0
apply h db (recovers_worker session_id run_id now) =
    (recover_worker_loss session_id run_id now db).0
apply h db resets_residency = reset_residency_on_startup db
apply h db (asks n interaction_id entry_id) =
    after db (create_interaction n interaction_id entry_id db)
apply h db (reserves id revision) = (reserve_interaction id revision db).0
apply h db (settles_interaction id from state cause at proven) =
    (settle_interaction id from state cause at proven db).0
apply h db (records session_id run_id event entry_id now) =
    after db (apply_timeline_event session_id run_id event entry_id now db)
apply h db (finalizes session_id run_id) = after db (finalize_assistant session_id run_id db)
apply h db (rotates epoch now) = rotate_synchronization_epoch epoch now db
apply h db (maintains now disk) = (run_maintenance now disk db).0
apply h db (retains kind owner id) = retain_object_reference kind owner id db
apply h db (forks f now) = after db (fork_session f now db)
apply h db (adds_directory trim name path project_id workspace_id now) =
    after db (create_project_from_directory trim name path project_id workspace_id now db)

unfoldable pub history : Hashes → Authority → List Operation → Authority
history h db [] = db
history h db (o ∷ os) = history h (apply h db o) os

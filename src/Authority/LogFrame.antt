-- ===== src/Authority/LogFrame.antt =====
-- The operations of packages/host/src/store.ts and the log of changes.
use pidex.Prelude.{Text, ◌≤◌, ℕ, Bool, Option, none, some, arith}
use pidex.Authority.Schema.{Authority, Availability, Workspace}
use pidex.Authority.Result.{after}
use pidex.Authority.Insert.{
  insert_run, insert_entry, insert_change, insert_session, insert_interaction, insert_steering,
  insert_receipt,
}
use pidex.Authority.Query.{record_change, load_session, load_entry, load_run, find_run}
use pidex.Authority.Command.{
  Hashes, SubmitCommand, SteerCommand, StopCommand, RenameCommand, AvailabilityCommand,
  MarkReadCommand, answer, commit_receipt,
}
use pidex.Authority.Runs.{submit_run, dispatch_next, release_run, cancel_queued_run}
use pidex.Authority.Interactions.{
  NewInteraction, create_interaction, record_unread_milestone, advance_timeline_revision,
}
use pidex.Authority.Control.{
  accept_steering, accept_stop, withdraw_execution, mark_run_steering_unapplied,
}
use pidex.Authority.Settlement.{TerminalState, Attempt, settle_run}
use pidex.Authority.Sessions.{
  create_session, rename_session, change_session_availability, mark_session_read,
  set_session_sleeping,
}
use pidex.Authority.Timeline.{
  TimelineEvent, assistant_delta, tool_started, tool_completed, apply_timeline_event,
  finalize_assistant,
}
use pidex.Authority.ChangeLog.{IsLog, IsLog-grow, IsLog-push}

log_writes : Unit {0}
unfolding record_change insert_change load_session load_entry load_run find_run insert_run
    insert_entry insert_session insert_interaction insert_steering insert_receipt commit_receipt
    advance_timeline_revision record_unread_milestone
log_writes = tt

-- The log is in order, and the Host's sequence is at least an earlier one.
abbrev pub IsLogged : ℕ → Authority → Type 0
IsLogged earlier db = IsLog db.host.sequence db.changes × (earlier ≤ db.host.sequence)

pub create_session-IsLogged :
    (project workspace : Option ℕ) (creation : Option Workspace) (id now : ℕ) (earlier : ℕ)
    (db : Authority)
    → IsLogged earlier db
    → IsLogged earlier (after db (create_session project workspace creation id now db))
unfolding create_session log_writes
create_session-IsLogged project workspace none id now earlier db held =
    grind (arith, IsLog-push, IsLog-grow)
create_session-IsLogged project workspace (some w) id now earlier db held =
    grind (arith, IsLog-push, IsLog-grow)

pub rename_session-IsLogged :
    (h : Hashes) (c : RenameCommand) (now : ℕ) (earlier : ℕ) (db : Authority)
    → IsLogged earlier db
    → IsLogged earlier (after db (rename_session h c now db))
unfolding rename_session answer log_writes
rename_session-IsLogged h c now earlier db held = grind (arith, IsLog-push, IsLog-grow)

pub change_session_availability-IsLogged :
    (h : Hashes) (c : AvailabilityCommand) (a : Availability) (now : ℕ) (earlier : ℕ)
    (db : Authority)
    → IsLogged earlier db
    → IsLogged earlier (after db (change_session_availability h c a now db))
unfolding change_session_availability answer log_writes
change_session_availability-IsLogged h c a now earlier db held =
    grind (arith, IsLog-push, IsLog-grow)

pub mark_session_read-IsLogged :
    (h : Hashes) (c : MarkReadCommand) (commits : Bool) (now : ℕ) (earlier : ℕ) (db : Authority)
    → IsLogged earlier db
    → IsLogged earlier (after db (mark_session_read h c commits now db))
unfolding mark_session_read answer log_writes
mark_session_read-IsLogged h c commits now earlier db held = grind (arith, IsLog-push, IsLog-grow)

pub set_session_sleeping-IsLogged :
    (id now : ℕ) (earlier : ℕ) (db : Authority)
    → IsLogged earlier db
    → IsLogged earlier (after db (set_session_sleeping id now db))
unfolding set_session_sleeping log_writes
set_session_sleeping-IsLogged id now earlier db held = grind (arith, IsLog-push, IsLog-grow)

pub submit_run-IsLogged :
    (h : Hashes) (c : SubmitCommand) (run_id entry_id now : ℕ) (earlier : ℕ) (db : Authority)
    → IsLogged earlier db
    → IsLogged earlier (after db (submit_run h c run_id entry_id now db))
unfolding submit_run answer log_writes
submit_run-IsLogged h c run_id entry_id now earlier db held = grind (arith, IsLog-push, IsLog-grow)

pub dispatch_next-IsLogged :
    (id : ℕ) (earlier : ℕ) (db : Authority)
    → IsLogged earlier db
    → IsLogged earlier (after db (dispatch_next id db))
unfolding dispatch_next log_writes
dispatch_next-IsLogged id earlier db held = grind (arith, IsLog-push, IsLog-grow)

pub release_run-IsLogged :
    (id : ℕ) (earlier : ℕ) (db : Authority)
    → IsLogged earlier db
    → IsLogged earlier (after db (release_run id db))
unfolding release_run log_writes
release_run-IsLogged id earlier db held = grind (arith, IsLog-push, IsLog-grow)

pub cancel_queued_run-IsLogged :
    (id now : ℕ) (earlier : ℕ) (db : Authority)
    → IsLogged earlier db
    → IsLogged earlier (after db (cancel_queued_run id now db))
unfolding cancel_queued_run log_writes
cancel_queued_run-IsLogged id now earlier db held = grind (arith, IsLog-push, IsLog-grow)

pub accept_steering-IsLogged :
    (h : Hashes) (c : SteerCommand) (active : Option ℕ) (entry_id now : ℕ) (earlier : ℕ)
    (db : Authority)
    → IsLogged earlier db
    → IsLogged earlier (after db (accept_steering h c active entry_id now db))
unfolding accept_steering log_writes
accept_steering-IsLogged h c active entry_id now earlier db held =
    grind (arith, IsLog-push, IsLog-grow)

pub accept_stop-IsLogged :
    (h : Hashes) (c : StopCommand) (active : Option ℕ) (entry_id now : ℕ) (earlier : ℕ)
    (db : Authority)
    → IsLogged earlier db
    → IsLogged earlier (after db (accept_stop h c active entry_id now db))
unfolding accept_stop withdraw_execution mark_run_steering_unapplied log_writes
accept_stop-IsLogged h c active entry_id now earlier db held = grind (arith, IsLog-push, IsLog-grow)

pub settle_run-IsLogged :
    (h : Hashes) (id : ℕ) (result : TerminalState) (text : Text) (checkpoint : Option Text)
    (attempt : Attempt) (now : ℕ) (earlier : ℕ) (db : Authority)
    → IsLogged earlier db
    → IsLogged earlier (after db (settle_run h id result text checkpoint attempt now db))
unfolding settle_run log_writes
settle_run-IsLogged h id result text checkpoint attempt now earlier db held =
    grind (arith, IsLog-push, IsLog-grow)

pub create_interaction-IsLogged :
    (n : NewInteraction) (interaction_id entry_id : ℕ) (earlier : ℕ) (db : Authority)
    → IsLogged earlier db
    → IsLogged earlier (after db (create_interaction n interaction_id entry_id db))
unfolding create_interaction log_writes
create_interaction-IsLogged n interaction_id entry_id earlier db held =
    grind (arith, IsLog-push, IsLog-grow)

pub apply_timeline_event-IsLogged :
    (session_id run_id : ℕ) (event : TimelineEvent) (entry_id now : ℕ) (earlier : ℕ)
    (db : Authority)
    → IsLogged earlier db
    → IsLogged earlier (after db (apply_timeline_event session_id run_id event entry_id now db))
unfolding apply_timeline_event log_writes
apply_timeline_event-IsLogged session_id run_id (assistant_delta text) entry_id now earlier db
      held =
    grind (arith, IsLog-push, IsLog-grow)
apply_timeline_event-IsLogged session_id run_id (tool_started c n) entry_id now earlier db held =
    grind (arith, IsLog-push, IsLog-grow)
apply_timeline_event-IsLogged session_id run_id (tool_completed c n t) entry_id now earlier db
      held =
    grind (arith, IsLog-push, IsLog-grow)

pub finalize_assistant-IsLogged :
    (session_id run_id : ℕ) (earlier : ℕ) (db : Authority)
    → IsLogged earlier db
    → IsLogged earlier (after db (finalize_assistant session_id run_id db))
unfolding finalize_assistant log_writes
finalize_assistant-IsLogged session_id run_id earlier db held =
    grind (arith, IsLog-push, IsLog-grow)

-- ===== src/Authority/FollowFrame.antt =====
-- The operations of packages/host/src/store.ts and a client that follows the log of changes: they add
-- rows above its cursor.
use pidex.Prelude.{Text, List, ◌≤◌, ℕ, Bool, Option, none, some, arith}
use pidex.Authority.Schema.{Change, Authority, Availability, Workspace}
use pidex.Authority.Result.{after}
use pidex.Authority.Insert.{
  insert_run, insert_entry, insert_change, insert_session, insert_interaction, insert_steering,
  insert_receipt,
}
use pidex.Authority.Query.{record_change, load_session, load_entry, load_run, find_run}
use pidex.Authority.Command.{
  Hashes, SubmitCommand, SteerCommand, StopCommand, RenameCommand, AvailabilityCommand,
  MarkReadCommand, answer, commit_receipt,
}
use pidex.Authority.Runs.{submit_run, dispatch_next, release_run, cancel_queued_run}
use pidex.Authority.Interactions.{
  NewInteraction, create_interaction, record_unread_milestone, advance_timeline_revision,
}
use pidex.Authority.Control.{
  accept_steering, accept_stop, withdraw_execution, mark_run_steering_unapplied,
}
use pidex.Authority.Settlement.{TerminalState, Attempt, settle_run}
use pidex.Authority.Sessions.{
  create_session, rename_session, change_session_availability, mark_session_read,
  set_session_sleeping,
}
use pidex.Authority.Timeline.{
  TimelineEvent, assistant_delta, tool_started, tool_completed, apply_timeline_event,
  finalize_assistant,
}
use pidex.Authority.Following.{Follows, Follows-push}

log_writes : Unit {0}
unfolding record_change insert_change load_session load_entry load_run find_run insert_run
    insert_entry insert_session insert_interaction insert_steering insert_receipt commit_receipt
    advance_timeline_revision record_unread_milestone
log_writes = tt

-- The cursor is no more than the Host's sequence, and the log is what was followed before and the rows
-- above the cursor.
abbrev pub IsFollowed : ℕ → List Change → Authority → Type 0
IsFollowed cursor base db = Follows cursor base db.changes × (cursor ≤ db.host.sequence)

pub create_session-IsFollowed :
    (project workspace : Option ℕ) (creation : Option Workspace) (id now : ℕ) (cursor : ℕ)
    (base : List Change) (db : Authority)
    → IsFollowed cursor base db
    → IsFollowed cursor base (after db (create_session project workspace creation id now db))
unfolding create_session log_writes
create_session-IsFollowed project workspace none id now cursor base db held =
    grind (arith, Follows-push)
create_session-IsFollowed project workspace (some w) id now cursor base db held =
    grind (arith, Follows-push)

pub rename_session-IsFollowed :
    (h : Hashes) (c : RenameCommand) (now : ℕ) (cursor : ℕ) (base : List Change) (db : Authority)
    → IsFollowed cursor base db
    → IsFollowed cursor base (after db (rename_session h c now db))
unfolding rename_session answer log_writes
rename_session-IsFollowed h c now cursor base db held = grind (arith, Follows-push)

pub change_session_availability-IsFollowed :
    (h : Hashes) (c : AvailabilityCommand) (a : Availability) (now : ℕ) (cursor : ℕ)
    (base : List Change) (db : Authority)
    → IsFollowed cursor base db
    → IsFollowed cursor base (after db (change_session_availability h c a now db))
unfolding change_session_availability answer log_writes
change_session_availability-IsFollowed h c a now cursor base db held = grind (arith, Follows-push)

pub mark_session_read-IsFollowed :
    (h : Hashes) (c : MarkReadCommand) (commits : Bool) (now : ℕ) (cursor : ℕ) (base : List Change)
    (db : Authority)
    → IsFollowed cursor base db
    → IsFollowed cursor base (after db (mark_session_read h c commits now db))
unfolding mark_session_read answer log_writes
mark_session_read-IsFollowed h c commits now cursor base db held = grind (arith, Follows-push)

pub set_session_sleeping-IsFollowed :
    (id now : ℕ) (cursor : ℕ) (base : List Change) (db : Authority)
    → IsFollowed cursor base db
    → IsFollowed cursor base (after db (set_session_sleeping id now db))
unfolding set_session_sleeping log_writes
set_session_sleeping-IsFollowed id now cursor base db held = grind (arith, Follows-push)

pub submit_run-IsFollowed :
    (h : Hashes) (c : SubmitCommand) (run_id entry_id now : ℕ) (cursor : ℕ) (base : List Change)
    (db : Authority)
    → IsFollowed cursor base db
    → IsFollowed cursor base (after db (submit_run h c run_id entry_id now db))
unfolding submit_run answer log_writes
submit_run-IsFollowed h c run_id entry_id now cursor base db held = grind (arith, Follows-push)

pub dispatch_next-IsFollowed :
    (id : ℕ) (cursor : ℕ) (base : List Change) (db : Authority)
    → IsFollowed cursor base db
    → IsFollowed cursor base (after db (dispatch_next id db))
unfolding dispatch_next log_writes
dispatch_next-IsFollowed id cursor base db held = grind (arith, Follows-push)

pub release_run-IsFollowed :
    (id : ℕ) (cursor : ℕ) (base : List Change) (db : Authority)
    → IsFollowed cursor base db
    → IsFollowed cursor base (after db (release_run id db))
unfolding release_run log_writes
release_run-IsFollowed id cursor base db held = grind (arith, Follows-push)

pub cancel_queued_run-IsFollowed :
    (id now : ℕ) (cursor : ℕ) (base : List Change) (db : Authority)
    → IsFollowed cursor base db
    → IsFollowed cursor base (after db (cancel_queued_run id now db))
unfolding cancel_queued_run log_writes
cancel_queued_run-IsFollowed id now cursor base db held = grind (arith, Follows-push)

pub accept_steering-IsFollowed :
    (h : Hashes) (c : SteerCommand) (active : Option ℕ) (entry_id now : ℕ) (cursor : ℕ)
    (base : List Change) (db : Authority)
    → IsFollowed cursor base db
    → IsFollowed cursor base (after db (accept_steering h c active entry_id now db))
unfolding accept_steering log_writes
accept_steering-IsFollowed h c active entry_id now cursor base db held = grind (arith, Follows-push)

pub accept_stop-IsFollowed :
    (h : Hashes) (c : StopCommand) (active : Option ℕ) (entry_id now : ℕ) (cursor : ℕ)
    (base : List Change) (db : Authority)
    → IsFollowed cursor base db
    → IsFollowed cursor base (after db (accept_stop h c active entry_id now db))
unfolding accept_stop withdraw_execution mark_run_steering_unapplied log_writes
accept_stop-IsFollowed h c active entry_id now cursor base db held = grind (arith, Follows-push)

pub settle_run-IsFollowed :
    (h : Hashes) (id : ℕ) (result : TerminalState) (text : Text) (checkpoint : Option Text)
    (attempt : Attempt) (now : ℕ) (cursor : ℕ) (base : List Change) (db : Authority)
    → IsFollowed cursor base db
    → IsFollowed cursor base (after db (settle_run h id result text checkpoint attempt now db))
unfolding settle_run log_writes
settle_run-IsFollowed h id result text checkpoint attempt now cursor base db held =
    grind (arith, Follows-push)

pub create_interaction-IsFollowed :
    (n : NewInteraction) (interaction_id entry_id : ℕ) (cursor : ℕ) (base : List Change)
    (db : Authority)
    → IsFollowed cursor base db
    → IsFollowed cursor base (after db (create_interaction n interaction_id entry_id db))
unfolding create_interaction log_writes
create_interaction-IsFollowed n interaction_id entry_id cursor base db held =
    grind (arith, Follows-push)

pub apply_timeline_event-IsFollowed :
    (session_id run_id : ℕ) (event : TimelineEvent) (entry_id now : ℕ) (cursor : ℕ)
    (base : List Change) (db : Authority)
    → IsFollowed cursor base db
    → IsFollowed cursor base
        (after db (apply_timeline_event session_id run_id event entry_id now db))
unfolding apply_timeline_event log_writes
apply_timeline_event-IsFollowed session_id run_id (assistant_delta text) entry_id now cursor base db
      held =
    grind (arith, Follows-push)
apply_timeline_event-IsFollowed session_id run_id (tool_started c n) entry_id now cursor base db
      held =
    grind (arith, Follows-push)
apply_timeline_event-IsFollowed session_id run_id (tool_completed c n t) entry_id now cursor base db
      held =
    grind (arith, Follows-push)

pub finalize_assistant-IsFollowed :
    (session_id run_id : ℕ) (cursor : ℕ) (base : List Change) (db : Authority)
    → IsFollowed cursor base db
    → IsFollowed cursor base (after db (finalize_assistant session_id run_id db))
unfolding finalize_assistant log_writes
finalize_assistant-IsFollowed session_id run_id cursor base db held = grind (arith, Follows-push)

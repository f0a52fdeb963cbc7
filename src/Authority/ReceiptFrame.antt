-- ===== src/Authority/ReceiptFrame.antt =====
-- The operations of packages/host/src/store.ts and the table of the receipts: only the commands
-- write it, and only to add the receipt of the command.
use pidex.Prelude.{Text, ℕ, ◌≡◌, Bool, Option, none, some, arith}
use pidex.Authority.Schema.{Authority, Availability, Outcome, Workspace}
use pidex.Authority.Result.{after, committed}
use pidex.Authority.Insert.{
  insert_run, insert_entry, insert_change, insert_session, insert_interaction, insert_steering,
}
use pidex.Authority.Query.{record_change, load_session, load_entry, load_run, find_run}
use pidex.Authority.Command.{
  Hashes, SubmitCommand, SteerCommand, StopCommand, RenameCommand, AvailabilityCommand,
  MarkReadCommand,
}
use pidex.Authority.Runs.{carry_out_submission, dispatch_next, release_run, cancel_queued_run}
use pidex.Authority.Interactions.{
  NewInteraction, create_interaction, record_unread_milestone, advance_timeline_revision,
}
use pidex.Authority.Control.{
  carry_out_steering, carry_out_stop, withdraw_execution, mark_run_steering_unapplied,
}
use pidex.Authority.Settlement.{TerminalState, Attempt, settle_run}
use pidex.Authority.Sessions.{
  create_session, carry_out_rename, carry_out_availability, carry_out_mark_read, gate_commit,
  set_session_sleeping,
}
use pidex.Authority.Timeline.{
  TimelineEvent, assistant_delta, tool_started, tool_completed, apply_timeline_event,
  finalize_assistant,
}

row_writes : Unit {0}
unfolding record_change insert_change load_session load_entry load_run find_run insert_run
    insert_entry insert_session insert_interaction insert_steering advance_timeline_revision
    record_unread_milestone
row_writes = tt

-- What each command carries out, and that its outcome is of the command's kind.
pub receipts-carry_out_submission :
    (h : Hashes) (c : SubmitCommand) (run_id entry_id now : ℕ) (db d : Authority) (o : Outcome)
    → carry_out_submission h c run_id entry_id now db ≡ committed (d, o)
    → d.receipts ≡ db.receipts
unfolding carry_out_submission row_writes
receipts-carry_out_submission h c run_id entry_id now db d o e = ground arith

pub receipts-carry_out_rename :
    (c : RenameCommand) (now : ℕ) (db d : Authority) (o : Outcome)
    → carry_out_rename c now db ≡ committed (d, o)
    → d.receipts ≡ db.receipts
unfolding carry_out_rename row_writes
receipts-carry_out_rename c now db d o e = ground arith

pub receipts-carry_out_availability :
    (c : AvailabilityCommand) (a : Availability) (now : ℕ) (db d : Authority) (o : Outcome)
    → carry_out_availability c a now db ≡ committed (d, o)
    → d.receipts ≡ db.receipts
unfolding carry_out_availability row_writes
receipts-carry_out_availability c a now db d o e = ground arith

pub receipts-carry_out_mark_read :
    (c : MarkReadCommand) (commits : Bool) (now : ℕ) (db d : Authority) (o : Outcome)
    → gate_commit commits (carry_out_mark_read c now db) ≡ committed (d, o)
    → d.receipts ≡ db.receipts
unfolding carry_out_mark_read gate_commit row_writes
receipts-carry_out_mark_read c commits now db d o e = ground arith

-- The operations that write no receipt.
pub receipts-create_session :
    (project workspace : Option ℕ) (creation : Option Workspace) (id now : ℕ) (db : Authority)
    → (after db (create_session project workspace creation id now db)).receipts ≡ db.receipts
unfolding create_session row_writes
receipts-create_session project workspace none id now db = ground arith
receipts-create_session project workspace (some w) id now db = ground arith

pub receipts-set_session_sleeping :
    (id now : ℕ) (db : Authority)
    → (after db (set_session_sleeping id now db)).receipts ≡ db.receipts
unfolding set_session_sleeping row_writes
receipts-set_session_sleeping id now db = ground arith

pub receipts-dispatch_next :
    (id : ℕ) (db : Authority) → (after db (dispatch_next id db)).receipts ≡ db.receipts
unfolding dispatch_next
receipts-dispatch_next id db = ground arith

pub receipts-release_run :
    (id : ℕ) (db : Authority) → (after db (release_run id db)).receipts ≡ db.receipts
unfolding release_run row_writes
receipts-release_run id db = ground arith

pub receipts-cancel_queued_run :
    (id now : ℕ) (db : Authority) → (after db (cancel_queued_run id now db)).receipts ≡ db.receipts
unfolding cancel_queued_run row_writes
receipts-cancel_queued_run id now db = ground arith

pub receipts-create_interaction :
    (n : NewInteraction) (interaction_id entry_id : ℕ) (db : Authority)
    → (after db (create_interaction n interaction_id entry_id db)).receipts ≡ db.receipts
unfolding create_interaction row_writes
receipts-create_interaction n interaction_id entry_id db = ground arith

pub receipts-apply_timeline_event :
    (session_id run_id : ℕ) (event : TimelineEvent) (entry_id now : ℕ) (db : Authority)
    → (after db (apply_timeline_event session_id run_id event entry_id now db)).receipts
      ≡ db.receipts
unfolding apply_timeline_event row_writes
receipts-apply_timeline_event session_id run_id (assistant_delta text) entry_id now db =
    ground arith
receipts-apply_timeline_event session_id run_id (tool_started c n) entry_id now db = ground arith
receipts-apply_timeline_event session_id run_id (tool_completed c n t) entry_id now db =
    ground arith

pub receipts-finalize_assistant :
    (session_id run_id : ℕ) (db : Authority)
    → (after db (finalize_assistant session_id run_id db)).receipts ≡ db.receipts
unfolding finalize_assistant row_writes
receipts-finalize_assistant session_id run_id db = ground arith

pub receipts-settle_run :
    (h : Hashes) (id : ℕ) (result : TerminalState) (text : Text) (checkpoint : Option Text)
    (attempt : Attempt) (now : ℕ) (db : Authority)
    → (after db (settle_run h id result text checkpoint attempt now db)).receipts ≡ db.receipts
unfolding settle_run row_writes
receipts-settle_run h id result text checkpoint attempt now db = ground arith

pub receipts-carry_out_steering :
    (h : Hashes) (c : SteerCommand) (entry_id now : ℕ) (db d : Authority) (o : Outcome)
    → carry_out_steering h c entry_id now db ≡ committed (d, o)
    → d.receipts ≡ db.receipts
unfolding carry_out_steering row_writes
receipts-carry_out_steering h c entry_id now db d o e = ground arith

pub receipts-carry_out_stop :
    (c : StopCommand) (entry_id now : ℕ) (db d : Authority) (o : Outcome)
    → carry_out_stop c entry_id now db ≡ committed (d, o)
    → d.receipts ≡ db.receipts
unfolding carry_out_stop withdraw_execution mark_run_steering_unapplied row_writes
receipts-carry_out_stop c entry_id now db d o e = ground arith

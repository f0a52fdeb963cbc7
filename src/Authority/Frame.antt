-- ===== src/Authority/Frame.antt =====
-- The operations of packages/host/src/store.ts that do not write the table of the runs.
use pidex.Prelude.{ℕ, ◌≡◌, Bool, Option, none, some, arith}
use pidex.Authority.Schema.{Authority, Availability, Workspace}
use pidex.Authority.Result.{after}
use pidex.Authority.Insert.{
  insert_entry, insert_receipt, insert_change, insert_session, insert_interaction,
}
use pidex.Authority.Query.{record_change, load_session, load_entry}
use pidex.Authority.Command.{
  Hashes, RenameCommand, AvailabilityCommand, MarkReadCommand, answer, commit_receipt,
}
use pidex.Authority.Interactions.{
  NewInteraction, create_interaction, record_unread_milestone, advance_timeline_revision,
}
use pidex.Authority.Sessions.{
  create_session, rename_session, change_session_availability, mark_session_read,
  set_session_sleeping,
}
use pidex.Authority.Timeline.{
  TimelineEvent, assistant_delta, tool_started, tool_completed, apply_timeline_event,
  finalize_assistant,
}

-- the writes to the log that the operations end in
record_writes : Unit {0}
unfolding record_change insert_change commit_receipt insert_receipt load_session load_entry
record_writes = tt

pub runs-create_session :
    (project workspace : Option ℕ) (creation : Option Workspace) (id now : ℕ) (db : Authority)
    → (after db (create_session project workspace creation id now db)).runs ≡ db.runs
unfolding create_session insert_session record_writes
runs-create_session project workspace none id now db = ground arith
runs-create_session project workspace (some w) id now db = ground arith

pub runs-rename_session :
    (h : Hashes) (c : RenameCommand) (now : ℕ) (db : Authority)
    → (after db (rename_session h c now db)).runs ≡ db.runs
unfolding rename_session answer record_writes
runs-rename_session h c now db = ground arith

pub runs-change_session_availability :
    (h : Hashes) (c : AvailabilityCommand) (a : Availability) (now : ℕ) (db : Authority)
    → (after db (change_session_availability h c a now db)).runs ≡ db.runs
unfolding change_session_availability answer record_writes
runs-change_session_availability h c a now db = ground arith

pub runs-mark_session_read :
    (h : Hashes) (c : MarkReadCommand) (commits : Bool) (now : ℕ) (db : Authority)
    → (after db (mark_session_read h c commits now db)).runs ≡ db.runs
unfolding mark_session_read answer record_writes
runs-mark_session_read h c commits now db = ground arith

pub runs-set_session_sleeping :
    (id now : ℕ) (db : Authority) → (after db (set_session_sleeping id now db)).runs ≡ db.runs
unfolding set_session_sleeping record_writes
runs-set_session_sleeping id now db = ground arith

pub runs-create_interaction :
    (n : NewInteraction) (interaction_id entry_id : ℕ) (db : Authority)
    → (after db (create_interaction n interaction_id entry_id db)).runs ≡ db.runs
unfolding create_interaction insert_interaction insert_entry advance_timeline_revision
    record_unread_milestone record_writes
runs-create_interaction n interaction_id entry_id db = ground arith

pub runs-apply_timeline_event :
    (session_id run_id : ℕ) (event : TimelineEvent) (entry_id now : ℕ) (db : Authority)
    → (after db (apply_timeline_event session_id run_id event entry_id now db)).runs ≡ db.runs
unfolding apply_timeline_event insert_entry advance_timeline_revision record_writes
runs-apply_timeline_event session_id run_id (assistant_delta text) entry_id now db = ground arith
runs-apply_timeline_event session_id run_id (tool_started call name) entry_id now db = ground arith
runs-apply_timeline_event session_id run_id (tool_completed call name text) entry_id now db =
    ground arith

pub runs-finalize_assistant :
    (session_id run_id : ℕ) (db : Authority)
    → (after db (finalize_assistant session_id run_id db)).runs ≡ db.runs
unfolding finalize_assistant advance_timeline_revision record_writes
runs-finalize_assistant session_id run_id db = ground arith

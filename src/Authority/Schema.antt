-- ===== src/Authority/Schema.antt =====
-- The tables of packages/host/src/authority-schema.ts that the store changes, a record for each
-- row, and the values of packages/protocol/src/status.ts that the rows hold. Identifiers, digests
-- and epochs are compared and never inspected: they are numbers. Text is a list of code units.
use pidex.Prelude.{Text, ℕ, List, Option, Bool}

pub record Host : Type 0 where
  pub host_id : ℕ
  pub epoch : ℕ
  pub sequence : ℕ
  pub committed_at : ℕ

pub data Availability : Type 0 where
  available archived : Availability

pub data Residency : Type 0 where
  sleeping resident : Residency

pub record Session : Type 0 where
  pub session_id : ℕ
  pub project_id : Option ℕ
  pub workspace_id : Option ℕ
  pub name : Text
  pub availability : Availability
  pub residency : Residency
  pub metadata_revision : ℕ
  pub timeline_revision : ℕ
  pub read_through_timeline_revision : ℕ
  pub read_state_revision : ℕ
  pub latest_unread_milestone : Option ℕ
  pub parent_session_id : Option ℕ
  pub fork_point_entry_id : Option ℕ
  pub created_at : ℕ

pub data RunState : Type 0 where
  queued executing cancelling held completed failed cancelled interrupted : RunState

pub record Run : Type 0 where
  pub run_id : ℕ
  pub session_id : ℕ
  pub session_order : ℕ
  pub prompt : Text
  pub state : RunState
  pub created_at : ℕ
  pub completed_at : Option ℕ

pub data EntryKind : Type 0 where
  prompt response assistant tool run outcome lifecycle interaction steering : EntryKind

pub record Entry : Type 0 where
  pub entry_id : ℕ
  pub session_id : ℕ
  pub run_id : ℕ
  pub entry_order : ℕ
  pub kind : EntryKind
  pub text : Text
  pub checkpoint : Option Text
  pub blob_id : Option ℕ
  pub created_at : ℕ
  pub revision : ℕ
  pub finalized : Bool
  pub tool_call_id : Option ℕ

pub data InteractionKind : Type 0 where
  select confirm input editor : InteractionKind

pub data InteractionState : Type 0 where
  open_ resolving responded dismissed expired withdrawn : InteractionState

pub data TerminalCause : Type 0 where
  command_dismissal command_response deadline run_stop worker_lost : TerminalCause

pub record Interaction : Type 0 where
  pub interaction_id : ℕ
  pub session_id : ℕ
  pub run_id : Option ℕ
  pub worker_generation : ℕ
  pub correlation_id : ℕ
  pub kind : InteractionKind
  pub message : Text
  pub provenance : Option Text
  pub state : InteractionState
  pub revision : ℕ
  pub created_at : ℕ
  pub deadline_at : Option ℕ
  pub terminal_cause : Option TerminalCause
  pub responded_at : Option ℕ
  pub application_proven : Option Bool

pub data SteeringState : Type 0 where
  accepted applied unapplied : SteeringState

pub record Steering : Type 0 where
  pub command_id : ℕ
  pub run_id : ℕ
  pub worker_generation : ℕ
  pub text : Text
  pub entry_id : ℕ
  pub state : SteeringState
  pub created_at : ℕ

pub data ReadStatus : Type 0 where
  read unread : ReadStatus

pub record SessionReadState : Type 0 where
  pub read_through_timeline_revision : ℕ
  pub read_status : ReadStatus
  pub read_state_revision : ℕ

pub data Attention : Type 0 where
  quiet working needs_response : Attention

pub record SessionActivity : Type 0 where
  pub detail : Option Text
  pub at : Option ℕ

-- `loadSession`: the row, with the read state and the attention that are derived from it.
pub record SessionSummary : Type 0 where
  pub row : Session
  pub read_state : SessionReadState
  pub attention : Attention
  pub activity : Option SessionActivity

pub record Project : Type 0 where
  pub project_id : ℕ
  pub name : Text
  pub path : Option Text

pub data WorkspaceKind : Type 0 where
  checkout worktree : WorkspaceKind

pub record Workspace : Type 0 where
  pub workspace_id : ℕ
  pub project_id : ℕ
  pub name : Text
  pub path : Option Text
  pub kind : Option WorkspaceKind
  pub managed : Option Bool

pub data HostChange : Type 0 where
  project_created : Project → Workspace → HostChange
  session_created session_forked session_archived session_restored : SessionSummary → HostChange
  session_residency_changed session_renamed : SessionSummary → HostChange
  session_read_state_changed : ℕ → SessionReadState → HostChange

-- A row of `synchronization_changes`.
pub record Change : Type 0 where
  pub sequence : ℕ
  pub payload : HostChange
  pub committed_at : ℕ

-- What `encodeCursor` puts into a cursor.
pub record Cursor : Type 0 where
  pub host_id : ℕ
  pub epoch : ℕ
  pub sequence : ℕ

pub data ReadEffect : Type 0 where
  advanced no_op : ReadEffect

-- The reasons by which a command is refused and yet gets a receipt.
pub data RejectionError : Type 0 where
  unknown_session session_archived_error session_busy no_executing_run : RejectionError
  stale_precondition already_archived not_archived session_not_quiescent : RejectionError

-- The stored outcomes, `outcome_json`: a constructor for each command and kind of outcome.
pub data Outcome : Type 0 where
  submit_accepted : Run → Cursor → Outcome
  submit_rejected availability_rejected : RejectionError → Cursor → Outcome
  rename_rejected : RejectionError → Option ℕ → Cursor → Outcome
  rename_accepted availability_accepted : SessionSummary → Cursor → Outcome
  mark_read_accepted : ReadEffect → SessionReadState → Cursor → Outcome
  mark_read_invalid : SessionReadState → Cursor → Outcome
  mark_read_unknown : Cursor → Outcome
  steer_accepted : ℕ → Cursor → Outcome
  steer_rejected : Cursor → Outcome
  stop_accepted : ℕ → ℕ → Cursor → Outcome

-- A row of `command_receipts`.
pub record Receipt : Type 0 where
  pub command_id : ℕ
  pub envelope_digest : ℕ
  pub outcome : Outcome
  pub commit_cursor : Cursor
  pub committed_at : ℕ

pub record Orphan : Type 0 where
  pub object_id : ℕ
  pub first_proved_at : ℕ

pub record RetainedReference : Type 0 where
  pub owner_kind : ℕ
  pub owner_id : ℕ
  pub object_id : ℕ
  pub is_protected : Bool

pub record Authority : Type 0 where
  pub host : Host
  pub projects : List Project
  pub workspaces : List Workspace
  pub sessions : List Session
  pub runs : List Run
  pub entries : List Entry
  pub interactions : List Interaction
  pub steering : List Steering
  pub receipts : List Receipt
  pub changes : List Change
  pub orphans : List Orphan
  pub retained : List RetainedReference

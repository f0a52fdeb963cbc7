-- ===== src/Authority/Command.antt =====
-- The commands of packages/host/src/store.ts and the receipts by which a repeated command is
-- answered: `loadCommandReceipt`, `parseCommandReceipt`, `insertCommandReceipt`.
-- SHA-256 over the JSON text of a command is a parameter, a function of the command.
use pidex.Prelude.{Text, ℕ, Bool, true, false, List, none, some, ◌==◌, if◌then◌else◌, find?}
use pidex.Authority.Schema.{
  Availability, Cursor, Outcome, submit_accepted, submit_rejected, rename_accepted, rename_rejected,
  availability_accepted, availability_rejected, mark_read_accepted, mark_read_invalid,
  mark_read_unknown, steer_accepted, steer_rejected, stop_accepted, Receipt, Authority,
}
use pidex.Authority.Result.{Result, committed, thrown, schema_mismatch, ◌>>=◌}
use pidex.Authority.Insert.{insert_receipt}

pub data RunCapability : Type 0 where
  run_submit run_follow_up : RunCapability

-- An image is content that the store only hashes and counts.
pub record SubmitCommand : Type 0 where
  pub command_id : ℕ
  pub session_id : ℕ
  pub prompt : Text
  pub images : List ℕ
  pub required_capability : RunCapability

pub record SteerCommand : Type 0 where
  pub command_id : ℕ
  pub session_id : ℕ
  pub run_id : ℕ
  pub worker_generation : ℕ
  pub observed_timeline_revision : ℕ
  pub text : Text
  pub images : List ℕ

pub record StopCommand : Type 0 where
  pub command_id : ℕ
  pub session_id : ℕ
  pub run_id : ℕ
  pub worker_generation : ℕ
  pub observed_timeline_revision : ℕ

pub record RenameCommand : Type 0 where
  pub command_id : ℕ
  pub session_id : ℕ
  pub name : Text
  pub observed_metadata_revision : ℕ

pub record AvailabilityCommand : Type 0 where
  pub command_id : ℕ
  pub session_id : ℕ
  pub observed_metadata_revision : ℕ

pub record MarkReadCommand : Type 0 where
  pub command_id : ℕ
  pub session_id : ℕ
  pub presented_timeline_revision : ℕ

-- What is hashed: the command, for the availability commands with their target.
pub data Envelope : Type 0 where
  submit : SubmitCommand → Envelope
  steer : SteerCommand → Envelope
  stop : StopCommand → Envelope
  rename : RenameCommand → Envelope
  change_availability : AvailabilityCommand → Availability → Envelope
  mark_read : MarkReadCommand → Envelope

-- node:crypto over JSON texts: of an envelope, of the manifest of a run's images, of a run's text.
pub record Hashes : Type 0 where
  pub envelope : Envelope → ℕ
  pub images : List ℕ → ℕ
  pub text : Text → ℕ

pub data ReceiptMatch : Type 0 where
  missing : ReceiptMatch
  conflict : ReceiptMatch
  replay : Outcome → ReceiptMatch

unfoldable pub load_command_receipt : ℕ → ℕ → Authority → ReceiptMatch
load_command_receipt command_id digest db =
    elim (find? (λ (r : Receipt). r.command_id == command_id) db.receipts) [
      | none ↦ missing
      | some r ↦ if r.envelope_digest == digest then replay r.outcome else conflict
    ]

-- The answer to a command: its outcome now, the outcome of its first delivery, or a refusal since
-- another command has its identifier.
pub data Reply : Type 0 where
  outcome : Outcome → Reply
  replayed : Outcome → Reply
  command_id_conflict : Reply

abbrev pub outcome_cursor : Outcome → Cursor
outcome_cursor (submit_accepted run cursor) = cursor
outcome_cursor (submit_rejected error cursor) = cursor
outcome_cursor (rename_accepted session cursor) = cursor
outcome_cursor (rename_rejected error current cursor) = cursor
outcome_cursor (availability_accepted session cursor) = cursor
outcome_cursor (availability_rejected error cursor) = cursor
outcome_cursor (mark_read_accepted effect state cursor) = cursor
outcome_cursor (mark_read_invalid state cursor) = cursor
outcome_cursor (mark_read_unknown cursor) = cursor
outcome_cursor (steer_accepted entry cursor) = cursor
outcome_cursor (steer_rejected cursor) = cursor
outcome_cursor (stop_accepted run entry cursor) = cursor

-- The schemas of the stored outcomes, as tests.
abbrev pub is_submit_outcome : Outcome → Bool
is_submit_outcome (submit_accepted run cursor) = true
is_submit_outcome (submit_rejected error cursor) = true
is_submit_outcome _ = false

abbrev pub is_rename_outcome : Outcome → Bool
is_rename_outcome (rename_accepted session cursor) = true
is_rename_outcome (rename_rejected error current cursor) = true
is_rename_outcome _ = false

abbrev pub is_availability_outcome : Outcome → Bool
is_availability_outcome (availability_accepted session cursor) = true
is_availability_outcome (availability_rejected error cursor) = true
is_availability_outcome _ = false

abbrev pub is_mark_read_outcome : Outcome → Bool
is_mark_read_outcome (mark_read_accepted effect state cursor) = true
is_mark_read_outcome (mark_read_invalid state cursor) = true
is_mark_read_outcome (mark_read_unknown cursor) = true
is_mark_read_outcome _ = false

abbrev pub receipt_of : ℕ → ℕ → Outcome → ℕ → Receipt
receipt_of command_id digest result now = record {
  command_id = command_id;
  envelope_digest = digest;
  outcome = result;
  commit_cursor = outcome_cursor result;
  committed_at = now;
}

-- `insertCommandReceipt`
unfoldable pub commit_receipt : ℕ → ℕ → Outcome → ℕ → Authority → Result Authority
commit_receipt command_id digest result now db =
    insert_receipt (receipt_of command_id digest result now) db

unfoldable pub record_outcome :
    ℕ → ℕ → ℕ → Result (Authority × Outcome) → Result (Authority × Reply)
record_outcome command_id digest now r = do
  (db₁, result) ← r
  db₂ ← commit_receipt command_id digest result now db₁
  committed (db₂, outcome result)

-- The frame that `submitRun`, `renameSession`, `changeSessionAvailability` and `markSessionRead`
-- share: a known command is answered from its receipt, and a new one is carried out and gets one.
unfoldable pub answer :
    ℕ
    → ℕ
    → (Outcome → Bool)
    → ℕ
    → (Authority → Result (Authority × Outcome))
    → Authority
    → Result (Authority × Reply)
unfolding record_outcome
answer command_id digest schema now carry_out db =
    elim (load_command_receipt command_id digest db) [
      | conflict ↦ committed (db, command_id_conflict)
      | replay prior ↦
          if schema prior then committed (db, replayed prior) else thrown schema_mismatch
      | missing ↦ record_outcome command_id digest now (carry_out db)
    ]

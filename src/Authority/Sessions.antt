-- ===== src/Authority/Sessions.antt =====
-- The Session commands of packages/host/src/store.ts: `createSession`, `renameSession`,
-- `changeSessionAvailability`, `markSessionRead`, `setSessionSleeping`.
use pidex.Prelude.{
  Text, codes, text_eq, ℕ, ◌+◌, Bool, true, false, not, ◌&&◌, ◌||◌, [], ◌∷◌, ◌++◌, Option, none,
  some, ◌==◌, ltb, leb, if◌then◌else◌, find?, or_else, any, update_where,
}
use pidex.Authority.Schema.{
  Session, Availability, available, archived, sleeping, Workspace, SessionSummary, session_created,
  session_archived, session_restored, session_residency_changed, session_renamed,
  session_read_state_changed, HostChange, quiet, read, Project, Cursor, Outcome, rename_accepted,
  rename_rejected, availability_accepted, availability_rejected, mark_read_accepted,
  mark_read_invalid, mark_read_unknown, RejectionError, unknown_session, stale_precondition,
  already_archived, not_archived, session_not_quiescent, advanced, no_op, Authority,
}
use pidex.Authority.Result.{
  Result, committed, thrown, Error, or_throw, require, schema_mismatch, storage_fault,
  constraint_failed, workspace_identity_conflict, ◌>>=◌, ◌>>◌,
}
use pidex.Authority.States.{is_archived, is_resident, same_availability}
use pidex.Authority.Insert.{insert_session}
use pidex.Authority.Query.{
  cursor_of, find_session, load_session, read_state_from_basis, update_session, advance_host,
  record_change, session_has_active_work, validate_session_scope,
}
use pidex.Authority.Command.{
  RenameCommand, AvailabilityCommand, MarkReadCommand, rename, change_availability, mark_read,
  Hashes, Reply, answer, is_rename_outcome, is_availability_outcome, is_mark_read_outcome,
}

abbrev pub untitled : Text
untitled = codes "Untitled Session"

unfoldable pub new_session : ℕ → Option ℕ → Option ℕ → ℕ → Session
new_session id project workspace now = record {
  session_id = id;
  project_id = project;
  workspace_id = workspace;
  name = untitled;
  availability = available;
  residency = sleeping;
  metadata_revision = 1;
  timeline_revision = 1;
  read_through_timeline_revision = 1;
  read_state_revision = 1;
  latest_unread_milestone = none;
  parent_session_id = none;
  fork_point_entry_id = none;
  created_at = now;
}

-- Advances the Host, loads the Session as it is now and publishes what `change` makes of it.
unfoldable pub publish_session :
    ℕ
    → (SessionSummary → HostChange)
    → ℕ
    → Authority
    → Result (Authority × (SessionSummary × Cursor))
publish_session id change now db = do
  let db₁ = advance_host now db
  session ← load_session id db₁
  (db₂, cursor) ← record_change (change session) db₁
  committed (db₂, (session, cursor))

unfoldable pub initial_summary : Session → ℕ → SessionSummary
initial_summary s now = record {
  row = s;
  read_state = record {
    read_through_timeline_revision = 1;
    read_status = read;
    read_state_revision = 1;
  };
  attention = quiet;
  activity = some (record { detail = none; at = some now });
}

abbrev pub merged_managed : Option Bool → Option Bool → Bool
merged_managed none none = false
merged_managed none (some b) = b
merged_managed (some a) none = a
merged_managed (some a) (some b) = a || b

-- ON CONFLICT(workspace_id) DO UPDATE
abbrev pub merge_workspace : Workspace → Workspace → Workspace
merge_workspace new old = record old {
  name = new.name;
  path = or_else new.path old.path;
  kind = or_else new.kind old.kind;
  managed = some (merged_managed old.managed new.managed);
}

abbrev pub same_path : Option Text → Option Text → Bool
same_path none b = true
same_path (some a) none = true
same_path (some a) (some b) = text_eq a b

unfoldable pub insert_workspace : Workspace → Authority → Result Authority
insert_workspace w db =
    let test = λ (x : Workspace). x.workspace_id == w.workspace_id in
    elim (find? test db.workspaces) [
      | none ↦
          if any (λ (p : Project). p.project_id == w.project_id) db.projects
          then committed (record db { workspaces = db.workspaces ++ w ∷ [] })
          else thrown constraint_failed
      | some x ↦
          if (x.project_id == w.project_id) && same_path x.path w.path
          then committed
              (record db { workspaces = update_where test (merge_workspace w) db.workspaces })
          else thrown workspace_identity_conflict
    ]

-- `creation.workspace`, and the workspace of the new Session
unfoldable pub prepare_workspace :
    Option Workspace → Option ℕ → Authority → Result (Authority × Option ℕ)
unfolding insert_workspace
prepare_workspace none workspace db = committed (db, workspace)
prepare_workspace (some w) workspace db = do
  db₁ ← insert_workspace w db
  committed (db₁, some w.workspace_id)

-- The identifier is the creation's or drawn at random.
unfoldable pub create_session :
    Option ℕ
    → Option ℕ
    → Option Workspace
    → ℕ
    → ℕ
    → Authority
    → Result (Authority × (SessionSummary × Cursor))
unfolding new_session initial_summary prepare_workspace
create_session project requested creation id now db = do
  (db₁, workspace) ← prepare_workspace creation requested db
  validate_session_scope project workspace db₁
  db₂ ← insert_session (new_session id project workspace now) db₁
  let session = initial_summary (new_session id project workspace now) now
  (db₃, cursor) ← record_change (session_created session) (advance_host now db₂)
  committed (db₃, (session, cursor))

unfoldable pub apply_rename : RenameCommand → ℕ → Authority → Result (Authority × Outcome)
unfolding publish_session
apply_rename c now db = do
  (db₁, (session, cursor)) ← publish_session c.session_id session_renamed now (
      update_session c.session_id
        (λ (x : Session). record x { name = c.name; metadata_revision = x.metadata_revision + 1 })
        db)
  committed (db₁, rename_accepted session cursor)

unfoldable pub carry_out_rename : RenameCommand → ℕ → Authority → Result (Authority × Outcome)
unfolding apply_rename
carry_out_rename c now db = elim (find_session c.session_id db) [
  | none ↦ committed (db, rename_rejected unknown_session none (cursor_of db))
  | some s ↦
      if s.metadata_revision == c.observed_metadata_revision
      then apply_rename c now db
      else committed
          (db, rename_rejected stale_precondition (some s.metadata_revision) (cursor_of db))
]

unfoldable pub rename_session : Hashes → RenameCommand → ℕ → Authority → Result (Authority × Reply)
unfolding carry_out_rename
rename_session h c now db =
    answer c.command_id (h.envelope (rename c)) is_rename_outcome now (carry_out_rename c now) db

abbrev pub availability_change : Availability → SessionSummary → HostChange
availability_change archived = session_archived
availability_change available = session_restored

abbrev pub availability_refusal : Availability → RejectionError
availability_refusal archived = already_archived
availability_refusal available = not_archived

unfoldable pub apply_availability :
    AvailabilityCommand → Availability → ℕ → Authority → Result (Authority × Outcome)
unfolding publish_session
apply_availability c target now db = do
  (db₁, (session, cursor)) ← publish_session c.session_id (availability_change target) now (
      update_session c.session_id
        (λ (x : Session). record x {
          availability = target;
          residency = sleeping;
          metadata_revision = x.metadata_revision + 1;
        })
        db)
  committed (db₁, availability_accepted session cursor)

unfoldable pub carry_out_availability :
    AvailabilityCommand → Availability → ℕ → Authority → Result (Authority × Outcome)
unfolding apply_availability
carry_out_availability c target now db = elim (find_session c.session_id db) [
  | none ↦ committed (db, availability_rejected unknown_session (cursor_of db))
  | some s ↦
      if not (s.metadata_revision == c.observed_metadata_revision)
      then committed (db, availability_rejected stale_precondition (cursor_of db))
      else if same_availability s.availability target
      then committed (db, availability_rejected (availability_refusal target) (cursor_of db))
      else if is_archived target && session_has_active_work c.session_id db
      then committed (db, availability_rejected session_not_quiescent (cursor_of db))
      else apply_availability c target now db
]

unfoldable pub change_session_availability :
    Hashes → AvailabilityCommand → Availability → ℕ → Authority → Result (Authority × Reply)
unfolding carry_out_availability
change_session_availability h c target now db =
    answer c.command_id (h.envelope (change_availability c target)) is_availability_outcome now
      (carry_out_availability c target now) db

unfoldable pub advance_read_state : MarkReadCommand → ℕ → Authority → Result (Authority × Outcome)
advance_read_state c now db = do
  let db₁ = advance_host now (
      update_session c.session_id
        (λ (x : Session). record x {
          read_through_timeline_revision = c.presented_timeline_revision;
          read_state_revision = x.read_state_revision + 1;
        })
        db)
  changed ← or_throw (find_session c.session_id db₁) schema_mismatch
  let state = read_state_from_basis changed
  (db₂, cursor) ← record_change (session_read_state_changed c.session_id state) db₁
  committed (db₂, mark_read_accepted advanced state cursor)

unfoldable pub carry_out_mark_read : MarkReadCommand → ℕ → Authority → Result (Authority × Outcome)
unfolding advance_read_state
carry_out_mark_read c now db = elim (find_session c.session_id db) [
  | none ↦ committed (db, mark_read_unknown (cursor_of db))
  | some s ↦
      if ltb c.presented_timeline_revision 1
        || ltb s.timeline_revision c.presented_timeline_revision
      then committed (db, mark_read_invalid (read_state_from_basis s) (cursor_of db))
      else if leb c.presented_timeline_revision s.read_through_timeline_revision
      then committed (db, mark_read_accepted no_op (read_state_from_basis s) (cursor_of db))
      else advance_read_state c now db
]

-- The storage adapter decides whether a new command commits.
unfoldable pub gate_commit : Bool → Result (Authority × Outcome) → Result (Authority × Outcome)
gate_commit commits r = do result ← r; require commits storage_fault; committed result

unfoldable pub mark_session_read :
    Hashes → MarkReadCommand → Bool → ℕ → Authority → Result (Authority × Reply)
unfolding carry_out_mark_read gate_commit
mark_session_read h c commits now db =
    answer c.command_id (h.envelope (mark_read c)) is_mark_read_outcome now
      (λ d. gate_commit commits (carry_out_mark_read c now d)) db

unfoldable pub put_to_sleep : ℕ → ℕ → Authority → Result (Authority × (SessionSummary × Cursor))
unfolding publish_session
put_to_sleep id now db = do
  require (not (session_has_active_work id db)) Error.session_not_quiescent
  publish_session id session_residency_changed now (
      update_session id
        (λ (x : Session). record x {
          residency = sleeping;
          metadata_revision = x.metadata_revision + 1;
        })
        db)

unfoldable pub already_asleep : ℕ → Authority → Result (Authority × (SessionSummary × Cursor))
already_asleep id db = do session ← load_session id db; committed (db, (session, cursor_of db))

unfoldable pub set_session_sleeping :
    ℕ → ℕ → Authority → Result (Authority × (SessionSummary × Cursor))
unfolding put_to_sleep already_asleep
set_session_sleeping id now db = do
  s ← or_throw (find_session id db) Error.unknown_session
  if is_resident s.residency then put_to_sleep id now db else already_asleep id db

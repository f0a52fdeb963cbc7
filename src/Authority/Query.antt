-- ===== src/Authority/Query.antt =====
-- The reads of packages/host/src/store.ts on which its transactions rest: the synchronization
-- cursor of `status`, `loadRun`, `loadSession`, `readStateFromBasis`, `sessionHasActiveWork`,
-- `nextTimelineOrder`, `validateSessionScope`, and the log of changes.
use pidex.Prelude.{
  ℕ, ◌+◌, Bool, true, false, ◌&&◌, ◌||◌, Option, none, some, ◌==◌, ltb, if◌then◌else◌, same?, any,
  find?, select, update_where, max_of,
}
use pidex.Authority.Schema.{
  Session, Run, Entry, Interaction, Project, Workspace, SessionReadState, read, unread,
  SessionSummary, Cursor, HostChange, Authority,
}
use pidex.Authority.Result.{
  Result, committed, or_throw, schema_mismatch, unknown_project, unknown_workspace,
  workspace_project_mismatch, require, ◌>>=◌, ◌>>◌,
}
use pidex.Authority.States.{is_active, is_active_interaction}
use pidex.Authority.Insert.{insert_change}
use pidex.Authority.Attention.{attention_row, attention_from_basis}

-- `status("").synchronization.cursor`; the row of `host` is always there.
unfoldable pub cursor_of : Authority → Cursor
cursor_of db = record {
  host_id = db.host.host_id;
  epoch = db.host.epoch;
  sequence = db.host.sequence;
}

unfoldable pub find_session : ℕ → Authority → Option Session
find_session id db = find? (λ (s : Session). s.session_id == id) db.sessions

unfoldable pub find_run : ℕ → Authority → Option Run
find_run id db = find? (λ (r : Run). r.run_id == id) db.runs

unfoldable pub load_run : ℕ → Authority → Result Run
unfolding find_run
load_run id db = or_throw (find_run id db) schema_mismatch

unfoldable pub load_entry : ℕ → Authority → Result Entry
load_entry id db = or_throw (find? (λ (e : Entry). e.entry_id == id) db.entries) schema_mismatch

unfoldable pub is_unread : Option ℕ → ℕ → Bool
is_unread none through = false
is_unread (some milestone) through = ltb through milestone

unfoldable pub read_state_from_basis : Session → SessionReadState
unfolding is_unread
read_state_from_basis s = record {
  read_through_timeline_revision = s.read_through_timeline_revision;
  read_status =
      if is_unread s.latest_unread_milestone s.read_through_timeline_revision then unread else read;
  read_state_revision = s.read_state_revision;
}

unfoldable pub summary_of : Session → Authority → SessionSummary
unfolding read_state_from_basis
summary_of s db =
    let (attention, activity) = attention_from_basis (attention_row s db) in
    record {
      row = s;
      read_state = read_state_from_basis s;
      attention = attention;
      activity = activity;
    }

unfoldable pub load_session : ℕ → Authority → Result SessionSummary
load_session id db = do
  s ← or_throw (find_session id db) schema_mismatch
  committed (summary_of s db)

-- UPDATE sessions SET … WHERE session_id = ?
abbrev pub update_session : ℕ → (Session → Session) → Authority → Authority
update_session id f db = record db {
  sessions = update_where (λ (s : Session). s.session_id == id) f db.sessions;
}

-- UPDATE host SET sequence = sequence + 1, committed_at = ?
abbrev pub advance_host : ℕ → Authority → Authority
advance_host now db = record db {
  host = record db.host { sequence = db.host.sequence + 1; committed_at = now };
}

unfoldable pub record_change : HostChange → Authority → Result (Authority × Cursor)
unfolding cursor_of
record_change change db = do
  db' ←
      insert_change
        (record {
          sequence = db.host.sequence;
          payload = change;
          committed_at = db.host.committed_at;
        })
        db
  committed (db', cursor_of db)

unfoldable pub session_has_active_work : ℕ → Authority → Bool
session_has_active_work id db =
    any (λ (r : Run). (r.session_id == id) && is_active r.state) db.runs
    || any (λ (i : Interaction). (i.session_id == id) && is_active_interaction i.state)
        db.interactions

unfoldable pub next_timeline_order : ℕ → Authority → ℕ
next_timeline_order id db =
    max_of (λ (e : Entry). e.entry_order) (select (λ (e : Entry). e.session_id == id) db.entries)
    + 1

unfoldable pub project_known : Option ℕ → Authority → Bool
project_known none db = true
project_known (some id) db = any (λ (p : Project). p.project_id == id) db.projects

unfoldable pub validate_session_scope : Option ℕ → Option ℕ → Authority → Result (Unit {0})
unfolding project_known
validate_session_scope project none db = require (project_known project db) unknown_project
validate_session_scope project (some w) db = do
  require (project_known project db) unknown_project
  workspace ←
      or_throw (find? (λ (x : Workspace). x.workspace_id == w) db.workspaces) unknown_workspace
  require (same? project (some workspace.project_id)) workspace_project_mismatch

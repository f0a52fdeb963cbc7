-- ===== src/Authority/Fork.antt =====
-- `forkSession` and `createProjectFromDirectory` of packages/host/src/store.ts, each in one transaction.
use pidex.Prelude.{
  Text, text_eq, ℕ, suc, ◌+◌, Bool, true, false, not, ◌&&◌, ◌||◌, List, [], ◌∷◌, ◌++◌, Option, none,
  some, ◌==◌, leb, if◌then◌else◌, length, any, select, find?, max_of, order_by,
}
use pidex.Authority.Schema.{
  Session, Run, RunState, completed, failed, cancelled, interrupted, Entry, EntryKind, response,
  outcome, interaction, Project, Workspace, checkout, SessionSummary, session_forked,
  project_created, Cursor, Authority,
}
use pidex.Authority.Result.{
  Result, committed, thrown, or_throw, require, invalid_fork_point, constraint_failed,
  project_name_required, directory_already_added, ◌>>=◌, ◌>>◌,
}
use pidex.Authority.Insert.{insert_session, insert_run, insert_entry}
use pidex.Authority.Query.{
  load_session, update_session, advance_host, record_change, validate_session_scope,
}
use pidex.Authority.Sessions.{new_session, publish_session}

-- `undefined` keeps the parent's, `null` is none.
abbrev pub given_or_parent : Option (Option ℕ) → Option ℕ → Option ℕ
given_or_parent none parent = parent
given_or_parent (some given) parent = given

-- The identifiers that are drawn for the copies of runs and entries.
pub record ForkRequest : Type 0 where
  pub parent_session_id : ℕ
  pub fork_point_entry_id : ℕ
  pub project_id : Option (Option ℕ)
  pub workspace_id : Option (Option ℕ)
  pub child_session_id : ℕ
  pub parent_checkpoint : Text
  pub child_genesis_checkpoint : Text
  pub child_run_id : ℕ → ℕ
  pub child_entry_id : ℕ → ℕ

abbrev pub is_response : EntryKind → Bool
is_response response = true
is_response _ = false

abbrev pub same_checkpoint : Option Text → Text → Bool
same_checkpoint none t = false
same_checkpoint (some c) t = text_eq c t

abbrev pub is_blank : Text → Bool
is_blank [] = true
is_blank (c ∷ cs) = false

unfoldable pub is_fork_point : ForkRequest → Entry → Bool
is_fork_point f point =
    point.finalized
    && (is_response point.kind
        && (same_checkpoint point.checkpoint f.parent_checkpoint
            && (not (is_blank f.child_genesis_checkpoint)
                && not (text_eq f.child_genesis_checkpoint f.parent_checkpoint))))

abbrev pub is_terminal : RunState → Bool
is_terminal completed = true
is_terminal failed = true
is_terminal cancelled = true
is_terminal interrupted = true
is_terminal _ = false

abbrev pub in_history : ForkRequest → Entry → Entry → Bool
in_history f point e = (e.session_id == f.parent_session_id) && leb e.entry_order point.entry_order

-- The entries up to the point, in their order.
unfoldable pub history_of : ForkRequest → Entry → List Entry → List Entry
history_of f point es =
    order_by (λ (a : Entry) (b : Entry). leb a.entry_order b.entry_order)
      (select (in_history f point) es)

-- A terminal Run of the parent that one of these entries names.
abbrev pub is_chosen : ForkRequest → Entry → List Entry → Run → Bool
is_chosen f point es r =
    (r.session_id == f.parent_session_id)
    && (is_terminal r.state
        && any (λ (e : Entry). in_history f point e && (e.run_id == r.run_id)) es)

unfoldable pub runs_of : ForkRequest → Entry → List Entry → List Run → List Run
runs_of f point es rs = select (is_chosen f point es) rs

abbrev pub child_run : ForkRequest → Run → Run
child_run f r = record r { run_id = f.child_run_id r.run_id; session_id = f.child_session_id }

unfoldable pub child_entry : ForkRequest → Entry → Entry → Entry
child_entry f point e = record e {
  entry_id = f.child_entry_id e.entry_id;
  session_id = f.child_session_id;
  run_id = f.child_run_id e.run_id;
  checkpoint =
      if e.entry_order == point.entry_order then some f.child_genesis_checkpoint else e.checkpoint;
}

unfoldable pub copy_runs : ForkRequest → List Run → Authority → Result Authority
copy_runs f [] db = committed db
copy_runs f (r ∷ rs) db = do db₁ ← insert_run (child_run f r) db; copy_runs f rs db₁

-- An entry of a run that was not copied, or one that is not final, refuses the fork.
abbrev pub is_copied : List Run → Entry → Bool
is_copied rs e = any (λ (r : Run). r.run_id == e.run_id) rs && e.finalized

unfoldable pub copy_entries :
    ForkRequest → Entry → List Run → List Entry → Authority → Result Authority
copy_entries f point rs [] db = committed db
copy_entries f point rs (e ∷ es) db = do
  require (is_copied rs e) invalid_fork_point
  db₁ ← insert_entry (child_entry f point e) db
  copy_entries f point rs es db₁

abbrev pub is_milestone : EntryKind → Bool
is_milestone response = true
is_milestone outcome = true
is_milestone interaction = true
is_milestone _ = false

-- MAX of no rows is NULL.
abbrev pub highest_order : List Entry → Option ℕ
highest_order [] = none
highest_order (e ∷ es) = some (max_of (λ (x : Entry). suc x.entry_order) (e ∷ es))

unfoldable pub latest_milestone : ℕ → Authority → Option ℕ
latest_milestone id db =
    highest_order (select (λ (e : Entry). (e.session_id == id) && is_milestone e.kind) db.entries)

unfoldable pub child_session : ForkRequest → Session → ℕ → Session
child_session f parent now =
    record (new_session f.child_session_id (given_or_parent f.project_id parent.project_id)
      (given_or_parent f.workspace_id parent.workspace_id) now) {
        parent_session_id = some f.parent_session_id;
        fork_point_entry_id = some f.fork_point_entry_id;
      }

abbrev pub with_history : ℕ → Option ℕ → Session → Session
with_history entries milestone s = record s {
  timeline_revision = entries + 1;
  read_through_timeline_revision = entries + 1;
  latest_unread_milestone = milestone;
}

-- What is copied, behind the insertion of the child.
unfoldable pub copy_history : ForkRequest → Entry → Authority → Result Authority
copy_history f point db = do
  let runs = runs_of f point db.entries db.runs
  let history = history_of f point db.entries
  db₁ ← copy_runs f runs db
  db₂ ← copy_entries f point runs history db₁
  committed (
      update_session f.child_session_id
        (with_history (length history) (latest_milestone f.child_session_id db₂)) db₂)

abbrev pub find_point : ForkRequest → Authority → Option Entry
find_point f db =
    find?
      (λ (e : Entry).
        (e.session_id == f.parent_session_id) && (e.entry_id == f.fork_point_entry_id))
      db.entries

unfoldable pub fork_session :
    ForkRequest → ℕ → Authority → Result (Authority × (SessionSummary × Cursor))
fork_session f now db = do
  parent ← load_session f.parent_session_id db
  point ← or_throw (find_point f db) invalid_fork_point
  require (is_fork_point f point) invalid_fork_point
  validate_session_scope (given_or_parent f.project_id parent.row.project_id)
      (given_or_parent f.workspace_id parent.row.workspace_id) db
  db₁ ← insert_session (child_session f parent.row now) db
  db₂ ← copy_history f point db₁
  publish_session f.child_session_id session_forked now db₂

abbrev pub has_path : Text → Option Text → Bool
has_path path none = false
has_path path (some p) = text_eq p path

-- A project, or a workspace of a project, has the path.
unfoldable pub is_added : Text → Authority → Bool
is_added path db =
    any
      (λ (p : Project).
        has_path path p.path
        || any (λ (w : Workspace). (w.project_id == p.project_id) && has_path path w.path)
            db.workspaces)
      db.projects

unfoldable pub insert_project : Project → Authority → Result Authority
insert_project p db =
    if any (λ (x : Project). x.project_id == p.project_id) db.projects
    then thrown constraint_failed
    else committed (record db { projects = db.projects ++ p ∷ [] })

-- The first workspace of a new project.
unfoldable pub insert_checkout : Workspace → Authority → Result Authority
insert_checkout w db =
    if any (λ (x : Workspace). x.workspace_id == w.workspace_id) db.workspaces
    then thrown constraint_failed
    else if any (λ (p : Project). p.project_id == w.project_id) db.projects
    then committed (record db { workspaces = db.workspaces ++ w ∷ [] })
    else thrown constraint_failed

abbrev pub checkout_of : Project → ℕ → Text → Workspace
checkout_of p id path = record {
  workspace_id = id;
  project_id = p.project_id;
  name = p.name;
  path = some path;
  kind = some checkout;
  managed = some false;
}

-- `trim` is that of the language's strings; the identifiers are drawn at random.
unfoldable pub create_project_from_directory :
    (Text → Text)
    → Text
    → Text
    → ℕ
    → ℕ
    → ℕ
    → Authority
    → Result (Authority × (Project × (Workspace × Cursor)))
create_project_from_directory trim name path project_id workspace_id now db =
    let project : Project = record {
      project_id = project_id;
      name = trim name;
      path = some path;
    } in
    let workspace = checkout_of project workspace_id path in
    do
      require (not (is_blank (trim name))) project_name_required
      require (not (is_added path db)) directory_already_added
      db₁ ← insert_project project db
      db₂ ← insert_checkout workspace db₁
      (db₃, cursor) ← record_change (project_created project workspace) (advance_host now db₂)
      committed (db₃, (project, (workspace, cursor)))

-- ===== src/Authority/ForkFrame.antt =====
-- What `forkSession` and `createProjectFromDirectory` of packages/host/src/store.ts keep, by the writes
-- that they are made of.
use pidex.Prelude.{ℕ, ◌≡◌, true, List, [], ◌∷◌, All, Text, not, some}
use pidex.Authority.Schema.{
  Session, Run, Entry, SessionSummary, Project, Workspace, Cursor, Authority, HostChange,
  session_forked, project_created,
}
use pidex.Authority.Result.{
  Result, committed, thrown, require, or_throw, invalid_fork_point, project_name_required,
  directory_already_added, after, ◌>>=◌,
}
use pidex.Authority.Insert.{insert_session, insert_run, insert_entry}
use pidex.Authority.Query.{
  load_session, update_session, advance_host, record_change, validate_session_scope,
}
use pidex.Authority.Sessions.{publish_session}
use pidex.Authority.Fork.{
  ForkRequest, is_fork_point, is_terminal, history_of, runs_of, child_run, child_entry, copy_runs,
  is_copied, copy_entries, copy_history, child_session, given_or_parent, find_point, fork_session,
  insert_project, insert_checkout, create_project_from_directory, checkout_of, is_blank, is_added,
}
use pidex.Authority.ForkCopy.{Commits, bind-Commits}
use pidex.Authority.ForkHistory.{runs_of-terminal, Commits-any, with_child}

-- Each write keeps a condition on the authority; a Run that is copied has ended.
pub record IsClosed (P : Authority → Type 0) : Type 0 where
  pub sessions : (s : Session) (d : Authority) → P d → Commits P (insert_session s d)
  pub runs :
      (r : Run) (d : Authority) → is_terminal r.state ≡ true → P d → Commits P (insert_run r d)
  pub entries : (e : Entry) (d : Authority) → P d → Commits P (insert_entry e d)
  pub updates : (id : ℕ) (g : Session → Session) (d : Authority) → P d → P (update_session id g d)
  pub projects : (p : Project) (d : Authority) → P d → Commits P (insert_project p d)
  pub checkouts : (c : Workspace) (d : Authority) → P d → Commits P (insert_checkout c d)
  pub logs :
      (now : ℕ) (change : HostChange) (d : Authority)
      → P d
      → Commits (λ p. P p.0) (record_change change (advance_host now d))

module _ (P : Authority → Type 0) (c : IsClosed P) where
  copy_runs-Stable :
      (f : ForkRequest) (rs : List Run) (d : Authority)
      → All (λ (r : Run). is_terminal r.state ≡ true) rs
      → P d
      → Commits P (copy_runs f rs d)
  unfolding copy_runs
  copy_runs-Stable f [] d h k = k
  copy_runs-Stable f (r ∷ rs) d h k =
      bind-Commits P P (insert_run (child_run f r) d) (copy_runs f rs)
        (c.runs (child_run f r) d h.0 k) (λ a l. copy_runs-Stable f rs a h.1 l)

  copy_entries-Stable :
      (f : ForkRequest) (point : Entry) (rs : List Run) (es : List Entry) (d : Authority)
      → P d
      → Commits P (copy_entries f point rs es d)
  unfolding copy_entries
  copy_entries-Stable f point rs [] d k = k
  copy_entries-Stable f point rs (e ∷ es) d k =
      bind-Commits (λ u. Unit {0}) P (require (is_copied rs e) invalid_fork_point)
        (λ u. insert_entry (child_entry f point e) d >>= copy_entries f point rs es)
        (Commits-any (require (is_copied rs e) invalid_fork_point))
        (λ u v.
          bind-Commits P P (insert_entry (child_entry f point e) d) (copy_entries f point rs es)
            (c.entries (child_entry f point e) d k) (λ a l. copy_entries-Stable f point rs es a l))

  copy_history-Stable :
      (f : ForkRequest) (point : Entry) (d : Authority) → P d → Commits P (copy_history f point d)
  unfolding copy_history
  copy_history-Stable f point d k =
      let rs = runs_of f point d.entries d.runs in
      let es = history_of f point d.entries in
      bind-Commits P P (copy_runs f rs d)
        (λ a. copy_entries f point rs es a >>= λ b. committed (with_child f es b))
        (copy_runs-Stable f rs d (runs_of-terminal f point d.entries d.runs) k)
        (λ a l.
          bind-Commits P P (copy_entries f point rs es a) (λ b. committed (with_child f es b))
            (copy_entries-Stable f point rs es a l) (λ b m. c.updates f.child_session_id _ b m))

  publish_session-Stable :
      (id : ℕ) (change : SessionSummary → HostChange) (now : ℕ) (d : Authority)
      → P d
      → Commits
          (λ (p : Authority × (SessionSummary × Cursor)). P p.0)
          (publish_session id change now d)
  unfolding publish_session
  publish_session-Stable id change now d k =
      bind-Commits (λ session. Unit {0}) (λ p. P p.0) (load_session id (advance_host now d))
        (λ session. record_change (change session) (advance_host now d) >>= λ p.
          committed (p.0, (session, p.1)))
        (Commits-any (load_session id (advance_host now d)))
        (λ session u.
          bind-Commits (λ p. P p.0) (λ p. P p.0)
            (record_change (change session) (advance_host now d))
            (λ p. committed (p.0, (session, p.1))) (c.logs now (change session) d k) (λ p h. h))

  insert_fork-Stable :
      (f : ForkRequest) (now : ℕ) (point : Entry) (child : Session) (d : Authority)
      → P d
      → Commits
          (λ (p : Authority × (SessionSummary × Cursor)). P p.0)
          (insert_session child d >>= λ t.
            copy_history f point t >>= publish_session f.child_session_id session_forked now)
  insert_fork-Stable f now point child d k =
      let Q = λ (p : Authority × (SessionSummary × Cursor)). P p.0 in
      let publish = publish_session f.child_session_id session_forked now in
      bind-Commits P Q (insert_session child d) (λ t. copy_history f point t >>= publish)
        (c.sessions child d k)
        (λ t l.
          bind-Commits P Q (copy_history f point t) publish (copy_history-Stable f point t l)
            (λ a m. publish_session-Stable f.child_session_id session_forked now a m))

  fork_session-Stable :
      (f : ForkRequest) (now : ℕ) (d : Authority)
      → P d
      → Commits (λ (p : Authority × (SessionSummary × Cursor)). P p.0) (fork_session f now d)
  unfolding fork_session
  fork_session-Stable f now d k =
      let Q = λ (p : Authority × (SessionSummary × Cursor)). P p.0 in
      bind-Commits (λ x. Unit {0}) Q (load_session f.parent_session_id d) _
        (Commits-any (load_session f.parent_session_id d))
        (λ parent u.
          bind-Commits (λ x. Unit {0}) Q (or_throw (find_point f d) invalid_fork_point) _
            (Commits-any (or_throw (find_point f d) invalid_fork_point))
            (λ point u.
              bind-Commits (λ x. Unit {0}) Q (require (is_fork_point f point) invalid_fork_point) _
                (Commits-any (require (is_fork_point f point) invalid_fork_point))
                (λ u v.
                  bind-Commits (λ x. Unit {0}) Q
                    (validate_session_scope (given_or_parent f.project_id parent.row.project_id)
                      (given_or_parent f.workspace_id parent.row.workspace_id) d)
                    _
                    (Commits-any (
                      validate_session_scope (given_or_parent f.project_id parent.row.project_id)
                        (given_or_parent f.workspace_id parent.row.workspace_id) d))
                    (λ u v. insert_fork-Stable f now point (child_session f parent.row now) d k))))

  create_project-Stable :
      (trim : Text → Text) (name path : Text) (project_id workspace_id now : ℕ) (d : Authority)
      → P d
      → Commits
          (λ (p : Authority × (Project × (Workspace × Cursor))). P p.0)
          (create_project_from_directory trim name path project_id workspace_id now d)
  unfolding create_project_from_directory
  create_project-Stable trim name path project_id workspace_id now d k =
      let project : Project = record {
        project_id = project_id;
        name = trim name;
        path = some path;
      } in
      let workspace = checkout_of project workspace_id path in
      let Q = λ (p : Authority × (Project × (Workspace × Cursor))). P p.0 in
      bind-Commits (λ x. Unit {0}) Q (require (not (is_blank (trim name))) project_name_required) _
        (Commits-any (require (not (is_blank (trim name))) project_name_required))
        (λ u v.
          bind-Commits (λ x. Unit {0}) Q (require (not (is_added path d)) directory_already_added) _
            (Commits-any (require (not (is_added path d)) directory_already_added))
            (λ u v. bind-Commits P Q (insert_project project d) _ (c.projects project d k) (λ a l.
              bind-Commits P Q (insert_checkout workspace a) _ (c.checkouts workspace a l) (λ b m.
                bind-Commits (λ p. P p.0) Q
                  (record_change (project_created project workspace) (advance_host now b)) _
                  (c.logs now (project_created project workspace) b m) (λ p h. h)))))

  after-Stable {ℓ} :
      {A : Type ℓ} (d : Authority) (m : Result (Authority × A))
      → P d
      → Commits (λ p. P p.0) m
      → P (after d m)
  after-Stable d (committed p) k h = h
  after-Stable d (thrown e) k h = k

  pub after_fork :
      (f : ForkRequest) (now : ℕ) (d : Authority) → P d → P (after d (fork_session f now d))
  after_fork f now d k = after-Stable d (fork_session f now d) k (fork_session-Stable f now d k)

  pub after_project :
      (trim : Text → Text) (name path : Text) (project_id workspace_id now : ℕ) (d : Authority)
      → P d
      → P (after d (create_project_from_directory trim name path project_id workspace_id now d))
  after_project trim name path project_id workspace_id now d k =
      after-Stable d (create_project_from_directory trim name path project_id workspace_id now d) k
        (create_project-Stable trim name path project_id workspace_id now d k)

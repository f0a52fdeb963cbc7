-- ===== src/Authority/ForkHistory.antt =====
-- What `forkSession` of packages/host/src/store.ts copies.
use pidex.Prelude.{
  ℕ, ◌≡◌, refl, ap, subst, ◌∙◌, inl, inr, Bool, true, ◌&&◌, List, [], ◌++◌, some, map, append-nil,
  arith, length, select-All, All-weaken, any, select, All, Bool-cases, Option-cases, ◌==◌,
}
use pidex.Authority.Schema.{
  Session, Run, Entry, SessionSummary, Cursor, Authority, session_forked, HostChange, Change,
  Project, Workspace,
}
use pidex.Authority.Result.{Result, committed, thrown, ◌>>=◌, Result-cases}
use pidex.Authority.Insert.{has_session, refers, insert_session, insert_change}
use pidex.Authority.Query.{
  load_session, update_session, advance_host, record_change, validate_session_scope,
}
use pidex.Authority.Sessions.{publish_session}
use pidex.Authority.Fork.{
  ForkRequest, is_fork_point, is_terminal, history_of, runs_of, child_run, child_entry, copy_runs,
  is_copied, copy_entries, copy_history, child_session, given_or_parent, find_point, is_chosen,
  latest_milestone, with_history, fork_session,
}
use pidex.Authority.ForkCopy.{
  Commits, bind-Commits, Commits-weaken, IsAppended, IsAppended-then, copy_runs-Commits,
  copy_entries-Commits,
}

-- What a fork copies: the history of the parent up to the point, of which every entry is final and
-- belongs to a terminal Run that is copied with it. No other Run and no other entry is changed.
pub record IsHistoryCopied (f : ForkRequest) (db d : Authority) : Type 0 where
  pub point : Entry
  pub is_found : find_point f db ≡ some point
  pub is_admitted : is_fork_point f point ≡ true
  pub runs : d.runs ≡ db.runs ++ map (child_run f) (runs_of f point db.entries db.runs)
  pub entries : d.entries ≡ db.entries ++ map (child_entry f point) (history_of f point db.entries)
  pub are_copied :
      All
        (λ (e : Entry). is_copied (runs_of f point db.entries db.runs) e ≡ true)
        (history_of f point db.entries)
  pub are_terminal :
      All (λ (r : Run). is_terminal r.state ≡ true) (runs_of f point db.entries db.runs)

-- An operation that changes neither Runs nor entries.
abbrev IsSameHistory : Authority → Authority → Type 0
IsSameHistory db d = (d.runs ≡ db.runs) × (d.entries ≡ db.entries)

abbrev references_exist : Session → Authority → Bool
references_exist s db =
    refers (λ id. any (λ (p : Project). p.project_id == id) db.projects) s.project_id
    && refers (λ id. any (λ (w : Workspace). w.workspace_id == id) db.workspaces) s.workspace_id
    && refers (λ id. has_session id db.sessions) s.parent_session_id

insert_session-Commits :
    (s : Session) (db : Authority) → Commits (IsSameHistory db) (insert_session s db)
unfolding insert_session
insert_session-Commits s db = elim (Bool-cases (has_session s.session_id db.sessions)) [
  | inl e ↦ rw e tt
  | inr e ↦ elim (Bool-cases (references_exist s db)) [
    | inl k ↦ rw (e, k) (refl, refl)
    | inr k ↦ rw (e, k) tt
  ]
]

pub Commits-any {ℓ} : {A : Type ℓ} (m : Result A) → Commits (λ a. Unit {0}) m
Commits-any (committed a) = tt
Commits-any (thrown e) = tt

record_change-Commits :
    (change : HostChange) (db : Authority)
    → Commits (λ p. IsSameHistory db p.0) (record_change change db)
unfolding record_change insert_change
record_change-Commits change db =
    elim (Bool-cases (any (λ (x : Change). x.sequence == db.host.sequence) db.changes)) [
      | inl e ↦ rw e tt
      | inr e ↦ rw e (refl, refl)
    ]

publish_session-Commits :
    (id : ℕ) (change : SessionSummary → HostChange) (now : ℕ) (db : Authority)
    → Commits (λ p. IsSameHistory db p.0) (publish_session id change now db)
unfolding publish_session
publish_session-Commits id change now db =
    bind-Commits (λ session. Unit {0}) (λ p. IsSameHistory db p.0)
      (load_session id (advance_host now db))
      (λ session. record_change (change session) (advance_host now db) >>= λ p.
        committed (p.0, (session, p.1)))
      (Commits-any (load_session id (advance_host now db)))
      (λ session u.
        bind-Commits (λ p. IsSameHistory db p.0) (λ p. IsSameHistory db p.0)
          (record_change (change session) (advance_host now db))
          (λ p. committed (p.0, (session, p.1)))
          (record_change-Commits (change session) (advance_host now db)) (λ p h. h))

abbrev pub with_child : ForkRequest → List Entry → Authority → Authority
with_child f es db =
    update_session f.child_session_id
      (with_history (length es) (latest_milestone f.child_session_id db)) db

pub runs_of-terminal :
    (f : ForkRequest) (point : Entry) (es : List Entry) (rs : List Run)
    → All (λ (r : Run). is_terminal r.state ≡ true) (runs_of f point es rs)
unfolding runs_of
runs_of-terminal f point es rs =
    All-weaken (λ (r : Run). is_chosen f point es r ≡ true)
      (λ (r : Run). is_terminal r.state ≡ true) (λ (r : Run) h. ground arith)
      (select (is_chosen f point es) rs) (select-All (is_chosen f point es) rs)

module _ (f : ForkRequest) (now : ℕ) (db : Authority) where
  IsHistoryCopied-of :
      (point : Entry) (t b : Authority)
      → IsSameHistory db t
      → find_point f db ≡ some point
      → is_fork_point f point ≡ true
      → b.runs ≡ t.runs ++ (map (child_run f) (runs_of f point t.entries t.runs) ++ [])
      → b.entries ≡ t.entries ++ map (child_entry f point) (history_of f point t.entries)
      → All
          (λ (e : Entry). is_copied (runs_of f point t.entries t.runs) e ≡ true)
          (history_of f point t.entries)
      → IsHistoryCopied f db (with_child f (history_of f point t.entries) b)
  IsHistoryCopied-of point t b same found admitted runs entries copied =
      let G =
        λ (rs : List Run) (es : List Entry). rs ++ map (child_run f) (runs_of f point es rs) in
      let P = λ (rs : List Run) (es : List Entry).
        All (λ (e : Entry). is_copied (runs_of f point es rs) e ≡ true) (history_of f point es) in
      record {
        point = point;
        is_found = found;
        is_admitted = admitted;
        runs =
            runs
            ∙ ap (λ (xs : List Run). t.runs ++ xs)
                (append-nil (map (child_run f) (runs_of f point t.entries t.runs)))
            ∙ ap (λ (rs : List Run). G rs t.entries) same.0
            ∙ ap (G db.runs) same.1;
        entries =
            entries
            ∙ ap (λ (es : List Entry). es ++ map (child_entry f point) (history_of f point es))
                same.1;
        are_copied =
            subst (λ (es : List Entry). P db.runs es) same.1
              (subst (λ (rs : List Run). P rs t.entries) same.0 copied);
        are_terminal = runs_of-terminal f point db.entries db.runs;
      }

  copy_history-Commits :
      (point : Entry) (t : Authority)
      → IsSameHistory db t
      → find_point f db ≡ some point
      → is_fork_point f point ≡ true
      → Commits (IsHistoryCopied f db) (copy_history f point t)
  unfolding copy_history
  copy_history-Commits point t same found admitted =
      let rs = runs_of f point t.entries t.runs in
      let es = history_of f point t.entries in
      bind-Commits (λ a. IsAppended t a (map (child_run f) rs) []) (IsHistoryCopied f db)
        (copy_runs f rs t)
        (λ a. copy_entries f point rs es a >>= λ b. committed (with_child f es b))
        (copy_runs-Commits f rs t)
        (λ a h.
          bind-Commits
            (λ b.
              IsAppended a b [] (map (child_entry f point) es)
              × All (λ e. is_copied rs e ≡ true) es)
            (IsHistoryCopied f db) (copy_entries f point rs es a)
            (λ b. committed (with_child f es b)) (copy_entries-Commits f point rs es a)
            (λ b k.
              let both =
                IsAppended-then t a b (map (child_run f) rs) [] [] (map (child_entry f point) es) h
                  k.0 in
              IsHistoryCopied-of point t b same found admitted both.runs both.entries k.1))

  commit_fork :
      (point : Entry) (child : Session)
      → find_point f db ≡ some point
      → is_fork_point f point ≡ true
      → Commits
          (λ (p : Authority × (SessionSummary × Cursor)). IsHistoryCopied f db p.0)
          (insert_session child db >>= λ t.
            copy_history f point t >>= publish_session f.child_session_id session_forked now)
  commit_fork point child found admitted =
      let Q = λ (p : Authority × (SessionSummary × Cursor)). IsHistoryCopied f db p.0 in
      let publish = publish_session f.child_session_id session_forked now in
      bind-Commits (IsSameHistory db) Q (insert_session child db)
        (λ t. copy_history f point t >>= publish) (insert_session-Commits child db)
        (λ t same.
          bind-Commits (IsHistoryCopied f db) Q (copy_history f point t) publish
            (copy_history-Commits point t same found admitted)
            (λ c k.
              Commits-weaken (λ (p : Authority × (SessionSummary × Cursor)). IsSameHistory c p.0) Q
                (publish c)
                (λ p h. record {
                  point = k.point;
                  is_found = k.is_found;
                  is_admitted = k.is_admitted;
                  runs = h.0 ∙ k.runs;
                  entries = h.1 ∙ k.entries;
                  are_copied = k.are_copied;
                  are_terminal = k.are_terminal;
                })
                (publish_session-Commits f.child_session_id session_forked now c)))

  fork_session-Commits :
      Commits
        (λ (p : Authority × (SessionSummary × Cursor)). IsHistoryCopied f db p.0)
        (fork_session f now db)
  unfolding fork_session
  fork_session-Commits = elim (Result-cases (load_session f.parent_session_id db)) [
    | inr (x, k) ↦ rw k tt
    | inl (parent, k) ↦ rw k elim (Option-cases (find_point f db)) [
      | inl m ↦ rw m tt
      | inr (point, m) ↦ rw m elim (Bool-cases (is_fork_point f point)) [
        | inr a ↦ rw a tt
        | inl a ↦
            rw a
              elim (Result-cases (
                validate_session_scope (given_or_parent f.project_id parent.row.project_id)
                  (given_or_parent f.workspace_id parent.row.workspace_id) db)) [
                    | inr (x, v) ↦ rw v tt
                    | inl (u, v) ↦ rw v (commit_fork point (child_session f parent.row now) m a)
                  ]
      ]
    ]
  ]

  -- A fork that commits copies the final history of its parent up to the fork point, each entry with its
  -- terminal Run, and adds nothing else to the Runs and the entries, which are otherwise as they were.
  pub fork_session-copies :
      (d : Authority) (session : SessionSummary) (cursor : Cursor)
      → fork_session f now db ≡ committed (d, (session, cursor))
      → IsHistoryCopied f db d
  fork_session-copies d session cursor e =
      subst (Commits (λ (p : Authority × (SessionSummary × Cursor)). IsHistoryCopied f db p.0)) e
        fork_session-Commits

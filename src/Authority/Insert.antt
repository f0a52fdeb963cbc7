-- ===== src/Authority/Insert.antt =====
-- The INSERT statements of the store, with the keys and references that the tables of
-- packages/host/src/authority-schema.ts declare: a taken key or a missing row refuses the insertion.
use pidex.Prelude.{
  ℕ, Bool, true, ◌&&◌, List, [], ◌∷◌, ◌++◌, Option, none, some, ◌==◌, if◌then◌else◌, any,
}
use pidex.Authority.Schema.{
  Session, Run, Entry, Interaction, Steering, Change, Receipt, Authority, Project, Workspace,
}
use pidex.Authority.Result.{Result, committed, thrown, constraint_failed}

abbrev pub has_session : ℕ → List Session → Bool
has_session id = any (λ (s : Session). s.session_id == id)

abbrev pub has_run : ℕ → List Run → Bool
has_run id = any (λ (r : Run). r.run_id == id)

-- A reference column that is NULL refers to nothing.
abbrev pub refers : (ℕ → Bool) → Option ℕ → Bool
refers exists none = true
refers exists (some id) = exists id

unfoldable pub insert_run : Run → Authority → Result Authority
insert_run r db =
    if has_run r.run_id db.runs
    then thrown constraint_failed
    else if any
        (λ (x : Run). (x.session_id == r.session_id) && (x.session_order == r.session_order))
        db.runs
    then thrown constraint_failed
    else if has_session r.session_id db.sessions
    then committed (record db { runs = db.runs ++ r ∷ [] })
    else thrown constraint_failed

unfoldable pub insert_entry : Entry → Authority → Result Authority
insert_entry e db =
    if any (λ (x : Entry). x.entry_id == e.entry_id) db.entries
    then thrown constraint_failed
    else if any (λ (x : Entry). (x.session_id == e.session_id) && (x.entry_order == e.entry_order))
        db.entries
    then thrown constraint_failed
    else committed (record db { entries = db.entries ++ e ∷ [] })

unfoldable pub insert_receipt : Receipt → Authority → Result Authority
insert_receipt r db =
    if any (λ (x : Receipt). x.command_id == r.command_id) db.receipts
    then thrown constraint_failed
    else committed (record db { receipts = db.receipts ++ r ∷ [] })

unfoldable pub insert_change : Change → Authority → Result Authority
insert_change c db =
    if any (λ (x : Change). x.sequence == c.sequence) db.changes
    then thrown constraint_failed
    else committed (record db { changes = db.changes ++ c ∷ [] })

unfoldable pub insert_session : Session → Authority → Result Authority
insert_session s db =
    if has_session s.session_id db.sessions
    then thrown constraint_failed
    else if refers (λ id. any (λ (p : Project). p.project_id == id) db.projects) s.project_id
        && refers (λ id. any (λ (w : Workspace). w.workspace_id == id) db.workspaces) s.workspace_id
        && refers (λ id. has_session id db.sessions) s.parent_session_id
    then committed (record db { sessions = db.sessions ++ s ∷ [] })
    else thrown constraint_failed

unfoldable pub insert_interaction : Interaction → Authority → Result Authority
insert_interaction i db =
    if any (λ (x : Interaction). x.interaction_id == i.interaction_id) db.interactions
    then thrown constraint_failed
    else if any
        (λ (x : Interaction).
          (x.session_id == i.session_id)
          && (x.worker_generation == i.worker_generation)
          && (x.correlation_id == i.correlation_id))
        db.interactions
    then thrown constraint_failed
    else if has_session i.session_id db.sessions && refers (λ id. has_run id db.runs) i.run_id
    then committed (record db { interactions = db.interactions ++ i ∷ [] })
    else thrown constraint_failed

unfoldable pub insert_steering : Steering → Authority → Result Authority
insert_steering s db =
    if any (λ (x : Steering). x.command_id == s.command_id) db.steering
    then thrown constraint_failed
    else if has_run s.run_id db.runs
    then committed (record db { steering = db.steering ++ s ∷ [] })
    else thrown constraint_failed

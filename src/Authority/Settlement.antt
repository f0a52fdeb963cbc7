-- ===== src/Authority/Settlement.antt =====
-- The end of a Run in packages/host/src/store.ts: `settleRun`, `reconcileAcceptedRuns` after a Host
-- loss, `recoverWorkerLoss` after a worker's, and `resetResidencyOnStartup`.
-- The storage adapter's fault boundary and the completion evidence on disk are arguments.
use pidex.Prelude.{
  Text, codes, ℕ, Bool, true, false, ◌&&◌, List, [], ◌∷◌, Option, none, some, map, ◌==◌,
  if◌then◌else◌, select, update_where,
}
use pidex.Authority.Schema.{
  Session, Run, RunState, Entry, EntryKind, response, outcome, Interaction, withdrawn, worker_lost,
  sleeping, Authority,
}
use pidex.Authority.Result.{
  Result, committed, thrown, Error, or_throw, require, schema_mismatch, run_not_accepted,
  storage_fault, ◌>>=◌, ◌>>◌,
}
use pidex.Authority.States.{is_cancelling, is_in_flight, is_resident, is_active_interaction}
use pidex.Authority.Insert.{insert_entry}
use pidex.Authority.Query.{
  find_run, find_session, load_run, next_timeline_order, update_session, advance_host,
}
use pidex.Authority.Command.{Hashes}
use pidex.Authority.Runs.{set_state, end_run, update_runs, hold_queued}
use pidex.Authority.Interactions.{
  record_unread_milestone, max_timeline_bump, interactions, settle, settle_interaction,
}
use pidex.Authority.Control.{mark_run_steering_unapplied}

-- `TerminalRun["state"]`
pub data TerminalState : Type 0 where
  completed failed cancelled interrupted : TerminalState

abbrev pub to_run_state : TerminalState → RunState
to_run_state TerminalState.completed = RunState.completed
to_run_state TerminalState.failed = RunState.failed
to_run_state TerminalState.cancelled = RunState.cancelled
to_run_state TerminalState.interrupted = RunState.interrupted

abbrev pub outcome_kind : TerminalState → EntryKind
outcome_kind TerminalState.completed = response
outcome_kind _ = outcome

-- What one try at a settlement is given: the identifier drawn for its entry, and whether the
-- storage adapter lets it commit.
pub record Attempt : Type 0 where
  pub entry_id : ℕ
  pub commits : Bool

unfoldable pub settlement_entry :
    Hashes → Run → TerminalState → Text → Option Text → ℕ → ℕ → Authority → Entry
settlement_entry h run result text checkpoint entry_id now db = record {
  entry_id = entry_id;
  session_id = run.session_id;
  run_id = run.run_id;
  entry_order = next_timeline_order run.session_id db;
  kind = outcome_kind result;
  text = text;
  checkpoint = checkpoint;
  blob_id = some (h.text text);
  created_at = now;
  revision = 1;
  finalized = true;
  tool_call_id = none;
}

abbrev pub end_in_flight : ℕ → TerminalState → ℕ → Authority → Authority
end_in_flight run_id result now =
    update_runs (λ (r : Run). (r.run_id == run_id) && is_in_flight r.state)
      (end_run (to_run_state result) now)

unfoldable pub settle_run :
    Hashes
    → ℕ
    → TerminalState
    → Text
    → Option Text
    → Attempt
    → ℕ
    → Authority
    → Result (Authority × Run)
unfolding settlement_entry find_run
settle_run h run_id result text checkpoint attempt now db = do
  run ← or_throw (find_run run_id db) run_not_accepted
  require (is_in_flight run.state) run_not_accepted
  db₁ ← insert_entry (settlement_entry h run result text checkpoint attempt.entry_id now db) db
  let db₂ = update_session run.session_id max_timeline_bump (end_in_flight run_id result now db₁)
  session ← or_throw (find_session run.session_id db₂) schema_mismatch
  db₃ ← record_unread_milestone run.session_id session.timeline_revision now db₂
  require attempt.commits storage_fault
  committed (advance_host now db₃, set_state (to_run_state result) run)

-- `readCompletionEvidence`: nothing there, a file that is not a proof, or the proved completion.
pub data Evidence : Type 0 where
  absent corrupt : Evidence
  proved : Text → Text → Evidence

-- What recovery finds on disk, and is given for its tries: a run's second settlement follows only
-- where the first throws.
pub record Recovery : Type 0 where
  pub intact : Bool
  pub evidence : ℕ → Evidence
  pub first : ℕ → Attempt
  pub second : ℕ → Attempt

abbrev pub cancellation_notice : Text
cancellation_notice =
    codes
      "Host recovery interrupted an unproved cancellation. Partial output and committed side effects were preserved."

abbrev pub interruption_notice : Text
interruption_notice =
    codes
      "Host recovery interrupted execution because normal completion could not be proved. Partial output and committed side effects were preserved."

unfoldable pub interrupt_run :
    Hashes → Text → Attempt → ℕ → ℕ → Authority → Result (Authority × Run)
interrupt_run h text attempt now run_id db =
    settle_run h run_id TerminalState.interrupted text none attempt now db

-- a refusal of the proved settlement falls to the handler, which interrupts the run
unfoldable pub complete_or_interrupt :
    Hashes → Recovery → ℕ → ℕ → Result (Authority × Run) → Authority → Result (Authority × Run)
unfolding interrupt_run
complete_or_interrupt h rec now run_id (committed settled) db = committed settled
complete_or_interrupt h rec now run_id (thrown e) db =
    interrupt_run h interruption_notice (rec.second run_id) now run_id db

unfoldable pub reconcile_by_evidence :
    Hashes → Recovery → ℕ → ℕ → Evidence → Authority → Result (Authority × Run)
unfolding complete_or_interrupt interrupt_run
reconcile_by_evidence h rec now run_id (proved text checkpoint) db =
    complete_or_interrupt h rec now run_id
      (settle_run h run_id TerminalState.completed text (some checkpoint) (rec.first run_id) now db)
      db
reconcile_by_evidence h rec now run_id _ db =
    interrupt_run h interruption_notice (rec.second run_id) now run_id db

-- The body of the loop over `executingRuns`.
unfoldable pub reconcile_run : Hashes → Recovery → ℕ → ℕ → Authority → Result (Authority × Run)
unfolding reconcile_by_evidence interrupt_run
reconcile_run h rec now run_id db = do
  run ← load_run run_id db
  if is_cancelling run.state
      then interrupt_run h cancellation_notice (rec.first run_id) now run_id db
      else reconcile_by_evidence h rec now run_id (rec.evidence run_id) db

abbrev pub hold_all : List ℕ → Authority → Authority
hold_all [] db = db
hold_all (id ∷ ids) db = hold_all ids (hold_queued id db)

-- Each run settles in a transaction of its own: an error ends the recovery and keeps what the runs
-- before it have committed.
unfoldable pub reconcile_runs :
    Hashes → Recovery → ℕ → List Run → Authority → Authority × Option Error
reconcile_runs h rec now [] db = (db, none)
reconcile_runs h rec now (r ∷ rs) db = elim (reconcile_run h rec now r.run_id db) [
  | committed (db₁, run) ↦ reconcile_runs h rec now rs db₁
  | thrown e ↦ (db, some e)
]

-- An identifier that stands twice in the list is held twice, to the same effect.
unfoldable pub hold_affected : List Run → Authority × Option Error → Authority × Option Error
hold_affected affected (db, none) = (hold_all (map (λ (r : Run). r.session_id) affected) db, none)
hold_affected affected (db, some e) = (db, some e)

unfoldable pub executing_runs : Authority → List Run
executing_runs db = select (λ (r : Run). is_in_flight r.state) db.runs

unfoldable pub reconcile_accepted_runs :
    Hashes → Recovery → ℕ → Authority → Authority × Option Error
unfolding reconcile_runs hold_affected executing_runs
reconcile_accepted_runs h rec now db =
    if rec.intact
    then hold_affected (executing_runs db) (reconcile_runs h rec now (executing_runs db) db)
    else (db, some schema_mismatch)

unfoldable pub withdraw_lost : List Interaction → ℕ → Authority → Authority
withdraw_lost [] now db = db
withdraw_lost (i ∷ is) now db = withdraw_lost is now (
    if is_active_interaction i.state
    then (settle_interaction i.interaction_id i.state withdrawn worker_lost now false db).0
    else db)

-- The steps are not one transaction, and none of them throws.
unfoldable pub recover_worker_loss : ℕ → ℕ → ℕ → Authority → Authority × List Interaction
unfolding withdraw_lost
recover_worker_loss session_id run_id now db =
    let db₁ = mark_run_steering_unapplied run_id db in
    let lost = interactions session_id db₁ in
    let db₂ = hold_queued session_id (withdraw_lost lost now db₁) in
    (
      update_session session_id (λ (s : Session). record s { residency = sleeping }) db₂,
      map (settle withdrawn worker_lost now false) lost,
    )

unfoldable pub reset_residency_on_startup : Authority → Authority
reset_residency_on_startup db = record db {
  sessions =
      update_where (λ (s : Session). is_resident s.residency)
        (λ (s : Session). record s { residency = sleeping }) db.sessions;
}

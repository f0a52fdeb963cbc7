-- ===== src/Authority/RunHistory.antt =====
-- The Runs over any history of the store of packages/host/src/store.ts: the table stays sound, and
-- every row follows the lifecycle.
use pidex.Prelude.{List, [], ◌∷◌}
use pidex.Authority.ForkFrame.{IsClosed, after_fork, after_project}
use pidex.Authority.Fork.{insert_project, insert_checkout}
use pidex.Authority.ForkCopy.{Commits}
use pidex.Authority.Fork.{is_terminal}
use pidex.Authority.States.{is_executing}
use pidex.Authority.Insert.{
  has_run, has_session, insert_session, insert_run, insert_entry, insert_change,
}
use pidex.Authority.Query.{record_change}
use pidex.Authority.RunTable.{Keeps-append}
use pidex.Authority.Schema.{Run}
use pidex.Prelude.{◌≡◌, ◌++◌, ◌&&◌, ◌==◌, any, true, inl, inr, Bool-cases, arith}
use pidex.Authority.Schema.{Authority}
use pidex.Authority.Command.{Hashes}
use pidex.Authority.Interactions.{reserve_interaction, settle_interaction}
use pidex.Authority.Control.{mark_steering, mark_run_steering_unapplied}
use pidex.Authority.Settlement.{reset_residency_on_startup}
use pidex.Authority.Synchronization.{rotate_synchronization_epoch}
use pidex.Authority.Maintenance.{run_maintenance, retain_object_reference}
use pidex.Authority.Operation.{
  Operation, creates, renames, changes_availability, marks_read, sleeps, submits, dispatches, holds,
  releases, cancels, steers, stops, settles, reconciles, recovers_worker, asks, records, finalizes,
  forks, adds_directory, forks, adds_directory, apply, history,
}
use pidex.Authority.RunTable.{IsSound, Preserves, Keeps, Keeps-refl, Keeps-trans}
use pidex.Authority.RunQueue.{
  submit_run-Keeps, dispatch_next-Keeps, hold_queued-Keeps, release_run-Keeps,
  cancel_queued_run-Keeps,
}
use pidex.Authority.RunEnd.{runs-accept_steering, accept_stop-Keeps, settle_run-Keeps}
use pidex.Authority.RunRecovery.{reconcile_accepted_runs-Keeps, recover_worker_loss-Keeps}
use pidex.Authority.Frame.{
  runs-create_session, runs-rename_session, runs-change_session_availability,
  runs-mark_session_read, runs-set_session_sleeping, runs-create_interaction,
  runs-apply_timeline_event, runs-finalize_assistant,
}

-- A Run that has ended does not execute, and its identifier is new.
terminal_insert :
    (rs : List Run) (r : Run) (d : Authority)
    → is_terminal r.state ≡ true
    → Keeps rs d.runs
    → Commits (λ (a : Authority). Keeps rs a.runs) (insert_run r d)
unfolding insert_run
terminal_insert rs r d ended held = elim (Bool-cases (has_run r.run_id d.runs)) [
  | inl e ↦ rw e tt
  | inr e ↦
      let appended : Keeps d.runs (d.runs ++ r ∷ []) =
        Keeps-append d.runs r e (λ (runs : is_executing r.state ≡ true). absurd (ground arith)) in
      let kept = Keeps-trans rs d.runs (d.runs ++ r ∷ []) held appended in
      elim (Bool-cases (
        any (λ (x : Run). (x.session_id == r.session_id) && (x.session_order == r.session_order))
          d.runs)) [
            | inl k ↦ rw (e, k) tt
            | inr k ↦ elim (Bool-cases (has_session r.session_id d.sessions)) [
              | inl m ↦ rw (e, k, m) kept
              | inr m ↦ rw (e, k, m) tt
            ]
          ]
]

Keeps-IsClosed : (rs : List Run) → IsClosed (λ (d : Authority). Keeps rs d.runs)
unfolding insert_session insert_entry insert_project insert_checkout record_change insert_change
Keeps-IsClosed rs = record {
  sessions = λ s d k. ground arith;
  runs = λ r d ended k. terminal_insert rs r d ended k;
  entries = λ e d k. ground arith;
  updates = λ id g d k. k;
  projects = λ p d k. ground arith;
  checkouts = λ c d k. ground arith;
  logs = λ now change d k. ground arith;
}

apply-Keeps : (h : Hashes) (db : Authority) (o : Operation) → Keeps db.runs (apply h db o).runs
unfolding apply mark_steering mark_run_steering_unapplied reset_residency_on_startup
    reserve_interaction settle_interaction rotate_synchronization_epoch run_maintenance
    retain_object_reference
apply-Keeps h db (creates p w c id now) =
    rw (runs-create_session p w c id now db) (Keeps-refl db.runs)
apply-Keeps h db (renames c now) = rw (runs-rename_session h c now db) (Keeps-refl db.runs)
apply-Keeps h db (changes_availability c a now) =
    rw (runs-change_session_availability h c a now db) (Keeps-refl db.runs)
apply-Keeps h db (marks_read c b now) =
    rw (runs-mark_session_read h c b now db) (Keeps-refl db.runs)
apply-Keeps h db (sleeps id now) = rw (runs-set_session_sleeping id now db) (Keeps-refl db.runs)
apply-Keeps h db (submits c run_id entry_id now) = submit_run-Keeps h c run_id entry_id now db
apply-Keeps h db (dispatches id) = dispatch_next-Keeps id db
apply-Keeps h db (holds id) = hold_queued-Keeps id db
apply-Keeps h db (releases id) = release_run-Keeps id db
apply-Keeps h db (cancels id now) = cancel_queued_run-Keeps id now db
apply-Keeps h db (steers c a entry_id now) =
    rw (runs-accept_steering h c a entry_id now db) (Keeps-refl db.runs)
apply-Keeps h db (stops c a entry_id now) = accept_stop-Keeps h c a entry_id now db
apply-Keeps h db (settles id r text checkpoint attempt now) =
    settle_run-Keeps h id r text checkpoint attempt now db
apply-Keeps h db (reconciles rec now) = reconcile_accepted_runs-Keeps h rec now db
apply-Keeps h db (recovers_worker s r now) = recover_worker_loss-Keeps s r now db
apply-Keeps h db (asks n i e) = rw (runs-create_interaction n i e db) (Keeps-refl db.runs)
apply-Keeps h db (records s r event e now) =
    rw (runs-apply_timeline_event s r event e now db) (Keeps-refl db.runs)
apply-Keeps h db (finalizes s r) = rw (runs-finalize_assistant s r db) (Keeps-refl db.runs)
apply-Keeps h db (forks f now) =
    after_fork (λ (d : Authority). Keeps db.runs d.runs) (Keeps-IsClosed db.runs) f now db
      (Keeps-refl db.runs)
apply-Keeps h db (adds_directory trim name path project_id workspace_id now) =
    after_project (λ (d : Authority). Keeps db.runs d.runs) (Keeps-IsClosed db.runs) trim name path
      project_id workspace_id now db (Keeps-refl db.runs)
apply-Keeps h db _ = Keeps-refl db.runs

-- From a table in which the identifiers are a key and each Session executes one Run at most, both
-- hold after any sequence of operations; the rows are still there, in their places, with their
-- identifier, Session, order, prompt and creation time, and each state is one to which the
-- lifecycle leads from the state before, so that an ended Run stays as it ended.
pub history-Keeps :
    (h : Hashes) (db : Authority) (os : List Operation)
    → IsSound db.runs
    → Preserves db.runs (history h db os).runs
unfolding history
history-Keeps h db [] sound = Keeps-refl db.runs sound
history-Keeps h db (o ∷ os) sound =
    Keeps-trans db.runs (apply h db o).runs (history h (apply h db o) os).runs (apply-Keeps h db o)
      (history-Keeps h (apply h db o) os) sound

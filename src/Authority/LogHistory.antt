-- ===== src/Authority/LogHistory.antt =====
-- The log of changes over any history of the store of packages/host/src/store.ts.
use pidex.Prelude.{ℕ, List, [], ◌∷◌, arith, not}
use pidex.Authority.ForkFrame.{IsClosed, after_fork, after_project}
use pidex.Authority.Fork.{insert_project, insert_checkout}
use pidex.Authority.Insert.{insert_session, insert_run, insert_entry, insert_change}
use pidex.Authority.Query.{record_change}
use pidex.Authority.ChangeLog.{IsLog-push, IsLog-grow}
use pidex.Authority.Schema.{Authority, Change}
use pidex.Authority.Command.{Hashes}
use pidex.Authority.Runs.{hold_queued}
use pidex.Authority.Interactions.{interactions, reserve_interaction, settle_interaction}
use pidex.Authority.Control.{mark_steering, mark_run_steering_unapplied}
use pidex.Authority.Settlement.{
  recover_worker_loss, reset_residency_on_startup, reconcile_accepted_runs, Recovery,
}
use pidex.Authority.Synchronization.{rotate_synchronization_epoch, is_expired}
use pidex.Authority.Maintenance.{run_maintenance, retain_object_reference, Disk}
use pidex.Authority.Operation.{
  Operation, creates, renames, changes_availability, marks_read, sleeps, submits, dispatches,
  releases, cancels, steers, stops, settles, reconciles, recovers_worker, asks, records, finalizes,
  forks, adds_directory, rotates, maintains, apply, history,
}
use pidex.Authority.ChangeLog.{IsLog-select}
use pidex.Authority.Recovery.{reconcile_accepted_runs-related, withdraw_lost-only}
use pidex.Authority.LogFrame.{
  IsLogged, create_session-IsLogged, rename_session-IsLogged, change_session_availability-IsLogged,
  mark_session_read-IsLogged, set_session_sleeping-IsLogged, submit_run-IsLogged,
  dispatch_next-IsLogged, release_run-IsLogged, cancel_queued_run-IsLogged,
  accept_steering-IsLogged, accept_stop-IsLogged, settle_run-IsLogged, create_interaction-IsLogged,
  apply_timeline_event-IsLogged, finalize_assistant-IsLogged,
}

-- A new epoch starts with an empty log.
rotate_synchronization_epoch-IsLogged :
    (epoch now earlier : ℕ) (db : Authority)
    → IsLogged earlier db
    → IsLogged earlier (rotate_synchronization_epoch epoch now db)
unfolding rotate_synchronization_epoch
rotate_synchronization_epoch-IsLogged epoch now earlier db h =
    (record { bounded = tt; increasing = tt }, omega (arith, h.1))

run_maintenance-IsLogged :
    (now : ℕ) (disk : Disk) (earlier : ℕ) (db : Authority)
    → IsLogged earlier db
    → IsLogged earlier (run_maintenance now disk db).0
unfolding run_maintenance
run_maintenance-IsLogged now disk earlier db h =
    (IsLog-select (λ (c : Change). not (is_expired now c)) db.host.sequence db.changes h.0, h.1)

recover_worker_loss-IsLogged :
    (session_id run_id now earlier : ℕ) (db : Authority)
    → IsLogged earlier db
    → IsLogged earlier (recover_worker_loss session_id run_id now db).0
unfolding recover_worker_loss hold_queued mark_run_steering_unapplied
recover_worker_loss-IsLogged session_id run_id now earlier db held =
    rw
      (withdraw_lost-only (interactions session_id (mark_run_steering_unapplied run_id db)) now
        (mark_run_steering_unapplied run_id db))
      held

reconcile_accepted_runs-IsLogged :
    (h : Hashes) (rec : Recovery) (now earlier : ℕ) (db : Authority)
    → IsLogged earlier db
    → IsLogged earlier (reconcile_accepted_runs h rec now db).0
unfolding hold_queued
reconcile_accepted_runs-IsLogged h rec now earlier =
    reconcile_accepted_runs-related h rec now (λ a b. IsLogged earlier a → IsLogged earlier b)
      (λ a k. k) (λ a b c f g k. g (f k))
      (λ id result text checkpoint attempt db.
        settle_run-IsLogged h id result text checkpoint attempt now earlier db)
      (λ id db k. k)

IsLogged-IsClosed : (earlier : ℕ) → IsClosed (IsLogged earlier)
unfolding insert_session insert_run insert_entry insert_project insert_checkout record_change
    insert_change
IsLogged-IsClosed earlier = record {
  sessions = λ s d k. ground arith;
  runs = λ r d ended k. ground arith;
  entries = λ e d k. ground arith;
  updates = λ id g d k. k;
  projects = λ p d k. ground arith;
  checkouts = λ c d k. ground arith;
  logs = λ now change d k. grind (arith, IsLog-push, IsLog-grow);
}

apply-IsLogged :
    (h : Hashes) (earlier : ℕ) (db : Authority) (o : Operation)
    → IsLogged earlier db
    → IsLogged earlier (apply h db o)
unfolding apply mark_steering mark_run_steering_unapplied reset_residency_on_startup hold_queued
    reserve_interaction settle_interaction retain_object_reference
apply-IsLogged h earlier db (creates p w c id now) = create_session-IsLogged p w c id now earlier db
apply-IsLogged h earlier db (renames c now) = rename_session-IsLogged h c now earlier db
apply-IsLogged h earlier db (changes_availability c a now) =
    change_session_availability-IsLogged h c a now earlier db
apply-IsLogged h earlier db (marks_read c b now) = mark_session_read-IsLogged h c b now earlier db
apply-IsLogged h earlier db (sleeps id now) = set_session_sleeping-IsLogged id now earlier db
apply-IsLogged h earlier db (submits c run_id entry_id now) =
    submit_run-IsLogged h c run_id entry_id now earlier db
apply-IsLogged h earlier db (dispatches id) = dispatch_next-IsLogged id earlier db
apply-IsLogged h earlier db (releases id) = release_run-IsLogged id earlier db
apply-IsLogged h earlier db (cancels id now) = cancel_queued_run-IsLogged id now earlier db
apply-IsLogged h earlier db (steers c a entry_id now) =
    accept_steering-IsLogged h c a entry_id now earlier db
apply-IsLogged h earlier db (stops c a entry_id now) =
    accept_stop-IsLogged h c a entry_id now earlier db
apply-IsLogged h earlier db (settles id r text checkpoint attempt now) =
    settle_run-IsLogged h id r text checkpoint attempt now earlier db
apply-IsLogged h earlier db (reconciles rec now) =
    reconcile_accepted_runs-IsLogged h rec now earlier db
apply-IsLogged h earlier db (recovers_worker s r now) =
    recover_worker_loss-IsLogged s r now earlier db
apply-IsLogged h earlier db (asks n i e) = create_interaction-IsLogged n i e earlier db
apply-IsLogged h earlier db (records s r event e now) =
    apply_timeline_event-IsLogged s r event e now earlier db
apply-IsLogged h earlier db (finalizes s r) = finalize_assistant-IsLogged s r earlier db
apply-IsLogged h earlier db (rotates epoch now) =
    rotate_synchronization_epoch-IsLogged epoch now earlier db
apply-IsLogged h earlier db (maintains now disk) = run_maintenance-IsLogged now disk earlier db
apply-IsLogged h earlier db (forks f now) =
    after_fork (IsLogged earlier) (IsLogged-IsClosed earlier) f now db
apply-IsLogged h earlier db (adds_directory trim name path project_id workspace_id now) =
    after_project (IsLogged earlier) (IsLogged-IsClosed earlier) trim name path project_id
      workspace_id now db
apply-IsLogged h earlier db _ = λ held. held

-- From a log whose sequences increase and do not exceed the Host's, any sequence of operations leads
-- to such a log; and a number that the Host's sequence had reached before is not above it after.
pub history-IsLogged :
    (h : Hashes) (earlier : ℕ) (db : Authority) (os : List Operation)
    → IsLogged earlier db
    → IsLogged earlier (history h db os)
unfolding history
history-IsLogged h earlier db [] held = held
history-IsLogged h earlier db (o ∷ os) held =
    history-IsLogged h earlier (apply h db o) os (apply-IsLogged h earlier db o held)

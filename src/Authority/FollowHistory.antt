-- ===== src/Authority/FollowHistory.antt =====
-- A client that follows the log of changes of packages/host/src/store.ts over a history of the store.
use pidex.Prelude.{Bool, ◌++◌, true, false, ◌≡◌, All, ap, ◌∙◌, sym, ℕ, List, [], ◌∷◌, arith}
use pidex.Authority.ForkFrame.{IsClosed, after_fork, after_project}
use pidex.Authority.Fork.{insert_project, insert_checkout}
use pidex.Authority.Insert.{insert_session, insert_run, insert_entry, insert_change}
use pidex.Authority.Query.{record_change}
use pidex.Authority.Following.{Follows-push}
use pidex.Authority.Schema.{Authority, Change}
use pidex.Authority.ChangeLog.{IsLog}
use pidex.Authority.Following.{Follows-start, changes_after-select}
use pidex.Authority.Synchronization.{changes_after}
use pidex.Authority.LogHistory.{history-IsLogged}
use pidex.Authority.Command.{Hashes}
use pidex.Authority.Runs.{hold_queued}
use pidex.Authority.Interactions.{interactions, reserve_interaction, settle_interaction}
use pidex.Authority.Control.{mark_steering, mark_run_steering_unapplied}
use pidex.Authority.Settlement.{
  recover_worker_loss, reset_residency_on_startup, reconcile_accepted_runs, Recovery,
}
use pidex.Authority.Synchronization.{changes_after}
use pidex.Authority.Maintenance.{retain_object_reference}
use pidex.Authority.Operation.{
  Operation, creates, renames, changes_availability, marks_read, sleeps, submits, dispatches,
  releases, cancels, steers, stops, settles, reconciles, recovers_worker, asks, records, finalizes,
  forks, adds_directory, rotates, maintains, apply, history,
}
use pidex.Authority.Recovery.{reconcile_accepted_runs-related, withdraw_lost-only}
use pidex.Authority.FollowFrame.{
  IsFollowed, create_session-IsFollowed, rename_session-IsFollowed,
  change_session_availability-IsFollowed, mark_session_read-IsFollowed,
  set_session_sleeping-IsFollowed, submit_run-IsFollowed, dispatch_next-IsFollowed,
  release_run-IsFollowed, cancel_queued_run-IsFollowed, accept_steering-IsFollowed,
  accept_stop-IsFollowed, settle_run-IsFollowed, create_interaction-IsFollowed,
  apply_timeline_event-IsFollowed, finalize_assistant-IsFollowed,
}

recover_worker_loss-IsFollowed :
    (session_id run_id now cursor : ℕ) (base : List Change) (db : Authority)
    → IsFollowed cursor base db
    → IsFollowed cursor base (recover_worker_loss session_id run_id now db).0
unfolding recover_worker_loss hold_queued mark_run_steering_unapplied
recover_worker_loss-IsFollowed session_id run_id now cursor base db held =
    rw
      (withdraw_lost-only (interactions session_id (mark_run_steering_unapplied run_id db)) now
        (mark_run_steering_unapplied run_id db))
      held

reconcile_accepted_runs-IsFollowed :
    (h : Hashes) (rec : Recovery) (now cursor : ℕ) (base : List Change) (db : Authority)
    → IsFollowed cursor base db
    → IsFollowed cursor base (reconcile_accepted_runs h rec now db).0
unfolding hold_queued
reconcile_accepted_runs-IsFollowed h rec now cursor base =
    reconcile_accepted_runs-related h rec now
      (λ a b. IsFollowed cursor base a → IsFollowed cursor base b) (λ a k. k)
      (λ a b c f g k. g (f k))
      (λ id result text checkpoint attempt db.
        settle_run-IsFollowed h id result text checkpoint attempt now cursor base db)
      (λ id db k. k)

-- A new epoch empties the log, and the maintenance compacts it.
abbrev pub keeps_log : Operation → Bool
keeps_log (rotates epoch now) = false
keeps_log (maintains now disk) = false
keeps_log _ = true

IsFollowed-IsClosed : (cursor : ℕ) (base : List Change) → IsClosed (IsFollowed cursor base)
unfolding insert_session insert_run insert_entry insert_project insert_checkout record_change
    insert_change
IsFollowed-IsClosed cursor base = record {
  sessions = λ s d k. ground arith;
  runs = λ r d ended k. ground arith;
  entries = λ e d k. ground arith;
  updates = λ id g d k. k;
  projects = λ p d k. ground arith;
  checkouts = λ c d k. ground arith;
  logs = λ now change d k. grind (arith, Follows-push);
}

apply-IsFollowed :
    (h : Hashes) (cursor : ℕ) (base : List Change) (db : Authority) (o : Operation)
    → keeps_log o ≡ true
    → IsFollowed cursor base db
    → IsFollowed cursor base (apply h db o)
unfolding apply mark_steering mark_run_steering_unapplied reset_residency_on_startup hold_queued
    reserve_interaction settle_interaction retain_object_reference
apply-IsFollowed h cursor base db (creates p w c id now) k =
    create_session-IsFollowed p w c id now cursor base db
apply-IsFollowed h cursor base db (renames c now) k =
    rename_session-IsFollowed h c now cursor base db
apply-IsFollowed h cursor base db (changes_availability c a now) k =
    change_session_availability-IsFollowed h c a now cursor base db
apply-IsFollowed h cursor base db (marks_read c b now) k =
    mark_session_read-IsFollowed h c b now cursor base db
apply-IsFollowed h cursor base db (sleeps id now) k =
    set_session_sleeping-IsFollowed id now cursor base db
apply-IsFollowed h cursor base db (submits c run_id entry_id now) k =
    submit_run-IsFollowed h c run_id entry_id now cursor base db
apply-IsFollowed h cursor base db (dispatches id) k = dispatch_next-IsFollowed id cursor base db
apply-IsFollowed h cursor base db (releases id) k = release_run-IsFollowed id cursor base db
apply-IsFollowed h cursor base db (cancels id now) k =
    cancel_queued_run-IsFollowed id now cursor base db
apply-IsFollowed h cursor base db (steers c a entry_id now) k =
    accept_steering-IsFollowed h c a entry_id now cursor base db
apply-IsFollowed h cursor base db (stops c a entry_id now) k =
    accept_stop-IsFollowed h c a entry_id now cursor base db
apply-IsFollowed h cursor base db (settles id r text checkpoint attempt now) k =
    settle_run-IsFollowed h id r text checkpoint attempt now cursor base db
apply-IsFollowed h cursor base db (reconciles rec now) k =
    reconcile_accepted_runs-IsFollowed h rec now cursor base db
apply-IsFollowed h cursor base db (recovers_worker s r now) k =
    recover_worker_loss-IsFollowed s r now cursor base db
apply-IsFollowed h cursor base db (asks n i e) k =
    create_interaction-IsFollowed n i e cursor base db
apply-IsFollowed h cursor base db (records s r event e now) k =
    apply_timeline_event-IsFollowed s r event e now cursor base db
apply-IsFollowed h cursor base db (finalizes s r) k =
    finalize_assistant-IsFollowed s r cursor base db
apply-IsFollowed h cursor base db (rotates epoch now) k = λ held. cc
apply-IsFollowed h cursor base db (maintains now disk) k = λ held. cc
apply-IsFollowed h cursor base db (forks f now) k =
    after_fork (IsFollowed cursor base) (IsFollowed-IsClosed cursor base) f now db
apply-IsFollowed h cursor base db (adds_directory trim name path project_id workspace_id now) k =
    after_project (IsFollowed cursor base) (IsFollowed-IsClosed cursor base) trim name path
      project_id workspace_id now db
apply-IsFollowed h cursor base db _ k = λ held. held

history-IsFollowed :
    (h : Hashes) (cursor : ℕ) (base : List Change) (db : Authority) (os : List Operation)
    → All (λ o. keeps_log o ≡ true) os
    → IsFollowed cursor base db
    → IsFollowed cursor base (history h db os)
unfolding history
history-IsFollowed h cursor base db [] k held = held
history-IsFollowed h cursor base db (o ∷ os) k held =
    history-IsFollowed h cursor base (apply h db o) os k.1
      (apply-IsFollowed h cursor base db o k.0 held)

-- A client that holds the changes of a moment, in an authority whose log is in order, and asks later
-- for those after the Host's sequence of that moment, holds all changes then, in their order:
-- whatever the operations between, if none of them rotates the epoch or runs the maintenance.
pub changes_after-history :
    (h : Hashes) (db : Authority) (os : List Operation)
    → IsLog db.host.sequence db.changes
    → All (λ o. keeps_log o ≡ true) os
    → (history h db os).changes ≡ db.changes ++ changes_after db.host.sequence (history h db os)
changes_after-history h db os log k =
    (history-IsFollowed h db.host.sequence db.changes db os k
      (Follows-start db.host.sequence db.changes log, omega arith)).0.joined
    ∙ ap (λ (cs : List Change). db.changes ++ cs)
        (sym (
          changes_after-select db.host.sequence (history h db os)
            (history-IsLogged h 0 db os (log, omega arith)).0))

-- ===== src/Authority/ReplayHistory.antt =====
-- Receipts over any history of the store of packages/host/src/store.ts: a command that was carried
-- out once is answered from its receipt, whenever it comes again.
use pidex.Prelude.{ℕ, ◌≡◌, refl, ap, Bool, true, List, [], ◌∷◌, arith}
use pidex.Authority.ForkFrame.{IsClosed, after_fork, after_project}
use pidex.Authority.Fork.{insert_project, insert_checkout}
use pidex.Authority.Insert.{insert_session, insert_run, insert_entry, insert_change}
use pidex.Authority.Query.{record_change}
use pidex.Authority.Schema.{Authority, Availability, Outcome}
use pidex.Authority.Result.{after, committed}
use pidex.Authority.Command.{
  Hashes, SubmitCommand, RenameCommand, AvailabilityCommand, MarkReadCommand, submit, rename,
  change_availability, mark_read, outcome, replayed, is_submit_outcome, is_rename_outcome,
  is_availability_outcome, is_mark_read_outcome, answer,
}
use pidex.Authority.Runs.{submit_run, carry_out_submission, hold_queued}
use pidex.Authority.Sessions.{
  rename_session, carry_out_rename, change_session_availability, carry_out_availability,
  mark_session_read, carry_out_mark_read, gate_commit,
}
use pidex.Authority.Interactions.{reserve_interaction, settle_interaction, interactions}
use pidex.Authority.Control.{mark_steering, mark_run_steering_unapplied}
use pidex.Authority.Settlement.{recover_worker_loss, reset_residency_on_startup}
use pidex.Authority.Synchronization.{rotate_synchronization_epoch}
use pidex.Authority.Maintenance.{run_maintenance, retain_object_reference}
use pidex.Authority.Recovery.{reconcile_accepted_runs-related, withdraw_lost-only}
use pidex.Authority.Operation.{
  Operation, creates, renames, changes_availability, marks_read, sleeps, submits, dispatches,
  releases, cancels, steers, stops, settles, reconciles, recovers_worker, asks, records, finalizes,
  forks, adds_directory, forks, adds_directory, apply, history,
}
use pidex.Authority.Replay.{
  Retains, Retains-same, Retains-trans, Retains-answer, answer-recorded, answer-replayed,
  load_retained,
}
use pidex.Authority.ReceiptFrame.{
  receipts-carry_out_submission, receipts-carry_out_rename, receipts-carry_out_availability,
  receipts-carry_out_mark_read, receipts-create_session, receipts-set_session_sleeping,
  receipts-dispatch_next, receipts-release_run, receipts-cancel_queued_run,
  receipts-create_interaction, receipts-apply_timeline_event, receipts-finalize_assistant,
  receipts-settle_run,
}
use pidex.Authority.ReplayControl.{accept_steering-Retains, accept_stop-Retains}

module _ (h : Hashes) (db : Authority) where
  submit_run-Retains :
      (c : SubmitCommand) (run_id entry_id now : ℕ)
      → Retains db (after db (submit_run h c run_id entry_id now db))
  unfolding submit_run
  submit_run-Retains c run_id entry_id now =
      Retains-answer c.command_id (h.envelope (submit c)) is_submit_outcome now
        (carry_out_submission h c run_id entry_id now) db
        (receipts-carry_out_submission h c run_id entry_id now db)

  rename_session-Retains :
      (c : RenameCommand) (now : ℕ) → Retains db (after db (rename_session h c now db))
  unfolding rename_session
  rename_session-Retains c now =
      Retains-answer c.command_id (h.envelope (rename c)) is_rename_outcome now
        (carry_out_rename c now) db (receipts-carry_out_rename c now db)

  change_session_availability-Retains :
      (c : AvailabilityCommand) (a : Availability) (now : ℕ)
      → Retains db (after db (change_session_availability h c a now db))
  unfolding change_session_availability
  change_session_availability-Retains c a now =
      Retains-answer c.command_id (h.envelope (change_availability c a)) is_availability_outcome now
        (carry_out_availability c a now) db (receipts-carry_out_availability c a now db)

  mark_session_read-Retains :
      (c : MarkReadCommand) (commits : Bool) (now : ℕ)
      → Retains db (after db (mark_session_read h c commits now db))
  unfolding mark_session_read
  mark_session_read-Retains c commits now =
      Retains-answer c.command_id (h.envelope (mark_read c)) is_mark_read_outcome now
        (λ d. gate_commit commits (carry_out_mark_read c now d)) db
        (receipts-carry_out_mark_read c commits now db)

receipts-recover_worker_loss :
    (s r now : ℕ) (db : Authority) → (recover_worker_loss s r now db).0.receipts ≡ db.receipts
unfolding recover_worker_loss mark_run_steering_unapplied hold_queued
receipts-recover_worker_loss s r now db =
    ap (λ (d : Authority). d.receipts)
      (withdraw_lost-only (interactions s (mark_run_steering_unapplied r db)) now
        (mark_run_steering_unapplied r db))

receipts-IsClosed : (db : Authority) → IsClosed (λ (d : Authority). d.receipts ≡ db.receipts)
unfolding insert_session insert_run insert_entry insert_project insert_checkout record_change
    insert_change
receipts-IsClosed db = record {
  sessions = λ s d k. ground arith;
  runs = λ r d ended k. ground arith;
  entries = λ e d k. ground arith;
  updates = λ id g d k. k;
  projects = λ p d k. ground arith;
  checkouts = λ c d k. ground arith;
  logs = λ now change d k. ground arith;
}

apply-Retains : (h : Hashes) (db : Authority) (o : Operation) → Retains db (apply h db o)
unfolding apply mark_steering mark_run_steering_unapplied reset_residency_on_startup hold_queued
    reserve_interaction settle_interaction rotate_synchronization_epoch run_maintenance
    retain_object_reference
apply-Retains h db (creates p w c id now) =
    Retains-same db _ (receipts-create_session p w c id now db)
apply-Retains h db (renames c now) = rename_session-Retains h db c now
apply-Retains h db (changes_availability c a now) = change_session_availability-Retains h db c a now
apply-Retains h db (marks_read c b now) = mark_session_read-Retains h db c b now
apply-Retains h db (sleeps id now) = Retains-same db _ (receipts-set_session_sleeping id now db)
apply-Retains h db (submits c r e now) = submit_run-Retains h db c r e now
apply-Retains h db (dispatches id) = Retains-same db _ (receipts-dispatch_next id db)
apply-Retains h db (releases id) = Retains-same db _ (receipts-release_run id db)
apply-Retains h db (cancels id now) = Retains-same db _ (receipts-cancel_queued_run id now db)
apply-Retains h db (steers c a e now) = accept_steering-Retains h e now db c a
apply-Retains h db (stops c a e now) = accept_stop-Retains h e now db c a
apply-Retains h db (settles id r t c a now) =
    Retains-same db _ (receipts-settle_run h id r t c a now db)
apply-Retains h db (reconciles rec now) =
    reconcile_accepted_runs-related h rec now Retains (λ d. Retains-same d d refl) Retains-trans
      (λ id r t c a d. Retains-same d _ (receipts-settle_run h id r t c a now d))
      (λ id d. Retains-same d _ refl) db
apply-Retains h db (recovers_worker s r now) =
    Retains-same db _ (receipts-recover_worker_loss s r now db)
apply-Retains h db (asks n i e) = Retains-same db _ (receipts-create_interaction n i e db)
apply-Retains h db (records s r event e now) =
    Retains-same db _ (receipts-apply_timeline_event s r event e now db)
apply-Retains h db (finalizes s r) = Retains-same db _ (receipts-finalize_assistant s r db)
apply-Retains h db (forks f now) =
    Retains-same db _ (
      after_fork (λ (d : Authority). d.receipts ≡ db.receipts) (receipts-IsClosed db) f now db refl)
apply-Retains h db (adds_directory trim name path project_id workspace_id now) = Retains-same db _ (
    after_project (λ (d : Authority). d.receipts ≡ db.receipts) (receipts-IsClosed db) trim name
      path project_id workspace_id now db refl)
apply-Retains h db _ = Retains-same db _ refl

history-Retains : (h : Hashes) (db : Authority) (os : List Operation) → Retains db (history h db os)
unfolding history
history-Retains h db [] = Retains-same db db refl
history-Retains h db (o ∷ os) =
    Retains-trans db (apply h db o) (history h (apply h db o) os) (apply-Retains h db o)
      (history-Retains h (apply h db o) os)

-- The outcome of each command fits its schema.
submit_outcome_fits :
    (h : Hashes) (c : SubmitCommand) (r e now : ℕ) (db d : Authority) (o : Outcome)
    → submit_run h c r e now db ≡ committed (d, outcome o)
    → is_submit_outcome o ≡ true
unfolding submit_run answer
submit_outcome_fits h c r e now db d o k = ground arith

rename_outcome_fits :
    (h : Hashes) (c : RenameCommand) (now : ℕ) (db d : Authority) (o : Outcome)
    → rename_session h c now db ≡ committed (d, outcome o)
    → is_rename_outcome o ≡ true
unfolding rename_session answer
rename_outcome_fits h c now db d o k = ground arith

availability_outcome_fits :
    (h : Hashes) (c : AvailabilityCommand) (a : Availability) (now : ℕ) (db d : Authority)
    (o : Outcome)
    → change_session_availability h c a now db ≡ committed (d, outcome o)
    → is_availability_outcome o ≡ true
unfolding change_session_availability answer
availability_outcome_fits h c a now db d o k = ground arith

mark_read_outcome_fits :
    (h : Hashes) (c : MarkReadCommand) (commits : Bool) (now : ℕ) (db d : Authority) (o : Outcome)
    → mark_session_read h c commits now db ≡ committed (d, outcome o)
    → is_mark_read_outcome o ≡ true
unfolding mark_session_read answer
mark_read_outcome_fits h c commits now db d o k = ground arith

module _ (h : Hashes) (db d : Authority) (o : Outcome) (os : List Operation) where
  -- A submission that got an outcome, accepted or rejected, is answered with that outcome whenever
  -- it comes again, after any operations in between, and then changes nothing.
  pub submit_run-replayed :
      (c : SubmitCommand) (run_id entry_id now run_id' entry_id' now' : ℕ)
      → submit_run h c run_id entry_id now db ≡ committed (d, outcome o)
      → submit_run h c run_id' entry_id' now' (history h d os)
        ≡ committed (history h d os, replayed o)
  unfolding submit_run
  submit_run-replayed c run_id entry_id now run_id' entry_id' now' e =
      answer-replayed c.command_id (h.envelope (submit c)) is_submit_outcome now'
        (carry_out_submission h c run_id' entry_id' now') (history h d os) o
        (load_retained c.command_id (h.envelope (submit c)) d (history h d os) o
          (history-Retains h d os)
          (answer-recorded c.command_id (h.envelope (submit c)) is_submit_outcome now
            (carry_out_submission h c run_id entry_id now) db d o e))
        (submit_outcome_fits h c run_id entry_id now db d o e)

  -- The same of a rename.
  rename_session-replayed :
      (c : RenameCommand) (now now' : ℕ)
      → rename_session h c now db ≡ committed (d, outcome o)
      → rename_session h c now' (history h d os) ≡ committed (history h d os, replayed o)
  unfolding rename_session
  rename_session-replayed c now now' e =
      answer-replayed c.command_id (h.envelope (rename c)) is_rename_outcome now'
        (carry_out_rename c now') (history h d os) o
        (load_retained c.command_id (h.envelope (rename c)) d (history h d os) o
          (history-Retains h d os)
          (answer-recorded c.command_id (h.envelope (rename c)) is_rename_outcome now
            (carry_out_rename c now) db d o e))
        (rename_outcome_fits h c now db d o e)

  -- The same of a change of the availability to the same target.
  change_session_availability-replayed :
      (c : AvailabilityCommand) (a : Availability) (now now' : ℕ)
      → change_session_availability h c a now db ≡ committed (d, outcome o)
      → change_session_availability h c a now' (history h d os)
        ≡ committed (history h d os, replayed o)
  unfolding change_session_availability
  change_session_availability-replayed c a now now' e =
      answer-replayed c.command_id (h.envelope (change_availability c a)) is_availability_outcome
        now' (carry_out_availability c a now') (history h d os) o
        (load_retained c.command_id (h.envelope (change_availability c a)) d (history h d os) o
          (history-Retains h d os)
          (answer-recorded c.command_id (h.envelope (change_availability c a))
            is_availability_outcome now (carry_out_availability c a now) db d o e))
        (availability_outcome_fits h c a now db d o e)

  -- The same of marking a Session read, whatever the storage adapter would say the second time.
  mark_session_read-replayed :
      (c : MarkReadCommand) (commits commits' : Bool) (now now' : ℕ)
      → mark_session_read h c commits now db ≡ committed (d, outcome o)
      → mark_session_read h c commits' now' (history h d os)
        ≡ committed (history h d os, replayed o)
  unfolding mark_session_read
  mark_session_read-replayed c commits commits' now now' e =
      answer-replayed c.command_id (h.envelope (mark_read c)) is_mark_read_outcome now'
        (λ x. gate_commit commits' (carry_out_mark_read c now' x)) (history h d os) o
        (load_retained c.command_id (h.envelope (mark_read c)) d (history h d os) o
          (history-Retains h d os)
          (answer-recorded c.command_id (h.envelope (mark_read c)) is_mark_read_outcome now
            (λ x. gate_commit commits (carry_out_mark_read c now x)) db d o e))
        (mark_read_outcome_fits h c commits now db d o e)

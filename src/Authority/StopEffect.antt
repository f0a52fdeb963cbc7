-- ===== src/Authority/StopEffect.antt =====
-- What an accepted stop leaves behind: `acceptStop` of packages/host/src/store.ts.
use pidex.Prelude.{
  ℕ, ◌≡◌, Bool, true, false, ◌&&◌, List, Option, some, ◌==◌, arith, same?, subst, All,
  All-universal, All-updated, update_where,
}
use pidex.Authority.Schema.{
  Run, cancelling, cancelled, Entry, Interaction, Steering, unapplied, Cursor, Authority,
}
use pidex.Authority.Result.{committed}
use pidex.Authority.States.{is_undelivered, is_active_interaction, is_pending_steering}
use pidex.Authority.Insert.{insert_entry, insert_receipt}
use pidex.Authority.Query.{load_entry, load_run}
use pidex.Authority.Command.{Hashes, StopCommand, commit_receipt}
use pidex.Authority.Runs.{in_session, set_state, end_run}
use pidex.Authority.Control.{
  accept_stop, StopReply, withdraw_execution, mark_run_steering_unapplied, withdraw_for_stop,
}
use pidex.Authority.RunTable.{has_id}

-- The run that is stopped is cancelling, wherever it stands.
abbrev pub IsCancelled : ℕ → Run → Type 0
IsCancelled id r = has_id id r ≡ true → r.state ≡ cancelling

abbrev pub is_steered : ℕ → Steering → Bool
is_steered id s = (s.run_id == id) && is_pending_steering s.state

abbrev pub is_asked : ℕ → Interaction → Bool
is_asked id i = same? i.run_id (some id) && is_active_interaction i.state

-- The four tables after the withdrawal.
pub record IsWithdrawn (c : StopCommand) (d : Authority) : Type 0 where
  pub stopping : All (IsCancelled c.run_id) d.runs
  pub dropped : All (λ (r : Run). in_session c.session_id is_undelivered r ≡ false) d.runs
  pub unsteered : All (λ (s : Steering). is_steered c.run_id s ≡ false) d.steering
  pub unasked : All (λ (i : Interaction). is_asked c.run_id i ≡ false) d.interactions

module _ {A : Type 0} (Q : A → Type 0) (q : A → Bool) (f : A → A) where
  All-after :
      ((x : A) → q x ≡ true → Q (f x))
      → ((x : A) → q x ≡ false → Q x)
      → (xs : List A) → All Q (update_where q f xs)
  All-after taken left xs =
      All-updated (λ x. Unit {0}) Q q f (λ x _ e. taken x e) (λ x _ e. left x e) xs
        (All-universal (λ x. Unit {0}) (λ x. tt) xs)

withdraw_execution-IsWithdrawn :
    (c : StopCommand) (now : ℕ) (db : Authority) → IsWithdrawn c (withdraw_execution c now db)
unfolding withdraw_execution mark_run_steering_unapplied
withdraw_execution-IsWithdrawn c now db = record {
  stopping =
      All-updated (IsCancelled c.run_id) (IsCancelled c.run_id)
        (in_session c.session_id is_undelivered) (end_run cancelled now)
        (λ r k e m. absurd (ground (arith, k m))) (λ r k e. k) _
        (All-after (IsCancelled c.run_id) (has_id c.run_id) (set_state cancelling)
          (λ r e m. ground arith) (λ r e m. ground arith) db.runs);
  dropped =
      All-after (λ (r : Run). in_session c.session_id is_undelivered r ≡ false)
        (in_session c.session_id is_undelivered) (end_run cancelled now) (λ r e. ground arith)
        (λ r e. e) _;
  unsteered =
      All-after (λ (s : Steering). is_steered c.run_id s ≡ false) (is_steered c.run_id)
        (λ (s : Steering). record s { state = unapplied }) (λ s e. ground arith) (λ s e. e)
        db.steering;
  unasked =
      All-after (λ (i : Interaction). is_asked c.run_id i ≡ false) (is_asked c.run_id)
        (withdraw_for_stop now) (λ i e. ground arith) (λ i e. e) db.interactions;
}

-- When a stop is accepted, its Run is cancelling, no Run of the Session is queued or held, no
-- steering of the Run waits, and no Interaction of the Run is open or resolving.
pub accept_stop-IsWithdrawn :
    (h : Hashes) (c : StopCommand) (active : Option ℕ) (entry_id now : ℕ) (db d : Authority)
    (run : Run) (entry : Entry) (withdrawn : List Interaction) (cursor : Cursor)
    → accept_stop h c active entry_id now db
      ≡ committed (d, StopReply.accepted run entry withdrawn cursor)
    → IsWithdrawn c d
unfolding accept_stop commit_receipt insert_receipt insert_entry load_entry load_run
accept_stop-IsWithdrawn h c active entry_id now db d run entry withdrawn cursor e =
    let w = withdraw_execution-IsWithdrawn c now db in
    let runs : (withdraw_execution c now db).runs ≡ d.runs = ground arith in
    let steering : (withdraw_execution c now db).steering ≡ d.steering = ground arith in
    let asked : (withdraw_execution c now db).interactions ≡ d.interactions = ground arith in
    record {
      stopping = subst (All (IsCancelled c.run_id)) runs w.stopping;
      dropped =
          subst (All (λ (r : Run). in_session c.session_id is_undelivered r ≡ false)) runs
            w.dropped;
      unsteered =
          subst (All (λ (s : Steering). is_steered c.run_id s ≡ false)) steering w.unsteered;
      unasked = subst (All (λ (i : Interaction). is_asked c.run_id i ≡ false)) asked w.unasked;
    }

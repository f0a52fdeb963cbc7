-- ===== src/Authority/RunEnd.antt =====
-- Stops, settlements and recoveries of packages/host/src/store.ts keep the table of the runs sound
-- and follow the lifecycle.
use pidex.Prelude.{
  Text, ℕ, ◌≡◌, refl, sym, subst, Bool, true, false, ◌&&◌, List, Option, some, arith, ◌==◌,
  Option-cases, inl, inr, ◌⊎◌, All, All-weaken, find?, update_where, All-universal, All-unique,
}
use pidex.Authority.Schema.{Run, RunState, cancelling, cancelled, Authority}
use pidex.Authority.States.{is_executing, is_undelivered, is_in_flight}
use pidex.Authority.Result.{after}
use pidex.Authority.Insert.{insert_entry, insert_receipt, insert_steering, insert_change}
use pidex.Authority.Query.{load_run, load_entry, record_change}
use pidex.Authority.Command.{Hashes, SteerCommand, StopCommand, commit_receipt}
use pidex.Authority.Runs.{in_session, set_state, end_run}
use pidex.Authority.Interactions.{record_unread_milestone}
use pidex.Authority.Control.{
  accept_steering, accept_stop, targets_active_execution, withdraw_execution,
}
use pidex.Authority.Settlement.{TerminalState, to_run_state, Attempt, settle_run}
use pidex.Authority.Lifecycle.{leads_to}
use pidex.Authority.RunTable.{IsSound, Keeps, Keeps-refl, Keeps-trans, Keeps-stop, has_id}

pub runs-accept_steering :
    (h : Hashes) (c : SteerCommand) (active : Option ℕ) (entry_id now : ℕ) (db : Authority)
    → (after db (accept_steering h c active entry_id now db)).runs ≡ db.runs
unfolding accept_steering commit_receipt insert_receipt insert_entry insert_steering load_entry
runs-accept_steering h c active entry_id now db = ground arith

runs-accept_stop :
    (h : Hashes) (c : StopCommand) (active : Option ℕ) (entry_id now : ℕ) (db : Authority)
    → ((after db (accept_stop h c active entry_id now db)).runs ≡ db.runs)
      ⊎ ((targets_active_execution c.session_id c.run_id c.worker_generation
              c.observed_timeline_revision active db
            ≡ true)
          × ((after db (accept_stop h c active entry_id now db)).runs
              ≡ (withdraw_execution c now db).runs))
unfolding accept_stop commit_receipt insert_receipt insert_entry load_entry load_run
runs-accept_stop h c active entry_id now db = ground arith

-- The run that a stop names executes.
target_executes :
    (c : StopCommand) (active : Option ℕ) (db : Authority)
    → targets_active_execution c.session_id c.run_id c.worker_generation
        c.observed_timeline_revision active db
      ≡ true
    → IsSound db.runs
    → All (λ r. has_id c.run_id r ≡ true → is_executing r.state ≡ true) db.runs
unfolding targets_active_execution
target_executes c active db t h = elim (Option-cases (find? mine db.runs)) [
  | inl missing ↦ cc (rw (missing, targets_active_execution) at t)
  | inr (run, found) ↦
      All-weaken (λ r. has_id c.run_id r ≡ true → r ≡ run)
        (λ r. has_id c.run_id r ≡ true → is_executing r.state ≡ true)
        (λ r same held. subst (λ x. is_executing x.state ≡ true) (sym (same held)) (ground arith))
        db.runs
        (All-unique mine (has_id c.run_id) db.runs run (λ r e. ground arith) (h.keyed c.run_id)
          found)
]
  where
    mine : Run → Bool
    mine r = (r.run_id == c.run_id) && (r.session_id == c.session_id)

withdraw_execution-Keeps :
    (c : StopCommand) (now : ℕ) (db : Authority)
    → All (λ r. has_id c.run_id r ≡ true → is_executing r.state ≡ true) db.runs
    → Keeps db.runs (withdraw_execution c now db).runs
unfolding withdraw_execution
withdraw_execution-Keeps c now db target =
    let cancelling_runs : List Run =
      update_where (has_id c.run_id) (set_state cancelling) db.runs in
    Keeps-trans db.runs cancelling_runs _
      (Keeps-stop (has_id c.run_id) (λ r. cancelling) (λ r. r.completed_at) db.runs (λ r. refl)
        (All-weaken (λ r. has_id c.run_id r ≡ true → is_executing r.state ≡ true)
          (λ r. has_id c.run_id r ≡ true → leads_to r.state cancelling ≡ true)
          (λ r e held. let k = e held in ground arith) db.runs target))
      (Keeps-stop (in_session c.session_id is_undelivered) (λ r. cancelled) (λ r. some now)
        cancelling_runs (λ r. refl) (All-universal _ (λ r. ground arith) cancelling_runs))

pub accept_stop-Keeps :
    (h : Hashes) (c : StopCommand) (active : Option ℕ) (entry_id now : ℕ) (db : Authority)
    → Keeps db.runs (after db (accept_stop h c active entry_id now db)).runs
accept_stop-Keeps h c active entry_id now db = elim (runs-accept_stop h c active entry_id now db) [
  | inl same ↦ rw same (Keeps-refl db.runs)
  | inr (target, written) ↦
      rw written λ s. withdraw_execution-Keeps c now db (target_executes c active db target s) s
]

runs-settle_run :
    (h : Hashes) (id : ℕ) (result : TerminalState) (text : Text) (checkpoint : Option Text)
    (attempt : Attempt) (now : ℕ) (db : Authority)
    → ((after db (settle_run h id result text checkpoint attempt now db)).runs ≡ db.runs)
      ⊎ ((after db (settle_run h id result text checkpoint attempt now db)).runs
          ≡ update_where
              (λ (r : Run). (r.run_id == id) && is_in_flight r.state)
              (end_run (to_run_state result) now)
              db.runs)
unfolding settle_run insert_entry record_unread_milestone record_change insert_change
runs-settle_run h id result text checkpoint attempt now db = ground arith

end_in_flight_lawful :
    (result : TerminalState) (s : RunState)
    → is_in_flight s ≡ true
    → leads_to s (to_run_state result) ≡ true
end_in_flight_lawful result s h = ground arith

pub settle_run-Keeps :
    (h : Hashes) (id : ℕ) (result : TerminalState) (text : Text) (checkpoint : Option Text)
    (attempt : Attempt) (now : ℕ) (db : Authority)
    → Keeps db.runs (after db (settle_run h id result text checkpoint attempt now db)).runs
settle_run-Keeps h id result text checkpoint attempt now db =
    elim (runs-settle_run h id result text checkpoint attempt now db) [
      | inl same ↦ rw same (Keeps-refl db.runs)
      | inr written ↦ rw written (
          Keeps-stop (λ (r : Run). (r.run_id == id) && is_in_flight r.state)
            (λ r. to_run_state result) (λ r. some now) db.runs (λ r. ends result)
            (All-universal _ (λ r. ground (arith, end_in_flight_lawful result r.state)) db.runs))
    ]
  where
    ends : (t : TerminalState) → is_executing (to_run_state t) ≡ false
    ends t = ground arith

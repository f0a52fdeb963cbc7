-- ===== src/Authority/Control.antt =====
-- Commands to a Run that executes, of packages/host/src/store.ts: `acceptSteering`, `markSteering`,
-- `markRunSteeringUnapplied`, `acceptStop`.
use pidex.Prelude.{
  Text, codes, ℕ, Bool, true, false, ◌&&◌, List, [], Option, none, some, map, ◌==◌, if◌then◌else◌,
  same?, find?, select, update_where,
}
use pidex.Authority.Schema.{
  Run, cancelling, cancelled, Entry, EntryKind, Interaction, withdrawn, run_stop, Steering,
  SteeringState, applied, unapplied, Cursor, Outcome, steer_accepted, steer_rejected, stop_accepted,
  Authority,
}
use pidex.Authority.Result.{Result, committed, thrown, schema_mismatch, ◌>>=◌}
use pidex.Authority.States.{
  is_executing, is_undelivered, is_active_interaction, is_pending_steering,
}
use pidex.Authority.Insert.{insert_entry, insert_steering}
use pidex.Authority.Query.{
  cursor_of, find_session, load_run, load_entry, next_timeline_order, update_session, advance_host,
}
use pidex.Authority.Command.{
  SteerCommand, StopCommand, steer, stop, Hashes, missing, conflict, replay, load_command_receipt,
  commit_receipt,
}
use pidex.Authority.Runs.{
  describe_run_input, input_blob, in_session, set_state, end_run, update_runs,
}
use pidex.Authority.Interactions.{settle, interactions, max_timeline_bump}

pub data SteerReply : Type 0 where
  accepted replayed : Entry → Cursor → SteerReply
  stale_execution command_id_conflict : Cursor → SteerReply

-- The run is the named one, it executes, its worker is the one that the command names, and the
-- Session's Timeline is as the command saw it.
unfoldable pub targets_active_execution : ℕ → ℕ → ℕ → ℕ → Option ℕ → Authority → Bool
targets_active_execution session_id run_id generation observed active db =
    elim (find? (λ (r : Run). (r.run_id == run_id) && (r.session_id == session_id)) db.runs) [
      | none ↦ false
      | some run ↦ elim (find_session session_id db) [
        | none ↦ false
        | some session ↦
            is_executing run.state
            && same? active (some generation)
            && (session.timeline_revision == observed)
      ]
    ]

unfoldable pub live_entry : EntryKind → Text → Option ℕ → ℕ → ℕ → ℕ → ℕ → Authority → Entry
live_entry kind text blob_id session_id run_id entry_id now db = record {
  entry_id = entry_id;
  session_id = session_id;
  run_id = run_id;
  entry_order = next_timeline_order session_id db;
  kind = kind;
  text = text;
  checkpoint = none;
  blob_id = blob_id;
  created_at = now;
  revision = 1;
  finalized = true;
  tool_call_id = none;
}

unfoldable pub carry_out_steering :
    Hashes → SteerCommand → ℕ → ℕ → Authority → Result (Authority × Outcome)
unfolding live_entry
carry_out_steering h c entry_id now db = do
  db₁ ←
      insert_entry
        (live_entry EntryKind.steering (describe_run_input c.text c.images) (input_blob h c.images)
          c.session_id c.run_id entry_id now db)
        db
  db₂ ←
      insert_steering
        (record {
          command_id = c.command_id;
          run_id = c.run_id;
          worker_generation = c.worker_generation;
          text = c.text;
          entry_id = entry_id;
          state = SteeringState.accepted;
          created_at = now;
        })
        db₁
  let db₃ = advance_host now (update_session c.session_id max_timeline_bump db₂)
  committed (db₃, steer_accepted entry_id (cursor_of db₃))

unfoldable pub replay_steering : Outcome → Authority → Result (Authority × SteerReply)
replay_steering (steer_accepted entry_id cursor) db = do
  entry ← load_entry entry_id db
  committed (db, SteerReply.replayed entry cursor)
replay_steering (steer_rejected cursor) db = committed (db, stale_execution cursor)
replay_steering _ db = thrown schema_mismatch

unfoldable pub steer_target :
    Hashes → SteerCommand → ℕ → ℕ → Authority → Result (Authority × SteerReply)
unfolding carry_out_steering
steer_target h c entry_id now db = do
  (db₁, result) ← carry_out_steering h c entry_id now db
  entry ← load_entry entry_id db₁
  db₂ ← commit_receipt c.command_id (h.envelope (steer c)) result now db₁
  committed (db₂, SteerReply.accepted entry (cursor_of db₁))

-- A refused steering gets a receipt.
unfoldable pub refuse_steering :
    Hashes → SteerCommand → ℕ → Authority → Result (Authority × SteerReply)
refuse_steering h c now db = do
  db₁ ← commit_receipt c.command_id (h.envelope (steer c)) (steer_rejected (cursor_of db)) now db
  committed (db₁, stale_execution (cursor_of db))

unfoldable pub accept_steering :
    Hashes → SteerCommand → Option ℕ → ℕ → ℕ → Authority → Result (Authority × SteerReply)
unfolding steer_target refuse_steering replay_steering
accept_steering h c active entry_id now db =
    elim (load_command_receipt c.command_id (h.envelope (steer c)) db) [
      | conflict ↦ committed (db, command_id_conflict (cursor_of db))
      | replay prior ↦ replay_steering prior db
      | missing ↦
          if targets_active_execution c.session_id c.run_id c.worker_generation
            c.observed_timeline_revision active db
          then steer_target h c entry_id now db
          else refuse_steering h c now db
    ]

abbrev pub update_steering : (Steering → Bool) → SteeringState → Authority → Authority
update_steering p state db = record db {
  steering =
      update_where (λ (s : Steering). p s && is_pending_steering s.state)
        (λ (s : Steering). record s { state = state }) db.steering;
}

unfoldable pub mark_steering : ℕ → Bool → Authority → Authority
mark_steering command_id is_applied =
    update_steering (λ (s : Steering). s.command_id == command_id)
      (if is_applied then applied else unapplied)

unfoldable pub mark_run_steering_unapplied : ℕ → Authority → Authority
mark_run_steering_unapplied run_id =
    update_steering (λ (s : Steering). s.run_id == run_id) unapplied

pub data StopReply : Type 0 where
  accepted replayed : Run → Entry → List Interaction → Cursor → StopReply
  stale_execution command_id_conflict : Cursor → StopReply

abbrev pub withdraw_for_stop : ℕ → Interaction → Interaction
withdraw_for_stop now = settle withdrawn run_stop now false

abbrev pub stop_notice : Text
stop_notice =
    codes "Cancellation requested; partial output and committed side effects are preserved."

-- The updates of `acceptStop` up to the entry: the run is cancelling, the session's undelivered
-- runs are cancelled, the run's steering is unapplied and its interactions are withdrawn.
unfoldable pub withdraw_execution : StopCommand → ℕ → Authority → Authority
unfolding mark_run_steering_unapplied
withdraw_execution c now db =
    let db₁ = update_runs (λ (r : Run). r.run_id == c.run_id) (set_state cancelling) db in
    let db₂ = update_runs (in_session c.session_id is_undelivered) (end_run cancelled now) db₁ in
    let db₃ = mark_run_steering_unapplied c.run_id db₂ in
    record db₃ {
      interactions =
          update_where
            (λ (i : Interaction). same? i.run_id (some c.run_id) && is_active_interaction i.state)
            (withdraw_for_stop now) db₃.interactions;
    }

unfoldable pub carry_out_stop : StopCommand → ℕ → ℕ → Authority → Result (Authority × Outcome)
unfolding live_entry
carry_out_stop c entry_id now db = do
  let db₁ = withdraw_execution c now db
  db₂ ←
      insert_entry
        (live_entry EntryKind.lifecycle stop_notice none c.session_id c.run_id entry_id now db₁) db₁
  let db₃ = advance_host now (update_session c.session_id max_timeline_bump db₂)
  committed (db₃, stop_accepted c.run_id entry_id (cursor_of db₃))

unfoldable pub replay_stop : Outcome → Authority → Result (Authority × StopReply)
replay_stop (stop_accepted run_id entry_id cursor) db = do
  run ← load_run run_id db
  entry ← load_entry entry_id db
  committed (db, StopReply.replayed run entry [] cursor)
replay_stop _ db = thrown schema_mismatch

unfoldable pub stop_target :
    Hashes → StopCommand → ℕ → ℕ → Authority → Result (Authority × StopReply)
unfolding carry_out_stop
stop_target h c entry_id now db = do
  (db₁, result) ← carry_out_stop c entry_id now db
  db₂ ← commit_receipt c.command_id (h.envelope (stop c)) result now db₁
  run ← load_run c.run_id db₂
  entry ← load_entry entry_id db₂
  committed (
    db₂,
    StopReply.accepted run entry
        (map (withdraw_for_stop now) (
          select (λ (i : Interaction). same? i.run_id (some c.run_id))
            (interactions c.session_id db)))
        (cursor_of db₁),
  )

-- A refused stop gets no receipt.
unfoldable pub accept_stop :
    Hashes → StopCommand → Option ℕ → ℕ → ℕ → Authority → Result (Authority × StopReply)
unfolding stop_target replay_stop
accept_stop h c active entry_id now db =
    elim (load_command_receipt c.command_id (h.envelope (stop c)) db) [
      | conflict ↦ committed (db, command_id_conflict (cursor_of db))
      | replay prior ↦ replay_stop prior db
      | missing ↦
          if targets_active_execution c.session_id c.run_id c.worker_generation
            c.observed_timeline_revision active db
          then stop_target h c entry_id now db
          else committed (db, stale_execution (cursor_of db))
    ]

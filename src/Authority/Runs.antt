-- ===== src/Authority/Runs.antt =====
-- The Run queue of packages/host/src/store.ts: `submitRun`, `dispatchNext`, `holdQueued`,
-- `releaseRun`, `cancelQueuedRun`.
use pidex.Prelude.{
  Text, codes, ℕ, zero, suc, ◌+◌, ◌/◌, ◌%◌, Bool, true, false, not, ◌&&◌, List, [], ◌∷◌, ◌++◌,
  Option, none, some, ◌==◌, ltb, leb, if◌then◌else◌, length, any, select, update_where, max_of,
  order_by, head?,
}
use pidex.Authority.Schema.{
  Session, Run, RunState, queued, executing, held, cancelled, Entry, EntryKind, resident, Outcome,
  submit_accepted, submit_rejected, unknown_session, session_archived_error, session_busy,
  no_executing_run, Authority,
}
use pidex.Authority.Result.{
  Result, committed, thrown, require, ◌>>=◌, ◌>>◌, run_not_held, run_out_of_order,
  run_not_cancellable, Error,
}
use pidex.Authority.States.{
  is_queued, is_executing, is_held, is_accepted, is_undelivered, is_archived,
}
use pidex.Authority.Insert.{insert_run, insert_entry}
use pidex.Authority.Query.{cursor_of, find_session, load_run, next_timeline_order, update_session}
use pidex.Authority.Command.{
  SubmitCommand, RunCapability, run_submit, run_follow_up, submit, Hashes, Reply, answer,
  is_submit_outcome,
}

-- decimal digits of a count of images, at most as many as the fuel
unfoldable pub decimal : ℕ → ℕ → Text
decimal zero n = []
decimal (suc fuel) n =
    let rest = decimal fuel (n / 10) in
    if ltb n 10 then (48 + n) ∷ [] else rest ++ (48 + n % 10) ∷ []

-- `describeRunInput`
unfoldable pub describe_run_input : Text → List ℕ → Text
unfolding decimal
describe_run_input text [] = text
describe_run_input text (i ∷ is) =
    let count : ℕ = length (i ∷ is) in
    let plural : Text = if count == 1 then [] else codes "s" in
    let attachment : Text =
      codes "["
      ++ (decimal (suc count) count ++ (codes " image" ++ (plural ++ codes " attached]"))) in
    elim text [ [] ↦ attachment | c ∷ cs ↦ (c ∷ cs) ++ (codes "\n" ++ attachment) ]

-- `publishRunInputImages`: no blob without images
unfoldable pub input_blob : Hashes → List ℕ → Option ℕ
input_blob h [] = none
input_blob h (i ∷ is) = some (h.images (i ∷ is))

abbrev pub is_follow_up : RunCapability → Bool
is_follow_up run_follow_up = true
is_follow_up run_submit = false

abbrev pub in_session : ℕ → (RunState → Bool) → Run → Bool
in_session id p r = (r.session_id == id) && p r.state

-- SELECT COALESCE(MAX(session_order), 0) + 1
unfoldable pub next_run_order : ℕ → List Run → ℕ
next_run_order id runs =
    max_of (λ (r : Run). r.session_order) (select (λ (r : Run). r.session_id == id) runs) + 1

unfoldable pub new_run : SubmitCommand → ℕ → ℕ → Authority → Run
unfolding next_run_order
new_run c run_id now db = record {
  run_id = run_id;
  session_id = c.session_id;
  session_order = next_run_order c.session_id db.runs;
  prompt = c.prompt;
  state = if is_follow_up c.required_capability then queued else executing;
  created_at = now;
  completed_at = none;
}

unfoldable pub prompt_entry : Hashes → SubmitCommand → ℕ → ℕ → ℕ → Authority → Entry
prompt_entry h c run_id entry_id now db = record {
  entry_id = entry_id;
  session_id = c.session_id;
  run_id = run_id;
  entry_order = next_timeline_order c.session_id db;
  kind = EntryKind.prompt;
  text = describe_run_input c.prompt c.images;
  checkpoint = none;
  blob_id = input_blob h c.images;
  created_at = now;
  revision = 1;
  finalized = true;
  tool_call_id = none;
}

unfoldable pub accept_submission :
    Hashes → SubmitCommand → ℕ → ℕ → ℕ → Authority → Result (Authority × Outcome)
unfolding new_run prompt_entry
accept_submission h c run_id entry_id now db = do
  db₁ ← insert_run (new_run c run_id now db) db
  db₂ ← insert_entry (prompt_entry h c run_id entry_id now db₁) db₁
  committed (
    update_session c.session_id
        (λ (s : Session). record s {
          residency = resident;
          timeline_revision = s.timeline_revision + 1;
        })
        db₂,
    submit_accepted (new_run c run_id now db) (cursor_of db),
  )

unfoldable pub carry_out_submission :
    Hashes → SubmitCommand → ℕ → ℕ → ℕ → Authority → Result (Authority × Outcome)
unfolding accept_submission
carry_out_submission h c run_id entry_id now db =
    let active = any (in_session c.session_id is_accepted) db.runs in
    elim (find_session c.session_id db) [
      | none ↦ committed (db, submit_rejected unknown_session (cursor_of db))
      | some s ↦
          if is_archived s.availability
          then committed (db, submit_rejected session_archived_error (cursor_of db))
          else if is_follow_up c.required_capability && not active
          then committed (db, submit_rejected no_executing_run (cursor_of db))
          else if not (is_follow_up c.required_capability) && active
          then committed (db, submit_rejected session_busy (cursor_of db))
          else accept_submission h c run_id entry_id now db
    ]

-- The random identifiers of the run and of its prompt's entry are arguments.
unfoldable pub submit_run :
    Hashes → SubmitCommand → ℕ → ℕ → ℕ → Authority → Result (Authority × Reply)
unfolding carry_out_submission
submit_run h c run_id entry_id now db =
    answer c.command_id (h.envelope (submit c)) is_submit_outcome now
      (carry_out_submission h c run_id entry_id now) db

-- UPDATE runs SET state = ? WHERE …
abbrev pub set_state : RunState → Run → Run
set_state state r = record r { state = state }

abbrev pub end_run : RunState → ℕ → Run → Run
end_run state now r = record r { state = state; completed_at = some now }

abbrev pub update_runs : (Run → Bool) → (Run → Run) → Authority → Authority
update_runs p f db = record db { runs = update_where p f db.runs }

abbrev pub earlier_run : Run → Run → Bool
earlier_run a b = leb a.session_order b.session_order

unfoldable pub next_queued : ℕ → List Run → Option Run
next_queued id runs = head? (order_by earlier_run (select (in_session id is_queued) runs))

unfoldable pub dispatch_next : ℕ → Authority → Result (Authority × Option Run)
unfolding next_queued
dispatch_next id db =
    if any (in_session id is_executing) db.runs
    then thrown Error.session_busy
    else elim (next_queued id db.runs) [
      | none ↦ committed (db, none)
      | some run ↦ committed (
        update_runs (λ (r : Run). (r.run_id == run.run_id) && is_queued r.state)
            (set_state executing) db,
        some (set_state executing run),
      )
    ]

unfoldable pub hold_queued : ℕ → Authority → Authority
hold_queued id = update_runs (in_session id is_queued) (set_state held)

unfoldable pub release_run : ℕ → Authority → Result (Authority × Run)
release_run id db = do
  run ← load_run id db
  require (is_held run.state) run_not_held
  require (not (any (in_session run.session_id is_executing) db.runs)) Error.session_busy
  require
      (not (
        any
          (λ (r : Run).
            in_session run.session_id is_undelivered r && ltb r.session_order run.session_order)
          db.runs))
      run_out_of_order
  committed (
    update_runs (in_session run.session_id is_held)
        (λ (r : Run). set_state (if r.run_id == id then executing else queued) r) db,
    set_state executing run,
  )

unfoldable pub cancel_queued_run : ℕ → ℕ → Authority → Result (Authority × Run)
cancel_queued_run id now db = do
  run ← load_run id db
  require (is_undelivered run.state) run_not_cancellable
  committed (
    update_runs (λ (r : Run). r.run_id == id) (end_run cancelled now) db,
    set_state cancelled run,
  )

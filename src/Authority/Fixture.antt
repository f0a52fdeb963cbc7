-- ===== src/Authority/Fixture.antt =====
-- A small authority on which the tests of the store of packages/host/src/store.ts run, and what they
-- compute through.
use pidex.Prelude.{arith, ℕ, List, [], ◌∷◌, none}
use pidex.Authority.Schema.{
  Session, available, resident, Run, RunState, queued, executing, held, completed, Authority,
}
use pidex.Authority.Command.{
  Hashes, SubmitCommand, run_follow_up, answer, load_command_receipt, commit_receipt,
}
use pidex.Authority.Runs.{hold_queued, submit_run, dispatch_next, release_run}
use pidex.Authority.Settlement.{settle_run}
use pidex.Authority.Insert.{insert_run, insert_entry, insert_receipt, insert_change}
use pidex.Authority.Query.{
  find_session, next_timeline_order, is_unread, record_change, cursor_of, load_session, summary_of,
  read_state_from_basis, session_has_active_work, load_run, find_run,
}
use pidex.Authority.RunTable.{IsSound}
use pidex.Authority.Attention.{attention_row, attention_from_basis}
use pidex.Authority.Interactions.{record_unread_milestone}
use pidex.Authority.Sessions.{rename_session, change_session_availability, mark_session_read}
use pidex.Authority.Operation.{apply, history}

-- Hashes that tell the commands of the examples apart.
abbrev pub hashes : Hashes
hashes = record { envelope = λ e. 7; images = λ is. 8; text = λ t. 9 }

abbrev pub a_session : Session
a_session = record {
  session_id = 1;
  project_id = none;
  workspace_id = none;
  name = [];
  availability = available;
  residency = resident;
  metadata_revision = 1;
  timeline_revision = 1;
  read_through_timeline_revision = 1;
  read_state_revision = 1;
  latest_unread_milestone = none;
  parent_session_id = none;
  fork_point_entry_id = none;
  created_at = 5;
}

abbrev pub a_run : ℕ → ℕ → RunState → Run
a_run id order state = record {
  run_id = id;
  session_id = 1;
  session_order = order;
  prompt = [];
  state = state;
  created_at = 5;
  completed_at = none;
}

abbrev pub authority_of : List Run → Authority
authority_of rs = record {
  host = record { host_id = 3; epoch = 4; sequence = 1; committed_at = 5 };
  projects = [];
  workspaces = [];
  sessions = a_session ∷ [];
  runs = rs;
  entries = [];
  interactions = [];
  steering = [];
  receipts = [];
  changes = [];
  orphans = [];
  retained = [];
}

abbrev pub busy : Authority
busy = authority_of (a_run 10 1 executing ∷ a_run 11 2 queued ∷ [])

abbrev pub idle : Authority
idle = authority_of (a_run 10 1 completed ∷ a_run 12 3 queued ∷ a_run 11 2 queued ∷ [])

abbrev pub on_hold : Authority
on_hold = authority_of (a_run 10 1 completed ∷ a_run 12 3 held ∷ a_run 11 2 held ∷ [])

abbrev pub a_submission : SubmitCommand
a_submission = record {
  command_id = 20;
  session_id = 1;
  prompt = [];
  images = [];
  required_capability = run_follow_up;
}

pub busy-IsSound : IsSound busy.runs
busy-IsSound = record { keyed = λ id. ground arith; exclusive = λ s. ground arith }

-- all that the runs of the tests compute through
unfoldable pub operations : Unit {0}
unfolding history apply hold_queued dispatch_next settle_run submit_run release_run rename_session
    change_session_availability mark_session_read answer load_command_receipt find_session
    insert_run insert_entry commit_receipt insert_receipt next_timeline_order
    record_unread_milestone is_unread record_change insert_change cursor_of load_session summary_of
    read_state_from_basis attention_row attention_from_basis session_has_active_work load_run
    find_run
operations = tt

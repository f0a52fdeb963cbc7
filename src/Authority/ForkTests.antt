-- ===== src/Authority/ForkTests.antt =====
-- Forks of packages/host/src/store.ts on a small authority.
use pidex.Prelude.{ℕ, ◌+◌, ◌≡◌, refl, true, [], ◌∷◌, none, some, map}
use pidex.Authority.Schema.{executing, completed, Entry, EntryKind, prompt, response, Authority}
use pidex.Authority.Result.{thrown, after, invalid_fork_point, directory_already_added}
use pidex.Authority.Insert.{insert_session}
use pidex.Authority.Query.{validate_session_scope, project_known}
use pidex.Authority.Sessions.{new_session, publish_session}
use pidex.Authority.Fork.{
  ForkRequest, is_fork_point, history_of, runs_of, child_entry, copy_runs, copy_entries,
  latest_milestone, child_session, copy_history, fork_session, is_added, insert_project,
  insert_checkout, create_project_from_directory,
}
use pidex.Authority.ForkResult.{IsForked, fork_session-IsForked}
use pidex.Authority.Fixture.{a_run, authority_of, operations}

abbrev an_entry : ℕ → ℕ → EntryKind → Entry
an_entry id order kind = record {
  entry_id = id;
  session_id = 1;
  run_id = 10;
  entry_order = order;
  kind = kind;
  text = [];
  checkpoint = some (order ∷ []);
  blob_id = none;
  created_at = 5;
  revision = 1;
  finalized = true;
  tool_call_id = none;
}

-- One Run has ended, and one executes behind the fork point.
abbrev talked : Authority
talked = record (authority_of (a_run 10 1 completed ∷ a_run 11 2 executing ∷ [])) {
  entries = an_entry 31 2 response ∷ an_entry 30 1 prompt ∷ [];
}

abbrev a_fork : ForkRequest
a_fork = record {
  parent_session_id = 1;
  fork_point_entry_id = 31;
  project_id = none;
  workspace_id = none;
  child_session_id = 2;
  parent_checkpoint = 2 ∷ [];
  child_genesis_checkpoint = 9 ∷ [];
  child_run_id = λ n. n + 100;
  child_entry_id = λ n. n + 100;
}

unfoldable forking : Unit {0}
unfolding operations insert_session validate_session_scope project_known new_session publish_session
    is_fork_point history_of runs_of child_entry copy_runs copy_entries latest_milestone
    child_session copy_history fork_session is_added insert_project insert_checkout
    create_project_from_directory
forking = tt

abbrev forked : Authority
forked = after talked (fork_session a_fork 9 talked)

-- The copies, in the order of the entries; the last has the child's first checkpoint.
copies_entries :
    map (λ (e : Entry). e.checkpoint) forked.entries
    ≡ some (2 ∷ []) ∷ some (1 ∷ []) ∷ some (1 ∷ []) ∷ some (9 ∷ []) ∷ []
unfolding forking
copies_entries = refl

-- The prompt is no point to fork at.
refuses_prompt :
    fork_session (record a_fork { fork_point_entry_id = 30; parent_checkpoint = 1 ∷ [] }) 9 talked
    ≡ thrown invalid_fork_point
unfolding forking
refuses_prompt = refl

fork_session-IsForked_example : IsForked a_fork talked forked
unfolding forking
fork_session-IsForked_example = fork_session-IsForked a_fork 9 talked forked _ _ refl

-- A directory is added once.
refuses_directory :
    create_project_from_directory
      (λ t. t)
      (7 ∷ [])
      (8 ∷ [])
      42
      43
      10
      (after talked (create_project_from_directory (λ t. t) (7 ∷ []) (8 ∷ []) 40 41 9 talked))
    ≡ thrown directory_already_added
unfolding forking
refuses_directory = refl

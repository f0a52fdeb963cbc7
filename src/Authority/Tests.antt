-- ===== src/Authority/Tests.antt =====
-- Runs of the operations of packages/host/src/store.ts on a small authority, and the theorems about
-- it at concrete inputs.
use pidex.Prelude.{◌≡◌, ◌≤◌, refl, true, List, [], ◌∷◌, none, map, All}
use pidex.Authority.Schema.{Run, executing, held, completed, Authority, submit_accepted}
use pidex.Authority.States.{is_queued}
use pidex.Authority.Result.{after, committed}
use pidex.Authority.Command.{replayed}
use pidex.Authority.Runs.{in_session, new_run, submit_run}
use pidex.Authority.Settlement.{TerminalState}
use pidex.Authority.Query.{cursor_of}
use pidex.Authority.Operation.{Operation, submits, dispatches, holds, settles, history}
use pidex.Authority.Fixture.{busy-IsSound, hashes, a_run, busy, idle, a_submission, operations}
use pidex.Authority.RunTable.{Preserves}
use pidex.Authority.RunHistory.{history-Keeps}
use pidex.Authority.RunOrder.{dispatch_next-first}
use pidex.Authority.ReplayHistory.{submit_run-replayed}
use pidex.Authority.Runs.{new_run}

abbrev some_operations : List Operation
some_operations =
    submits a_submission 13 30 6
    ∷ settles 10 TerminalState.completed [] none (record { entry_id = 31; commits = true }) 7
    ∷ dispatches 1
    ∷ holds 1
    ∷ []

history-Keeps_example : Preserves busy.runs (history hashes busy some_operations).runs
history-Keeps_example = history-Keeps hashes busy some_operations busy-IsSound

-- The operations do what they say: the first run ends, the next executes, the last is held.
history_states :
    map (λ (r : Run). r.state) (history hashes busy some_operations).runs
    ≡ completed ∷ executing ∷ held ∷ []
unfolding operations
history_states = refl

dispatch_next-first_example :
    All (λ (r : Run). in_session 1 is_queued r ≡ true → 2 ≤ r.session_order) idle.runs
unfolding operations
dispatch_next-first_example = (dispatch_next-first 1 idle _ (a_run 11 2 executing) refl).3

abbrev busy_after : Authority
busy_after = after busy (submit_run hashes a_submission 13 30 6 busy)

submit_run-replayed_example :
    submit_run hashes a_submission 14 33 9 (history hashes busy_after (dispatches 1 ∷ holds 1 ∷ []))
    ≡ committed (
      history hashes busy_after (dispatches 1 ∷ holds 1 ∷ []),
      replayed (submit_accepted (new_run a_submission 13 6 busy) (cursor_of busy)),
    )
unfolding operations
submit_run-replayed_example =
    submit_run-replayed hashes busy busy_after (submit_accepted _ _) (dispatches 1 ∷ holds 1 ∷ [])
      a_submission 13 30 6 14 33 9 refl

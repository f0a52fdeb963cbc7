-- ===== src/Authority/RunTests.antt =====
-- The theorems on the end of a Run in packages/host/src/store.ts at concrete inputs.
use pidex.Prelude.{true, ◌≡◌, refl, [], ◌∷◌, none, some}
use pidex.Authority.Schema.{Authority, cancelling, EntryKind}
use pidex.Authority.Result.{after, thrown, run_not_accepted}
use pidex.Authority.Settlement.{TerminalState, Attempt, settle_run}
use pidex.Authority.Command.{StopCommand}
use pidex.Authority.Control.{
  accept_stop, targets_active_execution, withdraw_execution, live_entry, stop_notice,
  mark_run_steering_unapplied,
}
use pidex.Authority.Interactions.{interactions}
use pidex.Authority.Query.{cursor_of, load_entry}
use pidex.Authority.Operation.{dispatches, holds, history}
use pidex.Authority.RunSettlement.{settle_run-once}
use pidex.Authority.StopEffect.{IsWithdrawn, accept_stop-IsWithdrawn}
use pidex.Authority.Fixture.{hashes, busy, busy-IsSound, a_run, operations}

abbrev attempt : Attempt
attempt = record { entry_id = 31; commits = true }

abbrev settled : Authority
settled = after busy (settle_run hashes 10 TerminalState.completed [] none attempt 7 busy)

settle_run-once_example :
    settle_run hashes 10 TerminalState.failed [] none attempt 9
      (history hashes settled (dispatches 1 ∷ holds 1 ∷ []))
    ≡ thrown run_not_accepted
unfolding operations
settle_run-once_example =
    settle_run-once hashes 10 TerminalState.completed TerminalState.failed [] [] none none attempt
      attempt 7 9 busy settled _ (dispatches 1 ∷ holds 1 ∷ []) busy-IsSound refl

abbrev a_stop : StopCommand
a_stop = record {
  command_id = 24;
  session_id = 1;
  run_id = 10;
  worker_generation = 2;
  observed_timeline_revision = 1;
}

abbrev stopped : Authority
stopped = after busy (accept_stop hashes a_stop (some 2) 32 8 busy)

accept_stop-IsWithdrawn_example : IsWithdrawn a_stop stopped
unfolding operations accept_stop targets_active_execution load_entry withdraw_execution
    mark_run_steering_unapplied interactions
accept_stop-IsWithdrawn_example =
    accept_stop-IsWithdrawn hashes a_stop (some 2) 32 8 busy stopped (a_run 10 1 cancelling)
      (live_entry EntryKind.lifecycle stop_notice none 1 10 32 8 busy) [] (cursor_of stopped) refl

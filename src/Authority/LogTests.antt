-- ===== src/Authority/LogTests.antt =====
-- The theorems on the log of changes of packages/host/src/store.ts at concrete inputs.
use pidex.Prelude.{ℕ, ◌≡◌, refl, true, List, [], ◌∷◌, none, arith}
use pidex.Authority.Schema.{Authority, Change}
use pidex.Authority.Settlement.{TerminalState}
use pidex.Authority.Synchronization.{
  changes_after, compact_changes, cursor_basis, earliest_sequence,
}
use pidex.Authority.Query.{summary_of}
use pidex.Authority.Schema.{session_renamed}
use pidex.Authority.Operation.{Operation, creates, settles, rotates, history}
use pidex.Authority.ChangeLog.{IsLog}
use pidex.Authority.LogFrame.{IsLogged}
use pidex.Authority.LogHistory.{history-IsLogged}
use pidex.Authority.FollowHistory.{changes_after-history}
use pidex.Authority.Compaction.{changes_after-compacted}
use pidex.Authority.Fixture.{hashes, busy, a_session}

abbrev publications : List Operation
publications =
    creates none none none 2 8
    ∷ settles 10 TerminalState.completed [] none (record { entry_id = 31; commits = true }) 9
    ∷ []

busy-IsLog : IsLog busy.host.sequence busy.changes
busy-IsLog = record { bounded = tt; increasing = tt }

history-IsLogged_example : IsLogged 1 (history hashes busy (rotates 8 6 ∷ publications))
history-IsLogged_example =
    history-IsLogged hashes 1 busy (rotates 8 6 ∷ publications) (busy-IsLog, omega arith)

-- The new Session and the unread answer are published.
changes_after-history_example :
    (history hashes busy publications).changes ≡ changes_after 1 (history hashes busy publications)
changes_after-history_example =
    changes_after-history hashes busy publications busy-IsLog (refl, (refl, tt))

abbrev renamed : ℕ → ℕ → Change
renamed sequence time = record {
  sequence = sequence;
  payload = session_renamed (summary_of a_session busy);
  committed_at = time;
}

abbrev two_weeks : Authority
two_weeks = record busy {
  host = record { host_id = 3; epoch = 4; sequence = 3; committed_at = 1000000000 };
  changes = renamed 2 5 ∷ renamed 3 1000000000 ∷ [];
}

changes_after-compacted_example :
    changes_after 2 (compact_changes 1100000000 two_weeks) ≡ changes_after 2 two_weeks
unfolding cursor_basis earliest_sequence compact_changes
changes_after-compacted_example =
    changes_after-compacted 1100000000 2 (record { host_id = 3; epoch = 4; sequence = 2 }) two_weeks
      (record {
        bounded = (omega arith, (omega arith, tt));
        increasing = (omega arith, (omega arith, tt));
      })
      ((omega arith, tt), (tt, tt)) refl

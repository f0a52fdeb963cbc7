-- ===== src/Authority/States.antt =====
-- The state lists of the WHERE clauses of packages/host/src/store.ts, as tests.
use pidex.Prelude.{Bool, true, false, ◌||◌}
use pidex.Authority.Schema.{
  RunState, queued, executing, cancelling, held, InteractionState, open_, resolving, SteeringState,
  Availability, available, archived, Residency, sleeping, resident,
}

abbrev pub is_queued : RunState → Bool
is_queued queued = true
is_queued _ = false

abbrev pub is_executing : RunState → Bool
is_executing executing = true
is_executing _ = false

abbrev pub is_cancelling : RunState → Bool
is_cancelling cancelling = true
is_cancelling _ = false

abbrev pub is_held : RunState → Bool
is_held held = true
is_held _ = false

-- state IN ('queued', 'executing', 'cancelling')
abbrev pub is_progressing : RunState → Bool
is_progressing s = is_queued s || is_executing s || is_cancelling s

-- state IN ('queued', 'executing', 'held')
abbrev pub is_accepted : RunState → Bool
is_accepted s = is_queued s || is_executing s || is_held s

-- state IN ('executing', 'cancelling')
abbrev pub is_in_flight : RunState → Bool
is_in_flight s = is_executing s || is_cancelling s

-- state IN ('queued', 'executing', 'held', 'cancelling')
abbrev pub is_active : RunState → Bool
is_active s = is_accepted s || is_cancelling s

-- state IN ('queued', 'held')
abbrev pub is_undelivered : RunState → Bool
is_undelivered s = is_queued s || is_held s

abbrev pub is_open : InteractionState → Bool
is_open open_ = true
is_open _ = false

-- state IN ('open', 'resolving')
abbrev pub is_active_interaction : InteractionState → Bool
is_active_interaction open_ = true
is_active_interaction resolving = true
is_active_interaction _ = false

abbrev pub is_pending_steering : SteeringState → Bool
is_pending_steering SteeringState.accepted = true
is_pending_steering _ = false

abbrev pub is_archived : Availability → Bool
is_archived archived = true
is_archived available = false

abbrev pub is_resident : Residency → Bool
is_resident resident = true
is_resident sleeping = false

-- The columns `availability` of a row and of a command are equal.
abbrev pub same_availability : Availability → Availability → Bool
same_availability available available = true
same_availability archived archived = true
same_availability _ _ = false

-- ===== src/Authority/Interactions.antt =====
-- The Interactions of packages/host/src/store.ts: `interactions`, `createInteraction`,
-- `reserveInteraction`, `settleInteraction`; with `advanceTimelineRevision` and
-- `recordUnreadMilestone`, which they share with the Timeline.
use pidex.Prelude.{
  Text, codes, ℕ, ◌+◌, Bool, true, false, ◌&&◌, ◌||◌, List, ◌++◌, Option, none, some, ◌==◌, ltb,
  leb, if◌then◌else◌, any, find?, select, update_where, order_by,
}
use pidex.Authority.Schema.{
  Session, Entry, EntryKind, Interaction, InteractionKind, InteractionState, open_, resolving,
  TerminalCause, session_read_state_changed, Authority,
}
use pidex.Authority.Result.{Result, committed, or_throw, schema_mismatch, constraint_failed, ◌>>=◌}
use pidex.Authority.States.{is_open, is_active_interaction}
use pidex.Authority.Insert.{insert_entry, insert_interaction}
use pidex.Authority.Query.{
  find_session, load_entry, is_unread, read_state_from_basis, next_timeline_order, update_session,
  advance_host, record_change,
}

abbrev pub max_timeline_bump : Session → Session
max_timeline_bump s = record s { timeline_revision = s.timeline_revision + 1 }

abbrev pub mark_milestone : ℕ → ℕ → Session → Session
mark_milestone revision bump s = record s {
  latest_unread_milestone = some revision;
  read_state_revision = s.read_state_revision + bump;
}

unfoldable pub publish_milestone : ℕ → ℕ → ℕ → Authority → Result Authority
publish_milestone id revision now db = do
  let db₁ = advance_host now (update_session id (mark_milestone revision 1) db)
  changed ← or_throw (find_session id db₁) schema_mismatch
  (db₂, cursor) ← record_change (session_read_state_changed id (read_state_from_basis changed)) db₁
  committed db₂

unfoldable pub milestone_after : ℕ → ℕ → ℕ → Bool → Authority → Result Authority
milestone_after id revision now true db =
    committed (update_session id (mark_milestone revision 0) db)
milestone_after id revision now false db = publish_milestone id revision now db

-- The read state changes, and is published, only if the Session was read before.
unfoldable pub record_unread_milestone : ℕ → ℕ → ℕ → Authority → Result Authority
unfolding milestone_after publish_milestone
record_unread_milestone id revision now db = do
  before ← or_throw (find_session id db) schema_mismatch
  milestone_after id revision now
      (is_unread before.latest_unread_milestone before.read_through_timeline_revision) db

pub record TimelineChange : Type 0 where
  pub base_revision : ℕ
  pub revision : ℕ
  pub entry : Entry

unfoldable pub advance_timeline_revision :
    ℕ → ℕ → ℕ → Authority → Result (Authority × TimelineChange)
advance_timeline_revision id base entry_id db = do
  let db₁ = update_session id max_timeline_bump db
  entry ← load_entry entry_id db₁
  committed (db₁, record { base_revision = base; revision = base + 1; entry = entry })

-- ORDER BY deadline_at IS NULL, deadline_at, created_at, interaction_id
abbrev pub by_creation : Interaction → Interaction → Bool
by_creation a b =
    ltb a.created_at b.created_at
    || ((a.created_at == b.created_at) && leb a.interaction_id b.interaction_id)

abbrev pub by_deadline : Option ℕ → Option ℕ → Bool → Bool
by_deadline none none tie = tie
by_deadline none (some e) tie = false
by_deadline (some d) none tie = true
by_deadline (some d) (some e) tie = ltb d e || ((d == e) && tie)

unfoldable pub interactions : ℕ → Authority → List Interaction
interactions id db =
    order_by (λ (a b : Interaction). by_deadline a.deadline_at b.deadline_at (by_creation a b))
      (select (λ (i : Interaction). (i.session_id == id) && is_active_interaction i.state)
        db.interactions)

-- `NewInteraction`
pub record NewInteraction : Type 0 where
  pub session_id : ℕ
  pub run_id : Option ℕ
  pub worker_generation : ℕ
  pub correlation_id : ℕ
  pub kind : InteractionKind
  pub message : Text
  pub provenance : Option Text
  pub created_at : ℕ
  pub deadline_at : Option ℕ

abbrev pub kind_name : InteractionKind → Text
kind_name InteractionKind.select = codes "select"
kind_name InteractionKind.confirm = codes "confirm"
kind_name InteractionKind.input = codes "input"
kind_name InteractionKind.editor = codes "editor"

unfoldable pub open_interaction : NewInteraction → ℕ → Interaction
open_interaction n interaction_id = record {
  interaction_id = interaction_id;
  session_id = n.session_id;
  run_id = n.run_id;
  worker_generation = n.worker_generation;
  correlation_id = n.correlation_id;
  kind = n.kind;
  message = n.message;
  provenance = n.provenance;
  state = open_;
  revision = 1;
  created_at = n.created_at;
  deadline_at = n.deadline_at;
  terminal_cause = none;
  responded_at = none;
  application_proven = none;
}

-- The column `run_id` of a Timeline entry is NOT NULL: an interaction of no run is refused there.
unfoldable pub interaction_entry : NewInteraction → ℕ → ℕ → Authority → Entry
interaction_entry n run_id entry_id db = record {
  entry_id = entry_id;
  session_id = n.session_id;
  run_id = run_id;
  entry_order = next_timeline_order n.session_id db;
  kind = EntryKind.interaction;
  text = kind_name n.kind ++ (codes ": " ++ n.message);
  checkpoint = none;
  blob_id = none;
  created_at = n.created_at;
  revision = 1;
  finalized = true;
  tool_call_id = none;
}

unfoldable pub create_interaction :
    NewInteraction → ℕ → ℕ → Authority → Result (Authority × (Interaction × TimelineChange))
unfolding open_interaction interaction_entry
create_interaction n interaction_id entry_id db = do
  db₁ ← insert_interaction (open_interaction n interaction_id) db
  session ← or_throw (find_session n.session_id db₁) schema_mismatch
  run_id ← or_throw n.run_id constraint_failed
  db₂ ← insert_entry (interaction_entry n run_id entry_id db₁) db₁
  (db₃, change) ← advance_timeline_revision n.session_id session.timeline_revision entry_id db₂
  db₄ ← record_unread_milestone n.session_id change.revision n.created_at db₃
  committed (db₄, (open_interaction n interaction_id, change))

abbrev pub is_interaction : ℕ → Interaction → Bool
is_interaction id i = i.interaction_id == id

abbrev pub update_interactions :
    (Interaction → Bool) → (Interaction → Interaction) → Authority → Authority
update_interactions p f db = record db { interactions = update_where p f db.interactions }

abbrev pub reserve : Interaction → Interaction
reserve i = record i { state = resolving; revision = i.revision + 1 }

-- `changes === 1`, since the identifier is the table's key.
unfoldable pub reserve_interaction : ℕ → ℕ → Authority → Authority × Option Interaction
reserve_interaction id revision db =
    let test =
      λ (i : Interaction). is_interaction id i && is_open i.state && (i.revision == revision) in
    let db₁ = update_interactions test reserve db in
    (db₁, if any test db.interactions then find? (is_interaction id) db₁.interactions else none)

abbrev pub settle : InteractionState → TerminalCause → ℕ → Bool → Interaction → Interaction
settle state cause at proven i = record i {
  state = state;
  revision = i.revision + 1;
  terminal_cause = some cause;
  responded_at = some at;
  application_proven = some proven;
}

abbrev pub same_interaction_state : InteractionState → InteractionState → Bool
same_interaction_state open_ open_ = true
same_interaction_state resolving resolving = true
same_interaction_state InteractionState.responded InteractionState.responded = true
same_interaction_state InteractionState.dismissed InteractionState.dismissed = true
same_interaction_state InteractionState.expired InteractionState.expired = true
same_interaction_state InteractionState.withdrawn InteractionState.withdrawn = true
same_interaction_state _ _ = false

unfoldable pub settle_interaction :
    ℕ
    → InteractionState
    → InteractionState
    → TerminalCause
    → ℕ
    → Bool
    → Authority
    → Authority × Option Interaction
settle_interaction id from state cause at proven db =
    let test = λ (i : Interaction). is_interaction id i && same_interaction_state i.state from in
    let db₁ = update_interactions test (settle state cause at proven) db in
    (db₁, if any test db.interactions then find? (is_interaction id) db₁.interactions else none)

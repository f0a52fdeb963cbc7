-- ===== src/Authority/Timeline.antt =====
-- The Timeline of packages/host/src/store.ts: `applyTimelineEvent` with its three kinds of event,
-- `finalizeAssistant`, and the reads `timeline`, `timelineWindow` and `timelinePage`. A Timeline
-- cursor is kept decoded: its JSON and base64 text are left out.
use pidex.Prelude.{
  Text, codes, ℕ, ◌+◌, Bool, true, false, not, ◌&&◌, List, ◌++◌, Option, none, some, ◌==◌, ltb, leb,
  if◌then◌else◌, same?, any, find?, select, update_where, order_by, head?, take, reverse, max, min,
}
use pidex.Authority.Schema.{Entry, EntryKind, assistant, tool, Authority}
use pidex.Authority.Result.{Result, committed, or_throw, schema_mismatch, ◌>>=◌}
use pidex.Authority.Insert.{insert_entry}
use pidex.Authority.Attention.{later_entry}
use pidex.Authority.Query.{find_session, next_timeline_order}
use pidex.Authority.Interactions.{TimelineChange, advance_timeline_revision}

-- `PiTimelineEvent` of packages/adapters/src/index.ts
pub data TimelineEvent : Type 0 where
  assistant_delta : Text → TimelineEvent
  tool_started : ℕ → Text → TimelineEvent
  tool_completed : ℕ → Text → Text → TimelineEvent

abbrev pub is_assistant : EntryKind → Bool
is_assistant assistant = true
is_assistant _ = false

abbrev pub is_open_assistant : ℕ → ℕ → Entry → Bool
is_open_assistant session_id run_id e =
    (e.session_id == session_id)
    && ((e.run_id == run_id) && (is_assistant e.kind && not e.finalized))

abbrev pub is_open_tool : ℕ → ℕ → ℕ → Entry → Bool
is_open_tool session_id run_id call e =
    (e.session_id == session_id)
    && ((e.run_id == run_id) && (same? e.tool_call_id (some call) && not e.finalized))

-- ORDER BY entry_order DESC LIMIT 1
unfoldable pub find_open_assistant_entry : ℕ → ℕ → Authority → Option Entry
find_open_assistant_entry session_id run_id db =
    head? (order_by later_entry (select (is_open_assistant session_id run_id) db.entries))

abbrev pub update_entry : ℕ → (Entry → Entry) → Authority → Authority
update_entry id f db = record db {
  entries = update_where (λ (e : Entry). e.entry_id == id) f db.entries;
}

unfoldable pub insert_live_entry :
    ℕ → ℕ → EntryKind → Text → Bool → Option ℕ → ℕ → ℕ → Authority → Result (Authority × ℕ)
insert_live_entry session_id run_id kind text finalized call entry_id now db = do
  db₁ ←
      insert_entry
        (record {
          entry_id = entry_id;
          session_id = session_id;
          run_id = run_id;
          entry_order = next_timeline_order session_id db;
          kind = kind;
          text = text;
          checkpoint = none;
          blob_id = none;
          created_at = now;
          revision = 1;
          finalized = finalized;
          tool_call_id = call;
        })
        db
  committed (db₁, entry_id)

unfoldable pub append_assistant_delta : ℕ → ℕ → Text → ℕ → ℕ → Authority → Result (Authority × ℕ)
append_assistant_delta session_id run_id text entry_id now db =
    elim (find_open_assistant_entry session_id run_id db) [
      | some found ↦ committed (
        update_entry found.entry_id
            (λ (e : Entry). record e { text = e.text ++ text; revision = e.revision + 1 }) db,
        found.entry_id,
      )
      | none ↦ insert_live_entry session_id run_id assistant text false none entry_id now db
    ]

unfoldable pub start_tool_entry : ℕ → ℕ → ℕ → Text → ℕ → ℕ → Authority → Result (Authority × ℕ)
start_tool_entry session_id run_id call name entry_id now db =
    insert_live_entry session_id run_id tool name false (some call) entry_id now db

unfoldable pub complete_tool_entry :
    ℕ → ℕ → ℕ → Text → Text → ℕ → ℕ → Authority → Result (Authority × ℕ)
complete_tool_entry session_id run_id call name text entry_id now db =
    let completed_text : Text = name ++ (codes ": " ++ text) in
    elim (find? (is_open_tool session_id run_id call) db.entries) [
      | some found ↦ committed (
        update_entry found.entry_id
            (λ (e : Entry). record e {
              text = completed_text;
              revision = e.revision + 1;
              finalized = true;
            })
            db,
        found.entry_id,
      )
      | none ↦
          insert_live_entry session_id run_id tool completed_text true (some call) entry_id now db
    ]

unfoldable pub apply_event : ℕ → ℕ → TimelineEvent → ℕ → ℕ → Authority → Result (Authority × ℕ)
unfolding append_assistant_delta start_tool_entry complete_tool_entry insert_live_entry
apply_event session_id run_id (assistant_delta text) entry_id now db =
    append_assistant_delta session_id run_id text entry_id now db
apply_event session_id run_id (tool_started call name) entry_id now db =
    start_tool_entry session_id run_id call name entry_id now db
apply_event session_id run_id (tool_completed call name text) entry_id now db =
    complete_tool_entry session_id run_id call name text entry_id now db

unfoldable pub apply_timeline_event :
    ℕ → ℕ → TimelineEvent → ℕ → ℕ → Authority → Result (Authority × TimelineChange)
unfolding apply_event
apply_timeline_event session_id run_id event entry_id now db = do
  session ← or_throw (find_session session_id db) schema_mismatch
  (db₁, changed) ← apply_event session_id run_id event entry_id now db
  advance_timeline_revision session_id session.timeline_revision changed db₁

unfoldable pub finalize_entry : ℕ → ℕ → Authority → Result (Authority × Option TimelineChange)
finalize_entry session_id id db = do
  session ← or_throw (find_session session_id db) schema_mismatch
  (db₁, change) ←
      advance_timeline_revision session_id session.timeline_revision id (
        update_entry id (λ (e : Entry). record e { revision = e.revision + 1; finalized = true })
          db)
  committed (db₁, some change)

unfoldable pub finalize_assistant : ℕ → ℕ → Authority → Result (Authority × Option TimelineChange)
unfolding finalize_entry
finalize_assistant session_id run_id db = elim (find_open_assistant_entry session_id run_id db) [
  | none ↦ committed (db, none)
  | some found ↦ finalize_entry session_id found.entry_id db
]

abbrev pub of_session : ℕ → Entry → Bool
of_session id e = e.session_id == id

abbrev pub earlier_entry : Entry → Entry → Bool
earlier_entry a b = leb a.entry_order b.entry_order

unfoldable pub timeline : ℕ → Authority → List Entry
timeline id db = order_by earlier_entry (select (of_session id) db.entries)

pub record TimelineCursor : Type 0 where
  pub host_id : ℕ
  pub epoch : ℕ
  pub session_id : ℕ
  pub before : ℕ

pub record TimelineWindow : Type 0 where
  pub entries : List Entry
  pub older_cursor : Option TimelineCursor

abbrev pub timeline_window_size : ℕ
timeline_window_size = 100

abbrev pub max_timeline_page_size : ℕ
max_timeline_page_size = 200

abbrev pub is_finalized_before : ℕ → ℕ → Entry → Bool
is_finalized_before id before e = (e.session_id == id) && (e.finalized && ltb e.entry_order before)

unfoldable pub older_cursor_of : ℕ → Option Entry → Authority → Option TimelineCursor
older_cursor_of id none db = none
older_cursor_of id (some first) db =
    if ltb 0 first.entry_order && any (is_finalized_before id first.entry_order) db.entries
    then some (record {
      host_id = db.host.host_id;
      epoch = db.host.epoch;
      session_id = id;
      before = first.entry_order;
    })
    else none

unfoldable pub create_timeline_window : ℕ → List Entry → Authority → TimelineWindow
unfolding older_cursor_of
create_timeline_window id rows db = record {
  entries = rows;
  older_cursor = older_cursor_of id (head? rows) db;
}

-- ORDER BY entry_order DESC LIMIT ?, reversed
unfoldable pub latest_rows : ℕ → (Entry → Bool) → Authority → List Entry
latest_rows limit p db = reverse (take limit (order_by later_entry (select p db.entries)))

unfoldable pub timeline_window : ℕ → Authority → TimelineWindow
unfolding latest_rows create_timeline_window
timeline_window id db =
    create_timeline_window id (latest_rows timeline_window_size (of_session id) db) db

abbrev pub is_current : ℕ → TimelineCursor → Authority → Bool
is_current id cursor db =
    (cursor.host_id == db.host.host_id)
    && ((cursor.epoch == db.host.epoch) && (cursor.session_id == id))

unfoldable pub page_limit : ℕ → ℕ
page_limit requested = max 1 (min max_timeline_page_size requested)

-- `null` for a cursor that does not decode, or that is of another Host, epoch or Session.
unfoldable pub timeline_page : ℕ → Option TimelineCursor → ℕ → Authority → Option TimelineWindow
unfolding latest_rows create_timeline_window page_limit
timeline_page id none requested db = none
timeline_page id (some cursor) requested db =
    if is_current id cursor db
    then some (
        create_timeline_window id
          (latest_rows (page_limit requested) (is_finalized_before id cursor.before) db) db)
    else none

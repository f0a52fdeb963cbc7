-- ===== src/Client/Discovery.antt =====
-- The Session catalogs of apps/client/src/client-store.ts with their two channels, attention and read
-- state, and `cursorPrecedes` of packages/protocol/src/cursor.ts. A cursor is kept as it decodes.
use pidex.Prelude.{
  ℕ, Bool, true, false, ◌&&◌, ◌||◌, List, [], ◌∷◌, ◌++◌, Option, none, some, ◌==◌, ltb,
  if◌then◌else◌, find?, update_where, Text,
}

-- `garbled`: a text that is no cursor.
pub data Cursor : Type 0 where
  garbled : Cursor
  decoded : ℕ → ℕ → ℕ → Cursor

-- Cursors of one Host and epoch are ordered by their sequences; others are not.
unfoldable pub cursor_precedes : Cursor → Cursor → Bool
cursor_precedes (decoded host epoch sequence) (decoded host₁ epoch₁ sequence₁) =
    (epoch == epoch₁) && ((host == host₁) && ltb sequence sequence₁)
cursor_precedes _ _ = false

pub data HeldAttention : Type 0 where
  quiet working needs_response : HeldAttention

pub record HeldActivity : Type 0 where
  pub detail : Option Text
  pub at : Option ℕ

pub data ReadStatus : Type 0 where
  read unread : ReadStatus

pub record HeldReadState : Type 0 where
  pub read_status : ReadStatus
  pub read_state_revision : ℕ
  pub read_through_timeline_revision : ℕ

pub record SessionFact : Type 0 where
  pub session_id : ℕ
  pub name : Text
  pub project_id : Option ℕ
  pub metadata_revision : ℕ
  pub timeline_revision : ℕ
  pub attention : Option HeldAttention
  pub activity : Option HeldActivity
  pub read_state : Option HeldReadState

-- The catalogs, and the two maps that the store closes over; a catalog has one fact for a Session.
pub record Discovery : Type 0 where
  pub sessions : List SessionFact
  pub archived_sessions : List SessionFact
  pub attention_basis : List (ℕ × Cursor)
  pub pending_read_marks : List (ℕ × ℕ)

-- `Map.get`, `Map.set` and `Map.delete`
unfoldable pub get {ℓ} : {A : Type ℓ} → ℕ → List (ℕ × A) → Option A
get key [] = none
get key ((k, a) ∷ rest) = let found = get key rest in if k == key then some a else found

unfoldable pub put {ℓ} : {A : Type ℓ} → ℕ → A → List (ℕ × A) → List (ℕ × A)
put key a [] = (key, a) ∷ []
put key a ((k, b) ∷ rest) =
    let more = put key a rest in if k == key then (k, a) ∷ rest else (k, b) ∷ more

unfoldable pub remove {ℓ} : {A : Type ℓ} → ℕ → List (ℕ × A) → List (ℕ × A)
remove key [] = []
remove key ((k, b) ∷ rest) = let more = remove key rest in if k == key then more else (k, b) ∷ more

unfoldable pub precedes_basis : Option Cursor → Option Cursor → Bool
unfolding cursor_precedes
precedes_basis (some cursor) (some basis) = cursor_precedes cursor basis
precedes_basis _ _ = false

unfoldable pub attention_is_stale : ℕ → Option Cursor → Discovery → Bool
unfolding get precedes_basis
attention_is_stale id cursor d = precedes_basis cursor (get id d.attention_basis)

abbrev pub is_unread : ReadStatus → Bool
is_unread read = false
is_unread unread = true

-- It is older than what is held, or unread before what a mark in flight claims.
unfoldable pub read_state_is_stale : Option ℕ → Option HeldReadState → HeldReadState → Bool
read_state_is_stale mark current next =
    elim current [
      | none ↦ false
      | some held ↦ ltb next.read_state_revision held.read_state_revision
    ]
    || elim mark [
      | none ↦ false
      | some through ↦ is_unread next.read_status && ltb next.read_through_timeline_revision through
    ]

unfoldable pub revise_catalogs : ℕ → (SessionFact → SessionFact) → Discovery → Discovery
revise_catalogs id revise d = record d {
  sessions = update_where (λ (s : SessionFact). s.session_id == id) revise d.sessions;
  archived_sessions =
      update_where (λ (s : SessionFact). s.session_id == id) revise d.archived_sessions;
}

pub record AttentionChange : Type 0 where
  pub session_id : ℕ
  pub attention : HeldAttention
  pub activity : Option HeldActivity
  pub cursor : Option Cursor

unfoldable pub set_basis : ℕ → Option Cursor → Discovery → Discovery
unfolding put
set_basis id none d = d
set_basis id (some cursor) d = record d { attention_basis = put id cursor d.attention_basis }

abbrev pub with_attention : AttentionChange → SessionFact → SessionFact
with_attention c s = record s { attention = some c.attention; activity = c.activity }

unfoldable pub session_attention_changed : AttentionChange → Discovery → Discovery
unfolding attention_is_stale revise_catalogs set_basis
session_attention_changed c d =
    if attention_is_stale c.session_id c.cursor d
    then d
    else revise_catalogs c.session_id (with_attention c) (set_basis c.session_id c.cursor d)

unfoldable pub with_read_state : Option ℕ → HeldReadState → SessionFact → SessionFact
unfolding read_state_is_stale
with_read_state mark next s =
    if read_state_is_stale mark s.read_state next then s else record s { read_state = some next }

unfoldable pub session_read_state_changed : ℕ → HeldReadState → Discovery → Discovery
unfolding get revise_catalogs with_read_state
session_read_state_changed id next d =
    revise_catalogs id (with_read_state (get id d.pending_read_marks) next) d

-- What `loadDiscovery` makes of the catalog that it reads.
unfoldable pub rebase_attention :
    Option Cursor → List SessionFact → List (ℕ × Cursor) → List (ℕ × Cursor)
unfolding put
rebase_attention none facts basis = basis
rebase_attention (some cursor) [] basis = basis
rebase_attention (some cursor) (s ∷ facts) basis =
    rebase_attention (some cursor) facts (put s.session_id cursor basis)

abbrev pub cleared_for : Option Cursor → List (ℕ × Cursor) → List (ℕ × Cursor)
cleared_for none basis = basis
cleared_for (some cursor) basis = []

unfoldable pub load_discovery :
    List SessionFact → List SessionFact → Option Cursor → Discovery → Discovery
unfolding rebase_attention
load_discovery sessions archived cursor d = record d {
  sessions = sessions;
  archived_sessions = archived;
  attention_basis =
      rebase_attention cursor (sessions ++ archived) (cleared_for cursor d.attention_basis);
}

-- The read state that is held is kept: there is a projected one, and it is stale.
unfoldable pub outlives : Option ℕ → Option HeldReadState → Option HeldReadState → Bool
unfolding read_state_is_stale
outlives mark held none = false
outlives mark held (some next) = read_state_is_stale mark held next

-- `mergeProjectedSession`
unfoldable pub merge_projected_session :
    Option SessionFact → SessionFact → Option Cursor → ℕ → Discovery → SessionFact
unfolding attention_is_stale outlives get
merge_projected_session none projected cursor id d = projected
merge_projected_session (some held) projected cursor id d =
    let stale = attention_is_stale id cursor d in
    let older = outlives (get id d.pending_read_marks) held.read_state projected.read_state in
    record projected {
      attention = if stale then held.attention else projected.attention;
      activity = if stale then held.activity else projected.activity;
      read_state = if older then held.read_state else projected.read_state;
    }

unfoldable pub keep_newer : ℕ → Option Cursor → Discovery → Discovery
unfolding attention_is_stale set_basis
keep_newer id cursor d = if attention_is_stale id cursor d then d else set_basis id cursor d

abbrev pub put_session : SessionFact → List SessionFact → List SessionFact
put_session s [] = s ∷ []
put_session s (x ∷ xs) =
    let rest = put_session s xs in if x.session_id == s.session_id then s ∷ xs else x ∷ rest

-- What `openSession` makes of the Session that it reads.
unfoldable pub session_projected : SessionFact → Option Cursor → Discovery → Discovery
unfolding merge_projected_session keep_newer
session_projected projected cursor d =
    let basis = keep_newer projected.session_id cursor d in
    let held = find? (λ (s : SessionFact). s.session_id == projected.session_id) d.sessions in
    record basis {
      sessions =
          put_session (merge_projected_session held projected cursor projected.session_id basis)
            d.sessions;
    }

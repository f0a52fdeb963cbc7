-- ===== src/Authority/Synchronization.antt =====
-- The log of changes of packages/host/src/store.ts: `cursorBasis`, `changesAfter`,
-- `currentSessionReadStateChange`, `rotateSynchronizationEpoch`, and the compaction in
-- `runMaintenance`. A cursor stands as `decodeCursor` of packages/protocol/src/cursor.ts returns it.
use pidex.Prelude.{
  ℕ, ◌+◌, ◌*◌, Bool, true, false, not, ◌&&◌, List, [], ◌∷◌, Option, none, some, ◌==◌, ltb,
  if◌then◌else◌, select, order_by, by_key, reverse, find?, min,
}
use pidex.Authority.Schema.{Change, Cursor, HostChange, session_read_state_changed, Authority}
use pidex.Authority.Result.{Result, committed, or_throw, schema_mismatch, ◌>>=◌}
use pidex.Authority.Query.{find_session}

pub data Incompatibility : Type 0 where
  host_mismatch epoch_mismatch history_unavailable : Incompatibility

pub data CursorBasis : Type 0 where
  compatible : ℕ → CursorBasis
  incompatible : Incompatibility → CursorBasis

abbrev pub min_option : ℕ → Option ℕ → ℕ
min_option a none = a
min_option a (some b) = min a b

-- SELECT MIN(sequence)
unfoldable pub earliest_sequence : List Change → Option ℕ
earliest_sequence [] = none
earliest_sequence (c ∷ cs) = some (min_option c.sequence (earliest_sequence cs))

-- `decoded.sequence < earliest - 1`
abbrev pub precedes_history : ℕ → Option ℕ → Bool
precedes_history s none = true
precedes_history s (some earliest) = ltb (s + 1) earliest

unfoldable pub cursor_basis : Option Cursor → Authority → CursorBasis
unfolding earliest_sequence
cursor_basis none db = incompatible host_mismatch
cursor_basis (some c) db =
    if not (c.host_id == db.host.host_id)
    then incompatible host_mismatch
    else if not (c.epoch == db.host.epoch)
    then incompatible epoch_mismatch
    else if ltb db.host.sequence c.sequence
    then incompatible history_unavailable
    else if ltb c.sequence db.host.sequence
        && precedes_history c.sequence (earliest_sequence db.changes)
    then incompatible history_unavailable
    else compatible c.sequence

abbrev pub change_sequence : Change → ℕ
change_sequence c = c.sequence

-- The rows; the cursor of each is the Host's with the row's sequence.
unfoldable pub changes_after : ℕ → Authority → List Change
changes_after s db =
    order_by (by_key change_sequence) (select (λ (c : Change). ltb s c.sequence) db.changes)

abbrev pub is_read_state_change : ℕ → ℕ → HostChange → Bool
is_read_state_change id revision (session_read_state_changed other state) =
    (other == id) && (state.read_state_revision == revision)
is_read_state_change id revision _ = false

unfoldable pub current_session_read_state_change : ℕ → Authority → Result (Option Change)
unfolding changes_after
current_session_read_state_change id db = do
  s ← or_throw (find_session id db) schema_mismatch
  committed (
      find? (λ (c : Change). is_read_state_change id s.read_state_revision c.payload)
        (reverse (changes_after 0 db)))

unfoldable pub rotate_synchronization_epoch : ℕ → ℕ → Authority → Authority
rotate_synchronization_epoch epoch now db = record db {
  host = record db.host { epoch = epoch; sequence = db.host.sequence + 1; committed_at = now };
  changes = [];
}

abbrev pub synchronization_change_retention : ℕ
synchronization_change_retention = 7 * 24 * 60 * 60 * 1000

-- `committed_at < now - SYNCHRONIZATION_CHANGE_RETENTION_MS`
abbrev pub is_expired : ℕ → Change → Bool
is_expired now c = ltb (c.committed_at + synchronization_change_retention) now

-- DELETE FROM synchronization_changes WHERE committed_at < ?
unfoldable pub compact_changes : ℕ → Authority → Authority
compact_changes now db = record db {
  changes = select (λ (c : Change). not (is_expired now c)) db.changes;
}

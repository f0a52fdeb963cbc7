-- ===== src/Worker/Protocol.antt =====
-- `SessionWorkerProtocol` of packages/worker-protocol/src/index.ts, with `decodeWorkerFrame` and
-- `encodeWorkerFrame`: the order of the frames, their generation, the queue to the worker, and the
-- heartbeat. A method that throws returns the code of its failure.
use pidex.Prelude.{
  ◌⊎◌, inl, inr, ◌≡◌, refl, ◌*◌, ℕ, ◌+◌, ◌-◌, Bool, true, false, not, ◌&&◌, List, [], ◌∷◌, ◌++◌,
  Option, none, some, ◌==◌, ltb, if◌then◌else◌, length, text_eq,
}
use pidex.Worker.Frame.{Identity, Frame, Body, heartbeat}
use pidex.Worker.FrameSchema.{max_worker_frame_bytes, frame_fits}

-- UTF-8, JSON and zod's reading of an object: the bytes of a frame, and what bytes spell, bounds aside.
pub record Codec : Type 0 where
  pub print : Frame → List ℕ
  pub parse : List ℕ → Option Frame

pub data FailureCode : Type 0 where
  malformed_frame stale_or_mismatched_generation invalid_frame_order : FailureCode
  outbound_backpressure_overflow heartbeat_lost invalid_frame_length : FailureCode
  bootstrap_required bootstrap_authentication_failed duplicate_bootstrap : FailureCode
  worker_disconnected worker_exited worker_hung : FailureCode

abbrev pub max_worker_queue_bytes : ℕ
max_worker_queue_bytes = 16 * 1024 * 1024

abbrev pub worker_heartbeat_timeout_ms : ℕ
worker_heartbeat_timeout_ms = 30000

pub data Decoded : Type 0 where
  oversized malformed : Decoded
  decoded : Frame → Decoded

-- `workerFrameSchema.parse` of what was parsed
abbrev pub within_schema : Option Frame → Decoded
within_schema none = malformed
within_schema (some f) = if frame_fits f then decoded f else malformed

unfoldable pub decode_worker_frame : Codec → List ℕ → Decoded
decode_worker_frame codec bytes =
    if ltb max_worker_frame_bytes (length bytes)
    then oversized
    else within_schema (codec.parse bytes)

-- `none`: the frame does not fit the schema, or its bytes are too many.
unfoldable pub encode_worker_frame : Codec → Frame → Option (List ℕ)
encode_worker_frame codec f =
    if not (frame_fits f)
    then none
    else if ltb max_worker_frame_bytes (length (codec.print f))
    then none
    else some (codec.print f)

pub record Protocol : Type 0 where
  pub identity : Identity
  pub next_sequence : ℕ
  pub next_outbound_sequence : ℕ
  pub last_heartbeat : ℕ
  pub max_queued_bytes : ℕ
  pub heartbeat_timeout_ms : ℕ
  pub queued_bytes : ℕ
  pub queue : List (List ℕ)

unfoldable pub create_protocol : Identity → ℕ → ℕ → ℕ → Protocol
create_protocol identity now max_queued_bytes heartbeat_timeout_ms = record {
  identity = identity;
  next_sequence = 0;
  next_outbound_sequence = 0;
  last_heartbeat = now;
  max_queued_bytes = max_queued_bytes;
  heartbeat_timeout_ms = heartbeat_timeout_ms;
  queued_bytes = 0;
  queue = [];
}

-- `#assertIdentity`
unfoldable pub same_identity : Identity → Identity → Bool
same_identity a b =
    text_eq a.session_id b.session_id
    && (text_eq a.worker_id b.worker_id
        && ((a.generation == b.generation) && (a.protocol_generation == b.protocol_generation)))

abbrev pub is_heartbeat : Body → Bool
is_heartbeat (heartbeat ms) = true
is_heartbeat _ = false

pub data Attempt : Type 0 where
  done : Protocol → Attempt
  failed : FailureCode → Attempt

pub Attempt-cases :
    (s : Attempt) → ((code : FailureCode) × (s ≡ failed code)) ⊎ ((p : Protocol) × (s ≡ done p))
Attempt-cases (failed code) = inl (code, refl)
Attempt-cases (done p) = inr (p, refl)

unfoldable pub accept : Frame → ℕ → Protocol → Attempt
accept f now p =
    if not (frame_fits f)
    then failed malformed_frame
    else if not (same_identity f.identity p.identity)
    then failed stale_or_mismatched_generation
    else if not (f.sequence == p.next_sequence)
    then failed invalid_frame_order
    else done (record p {
      next_sequence = p.next_sequence + 1;
      last_heartbeat = if is_heartbeat f.body then now else p.last_heartbeat;
    })

unfoldable pub enqueue : Codec → Frame → Protocol → Attempt
enqueue codec f p =
    if not (same_identity f.identity p.identity)
    then failed stale_or_mismatched_generation
    else if not (f.sequence == p.next_outbound_sequence)
    then failed invalid_frame_order
    else elim (encode_worker_frame codec f) [
      | none ↦ failed malformed_frame
      | some encoded ↦
          if ltb p.max_queued_bytes (p.queued_bytes + length encoded)
          then failed outbound_backpressure_overflow
          else done (record p {
            queue = p.queue ++ encoded ∷ [];
            queued_bytes = p.queued_bytes + length encoded;
            next_outbound_sequence = p.next_outbound_sequence + 1;
          })
    ]

-- The rest of the queue, and its first value.
abbrev pub drain_queue : List (List ℕ) → Protocol → Protocol × Option (List ℕ)
drain_queue [] p = (p, none)
drain_queue (value ∷ rest) p =
    (record p { queue = rest; queued_bytes = p.queued_bytes - length value }, some value)

unfoldable pub drain : Protocol → Protocol × Option (List ℕ)
drain p = drain_queue p.queue p

unfoldable pub note_heartbeat : ℕ → Protocol → Protocol
note_heartbeat at p = record p { last_heartbeat = at }

-- `at - last > timeout`; a clock that went back is no loss.
unfoldable pub check_heartbeat : ℕ → Protocol → Attempt
check_heartbeat at p =
    if ltb (p.last_heartbeat + p.heartbeat_timeout_ms) at then failed heartbeat_lost else done p

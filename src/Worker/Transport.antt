-- ===== src/Worker/Transport.antt =====
-- `SessionWorkerTransport` of packages/worker-protocol/src/index.ts: frames behind their length in four
-- bytes, and the admission of one generation. The listener of the frames returns normally and does
-- not close the transport.
use pidex.Prelude.{
  ℕ, zero, suc, ◌+◌, ◌*◌, ◌/◌, ◌%◌, ◌^◌, Bool, true, false, ◌||◌, List, [], ◌∷◌, ◌++◌, Option, none,
  some, ◌==◌, ltb, if◌then◌else◌, length, take, drop, Text, text_eq,
}
use pidex.Worker.Frame.{Identity, Frame, Body, bootstrap}
use pidex.Worker.FrameSchema.{authentication_token, max_worker_frame_bytes}
use pidex.Worker.Protocol.{
  Codec, FailureCode, malformed_frame, invalid_frame_length, bootstrap_required,
  bootstrap_authentication_failed, duplicate_bootstrap, worker_disconnected, Decoded, oversized,
  malformed, decoded, decode_worker_frame, encode_worker_frame, Protocol, done, failed, accept,
  create_protocol, max_worker_queue_bytes, worker_heartbeat_timeout_ms,
}

-- `delivered` are the calls of `onFrame`, and `failure` the call of `onFailure`.
pub record Transport : Type 0 where
  pub buffer : List ℕ
  pub authenticated : Bool
  pub closed : Bool
  pub authentication_token : Text
  pub protocol : Protocol
  pub delivered : List Frame
  pub failure : Option FailureCode

-- The constructor. `none`: the token is not 64 hexadecimal digits, and it throws.
unfoldable pub create_transport : Text → Identity → ℕ → Option Transport
unfolding authentication_token create_protocol
create_transport token identity now =
    if authentication_token token
    then some (record {
      buffer = [];
      authenticated = false;
      closed = false;
      authentication_token = token;
      protocol = create_protocol identity now max_worker_queue_bytes worker_heartbeat_timeout_ms;
      delivered = [];
      failure = none;
    })
    else none

-- `writeUInt32BE` and `readUInt32BE`
unfoldable pub length_header : ℕ → List ℕ
length_header n = (n / 2 ^ 24 % 256) ∷ (n / 2 ^ 16 % 256) ∷ (n / 2 ^ 8 % 256) ∷ (n % 256) ∷ []

unfoldable pub read_length : ℕ → ℕ → ℕ → ℕ → ℕ
read_length a b c d = a * 2 ^ 24 + b * 2 ^ 16 + c * 2 ^ 8 + d

-- `SessionWorkerTransport.frame`
unfoldable pub frame_bytes : Codec → Frame → Option (List ℕ)
unfolding length_header
frame_bytes codec f = elim (encode_worker_frame codec f) [
  | none ↦ none
  | some payload ↦ some (length_header (length payload) ++ payload)
]

pub data Cut : Type 0 where
  waiting bad_length : Cut
  cut : List ℕ → List ℕ → Cut

unfoldable pub cut_at : ℕ → List ℕ → Cut
cut_at n rest =
    if (n == 0) || ltb max_worker_frame_bytes n
    then bad_length
    else if ltb (length rest) n
    then waiting
    else cut (take n rest) (drop n rest)

-- The head of the loop: the payload of the first frame, and what is behind it.
unfoldable pub cut_frame : List ℕ → Cut
cut_frame (a ∷ b ∷ c ∷ d ∷ rest) = cut_at (read_length a b c d) rest
cut_frame _ = waiting

-- `#reject`
unfoldable pub reject : FailureCode → Transport → Transport
reject code t = if t.closed then t else record t { closed = true; failure = some code }

abbrev pub deliver : Frame → Transport → Transport
deliver f t = record t { delivered = t.delivered ++ f ∷ [] }

-- Hexadecimal digits in lower case: the tokens' bytes are the same where their texts are.
unfoldable pub admit : Frame → Body → Transport → Transport
unfolding reject
admit f (bootstrap token release config pi cwd) t =
    if t.authenticated
    then reject duplicate_bootstrap t
    else if text_eq token t.authentication_token
    then deliver f (record t { authenticated = true })
    else reject bootstrap_authentication_failed t
admit f _ t = if t.authenticated then deliver f t else reject bootstrap_required t

unfoldable pub receive_frame : Frame → ℕ → Transport → Transport
unfolding admit reject
receive_frame f now t = elim (accept f now t.protocol) [
  | failed code ↦ reject code t
  | done p ↦ admit f f.body (record t { protocol = p })
]

abbrev pub received : Decoded → ℕ → Transport → Transport
unfolding receive_frame reject
received oversized now t = reject malformed_frame t
received malformed now t = reject malformed_frame t
received (decoded f) now t = receive_frame f now t

unfoldable pub receive : Codec → List ℕ → ℕ → Transport → Transport
unfolding receive_frame reject
receive codec payload now t = received (decode_worker_frame codec payload) now t

-- The loop of `#handleData`. Each round takes more than four bytes off the buffer.
unfoldable pub receive_loop : Codec → ℕ → ℕ → Transport → Transport
unfolding receive reject
receive_loop codec now zero t = t
receive_loop codec now (suc fuel) t = elim (cut_frame t.buffer) [
  | waiting ↦ t
  | bad_length ↦ reject invalid_frame_length t
  | cut payload rest ↦ elim (receive codec payload now (record t { buffer = rest })).closed [
    | true ↦ receive codec payload now (record t { buffer = rest })
    | false ↦ receive_loop codec now fuel (receive codec payload now (record t { buffer = rest }))
  ]
]

abbrev pub receive_all : Codec → ℕ → Transport → Transport
receive_all codec now t = receive_loop codec now (suc (length t.buffer)) t

unfoldable pub handle_data : Codec → ℕ → List ℕ → Transport → Transport
unfolding receive_loop
handle_data codec now chunk t =
    if t.closed then t else receive_all codec now (record t { buffer = t.buffer ++ chunk })

-- The bytes that `send` writes to the stream; `none` where it throws.
unfoldable pub send : Codec → Frame → Transport → Option (List ℕ)
unfolding frame_bytes
send codec f t = if t.closed then none else frame_bytes codec f

unfoldable pub handle_disconnect : Transport → Transport
unfolding reject
handle_disconnect t = reject worker_disconnected t

unfoldable pub close : Transport → Transport
close t = record t { closed = true }

-- The chunks of a stream, as they come.
unfoldable pub handle_chunks : Codec → ℕ → List (List ℕ) → Transport → Transport
unfolding handle_data
handle_chunks codec now [] t = t
handle_chunks codec now (chunk ∷ chunks) t =
    handle_chunks codec now chunks (handle_data codec now chunk t)

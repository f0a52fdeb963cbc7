-- ===== src/Worker/WorkerTests.antt =====
-- Runs of the protocol of packages/worker-protocol/src/index.ts on a small generation.
use pidex.Prelude.{
  ℕ, ◌==◌, if◌then◌else◌, ◌+◌, ◌-◌, ◌≡◌, refl, true, false, List, [], ◌∷◌, Option, none, some,
  arith, Text, codes, ◌⊎◌,
}
use pidex.Worker.Frame.{Identity, Frame, bootstrap, heartbeat}
use pidex.Worker.Protocol.{
  Codec, create_protocol, max_worker_queue_bytes, worker_heartbeat_timeout_ms, encode_worker_frame,
  decode_worker_frame, same_identity, invalid_frame_order, accept,
}
use pidex.Worker.FrameSchema.{authentication_token, frame_fits, body_fits}
use pidex.Worker.Transport.{
  Transport, create_transport, frame_bytes, length_header, handle_chunks, handle_data, receive_loop,
  cut_frame, cut_at, read_length, waiting,
}
use pidex.Worker.Rounds.{shown}
use pidex.Worker.Chunks.{handle_chunks-concat, receive_all_rest}
use pidex.Worker.Delivery.{stream_bytes, handle_chunks-stream}
use pidex.Worker.Conversation.{is_conversation}
use pidex.Worker.Sequence.{handle_chunks-is_conversation}
use pidex.Worker.Queue.{put, get, moves, empty_outbox, IsQueue, moves-IsQueue}
use pidex.Worker.Lifecycle.{
  Lifecycle, Code, done, threw, create_lifecycle, execute, get_interaction, completes, responded,
  idle, executing,
}
use pidex.Worker.LifecycleHistory.{
  Call, readies, executes, settles, opens, responds, acknowledges, after_calls, IsConsistent,
  after_calls-IsConsistent,
}
use pidex.Worker.LifecycleFinal.{is_final, execute-once}

abbrev generation_1 : Identity
generation_1 = record {
  session_id = codes "s";
  worker_id = codes "w";
  generation = 1;
  protocol_generation = 1;
}

abbrev beat : ℕ → Frame
beat n = record { identity = generation_1; sequence = n; body = heartbeat 0 }

abbrev token_1 : Text
token_1 = codes "0123456789abcdef0123456789abcdef0123456789abcdef0123456789abcdef"

abbrev greeting : Frame
greeting = record {
  identity = generation_1;
  sequence = 0;
  body = bootstrap token_1 (codes "r") (codes "c") (codes "p") (codes "/");
}

-- The first frame is a bootstrap with the token of the generation.
abbrev read_frame : List ℕ → Option Frame
read_frame (n ∷ []) = if n == 1 then some greeting else some (beat (n - 1))
read_frame _ = none

-- A codec of one byte, the sequence plus one.
abbrev byte_codec : Codec
byte_codec = record { print = λ (f : Frame). (f.sequence + 1) ∷ []; parse = read_frame }

-- A transport behind its bootstrap.
abbrev greeted : Transport
greeted = record {
  buffer = [];
  authenticated = true;
  closed = false;
  authentication_token = token_1;
  protocol = record (create_protocol generation_1 0 100 30000) { next_sequence = 1 };
  delivered = [];
  failure = none;
}

two_beats :
    stream_bytes byte_codec (beat 1 ∷ beat 2 ∷ [])
    ≡ some (0 ∷ 0 ∷ 0 ∷ 1 ∷ 2 ∷ 0 ∷ 0 ∷ 0 ∷ 1 ∷ 3 ∷ [])
unfolding stream_bytes frame_bytes encode_worker_frame frame_fits length_header body_fits
two_beats = refl

handle_chunks-stream_example :
    ((handle_chunks byte_codec 0
        ((0 ∷ 0 ∷ []) ∷ (0 ∷ 1 ∷ 2 ∷ 0 ∷ []) ∷ (0 ∷ 0 ∷ 1 ∷ 3 ∷ []) ∷ [])
        greeted).delivered
      ≡ beat 1 ∷ beat 2 ∷ [])
    × ((handle_chunks byte_codec 0
          ((0 ∷ 0 ∷ []) ∷ (0 ∷ 1 ∷ 2 ∷ 0 ∷ []) ∷ (0 ∷ 0 ∷ 1 ∷ 3 ∷ []) ∷ [])
          greeted).closed
        ≡ false)
unfolding same_identity create_protocol
handle_chunks-stream_example =
    handle_chunks-stream byte_codec 0 (beat 1 ∷ beat 2 ∷ []) (0 ∷ 0 ∷ [])
      ((0 ∷ 1 ∷ 2 ∷ 0 ∷ []) ∷ (0 ∷ 0 ∷ 1 ∷ 3 ∷ []) ∷ []) greeted two_beats
      (
        record {
          same = refl;
          ordered = refl;
          admitted = refl;
          spelled = omega arith;
          parsed = refl;
        },
        (
          record {
            same = refl;
            ordered = refl;
            admitted = refl;
            spelled = omega arith;
            parsed = refl;
          },
          tt,
        ),
      )
      refl refl refl

handle_chunks-concat_example :
    shown (handle_chunks byte_codec 0 ((0 ∷ 0 ∷ []) ∷ (0 ∷ 1 ∷ 2 ∷ 0 ∷ []) ∷ []) greeted)
    ≡ shown (handle_data byte_codec 0 (0 ∷ 0 ∷ 0 ∷ 1 ∷ 2 ∷ 0 ∷ []) greeted)
handle_chunks-concat_example =
    handle_chunks-concat byte_codec 0 (0 ∷ 0 ∷ []) ((0 ∷ 1 ∷ 2 ∷ 0 ∷ []) ∷ []) greeted

receive_all_rest_example :
    ((receive_loop byte_codec 0 7 (record greeted { buffer = 0 ∷ 0 ∷ 0 ∷ 1 ∷ 2 ∷ 0 ∷ [] })).closed
      ≡ true)
    ⊎ (cut_frame
          (receive_loop byte_codec 0 7
            (record greeted { buffer = 0 ∷ 0 ∷ 0 ∷ 1 ∷ 2 ∷ 0 ∷ [] })).buffer
        ≡ waiting)
receive_all_rest_example =
    receive_all_rest byte_codec 0 7 (record greeted { buffer = 0 ∷ 0 ∷ 0 ∷ 1 ∷ 2 ∷ 0 ∷ [] })
      (omega arith)

abbrev newborn : Transport
newborn = record {
  buffer = [];
  authenticated = false;
  closed = false;
  authentication_token = token_1;
  protocol = create_protocol generation_1 0 max_worker_queue_bytes worker_heartbeat_timeout_ms;
  delivered = [];
  failure = none;
}

newborn_new : create_transport token_1 generation_1 0 ≡ some newborn
unfolding create_transport authentication_token
newborn_new = refl

-- A bootstrap, a heartbeat, and the bootstrap once more.
abbrev doubled : List (List ℕ)
doubled = (0 ∷ 0 ∷ 0 ∷ 1 ∷ 1 ∷ 0 ∷ 0 ∷ []) ∷ (0 ∷ 1 ∷ 2 ∷ 0 ∷ 0 ∷ 0 ∷ 1 ∷ 1 ∷ []) ∷ []

doubled_closes :
    ((handle_chunks byte_codec 0 doubled newborn).delivered ≡ greeting ∷ beat 1 ∷ [])
    × ((handle_chunks byte_codec 0 doubled newborn).failure ≡ some invalid_frame_order)
unfolding handle_chunks cut_frame accept decode_worker_frame cut_at read_length frame_fits
    same_identity create_protocol
doubled_closes = (refl, refl)

handle_chunks-is_conversation_example :
    is_conversation generation_1 token_1 (handle_chunks byte_codec 0 doubled newborn).delivered
    ≡ true
handle_chunks-is_conversation_example =
    handle_chunks-is_conversation byte_codec 0 doubled token_1 generation_1 newborn newborn_new

moves-IsQueue_example : IsQueue byte_codec (
    moves byte_codec
      (put (beat 0) ∷ put (beat 1) ∷ get ∷ put (beat 1) ∷ [])
      (empty_outbox generation_1 0 100 30000))
moves-IsQueue_example =
    moves-IsQueue byte_codec (put (beat 0) ∷ put (beat 1) ∷ get ∷ put (beat 1) ∷ []) generation_1 0
      100 30000

-- A Run with an Interaction, up to its end.
abbrev run_calls : List Call
run_calls =
    readies (codes "runtime.cancel" ∷ codes "interaction.basic" ∷ []) (codes "c")
    ∷ executes (codes "r")
    ∷ opens (codes "i") (codes "r")
    ∷ responds (codes "i")
    ∷ acknowledges (codes "i")
    ∷ settles (codes "r") completes (some (codes "k"))
    ∷ []

after_calls-IsConsistent_example : IsConsistent (after_calls run_calls (create_lifecycle []))
after_calls-IsConsistent_example = after_calls-IsConsistent run_calls []

abbrev ready_lifecycle : Lifecycle
ready_lifecycle = record {
  required_capabilities = [];
  capabilities = [];
  config_generation = some (codes "c");
  run_correlation = none;
  used_correlations = [];
  run_state = idle;
  has_failed = false;
  interactions = (codes "i", responded) ∷ [];
}

abbrev running_lifecycle : Lifecycle
running_lifecycle = record ready_lifecycle {
  run_correlation = some (codes "r");
  used_correlations = codes "r" ∷ [];
  run_state = executing;
}

running : execute (codes "r") ready_lifecycle ≡ done running_lifecycle
unfolding execute
running = refl

execute-once_example :
    (code : Code) × (execute
        (codes "r")
        (after_calls (settles (codes "r") completes (some (codes "k")) ∷ []) running_lifecycle)
      ≡ threw code
          (after_calls (settles (codes "r") completes (some (codes "k")) ∷ []) running_lifecycle))
execute-once_example =
    execute-once (codes "r") ready_lifecycle running_lifecycle
      (settles (codes "r") completes (some (codes "k")) ∷ []) running

responded_final : is_final (get_interaction (codes "i") ready_lifecycle.interactions) ≡ true
unfolding get_interaction
responded_final = refl

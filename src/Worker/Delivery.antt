-- ===== src/Worker/Delivery.antt =====
-- What one side of packages/worker-protocol/src/index.ts sends is what the other side's listener gets.
use pidex.Prelude.{
  ℕ, ◌+◌, ◌≤◌, ◌<◌, ◌≡◌, refl, sym, ap, subst, append-nil, append_assoc, ◌∙◌, Bool, true, false,
  List, [], ◌∷◌, ◌++◌, Option, none, some, arith, length, Option-cases, inl, inr, if◌then◌else◌,
}
use pidex.Worker.Frame.{Identity, Frame, Body, bootstrap}
use pidex.Worker.FrameSchema.{frame_fits, max_worker_frame_bytes}
use pidex.Worker.Protocol.{
  Codec, Protocol, accept, same_identity, is_heartbeat, decode_worker_frame, encode_worker_frame,
}
use pidex.Worker.Transport.{
  Transport, cut, cut_frame, deliver, admit, receive_frame, receive, receive_all, frame_bytes,
  length_header, handle_chunks,
}
use pidex.Worker.Framing.{cut_frame-header}
use pidex.Worker.Rounds.{
  shown, extend, receive_all-cut, receive_all-waiting, continue, continue_open,
}
use pidex.Worker.Chunks.{concat, handle_chunks-concat, handle_data_open}

-- The bytes of frames that `SessionWorkerTransport.frame` makes, one behind another; `none` where one
-- of them throws.
unfoldable pub stream_bytes : Codec → List Frame → Option (List ℕ)
stream_bytes codec [] = some []
stream_bytes codec (f ∷ fs) = elim (frame_bytes codec f) [
  | none ↦ none
  | some bytes ↦ elim (stream_bytes codec fs) [ none ↦ none | some more ↦ some (bytes ++ more) ]
]

abbrev pub is_bootstrap : Body → Bool
is_bootstrap (bootstrap token release config pi cwd) = true
is_bootstrap _ = false

-- The next frame of a generation that is admitted, and of which the codec loses nothing.
pub record IsNext (codec : Codec) (i : Identity) (n : ℕ) (f : Frame) : Type 0 where
  pub same : same_identity f.identity i ≡ true
  pub ordered : f.sequence ≡ n
  pub admitted : is_bootstrap f.body ≡ false
  pub spelled : 0 < length (codec.print f)
  pub parsed : codec.parse (codec.print f) ≡ some f

abbrev pub AreNext : Codec → Identity → ℕ → List Frame → Type 0
AreNext codec i n [] = Unit
AreNext codec i n (f ∷ fs) = IsNext codec i n f × AreNext codec i (n + 1) fs

abbrev advance : Frame → ℕ → Protocol → Protocol
advance f now p = record p {
  next_sequence = p.next_sequence + 1;
  last_heartbeat = if is_heartbeat f.body then now else p.last_heartbeat;
}

frame_bytes-encoded :
    (codec : Codec) (f : Frame) (bytes : List ℕ)
    → frame_bytes codec f ≡ some bytes
    → (frame_fits f ≡ true)
      × (length (codec.print f) ≤ max_worker_frame_bytes)
      × (bytes ≡ length_header (length (codec.print f)) ++ codec.print f)
unfolding frame_bytes encode_worker_frame
frame_bytes-encoded codec f bytes e = ground arith

admit_next :
    (f : Frame) (b : Body) (t : Transport)
    → is_bootstrap b ≡ false
    → t.authenticated ≡ true
    → admit f b t ≡ deliver f t
unfolding admit
admit_next f b t e a = ground arith

receive_next :
    (codec : Codec) (f : Frame) (now : ℕ) (t : Transport)
    → frame_fits f ≡ true
    → length (codec.print f) ≤ max_worker_frame_bytes
    → t.authenticated ≡ true
    → IsNext codec t.protocol.identity t.protocol.next_sequence f
    → receive codec (codec.print f) now t
      ≡ deliver f (record t { protocol = advance f now t.protocol })
unfolding receive receive_frame accept decode_worker_frame
receive_next codec f now t fits bound a h =
    ground
      (arith, admit_next f f.body (record t { protocol = advance f now t.protocol }) h.admitted a)

stream_bytes-cons :
    (codec : Codec) (f : Frame) (fs : List Frame) (bytes : List ℕ)
    → stream_bytes codec (f ∷ fs) ≡ some bytes
    → (front : List ℕ) × (more : List ℕ) × (frame_bytes codec f ≡ some front)
      × (stream_bytes codec fs ≡ some more)
      × (bytes ≡ front ++ more)
unfolding stream_bytes
stream_bytes-cons codec f fs bytes e = elim (Option-cases (frame_bytes codec f)) [
  | inl n ↦ absurd (ground arith)
  | inr (front, s) ↦ elim (Option-cases (stream_bytes codec fs)) [
    | inl n ↦ absurd (ground arith)
    | inr (more, r) ↦ (front, more, s, r, ground arith)
  ]
]

-- What a transport has once the frames are through.
record HasDelivered (fs : List Frame) (t u : Transport) : Type 0 where
  pub frames : u.delivered ≡ t.delivered ++ fs
  pub alive : u.closed ≡ false

receive_all-stream :
    (codec : Codec) (now : ℕ) (fs : List Frame) (t : Transport)
    → stream_bytes codec fs ≡ some t.buffer
    → AreNext codec t.protocol.identity t.protocol.next_sequence fs
    → t.authenticated ≡ true
    → t.closed ≡ false
    → HasDelivered fs t (receive_all codec now t)
unfolding stream_bytes cut_frame
receive_all-stream codec now [] t e h a o =
    let empty : t.buffer ≡ [] = ground arith in
    subst (HasDelivered [] t) (sym (receive_all-waiting codec now t (rw empty refl)))
      (record { frames = sym (append-nil t.delivered); alive = o })
receive_all-stream codec now (f ∷ fs) t e (h, hs) a o =
    let (front, more, s, r, parts) = stream_bytes-cons codec f fs t.buffer e in
    let (fits, bound, header) = frame_bytes-encoded codec f front s in
    let u : Transport =
      deliver f (record t { buffer = more; protocol = advance f now t.protocol }) in
    let front_cut : cut_frame t.buffer ≡ cut (codec.print f) more =
      rw (parts, header, append_assoc (length_header (length (codec.print f))) (codec.print f) more)
        (cut_frame-header (codec.print f) more h.spelled bound) in
    let through : receive_all codec now t ≡ receive_all codec now u =
      receive_all-cut codec now t (codec.print f) more front_cut
      ∙ ap (continue codec now)
          (receive_next codec f now (record t { buffer = more }) fits bound a h)
      ∙ continue_open codec now u o in
    let ih = receive_all-stream codec now fs u r hs a o in
    subst (HasDelivered (f ∷ fs) t) (sym through)
      (record { frames = ih.frames ∙ append_assoc t.delivered (f ∷ []) fs; alive = ih.alive })

-- What the sender's frames spell, in chunks of any size, is delivered frame by frame and in order to an
-- open transport that is authenticated and holds no bytes yet, where the frames are the next ones of its
-- generation, no bootstraps, and the codec gives back what it prints of them.
pub handle_chunks-stream :
    (codec : Codec) (now : ℕ) (fs : List Frame) (chunk : List ℕ) (chunks : List (List ℕ))
    (t : Transport)
    → stream_bytes codec fs ≡ some (chunk ++ concat chunks)
    → AreNext codec t.protocol.identity t.protocol.next_sequence fs
    → t.authenticated ≡ true
    → t.closed ≡ false
    → t.buffer ≡ []
    → ((handle_chunks codec now (chunk ∷ chunks) t).delivered ≡ t.delivered ++ fs)
      × ((handle_chunks codec now (chunk ∷ chunks) t).closed ≡ false)
handle_chunks-stream codec now fs chunk chunks t e h a o empty =
    let bytes = chunk ++ concat chunks in
    let whole : extend bytes t ≡ record t { buffer = bytes } =
      ap (λ (b : List ℕ). record t { buffer = b ++ bytes }) empty in
    let same : shown (handle_chunks codec now (chunk ∷ chunks) t)
        ≡ shown (receive_all codec now (record t { buffer = bytes })) =
      handle_chunks-concat codec now chunk chunks t
      ∙ ap shown (handle_data_open codec now bytes t o ∙ ap (receive_all codec now) whole) in
    let there = receive_all-stream codec now fs (record t { buffer = bytes }) e h a o in
    (
      ap (λ (u : Transport). u.delivered) same ∙ there.frames,
      ap (λ (u : Transport). u.closed) same ∙ there.alive,
    )

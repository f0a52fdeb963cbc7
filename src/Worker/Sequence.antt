-- ===== src/Worker/Sequence.antt =====
-- What a transport of packages/worker-protocol/src/index.ts delivers, whatever bytes come: the frames of
-- one generation, in order, behind one authenticated bootstrap.
use pidex.Prelude.{
  ℕ, zero, suc, ◌≡◌, sym, ap, subst, ◌∙◌, true, false, not, inl, inr, List, [], ◌∷◌, some, arith,
  length, Bool-cases, Text,
}
use pidex.Worker.Frame.{Identity, Frame}
use pidex.Worker.Protocol.{
  Codec, Attempt-cases, create_protocol, same_identity, accept, decode_worker_frame, Decoded,
  oversized, malformed, decoded, malformed_frame, invalid_frame_length,
}
use pidex.Worker.Transport.{
  Transport, create_transport, cut_frame, admit, receive_frame, receive, received, receive_loop,
  handle_data, handle_chunks,
}
use pidex.Worker.Rounds.{Cut-cases, extend}
use pidex.Worker.Chunks.{handle_data_open, handle_data_closed}
use pidex.Worker.Conversation.{is_conversation, is_empty, IsGuarded}
use pidex.Worker.Admittance.{reject-IsGuarded, accept-done, admit-Admits, Admits-IsGuarded}

receive_frame-IsGuarded :
    (i : Identity) (k : Text) (f : Frame) (now : ℕ) (t : Transport)
    → IsGuarded i k t
    → t.closed ≡ false
    → IsGuarded i k (receive_frame f now t)
unfolding receive_frame
receive_frame-IsGuarded i k f now t h o = elim (Attempt-cases (accept f now t.protocol)) [
  | inl (code, e) ↦
      rw (e, receive_frame) (reject-IsGuarded i k code t h.conversation h.greeted h.own h.token)
  | inr (p, e) ↦
      let (same, ordered, kept, next) = accept-done f now t.protocol p e in
      let counted = h.counted o in
      rw (e, receive_frame)
        (Admits-IsGuarded i k f (record t { protocol = p })
          (admit f f.body (record t { protocol = p }))
          (admit-Admits f f.body (record t { protocol = p })) h.conversation h.greeted
          (kept ∙ h.own) h.token
          (ap (λ (j : Identity). same_identity f.identity j) (sym h.own) ∙ same) (omega arith)
          (omega arith))
]

receive-IsGuarded :
    (i : Identity) (k : Text) (codec : Codec) (payload : List ℕ) (now : ℕ) (t : Transport)
    → IsGuarded i k t
    → t.closed ≡ false
    → IsGuarded i k (receive codec payload now t)
unfolding receive
receive-IsGuarded i k codec payload now t h o =
    elim (decode_worker_frame codec payload)
      as (λ (d : Decoded). IsGuarded i k (received d now t)) [
        | oversized ↦ reject-IsGuarded i k malformed_frame t h.conversation h.greeted h.own h.token
        | malformed ↦ reject-IsGuarded i k malformed_frame t h.conversation h.greeted h.own h.token
        | decoded f ↦ receive_frame-IsGuarded i k f now t h o
      ]

receive_loop-IsGuarded :
    (i : Identity) (k : Text) (codec : Codec) (now fuel : ℕ) (t : Transport)
    → IsGuarded i k t
    → t.closed ≡ false
    → IsGuarded i k (receive_loop codec now fuel t)
unfolding receive_loop
receive_loop-IsGuarded i k codec now zero t h o = h
receive_loop-IsGuarded i k codec now (suc fuel) t h o = elim (Cut-cases (cut_frame t.buffer)) [
  | inl e ↦ rw (e, receive_loop) h
  | inr (inl e) ↦
      rw (e, receive_loop)
        (reject-IsGuarded i k invalid_frame_length t h.conversation h.greeted h.own h.token)
  | inr (inr (payload, rest, e)) ↦
      let u : Transport = receive codec payload now (record t { buffer = rest }) in
      let guarded : IsGuarded i k u =
        receive-IsGuarded i k codec payload now (record t { buffer = rest })
          (record {
            own = h.own;
            token = h.token;
            conversation = h.conversation;
            greeted = h.greeted;
            counted = h.counted;
          })
          o in
      rw (e, receive_loop)
        (elim (Bool-cases u.closed) [
          | inl ended ↦ rw (ended, receive_loop) guarded
          | inr open_ ↦
              rw (open_, receive_loop) (receive_loop-IsGuarded i k codec now fuel u guarded open_)
        ])
]

handle_data-IsGuarded :
    (i : Identity) (k : Text) (codec : Codec) (now : ℕ) (chunk : List ℕ) (t : Transport)
    → IsGuarded i k t
    → IsGuarded i k (handle_data codec now chunk t)
handle_data-IsGuarded i k codec now chunk t h = elim (Bool-cases t.closed) [
  | inl ended ↦ subst (IsGuarded i k) (sym (handle_data_closed codec now chunk t ended)) h
  | inr open_ ↦ subst (IsGuarded i k) (sym (handle_data_open codec now chunk t open_)) (
      receive_loop-IsGuarded i k codec now (suc (length (extend chunk t).buffer)) (extend chunk t)
        (record {
          own = h.own;
          token = h.token;
          conversation = h.conversation;
          greeted = h.greeted;
          counted = h.counted;
        })
        open_)
]

chunks_from-IsGuarded :
    (i : Identity) (k : Text) (codec : Codec) (now : ℕ) (chunks : List (List ℕ)) (t : Transport)
    → IsGuarded i k t
    → IsGuarded i k (handle_chunks codec now chunks t)
unfolding handle_chunks
chunks_from-IsGuarded i k codec now [] t h = h
chunks_from-IsGuarded i k codec now (chunk ∷ chunks) t h =
    chunks_from-IsGuarded i k codec now chunks (handle_data codec now chunk t)
      (handle_data-IsGuarded i k codec now chunk t h)

created :
    (k : Text) (i : Identity) (now : ℕ) (t : Transport)
    → create_transport k i now ≡ some t
    → (t.protocol.identity ≡ i)
      × (t.authentication_token ≡ k)
      × (t.delivered ≡ [])
      × (t.authenticated ≡ false)
      × (t.protocol.next_sequence ≡ 0)
unfolding create_transport create_protocol
created k i now t e = ground arith

create_transport-IsGuarded :
    (k : Text) (i : Identity) (now : ℕ) (t : Transport)
    → create_transport k i now ≡ some t
    → IsGuarded i k t
create_transport-IsGuarded k i now t e =
    let (own, token, empty, closed, zero_) = created k i now t e in
    record {
      own = own;
      token = token;
      conversation = ap (is_conversation i t.authentication_token) empty;
      greeted = closed ∙ sym (ap (λ (fs : List Frame). not (is_empty fs)) empty);
      counted = λ o. zero_ ∙ sym (ap length empty);
    }

-- Whatever bytes come, in chunks of any size, a new transport delivers nothing, or one bootstrap that
-- carries its token and behind it frames of its own generation, in the order of their sequences, none
-- of them a bootstrap.
pub handle_chunks-is_conversation :
    (codec : Codec) (now : ℕ) (chunks : List (List ℕ)) (token : Text) (i : Identity) (t : Transport)
    → create_transport token i now ≡ some t
    → is_conversation i token (handle_chunks codec now chunks t).delivered ≡ true
handle_chunks-is_conversation codec now chunks token i t e =
    let guarded =
      chunks_from-IsGuarded i token codec now chunks t
        (create_transport-IsGuarded token i now t e) in
    ap (λ (k : Text). is_conversation i k (handle_chunks codec now chunks t).delivered)
      (sym guarded.token)
    ∙ guarded.conversation

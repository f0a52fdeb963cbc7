-- ===== src/Worker/Chunks.antt =====
-- How a stream is cut into chunks does not matter to `SessionWorkerTransport` of
-- packages/worker-protocol/src/index.ts.
use pidex.Prelude.{
  ◌⊎◌, ℕ, zero, suc, ◌<◌, ◌≡◌, sym, ap, ◌∙◌, true, false, List, [], ◌∷◌, ◌++◌, arith, length,
  append_assoc, append-nil, Bool-cases, inl, inr,
}
use pidex.Worker.Protocol.{Codec}
use pidex.Worker.Transport.{
  Transport, waiting, cut_frame, reject, receive, receive_loop, receive_all, handle_data,
  handle_chunks,
}
use pidex.Worker.Framing.{cut_frame-length, cut_frame-append, cut_frame-append_bad}
use pidex.Worker.Rounds.{
  extend, shown, receive-extend, receive-buffer, Cut-cases, continue, continue_closed,
  continue_open, receive_all-cut, receive_all-waiting, receive_all-bad,
}

-- More bytes, unless the transport is closed.
abbrev resume : Codec → ℕ → List ℕ → Transport → Transport
resume codec now more t = elim t.closed [ true ↦ t | false ↦ receive_all codec now (extend more t) ]

resume_closed :
    (codec : Codec) (now : ℕ) (more : List ℕ) (t : Transport)
    → t.closed ≡ true
    → resume codec now more t ≡ t
resume_closed codec now more t e = ground arith

resume_open :
    (codec : Codec) (now : ℕ) (more : List ℕ) (t : Transport)
    → t.closed ≡ false
    → resume codec now more t ≡ receive_all codec now (extend more t)
resume_open codec now more t e = ground arith

shown_closed : (t : Transport) (more : List ℕ) → t.closed ≡ true → shown (extend more t) ≡ shown t
shown_closed t more e = ground arith

receive_all-extend :
    (codec : Codec) (now n : ℕ) (t : Transport) (more : List ℕ)
    → length t.buffer < n
    → t.closed ≡ false
    → shown (receive_all codec now (extend more t))
      ≡ shown (resume codec now more (receive_all codec now t))
receive_all-extend codec now zero t more h o = absurd (omega arith)
receive_all-extend codec now (suc n) t more h o = elim (Cut-cases (cut_frame t.buffer)) [
  | inl e ↦ sym (
      ap (λ (u : Transport). shown (resume codec now more u)) (receive_all-waiting codec now t e)
      ∙ ap shown (resume_open codec now more t o))
  | inr (inl e) ↦
      ap shown (receive_all-bad codec now (extend more t) (cut_frame-append_bad t.buffer more e))
      ∙ unfold reject in
        (ground arith)
        ∙ sym (
            ap (λ (u : Transport). shown (resume codec now more u)) (receive_all-bad codec now t e))
  | inr (inr (payload, rest, e)) ↦
      let shorter = cut_frame-length t.buffer payload rest e in
      let u : Transport = receive codec payload now (record t { buffer = rest }) in
      let left : length u.buffer ≡ length rest =
        ap length (receive-buffer codec payload now (record t { buffer = rest })) in
      ap shown (
        receive_all-cut codec now (extend more t) payload (rest ++ more)
          (cut_frame-append t.buffer more payload rest e)
        ∙ ap (continue codec now)
            (receive-extend codec payload now (record t { buffer = rest }) more))
      ∙ (elim (Bool-cases u.closed) [
        | inl ended ↦
            ap shown (continue_closed codec now (extend more u) ended)
            ∙ shown_closed u more ended
            ∙ ap shown (sym (resume_closed codec now more u ended))
            ∙ ap (λ (v : Transport). shown (resume codec now more v))
                (sym (continue_closed codec now u ended))
        | inr open_ ↦
            ap shown (continue_open codec now (extend more u) open_)
            ∙ receive_all-extend codec now n u more (omega arith) open_
            ∙ ap (λ (v : Transport). shown (resume codec now more v))
                (sym (continue_open codec now u open_))
      ])
      ∙ ap (λ (v : Transport). shown (resume codec now more v))
          (sym (receive_all-cut codec now t payload rest e))
]

pub handle_data_closed :
    (codec : Codec) (now : ℕ) (chunk : List ℕ) (t : Transport)
    → t.closed ≡ true
    → handle_data codec now chunk t ≡ t
unfolding handle_data
handle_data_closed codec now chunk t e = ground arith

pub handle_data_open :
    (codec : Codec) (now : ℕ) (chunk : List ℕ) (t : Transport)
    → t.closed ≡ false
    → handle_data codec now chunk t ≡ receive_all codec now (extend chunk t)
unfolding handle_data
handle_data_open codec now chunk t e = ground arith

handle_data-resume :
    (codec : Codec) (now : ℕ) (chunk : List ℕ) (t : Transport)
    → handle_data codec now chunk t ≡ resume codec now chunk t
handle_data-resume codec now chunk t = elim (Bool-cases t.closed) [
  | inl ended ↦
      handle_data_closed codec now chunk t ended ∙ sym (resume_closed codec now chunk t ended)
  | inr open_ ↦ handle_data_open codec now chunk t open_ ∙ sym (resume_open codec now chunk t open_)
]

handle_data-append :
    (codec : Codec) (now : ℕ) (chunk more : List ℕ) (t : Transport)
    → shown (handle_data codec now (chunk ++ more) t)
      ≡ shown (handle_data codec now more (handle_data codec now chunk t))
handle_data-append codec now chunk more t = elim (Bool-cases t.closed) [
  | inl ended ↦ ap shown (
      handle_data_closed codec now (chunk ++ more) t ended
      ∙ sym (handle_data_closed codec now more t ended)
      ∙ ap (handle_data codec now more) (sym (handle_data_closed codec now chunk t ended)))
  | inr open_ ↦
      ap shown (
        handle_data_open codec now (chunk ++ more) t open_
        ∙ ap (λ (b : List ℕ). receive_all codec now (record t { buffer = b }))
            (sym (append_assoc t.buffer chunk more)))
      ∙ receive_all-extend codec now (suc (length (extend chunk t).buffer)) (extend chunk t) more
          (omega arith) open_
      ∙ ap shown (sym (handle_data-resume codec now more (receive_all codec now (extend chunk t))))
      ∙ ap (λ (u : Transport). shown (handle_data codec now more u))
          (sym (handle_data_open codec now chunk t open_))
]

abbrev pub concat : List (List ℕ) → List ℕ
concat [] = []
concat (xs ∷ xss) = xs ++ concat xss

-- A stream is read as one chunk would be: the same frames are delivered, and the transport is left in
-- the same state, its unread bytes included if it is open.
pub handle_chunks-concat :
    (codec : Codec) (now : ℕ) (chunk : List ℕ) (chunks : List (List ℕ)) (t : Transport)
    → shown (handle_chunks codec now (chunk ∷ chunks) t)
      ≡ shown (handle_data codec now (chunk ++ concat chunks) t)
unfolding handle_chunks
handle_chunks-concat codec now chunk [] t =
    ap (λ (c : List ℕ). shown (handle_data codec now c t)) (sym (append-nil chunk))
handle_chunks-concat codec now chunk (next ∷ chunks) t =
    handle_chunks-concat codec now next chunks (handle_data codec now chunk t)
    ∙ sym (handle_data-append codec now chunk (next ++ concat chunks) t)

-- With more rounds than the buffer has bytes, the loop ends with its transport closed, or with no whole
-- frame in its buffer.
pub receive_all_rest :
    (codec : Codec) (now n : ℕ) (t : Transport)
    → length t.buffer < n
    → ((receive_loop codec now n t).closed ≡ true)
      ⊎ (cut_frame (receive_loop codec now n t).buffer ≡ waiting)
unfolding receive_loop reject
receive_all_rest codec now zero t h = absurd (omega arith)
receive_all_rest codec now (suc n) t h = elim (Cut-cases (cut_frame t.buffer)) [
  | inl e ↦ inr (rw (e, receive_loop) e)
  | inr (inl e) ↦ inl (rw (e, receive_loop) (ground arith))
  | inr (inr (payload, rest, e)) ↦
      let shorter = cut_frame-length t.buffer payload rest e in
      let u : Transport = receive codec payload now (record t { buffer = rest }) in
      let left : length u.buffer ≡ length rest =
        ap length (receive-buffer codec payload now (record t { buffer = rest })) in
      let ih = receive_all_rest codec now n u (omega arith) in
      rw (e, receive_loop)
        (elim (Bool-cases u.closed) [
          | inl ended ↦ inl (rw (ended, receive_loop) ended)
          | inr open_ ↦ rw (open_, receive_loop) ih
        ])
]

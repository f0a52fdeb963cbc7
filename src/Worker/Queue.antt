-- ===== src/Worker/Queue.antt =====
-- The queue of `SessionWorkerProtocol` of packages/worker-protocol/src/index.ts, over any sequence of
-- `enqueue` and `drain`.
use pidex.Prelude.{
  ℕ, ◌+◌, ◌≤◌, ◌≡◌, refl, sym, ap, ◌∙◌, inl, inr, List, [], ◌∷◌, ◌++◌, map, append_assoc,
  append-nil, Option, none, some, arith, length, length-append,
}
use pidex.Worker.Frame.{Identity, Frame}
use pidex.Worker.Protocol.{
  Codec, Protocol, done, failed, Attempt-cases, create_protocol, encode_worker_frame, enqueue,
  drain, drain_queue,
}

-- A call of the owner of the queue.
pub data Move : Type 0 where
  put : Frame → Move
  get : Move

-- A protocol with the frames that `enqueue` took and the values that `drain` gave.
pub record Outbox : Type 0 where
  pub protocol : Protocol
  pub taken : List Frame
  pub given : List (List ℕ)

abbrev given_value : Option (List ℕ) → List (List ℕ)
given_value none = []
given_value (some value) = value ∷ []

abbrev pub move : Codec → Move → Outbox → Outbox
move codec (put f) o = elim (enqueue codec f o.protocol) [
  | failed code ↦ o
  | done p ↦ record o { protocol = p; taken = o.taken ++ f ∷ [] }
]
move codec get o =
    let (p, value) = drain o.protocol in
    record o { protocol = p; given = o.given ++ given_value value }

abbrev pub moves : Codec → List Move → Outbox → Outbox
moves codec [] o = o
moves codec (m ∷ ms) o = moves codec ms (move codec m o)

abbrev pub total : List (List ℕ) → ℕ
total [] = 0
total (value ∷ values) = length value + total values

-- Frames whose sequences count from n.
abbrev pub AreNumbered : ℕ → List Frame → Type 0
AreNumbered n [] = Unit
AreNumbered n (f ∷ fs) = (f.sequence ≡ n) × AreNumbered (n + 1) fs

-- The queue holds what was taken and not yet given, in order, and its bytes are counted.
pub record IsQueue (codec : Codec) (o : Outbox) : Type 0 where
  pub in_order : o.given ++ o.protocol.queue ≡ map codec.print o.taken
  pub counted : o.protocol.queued_bytes ≡ total o.protocol.queue
  pub bounded : o.protocol.queued_bytes ≤ o.protocol.max_queued_bytes
  pub numbered : AreNumbered 0 o.taken
  pub next : o.protocol.next_outbound_sequence ≡ length o.taken

total_append : (xs ys : List (List ℕ)) → total (xs ++ ys) ≡ total xs + total ys
total_append [] ys = omega arith
total_append (x ∷ xs) ys = ground (arith, total_append xs ys)

map_append :
    (codec : Codec) (fs : List Frame) (f : Frame)
    → map codec.print (fs ++ f ∷ []) ≡ map codec.print fs ++ codec.print f ∷ []
map_append codec [] f = refl
map_append codec (g ∷ fs) f =
    ap (λ (xs : List (List ℕ)). codec.print g ∷ xs) (map_append codec fs f)

AreNumbered-append :
    (n : ℕ) (fs : List Frame) (f : Frame)
    → AreNumbered n fs
    → f.sequence ≡ n + length fs
    → AreNumbered n (fs ++ f ∷ [])
AreNumbered-append n [] f h e = (omega arith, tt)
AreNumbered-append n (g ∷ fs) f (e₁, h) e = (e₁, AreNumbered-append (n + 1) fs f h (omega arith))

-- What an accepted `enqueue` did.
enqueue-done :
    (codec : Codec) (f : Frame) (p q : Protocol)
    → enqueue codec f p ≡ done q
    → (f.sequence ≡ p.next_outbound_sequence)
      × (p.queued_bytes + length (codec.print f) ≤ p.max_queued_bytes)
      × (q ≡ record p {
        queue = p.queue ++ codec.print f ∷ [];
        queued_bytes = p.queued_bytes + length (codec.print f);
        next_outbound_sequence = p.next_outbound_sequence + 1;
      })
unfolding enqueue encode_worker_frame
enqueue-done codec f p q e = ground arith

move-put :
    (codec : Codec) (f : Frame) (o : Outbox)
    → IsQueue codec o
    → IsQueue codec (move codec (put f) o)
move-put codec f o h = elim (Attempt-cases (enqueue codec f o.protocol)) [
  | inl (code, e) ↦ rw (e, move) h
  | inr (p, e) ↦
      let (ordered, room, after) = enqueue-done codec f o.protocol p e in
      let counted = h.counted in
      let next = h.next in
      let bytes : o.protocol.queued_bytes + length (codec.print f)
          ≡ total o.protocol.queue + total (codec.print f ∷ []) =
        omega arith in
      rw (e, move, after)
        (record {
          in_order =
              sym (append_assoc o.given o.protocol.queue (codec.print f ∷ []))
              ∙ ap (λ (xs : List (List ℕ)). xs ++ codec.print f ∷ []) h.in_order
              ∙ sym (map_append codec o.taken f);
          counted = bytes ∙ sym (total_append o.protocol.queue (codec.print f ∷ []));
          bounded = room;
          numbered = AreNumbered-append 0 o.taken f h.numbered (omega arith);
          next = ap (λ (n : ℕ). n + 1) h.next ∙ sym (length-append o.taken (f ∷ []));
        })
]

drain_queue-IsQueue :
    (codec : Codec) (queue : List (List ℕ)) (o : Outbox)
    → o.protocol.queue ≡ queue
    → IsQueue codec o
    → IsQueue codec (
        let (p, value) = drain_queue queue o.protocol in
        record o { protocol = p; given = o.given ++ given_value value })
drain_queue-IsQueue codec [] o e h = record {
  in_order = ap (λ (xs : List (List ℕ)). xs ++ o.protocol.queue) (append-nil o.given) ∙ h.in_order;
  counted = h.counted;
  bounded = h.bounded;
  numbered = h.numbered;
  next = h.next;
}
drain_queue-IsQueue codec (value ∷ rest) o e h =
    let bytes : total o.protocol.queue ≡ length value + total rest = ap total e in
    let counted = h.counted in
    let bounded = h.bounded in
    record {
      in_order =
          append_assoc o.given (value ∷ []) rest
          ∙ ap (λ (xs : List (List ℕ)). o.given ++ xs) (sym e)
          ∙ h.in_order;
      counted = omega arith;
      bounded = omega arith;
      numbered = h.numbered;
      next = h.next;
    }

move-IsQueue :
    (codec : Codec) (m : Move) (o : Outbox) → IsQueue codec o → IsQueue codec (move codec m o)
unfolding drain
move-IsQueue codec (put f) o h = move-put codec f o h
move-IsQueue codec get o h = drain_queue-IsQueue codec o.protocol.queue o refl h

moves_from-IsQueue :
    (codec : Codec) (ms : List Move) (o : Outbox)
    → IsQueue codec o
    → IsQueue codec (moves codec ms o)
moves_from-IsQueue codec [] o h = h
moves_from-IsQueue codec (m ∷ ms) o h =
    moves_from-IsQueue codec ms (move codec m o) (move-IsQueue codec m o h)

-- An outbox as the constructor leaves it.
abbrev pub empty_outbox : Identity → ℕ → ℕ → ℕ → Outbox
empty_outbox identity now most timeout = record {
  protocol = create_protocol identity now most timeout;
  taken = [];
  given = [];
}

-- After any calls of `enqueue` and `drain`, the values that were given and the queue behind them are
-- the encodings of the frames that were taken, in order; these count from zero; and the bytes of the
-- queue are counted and within the limit.
pub moves-IsQueue :
    (codec : Codec) (ms : List Move) (identity : Identity) (now most timeout : ℕ)
    → IsQueue codec (moves codec ms (empty_outbox identity now most timeout))
unfolding create_protocol
moves-IsQueue codec ms identity now most timeout =
    moves_from-IsQueue codec ms (empty_outbox identity now most timeout) (record {
      in_order = refl;
      counted = refl;
      bounded = omega arith;
      numbered = tt;
      next = refl;
    })

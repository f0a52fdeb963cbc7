-- ===== src/Worker/Rounds.antt =====
-- The rounds of the loop of `SessionWorkerTransport` of packages/worker-protocol/src/index.ts.
use pidex.Prelude.{
  ◌⊎◌, ℕ, zero, suc, ◌<◌, ◌≡◌, refl, ap, true, false, List, [], ◌++◌, arith, length, Bool-cases,
  inl, inr, if◌then◌else◌,
}
use pidex.Worker.Frame.{Frame, Body}
use pidex.Worker.Protocol.{Codec, Protocol, invalid_frame_length}
use pidex.Worker.Transport.{
  Transport, Cut, waiting, bad_length, cut, cut_frame, reject, admit, receive_frame, receive,
  receive_loop, receive_all,
}
use pidex.Worker.Framing.{cut_frame-length}

-- With more bytes in the buffer.
abbrev pub extend : List ℕ → Transport → Transport
extend more t = record t { buffer = t.buffer ++ more }

-- What a closed transport shows: its buffer is read no more.
abbrev pub shown : Transport → Transport
shown t = record t { buffer = if t.closed then [] else t.buffer }

admit-extend :
    (f : Frame) (b : Body) (t : Transport) (more : List ℕ)
    → admit f b (extend more t) ≡ extend more (admit f b t)
unfolding admit
admit-extend f b t more = ground arith

receive_frame-extend :
    (f : Frame) (now : ℕ) (t : Transport) (more : List ℕ)
    → receive_frame f now (extend more t) ≡ extend more (receive_frame f now t)
unfolding receive_frame reject
receive_frame-extend f now t more =
    ground (arith, λ (p : Protocol). admit-extend f f.body (record t { protocol = p }) more)

pub receive-extend :
    (codec : Codec) (payload : List ℕ) (now : ℕ) (t : Transport) (more : List ℕ)
    → receive codec payload now (extend more t) ≡ extend more (receive codec payload now t)
unfolding receive reject
receive-extend codec payload now t more =
    ground (arith, λ (f : Frame). receive_frame-extend f now t more)

-- The frame's reception leaves the buffer.
pub receive-buffer :
    (codec : Codec) (payload : List ℕ) (now : ℕ) (t : Transport)
    → (receive codec payload now t).buffer ≡ t.buffer
unfolding receive receive_frame admit reject
receive-buffer codec payload now t = ground arith

pub Cut-cases :
    (c : Cut)
    → (c ≡ waiting) ⊎ ((c ≡ bad_length) ⊎ ((p : List ℕ) × (rest : List ℕ) × (c ≡ cut p rest)))
Cut-cases waiting = inl refl
Cut-cases bad_length = inr (inl refl)
Cut-cases (cut p rest) = inr (inr (p, rest, refl))

-- Fuel above the length of the buffer is as good as any other.
receive_loop_fuel :
    (codec : Codec) (now n m : ℕ) (t : Transport)
    → length t.buffer < n
    → length t.buffer < m
    → receive_loop codec now n t ≡ receive_loop codec now m t
unfolding receive_loop
receive_loop_fuel codec now zero m t h k = absurd (omega arith)
receive_loop_fuel codec now (suc n) zero t h k = absurd (omega arith)
receive_loop_fuel codec now (suc n) (suc m) t h k = elim (Cut-cases (cut_frame t.buffer)) [
  | inl e ↦ rw (e, receive_loop) refl
  | inr (inl e) ↦ rw (e, receive_loop) refl
  | inr (inr (payload, rest, e)) ↦
      let shorter = cut_frame-length t.buffer payload rest e in
      let left : length (receive codec payload now (record t { buffer = rest })).buffer
          ≡ length rest =
        ap length (receive-buffer codec payload now (record t { buffer = rest })) in
      let ih =
        receive_loop_fuel codec now n m (receive codec payload now (record t { buffer = rest }))
          (omega arith) (omega arith) in
      rw (e, receive_loop)
        (elim (Bool-cases (receive codec payload now (record t { buffer = rest })).closed) [
          | inl ended ↦ rw ended refl
          | inr open_ ↦ rw open_ ih
        ])
]

-- One round of the loop, with the fuel that it needs.
abbrev pub continue : Codec → ℕ → Transport → Transport
continue codec now t = elim t.closed [ true ↦ t | false ↦ receive_all codec now t ]

pub continue_closed :
    (codec : Codec) (now : ℕ) (t : Transport) → t.closed ≡ true → continue codec now t ≡ t
continue_closed codec now t e = ground arith

pub continue_open :
    (codec : Codec) (now : ℕ) (t : Transport)
    → t.closed ≡ false
    → continue codec now t ≡ receive_all codec now t
continue_open codec now t e = ground arith

pub receive_all-cut :
    (codec : Codec) (now : ℕ) (t : Transport) (payload rest : List ℕ)
    → cut_frame t.buffer ≡ cut payload rest
    → receive_all codec now t
      ≡ continue codec now (receive codec payload now (record t { buffer = rest }))
unfolding receive_loop
receive_all-cut codec now t payload rest e =
    let shorter = cut_frame-length t.buffer payload rest e in
    let left : length (receive codec payload now (record t { buffer = rest })).buffer
        ≡ length rest =
      ap length (receive-buffer codec payload now (record t { buffer = rest })) in
    let same =
      receive_loop_fuel codec now (length t.buffer)
        (suc (length (receive codec payload now (record t { buffer = rest })).buffer))
        (receive codec payload now (record t { buffer = rest })) (omega arith) (omega arith) in
    let u : Transport = receive codec payload now (record t { buffer = rest }) in
    rw (e, receive_loop)
      (elim (Bool-cases u.closed) [
        | inl ended ↦ rw (ended, continue) refl
        | inr open_ ↦ rw (open_, continue) same
      ])

pub receive_all-waiting :
    (codec : Codec) (now : ℕ) (t : Transport)
    → cut_frame t.buffer ≡ waiting
    → receive_all codec now t ≡ t
unfolding receive_loop
receive_all-waiting codec now t e = rw (e, receive_loop) refl

pub receive_all-bad :
    (codec : Codec) (now : ℕ) (t : Transport)
    → cut_frame t.buffer ≡ bad_length
    → receive_all codec now t ≡ reject invalid_frame_length t
unfolding receive_loop
receive_all-bad codec now t e = rw (e, receive_loop) refl

-- ===== src/Worker/Framing.antt =====
-- The length header of packages/worker-protocol/src/index.ts: what is cut off a buffer.
use pidex.Prelude.{
  ℕ, zero, suc, ◌/◌, ◌%◌, ◌^◌, ◌≤◌, ◌<◌, ◌≡◌, refl, ap, List, [], ◌∷◌, ◌++◌, arith, length, take,
  drop, length-append,
}
use pidex.Worker.FrameSchema.{max_worker_frame_bytes}
use pidex.Worker.Transport.{length_header, read_length, bad_length, cut, cut_at, cut_frame}

take-append_le : (n : ℕ) (xs ys : List ℕ) → n ≤ length xs → take n (xs ++ ys) ≡ take n xs
take-append_le zero xs ys h = refl
take-append_le (suc n) [] ys h = absurd (omega arith)
take-append_le (suc n) (x ∷ xs) ys h =
    ap (λ (zs : List ℕ). x ∷ zs) (take-append_le n xs ys (omega arith))

drop-append_le : (n : ℕ) (xs ys : List ℕ) → n ≤ length xs → drop n (xs ++ ys) ≡ drop n xs ++ ys
drop-append_le zero xs ys h = refl
drop-append_le (suc n) [] ys h = absurd (omega arith)
drop-append_le (suc n) (x ∷ xs) ys h = drop-append_le n xs ys (omega arith)

length-drop-le : (n : ℕ) (xs : List ℕ) → length (drop n xs) ≤ length xs
length-drop-le zero xs = omega arith
length-drop-le (suc n) [] = omega arith
length-drop-le (suc n) (x ∷ xs) = omega (arith, length-drop-le n xs)

-- A payload and what is behind it are less than the buffer.
cut_at-length :
    (n : ℕ) (buffer payload rest : List ℕ)
    → cut_at n buffer ≡ cut payload rest
    → length rest ≤ length buffer
unfolding cut_at
cut_at-length n buffer payload rest e = ground (arith, length-drop-le n buffer)

pub cut_frame-length :
    (buffer payload rest : List ℕ)
    → cut_frame buffer ≡ cut payload rest
    → length rest < length buffer
unfolding cut_frame
cut_frame-length [] payload rest e = cc
cut_frame-length (a ∷ []) payload rest e = cc
cut_frame-length (a ∷ b ∷ []) payload rest e = cc
cut_frame-length (a ∷ b ∷ c ∷ []) payload rest e = cc
cut_frame-length (a ∷ b ∷ c ∷ d ∷ buffer) payload rest e =
    omega (arith, cut_at-length (read_length a b c d) buffer payload rest e)

-- More bytes behind a buffer change neither what is cut off nor what is refused.
cut_at-append :
    (n : ℕ) (buffer more payload rest : List ℕ)
    → cut_at n buffer ≡ cut payload rest
    → cut_at n (buffer ++ more) ≡ cut payload (rest ++ more)
unfolding cut_at
cut_at-append n buffer more payload rest e =
    ground
      (arith, take-append_le n buffer more, drop-append_le n buffer more, length-append buffer more)

pub cut_frame-append :
    (buffer more payload rest : List ℕ)
    → cut_frame buffer ≡ cut payload rest
    → cut_frame (buffer ++ more) ≡ cut payload (rest ++ more)
unfolding cut_frame
cut_frame-append [] more payload rest e = cc
cut_frame-append (a ∷ []) more payload rest e = cc
cut_frame-append (a ∷ b ∷ []) more payload rest e = cc
cut_frame-append (a ∷ b ∷ c ∷ []) more payload rest e = cc
cut_frame-append (a ∷ b ∷ c ∷ d ∷ buffer) more payload rest e =
    cut_at-append (read_length a b c d) buffer more payload rest e

cut_at-append_bad :
    (n : ℕ) (buffer more : List ℕ)
    → cut_at n buffer ≡ bad_length
    → cut_at n (buffer ++ more) ≡ bad_length
unfolding cut_at
cut_at-append_bad n buffer more e = ground arith

pub cut_frame-append_bad :
    (buffer more : List ℕ) → cut_frame buffer ≡ bad_length → cut_frame (buffer ++ more) ≡ bad_length
unfolding cut_frame
cut_frame-append_bad [] more e = cc
cut_frame-append_bad (a ∷ []) more e = cc
cut_frame-append_bad (a ∷ b ∷ []) more e = cc
cut_frame-append_bad (a ∷ b ∷ c ∷ []) more e = cc
cut_frame-append_bad (a ∷ b ∷ c ∷ d ∷ buffer) more e =
    cut_at-append_bad (read_length a b c d) buffer more e

read_length-header :
    (n : ℕ)
    → n < 2 ^ 32
    → read_length (n / 2 ^ 24 % 256) (n / 2 ^ 16 % 256) (n / 2 ^ 8 % 256) (n % 256) ≡ n
unfolding read_length
read_length-header n h = omega arith

take-append_self : (xs more : List ℕ) → take (length xs) (xs ++ more) ≡ xs
take-append_self [] more = refl
take-append_self (x ∷ xs) more = ap (λ (zs : List ℕ). x ∷ zs) (take-append_self xs more)

drop-append_self : (xs more : List ℕ) → drop (length xs) (xs ++ more) ≡ more
drop-append_self [] more = refl
drop-append_self (x ∷ xs) more = drop-append_self xs more

cut_at-payload :
    (payload more : List ℕ)
    → 0 < length payload
    → length payload ≤ max_worker_frame_bytes
    → cut_at (length payload) (payload ++ more) ≡ cut payload more
unfolding cut_at
cut_at-payload payload more some_ bound = ground (
  arith,
  length-append payload more,
  take-append_self payload more,
  drop-append_self payload more,
)

-- A frame's bytes are cut off as its payload.
pub cut_frame-header :
    (payload more : List ℕ)
    → 0 < length payload
    → length payload ≤ max_worker_frame_bytes
    → cut_frame (length_header (length payload) ++ (payload ++ more)) ≡ cut payload more
unfolding cut_frame length_header
cut_frame-header payload more some_ bound =
    rw (read_length-header (length payload) (omega arith)) (cut_at-payload payload more some_ bound)

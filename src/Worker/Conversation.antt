-- ===== src/Worker/Conversation.antt =====
-- The frames that a transport of packages/worker-protocol/src/index.ts may deliver.
use pidex.Prelude.{
  ℕ, ◌+◌, ◌≡◌, refl, Bool, true, false, ◌&&◌, not, List, [], ◌∷◌, ◌++◌, arith, length, ◌==◌, Text,
  text_eq,
}
use pidex.Worker.Frame.{Identity, Frame, Body, bootstrap}
use pidex.Worker.Protocol.{same_identity}
use pidex.Worker.Transport.{Transport}
use pidex.Worker.Delivery.{is_bootstrap}

-- A bootstrap with the token of the generation.
abbrev pub greets : Text → Body → Bool
greets token (bootstrap given release config pi cwd) = text_eq given token
greets token _ = false

-- Frames of a generation that count from n, none of them a bootstrap.
abbrev pub follows : Identity → ℕ → List Frame → Bool
follows i n [] = true
follows i n (f ∷ fs) =
    let rest = follows i (n + 1) fs in
    same_identity f.identity i && ((f.sequence == n) && (not (is_bootstrap f.body) && rest))

-- Nothing, or a bootstrap and then the frames of the generation.
abbrev pub is_conversation : Identity → Text → List Frame → Bool
is_conversation i token [] = true
is_conversation i token (f ∷ fs) =
    same_identity f.identity i && ((f.sequence == 0) && (greets token f.body && follows i 1 fs))

abbrev pub is_empty : List Frame → Bool
is_empty [] = true
is_empty (f ∷ fs) = false

-- What holds between two chunks.
pub record IsGuarded (i : Identity) (k : Text) (t : Transport) : Type 0 where
  pub own : t.protocol.identity ≡ i
  pub token : t.authentication_token ≡ k
  pub conversation : is_conversation i t.authentication_token t.delivered ≡ true
  pub greeted : t.authenticated ≡ not (is_empty t.delivered)
  pub counted : t.closed ≡ false → t.protocol.next_sequence ≡ length t.delivered

pub follows_append :
    (i : Identity) (n : ℕ) (fs : List Frame) (f : Frame)
    → follows i n fs ≡ true
    → same_identity f.identity i ≡ true
    → f.sequence ≡ n + length fs
    → is_bootstrap f.body ≡ false
    → follows i n (fs ++ f ∷ []) ≡ true
follows_append i n [] f h s e b = ground arith
follows_append i n (g ∷ fs) f h s e b =
    ground (
      arith,
      λ (r : follows i (n + 1) fs ≡ true). follows_append i (n + 1) fs f r s (omega arith) b,
    )

pub conversation_first :
    (i : Identity) (token : Text) (fs : List Frame) (f : Frame)
    → is_empty fs ≡ true
    → same_identity f.identity i ≡ true
    → f.sequence ≡ length fs
    → greets token f.body ≡ true
    → is_conversation i token (fs ++ f ∷ []) ≡ true
conversation_first i token [] f e s n g = ground arith
conversation_first i token (x ∷ xs) f e s n g = ground arith

pub conversation_append :
    (i : Identity) (token : Text) (fs : List Frame) (f : Frame)
    → is_empty fs ≡ false
    → is_conversation i token fs ≡ true
    → same_identity f.identity i ≡ true
    → f.sequence ≡ length fs
    → is_bootstrap f.body ≡ false
    → is_conversation i token (fs ++ f ∷ []) ≡ true
conversation_append i token [] f e h s n b = ground arith
conversation_append i token (x ∷ xs) f e h s n b =
    ground (arith, λ (r : follows i 1 xs ≡ true). follows_append i 1 xs f r s (omega arith) b)

pub is_empty-append : (fs : List Frame) (f : Frame) → is_empty (fs ++ f ∷ []) ≡ false
is_empty-append [] f = refl
is_empty-append (g ∷ fs) f = refl

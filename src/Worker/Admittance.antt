-- ===== src/Worker/Admittance.antt =====
-- What the admission of a frame by `SessionWorkerTransport` of packages/worker-protocol/src/index.ts
-- does to what is delivered.
use pidex.Prelude.{
  ℕ, ◌+◌, ◌≡◌, refl, sym, ap, subst, ◌∙◌, true, false, not, inl, inr, [], ◌∷◌, ◌++◌, some, arith,
  length, length-append, if◌then◌else◌, Bool-cases, Text,
}
use pidex.Worker.Frame.{Identity, Frame, Body}
use pidex.Worker.Protocol.{
  FailureCode, bootstrap_required, bootstrap_authentication_failed, duplicate_bootstrap, Protocol,
  done, same_identity, accept,
}
use pidex.Worker.Transport.{Transport, deliver, admit, reject}
use pidex.Worker.Delivery.{is_bootstrap}
use pidex.Worker.Conversation.{
  greets, is_conversation, is_empty, IsGuarded, conversation_first, conversation_append,
  is_empty-append,
}

reject-closes :
    (code : FailureCode) (t : Transport)
    → reject code t
      ≡ record t { closed = true; failure = if t.closed then t.failure else some code }
unfolding reject
reject-closes code t = ground arith

pub reject-IsGuarded :
    (i : Identity) (k : Text) (code : FailureCode) (t : Transport)
    → is_conversation i t.authentication_token t.delivered ≡ true
    → t.authenticated ≡ not (is_empty t.delivered)
    → t.protocol.identity ≡ i
    → t.authentication_token ≡ k
    → IsGuarded i k (reject code t)
reject-IsGuarded i k code t h g own tk =
    subst (IsGuarded i k) (sym (reject-closes code t)) (record {
      own = own;
      token = tk;
      conversation = h;
      greeted = g;
      counted = λ (e : true ≡ false). absurd (ground arith);
    })

deliver-IsGuarded :
    (i : Identity) (k : Text) (f : Frame) (t : Transport)
    → is_conversation i t.authentication_token (t.delivered ++ f ∷ []) ≡ true
    → t.authenticated ≡ true
    → t.protocol.identity ≡ i
    → t.authentication_token ≡ k
    → t.protocol.next_sequence ≡ length t.delivered + 1
    → IsGuarded i k (deliver f t)
deliver-IsGuarded i k f t h a own tk n = record {
  own = own;
  token = tk;
  conversation = h;
  greeted = a ∙ sym (ap not (is_empty-append t.delivered f));
  counted = λ e. n ∙ sym (length-append t.delivered (f ∷ []));
}

pub accept-done :
    (f : Frame) (now : ℕ) (p q : Protocol)
    → accept f now p ≡ done q
    → (same_identity f.identity p.identity ≡ true)
      × (f.sequence ≡ p.next_sequence)
      × (q.identity ≡ p.identity)
      × (q.next_sequence ≡ p.next_sequence + 1)
unfolding accept
accept-done f now p q e = ground arith

-- What `admit` can do.
pub data Admits (f : Frame) (b : Body) (t u : Transport) : Type 0 where
  rejects : (code : FailureCode) → u ≡ reject code t → Admits f b t u
  passes : is_bootstrap b ≡ false → t.authenticated ≡ true → u ≡ deliver f t → Admits f b t u
  opens :
      greets t.authentication_token b ≡ true
      → t.authenticated ≡ false
      → u ≡ deliver f (record t { authenticated = true })
      → Admits f b t u

admit_plain :
    (f : Frame) (b : Body) (t : Transport) → is_bootstrap b ≡ false → Admits f b t (admit f b t)
unfolding admit
admit_plain f b t e = elim (Bool-cases t.authenticated) [
  | inl a ↦ passes e a (ground arith)
  | inr a ↦ rejects bootstrap_required (ground arith)
]

admit_bootstrap :
    (f : Frame) (b : Body) (t : Transport) → is_bootstrap b ≡ true → Admits f b t (admit f b t)
unfolding admit
admit_bootstrap f b t e = elim (Bool-cases t.authenticated) [
  | inl a ↦ rejects duplicate_bootstrap (ground arith)
  | inr a ↦ elim (Bool-cases (greets t.authentication_token b)) [
    | inl g ↦ opens g a (ground arith)
    | inr g ↦ rejects bootstrap_authentication_failed (ground arith)
  ]
]

pub admit-Admits : (f : Frame) (b : Body) (t : Transport) → Admits f b t (admit f b t)
admit-Admits f b t = elim (Bool-cases (is_bootstrap b)) [
  | inl e ↦ admit_bootstrap f b t e
  | inr e ↦ admit_plain f b t e
]

-- A frame in its place.
pub Admits-IsGuarded :
    (i : Identity) (k : Text) (f : Frame) (t u : Transport)
    → Admits f f.body t u
    → is_conversation i t.authentication_token t.delivered ≡ true
    → t.authenticated ≡ not (is_empty t.delivered)
    → t.protocol.identity ≡ i
    → t.authentication_token ≡ k
    → same_identity f.identity i ≡ true
    → f.sequence ≡ length t.delivered
    → t.protocol.next_sequence ≡ length t.delivered + 1
    → IsGuarded i k u
Admits-IsGuarded i k f t u (rejects code e) h g own tk s n m =
    subst (IsGuarded i k) (sym e) (reject-IsGuarded i k code t h g own tk)
Admits-IsGuarded i k f t u (passes p a e) h g own tk s n m = subst (IsGuarded i k) (sym e) (
    deliver-IsGuarded i k f t
      (conversation_append i t.authentication_token t.delivered f (ground arith) h s n p) a own tk
      m)
Admits-IsGuarded i k f t u (opens p a e) h g own tk s n m = subst (IsGuarded i k) (sym e) (
    deliver-IsGuarded i k f (record t { authenticated = true })
      (conversation_first i t.authentication_token t.delivered f (ground arith) s n p) refl own tk
      m)

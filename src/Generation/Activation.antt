-- ===== src/Generation/Activation.antt =====
-- What `activate` of packages/host/src/authority-generations.ts leaves for the scans after it, on each end
-- of its publication.
use pidex.Prelude.{
  ◌+◌, ◌≡◌, refl, ap, sym, subst, ◌∙◌, Bool, true, false, none, some, arith, ==_refl,
}
use pidex.Generation.Envelope.{Spelling, GenerationEnvelope, is_envelope}
use pidex.Generation.Scan.{
  GenerationStore, Answer, done, failed, GenerationResolution, finds_id, is_valid, Fresh,
  record_scan, found_in, valid_in, resolve,
}
use pidex.Generation.Transition.{
  TransitionEnd, refused, published_then_threw, completed, AuthorityTransition, transition_envelope,
  publish_envelope, publish_transition, activate_from, activate,
}
use pidex.Generation.Found.{newest_generation-All, All-finds_id}
use pidex.Generation.Resolution.{
  IsSettled, IsFresh, Ensures, resolve-settled, record_scan-IsSettled, IsSuccessor,
  successor-IsSettled, IsResolved, resolve-IsResolved,
}

abbrev pub store_of {ℓ} : {A : Type ℓ} → Answer A → GenerationStore
store_of (done s a) = s
store_of (failed s e) = s

abbrev pub returns_done {ℓ} : {A : Type ℓ} → Answer A → Bool
returns_done (done s a) = true
returns_done (failed s e) = false

abbrev pub is_completed : TransitionEnd → Bool
is_completed completed = true
is_completed _ = false

-- The generation that stands behind each end of a publication.
abbrev pub standing : TransitionEnd → GenerationEnvelope → GenerationEnvelope → GenerationEnvelope
standing refused source new = source
standing published_then_threw source new = new
standing completed source new = new

-- A transition from the selected generation that can be published.
pub record IsTransition (w : Spelling) (s : GenerationStore) (source v : GenerationEnvelope)
    : Type 0 where
  pub sound : is_envelope w v ≡ true
  pub unused : finds_id v.generation_id (found_in w s) ≡ false
  pub next : v.activation_index ≡ source.activation_index + 1
  pub names : v.predecessor ≡ some source.generation_id
  pub closed : is_valid w s.objects v ≡ true

module _ (w : Spelling) (s : GenerationStore) (source v : GenerationEnvelope)
    (settled : IsSettled w s source) (new : IsTransition w s source v) where
  transition-IsSuccessor : IsSuccessor w s v
  transition-IsSuccessor = record {
    sound = new.sound;
    unused = new.unused;
    above = let next = new.next in let highest = settled.highest in omega arith;
    predecessor = source.generation_id;
    names = new.names;
    known =
        newest_generation-All (λ u. finds_id u.generation_id (valid_in w s) ≡ true) (valid_in w s)
          source (All-finds_id (valid_in w s)) settled.newest;
    closed = new.closed;
  }

  published-IsSettled : IsSettled w (publish_envelope v s) v
  published-IsSettled =
      successor-IsSettled w s v transition-IsSuccessor (publish_envelope v s) refl refl
        settled.clear settled.coherent

  publish_transition-returns_done :
      (later : Fresh) (ends : TransitionEnd)
      → returns_done (publish_transition w later ends v s) ≡ is_completed ends
  unfolding publish_transition
  publish_transition-returns_done later refused = refl
  publish_transition-returns_done later published_then_threw = refl
  publish_transition-returns_done later completed =
      rw (resolve-settled w later (publish_envelope v s) v published-IsSettled) rw
        (==_refl v.generation_id) refl

  publish_transition-IsSettled :
      (later : Fresh) (ends : TransitionEnd)
      → IsSettled w (store_of (publish_transition w later ends v s)) (standing ends source v)
  unfolding publish_transition
  publish_transition-IsSettled later refused = settled
  publish_transition-IsSettled later published_then_threw = published-IsSettled
  publish_transition-IsSettled later completed =
      rw (resolve-settled w later (publish_envelope v s) v published-IsSettled) rw
        (==_refl v.generation_id)
        (record_scan-IsSettled w (publish_envelope v s) (valid_in w (publish_envelope v s)) v
          published-IsSettled)

-- The transition's envelope can be published: it passes `isEnvelope`, its name is not taken, and its
-- objects are there.
pub record IsPublishable (w : Spelling) (s : GenerationStore) (v : GenerationEnvelope)
    : Type 0 where
  pub sound : is_envelope w v ≡ true
  pub unused : finds_id v.generation_id (found_in w s) ≡ false
  pub closed : is_valid w s.objects v ≡ true

module _ (w : Spelling) (first fresh later : Fresh) (t : AuthorityTransition)
    (s s' : GenerationStore) (r : GenerationResolution) (new : IsFresh w s first)
    (e : resolve w first s ≡ done s' r) (source : r.selected.generation_id ≡ t.source_generation)
    (free : IsPublishable w s' (transition_envelope fresh t r.selected)) where
  activate-publish :
      activate w first fresh later t s
      ≡ publish_transition w later t.ends (transition_envelope fresh t r.selected) s'
  unfolding activate
  activate-publish = let sound = free.sound in ap (activate_from w fresh later t) e ∙ ground arith

  source-IsSettled : IsSettled w s' r.selected
  source-IsSettled = (subst (Ensures (IsResolved w s)) e (resolve-IsResolved w first s new)).settled

  transition_envelope-IsTransition :
      IsTransition w s' r.selected (transition_envelope fresh t r.selected)
  unfolding transition_envelope
  transition_envelope-IsTransition = record {
    sound = free.sound;
    unused = free.unused;
    next = refl;
    names = refl;
    closed = free.closed;
  }

  activate-IsSettled :
      IsSettled w
        (store_of (activate w first fresh later t s))
        (standing t.ends r.selected (transition_envelope fresh t r.selected))
  activate-IsSettled =
      let v = transition_envelope fresh t r.selected in
      subst (λ a. IsSettled w (store_of a) (standing t.ends r.selected v)) (sym activate-publish)
        (publish_transition-IsSettled w s' r.selected v source-IsSettled
          transition_envelope-IsTransition later t.ends)

  -- For a transition from the generation that the first scan selects, with new identities, whose envelope
  -- passes `isEnvelope` under a name that is not taken and whose objects are all there, which `activate`
  -- does not check: it takes effect with the publication of its tree and not before. `activate` returns if
  -- the publication completes and throws otherwise, and in either case the next scan selects the new
  -- generation where the tree was published, and the source where it was not, with no warning.
  pub activate_then_resolve :
      (next : Fresh)
      → let after = store_of (activate w first fresh later t s) in
        let u = standing t.ends r.selected (transition_envelope fresh t r.selected) in
        (returns_done (activate w first fresh later t s) ≡ is_completed t.ends)
        × (resolve w next after
            ≡ done
                (record_scan (valid_in w after) u after)
                (record { selected = u; warning = none }))
  activate_then_resolve next =
      let after = store_of (activate w first fresh later t s) in
      let u = standing t.ends r.selected (transition_envelope fresh t r.selected) in
      let v = transition_envelope fresh t r.selected in
      (
        ap returns_done activate-publish
            ∙ publish_transition-returns_done w s' r.selected v source-IsSettled
                transition_envelope-IsTransition later t.ends,
        resolve-settled w next after u activate-IsSettled,
      )

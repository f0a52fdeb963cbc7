-- ===== src/Client/Catalog.antt =====
-- `loadDiscovery` of apps/client/src/client-store.ts and the attention changes that follow it.
use pidex.Prelude.{
  ℕ, ◌≡◌, sym, ap, subst, ◌∙◌, inl, inr, List, [], ◌∷◌, ◌++◌, some, arith, ◌==◌, Option, All,
  All-weaken, Bool-cases,
}
use pidex.Client.Discovery.{
  Cursor, decoded, HeldAttention, HeldActivity, SessionFact, Discovery, get, put, AttentionChange,
  session_attention_changed, rebase_attention, load_discovery,
}
use pidex.Client.Attention.{
  attention_changes, IsDerivedAt, AreDerived, IsSince, Shows, IsFaithful, IsShown, IsShown-changes,
  IsSince-changes, delivered-IsSince, get-put_same, get-put_other,
}

-- Every basis is the cursor.
abbrev HoldsOnly : Cursor → List (ℕ × Cursor) → Type 0
HoldsOnly cursor basis = (id : ℕ) (x : Cursor) → get id basis ≡ some x → x ≡ cursor

HoldsOnly-put :
    (cursor : Cursor) (key : ℕ) (basis : List (ℕ × Cursor))
    → HoldsOnly cursor basis
    → HoldsOnly cursor (put key cursor basis)
HoldsOnly-put cursor key basis h id x e = elim (Bool-cases (key == id)) [
  | inl same ↦
      let named : key ≡ id = ground arith in
      let held =
        sym (get-put_same key cursor basis)
        ∙ ap (λ (k : ℕ). get k (put key cursor basis)) named
        ∙ e in
      ground arith
  | inr other ↦ h id x (sym (get-put_other id key cursor basis other) ∙ e)
]

rebase_attention-HoldsOnly :
    (cursor : Cursor) (facts : List SessionFact) (basis : List (ℕ × Cursor))
    → HoldsOnly cursor basis
    → HoldsOnly cursor (rebase_attention (some cursor) facts basis)
unfolding rebase_attention
rebase_attention-HoldsOnly cursor [] basis h = h
rebase_attention-HoldsOnly cursor (s ∷ facts) basis h =
    rebase_attention-HoldsOnly cursor facts (put s.session_id cursor basis)
      (HoldsOnly-put cursor s.session_id basis h)

rebase_attention-get :
    (cursor : Cursor) (id : ℕ) (facts : List SessionFact) (basis : List (ℕ × Cursor))
    → get id basis ≡ some cursor
    → get id (rebase_attention (some cursor) facts basis) ≡ some cursor
unfolding rebase_attention
rebase_attention-get cursor id [] basis h = h
rebase_attention-get cursor id (s ∷ facts) basis h =
    rebase_attention-get cursor id facts (put s.session_id cursor basis)
      (elim (Bool-cases (s.session_id == id)) [
        | inl same ↦
            let named : s.session_id ≡ id = ground arith in
            ap (λ (k : ℕ). get k (put s.session_id cursor basis)) (sym named)
            ∙ get-put_same s.session_id cursor basis
        | inr other ↦ get-put_other id s.session_id cursor basis other ∙ h
      ])

rebase_attention-All :
    (cursor : Cursor) (facts : List SessionFact) (basis : List (ℕ × Cursor))
    → All
        (λ (s : SessionFact).
          get s.session_id (rebase_attention (some cursor) facts basis) ≡ some cursor)
        facts
unfolding rebase_attention
rebase_attention-All cursor [] basis = tt
rebase_attention-All cursor (s ∷ facts) basis = (
  rebase_attention-get cursor s.session_id facts (put s.session_id cursor basis)
      (get-put_same s.session_id cursor basis),
  rebase_attention-All cursor facts (put s.session_id cursor basis),
)

nothing_held : (id : ℕ) (x : Cursor) → get id [] ≡ some x → ⊥
unfolding get
nothing_held id x e = cc

All-append_parts {ℓ κ} :
    {A : Type ℓ} (P : A → Type κ) (xs ys : List A) → All P (xs ++ ys) → All P xs × All P ys
All-append_parts P [] ys h = (tt, h)
All-append_parts P (x ∷ xs) ys h =
    let rest = All-append_parts P xs ys h.1 in ((h.0, rest.0), rest.1)

module _ (host epoch : ℕ) (attention_at : ℕ → ℕ → HeldAttention)
    (activity_at : ℕ → ℕ → Option HeldActivity) where
  changes-AllSince :
      (cs : List AttentionChange) (d : Discovery)
      → AreDerived host epoch attention_at activity_at cs
      → All
          (λ (c : AttentionChange).
            (m : ℕ) × IsDerivedAt host epoch attention_at activity_at m c
            × IsSince host epoch attention_at activity_at c.session_id m (attention_changes cs d))
          cs
  changes-AllSince [] d h = tt
  changes-AllSince (c ∷ cs) d ((m, h), hs) = (
    (
      m,
      h,
      IsSince-changes host epoch attention_at activity_at m c.session_id cs
          (session_attention_changed c d) hs
          (delivered-IsSince host epoch attention_at activity_at m c d h),
    ),
    changes-AllSince cs (session_attention_changed c d) hs,
  )

  module _ (n : ℕ) (sessions archived : List SessionFact) (d : Discovery)
      (shown : All (Shows host epoch attention_at activity_at n) (sessions ++ archived)) where
    abbrev loaded : Discovery
    loaded = load_discovery sessions archived (some (decoded host epoch n)) d

    faithful :
        (facts : List SessionFact)
        → All (Shows host epoch attention_at activity_at n) facts
        → All (IsFaithful host epoch attention_at activity_at loaded.attention_basis) facts
    unfolding load_discovery
    faithful facts h =
        All-weaken (Shows host epoch attention_at activity_at n)
          (IsFaithful host epoch attention_at activity_at loaded.attention_basis)
          (λ (s : SessionFact) k m e.
            let same =
              rebase_attention-HoldsOnly (decoded host epoch n) (sessions ++ archived) []
                (λ id x (f : get id [] ≡ some x). absurd (nothing_held id x f)) s.session_id
                (decoded host epoch m) e in
            let at_n : n ≡ m = ground arith in
            subst (λ (x : ℕ). Shows host epoch attention_at activity_at x s) at_n k)
          facts h

    loaded-IsShown : IsShown host epoch attention_at activity_at loaded
    unfolding load_discovery
    loaded-IsShown =
        let parts =
          All-append_parts (Shows host epoch attention_at activity_at n) sessions archived shown in
        record { current = faithful sessions parts.0; archived = faithful archived parts.1 }

    -- The catalogs are loaded with the summaries that the durable state gives at their cursor, and then
    -- changes with a cursor of the same epoch, derived from the durable state, are delivered in any order:
    -- every fact shows the summary at the basis of its Session, which every Session that was loaded has,
    -- not before the cursor of the catalogs, and no basis is before a change that was delivered for it.
    pub attention_changes-latest :
        (cs : List AttentionChange)
        → AreDerived host epoch attention_at activity_at cs
        → IsShown host epoch attention_at activity_at (attention_changes cs loaded)
          × All
              (λ (s : SessionFact).
                IsSince host epoch attention_at activity_at s.session_id n
                  (attention_changes cs loaded))
              (sessions ++ archived)
          × All
              (λ (c : AttentionChange).
                (m : ℕ) × IsDerivedAt host epoch attention_at activity_at m c
                × IsSince host epoch attention_at activity_at c.session_id m
                    (attention_changes cs loaded))
              cs
    unfolding load_discovery
    attention_changes-latest cs h = (
      IsShown-changes host epoch attention_at activity_at cs loaded h loaded-IsShown,
      All-weaken
          (λ (s : SessionFact).
            get s.session_id loaded.attention_basis ≡ some (decoded host epoch n))
          (λ (s : SessionFact).
            IsSince host epoch attention_at activity_at s.session_id n
              (attention_changes cs loaded))
          (λ (s : SessionFact) e.
            IsSince-changes host epoch attention_at activity_at n s.session_id cs loaded h
              (n, omega arith, e))
          (sessions ++ archived)
          (rebase_attention-All (decoded host epoch n) (sessions ++ archived) []),
      changes-AllSince cs loaded h,
    )

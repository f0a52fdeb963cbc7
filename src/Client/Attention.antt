-- ===== src/Client/Attention.antt =====
-- The attention summaries of apps/client/src/client-store.ts, for changes that come in any order. A
-- summary is a function of the durable state that its cursor names.
use pidex.Prelude.{
  ℕ, ◌≤◌, ◌≡◌, sym, ap, subst, ◌∙◌, inl, inr, true, false, List, [], ◌∷◌, Option, none, some, arith,
  ◌==◌, update_where, All, All-updated, Bool-cases, ==_refl,
}
use pidex.Client.Discovery.{
  Cursor, garbled, decoded, cursor_precedes, HeldAttention, HeldActivity, SessionFact, Discovery,
  get, put, precedes_basis, attention_is_stale, AttentionChange, set_basis, with_attention,
  revise_catalogs, session_attention_changed,
}

pub get-put_same : (key : ℕ) (a : Cursor) (xs : List (ℕ × Cursor)) → get key (put key a xs) ≡ some a
unfolding get put
get-put_same key a [] = ground (arith, ==_refl key)
get-put_same key a ((k, b) ∷ xs) = ground (arith, get-put_same key a xs)

pub get-put_other :
    (key other : ℕ) (a : Cursor) (xs : List (ℕ × Cursor))
    → (other == key) ≡ false
    → get key (put other a xs) ≡ get key xs
unfolding get put
get-put_other key other a [] e = ground arith
get-put_other key other a ((k, b) ∷ xs) e = ground (arith, get-put_other key other a xs e)

abbrev pub attention_changes : List AttentionChange → Discovery → Discovery
attention_changes [] d = d
attention_changes (c ∷ cs) d = attention_changes cs (session_attention_changed c d)

module _ (host epoch : ℕ) (attention_at : ℕ → ℕ → HeldAttention)
    (activity_at : ℕ → ℕ → Option HeldActivity) where
  -- A change that the Host derived at some sequence.
  pub record IsDerivedAt (n : ℕ) (c : AttentionChange) : Type 0 where
    pub named : c.cursor ≡ some (decoded host epoch n)
    pub attention : c.attention ≡ attention_at c.session_id n
    pub activity : c.activity ≡ activity_at c.session_id n

  abbrev pub AreDerived : List AttentionChange → Type 0
  AreDerived [] = Unit
  AreDerived (c ∷ cs) = ((n : ℕ) × IsDerivedAt n c) × AreDerived cs

  -- The basis of a Session is at a sequence or later.
  abbrev pub IsSince : ℕ → ℕ → Discovery → Type 0
  IsSince id n d = (m : ℕ) × (n ≤ m) × (get id d.attention_basis ≡ some (decoded host epoch m))

  -- What a fact shows where its basis is at m.
  pub record Shows (m : ℕ) (s : SessionFact) : Type 0 where
    pub attention : s.attention ≡ some (attention_at s.session_id m)
    pub activity : s.activity ≡ activity_at s.session_id m

  -- A fact of the catalogs that has a basis shows the summary there.
  abbrev pub IsFaithful : List (ℕ × Cursor) → SessionFact → Type 0
  IsFaithful basis s = (m : ℕ) → get s.session_id basis ≡ some (decoded host epoch m) → Shows m s

  -- What a derived change does.
  changed_stale :
      (c : AttentionChange) (d : Discovery)
      → attention_is_stale c.session_id c.cursor d ≡ true
      → session_attention_changed c d ≡ d
  unfolding session_attention_changed
  changed_stale c d e = ground arith

  changed_fresh :
      (n : ℕ) (c : AttentionChange) (d : Discovery)
      → IsDerivedAt n c
      → attention_is_stale c.session_id c.cursor d ≡ false
      → session_attention_changed c d
        ≡ revise_catalogs c.session_id (with_attention c) (record d {
          attention_basis = put c.session_id (decoded host epoch n) d.attention_basis;
        })
  unfolding session_attention_changed set_basis
  changed_fresh n c d h e = let named = h.named in ground arith

  -- A basis that a fresh change replaces is not later.
  fresh-le :
      (n m : ℕ) (c : AttentionChange) (d : Discovery)
      → IsDerivedAt n c
      → attention_is_stale c.session_id c.cursor d ≡ false
      → get c.session_id d.attention_basis ≡ some (decoded host epoch m)
      → m ≤ n
  unfolding attention_is_stale precedes_basis cursor_precedes
  fresh-le n m c d h e b = let named = h.named in ground (arith, ==_refl host, ==_refl epoch)

  precedes_basis-lt :
      (n : ℕ) (basis : Option Cursor)
      → precedes_basis (some (decoded host epoch n)) basis ≡ true
      → (m : ℕ) × (n ≤ m) × (basis ≡ some (decoded host epoch m))
  unfolding precedes_basis cursor_precedes
  precedes_basis-lt n none e = absurd (ground arith)
  precedes_basis-lt n (some garbled) e = absurd (ground arith)
  precedes_basis-lt n (some (decoded h p m)) e = (m, ground arith, ground arith)

  -- A change that is stale has a later basis before it.
  stale-IsSince :
      (n : ℕ) (c : AttentionChange) (d : Discovery)
      → IsDerivedAt n c
      → attention_is_stale c.session_id c.cursor d ≡ true
      → IsSince c.session_id n d
  unfolding attention_is_stale
  stale-IsSince n c d h e = precedes_basis-lt n (get c.session_id d.attention_basis) (
      ap (λ (x : Option Cursor). precedes_basis x (get c.session_id d.attention_basis))
        (sym h.named)
      ∙ e)

  -- The basis behind a fresh change.
  fresh-get_same :
      (n : ℕ) (c : AttentionChange) (d : Discovery)
      → IsDerivedAt n c
      → attention_is_stale c.session_id c.cursor d ≡ false
      → get c.session_id (session_attention_changed c d).attention_basis
        ≡ some (decoded host epoch n)
  unfolding revise_catalogs
  fresh-get_same n c d h e =
      ap (λ (x : Discovery). get c.session_id x.attention_basis) (changed_fresh n c d h e)
      ∙ get-put_same c.session_id (decoded host epoch n) d.attention_basis

  fresh-get_other :
      (n id : ℕ) (c : AttentionChange) (d : Discovery)
      → IsDerivedAt n c
      → attention_is_stale c.session_id c.cursor d ≡ false
      → (c.session_id == id) ≡ false
      → get id (session_attention_changed c d).attention_basis ≡ get id d.attention_basis
  unfolding revise_catalogs
  fresh-get_other n id c d h e other =
      ap (λ (x : Discovery). get id x.attention_basis) (changed_fresh n c d h e)
      ∙ get-put_other id c.session_id (decoded host epoch n) d.attention_basis other

  -- A change that was delivered has its basis.
  pub delivered-IsSince :
      (n : ℕ) (c : AttentionChange) (d : Discovery)
      → IsDerivedAt n c
      → IsSince c.session_id n (session_attention_changed c d)
  delivered-IsSince n c d h = elim (Bool-cases (attention_is_stale c.session_id c.cursor d)) [
    | inl e ↦ subst (IsSince c.session_id n) (sym (changed_stale c d e)) (stale-IsSince n c d h e)
    | inr e ↦ (n, omega arith, fresh-get_same n c d h e)
  ]

  -- A later basis stays.
  IsSince-changed :
      (n k id : ℕ) (c : AttentionChange) (d : Discovery)
      → IsDerivedAt n c
      → IsSince id k d
      → IsSince id k (session_attention_changed c d)
  IsSince-changed n k id c d h (m, le, b) =
      elim (Bool-cases (attention_is_stale c.session_id c.cursor d)) [
        | inl e ↦ subst (IsSince id k) (sym (changed_stale c d e)) (m, le, b)
        | inr e ↦ elim (Bool-cases (c.session_id == id)) [
          | inl same ↦
              let named : c.session_id ≡ id = ground arith in
              let held : get c.session_id d.attention_basis ≡ some (decoded host epoch m) =
                ap (λ (x : ℕ). get x d.attention_basis) named ∙ b in
              let later = fresh-le n m c d h e held in
              (
                n,
                omega arith,
                ap (λ (x : ℕ). get x (session_attention_changed c d).attention_basis) (sym named)
                    ∙ fresh-get_same n c d h e,
              )
          | inr other ↦ (m, le, fresh-get_other n id c d h e other ∙ b)
        ]
      ]

  -- The catalogs show the summaries of their bases.
  pub record IsShown (d : Discovery) : Type 0 where
    pub current : All (IsFaithful d.attention_basis) d.sessions
    pub archived : All (IsFaithful d.attention_basis) d.archived_sessions

  revised-Shows :
      (n : ℕ) (c : AttentionChange) (d : Discovery) (s : SessionFact)
      → IsDerivedAt n c
      → attention_is_stale c.session_id c.cursor d ≡ false
      → (s.session_id == c.session_id) ≡ true
      → IsFaithful (session_attention_changed c d).attention_basis (with_attention c s)
  revised-Shows n c d s h e same m b =
      let named : s.session_id ≡ c.session_id = ground arith in
      let both : some (decoded host epoch n) ≡ some (decoded host epoch m) =
        sym (fresh-get_same n c d h e)
        ∙ ap (λ (x : ℕ). get x (session_attention_changed c d).attention_basis) (sym named)
        ∙ b in
      let there : n ≡ m = ground arith in
      let attention = h.attention in
      let activity = h.activity in record { attention = cc; activity = cc }

  IsFaithful-revised :
      (n : ℕ) (c : AttentionChange) (d : Discovery) (facts : List SessionFact)
      → IsDerivedAt n c
      → attention_is_stale c.session_id c.cursor d ≡ false
      → All (IsFaithful d.attention_basis) facts
      → All (IsFaithful (session_attention_changed c d).attention_basis) (
          update_where (λ (s : SessionFact). s.session_id == c.session_id) (with_attention c) facts)
  IsFaithful-revised n c d facts h e k =
      All-updated (IsFaithful d.attention_basis)
        (IsFaithful (session_attention_changed c d).attention_basis)
        (λ (s : SessionFact). s.session_id == c.session_id) (with_attention c)
        (λ (s : SessionFact) _ same. revised-Shows n c d s h e same)
        (λ (s : SessionFact) old other m b.
          let apart : (c.session_id == s.session_id) ≡ false = ground arith in
          old m (sym (fresh-get_other n s.session_id c d h e apart) ∙ b))
        facts k

  IsShown-changed :
      (n : ℕ) (c : AttentionChange) (d : Discovery)
      → IsDerivedAt n c
      → IsShown d
      → IsShown (session_attention_changed c d)
  unfolding revise_catalogs
  IsShown-changed n c d h k = elim (Bool-cases (attention_is_stale c.session_id c.cursor d)) [
    | inl e ↦ subst IsShown (sym (changed_stale c d e)) k
    | inr e ↦
        let same = changed_fresh n c d h e in
        record {
          current =
              subst (All (IsFaithful (session_attention_changed c d).attention_basis))
                (sym (ap (λ (x : Discovery). x.sessions) same))
                (IsFaithful-revised n c d d.sessions h e k.current);
          archived =
              subst (All (IsFaithful (session_attention_changed c d).attention_basis))
                (sym (ap (λ (x : Discovery). x.archived_sessions) same))
                (IsFaithful-revised n c d d.archived_sessions h e k.archived);
        }
  ]

  pub IsShown-changes :
      (cs : List AttentionChange) (d : Discovery)
      → AreDerived cs
      → IsShown d
      → IsShown (attention_changes cs d)
  IsShown-changes [] d hs k = k
  IsShown-changes (c ∷ cs) d ((n, h), hs) k =
      IsShown-changes cs (session_attention_changed c d) hs (IsShown-changed n c d h k)

  pub IsSince-changes :
      (k id : ℕ) (cs : List AttentionChange) (d : Discovery)
      → AreDerived cs
      → IsSince id k d
      → IsSince id k (attention_changes cs d)
  IsSince-changes k id [] d hs since = since
  IsSince-changes k id (c ∷ cs) d ((n, h), hs) since =
      IsSince-changes k id cs (session_attention_changed c d) hs
        (IsSince-changed n k id c d h since)

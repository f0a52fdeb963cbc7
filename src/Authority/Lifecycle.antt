-- ===== src/Authority/Lifecycle.antt =====
-- The lifecycle of a Run: the specification that the operations of packages/host/src/store.ts on
-- the table of the runs implement. Rows stay, keep what identifies them, and move along the graph
-- of the states of packages/protocol/src/status.ts.
use pidex.Prelude.{
  ◌≡◌, refl, ◌∙◌, Bool, true, false, List, [], ◌∷◌, ◌++◌, arith, All, update_where, Bool-cases, inl,
  inr,
}
use pidex.Authority.Schema.{
  Run, RunState, queued, executing, cancelling, held, completed, failed, cancelled, interrupted,
}

-- A run has ended: no state follows.
abbrev pub is_terminal : RunState → Bool
is_terminal completed = true
is_terminal failed = true
is_terminal cancelled = true
is_terminal interrupted = true
is_terminal _ = false

-- Steps of the lifecycle, any number of them.
abbrev pub leads_to : RunState → RunState → Bool
leads_to queued b = true
leads_to held b = true
leads_to executing executing = true
leads_to executing cancelling = true
leads_to executing b = is_terminal b
leads_to cancelling cancelling = true
leads_to cancelling b = is_terminal b
leads_to completed completed = true
leads_to failed failed = true
leads_to cancelled cancelled = true
leads_to interrupted interrupted = true
leads_to _ _ = false

pub leads_to_refl : (s : RunState) → leads_to s s ≡ true
leads_to_refl queued = refl
leads_to_refl _ = refl

pub leads_to_trans :
    (a b c : RunState) → leads_to a b ≡ true → leads_to b c ≡ true → leads_to a c ≡ true
leads_to_trans a b c h k = ground arith

-- One row before and after.
pub record Advances (r t : Run) : Type 0 where
  pub same_id : t.run_id ≡ r.run_id
  pub same_session : t.session_id ≡ r.session_id
  pub same_order : t.session_order ≡ r.session_order
  pub same_prompt : t.prompt ≡ r.prompt
  pub same_creation : t.created_at ≡ r.created_at
  pub lawful : leads_to r.state t.state ≡ true

-- Row by row, with any number of new rows behind.
abbrev pub Evolves : List Run → List Run → Type 0
Evolves [] ts = Unit
Evolves (r ∷ rs) [] = ⊥
Evolves (r ∷ rs) (t ∷ ts) = Advances r t × Evolves rs ts

Advances-refl : (r : Run) → Advances r r
Advances-refl r = record {
  same_id = refl;
  same_session = refl;
  same_order = refl;
  same_prompt = refl;
  same_creation = refl;
  lawful = leads_to_refl r.state;
}

Advances-trans : (r s t : Run) → Advances r s → Advances s t → Advances r t
Advances-trans r s t h k = record {
  same_id = k.same_id ∙ h.same_id;
  same_session = k.same_session ∙ h.same_session;
  same_order = k.same_order ∙ h.same_order;
  same_prompt = k.same_prompt ∙ h.same_prompt;
  same_creation = k.same_creation ∙ h.same_creation;
  lawful = leads_to_trans r.state s.state t.state h.lawful k.lawful;
}

pub Evolves-refl : (rs : List Run) → Evolves rs rs
Evolves-refl [] = tt
Evolves-refl (r ∷ rs) = (Advances-refl r, Evolves-refl rs)

pub Evolves-trans : (rs ss ts : List Run) → Evolves rs ss → Evolves ss ts → Evolves rs ts
Evolves-trans [] ss ts h k = tt
Evolves-trans (r ∷ rs) [] ts h k = absurd h
Evolves-trans (r ∷ rs) (s ∷ ss) [] h k = absurd k
Evolves-trans (r ∷ rs) (s ∷ ss) (t ∷ ts) h k =
    (Advances-trans r s t h.0 k.0, Evolves-trans rs ss ts h.1 k.1)

pub Evolves-append : (rs ts : List Run) → Evolves rs (rs ++ ts)
Evolves-append [] ts = tt
Evolves-append (r ∷ rs) ts = (Advances-refl r, Evolves-append rs ts)

-- An update that advances the rows that it takes.
pub Evolves-update_where :
    (p : Run → Bool) (f : Run → Run) (rs : List Run)
    → All (λ r. p r ≡ true → Advances r (f r)) rs
    → Evolves rs (update_where p f rs)
Evolves-update_where p f [] h = tt
Evolves-update_where p f (r ∷ rs) h = elim (Bool-cases (p r)) [
  | inl taken ↦ rw taken (h.0 taken, Evolves-update_where p f rs h.1)
  | inr left ↦ rw left (Advances-refl r, Evolves-update_where p f rs h.1)
]

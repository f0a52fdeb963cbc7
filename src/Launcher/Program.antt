-- ===== src/Launcher/Program.antt =====
-- Asynchronous code as its effects in order and its end: what the awaited hooks of packages/launcher/src
-- do, up to the first that throws.
use pidex.Prelude.{ℕ, ◌≡◌, refl, ◌⊎◌, inl, inr, List, [], ◌∷◌, ◌++◌}

-- `unfinished`: the rounds of a loop ran out.
pub data Ending {ℓ} (C : Type ℓ) : Type ℓ where
  returned unfinished : Ending C
  threw : C → Ending C

pub record Program {ℓ κ} (E : Type ℓ) (C : Type κ) : Type (ℓ ⊔ κ) where
  pub effects : List E
  pub ended : Ending C

module _ {ℓ κ} {E : Type ℓ} {C : Type κ} where
  abbrev pub finish : Program E C
  finish = record { effects = []; ended = returned }

  abbrev pub perform : E → Program E C
  perform e = record { effects = e ∷ []; ended = returned }

  abbrev pub throw : C → Program E C
  throw c = record { effects = []; ended = threw c }

  abbrev pub exhausted : Program E C
  exhausted = record { effects = []; ended = unfinished }

  infixl 5 ◌>>◌
  -- One program behind another that returned.
  abbrev pub ◌>>◌ : Program E C → Program E C → Program E C
  p >> q = elim p.ended [
    | returned ↦ record { effects = p.effects ++ q.effects; ended = q.ended }
    | unfinished ↦ p
    | threw c ↦ p
  ]

pub Ending-cases {ℓ} :
    {C : Type ℓ} (x : Ending C) → (x ≡ returned) ⊎ ((x ≡ unfinished) ⊎ ((c : C) × (x ≡ threw c)))
Ending-cases returned = inl refl
Ending-cases unfinished = inr (inl refl)
Ending-cases (threw c) = inr (inr (c, refl))

module _ {ℓ κ} {E : Type ℓ} {C : Type κ} (p q : Program E C) where
  pub then_returned :
      p.ended ≡ returned → p >> q ≡ record { effects = p.effects ++ q.effects; ended = q.ended }
  then_returned e = rw e refl

  pub then_unfinished : p.ended ≡ unfinished → p >> q ≡ p
  then_unfinished e = rw e refl

  pub then_threw : (c : C) → p.ended ≡ threw c → p >> q ≡ p
  then_threw c e = rw e refl

-- How an awaited hook behaves; an optional hook may be absent.
pub data Behaviour : Type 0 where
  returns absent : Behaviour
  throws : ℕ → Behaviour

-- ===== src/Prelude/Updates.antt =====
-- What holds of the rows of a table after an UPDATE.
use mathlib.Core.Path.{◌≡◌}
use mathlib.Core.Bool.{Bool, true, false}
use mathlib.Core.Logic.{inl, inr}
use mathlib.Core.List.{List, [], ◌∷◌}
use pidex.Prelude.Lists.{All}
use pidex.Prelude.Tests.{Bool-cases}
use pidex.Prelude.Tables.{update_where}

module _ {ℓ κ μ} {A : Type ℓ} (P : A → Type κ) (Q : A → Type μ) (q : A → Bool) (f : A → A)
    (taken : (x : A) → P x → q x ≡ true → Q (f x)) (left : (x : A) → P x → q x ≡ false → Q x) where
  pub All-updated : (xs : List A) → All P xs → All Q (update_where q f xs)
  All-updated [] h = tt
  All-updated (x ∷ xs) h = elim (Bool-cases (q x)) [
    | inl e ↦ rw e (taken x h.0 e, All-updated xs h.1)
    | inr e ↦ rw e (left x h.0 e, All-updated xs h.1)
  ]

-- ===== src/Generation/Walk.antt =====
-- The walk along the lineage of packages/host/src/authority-generation.ts (`#select`): where it ends, and that it does not.
use pidex.Prelude.{
  ℕ, zero, suc, ◌<◌, ◌≡◌, ◌≢◌, refl, inl, inr, Bool, true, false, List, [], ◌∷◌, Option, none, some,
  reverse, arith, ◌==◌, ltb, All, Option-cases,
}
use mathlib.Core.List.{reverse_aux}
use pidex.Generation.Canonical.{CanonicalEnvelope, find_predecessor, walk}
use pidex.Generation.Found.{All-find?}

-- The lineage goes down from each candidate to its predecessor.
abbrev pub goes_down : CanonicalEnvelope → Option CanonicalEnvelope → Bool
goes_down v none = true
goes_down v (some p) = ltb p.activation_index v.activation_index

abbrev pub descends : List CanonicalEnvelope → CanonicalEnvelope → Bool
descends vs v = goes_down v (find_predecessor vs v.predecessor_id)

-- The predecessor is there, and it has the property.
abbrev pub is_kept_by : (CanonicalEnvelope → Bool) → Option CanonicalEnvelope → Bool
is_kept_by p none = false
is_kept_by p (some v) = p v

All-reverse_aux {ℓ κ} :
    {A : Type ℓ} (P : A → Type κ) (xs ys : List A) → All P xs → All P ys → All P (reverse_aux xs ys)
All-reverse_aux P [] ys h k = k
All-reverse_aux P (x ∷ xs) ys h k = All-reverse_aux P xs (x ∷ ys) h.1 (h.0, k)

All-found {κ} :
    (P : CanonicalEnvelope → Type κ) (vs : List CanonicalEnvelope) (o : Option ℕ)
    (v : CanonicalEnvelope)
    → All P vs
    → find_predecessor vs o ≡ some v
    → P v
All-found P vs none v h e = absurd (cc)
All-found P vs (some id) v h e =
    All-find? P (λ (x : CanonicalEnvelope). x.generation_id == id) (reverse vs) v
      (All-reverse_aux P vs [] h tt) e

pub walk-ends :
    (fuel : ℕ) (vs : List CanonicalEnvelope) (v : CanonicalEnvelope)
    → All (λ x. descends vs x ≡ true) vs
    → descends vs v ≡ true
    → v.activation_index < fuel
    → walk fuel vs (some v) ≢ none
unfolding walk
walk-ends zero vs v h d lt = absurd (omega arith)
walk-ends (suc fuel) vs v h d lt = elim (Option-cases (find_predecessor vs v.predecessor_id)) [
  | inl e ↦ rw e (λ n. cc)
  | inr (p, e) ↦
      let below : p.activation_index < v.activation_index = ground arith in
      let rest =
        walk-ends fuel vs p h (All-found (λ x. descends vs x ≡ true) vs v.predecessor_id p h e)
          (omega arith) in
      rw e elim (Option-cases (walk fuel vs (some p))) [
        | inl k ↦ absurd (rest k)
        | inr (n, k) ↦ rw k (λ m. cc)
      ]
]

-- A set of candidates that holds the predecessor of each of its members has no root to walk to.
pub walk-loops :
    (fuel : ℕ) (vs : List CanonicalEnvelope) (p : CanonicalEnvelope → Bool) (v : CanonicalEnvelope)
    → ((x : CanonicalEnvelope)
        → p x ≡ true
        → is_kept_by p (find_predecessor vs x.predecessor_id) ≡ true)
    → p v ≡ true
    → walk fuel vs (some v) ≡ none
unfolding walk
walk-loops zero vs p v h k = refl
walk-loops (suc fuel) vs p v h k = elim (Option-cases (find_predecessor vs v.predecessor_id)) [
  | inl e ↦ absurd (ground (arith, h v k))
  | inr (q, e) ↦
      let kept : p q ≡ true = ground (arith, h v k) in rw e rw (walk-loops fuel vs p q h kept) refl
]

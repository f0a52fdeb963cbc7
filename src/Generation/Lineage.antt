-- ===== src/Generation/Lineage.antt =====
-- What `#select` of packages/host/src/authority-generation.ts has established when it returns, when its
-- walk to the root ends, and when it does not.
use pidex.Prelude.{
  ℕ, ◌≤◌, ◌<◌, ◌≡◌, ◌≢◌, ◌⊎◌, refl, ap, subst, ◌∙◌, inl, inr, Bool, true, false, List, [], ◌∷◌,
  Option, none, some, arith, ◌==◌, ltb, length, any, count, All, Bool-cases, Option-cases,
}
use pidex.Generation.Canonical.{
  release_within, CanonicalEnvelope, Directory, StoredObject, CanonicalHost, CanonicalFailure,
  never_returns, Checked, ok, bad, has_closure, envelope_fits, validate_read, validate_envelope,
  validate_directory, with_first, sealed_directories, validate_all, check_candidates, is_forked,
  is_root, higher, highest_from, find_predecessor, walk, select_checked, select_candidate,
  select_generation,
}
use pidex.Generation.Walk.{descends, is_kept_by, walk-ends, walk-loops}

-- What is known of the generation that is selected among the candidates.
pub record IsSelected (fuel : ℕ) (h : CanonicalHost) (vs : List CanonicalEnvelope)
    (v : CanonicalEnvelope) : Type 0 where
  pub newest : All (λ (x : CanonicalEnvelope). x.activation_index ≤ v.activation_index) vs
  pub compatible :
      All
        (λ (x : CanonicalEnvelope). release_within h.release x.release_min x.release_max ≡ true)
        vs
  pub unforked : any (is_forked vs) vs ≡ false
  pub one_root : count is_root vs ≡ 1
  pub whole_lineage : walk fuel vs (some v) ≡ some (length vs)

abbrev pub Ensured {ℓ κ} : {A : Type ℓ} → (A → Type κ) → Checked A → Type κ
Ensured P (ok a) = P a
Ensured P (bad e) = Unit

highest_from-newest :
    (u : CanonicalEnvelope) (vs : List CanonicalEnvelope)
    → (u.activation_index ≤ (highest_from u vs).activation_index)
      × All
          (λ (x : CanonicalEnvelope). x.activation_index ≤ (highest_from u vs).activation_index)
          vs
highest_from-newest u [] = (omega arith, tt)
highest_from-newest u (v ∷ vs) =
    let rest = highest_from-newest (higher u v) vs in
    let first = rest.0 in (ground arith, (ground arith, rest.1))

check_candidates-compatible :
    (h : CanonicalHost) (every : List CanonicalEnvelope) (seen : List ℕ)
    (vs : List CanonicalEnvelope)
    → check_candidates h every seen vs ≡ ok tt
    → All
        (λ (x : CanonicalEnvelope). release_within h.release x.release_min x.release_max ≡ true)
        vs
unfolding check_candidates
check_candidates-compatible h every seen [] e = tt
check_candidates-compatible h every seen (v ∷ vs) e = (
  ground arith,
  check_candidates-compatible h every (v.activation_index ∷ seen) vs (ground arith),
)

pub Checked-cases {ℓ} :
    {A : Type ℓ} (c : Checked A) → ((a : A) × (c ≡ ok a)) ⊎ ((e : CanonicalFailure) × (c ≡ bad e))
Checked-cases (ok a) = inl (a, refl)
Checked-cases (bad e) = inr (e, refl)

select_checked-IsSelected :
    (fuel : ℕ) (h : CanonicalHost) (vs : List CanonicalEnvelope) (v : CanonicalEnvelope)
    → All (λ (x : CanonicalEnvelope). x.activation_index ≤ v.activation_index) vs
    → All
        (λ (x : CanonicalEnvelope). release_within h.release x.release_min x.release_max ≡ true)
        vs
    → Ensured (IsSelected fuel h vs) (select_checked fuel vs v)
unfolding select_checked
select_checked-IsSelected fuel h vs v newest compatible =
    elim (Bool-cases (any (is_forked vs) vs)) [
      | inl e ↦ rw e tt
      | inr unforked ↦ elim (Bool-cases (count is_root vs == 1)) [
        | inr e ↦ rw (unforked, e) tt
        | inl root ↦
            rw (unforked, root)
              elim (Option-cases (walk fuel vs (some v))) [
                | inl e ↦ rw e tt
                | inr (n, e) ↦ rw e elim (Bool-cases (n == length vs)) [
                  | inr k ↦ rw k tt
                  | inl k ↦ rw k (record {
                    newest = newest;
                    compatible = compatible;
                    unforked = unforked;
                    one_root = ground arith;
                    whole_lineage = let same : n ≡ length vs = ground arith in e ∙ ap some same;
                  })
                ]
              ]
      ]
    ]

select_candidate-IsSelected :
    (fuel : ℕ) (h : CanonicalHost) (vs : List CanonicalEnvelope)
    → Ensured (IsSelected fuel h vs) (select_candidate fuel h vs)
unfolding select_candidate
select_candidate-IsSelected fuel h [] = tt
select_candidate-IsSelected fuel h (v ∷ vs) =
    elim (Checked-cases (check_candidates h (v ∷ vs) [] (v ∷ vs))) [
      | inr (failure, e) ↦ rw e tt
      | inl (u, e) ↦ rw e (
          select_checked-IsSelected fuel h (v ∷ vs) (highest_from v vs) (highest_from-newest v vs)
            (check_candidates-compatible h (v ∷ vs) [] (v ∷ vs) e))
    ]

-- What every candidate has passed.
abbrev pub IsClosed : CanonicalHost → List StoredObject → CanonicalEnvelope → Type 0
IsClosed h objects v = (envelope_fits v ≡ true) × (has_closure h objects v.objects ≡ true)

validate-IsClosed :
    (h : CanonicalHost) (objects : List StoredObject) (d : Directory) (o : Option CanonicalEnvelope)
    → Ensured (IsClosed h objects) (validate_read h objects d o)
unfolding validate_envelope
validate-IsClosed h objects d none = tt
validate-IsClosed h objects d (some v) = ground arith

with_first-Ensured {κ} :
    (P : CanonicalEnvelope → Type κ) (c : Checked CanonicalEnvelope)
    (r : Checked (List CanonicalEnvelope))
    → Ensured P c
    → Ensured (All P) r
    → Ensured (All P) (with_first c r)
with_first-Ensured P (bad e) r h k = tt
with_first-Ensured P (ok v) (bad e) h k = tt
with_first-Ensured P (ok v) (ok vs) h k = (h, k)

pub validate_all-IsClosed :
    (h : CanonicalHost) (objects : List StoredObject) (ds : List Directory)
    → Ensured (All (IsClosed h objects)) (validate_all h objects ds)
unfolding validate_all validate_directory
validate_all-IsClosed h objects [] = tt
validate_all-IsClosed h objects (d ∷ ds) =
    with_first-Ensured (IsClosed h objects) (validate_read h objects d d.envelope)
      (validate_all h objects ds) (validate-IsClosed h objects d d.envelope)
      (validate_all-IsClosed h objects ds)

-- The generation that is selected is the newest of the sealed ones, all of which have been validated:
-- each fits its schema, has all its objects, and admits the running release; they have one root and no
-- fork, and the walk from the selected one visits as many as there are.
pub select_generation_sound :
    (fuel : ℕ) (h : CanonicalHost) (objects : List StoredObject) (ds : List Directory)
    (v : CanonicalEnvelope)
    → select_generation fuel h objects ds ≡ ok v
    → (vs : List CanonicalEnvelope) × (validate_all h objects (sealed_directories ds) ≡ ok vs)
      × All (IsClosed h objects) vs
      × IsSelected fuel h vs v
unfolding select_generation
select_generation_sound fuel h objects ds v e =
    elim (Checked-cases (validate_all h objects (sealed_directories ds))) [
      | inr (f, k) ↦ absurd (ground arith)
      | inl (vs, k) ↦
          let chosen : select_candidate fuel h vs ≡ ok v = ground arith in
          (
            vs,
            k,
            subst (Ensured (All (IsClosed h objects))) k
                (validate_all-IsClosed h objects (sealed_directories ds)),
            subst (Ensured (IsSelected fuel h vs)) chosen (select_candidate-IsSelected fuel h vs),
          )
    ]

highest_from-All {κ} :
    (P : CanonicalEnvelope → Type κ) (u : CanonicalEnvelope) (vs : List CanonicalEnvelope)
    → P u
    → All P vs
    → P (highest_from u vs)
highest_from-All P u [] h k = h
highest_from-All P u (v ∷ vs) h k = elim (Bool-cases (ltb u.activation_index v.activation_index)) [
  | inl e ↦ rw e (highest_from-All P v vs k.0 k.1)
  | inr e ↦ rw e (highest_from-All P u vs h k.1)
]

check_candidates-returns :
    (h : CanonicalHost) (every : List CanonicalEnvelope) (seen : List ℕ)
    (vs : List CanonicalEnvelope)
    → check_candidates h every seen vs ≢ bad never_returns
unfolding check_candidates
check_candidates-returns h every seen [] e = cc
check_candidates-returns h every seen (v ∷ vs) e =
    absurd (ground (arith, check_candidates-returns h every (v.activation_index ∷ seen) vs))

select_checked-returns :
    (fuel : ℕ) (vs : List CanonicalEnvelope) (v : CanonicalEnvelope)
    → walk fuel vs (some v) ≢ none
    → select_checked fuel vs v ≢ bad never_returns
unfolding select_checked
select_checked-returns fuel vs v ends e = elim (Option-cases (walk fuel vs (some v))) [
  | inl k ↦ ends k
  | inr (n, k) ↦ absurd (ground arith)
]

select_candidate-returns :
    (fuel : ℕ) (h : CanonicalHost) (vs : List CanonicalEnvelope)
    → All (λ v. descends vs v ≡ true) vs
    → All (λ (v : CanonicalEnvelope). v.activation_index < fuel) vs
    → select_candidate fuel h vs ≢ bad never_returns
unfolding select_candidate
select_candidate-returns fuel h [] down low e = cc
select_candidate-returns fuel h (v ∷ vs) down low e =
    let every = v ∷ vs in
    let top = highest_from v vs in
    let goes = highest_from-All (λ x. descends every x ≡ true) v vs down.0 down.1 in
    let under =
      highest_from-All (λ (x : CanonicalEnvelope). x.activation_index < fuel) v vs low.0 low.1 in
    elim (Checked-cases (check_candidates h every [] every)) [
      | inl (u, k) ↦
          select_checked-returns fuel every top (walk-ends fuel every top down goes under)
            (ground arith)
      | inr (f, k) ↦ check_candidates-returns h every [] every (ground arith)
    ]

-- A lineage that goes down is walked to its end: with more fuel than the activation indexes, the
-- selection returns or throws.
pub select_generation_returns :
    (fuel : ℕ) (h : CanonicalHost) (objects : List StoredObject) (ds : List Directory)
    (vs : List CanonicalEnvelope)
    → validate_all h objects (sealed_directories ds) ≡ ok vs
    → All (λ v. descends vs v ≡ true) vs
    → All (λ (v : CanonicalEnvelope). v.activation_index < fuel) vs
    → select_generation fuel h objects ds ≢ bad never_returns
unfolding select_generation select_candidate
select_generation_returns fuel h objects ds vs e down low =
    rw e (select_candidate-returns fuel h vs down low)

-- A lineage in which the newest generation stands on a cycle passes every check before the walk, and the
-- walk goes round for ever, whatever fuel there is.
pub select_generation_never_returns :
    (fuel : ℕ) (h : CanonicalHost) (objects : List StoredObject) (ds : List Directory)
    (first : CanonicalEnvelope) (rest : List CanonicalEnvelope) (p : CanonicalEnvelope → Bool)
    → validate_all h objects (sealed_directories ds) ≡ ok (first ∷ rest)
    → check_candidates h (first ∷ rest) [] (first ∷ rest) ≡ ok tt
    → any (is_forked (first ∷ rest)) (first ∷ rest) ≡ false
    → count is_root (first ∷ rest) ≡ 1
    → ((x : CanonicalEnvelope)
        → p x ≡ true
        → is_kept_by p (find_predecessor (first ∷ rest) x.predecessor_id) ≡ true)
    → p (highest_from first rest) ≡ true
    → select_generation fuel h objects ds ≡ bad never_returns
unfolding select_generation select_candidate select_checked
select_generation_never_returns fuel h objects ds first rest p e c f r closed held =
    let loops = walk-loops fuel (first ∷ rest) p (highest_from first rest) closed held in
    rw (e, c, f, r, loops) refl

-- ===== src/Generation/Found.antt =====
-- What the scan of packages/host/src/authority-generations.ts knows of the envelopes that it finds, and how
-- one more generation changes it.
use pidex.Prelude.{
  ℕ, ◌≤◌, ◌<◌, ◌≡◌, refl, subst, sym, ◌∙◌, inl, inr, Bool, true, false, ◌&&◌, List, [], ◌∷◌, ◌++◌,
  Option, none, some, arith, ◌==◌, ltb, any, all, select, find?, All, All-append, All-weaken,
  Bool-cases, key-le-max_of, find?-append, All-weaken, ltb, Option-cases,
}
use pidex.Generation.Envelope.{Spelling, GenerationEnvelope, is_envelope}
use pidex.Generation.Scan.{
  GenerationDirectory, GenerationCandidates, finds_id, has_index, is_acceptable, take_envelope,
  entry_of, take_entries, no_candidates, enumerate, find_id, has_predecessor, has_lineage,
  is_coherent, newer, newest_from, newest_generation, index_of, highest_index,
}

-- Facts of lists.
pub all-append {ℓ} :
    {A : Type ℓ} (p : A → Bool) (xs ys : List A) → all p (xs ++ ys) ≡ all p xs && all p ys
all-append p [] ys = refl
all-append p (x ∷ xs) ys = ground (arith, all-append p xs ys)

pub all-weaken {ℓ} :
    {A : Type ℓ} (p q : A → Bool) (xs : List A)
    → ((x : A) → p x ≡ true → q x ≡ true)
    → all p xs ≡ true
    → all q xs ≡ true
all-weaken p q [] h e = refl
all-weaken p q (x ∷ xs) h e = ground (arith, h x, all-weaken p q xs h)

pub All-select {ℓ κ} :
    {A : Type ℓ} (P : A → Type κ) (p : A → Bool) (xs : List A) → All P xs → All P (select p xs)
All-select P p [] h = tt
All-select P p (x ∷ xs) h = elim (Bool-cases (p x)) [
  | inl e ↦ rw e (h.0, All-select P p xs h.1)
  | inr e ↦ rw e (All-select P p xs h.1)
]

pub All-find? {ℓ κ} :
    {A : Type ℓ} (P : A → Type κ) (p : A → Bool) (xs : List A) (x : A)
    → All P xs
    → find? p xs ≡ some x
    → P x
All-find? P p [] x h e = absurd (cc)
All-find? P p (y ∷ ys) x h e = elim (Bool-cases (p y)) [
  | inl k ↦ subst P (ground arith) h.0
  | inr k ↦ All-find? P p ys x h.1 (ground arith)
]

-- Every envelope that is found passes `isEnvelope`.
abbrev pub IsSound : Spelling → GenerationEnvelope → Type 0
IsSound w v = is_envelope w v ≡ true

take_envelope-IsSound :
    (w : Spelling) (c : GenerationCandidates) (name : ℕ) (o : Option GenerationEnvelope)
    → All (IsSound w) c.envelopes
    → All (IsSound w) (take_envelope w c name o).envelopes
unfolding take_envelope is_acceptable
take_envelope-IsSound w c name none h = h
take_envelope-IsSound w c name (some v) h = elim (Bool-cases (is_acceptable w c.envelopes name v)) [
  | inl e ↦ rw e (All-append (IsSound w) c.envelopes (v ∷ []) h (ground arith, tt))
  | inr e ↦ rw e h
]

take_entries-IsSound :
    (w : Spelling) (c : GenerationCandidates) (es : List GenerationDirectory)
    → All (IsSound w) c.envelopes
    → All (IsSound w) (take_entries w c es).envelopes
take_entries-IsSound w c [] h = h
take_entries-IsSound w c (e ∷ es) h =
    take_entries-IsSound w (take_envelope w c e.name e.envelope) es
      (take_envelope-IsSound w c e.name e.envelope h)

pub enumerate-IsSound :
    (w : Spelling) (es : List GenerationDirectory) → All (IsSound w) (enumerate w es).envelopes
unfolding enumerate
enumerate-IsSound w es = take_entries-IsSound w no_candidates es tt

-- One more directory is read last.
take_entries-append :
    (w : Spelling) (c : GenerationCandidates) (es : List GenerationDirectory)
    (e : GenerationDirectory)
    → take_entries w c (es ++ e ∷ []) ≡ take_envelope w (take_entries w c es) e.name e.envelope
take_entries-append w c [] e = refl
take_entries-append w c (x ∷ es) e =
    take_entries-append w (take_envelope w c x.name x.envelope) es e

pub enumerate-append :
    (w : Spelling) (es : List GenerationDirectory) (e : GenerationDirectory)
    → enumerate w (es ++ e ∷ []) ≡ take_envelope w (enumerate w es) e.name e.envelope
unfolding enumerate
enumerate-append w es e = take_entries-append w no_candidates es e

-- An envelope of a name and an index that were not found before is taken.
pub enumerate-new :
    (w : Spelling) (es : List GenerationDirectory) (v : GenerationEnvelope)
    → is_envelope w v ≡ true
    → finds_id v.generation_id (enumerate w es).envelopes ≡ false
    → has_index v.activation_index (enumerate w es).envelopes ≡ false
    → enumerate w (es ++ entry_of v ∷ [])
      ≡ record (enumerate w es) { envelopes = (enumerate w es).envelopes ++ v ∷ [] }
unfolding take_envelope is_acceptable
enumerate-new w es v sound new_id new_index = enumerate-append w es (entry_of v) ∙ ground arith

-- Every index that is found is at most the highest.
abbrev pub IsUpTo : ℕ → GenerationEnvelope → Type 0
IsUpTo n v = v.activation_index ≤ n

pub IsUpTo-highest : (vs : List GenerationEnvelope) → All (IsUpTo (highest_index vs)) vs
unfolding highest_index
IsUpTo-highest vs = key-le-max_of index_of vs

pub has_index-above :
    (vs : List GenerationEnvelope) (n m : ℕ) → All (IsUpTo n) vs → n < m → has_index m vs ≡ false
has_index-above [] n m h lt = refl
has_index-above (v ∷ vs) n m h lt = ground (arith, has_index-above vs n m h.1 lt)

pub highest_index-append :
    (vs : List GenerationEnvelope) (v : GenerationEnvelope)
    → highest_index vs < v.activation_index
    → highest_index (vs ++ v ∷ []) ≡ v.activation_index
unfolding highest_index
highest_index-append [] v h = omega arith
highest_index-append (x ∷ vs) v h = omega (arith, highest_index-append vs v (omega arith))

newest_from-append :
    (u : GenerationEnvelope) (vs : List GenerationEnvelope) (v : GenerationEnvelope)
    → newest_from u (vs ++ v ∷ []) ≡ newer (newest_from u vs) v
newest_from-append u [] v = refl
newest_from-append u (x ∷ vs) v = newest_from-append (newer u x) vs v

newest_from-IsUpTo :
    (n : ℕ) (u : GenerationEnvelope) (vs : List GenerationEnvelope)
    → IsUpTo n u
    → All (IsUpTo n) vs
    → IsUpTo n (newest_from u vs)
newest_from-IsUpTo n u [] h k = h
newest_from-IsUpTo n u (x ∷ vs) h k = newest_from-IsUpTo n (newer u x) vs (ground arith) k.1

-- An envelope above all others is the newest.
pub newest_generation-append :
    (n : ℕ) (vs : List GenerationEnvelope) (v : GenerationEnvelope)
    → All (IsUpTo n) vs
    → n < v.activation_index
    → newest_generation (vs ++ v ∷ []) ≡ some v
unfolding newest_generation
newest_generation-append n [] v h lt = refl
newest_generation-append n (x ∷ vs) v h lt =
    let bound = newest_from-IsUpTo n x vs h.0 h.1 in rw (newest_from-append x vs v) (ground arith)

-- A lineage is kept when one more envelope is found, and that of the new one is its own.
has_predecessor-append :
    (vs : List GenerationEnvelope) (v : GenerationEnvelope) (o : Option ℕ) (index : ℕ)
    → has_predecessor vs o index ≡ true
    → has_predecessor (vs ++ v ∷ []) o index ≡ true
has_predecessor-append vs v none index h = refl
has_predecessor-append vs v (some p) index h = elim (Option-cases (find_id p vs)) [
  | inl e ↦ absurd (ground arith)
  | inr (q, e) ↦
      ground
        (arith, find?-append (λ (x : GenerationEnvelope). x.generation_id == p) vs (v ∷ []) q e)
]

pub find?_of_any {ℓ} :
    {A : Type ℓ} (p : A → Bool) (xs : List A) → any p xs ≡ true → (x : A) × (find? p xs ≡ some x)
find?_of_any p [] h = absurd (cc)
find?_of_any p (x ∷ xs) h = elim (Bool-cases (p x)) [
  | inl e ↦ (x, ground arith)
  | inr e ↦ let (y, k) = find?_of_any p xs (ground arith) in (y, ground arith)
]

has_predecessor_found :
    (n : ℕ) (vs : List GenerationEnvelope) (v : GenerationEnvelope) (id index : ℕ)
    → All (IsUpTo n) vs
    → n < index
    → finds_id id vs ≡ true
    → has_predecessor (vs ++ v ∷ []) (some id) index ≡ true
has_predecessor_found n vs v id index k lt found =
    let (q, e) = find?_of_any (λ (x : GenerationEnvelope). x.generation_id == id) vs found in
    let below = All-find? (IsUpTo n) (λ (x : GenerationEnvelope). x.generation_id == id) vs q k e in
    ground (arith, find?-append (λ (x : GenerationEnvelope). x.generation_id == id) vs (v ∷ []) q e)

pub is_coherent-append :
    (n : ℕ) (vs : List GenerationEnvelope) (v : GenerationEnvelope) (id : ℕ)
    → is_coherent vs ≡ true
    → All (IsUpTo n) vs
    → n < v.activation_index
    → v.predecessor ≡ some id
    → finds_id id vs ≡ true
    → is_coherent (vs ++ v ∷ []) ≡ true
unfolding is_coherent
is_coherent-append n vs v id h k lt e found =
    let old =
      all-weaken (has_lineage vs) (has_lineage (vs ++ v ∷ [])) vs
        (λ (x : GenerationEnvelope). has_predecessor-append vs v x.predecessor x.activation_index)
        h in
    let new =
      subst (λ o. has_predecessor (vs ++ v ∷ []) o v.activation_index ≡ true) (sym e)
        (has_predecessor_found n vs v id v.activation_index k lt found) in
    all-append (has_lineage (vs ++ v ∷ [])) vs (v ∷ []) ∙ ground arith

newest_from-All {κ} :
    (P : GenerationEnvelope → Type κ) (u : GenerationEnvelope) (vs : List GenerationEnvelope)
    → P u
    → All P vs
    → P (newest_from u vs)
newest_from-All P u [] h k = h
newest_from-All P u (x ∷ vs) h k = elim (Bool-cases (ltb x.activation_index u.activation_index)) [
  | inl e ↦ rw e (newest_from-All P u vs h k.1)
  | inr e ↦ rw e (newest_from-All P x vs k.0 k.1)
]

-- The newest generation is one of those that are given.
pub newest_generation-All {κ} :
    (P : GenerationEnvelope → Type κ) (vs : List GenerationEnvelope) (v : GenerationEnvelope)
    → All P vs
    → newest_generation vs ≡ some v
    → P v
unfolding newest_generation
newest_generation-All P [] v h e = absurd (cc)
newest_generation-All P (x ∷ vs) v h e =
    let same : newest_from x vs ≡ v = cc in subst P same (newest_from-All P x vs h.0 h.1)

pub All-finds_id :
    (vs : List GenerationEnvelope)
    → All (λ (v : GenerationEnvelope). finds_id v.generation_id vs ≡ true) vs
All-finds_id [] = tt
All-finds_id (x ∷ vs) = (
  ground arith,
  All-weaken (λ (v : GenerationEnvelope). finds_id v.generation_id vs ≡ true)
      (λ (v : GenerationEnvelope). finds_id v.generation_id (x ∷ vs) ≡ true)
      (λ (v : GenerationEnvelope) h. ground arith) vs (All-finds_id vs),
)

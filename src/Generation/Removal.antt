-- ===== src/Generation/Removal.antt =====
-- What the removal of generations by their names does to what the scan of
-- packages/host/src/authority-generations.ts finds.
use pidex.Prelude.{
  select-append, ℕ, ◌≤◌, ◌≡◌, refl, ap, subst, sym, ◌∙◌, inl, inr, Bool, true, false, not, ◌&&◌,
  List, [], ◌∷◌, ◌++◌, Option, none, some, arith, ◌==◌, ltb, if◌then◌else◌, any, all, select,
  Bool-cases, append-nil,
}
use pidex.Generation.Envelope.{Spelling, GenerationEnvelope}
use pidex.Generation.Scan.{
  GenerationDirectory, GenerationCandidates, member, finds_id, has_index, is_acceptable,
  take_envelope, take_entries, no_candidates, enumerate, find_id, has_predecessor, has_lineage,
  is_coherent, newer, newest_from, newest_generation, highest_index,
}
use pidex.Generation.Retention.{remove_generations}

-- The generation is not among those that are removed.
abbrev pub stays : List ℕ → GenerationEnvelope → Bool
stays names v = not (member v.generation_id names)

-- The generation names one that is removed.
abbrev pub names_one : List ℕ → Option ℕ → Bool
names_one names none = false
names_one names (some p) = member p names

finds_id-select :
    (names : List ℕ) (n : ℕ) (vs : List GenerationEnvelope)
    → finds_id n vs ≡ false
    → finds_id n (select (stays names) vs) ≡ false
finds_id-select names n [] h = refl
finds_id-select names n (v ∷ vs) h = ground (arith, finds_id-select names n vs)

has_index-select :
    (names : List ℕ) (n : ℕ) (vs : List GenerationEnvelope)
    → has_index n vs ≡ false
    → has_index n (select (stays names) vs) ≡ false
has_index-select names n [] h = refl
has_index-select names n (v ∷ vs) h = ground (arith, has_index-select names n vs)

-- A scan that has met something ambiguous stays ambiguous.
take_envelope-ambiguous :
    (w : Spelling) (c : GenerationCandidates) (n : ℕ) (o : Option GenerationEnvelope)
    → c.ambiguous ≡ true
    → (take_envelope w c n o).ambiguous ≡ true
unfolding take_envelope
take_envelope-ambiguous w c n none h = refl
take_envelope-ambiguous w c n (some v) h = ground arith

take_entries-ambiguous :
    (w : Spelling) (c : GenerationCandidates) (es : List GenerationDirectory)
    → c.ambiguous ≡ true
    → (take_entries w c es).ambiguous ≡ true
take_entries-ambiguous w c [] h = h
take_entries-ambiguous w c (e ∷ es) h =
    take_entries-ambiguous w (take_envelope w c e.name e.envelope) es
      (take_envelope-ambiguous w c e.name e.envelope h)

-- The candidates of which those of some names are taken away.
abbrev pub without : List ℕ → GenerationCandidates → GenerationCandidates
without names c = record c { envelopes = select (stays names) c.envelopes }

-- An envelope that is accepted is that of its directory, and is accepted where fewer are found.
accepted-name :
    (w : Spelling) (found : List GenerationEnvelope) (n : ℕ) (v : GenerationEnvelope)
    → is_acceptable w found n v ≡ true
    → v.generation_id ≡ n
unfolding is_acceptable
accepted-name w found n v h = ground arith

accepted-without :
    (w : Spelling) (names : List ℕ) (found : List GenerationEnvelope) (n : ℕ)
    (v : GenerationEnvelope)
    → is_acceptable w found n v ≡ true
    → is_acceptable w (select (stays names) found) n v ≡ true
unfolding is_acceptable
accepted-without w names found n v h =
    ground (arith, finds_id-select names n found, has_index-select names v.activation_index found)

abbrev taken : List ℕ → GenerationCandidates → GenerationEnvelope → GenerationCandidates
taken names c v = without names (record c { envelopes = c.envelopes ++ v ∷ [] })

taken-stays :
    (names : List ℕ) (c : GenerationCandidates) (v : GenerationEnvelope)
    → taken names c v ≡ (
        if not (member v.generation_id names)
        then record (without names c) { envelopes = select (stays names) c.envelopes ++ v ∷ [] }
        else without names c)
taken-stays names c v =
    rw (select-append (stays names) c.envelopes (v ∷ []))
      elim (Bool-cases (member v.generation_id names)) [
        | inl e ↦ rw (e, append-nil (select (stays names) c.envelopes)) refl
        | inr e ↦ rw e refl
      ]

-- A directory whose envelope is taken.
take_kept :
    (w : Spelling) (names : List ℕ) (c : GenerationCandidates) (n : ℕ)
    (o : Option GenerationEnvelope)
    → (take_envelope w c n o).ambiguous ≡ false
    → (if not (member n names) then take_envelope w (without names c) n o else without names c)
      ≡ without names (take_envelope w c n o)
unfolding take_envelope
take_kept w names c n none h = absurd (cc)
take_kept w names c n (some v) h = elim (Bool-cases (is_acceptable w c.envelopes n v)) [
  | inl e ↦
      let named = accepted-name w c.envelopes n v e in
      rw e rw (accepted-without w names c.envelopes n v e) rw (taken-stays names c v) rw named refl
  | inr e ↦ absurd (ground arith)
]

take_entries-without :
    (w : Spelling) (names : List ℕ) (c : GenerationCandidates) (es : List GenerationDirectory)
    → (take_entries w c es).ambiguous ≡ false
    → take_entries w (without names c) (remove_generations names es)
      ≡ without names (take_entries w c es)
take_entries-without w names c [] h = refl
take_entries-without w names c (e ∷ es) h =
    let next = take_envelope w c e.name e.envelope in
    let rest = take_entries-without w names next es h in
    let tail = remove_generations names es in
    let Goal = λ (x : GenerationCandidates).
      take_entries w x tail ≡ without names (take_entries w next es) in
    elim (Bool-cases next.ambiguous) [
      | inl k ↦ absurd (ground (arith, take_entries-ambiguous w next es k))
      | inr k ↦ elim (Bool-cases (member e.name names)) [
        | inl m ↦
            let kept : without names c ≡ without names next =
              rw m at (take_kept w names c e.name e.envelope k) in
            rw m (subst Goal (sym kept) rest)
        | inr m ↦
            let kept : take_envelope w (without names c) e.name e.envelope ≡ without names next =
              rw m at (take_kept w names c e.name e.envelope k) in
            rw m (subst Goal (sym kept) rest)
      ]
    ]

-- The scan after a removal finds what it found before, less what was removed.
pub enumerate-remove :
    (w : Spelling) (names : List ℕ) (es : List GenerationDirectory)
    → (enumerate w es).ambiguous ≡ false
    → enumerate w (remove_generations names es) ≡ without names (enumerate w es)
unfolding enumerate
enumerate-remove w names es h = take_entries-without w names no_candidates es h

-- The lineage among those that stay.
find_id-select :
    (names : List ℕ) (n : ℕ) (vs : List GenerationEnvelope)
    → find_id n (select (stays names) vs) ≡ (if member n names then none else find_id n vs)
find_id-select names n [] = ground arith
find_id-select names n (v ∷ vs) =
    let rest = find_id-select names n vs in
    elim (Bool-cases (v.generation_id == n)) [
      | inl e ↦
          let same : v.generation_id ≡ n = ground arith in
          elim (Bool-cases (member n names)) [
            | inl m ↦ rw same rw m ground arith
            | inr m ↦ rw same rw m ground arith
          ]
      | inr e ↦ elim (Bool-cases (stays names v)) [
        | inl k ↦ rw k rw e rest
        | inr k ↦ rw k rw e rest
      ]
    ]

has_predecessor-select :
    (names : List ℕ) (vs : List GenerationEnvelope) (o : Option ℕ) (index : ℕ)
    → has_predecessor vs o index ≡ true
    → has_predecessor (select (stays names) vs) o index ≡ not (names_one names o)
has_predecessor-select names vs none index h = refl
has_predecessor-select names vs (some p) index h = rw (find_id-select names p vs) (ground arith)

-- One that stays names one that is removed.
abbrev pub orphaned : List ℕ → GenerationEnvelope → Bool
orphaned names v = stays names v && names_one names v.predecessor

lineage-select :
    (names : List ℕ) (vs xs : List GenerationEnvelope)
    → all (has_lineage vs) xs ≡ true
    → all (has_lineage (select (stays names) vs)) (select (stays names) xs)
      ≡ not (any (orphaned names) xs)
lineage-select names vs [] h = refl
lineage-select names vs (x ∷ xs) h =
    let first : has_predecessor (select (stays names) vs) x.predecessor x.activation_index
        ≡ not (names_one names x.predecessor) =
      has_predecessor-select names vs x.predecessor x.activation_index (ground arith) in
    let rest = lineage-select names vs xs (ground arith) in
    elim (Bool-cases (stays names x)) [
      | inl k ↦ rw k rw first rw rest ground arith
      | inr k ↦ rw k rest
    ]

-- What stays is coherent exactly when none of it names a removed generation.
pub is_coherent-select :
    (names : List ℕ) (vs : List GenerationEnvelope)
    → is_coherent vs ≡ true
    → is_coherent (select (stays names) vs) ≡ not (any (orphaned names) vs)
unfolding is_coherent
is_coherent-select names vs h = lineage-select names vs vs h

pub highest_index-select :
    (p : GenerationEnvelope → Bool) (vs : List GenerationEnvelope)
    → highest_index (select p vs) ≤ highest_index vs
unfolding highest_index
highest_index-select p [] = omega arith
highest_index-select p (v ∷ vs) = ground (arith, highest_index-select p vs)

-- The accumulator of the scan for the newest, with and without what is removed.
abbrev newest_after :
    Option GenerationEnvelope → List GenerationEnvelope → Option GenerationEnvelope
newest_after none vs = newest_generation vs
newest_after (some u) vs = some (newest_from u vs)

abbrev IsBelow :
    (GenerationEnvelope → Bool) → GenerationEnvelope → Option GenerationEnvelope → Type 0
IsBelow p u none = p u ≡ false
IsBelow p u (some x) = (x.activation_index ≤ u.activation_index) × (p u ≡ true → x ≡ u)

abbrev newer_of : Option GenerationEnvelope → GenerationEnvelope → GenerationEnvelope
newer_of none v = v
newer_of (some x) v = newer x v

IsBelow-kept :
    (p : GenerationEnvelope → Bool) (u v : GenerationEnvelope) (o : Option GenerationEnvelope)
    → p v ≡ true
    → IsBelow p u o
    → IsBelow p (newer u v) (some (newer_of o v))
IsBelow-kept p u v none e b = elim (Bool-cases (ltb v.activation_index u.activation_index)) [
  | inl l ↦ rw l (ground arith, λ h. absurd (ground arith))
  | inr l ↦ rw l (omega arith, λ h. refl)
]
IsBelow-kept p u v (some x) e b = elim (Bool-cases (ltb v.activation_index u.activation_index)) [
  | inl l ↦ rw l (ground arith, λ h. rw (b.1 h) rw l refl)
  | inr l ↦
      let low : ltb v.activation_index x.activation_index ≡ false = ground arith in
      rw (l, low) (omega arith, λ h. refl)
]

IsBelow-dropped :
    (p : GenerationEnvelope → Bool) (u v : GenerationEnvelope) (o : Option GenerationEnvelope)
    → p v ≡ false
    → IsBelow p u o
    → IsBelow p (newer u v) o
IsBelow-dropped p u v none e b = elim (Bool-cases (ltb v.activation_index u.activation_index)) [
  | inl l ↦ rw l b
  | inr l ↦ rw l e
]
IsBelow-dropped p u v (some x) e b = elim (Bool-cases (ltb v.activation_index u.activation_index)) [
  | inl l ↦ rw l b
  | inr l ↦ rw l (ground arith, λ h. absurd (ground arith))
]

newest_after-select :
    (p : GenerationEnvelope → Bool) (u : GenerationEnvelope) (o : Option GenerationEnvelope)
    (vs : List GenerationEnvelope)
    → IsBelow p u o
    → p (newest_from u vs) ≡ true
    → newest_after o (select p vs) ≡ some (newest_from u vs)
unfolding newest_generation
newest_after-select p u none [] b k = absurd (ground arith)
newest_after-select p u (some x) [] b k = ap some (b.1 k)
newest_after-select p u none (v ∷ vs) b k = elim (Bool-cases (p v)) [
  | inl e ↦ rw e (newest_after-select p (newer u v) (some v) vs (IsBelow-kept p u v none e b) k)
  | inr e ↦ rw e (newest_after-select p (newer u v) none vs (IsBelow-dropped p u v none e b) k)
]
newest_after-select p u (some x) (v ∷ vs) b k = elim (Bool-cases (p v)) [
  | inl e ↦
      rw e (
        newest_after-select p (newer u v) (some (newer x v)) vs (IsBelow-kept p u v (some x) e b) k)
  | inr e ↦
      rw e (newest_after-select p (newer u v) (some x) vs (IsBelow-dropped p u v (some x) e b) k)
]

-- The newest generation is still the newest, if it stays.
pub newest_generation-select :
    (p : GenerationEnvelope → Bool) (vs : List GenerationEnvelope) (v : GenerationEnvelope)
    → newest_generation vs ≡ some v
    → p v ≡ true
    → newest_generation (select p vs) ≡ some v
unfolding newest_generation
newest_generation-select p [] v e k = absurd (cc)
newest_generation-select p (u ∷ vs) v e k =
    let same : newest_from u vs ≡ v = cc in
    let held = ap p same ∙ k in
    elim (Bool-cases (p u)) [
      | inl h ↦
          rw h (newest_after-select p u (some u) vs (omega arith, λ _. refl) held ∙ ap some same)
      | inr h ↦ rw h (newest_after-select p u none vs h held ∙ ap some same)
    ]

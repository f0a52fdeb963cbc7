-- ===== src/Generation/Resolution.antt =====
-- What a scan of packages/host/src/authority-generations.ts selects, and that the next scan selects the same.
use pidex.Prelude.{
  select-All, select-append, ℕ, suc, ◌+◌, ◌≤◌, ◌<◌, ◌≡◌, refl, ap, subst, ◌∙◌, inl, inr, true,
  false, List, [], ◌∷◌, ◌++◌, none, some, arith, ◌==◌, ltb, if◌then◌else◌, select, find?, All,
  Bool-cases, Option-cases,
}
use pidex.Generation.Envelope.{Spelling, is_safe, GenerationEnvelope, max_safe_integer, is_envelope}
use pidex.Generation.Scan.{
  GenerationStore, Answer, done, failed, broken_lineage, unsafe_fallback, replace_failed,
  GenerationResolution, finds_id, enumerate, is_valid, is_coherent, newest_generation,
  highest_index, Fresh, entry_of, fallback_of, copy_for_fallback, record_scan, names_predecessor,
  fall_back, choose, found_in, valid_in, resolve,
}
use pidex.Generation.Found.{
  All-select, IsSound, enumerate-IsSound, enumerate-new, IsUpTo, IsUpTo-highest, has_index-above,
  highest_index-append, newest_generation-append, is_coherent-append, newest_generation-All,
  All-finds_id,
}

-- A scan finds nothing to repair: the newest of the valid generations is the newest of all.
pub record IsSettled (w : Spelling) (s : GenerationStore) (v : GenerationEnvelope) : Type 0 where
  pub clear : (enumerate w s.generations).ambiguous ≡ false
  pub coherent : is_coherent (valid_in w s) ≡ true
  pub newest : newest_generation (valid_in w s) ≡ some v
  pub highest : highest_index (found_in w s) ≤ v.activation_index

-- A new generation can be named and numbered.
pub record IsFresh (w : Spelling) (s : GenerationStore) (fresh : Fresh) : Type 0 where
  pub safe : is_safe w fresh.id ≡ true
  pub unused : finds_id fresh.id (found_in w s) ≡ false
  pub room : suc (highest_index (found_in w s)) ≤ max_safe_integer

-- A condition on what is given, where something is given.
abbrev pub Ensures {ℓ κ} : {A : Type ℓ} → (GenerationStore → A → Type κ) → Answer A → Type κ
Ensures P (done s a) = P s a
Ensures P (failed s e) = Unit

-- What holds when a scan of `s` ends with the store and the resolution.
pub record IsResolved (w : Spelling) (s s' : GenerationStore) (r : GenerationResolution)
    : Type 0 where
  pub settled : IsSettled w s' r.selected
  pub selector : s'.selector ≡ some r.selected.generation_id
  pub same_objects : s'.objects ≡ s.objects
  pub unchanged : r.warning ≡ none → s'.generations ≡ s.generations
  pub counted : s'.scan_number ≡ s.scan_number + 1

-- The scan of a settled store selects without a warning and changes no generation.
pub resolve-settled :
    (w : Spelling) (fresh : Fresh) (s : GenerationStore) (v : GenerationEnvelope)
    → IsSettled w s v
    → resolve w fresh s
      ≡ done (record_scan (valid_in w s) v s) (record { selected = v; warning = none })
unfolding resolve choose
resolve-settled w fresh s v h = ground arith

pub resolve-incoherent :
    (w : Spelling) (fresh : Fresh) (s : GenerationStore)
    → (enumerate w s.generations).ambiguous ≡ false
    → is_coherent (valid_in w s) ≡ false
    → resolve w fresh s ≡ failed s broken_lineage
unfolding resolve
resolve-incoherent w fresh s clear broken = ground arith

-- Recording a scan changes nothing that a scan reads.
pub record_scan-IsSettled :
    (w : Spelling) (s : GenerationStore) (valid : List GenerationEnvelope) (v : GenerationEnvelope)
    → IsSettled w s v
    → IsSettled w (record_scan valid v s) v
unfolding record_scan found_in valid_in
record_scan-IsSettled w s valid v h = record {
  clear = h.clear;
  coherent = h.coherent;
  newest = h.newest;
  highest = h.highest;
}

-- One more generation, behind one that is valid.
pub record IsSuccessor (w : Spelling) (s : GenerationStore) (v : GenerationEnvelope) : Type 0 where
  pub sound : is_envelope w v ≡ true
  pub unused : finds_id v.generation_id (found_in w s) ≡ false
  pub above : highest_index (found_in w s) < v.activation_index
  pub predecessor : ℕ
  pub names : v.predecessor ≡ some predecessor
  pub known : finds_id predecessor (valid_in w s) ≡ true
  pub closed : is_valid w s.objects v ≡ true

module _ (w : Spelling) (s : GenerationStore) (v : GenerationEnvelope)
    (new : IsSuccessor w s v) where
  enumerate-successor :
      enumerate w (s.generations ++ entry_of v ∷ [])
      ≡ record (enumerate w s.generations) { envelopes = found_in w s ++ v ∷ [] }
  unfolding found_in
  enumerate-successor =
      let free =
        has_index-above (found_in w s) (highest_index (found_in w s)) v.activation_index
          (IsUpTo-highest (found_in w s)) new.above in
      enumerate-new w s.generations v new.sound new.unused free

  valid-successor : select (is_valid w s.objects) (found_in w s ++ v ∷ []) ≡ valid_in w s ++ v ∷ []
  unfolding valid_in
  valid-successor =
      let closed = new.closed in
      select-append (is_valid w s.objects) (found_in w s) (v ∷ []) ∙ ground arith

  valid-IsUpTo : All (IsUpTo (highest_index (found_in w s))) (valid_in w s)
  unfolding valid_in
  valid-IsUpTo =
      All-select (IsUpTo (highest_index (found_in w s))) (is_valid w s.objects) (found_in w s)
        (IsUpTo-highest (found_in w s))

  -- It is the newest of the store that holds it.
  pub successor-IsSettled :
      (t : GenerationStore)
      → t.generations ≡ s.generations ++ entry_of v ∷ []
      → t.objects ≡ s.objects
      → (enumerate w s.generations).ambiguous ≡ false
      → is_coherent (valid_in w s) ≡ true
      → IsSettled w t v
  successor-IsSettled t gens objs clear coherent =
      let scan : enumerate w t.generations
          ≡ record (enumerate w s.generations) { envelopes = found_in w s ++ v ∷ [] } =
        ap (enumerate w) gens ∙ enumerate-successor in
      let found : found_in w t ≡ found_in w s ++ v ∷ [] =
        unfold found_in in ap (λ c. c.envelopes) scan in
      let valid : valid_in w t ≡ valid_in w s ++ v ∷ [] =
        unfold valid_in in
        (ap (λ (os : List ℕ). select (is_valid w os) (found_in w t)) objs
          ∙ ap (select (is_valid w s.objects)) found
          ∙ valid-successor) in
      let n = highest_index (found_in w s) in
      record {
        clear = ap (λ c. c.ambiguous) scan ∙ clear;
        coherent =
            ap is_coherent valid
            ∙ is_coherent-append n (valid_in w s) v new.predecessor coherent valid-IsUpTo new.above
                new.names new.known;
        newest =
            ap newest_generation valid
            ∙ newest_generation-append n (valid_in w s) v valid-IsUpTo new.above;
        highest =
            let top = highest_index-append (found_in w s) v new.above in
            let same = ap highest_index found in omega arith;
      }

module _ (w : Spelling) (fresh : Fresh) (s : GenerationStore)
    (clear : (enumerate w s.generations).ambiguous ≡ false)
    (coherent : is_coherent (valid_in w s) ≡ true) where
  valid-IsSound : All (IsSound w) (valid_in w s)
  unfolding valid_in found_in
  valid-IsSound =
      All-select (IsSound w) (is_valid w s.objects) (found_in w s)
        (enumerate-IsSound w s.generations)

  valid_closed : All (λ v. is_valid w s.objects v ≡ true) (valid_in w s)
  unfolding valid_in
  valid_closed = select-All (is_valid w s.objects) (found_in w s)

  copy-IsSuccessor :
      (source : GenerationEnvelope)
      → IsFresh w s fresh
      → newest_generation (valid_in w s) ≡ some source
      → IsSuccessor w s (fallback_of fresh source (highest_index (found_in w s) + 1))
  unfolding is_envelope is_valid
  copy-IsSuccessor source new e =
      let sound = newest_generation-All (IsSound w) (valid_in w s) source valid-IsSound e in
      let closed =
        newest_generation-All (λ v. is_valid w s.objects v ≡ true) (valid_in w s) source
          valid_closed e in
      record {
        sound = ground (arith, new.safe, new.room);
        unused = new.unused;
        above = omega arith;
        predecessor = source.generation_id;
        names = refl;
        known =
            newest_generation-All (λ v. finds_id v.generation_id (valid_in w s) ≡ true)
              (valid_in w s) source (All-finds_id (valid_in w s)) e;
        closed = closed;
      }

  -- The copy for a fallback is the newest generation, and it is valid.
  copy-IsSettled :
      (source failed_ : GenerationEnvelope)
      → IsFresh w s fresh
      → newest_generation (valid_in w s) ≡ some source
      → IsSettled w
          (copy_for_fallback fresh source failed_ (highest_index (found_in w s) + 1) s)
          (fallback_of fresh source (highest_index (found_in w s) + 1))
  unfolding copy_for_fallback
  copy-IsSettled source failed_ new e =
      successor-IsSettled w s (fallback_of fresh source (highest_index (found_in w s) + 1))
        (copy-IsSuccessor source new e)
        (copy_for_fallback fresh source failed_ (highest_index (found_in w s) + 1) s) refl refl
        clear coherent

  settled-IsResolved :
      (v : GenerationEnvelope)
      → newest_generation (valid_in w s) ≡ some v
      → ltb v.activation_index (highest_index (found_in w s)) ≡ false
      → IsResolved w s (record_scan (valid_in w s) v s) (record { selected = v; warning = none })
  unfolding record_scan
  settled-IsResolved v e top = record {
    settled =
        record_scan-IsSettled w s (valid_in w s) v
          (record { clear = clear; coherent = coherent; newest = e; highest = ground arith });
    selector = refl;
    same_objects = refl;
    unchanged = λ _. refl;
    counted = refl;
  }

  replaced-IsResolved :
      (v failed_ : GenerationEnvelope)
      → IsFresh w s fresh
      → newest_generation (valid_in w s) ≡ some v
      → Ensures
          (IsResolved w s)
          (replace_failed fresh s (valid_in w s) v failed_ (highest_index (found_in w s) + 1))
  unfolding record_scan copy_for_fallback
  replaced-IsResolved v failed_ new e =
      let n = highest_index (found_in w s) + 1 in
      record {
        settled =
            record_scan-IsSettled w (copy_for_fallback fresh v failed_ n s) (valid_in w s)
              (fallback_of fresh v n) (copy-IsSettled v failed_ new e);
        selector = refl;
        same_objects = refl;
        unchanged = λ h. absurd (cc);
        counted = refl;
      }

  fall_back-IsResolved :
      (v : GenerationEnvelope)
      → IsFresh w s fresh
      → newest_generation (valid_in w s) ≡ some v
      → Ensures (IsResolved w s) (fall_back fresh s (found_in w s) (valid_in w s) v)
  unfolding fall_back
  fall_back-IsResolved v new e =
      let highest = highest_index (found_in w s) in
      elim (find? (λ (x : GenerationEnvelope). x.activation_index == highest) (found_in w s))
        as (λ o. Ensures (IsResolved w s) (elim o [
          | none ↦ failed s unsafe_fallback
          | some failed_ ↦
              if names_predecessor failed_ v
              then replace_failed fresh s (valid_in w s) v failed_ (highest + 1)
              else failed s unsafe_fallback
        ])) [
          | none ↦ tt
          | some failed_ ↦ elim (Bool-cases (names_predecessor failed_ v)) [
            | inl k ↦ rw k (replaced-IsResolved v failed_ new e)
            | inr k ↦ rw k tt
          ]
        ]

  choose-IsResolved :
      IsFresh w s fresh → Ensures (IsResolved w s) (choose fresh s (found_in w s) (valid_in w s))
  unfolding choose
  choose-IsResolved new = elim (Option-cases (newest_generation (valid_in w s))) [
    | inl e ↦ rw (e, choose, Ensures) tt
    | inr (v, e) ↦ elim (Bool-cases (ltb v.activation_index (highest_index (found_in w s)))) [
      | inl low ↦ rw (e, choose, low) (fall_back-IsResolved v new e)
      | inr top ↦ rw (e, choose, top) (settled-IsResolved v e top)
    ]
  ]

-- What `resolve` gives, if it gives something.
pub resolve-IsResolved :
    (w : Spelling) (fresh : Fresh) (s : GenerationStore)
    → IsFresh w s fresh
    → Ensures (IsResolved w s) (resolve w fresh s)
unfolding resolve
resolve-IsResolved w fresh s new = elim (Bool-cases (enumerate w s.generations).ambiguous) [
  | inl e ↦ rw e tt
  | inr clear ↦ elim (Bool-cases (is_coherent (valid_in w s))) [
    | inl coherent ↦ rw (clear, coherent) (choose-IsResolved w fresh s clear coherent new)
    | inr e ↦ rw (clear, e) tt
  ]
]

-- The generation that a scan selects is the one that the selector names, and the scan after it, however
-- it names its generations, selects the same one, with no warning and no change of the generations.
pub resolve_twice :
    (w : Spelling) (fresh later : Fresh) (s s' : GenerationStore) (r : GenerationResolution)
    → IsFresh w s fresh
    → resolve w fresh s ≡ done s' r
    → (s'.selector ≡ some r.selected.generation_id)
      × (resolve w later s'
          ≡ done
              (record_scan (valid_in w s') r.selected s')
              (record { selected = r.selected; warning = none }))
resolve_twice w fresh later s s' r new e =
    let resolved = subst (Ensures (IsResolved w s)) e (resolve-IsResolved w fresh s new) in
    (resolved.selector, resolve-settled w later s' r.selected resolved.settled)

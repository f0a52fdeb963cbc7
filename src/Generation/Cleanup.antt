-- ===== src/Generation/Cleanup.antt =====
-- What `cleanup` of packages/host/src/authority-generations.ts keeps, and what the scan after it finds.
use pidex.Prelude.{
  All-of_any, ℕ, ◌≡◌, refl, ap, subst, sym, ◌∙◌, inl, inr, Bool, true, false, not, ◌&&◌, List, [],
  ◌∷◌, ◌++◌, Option, none, some, arith, ◌==◌, if◌then◌else◌, any, all, select, All, All-weaken,
  Bool-cases,
}
use pidex.Generation.Envelope.{Spelling, is_safe, GenerationEnvelope}
use pidex.Generation.Scan.{
  GenerationStore, RecoveryWarning, broken_lineage, done, failed, member, finds_id, enumerate,
  is_valid, is_coherent, found_in, valid_in, resolve, Fresh, record_scan, newest_generation,
  highest_index,
}
use pidex.Generation.Retention.{
  CleanupResult, retained, failed_generations, option_list, is_disposable, ids_of, is_pinned,
  cleanup,
}
use pidex.Generation.Resolution.{Ensures, IsSettled, resolve-settled, resolve-incoherent}
use pidex.Generation.Removal.{
  stays, orphaned, without, enumerate-remove, is_coherent-select, highest_index-select,
  newest_generation-select,
}
use pidex.Generation.Cleaned.{IsCleaned, cleanup-IsCleaned}

-- A name that is retained is not deleted.
not_deleted :
    (s : GenerationStore) (selected : GenerationEnvelope) (n : ℕ) (vs : List GenerationEnvelope)
    → member n (retained s selected) ≡ true
    → member n (ids_of (select (is_disposable s selected) vs)) ≡ false
unfolding is_disposable
not_deleted s selected n [] h = refl
not_deleted s selected n (v ∷ vs) h =
    let rest = not_deleted s selected n vs h in
    elim (Bool-cases (is_disposable s selected v)) [
      | inl e ↦ rw e elim (Bool-cases (v.generation_id == n)) [
        | inl f ↦
            let same : v.generation_id ≡ n = ground arith in
            let held = subst (λ x. member x (retained s selected) ≡ true) (sym same) h in
            absurd (ground arith)
        | inr f ↦ rw f rest
      ]
      | inr e ↦ rw e rest
    ]

member-select :
    (p : ℕ → Bool) (o : ℕ) (os : List ℕ)
    → p o ≡ true
    → member o os ≡ true
    → member o (select p os) ≡ true
member-select p o [] k h = absurd (cc)
member-select p o (x ∷ os) k h = elim (Bool-cases (x == o)) [
  | inl e ↦
      let same : x ≡ o = ground arith in
      let held = subst (λ y. p y ≡ true) (sym same) k in rw (held, e) refl
  | inr e ↦
      let rest = member-select p o os k (ground arith) in
      elim (Bool-cases (p x)) [ inl f ↦ rw (f, e) rest | inr f ↦ rw f rest ]
]

abbrev Pinned : List ℕ → List GenerationEnvelope → GenerationEnvelope → Type 0
Pinned names vs v =
    (o : ℕ) → stays names v ≡ true → member o v.objects ≡ true → is_pinned names vs o ≡ true

-- The objects of a generation that stays are pinned.
pinned : (names : List ℕ) (vs : List GenerationEnvelope) → All (Pinned names vs) vs
pinned names [] = tt
pinned names (x ∷ vs) = (
  (λ o k m. ground arith),
  All-weaken (Pinned names vs) (Pinned names (x ∷ vs))
      (λ (v : GenerationEnvelope) h o k m. ground (arith, h o k m)) vs (pinned names vs),
)

all-member :
    (p q : ℕ → Bool) (os : List ℕ)
    → ((o : ℕ) → member o os ≡ true → p o ≡ true → q o ≡ true)
    → all p os ≡ true
    → all q os ≡ true
all-member p q [] h k = refl
all-member p q (x ∷ os) h k =
    let first = h x (ground arith) (ground arith) in
    let rest = all-member p q os (λ o m e. h o (ground arith) e) (ground arith) in ground arith

all-true : (ns : List ℕ) → all (λ n. true) ns ≡ true
all-true [] = refl
all-true (n ∷ ns) = all-true ns

All-both {ℓ κ μ} :
    {A : Type ℓ} (P : A → Type κ) (Q : A → Type μ) (xs : List A)
    → All P xs
    → All Q xs
    → All (λ x. P x × Q x) xs
All-both P Q [] h k = tt
All-both P Q (x ∷ xs) h k = ((h.0, k.0), All-both P Q xs h.1 k.1)

All-guarded {ℓ κ} :
    {A : Type ℓ} (p : A → Bool) (P : A → Type κ) (xs : List A)
    → All (λ x. p x ≡ true → P x) xs
    → All P (select p xs)
All-guarded p P [] h = tt
All-guarded p P (x ∷ xs) h = elim (Bool-cases (p x)) [
  | inl e ↦ rw e (h.0 e, All-guarded p P xs h.1)
  | inr e ↦ rw e (All-guarded p P xs h.1)
]

select_of_All {ℓ} :
    {A : Type ℓ} (p : A → Bool) (xs : List A) → All (λ x. p x ≡ true) xs → select p xs ≡ xs
select_of_All p [] h = refl
select_of_All p (x ∷ xs) h = rw h.0 (ap (◌∷◌ x) (select_of_All p xs h.1))

finds_id_kept :
    (names : List ℕ) (n : ℕ) (vs : List GenerationEnvelope)
    → finds_id n vs ≡ true
    → not (member n names) ≡ true
    → finds_id n (select (stays names) vs) ≡ true
finds_id_kept names n [] h k = absurd (cc)
finds_id_kept names n (v ∷ vs) h k = elim (Bool-cases (v.generation_id == n)) [
  | inl e ↦
      let same : v.generation_id ≡ n = ground arith in
      let held : stays names v ≡ true = subst (λ x. not (member x names) ≡ true) (sym same) k in
      rw (held, e) refl
  | inr e ↦
      let rest = finds_id_kept names n vs (ground arith) k in
      elim (Bool-cases (stays names v)) [ inl f ↦ rw (f, e) rest | inr f ↦ rw f rest ]
]

module _ (w : Spelling) (s s' : GenerationStore) (r : CleanupResult) (c : IsCleaned w s s' r) where
  scan_after : enumerate w s'.generations ≡ without r.generations (enumerate w s.generations)
  scan_after =
      ap (enumerate w) c.generations ∙ enumerate-remove w r.generations s.generations c.clear

  pub found_after : found_in w s' ≡ select (stays r.generations) (found_in w s)
  unfolding found_in
  found_after = ap (λ x. x.envelopes) scan_after

  retained_stays : all (λ n. not (member n r.generations)) (retained s c.selected) ≡ true
  retained_stays =
      all-member (λ n. true) (λ n. not (member n r.generations)) (retained s c.selected)
        (λ n h e.
          let gone : member n r.generations ≡ false =
            ap (member n) c.deleted ∙ not_deleted s c.selected n (found_in w s) h in
          ground arith)
        (all-true (retained s c.selected))

  valid_at : All (λ v. stays r.generations v ≡ true → is_valid w s'.objects v ≡ true) (found_in w s)
  unfolding is_valid
  valid_at =
      All-weaken
        (λ (v : GenerationEnvelope).
          (not (is_valid w s.objects v) ≡ false) × Pinned r.generations (found_in w s) v)
        (λ (v : GenerationEnvelope). stays r.generations v ≡ true → is_valid w s'.objects v ≡ true)
        (λ (v : GenerationEnvelope) h stay.
          all-member (λ o. is_safe w o && member o s.objects)
            (λ o. is_safe w o && member o s'.objects) v.objects
            (λ o inside held.
              let kept : member o s'.objects ≡ true =
                ap (member o) c.objects
                ∙ member-select (is_pinned r.generations (found_in w s)) o s.objects
                    (h.1 o stay inside) (ground arith) in
              ground arith)
            (ground arith))
        (found_in w s)
        (All-both (λ (v : GenerationEnvelope). not (is_valid w s.objects v) ≡ false)
          (Pinned r.generations (found_in w s)) (found_in w s)
          (All-of_any (λ v. not (is_valid w s.objects v)) (found_in w s) c.valid)
          (pinned r.generations (found_in w s)))

  found_valid_after : All (λ v. is_valid w s'.objects v ≡ true) (found_in w s')
  found_valid_after = subst (All (λ v. is_valid w s'.objects v ≡ true)) (sym found_after) (
      All-guarded (stays r.generations) (λ v. is_valid w s'.objects v ≡ true) (found_in w s)
        valid_at)

  pub valid_after : valid_in w s' ≡ found_in w s'
  unfolding valid_in
  valid_after = select_of_All (is_valid w s'.objects) (found_in w s') found_valid_after

  coherent_after : is_coherent (valid_in w s') ≡ not (any (orphaned r.generations) (found_in w s))
  coherent_after =
      ap is_coherent (valid_after ∙ found_after)
      ∙ is_coherent-select r.generations (found_in w s) c.coherent

  retained_found :
      (ns : List ℕ)
      → all (λ n. finds_id n (found_in w s)) ns ≡ true
      → all (λ n. not (member n r.generations)) ns ≡ true
      → all (λ n. finds_id n (found_in w s')) ns ≡ true
  retained_found [] h k = refl
  retained_found (n ∷ ns) h k =
      let kept =
        ap (finds_id n) found_after
        ∙ finds_id_kept r.generations n (found_in w s) (ground arith) (ground arith) in
      let rest = retained_found ns (ground arith) (ground arith) in ground arith

  selected_stays : not (member c.selected.generation_id r.generations) ≡ true
  unfolding retained
  selected_stays = let kept = retained_stays in ground arith

  valid_before : valid_in w s ≡ found_in w s
  unfolding valid_in
  valid_before = select_of_All (is_valid w s.objects) (found_in w s) (
      All-weaken (λ (v : GenerationEnvelope). not (is_valid w s.objects v) ≡ false)
        (λ (v : GenerationEnvelope). is_valid w s.objects v ≡ true)
        (λ (v : GenerationEnvelope) h. ground arith) (found_in w s)
        (All-of_any (λ v. not (is_valid w s.objects v)) (found_in w s) c.valid))

  newest_after :
      (v : GenerationEnvelope)
      → newest_generation (valid_in w s) ≡ some v
      → s.selector ≡ some v.generation_id
      → newest_generation (valid_in w s') ≡ some v
  newest_after v newest named =
      let same : c.selected.generation_id ≡ v.generation_id =
        let both = sym c.selector ∙ named in cc in
      ap newest_generation (valid_after ∙ found_after)
      ∙ newest_generation-select (stays r.generations) (found_in w s) v
          (ap newest_generation (sym valid_before) ∙ newest)
          (subst (λ n. not (member n r.generations) ≡ true) same selected_stays)

-- A generation of this name is found.
abbrev pub Finds : List GenerationEnvelope → ℕ → Type 0
Finds vs n = finds_id n vs ≡ true

-- What a cleanup keeps: each name that is spared is found after it, and the objects of all that is found
-- are there.
pub record IsSpared (s : GenerationStore) (found : List GenerationEnvelope) (objects : List ℕ)
    : Type 0 where
  pub selected : GenerationEnvelope
  pub selector : s.selector ≡ some selected.generation_id
  pub itself : Finds found selected.generation_id
  pub predecessor : (n : ℕ) → selected.predecessor ≡ some n → Finds found n
  pub warned : All (λ (x : RecoveryWarning). Finds found x.failed_generation) s.warnings
  pub held : All (Finds found) s.holds
  pub protected : All (Finds found) s.protected_
  pub complete :
      All (λ (v : GenerationEnvelope). All (λ (o : ℕ). member o objects ≡ true) v.objects) found

All-append_left {ℓ κ} :
    {A : Type ℓ} (P : A → Type κ) (xs ys : List A) → All P (xs ++ ys) → All P xs × All P ys
All-append_left P [] ys h = (tt, h)
All-append_left P (x ∷ xs) ys h = let rest = All-append_left P xs ys h.1 in ((h.0, rest.0), rest.1)

All-of_all : (p : ℕ → Bool) (ns : List ℕ) → all p ns ≡ true → All (λ n. p n ≡ true) ns
All-of_all p [] h = tt
All-of_all p (n ∷ ns) h = (ground arith, All-of_all p ns (ground arith))

warnings_found :
    (found : List GenerationEnvelope) (ws : List RecoveryWarning)
    → All (Finds found) (failed_generations ws)
    → All (λ (x : RecoveryWarning). Finds found x.failed_generation) ws
warnings_found found [] h = tt
warnings_found found (x ∷ ws) h = (h.0, warnings_found found ws h.1)

predecessor_found :
    (found : List GenerationEnvelope) (o : Option ℕ)
    → All (Finds found) (option_list o)
    → (n : ℕ) → o ≡ some n
    → Finds found n
predecessor_found found none h n e = absurd (cc)
predecessor_found found (some m) h n e =
    let same : m ≡ n = ground arith in subst (Finds found) same h.0

is_valid-objects :
    (w : Spelling) (objects : List ℕ) (v : GenerationEnvelope)
    → is_valid w objects v ≡ true
    → All (λ (o : ℕ). member o objects ≡ true) v.objects
unfolding is_valid
is_valid-objects w objects v h =
    All-weaken (λ o. (is_safe w o && member o objects) ≡ true) (λ o. member o objects ≡ true)
      (λ o k. ground arith) v.objects
      (All-of_all (λ o. is_safe w o && member o objects) v.objects h)

-- A cleanup that returns has kept the generation that the selector names, its predecessor, and every
-- generation that a warning, a hold or a protection names: the scan of the directories finds each of them,
-- and whatever generation it finds has all its objects.
pub cleanup-keeps :
    (w : Spelling) (s s' : GenerationStore) (r : CleanupResult)
    → cleanup w s ≡ done s' r
    → IsSpared s (found_in w s') s'.objects
unfolding retained
cleanup-keeps w s s' r e =
    let c = subst (Ensures (IsCleaned w s)) e (cleanup-IsCleaned w s) in
    let found = found_in w s' in
    let kept =
      All-of_all (λ n. finds_id n found) (retained s c.selected)
        (retained_found w s s' r c (retained s c.selected) c.known (retained_stays w s s' r c)) in
    let lineage = option_list c.selected.predecessor in
    let names = failed_generations s.warnings in
    let behind =
      All-append_left (Finds found) lineage (names ++ (s.holds ++ s.protected_)) kept.1 in
    let marked = All-append_left (Finds found) names (s.holds ++ s.protected_) behind.1 in
    let both = All-append_left (Finds found) s.holds s.protected_ marked.1 in
    record {
      selected = c.selected;
      selector = c.selector;
      itself = kept.0;
      predecessor = predecessor_found found c.selected.predecessor behind.0;
      warned = warnings_found found s.warnings marked.0;
      held = both.0;
      protected = both.1;
      complete =
          All-weaken (λ (v : GenerationEnvelope). is_valid w s'.objects v ≡ true)
            (λ (v : GenerationEnvelope). All (λ (o : ℕ). member o s'.objects ≡ true) v.objects)
            (λ (v : GenerationEnvelope) h. is_valid-objects w s'.objects v h) found
            (found_valid_after w s s' r c);
    }

-- The scan that follows a cleanup of a settled store selects the generation that was selected, unless the
-- cleanup has kept a generation and deleted its predecessor: then it throws, and the Authority has no
-- generation to start from.
pub resolve_after_cleanup :
    (w : Spelling) (fresh : Fresh) (s s' : GenerationStore) (v : GenerationEnvelope)
    (r : CleanupResult)
    → IsSettled w s v
    → s.selector ≡ some v.generation_id
    → cleanup w s ≡ done s' r
    → resolve w fresh s' ≡ (
        if any (orphaned r.generations) (found_in w s)
        then failed s' broken_lineage
        else done (record_scan (valid_in w s') v s') (record { selected = v; warning = none }))
resolve_after_cleanup w fresh s s' v r settled named e =
    let c = subst (Ensures (IsCleaned w s)) e (cleanup-IsCleaned w s) in
    elim (Bool-cases (any (orphaned r.generations) (found_in w s))) [
      | inl k ↦ rw k (
          resolve-incoherent w fresh s' (ap (λ x. x.ambiguous) (scan_after w s s' r c) ∙ c.clear)
            (coherent_after w s s' r c ∙ ap not k))
      | inr k ↦ rw k (
          resolve-settled w fresh s' v (record {
            clear = ap (λ x. x.ambiguous) (scan_after w s s' r c) ∙ c.clear;
            coherent = coherent_after w s s' r c ∙ ap not k;
            newest = newest_after w s s' r c v settled.newest named;
            highest =
                let less = highest_index-select (stays r.generations) (found_in w s) in
                let same = ap highest_index (found_after w s s' r c) in
                let bound = settled.highest in omega arith;
          }))
    ]

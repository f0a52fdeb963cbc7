-- ===== src/Generation/Cleaned.antt =====
-- What `cleanup` of packages/host/src/authority-generations.ts establishes when it returns.
use pidex.Prelude.{
  ℕ, ◌≡◌, refl, ap, sym, ◌∙◌, inl, inr, true, false, not, Option, none, some, arith, ◌==◌, any, all,
  select, Bool-cases, Option-cases, find?_sound,
}
use pidex.Generation.Envelope.{Spelling, GenerationEnvelope}
use pidex.Generation.Scan.{
  GenerationStore, finds_id, find_id, enumerate, is_valid, is_coherent, found_in,
}
use pidex.Generation.Retention.{
  CleanupResult, retained, is_disposable, ids_of, is_pinned, remove_generations, dispose,
  clean_selected, clean_named, cleanup,
}
use pidex.Generation.Resolution.{Ensures}

-- What a cleanup has checked and done when it returns.
pub record IsCleaned (w : Spelling) (s s' : GenerationStore) (r : CleanupResult) : Type 0 where
  pub clear : (enumerate w s.generations).ambiguous ≡ false
  pub valid : any (λ v. not (is_valid w s.objects v)) (found_in w s) ≡ false
  pub coherent : is_coherent (found_in w s) ≡ true
  pub selected : GenerationEnvelope
  pub selector : s.selector ≡ some selected.generation_id
  pub known : all (λ n. finds_id n (found_in w s)) (retained s selected) ≡ true
  pub deleted : r.generations ≡ ids_of (select (is_disposable s selected) (found_in w s))
  pub generations : s'.generations ≡ remove_generations r.generations s.generations
  pub objects : s'.objects ≡ select (is_pinned r.generations (found_in w s)) s.objects

module _ (w : Spelling) (s : GenerationStore)
    (clear : (enumerate w s.generations).ambiguous ≡ false)
    (valid : any (λ v. not (is_valid w s.objects v)) (found_in w s) ≡ false)
    (coherent : is_coherent (found_in w s) ≡ true) where
  clean_selected-IsCleaned :
      (selected : GenerationEnvelope)
      → s.selector ≡ some selected.generation_id
      → Ensures (IsCleaned w s) (clean_selected (found_in w s) selected s)
  unfolding clean_selected dispose
  clean_selected-IsCleaned selected e =
      elim (Bool-cases (all (λ n. finds_id n (found_in w s)) (retained s selected))) [
        | inl h ↦ rw h (record {
          clear = clear;
          valid = valid;
          coherent = coherent;
          selected = selected;
          selector = e;
          known = h;
          deleted = refl;
          generations = refl;
          objects = refl;
        })
        | inr h ↦ rw h tt
      ]

  clean_named-IsCleaned :
      (o : Option ℕ) → s.selector ≡ o → Ensures (IsCleaned w s) (clean_named (found_in w s) s o)
  clean_named-IsCleaned none e = tt
  clean_named-IsCleaned (some id) e = elim (Option-cases (find_id id (found_in w s))) [
    | inl k ↦ rw k tt
    | inr (selected, k) ↦
        let found =
          find?_sound (λ (v : GenerationEnvelope). v.generation_id == id) (found_in w s) k in
        let named : selected.generation_id ≡ id = ground arith in
        rw k (clean_selected-IsCleaned selected (e ∙ ap some (sym named)))
  ]

pub cleanup-IsCleaned : (w : Spelling) (s : GenerationStore) → Ensures (IsCleaned w s) (cleanup w s)
unfolding cleanup found_in
cleanup-IsCleaned w s = elim (Bool-cases (s.scan_number == 0)) [
  | inl e ↦ rw e tt
  | inr started ↦ elim (Bool-cases (enumerate w s.generations).ambiguous) [
    | inl e ↦ rw (started, e) tt
    | inr clear ↦ elim (Bool-cases (any (λ v. not (is_valid w s.objects v)) (found_in w s))) [
      | inl e ↦ rw (started, clear, e) tt
      | inr valid ↦ elim (Bool-cases (is_coherent (found_in w s))) [
        | inl coherent ↦
            rw (started, clear, valid, coherent)
              (clean_named-IsCleaned w s clear valid coherent s.selector refl)
        | inr e ↦ rw (started, clear, valid, e) tt
      ]
    ]
  ]
]

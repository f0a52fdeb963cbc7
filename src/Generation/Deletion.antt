-- ===== src/Generation/Deletion.antt =====
-- When `deleteLegacy` of packages/host/src/authority-generation.ts removes the legacy authority, and what
-- it leaves where it refuses.
use pidex.Prelude.{
  ℕ, ◌≡◌, ◌≢◌, refl, ap, subst, ◌∙◌, inl, inr, true, false, List, [], Option, none, some, arith,
  ◌==◌, length, any, Bool-cases,
}
use pidex.Generation.Canonical.{
  CanonicalEnvelope, CanonicalHost, cleanup_proof_stale, ok, sealed_directories, validate_all,
  select_generation,
}
use pidex.Generation.Lineage.{Checked-cases}
use pidex.Generation.Legacy.{
  LegacyCleanupProof, CanonicalStore, CanonicalRun, finished, stopped, check_evidence, ids_of_all,
  deletable, deletion_ids, validate_legacy_deletion, same_ids, same_proof, delete_proven,
  delete_legacy,
}

-- The canonical lineage that a deletion needs: the first and the cleanup generation, both validated, the
-- latter selected, and no evidence or hold beside them.
pub record IsDeletable (fuel : ℕ) (h : CanonicalHost) (s : CanonicalStore) (ids : List ℕ)
    : Type 0 where
  pub selected : CanonicalEnvelope
  pub candidates : List CanonicalEnvelope
  pub is_selected : select_generation fuel h s.objects s.directories ≡ ok selected
  pub is_validated : validate_all h s.objects (sealed_directories s.directories) ≡ ok candidates
  pub selected_index : selected.activation_index ≡ 2
  pub two : length candidates ≡ 2
  pub first : any (λ (x : CanonicalEnvelope). x.activation_index == 1) candidates ≡ true
  pub no_evidence : check_evidence (sealed_directories s.directories) ≡ ok tt
  pub proven : ids ≡ ids_of_all candidates

-- Nothing of the legacy authority, of the generations or of their objects is changed.
pub record IsUntouched (s s' : CanonicalStore) : Type 0 where
  pub legacy : s'.legacy ≡ s.legacy
  pub blobs : s'.blobs ≡ s.blobs
  pub directories : s'.directories ≡ s.directories
  pub objects : s'.objects ≡ s.objects

module _ (fuel : ℕ) (h : CanonicalHost) (s : CanonicalStore) where
  deletable_of :
      (v : CanonicalEnvelope) (vs : List CanonicalEnvelope) (ids : List ℕ)
      → select_generation fuel h s.objects s.directories ≡ ok v
      → validate_all h s.objects (sealed_directories s.directories) ≡ ok vs
      → deletable s.directories vs v ≡ ok ids
      → IsDeletable fuel h s ids
  unfolding deletable
  deletable_of v vs ids e k d =
      elim (Checked-cases (check_evidence (sealed_directories s.directories))) [
        | inr (f, c) ↦ absurd (ground arith)
        | inl (u, c) ↦ record {
          selected = v;
          candidates = vs;
          is_selected = e;
          is_validated = k;
          selected_index = ground arith;
          two = ground arith;
          first = ground arith;
          no_evidence = c;
          proven = ground arith;
        }
      ]

  deletion_ids-IsDeletable :
      (ids : List ℕ) → deletion_ids fuel h s ≡ ok ids → IsDeletable fuel h s ids
  unfolding deletion_ids
  deletion_ids-IsDeletable ids e =
      elim (Checked-cases (select_generation fuel h s.objects s.directories)) [
        | inr (f, k) ↦ absurd (ground arith)
        | inl (v, k) ↦
            elim (Checked-cases (validate_all h s.objects (sealed_directories s.directories))) [
              | inr (f, c) ↦ absurd (ground arith)
              | inl (vs, c) ↦ deletable_of v vs ids k c (ground arith)
            ]
      ]

-- A deletion: refused, it leaves everything but the proof as it was.
abbrev pub IsDeletion :
    ℕ → CanonicalHost → ℕ → LegacyCleanupProof → CanonicalStore → CanonicalRun (Unit {0}) → Type 0
IsDeletion fuel h nonce proof s (stopped s' e) = IsUntouched s s'
IsDeletion fuel h nonce proof s (finished s' u) =
    (durable : LegacyCleanupProof) × (s.proof ≡ some durable)
    × (same_proof durable proof ≡ true)
    × (ids : List ℕ) × IsDeletable fuel h s ids
    × (same_ids ids proof.generation_ids ≡ true)
    × (s' ≡ record s {
      legacy = none;
      blobs = [];
      proof = some (record { nonce = nonce; generation_ids = ids });
    })

untouched : (s : CanonicalStore) → IsUntouched s s
untouched s = record { legacy = refl; blobs = refl; directories = refl; objects = refl }

module _ (fuel : ℕ) (h : CanonicalHost) (nonce : ℕ) (proof : LegacyCleanupProof)
    (s : CanonicalStore) where
  delete_proven-IsDeletion :
      (o : Option LegacyCleanupProof)
      → s.proof ≡ o
      → IsDeletion fuel h nonce proof s (delete_proven fuel h nonce proof s o)
  unfolding validate_legacy_deletion
  delete_proven-IsDeletion none e = untouched s
  delete_proven-IsDeletion (some durable) e = elim (Bool-cases (same_proof durable proof)) [
    | inr k ↦ rw k (untouched s)
    | inl k ↦ rw k elim (Checked-cases (deletion_ids fuel h s)) [
      | inr (f, c) ↦ rw c (untouched s)
      | inl (ids, c) ↦ rw c elim (Bool-cases (same_ids ids proof.generation_ids)) [
        | inr m ↦ rw m (record { legacy = refl; blobs = refl; directories = refl; objects = refl })
        | inl m ↦ rw m (durable, e, k, ids, deletion_ids-IsDeletable fuel h s ids c, m, refl)
      ]
    ]
  ]

  -- The legacy authority is removed only with the proof that was written last, while the first and the
  -- cleanup generation are the only sealed ones, both valid, the latter selected, with neither a hold nor
  -- evidence of a failure, and with the identities of the proof; then it and its blobs are gone and
  -- nothing else is but the proof. Where the deletion is refused, the legacy authority, the generations
  -- and their objects are untouched.
  pub delete_legacy-IsDeletion :
      IsDeletion fuel h nonce proof s (delete_legacy fuel h nonce proof s)
  unfolding delete_legacy
  delete_legacy-IsDeletion = delete_proven-IsDeletion s.proof refl

-- A proof serves once: after a deletion, which writes a proof with a nonce of its own, the same proof is
-- stale.
pub delete_legacy_twice :
    (fuel fuel' : ℕ) (h : CanonicalHost) (nonce nonce' : ℕ) (proof : LegacyCleanupProof)
    (s s' : CanonicalStore)
    → nonce ≢ proof.nonce
    → delete_legacy fuel h nonce proof s ≡ finished s' tt
    → delete_legacy fuel' h nonce' proof s' ≡ stopped s' cleanup_proof_stale
unfolding delete_legacy
delete_legacy_twice fuel fuel' h nonce nonce' proof s s' other e =
    let deleted =
      subst (IsDeletion fuel h nonce proof s) e (delete_legacy-IsDeletion fuel h nonce proof s) in
    let (durable, p, k, ids, d, m, same) = deleted in
    let differs : (nonce == proof.nonce) ≡ false = ground arith in
    let written = ap (λ (x : CanonicalStore). x.proof) same in
    ap (delete_proven fuel' h nonce' proof s') written ∙ ground arith

-- ===== src/Generation/Migration.antt =====
-- What `migrateLegacy` of packages/host/src/authority-generation.ts leaves for the bridge, on every path.
use pidex.Prelude.{
  select-append, ℕ, ◌≡◌, refl, ap, subst, sym, ◌∙◌, ◌⊎◌, inl, inr, Bool, true, false, List, [], ◌∷◌,
  ◌++◌, Option, none, some, arith, Bool-cases,
}
use pidex.Generation.Transition.{TransitionEnd, refused, published_then_threw, completed}
use pidex.Generation.Canonical.{
  CanonicalEnvelope, CanonicalHost, CanonicalFailure, publication_failed, backup_failed, Checked,
  ok, bad, Directory, sealed_directories, select_generation, validate_directory,
}
use pidex.Generation.Lineage.{Checked-cases}
use pidex.Generation.Legacy.{
  BlobEntry, CanonicalStore, CanonicalRun, finished, stopped, run_on, Opened, canonical,
  legacy_authority, open_canonical, has_none, is_unsealed, create_genesis_envelope, directory_of,
  stage_of, add_directory, publish_valid, publish_generation, open_bridge, validate_bridge,
  is_sound_blob, add_object, with_name, publish_blobs, sorted, MigrationInput, publish_migrated,
  migrate_database, migrate_legacy,
}

-- The legacy authority is as it was.
pub record IsKept (s s' : CanonicalStore) : Type 0 where
  pub legacy : s'.legacy ≡ s.legacy
  pub blobs : s'.blobs ≡ s.blobs

abbrev pub opens_legacy : CanonicalRun Opened → Bool
opens_legacy (finished s legacy_authority) = true
opens_legacy (finished s (canonical id)) = false
opens_legacy (stopped s e) = false

-- A migration that returns has opened what the bridge opens from then on; one that throws has changed
-- nothing, or keeps the bridge from the legacy authority.
abbrev pub IsMigration : ℕ → CanonicalHost → CanonicalStore → CanonicalRun Opened → Type 0
IsMigration fuel h s (finished s' o) = IsKept s s' × (open_bridge fuel h s' ≡ finished s' o)
IsMigration fuel h s (stopped s' e) =
    IsKept s s' × ((s' ≡ s) ⊎ (opens_legacy (open_bridge fuel h s') ≡ false))

-- The legacy authority is as it was, and the migration has begun.
pub record IsFrozen (s s' : CanonicalStore) : Type 0 where
  pub kept : IsKept s s'
  pub frozen : s'.frozen ≡ true

open_canonical-legacy :
    (fuel : ℕ) (h : CanonicalHost) (s : CanonicalStore)
    → opens_legacy (open_canonical fuel h s) ≡ false
unfolding open_canonical
open_canonical-legacy fuel h s =
    elim (Checked-cases (select_generation fuel h s.objects s.directories)) [
      | inl (v, e) ↦ rw e refl
      | inr (f, e) ↦ rw e refl
    ]

frozen-legacy :
    (fuel : ℕ) (h : CanonicalHost) (s : CanonicalStore)
    → s.frozen ≡ true
    → opens_legacy (open_bridge fuel h s) ≡ false
unfolding open_bridge
frozen-legacy fuel h s e = elim (Bool-cases (is_unsealed s)) [
  | inl k ↦ ground arith
  | inr k ↦ rw k (open_canonical-legacy fuel h s)
]

-- A sealed store keeps the bridge from the legacy authority.
sealed-legacy :
    (fuel : ℕ) (h : CanonicalHost) (s : CanonicalStore)
    → is_unsealed s ≡ false
    → opens_legacy (open_bridge fuel h s) ≡ false
unfolding open_bridge
sealed-legacy fuel h s e = rw e (open_canonical-legacy fuel h s)

-- What a sealed store opens, the bridge opens again.
open_canonical-IsMigration :
    (fuel : ℕ) (h : CanonicalHost) (s t : CanonicalStore)
    → IsKept s t
    → is_unsealed t ≡ false
    → IsMigration fuel h s (open_canonical fuel h t)
unfolding open_canonical open_bridge
open_canonical-IsMigration fuel h s t kept has =
    elim (Checked-cases (select_generation fuel h t.objects t.directories)) [
      | inl (v, e) ↦ rw e (record { legacy = kept.legacy; blobs = kept.blobs }, rw has rw e refl)
      | inr (f, e) ↦ rw e (kept, inr (sealed-legacy fuel h t has))
    ]

abbrev store_of_run {ℓ} : {A : Type ℓ} → CanonicalRun A → CanonicalStore
store_of_run (finished s a) = s
store_of_run (stopped s e) = s

with_name-store :
    (n : ℕ) (r : CanonicalRun (List ℕ)) → store_of_run (with_name n r) ≡ store_of_run r
with_name-store n (finished s ns) = refl
with_name-store n (stopped s e) = refl

publish_blobs-IsFrozen :
    (h : CanonicalHost) (bs : List BlobEntry) (s t : CanonicalStore)
    → IsFrozen s t
    → IsFrozen s (store_of_run (publish_blobs h bs t))
unfolding publish_blobs
publish_blobs-IsFrozen h [] s t f = f
publish_blobs-IsFrozen h (b ∷ bs) s t f = elim (Bool-cases (is_sound_blob h b)) [
  | inr e ↦ rw e f
  | inl e ↦
      let next : IsFrozen s (add_object b t) = record {
        kept = record { legacy = f.kept.legacy; blobs = f.kept.blobs };
        frozen = f.frozen;
      } in
      rw e (
        subst (IsFrozen s) (sym (with_name-store b.name (publish_blobs h bs (add_object b t))))
          (publish_blobs-IsFrozen h bs s (add_object b t) next))
]

has_none-append {ℓ} : {A : Type ℓ} (xs : List A) (x : A) → has_none (xs ++ x ∷ []) ≡ false
has_none-append [] x = refl
has_none-append (y ∷ ys) x = refl

added-IsSealed :
    (v : CanonicalEnvelope) (s : CanonicalStore) → is_unsealed (add_directory v s) ≡ false
added-IsSealed v s =
    ap has_none (select-append (λ (d : Directory). d.has_seal) s.directories (directory_of v ∷ []))
    ∙ has_none-append (sealed_directories s.directories) (directory_of v)

module _ (fuel : ℕ) (h : CanonicalHost) (s : CanonicalStore) where
  stopped-IsMigration :
      (t : CanonicalStore) (e : CanonicalFailure)
      → IsFrozen s t
      → IsMigration fuel h s (stopped t e)
  stopped-IsMigration t e f = (f.kept, inr (frozen-legacy fuel h t f.frozen))

  publish_valid-IsMigration :
      (ends : TransitionEnd) (v : CanonicalEnvelope) (t : CanonicalStore)
      (c : Checked CanonicalEnvelope)
      → IsFrozen s t
      → IsMigration fuel h s (run_on (publish_valid ends v t c) (λ t' _. open_canonical fuel h t'))
  publish_valid-IsMigration ends v t (bad e) f = stopped-IsMigration t e f
  publish_valid-IsMigration refused v t (ok u) f = stopped-IsMigration t publication_failed f
  publish_valid-IsMigration published_then_threw v t (ok u) f =
      stopped-IsMigration (add_directory v t) publication_failed (record {
        kept = record { legacy = f.kept.legacy; blobs = f.kept.blobs };
        frozen = f.frozen;
      })
  publish_valid-IsMigration completed v t (ok u) f =
      open_canonical-IsMigration fuel h s (add_directory v t)
        (record { legacy = f.kept.legacy; blobs = f.kept.blobs }) (added-IsSealed v t)

  names-IsMigration :
      (m : MigrationInput) (r : CanonicalRun (List ℕ))
      → IsFrozen s (store_of_run r)
      → IsMigration fuel h s (
          run_on r (λ s1 names.
            run_on
              (publish_generation h m.ends (create_genesis_envelope h m.new_id (sorted names)) s1)
              (λ s2 _. open_canonical fuel h s2)))
  unfolding publish_generation
  names-IsMigration m (stopped t e) f = stopped-IsMigration t e f
  names-IsMigration m (finished t names) f =
      let v = create_genesis_envelope h m.new_id (sorted names) in
      publish_valid-IsMigration m.ends v t (validate_directory h t.objects (stage_of v)) f

  migrate_database-IsMigration :
      (m : MigrationInput) (o : Option Bool) → IsMigration fuel h s (migrate_database fuel h m s o)
  unfolding publish_migrated
  migrate_database-IsMigration m none = (record { legacy = refl; blobs = refl }, inl refl)
  migrate_database-IsMigration m (some false) = (record { legacy = refl; blobs = refl }, inl refl)
  migrate_database-IsMigration m (some true) =
      let t : CanonicalStore = record s { frozen = true } in
      let begun : IsFrozen s t = record {
        kept = record { legacy = refl; blobs = refl };
        frozen = refl;
      } in
      elim (Bool-cases m.backup_returns) [
        | inl e ↦ rw e (
            names-IsMigration m (publish_blobs h s.blobs t)
              (publish_blobs-IsFrozen h s.blobs s t begun))
        | inr e ↦ rw e (stopped-IsMigration t backup_failed begun)
      ]

  -- A migration leaves the legacy database and blobs as they were. If it returns, it has opened the
  -- generation that the bridge opens from then on; if it throws, either nothing has changed or the bridge
  -- no longer opens the legacy authority, so that no change is made to it after it was copied.
  pub migrate_legacy-IsMigration :
      (m : MigrationInput) → IsMigration fuel h s (migrate_legacy fuel h m s)
  unfolding migrate_legacy
  migrate_legacy-IsMigration m = elim (Bool-cases (is_unsealed s)) [
    | inr has ↦
        rw has (open_canonical-IsMigration fuel h s s (record { legacy = refl; blobs = refl }) has)
    | inl e ↦ rw e elim (Checked-cases (validate_bridge m.bridge)) [
      | inr (f, k) ↦ rw k (record { legacy = refl; blobs = refl }, inl refl)
      | inl (u, k) ↦ rw k (migrate_database-IsMigration m s.legacy)
    ]
  ]

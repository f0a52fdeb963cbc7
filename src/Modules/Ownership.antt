-- ===== src/Modules/Ownership.antt =====
-- Who owns the contributions that `ModuleKernel.register` of packages/host/src/module-kernel.ts admits.
use pidex.Prelude.{
  Text, ℕ, ◌≡◌, refl, sym, ap, subst, ◌⊎◌, ◌∙◌, Bool, true, false, List, [], ◌∷◌, ◌++◌, arith, any,
  all, inl, inr,
}
use pidex.Modules.Kernel.{includes}
use pidex.Modules.Registry.{
  StorageFamily, ModuleManifest, Registry, RegistrationResult, RegistrationError, registered,
  refused, is_module_id, contributions, is_owned, are_contiguous, check_storage, has_id, is_free,
  with_manifest, register, close_registration,
}

-- A call of the host while it starts.
pub data Call : Type 0 where
  registers : ModuleManifest → Call
  closes : Call

abbrev kept : Registry → RegistrationResult → Registry
kept r (registered s) = s
kept r (refused e) = r

abbrev pub after_call : Call → Registry → Registry
after_call (registers m) r = kept r (register m r)
after_call closes r = close_registration r

abbrev pub after_calls : List Call → Registry → Registry
after_calls [] r = r
after_calls (c ∷ cs) r = after_calls cs (after_call c r)

abbrev pub names_of : List ModuleManifest → List Text
names_of [] = []
names_of (m ∷ ms) = contributions m ++ names_of ms

abbrev has_contiguous : StorageFamily → Bool
has_contiguous f = are_contiguous 0 f.migrations

-- What a manifest fulfils beside those before it.
pub record IsAdmitted (major : ℕ) (m : ModuleManifest) (others : List ModuleManifest) : Type 0 where
  pub named : is_module_id m.id ≡ true
  pub unique : any (has_id m.id) others ≡ false
  pub compatible : m.major ≡ major
  pub owned : all (is_owned m.id) (contributions m) ≡ true
  pub separate : any (λ (n : Text). includes n (names_of others)) (contributions m) ≡ false
  pub migrates : all has_contiguous m.storage ≡ true

abbrev pub AreAdmitted : ℕ → List ModuleManifest → Type 0
AreAdmitted major [] = Unit
AreAdmitted major (m ∷ ms) = IsAdmitted major m ms × AreAdmitted major ms

pub record IsRegistry (r : Registry) : Type 0 where
  pub contributed : r.contribution_names ≡ names_of r.manifests
  pub admitted : AreAdmitted r.host_major r.manifests

all_free-owned :
    (r : Registry) (id : Text) (names : List Text)
    → all (is_free r id) names ≡ true
    → (all (is_owned id) names ≡ true)
      × (any (λ (n : Text). includes n r.contribution_names) names ≡ false)
all_free-owned r id [] h = (refl, refl)
all_free-owned r id (n ∷ ns) h = ground (arith, all_free-owned r id ns)

check_storage-registered :
    (id : Text) (fs : List StorageFamily) (r s : Registry)
    → check_storage id fs r ≡ registered s
    → (s ≡ r) × (all has_contiguous fs ≡ true)
unfolding check_storage
check_storage-registered id [] r s e = ground arith
check_storage-registered id (f ∷ fs) r s e = ground (arith, check_storage-registered id fs r s)

register-registered :
    (m : ModuleManifest) (r s : Registry)
    → register m r ≡ registered s
    → (is_module_id m.id ≡ true)
      × (any (has_id m.id) r.manifests ≡ false)
      × (m.major ≡ r.host_major)
      × (all (is_free r m.id) (contributions m) ≡ true)
      × (check_storage m.id m.storage (with_manifest m r) ≡ registered s)
unfolding register
register-registered m r s e = ground arith

Result-cases :
    (x : RegistrationResult)
    → ((s : Registry) × (x ≡ registered s)) ⊎ ((e : RegistrationError) × (x ≡ refused e))
Result-cases (registered s) = inl (s, refl)
Result-cases (refused e) = inr (e, refl)

register-IsRegistry :
    (m : ModuleManifest) (r s : Registry)
    → register m r ≡ registered s
    → IsRegistry r
    → IsRegistry s
register-IsRegistry m r s e h =
    let (named, unique, compatible, free, stored) = register-registered m r s e in
    let (same, migrates) = check_storage-registered m.id m.storage (with_manifest m r) s stored in
    let (owned, separate) = all_free-owned r m.id (contributions m) free in
    subst IsRegistry (sym same) (record {
      contributed = ap (λ (ns : List Text). contributions m ++ ns) h.contributed;
      admitted = (
        record {
          named = named;
          unique = unique;
          compatible = compatible;
          owned = owned;
          separate =
              ap (λ (ns : List Text). any (λ (n : Text). includes n ns) (contributions m))
                (sym h.contributed)
              ∙ separate;
          migrates = migrates;
        },
        h.admitted,
      );
    })

call-IsRegistry : (c : Call) (r : Registry) → IsRegistry r → IsRegistry (after_call c r)
unfolding close_registration
call-IsRegistry (registers m) r h = elim (Result-cases (register m r)) [
  | inl (s, e) ↦ rw e (register-IsRegistry m r s e h)
  | inr (e, f) ↦ rw f h
]
call-IsRegistry closes r h = record { contributed = h.contributed; admitted = h.admitted }

calls_from-IsRegistry :
    (cs : List Call) (r : Registry) → IsRegistry r → IsRegistry (after_calls cs r)
calls_from-IsRegistry [] r h = h
calls_from-IsRegistry (c ∷ cs) r h =
    calls_from-IsRegistry cs (after_call c r) (call-IsRegistry c r h)

abbrev pub new_registry : ℕ → Registry
new_registry major = record {
  host_major = major;
  is_closed = false;
  manifests = [];
  contribution_names = [];
}

-- After any calls on a new kernel: every manifest has a namespaced identity of its own, is compatible
-- with the Host, contributes names below its identity that no manifest before it contributes, and has
-- contiguous migrations from zero; and the names that are taken are those of the manifests.
pub after_calls-IsRegistry :
    (cs : List Call) (major : ℕ) → IsRegistry (after_calls cs (new_registry major))
after_calls-IsRegistry cs major =
    calls_from-IsRegistry cs (new_registry major) (record { contributed = refl; admitted = tt })

closed_call :
    (c : Call) (r : Registry) → r.is_closed ≡ true → after_call c r ≡ record r { is_closed = true }
unfolding register close_registration
closed_call c r h = ground arith

-- Once the registration is closed, nothing is registered any more.
after_calls_closed :
    (cs : List Call) (r : Registry)
    → r.is_closed ≡ true
    → (after_calls cs r).manifests ≡ r.manifests
after_calls_closed [] r h = refl
after_calls_closed (c ∷ cs) r h =
    let same = closed_call c r h in
    after_calls_closed cs (after_call c r) (ap (λ (x : Registry). x.is_closed) same)
    ∙ ap (λ (x : Registry). x.manifests) same

-- ===== src/Modules/Registry.antt =====
-- `ModuleKernel.register` and `ready` of packages/host/src/module-kernel.ts, up to the readiness of the
-- kernel. Sets and maps are lists, latest first; the functions of a manifest are left out.
use pidex.Prelude.{
  Text, text_eq, codes, ℕ, ◌+◌, Bool, true, false, not, ◌&&◌, ◌||◌, List, [], ◌∷◌, ◌++◌, map, ◌==◌,
  leb, if◌then◌else◌, any, all,
}
use pidex.Modules.Kernel.{includes, slash, starts_with}

pub record StorageMigration : Type 0 where
  pub from : ℕ
  pub to : ℕ

pub record StorageFamily : Type 0 where
  pub name : Text
  pub sqlite_namespace : Text
  pub blob_kinds : List Text
  pub migrations : List StorageMigration

-- Of a resource kind and a contribution to the interface, the name.
pub record ModuleManifest : Type 0 where
  pub id : Text
  pub major : ℕ
  pub resource_kinds : List Text
  pub protocol_families : List Text
  pub capabilities : List Text
  pub storage : List StorageFamily
  pub diagnostics : List Text
  pub lifecycle_services : List Text
  pub ui : List Text

pub record Registry : Type 0 where
  pub host_major : ℕ
  pub is_closed : Bool
  pub manifests : List ModuleManifest
  pub contribution_names : List Text

pub data RegistrationError : Type 0 where
  closed not_namespaced duplicate_module incompatible_host invalid_contribution : RegistrationError
  foreign_namespace migrations_not_contiguous : RegistrationError

pub data RegistrationResult : Type 0 where
  registered : Registry → RegistrationResult
  refused : RegistrationError → RegistrationResult

abbrev pub is_lower : ℕ → Bool
is_lower c = leb 97 c && leb c 122

abbrev pub is_name_code : ℕ → Bool
is_name_code c = is_lower c || ((leb 48 c && leb c 57) || (c == 45))

abbrev pub dot : ℕ
dot = 46

-- /^([a-z][a-z0-9-]*\.)+[a-z][a-z0-9-]*$/, at the start of a segment or in it, behind a dot or not
unfoldable pub is_id_rest : Bool → Bool → Text → Bool
is_id_rest at_start dotted [] = not at_start && dotted
is_id_rest true dotted (c ∷ cs) = let rest = is_id_rest false dotted cs in is_lower c && rest
is_id_rest false dotted (c ∷ cs) =
    let segment = is_id_rest true true cs in
    let rest = is_id_rest false dotted cs in if c == dot then segment else is_name_code c && rest

unfoldable pub is_module_id : Text → Bool
unfolding is_id_rest
is_module_id id = is_id_rest true false id

abbrev pub blob_kinds_of : List StorageFamily → List Text
blob_kinds_of [] = []
blob_kinds_of (f ∷ fs) = f.blob_kinds ++ blob_kinds_of fs

unfoldable pub contributions : ModuleManifest → List Text
contributions m =
    m.resource_kinds
    ++ (m.protocol_families
        ++ (m.capabilities
            ++ (map (λ (f : StorageFamily). f.name) m.storage
                ++ (blob_kinds_of m.storage ++ (m.diagnostics ++ (m.lifecycle_services ++ m.ui))))))

abbrev pub is_owned : Text → Text → Bool
is_owned id name = starts_with name (id ++ slash ∷ [])

-- `id.replaceAll(".", "_")`, and two underscores
abbrev pub namespace_prefix : Text → Text
namespace_prefix [] = codes "__"
namespace_prefix (c ∷ cs) = (if c == dot then 95 else c) ∷ namespace_prefix cs

unfoldable pub are_contiguous : ℕ → List StorageMigration → Bool
are_contiguous version [] = true
are_contiguous version (m ∷ ms) =
    let rest = are_contiguous m.to ms in (m.from == version) && ((m.to == version + 1) && rest)

-- The first family that is refused decides the error.
unfoldable pub check_storage : Text → List StorageFamily → Registry → RegistrationResult
unfolding are_contiguous
check_storage id [] r = registered r
check_storage id (f ∷ fs) r =
    let rest = check_storage id fs r in
    if not (starts_with f.sqlite_namespace (namespace_prefix id))
    then refused foreign_namespace
    else if not (are_contiguous 0 f.migrations)
    then refused migrations_not_contiguous
    else rest

abbrev pub has_id : Text → ModuleManifest → Bool
has_id id m = text_eq id m.id

abbrev pub is_free : Registry → Text → Text → Bool
is_free r id name = is_owned id name && not (includes name r.contribution_names)

abbrev pub with_manifest : ModuleManifest → Registry → Registry
with_manifest m r = record r {
  manifests = m ∷ r.manifests;
  contribution_names = contributions m ++ r.contribution_names;
}

unfoldable pub register : ModuleManifest → Registry → RegistrationResult
unfolding is_module_id contributions check_storage
register m r =
    if r.is_closed
    then refused closed
    else if not (is_module_id m.id)
    then refused not_namespaced
    else if any (has_id m.id) r.manifests
    then refused duplicate_module
    else if not (m.major == r.host_major)
    then refused incompatible_host
    else if not (all (is_free r m.id) (contributions m))
    then refused invalid_contribution
    else check_storage m.id m.storage (with_manifest m r)

unfoldable pub close_registration : Registry → Registry
close_registration r = record r { is_closed = true }

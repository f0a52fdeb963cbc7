-- ===== src/Modules/RegistryTests.antt =====
-- Runs of `ModuleKernel.register` of packages/host/src/module-kernel.ts.
use pidex.Prelude.{◌≡◌, refl, [], ◌∷◌, codes}
use pidex.Modules.Registry.{ModuleManifest, refused, register, invalid_contribution}
use pidex.Modules.Ownership.{
  registers, closes, after_calls, IsRegistry, new_registry, after_calls-IsRegistry,
}

abbrev notes : ModuleManifest
notes = record {
  id = codes "pidex.notes";
  major = 1;
  resource_kinds = codes "pidex.notes/note" ∷ [];
  protocol_families = [];
  capabilities = codes "pidex.notes/write" ∷ [];
  storage =
      record {
        name = codes "pidex.notes/rows";
        sqlite_namespace = codes "pidex_notes__rows";
        blob_kinds = [];
        migrations = record { from = 0; to = 1 } ∷ record { from = 1; to = 2 } ∷ [];
      }
      ∷ [];
  diagnostics = [];
  lifecycle_services = [];
  ui = [];
}

-- A module that claims a name of another.
abbrev thief : ModuleManifest
thief = record notes { id = codes "pidex.thief"; storage = [] }

admits : (after_calls (registers notes ∷ []) (new_registry 1)).manifests ≡ notes ∷ []
unfolding register
admits = refl

refuses : register thief (new_registry 1) ≡ refused invalid_contribution
unfolding register
refuses = refl

after_calls-IsRegistry_example :
    IsRegistry (after_calls (registers notes ∷ registers thief ∷ closes ∷ []) (new_registry 1))
after_calls-IsRegistry_example =
    after_calls-IsRegistry (registers notes ∷ registers thief ∷ closes ∷ []) 1

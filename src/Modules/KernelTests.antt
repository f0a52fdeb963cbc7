-- ===== src/Modules/KernelTests.antt =====
-- Dispatches of packages/host/src/module-kernel.ts on a small kernel, and the theorems at concrete
-- inputs.
use pidex.Prelude.{codes, ◌≡◌, ◌≢◌, refl, true, [], ◌∷◌, map}
use pidex.Modules.Kernel.{
  ModuleCommand, ModuleCommandResult, Kernel, Registration, started, dispatch, finish, pending_of,
  supports, set_receipt, module_id_from_qualified_name, resource_kind_from_id, before_first,
  before_last,
}
use pidex.Modules.Concurrency.{begins, Reaches, stays, steps, dispatch-never_again}

abbrev notes : Registration
notes = record {
  id = codes "pidex.notes";
  capabilities = codes "pidex.notes/write" ∷ [];
  commands = codes "pidex.notes/add" ∷ [];
}

abbrev kernel : Kernel
kernel = record {
  is_ready = true;
  unavailable_kinds = [];
  modules = notes ∷ [];
  command_receipts = [];
  in_flight = 0;
  maximum_in_flight = 32;
}

abbrev an_addition : ModuleCommand
an_addition = record {
  command_id = 7;
  kind = codes "pidex.notes/add";
  target = codes "pidex.notes/note:1";
  capability = codes "pidex.notes/write";
  observed_revision = 4;
}

abbrev begun : Kernel
begun = record kernel { in_flight = 1 }

abbrev twice : Kernel
twice = record kernel { in_flight = 2 }

names : Unit {0}
unfolding dispatch finish set_receipt pending_of supports module_id_from_qualified_name
    resource_kind_from_id before_first before_last
names = tt

first_delivery : dispatch an_addition kernel ≡ (begun, started (pending_of an_addition kernel))
unfolding names
first_delivery = refl

-- A second delivery of a command whose handler is awaited calls the handler again, and promises the
-- same cursor.
second_delivery : dispatch an_addition begun ≡ (twice, started (pending_of an_addition kernel))
unfolding names
second_delivery = refl

-- The result of the handler that ends last replaces the other.
last_result :
    map
      (λ (r : ModuleCommandResult). r.value)
      (finish
        (pending_of an_addition kernel)
        9
        (finish (pending_of an_addition kernel) 8 twice)).command_receipts
    ≡ 9 ∷ []
unfolding names
last_result = refl

abbrev recorded : Kernel
recorded = finish (pending_of an_addition kernel) 8 begun

begun-Reaches : Reaches kernel [] begun (pending_of an_addition kernel ∷ [])
unfolding names
begun-Reaches =
    steps stays (begins kernel [] an_addition begun (pending_of an_addition kernel) refl)

dispatch-never_again_example :
    dispatch an_addition recorded ≢ (twice, started (pending_of an_addition kernel))
unfolding names
dispatch-never_again_example =
    dispatch-never_again an_addition {k = recorded} {ps = []} {k' = recorded} {ps' = []} twice
      (pending_of an_addition kernel) stays refl

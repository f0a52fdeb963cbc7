-- ===== src/Modules/Kernel.antt =====
-- `ModuleKernel.dispatch` of packages/host/src/module-kernel.ts. The kernel awaits the module's
-- handler in the middle of a dispatch: what stands before the await is `dispatch`, and what stands
-- behind it is `finish`, or `fail` where the handler throws. Names are lists of code units, and the
-- identifiers of commands, payloads and values are numbers.
use pidex.Prelude.{
  Text, text_eq, ℕ, ◌+◌, ◌-◌, Bool, true, false, not, ◌&&◌, List, [], ◌∷◌, ◌++◌, none, some, ◌==◌,
  leb, if◌then◌else◌, any, find?, update_where, length,
}

pub record ModuleCommand : Type 0 where
  pub command_id : ℕ
  pub kind : Text
  pub target : Text
  pub capability : Text
  pub observed_revision : ℕ

pub record ModuleCommandChange : Type 0 where
  pub kind : Text
  pub target : Text
  pub revision : ℕ

-- The cursor is kept as the number behind `module:`.
pub record ModuleCommandResult : Type 0 where
  pub receipt : ℕ
  pub cursor : ℕ
  pub revision : ℕ
  pub value : ℕ
  pub changes : List ModuleCommandChange

-- A result whose value is awaited.
pub record Pending : Type 0 where
  pub receipt : ℕ
  pub cursor : ℕ
  pub revision : ℕ
  pub change : ModuleCommandChange

-- What the dispatch reads of a manifest and of its runtime.
pub record Registration : Type 0 where
  pub id : Text
  pub capabilities : List Text
  pub commands : List Text

pub record Kernel : Type 0 where
  pub is_ready : Bool
  pub unavailable_kinds : List Text
  pub modules : List Registration
  pub command_receipts : List ModuleCommandResult
  pub in_flight : ℕ
  pub maximum_in_flight : ℕ

pub data KernelError : Type 0 where
  not_ready kind_unavailable backpressure unsupported cross_module : KernelError

pub data Dispatch : Type 0 where
  refused : KernelError → Dispatch
  answered : ModuleCommandResult → Dispatch
  started : Pending → Dispatch

-- `Set.has` and `includes`
abbrev pub includes : Text → List Text → Bool
includes name = any (text_eq name)

abbrev pub slash : ℕ
slash = 47

abbrev pub colon : ℕ
colon = 58

abbrev pub has_code : ℕ → Text → Bool
has_code c = any (λ (x : ℕ). x == c)

-- `slice(0, -1)`, where `indexOf` finds nothing
unfoldable pub drop_last : Text → Text
drop_last [] = []
drop_last (x ∷ []) = []
drop_last (x ∷ y ∷ xs) = x ∷ drop_last (y ∷ xs)

unfoldable pub before_first : ℕ → Text → Text
before_first c [] = []
before_first c (x ∷ xs) = let rest = before_first c xs in if x == c then [] else x ∷ rest

unfoldable pub before_last : ℕ → Text → Text
before_last c [] = []
before_last c (x ∷ xs) = let rest = before_last c xs in if has_code c xs then x ∷ rest else []

unfoldable pub module_id_from_qualified_name : Text → Text
unfolding drop_last before_first
module_id_from_qualified_name name =
    if has_code slash name then before_first slash name else drop_last name

unfoldable pub resource_kind_from_id : Text → Text
unfolding drop_last before_last
resource_kind_from_id id = if has_code colon id then before_last colon id else drop_last id

abbrev pub starts_with : Text → Text → Bool
starts_with xs [] = true
starts_with [] (p ∷ ps) = false
starts_with (x ∷ xs) (p ∷ ps) = (x == p) && starts_with xs ps

abbrev pub has_receipt : ℕ → ModuleCommandResult → Bool
has_receipt id r = r.receipt == id

-- the module has the capability, and its runtime has a handler of the command
unfoldable pub supports : Text → ModuleCommand → Kernel → Bool
supports module_id c k = elim (find? (λ (m : Registration). text_eq m.id module_id) k.modules) [
  | none ↦ false
  | some m ↦ includes c.capability m.capabilities && includes c.kind m.commands
]

unfoldable pub pending_of : ModuleCommand → Kernel → Pending
pending_of c k = record {
  receipt = c.command_id;
  cursor = length k.command_receipts + 1;
  revision = c.observed_revision + 1;
  change = record {
    kind = resource_kind_from_id c.target;
    target = c.target;
    revision = c.observed_revision + 1;
  };
}

-- Up to the call of the handler.
unfoldable pub dispatch : ModuleCommand → Kernel → Kernel × Dispatch
unfolding pending_of
dispatch c k =
    if not k.is_ready
    then (k, refused not_ready)
    else if includes (resource_kind_from_id c.target) k.unavailable_kinds
    then (k, refused kind_unavailable)
    else elim (find? (has_receipt c.command_id) k.command_receipts) [
      | some previous ↦ (k, answered previous)
      | none ↦
          if leb k.maximum_in_flight k.in_flight
          then (k, refused backpressure)
          else if not (supports (module_id_from_qualified_name c.kind) c k)
          then (k, refused unsupported)
          else if not (starts_with c.target (module_id_from_qualified_name c.kind ++ slash ∷ []))
          then (k, refused cross_module)
          else (record k { in_flight = k.in_flight + 1 }, started (pending_of c k))
    ]

-- `Map.set`
unfoldable pub set_receipt :
    ModuleCommandResult → List ModuleCommandResult → List ModuleCommandResult
set_receipt r rs =
    if any (has_receipt r.receipt) rs
    then update_where (has_receipt r.receipt) (λ (old : ModuleCommandResult). r) rs
    else rs ++ r ∷ []

unfoldable pub finish : Pending → ℕ → Kernel → Kernel
unfolding set_receipt
finish p value k = record k {
  command_receipts =
      set_receipt
        (record {
          receipt = p.receipt;
          cursor = p.cursor;
          revision = p.revision;
          value = value;
          changes = p.change ∷ [];
        })
        k.command_receipts;
  in_flight = k.in_flight - 1;
}

unfoldable pub fail : Kernel → Kernel
fail k = record k { in_flight = k.in_flight - 1 }

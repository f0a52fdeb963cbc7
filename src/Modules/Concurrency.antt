-- ===== src/Modules/Concurrency.antt =====
-- The dispatches of packages/host/src/module-kernel.ts as they interleave: each is one step up to its
-- handler and one step behind it.
use pidex.Prelude.{
  ◌≢◌, ℕ, ◌≤◌, ◌≡◌, refl, true, false, List, [], ◌∷◌, ◌++◌, arith, length, any, find?, update_where,
  Bool-cases, inl, inr, length-append, Option-cases, none,
}
use pidex.Modules.Kernel.{
  ModuleCommand, ModuleCommandResult, Pending, Kernel, started, dispatch, finish, fail, has_receipt,
  set_receipt,
}

-- The kernel and the dispatches that await their handlers.
pub data Step : Kernel → List Pending → Kernel → List Pending → Type 0 where
  begins :
      (k : Kernel) (ps : List Pending) (c : ModuleCommand) (k' : Kernel) (p : Pending)
      → dispatch c k ≡ (k', started p)
      → Step k ps k' (p ∷ ps)
  finishes :
      (k : Kernel) (front back : List Pending) (p : Pending) (value : ℕ)
      → Step k (front ++ p ∷ back) (finish p value k) (front ++ back)
  fails :
      (k : Kernel) (front back : List Pending) (p : Pending)
      → Step k (front ++ p ∷ back) (fail k) (front ++ back)

pub data Reaches (k : Kernel) (ps : List Pending) : Kernel → List Pending → Type 0 where
  stays : Reaches k ps k ps
  steps :
      {k' k'' : Kernel} {ps' ps'' : List Pending}
      → Reaches k ps k' ps'
      → Step k' ps' k'' ps''
      → Reaches k ps k'' ps''

-- The counter is the number of dispatches in flight, and within the limit.
pub record IsCounted (k : Kernel) (ps : List Pending) : Type 0 where
  pub counted : k.in_flight ≡ length ps
  pub limited : k.in_flight ≤ k.maximum_in_flight

Step-IsCounted :
    {k k' : Kernel} {ps ps' : List Pending} → Step k ps k' ps' → IsCounted k ps → IsCounted k' ps'
unfolding dispatch finish fail
Step-IsCounted (begins k ps c k' p e) h = ground arith
Step-IsCounted (finishes k front back p value) h =
    ground (arith, length-append front (p ∷ back), length-append front back)
Step-IsCounted (fails k front back p) h =
    ground (arith, length-append front (p ∷ back), length-append front back)

-- However the dispatches interleave, the counter of those in flight is their number, and never above
-- the kernel's limit, if it was so at the start.
Reaches-IsCounted :
    {k : Kernel} {ps : List Pending} {k' : Kernel} {ps' : List Pending}
    → Reaches k ps k' ps'
    → IsCounted k ps
    → IsCounted k' ps'
Reaches-IsCounted stays h = h
Reaches-IsCounted (steps before step) h = Step-IsCounted step (Reaches-IsCounted before h)

any-replaced :
    (id : ℕ) (r : ModuleCommandResult) (rs : List ModuleCommandResult)
    → any (has_receipt id) rs ≡ true
    → any
        (has_receipt id)
        (update_where (has_receipt r.receipt) (λ (old : ModuleCommandResult). r) rs)
      ≡ true
any-replaced id r [] h = cc
any-replaced id r (x ∷ rs) h = let ih = any-replaced id r rs in ground arith

any-appended :
    (id : ℕ) (r : ModuleCommandResult) (rs : List ModuleCommandResult)
    → any (has_receipt id) rs ≡ true
    → any (has_receipt id) (rs ++ r ∷ []) ≡ true
any-appended id r [] h = cc
any-appended id r (x ∷ rs) h = let ih = any-appended id r rs in ground arith

Step-receipt :
    (id : ℕ) {k k' : Kernel} {ps ps' : List Pending}
    → Step k ps k' ps'
    → any (has_receipt id) k.command_receipts ≡ true
    → any (has_receipt id) k'.command_receipts ≡ true
unfolding dispatch finish fail set_receipt
Step-receipt id (begins k ps c k' p e) h = ground arith
Step-receipt id (finishes k front back p value) h =
    let result : ModuleCommandResult = record {
      receipt = p.receipt;
      cursor = p.cursor;
      revision = p.revision;
      value = value;
      changes = p.change ∷ [];
    } in
    elim (Bool-cases (any (has_receipt p.receipt) k.command_receipts)) [
      | inl known ↦ rw known (any-replaced id result k.command_receipts h)
      | inr new ↦ rw new (any-appended id result k.command_receipts h)
    ]
Step-receipt id (fails k front back p) h = h

Reaches-receipt :
    (id : ℕ) {k : Kernel} {ps : List Pending} {k' : Kernel} {ps' : List Pending}
    → Reaches k ps k' ps'
    → any (has_receipt id) k.command_receipts ≡ true
    → any (has_receipt id) k'.command_receipts ≡ true
Reaches-receipt id stays h = h
Reaches-receipt id (steps before step) h = Step-receipt id step (Reaches-receipt id before h)

any_of_missing :
    (id : ℕ) (rs : List ModuleCommandResult)
    → find? (has_receipt id) rs ≡ none
    → any (has_receipt id) rs ≡ false
any_of_missing id [] e = refl
any_of_missing id (r ∷ rs) e = let ih = any_of_missing id rs in ground arith

-- However the dispatches interleave, a command that had a result never calls its handler again.
pub dispatch-never_again :
    (c : ModuleCommand) {k : Kernel} {ps : List Pending} {k' : Kernel} {ps' : List Pending}
    (d : Kernel) (p : Pending)
    → Reaches k ps k' ps'
    → any (has_receipt c.command_id) k.command_receipts ≡ true
    → dispatch c k' ≢ (d, started p)
unfolding dispatch
dispatch-never_again c {k' = k'} d p reached known e =
    let kept = Reaches-receipt c.command_id reached known in
    elim (Option-cases (find? (has_receipt c.command_id) k'.command_receipts)) [
      | inl missing ↦
          let gone = any_of_missing c.command_id k'.command_receipts missing in ground arith
      | inr (r, found) ↦ ground arith
    ]

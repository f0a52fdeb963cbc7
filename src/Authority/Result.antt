-- ===== src/Authority/Result.antt =====
-- A transaction of the store returns the changed authority and its result, or throws and is
-- rolled back: an error holds no authority.
use pidex.Prelude.{◌≡◌, refl, ◌⊎◌, inl, inr, Bool, true, false, Option, none, some}
use pidex.Authority.Schema.{Authority}

-- The messages of the errors that the store throws. `constraint_failed` is SQLite's, for a key that
-- is taken or a reference to a missing row; `storage_fault` is the storage adapter's refusal of
-- `beforeCommit`; `schema_mismatch` is a row that does not parse.
pub data Error : Type 0 where
  constraint_failed storage_fault schema_mismatch : Error
  unknown_session session_not_quiescent run_not_accepted session_busy : Error
  run_not_held run_out_of_order run_not_cancellable invalid_fork_point : Error
  unknown_project unknown_workspace workspace_project_mismatch unknown_interaction : Error
  workspace_identity_conflict project_name_required directory_already_added : Error

pub data Result {ℓ} (Value : Type ℓ) : Type ℓ where
  thrown : Error → Result Value
  committed : Value → Result Value

abbrev pub or_throw {ℓ} : {Value : Type ℓ} → Option Value → Error → Result Value
or_throw (some found) missing = committed found
or_throw none missing = thrown missing

infixl 5 ◌>>=◌
abbrev pub ◌>>=◌ {ℓ κ} :
    {Value : Type ℓ} {Next : Type κ} → Result Value → (Value → Result Next) → Result Next
thrown error >>= next = thrown error
committed value >>= next = next value

-- What the caller finds in the database: a thrown error leaves it as it was.
abbrev pub after {ℓ} : {Value : Type ℓ} → Authority → Result (Authority × Value) → Authority
after db (thrown error) = db
after db (committed (changed, value)) = changed

-- An early `throw` of the source, unless the condition holds.
abbrev pub require : Bool → Error → Result (Unit {0})
require false error = thrown error
require true _ = committed tt

infixl 5 ◌>>◌
abbrev pub ◌>>◌ {ℓ} : {Next : Type ℓ} → Result (Unit {0}) → Result Next → Result Next
checked >> next = checked >>= λ _. next

pub Result-cases {ℓ} :
    {Value : Type ℓ} (r : Result Value)
    → ((value : Value) × (r ≡ committed value)) ⊎ ((error : Error) × (r ≡ thrown error))
Result-cases (committed value) = inl (value, refl)
Result-cases (thrown error) = inr (error, refl)

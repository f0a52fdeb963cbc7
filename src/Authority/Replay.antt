-- ===== src/Authority/Replay.antt =====
-- Receipts of packages/host/src/store.ts: what a repeated command is answered, at once and after
-- any history.
use pidex.Prelude.{
  ℕ, ◌≡◌, refl, ◌∙◌, Bool, true, some, [], ◌∷◌, arith, ◌==◌, ==_refl, if◌then◌else◌, Bool-cases,
  Option-cases, inl, inr, find?, find?-append, find?-append_last,
}
use pidex.Authority.Schema.{Authority, Outcome, Receipt}
use pidex.Authority.Result.{Result, Result-cases, after, committed}
use pidex.Authority.Insert.{insert_receipt}
use pidex.Authority.Command.{
  outcome, replayed, load_command_receipt, missing, conflict, replay, commit_receipt, answer,
  receipt_of, ReceiptMatch, record_outcome,
}

abbrev pub has_command : ℕ → Receipt → Bool
has_command id r = r.command_id == id

-- Receipts are kept: what was found is found.
pub record Retains (db db' : Authority) : Type 0 where
  pub at :
      (id : ℕ) (r : Receipt)
      → find? (has_command id) db.receipts ≡ some r
      → find? (has_command id) db'.receipts ≡ some r

pub Retains-same : (db db' : Authority) → db'.receipts ≡ db.receipts → Retains db db'
Retains-same db db' e = record { at = λ id r found. rw e found }

pub Retains-trans : (a b c : Authority) → Retains a b → Retains b c → Retains a c
Retains-trans a b c h k = record { at = λ id r found. k.at id r (h.at id r found) }

pub Retains-commit :
    (id digest : ℕ) (o : Outcome) (now : ℕ) (db db' : Authority)
    → commit_receipt id digest o now db ≡ committed db'
    → Retains db db'
unfolding commit_receipt insert_receipt
Retains-commit id digest o now db db' e = record {
  at = λ key r found.
      ground (
        arith,
        find?-append (has_command key) db.receipts (receipt_of id digest o now ∷ []) r found,
      );
}

commit_receipt-found :
    (id digest : ℕ) (o : Outcome) (now : ℕ) (db db' : Authority)
    → commit_receipt id digest o now db ≡ committed db'
    → find? (has_command id) db'.receipts ≡ some (receipt_of id digest o now)
unfolding commit_receipt insert_receipt
commit_receipt-found id digest o now db db' e =
    ground (
      arith,
      ==_refl id,
      find?-append_last (has_command id) db.receipts (receipt_of id digest o now),
    )

pub load_of_found :
    (id digest : ℕ) (db : Authority) (r : Receipt)
    → find? (has_command id) db.receipts ≡ some r
    → load_command_receipt id digest db
      ≡ (if r.envelope_digest == digest then replay r.outcome else conflict)
unfolding load_command_receipt
load_of_found id digest db r found = ground arith

pub found_of_load :
    (id digest : ℕ) (db : Authority) (o : Outcome)
    → load_command_receipt id digest db ≡ replay o
    → (r : Receipt) × (find? (has_command id) db.receipts ≡ some r)
      × (r.envelope_digest ≡ digest)
      × (r.outcome ≡ o)
unfolding load_command_receipt
found_of_load id digest db o h = elim (Option-cases (find? (has_command id) db.receipts)) [
  | inl none_there ↦ cc (rw (none_there, load_command_receipt) at h)
  | inr (r, found) ↦ (r, found, ground arith, ground arith)
]

-- A receipt that is found answers the same after any change that retains it.
pub load_retained :
    (id digest : ℕ) (db db' : Authority) (o : Outcome)
    → Retains db db'
    → load_command_receipt id digest db ≡ replay o
    → load_command_receipt id digest db' ≡ replay o
load_retained id digest db db' o k h =
    let (r, found, same, kept) = found_of_load id digest db o h in
    load_of_found id digest db' r (k.at id r found) ∙ ground (arith, ==_refl digest)

module _ (id digest now : ℕ) (r : Result (Authority × Outcome)) where
  record_outcome-recorded :
      (db' : Authority) (o : Outcome)
      → record_outcome id digest now r ≡ committed (db', outcome o)
      → load_command_receipt id digest db' ≡ replay o
  unfolding record_outcome
  record_outcome-recorded db' o e = elim (Result-cases r) [
    | inr (x, failed) ↦ cc (rw (failed, record_outcome) at e)
    | inl ((db₁, result), done) ↦ elim (Result-cases (commit_receipt id digest result now db₁)) [
      | inr (x, failed) ↦ cc (rw (done, failed, record_outcome) at e)
      | inl (db₂, stored) ↦
          let found = commit_receipt-found id digest result now db₁ db₂ stored in
          ground (
            arith,
            ==_refl id,
            ==_refl digest,
            load_of_found id digest db₂ (receipt_of id digest result now) found,
          )
    ]
  ]

  Retains-record_outcome :
      (db : Authority)
      → ((d : Authority) (o : Outcome) → r ≡ committed (d, o) → d.receipts ≡ db.receipts)
      → Retains db (after db (record_outcome id digest now r))
  unfolding record_outcome
  Retains-record_outcome db k = elim (Result-cases r) [
    | inr (x, failed) ↦ rw (failed, record_outcome) (Retains-same db db refl)
    | inl ((db₁, result), done) ↦ elim (Result-cases (commit_receipt id digest result now db₁)) [
      | inr (x, failed) ↦ rw (done, failed, record_outcome) (Retains-same db db refl)
      | inl (db₂, stored) ↦
          rw (done, stored, record_outcome)
            (Retains-trans db db₁ db₂ (Retains-same db db₁ (k db₁ result done))
              (Retains-commit id digest result now db₁ db₂ stored))
    ]
  ]

-- The frame of the commands.
module _ (id digest : ℕ) (schema : Outcome → Bool) (now : ℕ)
    (f : Authority → Result (Authority × Outcome)) (db : Authority) where
  -- A command that is carried out has its receipt.
  pub answer-recorded :
      (db' : Authority) (o : Outcome)
      → answer id digest schema now f db ≡ committed (db', outcome o)
      → load_command_receipt id digest db' ≡ replay o
  unfolding answer
  answer-recorded db' o e = record_outcome-recorded id digest now (f db) db' o (ground arith)

  pub answer-replayed :
      (o : Outcome)
      → load_command_receipt id digest db ≡ replay o
      → schema o ≡ true
      → answer id digest schema now f db ≡ committed (db, replayed o)
  unfolding answer
  answer-replayed o e k = rw (e, answer) (rw k)

  pub Retains-answer :
      ((d : Authority) (o : Outcome) → f db ≡ committed (d, o) → d.receipts ≡ db.receipts)
      → Retains db (after db (answer id digest schema now f db))
  unfolding answer
  Retains-answer k = by (load_command_receipt id digest db) refl
    where
      by :
          (m : ReceiptMatch)
          → load_command_receipt id digest db ≡ m
          → Retains db (after db (answer id digest schema now f db))
      by missing e = rw (e, answer) (Retains-record_outcome id digest now (f db) db k)
      by conflict e = rw (e, answer) (Retains-same db db refl)
      by (replay o) e =
          rw (e, answer)
            (elim (Bool-cases (schema o)) [
              | inl fits ↦ rw fits (Retains-same db db refl)
              | inr misfit ↦ rw misfit (Retains-same db db refl)
            ])

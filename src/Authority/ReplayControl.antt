-- ===== src/Authority/ReplayControl.antt =====
-- `acceptSteering` and `acceptStop` of packages/host/src/store.ts keep the receipts that are there.
use pidex.Prelude.{ℕ, ◌≡◌, refl, ap, Option, arith, Bool-cases, inl, inr}
use pidex.Authority.Schema.{Authority, Outcome, steer_rejected}
use pidex.Authority.Result.{Result, Result-cases, after, committed, thrown, ◌>>=◌}
use pidex.Authority.Query.{load_entry, load_run, cursor_of}
use pidex.Authority.Command.{
  Hashes, SteerCommand, StopCommand, steer, stop, missing, conflict, replay, ReceiptMatch,
  load_command_receipt, commit_receipt,
}
use pidex.Authority.Control.{
  accept_steering, steer_target, refuse_steering, replay_steering, carry_out_steering, accept_stop,
  stop_target, replay_stop, carry_out_stop, targets_active_execution,
}
use pidex.Authority.Replay.{Retains, Retains-same, Retains-trans, Retains-commit}
use pidex.Authority.ReceiptFrame.{receipts-carry_out_steering, receipts-carry_out_stop}

-- A transaction that commits a receipt behind a write which leaves the receipts alone.
Retains-committed {ℓ} :
    {A : Type ℓ} (id digest now : ℕ) (db d : Authority) (o : Outcome)
    (k : Authority → Result (Authority × A))
    → d.receipts ≡ db.receipts
    → ((e : Authority) → (after e (k e)).receipts ≡ e.receipts)
    → Retains db (after db (commit_receipt id digest o now d >>= k))
Retains-committed {A} id digest now db d o k same ends =
    elim (Result-cases (commit_receipt id digest o now d)) [
      | inr (x, failed) ↦ rw failed (Retains-same db db refl)
      | inl (e, stored) ↦ rw stored (finish e stored (k e) (ends e))
    ]
  where
    finish :
        (e : Authority)
        → commit_receipt id digest o now d ≡ committed e
        → (r : Result (Authority × A)) → (after e r).receipts ≡ e.receipts
        → Retains db (after db r)
    finish e stored (thrown x) h = Retains-same db db refl
    finish e stored (committed (f, a)) h =
        Retains-trans db d f (Retains-same db d same)
          (Retains-trans d e f (Retains-commit id digest o now d e stored) (Retains-same e f h))

-- Reads at the end of a transaction change nothing.
after-reads {ℓ κ μ} :
    {A : Type ℓ} {B : Type κ} {C : Type μ} (db : Authority) (r : Result A) (s : Result B)
    (f : A → B → C)
    → after db (r >>= λ a. s >>= λ b. committed (db, f a b)) ≡ db
after-reads db (thrown e) s f = refl
after-reads db (committed a) (thrown e) f = refl
after-reads db (committed a) (committed b) f = refl

module _ (h : Hashes) (entry_id now : ℕ) (db : Authority) where
  steer_target-Retains :
      (c : SteerCommand) → Retains db (after db (steer_target h c entry_id now db))
  unfolding steer_target
  steer_target-Retains c = elim (Result-cases (carry_out_steering h c entry_id now db)) [
    | inr (x, failed) ↦ rw failed (Retains-same db db refl)
    | inl ((d, result), done) ↦ rw done (elim (Result-cases (load_entry entry_id d)) [
      | inr (x, failed) ↦ rw failed (Retains-same db db refl)
      | inl (entry, loaded) ↦ rw loaded (
          Retains-committed c.command_id (h.envelope (steer c)) now db d result _
            (receipts-carry_out_steering h c entry_id now db d result done) (λ e. refl))
    ])
  ]

  refuse_steering-Retains : (c : SteerCommand) → Retains db (after db (refuse_steering h c now db))
  unfolding refuse_steering
  refuse_steering-Retains c =
      Retains-committed c.command_id (h.envelope (steer c)) now db db
        (steer_rejected (cursor_of db)) _ refl (λ e. refl)

  receipts-replay_steering :
      (o : Outcome) → (after db (replay_steering o db)).receipts ≡ db.receipts
  unfolding replay_steering load_entry
  receipts-replay_steering o = ground arith

  pub accept_steering-Retains :
      (c : SteerCommand) (active : Option ℕ)
      → Retains db (after db (accept_steering h c active entry_id now db))
  unfolding accept_steering
  accept_steering-Retains c active =
      by (load_command_receipt c.command_id (h.envelope (steer c)) db) refl
    where
      by :
          (m : ReceiptMatch)
          → load_command_receipt c.command_id (h.envelope (steer c)) db ≡ m
          → Retains db (after db (accept_steering h c active entry_id now db))
      by conflict e = rw (e, accept_steering) (Retains-same db db refl)
      by (replay o) e = rw (e, accept_steering) (Retains-same db _ (receipts-replay_steering o))
      by missing e =
          rw (e, accept_steering)
            (elim (Bool-cases (
              targets_active_execution c.session_id c.run_id c.worker_generation
                c.observed_timeline_revision active db)) [
                  | inl target ↦ rw target (steer_target-Retains c)
                  | inr stale ↦ rw stale (refuse_steering-Retains c)
                ])

  stop_target-Retains : (c : StopCommand) → Retains db (after db (stop_target h c entry_id now db))
  unfolding stop_target
  stop_target-Retains c = elim (Result-cases (carry_out_stop c entry_id now db)) [
    | inr (x, failed) ↦ rw failed (Retains-same db db refl)
    | inl ((d, result), done) ↦ rw done (
        Retains-committed c.command_id (h.envelope (stop c)) now db d result _
          (receipts-carry_out_stop c entry_id now db d result done)
          (λ e.
            ap (λ (x : Authority). x.receipts)
              (after-reads e (load_run c.run_id e) (load_entry entry_id e) _)))
  ]

  receipts-replay_stop : (o : Outcome) → (after db (replay_stop o db)).receipts ≡ db.receipts
  unfolding replay_stop load_entry load_run
  receipts-replay_stop o = ground arith

  pub accept_stop-Retains :
      (c : StopCommand) (active : Option ℕ)
      → Retains db (after db (accept_stop h c active entry_id now db))
  unfolding accept_stop
  accept_stop-Retains c active =
      by (load_command_receipt c.command_id (h.envelope (stop c)) db) refl
    where
      by :
          (m : ReceiptMatch)
          → load_command_receipt c.command_id (h.envelope (stop c)) db ≡ m
          → Retains db (after db (accept_stop h c active entry_id now db))
      by conflict e = rw (e, accept_stop) (Retains-same db db refl)
      by (replay o) e = rw (e, accept_stop) (Retains-same db _ (receipts-replay_stop o))
      by missing e =
          rw (e, accept_stop)
            (elim (Bool-cases (
              targets_active_execution c.session_id c.run_id c.worker_generation
                c.observed_timeline_revision active db)) [
                  | inl target ↦ rw target (stop_target-Retains c)
                  | inr stale ↦ rw stale (Retains-same db db refl)
                ])

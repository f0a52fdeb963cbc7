-- ===== src/Authority/RunRecovery.antt =====
-- Recovery after the loss of the Host or of a worker, of packages/host/src/store.ts, keeps the table of the runs sound
-- and follows the lifecycle.
use pidex.Prelude.{ℕ, ◌≡◌, ap, subst, List}
use pidex.Authority.Schema.{Authority, Interaction}
use pidex.Authority.Command.{Hashes}
use pidex.Authority.Interactions.{interactions}
use pidex.Authority.Control.{mark_run_steering_unapplied}
use pidex.Authority.Settlement.{
  Recovery, reconcile_accepted_runs, recover_worker_loss, withdraw_lost,
}
use pidex.Authority.RunTable.{Keeps, Keeps-refl, Keeps-trans}
use pidex.Authority.RunQueue.{hold_queued-Keeps}
use pidex.Authority.Recovery.{reconcile_accepted_runs-related, withdraw_lost-only}
use pidex.Authority.RunEnd.{settle_run-Keeps}

pub reconcile_accepted_runs-Keeps :
    (h : Hashes) (rec : Recovery) (now : ℕ) (db : Authority)
    → Keeps db.runs (reconcile_accepted_runs h rec now db).0.runs
reconcile_accepted_runs-Keeps h rec now =
    reconcile_accepted_runs-related h rec now (λ a b. Keeps a.runs b.runs) (λ a. Keeps-refl a.runs)
      (λ a b c. Keeps-trans a.runs b.runs c.runs)
      (λ id result text checkpoint attempt db.
        settle_run-Keeps h id result text checkpoint attempt now db)
      hold_queued-Keeps

runs-withdraw_lost :
    (is : List Interaction) (now : ℕ) (db : Authority) → (withdraw_lost is now db).runs ≡ db.runs
runs-withdraw_lost is now db = ap (λ (d : Authority). d.runs) (withdraw_lost-only is now db)

pub recover_worker_loss-Keeps :
    (session_id run_id now : ℕ) (db : Authority)
    → Keeps db.runs (recover_worker_loss session_id run_id now db).0.runs
unfolding recover_worker_loss mark_run_steering_unapplied
recover_worker_loss-Keeps session_id run_id now db =
    subst (λ rs. Keeps rs (recover_worker_loss session_id run_id now db).0.runs)
      (runs-withdraw_lost (interactions session_id db₁) now db₁)
      (hold_queued-Keeps session_id (withdraw_lost (interactions session_id db₁) now db₁))
  where
    db₁ : Authority
    db₁ = mark_run_steering_unapplied run_id db

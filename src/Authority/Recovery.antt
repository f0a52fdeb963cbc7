-- ===== src/Authority/Recovery.antt =====
-- A rule for the recoveries of packages/host/src/store.ts: a reflexive and transitive relation that
-- holds across each settlement and each hold holds across `reconcileAcceptedRuns`.
use pidex.Prelude.{
  Text, ℕ, ◌≡◌, refl, Bool, true, false, List, [], ◌∷◌, Option, none, some, if◌then◌else◌,
  Bool-cases, Option-cases, inl, inr, map,
}
use pidex.Authority.Schema.{Run, Authority, Interaction, withdrawn, worker_lost}
use pidex.Authority.States.{is_cancelling, is_active_interaction}
use pidex.Authority.Result.{Result, Error, after, committed, thrown}
use pidex.Authority.Query.{load_run, find_run}
use pidex.Authority.Command.{Hashes}
use pidex.Authority.Runs.{hold_queued}
use pidex.Authority.Interactions.{settle_interaction}
use pidex.Authority.Settlement.{
  TerminalState, Attempt, settle_run, Recovery, Evidence, proved, absent, corrupt, reconcile_run,
  reconcile_runs, reconcile_by_evidence, hold_affected, hold_all, reconcile_accepted_runs,
  executing_runs, interrupt_run, complete_or_interrupt, interruption_notice, cancellation_notice,
  withdraw_lost,
}

module _ (h : Hashes) (rec : Recovery) (now : ℕ) (R : Authority → Authority → Type 0)
    (refl_R : (a : Authority) → R a a) (trans_R : (a b c : Authority) → R a b → R b c → R a c)
    (settled : (id : ℕ) (result : TerminalState) (text : Text) (checkpoint : Option Text)
        (attempt : Attempt) (db : Authority)
      → R db (after db (settle_run h id result text checkpoint attempt now db)))
    (holds : (id : ℕ) (db : Authority) → R db (hold_queued id db)) where
  interrupt_run-related :
      (text : Text) (attempt : Attempt) (id : ℕ) (db : Authority)
      → R db (after db (interrupt_run h text attempt now id db))
  unfolding interrupt_run
  interrupt_run-related text attempt id db =
      settled id TerminalState.interrupted text none attempt db

  complete_or_interrupt-related :
      (id : ℕ) (r : Result (Authority × Run)) (db : Authority)
      → R db (after db r)
      → R db (after db (complete_or_interrupt h rec now id r db))
  unfolding complete_or_interrupt
  complete_or_interrupt-related id (committed done) db k = k
  complete_or_interrupt-related id (thrown e) db k =
      interrupt_run-related interruption_notice (rec.second id) id db

  reconcile_by_evidence-related :
      (id : ℕ) (e : Evidence) (db : Authority)
      → R db (after db (reconcile_by_evidence h rec now id e db))
  unfolding reconcile_by_evidence
  reconcile_by_evidence-related id (proved text checkpoint) db =
      complete_or_interrupt-related id
        (settle_run h id TerminalState.completed text (some checkpoint) (rec.first id) now db) db
        (settled id TerminalState.completed text (some checkpoint) (rec.first id) db)
  reconcile_by_evidence-related id absent db =
      interrupt_run-related interruption_notice (rec.second id) id db
  reconcile_by_evidence-related id corrupt db =
      interrupt_run-related interruption_notice (rec.second id) id db

  reconcile_run-related :
      (id : ℕ) (db : Authority) → R db (after db (reconcile_run h rec now id db))
  unfolding reconcile_run load_run
  reconcile_run-related id db = elim (Option-cases (find_run id db)) [
    | inl missing ↦ rw missing (refl_R db)
    | inr (run, found) ↦ rw found (elim (Bool-cases (is_cancelling run.state)) [
      | inl stopping ↦ rw stopping (interrupt_run-related cancellation_notice (rec.first id) id db)
      | inr running ↦ rw running (reconcile_by_evidence-related id (rec.evidence id) db)
    ])
  ]

  reconcile_runs-related :
      (rs : List Run) (db : Authority) → R db (reconcile_runs h rec now rs db).0
  unfolding reconcile_runs
  reconcile_runs-related [] db = refl_R db
  reconcile_runs-related (r ∷ rs) db =
      next (reconcile_run h rec now r.run_id db) (reconcile_run-related r.run_id db)
        (λ d. reconcile_runs-related rs d)
    where
      next :
          (o : Result (Authority × Run))
          → R db (after db o)
          → ((d : Authority) → R d (reconcile_runs h rec now rs d).0)
          → R db
              (let step : Authority × Option Error = elim o [
                | committed (d, run) ↦ reconcile_runs h rec now rs d
                | thrown e ↦ (db, some e)
              ] in
                step).0
      next (committed (d, run)) k ih = trans_R db d _ k (ih d)
      next (thrown e) k ih = k

  hold_all-related : (ids : List ℕ) (db : Authority) → R db (hold_all ids db)
  hold_all-related [] db = refl_R db
  hold_all-related (id ∷ ids) db =
      trans_R db (hold_queued id db) _ (holds id db) (hold_all-related ids (hold_queued id db))

  hold_affected-related :
      (rs : List Run) (s : Authority × Option Error) → R s.0 (hold_affected rs s).0
  unfolding hold_affected
  hold_affected-related rs (db, none) = hold_all-related (map (λ (r : Run). r.session_id) rs) db
  hold_affected-related rs (db, some e) = refl_R db

  pub reconcile_accepted_runs-related :
      (db : Authority) → R db (reconcile_accepted_runs h rec now db).0
  unfolding reconcile_accepted_runs
  reconcile_accepted_runs-related db = elim (Bool-cases rec.intact) [
    | inr broken ↦ rw broken (refl_R db)
    | inl sound ↦ simp sound (
        trans_R db (reconcile_runs h rec now (executing_runs db) db).0 _
          (reconcile_runs-related (executing_runs db) db)
          (hold_affected-related (executing_runs db)
            (reconcile_runs h rec now (executing_runs db) db)))
  ]

-- The loss of a worker: the withdrawals write the interactions alone.
pub withdraw_lost-only :
    (is : List Interaction) (now : ℕ) (db : Authority)
    → withdraw_lost is now db ≡ record db { interactions = (withdraw_lost is now db).interactions }
unfolding withdraw_lost
withdraw_lost-only [] now db = refl
withdraw_lost-only (i ∷ is) now db = by (withdraw_lost-only is now) (is_active_interaction i.state)
  where
    by :
        ((d : Authority)
          → withdraw_lost is now d
            ≡ record d { interactions = (withdraw_lost is now d).interactions })
        → (b : Bool)
        → (let next : Authority =
              if b
              then (settle_interaction i.interaction_id i.state withdrawn worker_lost now false
                  db).0
              else db in
            withdraw_lost is now next
            ≡ record db { interactions = (withdraw_lost is now next).interactions })
    by ih true =
        unfold settle_interaction in
        ih (settle_interaction i.interaction_id i.state withdrawn worker_lost now false db).0
    by ih false = ih db

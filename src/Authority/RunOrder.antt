-- ===== src/Authority/RunOrder.antt =====
-- The order in which the Runs of a Session execute, and what a stop leaves behind, in
-- packages/host/src/store.ts.
use pidex.Prelude.{
  All-of_any, ℕ, ◌≤◌, ◌≡◌, subst, Bool, true, false, ◌&&◌, List, [], ◌∷◌, some, arith, ◌==◌,
  if◌then◌else◌, Bool-cases, Option-cases, inl, inr, All, All-weaken, any, find?, update_where,
  first-taken, first-least, ltb,
}
use pidex.Authority.Schema.{Run, executing, queued, Authority}
use pidex.Authority.States.{is_executing, is_queued, is_held, is_undelivered}
use pidex.Authority.Result.{committed}
use pidex.Authority.Query.{find_run, load_run}
use pidex.Authority.Runs.{in_session, set_state, dispatch_next, next_queued, release_run}
use pidex.Authority.RunTable.{has_id}

-- No row that a test takes is left by an update which fails the test.
All-update_where :
    (p q : Run → Bool) (f : Run → Run) (rs : List Run)
    → ((r : Run) → q r ≡ true → p (f r) ≡ false)
    → ((r : Run) → q r ≡ false → p r ≡ false)
    → All (λ r. p r ≡ false) (update_where q f rs)
All-update_where p q f [] h k = tt
All-update_where p q f (r ∷ rs) h k = elim (Bool-cases (q r)) [
  | inl taken ↦ rw taken (h r taken, All-update_where p q f rs h k)
  | inr left ↦ rw left (k r left, All-update_where p q f rs h k)
]

-- A dispatched Run is of the Session, executes where nothing else of the Session does, and no
-- queued Run of the Session stands before it; only its row changes, from queued to executing.
pub dispatch_next-first :
    (id : ℕ) (db d : Authority) (run : Run)
    → dispatch_next id db ≡ committed (d, some run)
    → (run.session_id ≡ id)
      × (run.state ≡ executing)
      × (any (in_session id is_executing) db.runs ≡ false)
      × All (λ r. in_session id is_queued r ≡ true → run.session_order ≤ r.session_order) db.runs
      × (d.runs
          ≡ update_where
              (λ (r : Run). has_id run.run_id r && is_queued r.state)
              (set_state executing)
              db.runs)
unfolding dispatch_next next_queued
dispatch_next-first id db d run e = elim (Bool-cases (any (in_session id is_executing) db.runs)) [
  | inl busy ↦ cc (rw (busy, dispatch_next) at e)
  | inr free ↦ elim (Option-cases (next_queued id db.runs)) [
    | inl idle ↦ cc (rw (free, idle, dispatch_next) at e)
    | inr (row, first) ↦
        let taken =
          first-taken (λ (r : Run). r.session_order) (in_session id is_queued) db.runs row first in
        let least =
          first-least (λ (r : Run). r.session_order) (in_session id is_queued) db.runs row first in
        let same : set_state executing row ≡ run = ground arith in
        (
          ground arith,
          ground arith,
          free,
          subst
              (λ (x : Run).
                All (λ r. in_session id is_queued r ≡ true → x.session_order ≤ r.session_order)
                  db.runs)
              same least,
          ground arith,
        )
  ]
]

-- The run that a release returns was held, executes where nothing else of its Session does, and no
-- undelivered Run of the Session stands before it; no Run of the Session is held any more.
pub release_run-first :
    (id : ℕ) (db d : Authority) (run : Run)
    → release_run id db ≡ committed (d, run)
    → (run.state ≡ executing)
      × (any (in_session run.session_id is_executing) db.runs ≡ false)
      × All
          (λ r.
            in_session run.session_id is_undelivered r ≡ true → run.session_order ≤ r.session_order)
          db.runs
      × All (λ r. in_session run.session_id is_held r ≡ false) d.runs
unfolding release_run load_run find_run
release_run-first id db d run e = elim (Option-cases (find? (has_id id) db.runs)) [
  | inl missing ↦ cc (rw (missing, release_run) at e)
  | inr (row, found) ↦
      let same : set_state executing row ≡ run = ground arith in
      let none_before : any
            (λ (r : Run).
              in_session row.session_id is_undelivered r && ltb r.session_order row.session_order)
            db.runs
          ≡ false =
        ground arith in
      (
        ground arith,
        ground arith,
        subst
            (λ (x : Run).
              All
                (λ r.
                  in_session x.session_id is_undelivered r ≡ true
                  → x.session_order ≤ r.session_order)
                db.runs)
            same
            (All-weaken
              (λ r.
                (in_session row.session_id is_undelivered r
                  && ltb r.session_order row.session_order)
                ≡ false)
              (λ r.
                in_session row.session_id is_undelivered r ≡ true
                → row.session_order ≤ r.session_order)
              (λ r left. ground arith) db.runs (All-of_any _ db.runs none_before)),
        subst (λ (rs : List Run). All (λ r. in_session run.session_id is_held r ≡ false) rs)
            (ground arith)
            (All-update_where (in_session run.session_id is_held)
              (in_session row.session_id is_held)
              (λ (r : Run). set_state (if r.run_id == id then executing else queued) r) db.runs
              (λ r k. ground arith) (λ r k. ground arith)),
      )
]

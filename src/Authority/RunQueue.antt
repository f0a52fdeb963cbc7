-- ===== src/Authority/RunQueue.antt =====
-- The operations of packages/host/src/store.ts on the queue of the Runs keep the table sound and
-- follow the lifecycle; and what each promises of the order in which Runs execute.
use pidex.Prelude.{
  ℕ, ◌+◌, ◌≤◌, ◌<◌, ◌≡◌, refl, sym, Bool, true, false, not, ◌&&◌, List, [], ◌∷◌, ◌++◌, some, arith,
  ◌==◌, ==_iff, ==_refl, first-taken, first-counted, count-disjoint, if◌then◌else◌, Bool-cases,
  Option-cases, inl, inr, ◌⊎◌, subst, All, All-weaken, any, find?, count, update_where,
  All-universal, All-unique, count_zero_of_All, count_of_not_any, count-le_of_imp, ltb,
}
use pidex.Authority.Schema.{Run, executing, queued, held, cancelled, Authority}
use pidex.Authority.States.{is_executing, is_held, is_queued, is_accepted, is_undelivered}
use pidex.Authority.Result.{after}
use pidex.Authority.Insert.{insert_run, insert_entry, insert_receipt}
use pidex.Authority.Query.{load_run, find_run}
use pidex.Authority.Command.{Hashes, SubmitCommand, answer, commit_receipt}
use pidex.Authority.Runs.{
  in_session, submit_run, dispatch_next, hold_queued, release_run, cancel_queued_run, set_state,
  end_run, next_queued, new_run,
}
use pidex.Authority.Lifecycle.{leads_to}
use pidex.Authority.RunTable.{
  IsSound, Keeps, Keeps-refl, Keeps-append, Keeps-update, Keeps-stop, has_id,
}

pub hold_queued-Keeps : (id : ℕ) (db : Authority) → Keeps db.runs (hold_queued id db).runs
unfolding hold_queued
hold_queued-Keeps id db =
    Keeps-stop (in_session id is_queued) (λ r. held) (λ r. r.completed_at) db.runs (λ r. refl)
      (All-universal _ (λ r. ground arith) db.runs)

-- The rows that a test by the key takes are the one that was found.
pub only_found :
    (P : Run → Type 0) (id : ℕ) (run : Run) (rs : List Run)
    → IsSound rs
    → find? (has_id id) rs ≡ some run
    → P run
    → All (λ r. has_id id r ≡ true → P r) rs
only_found P id run rs h found p =
    All-weaken (λ r. has_id id r ≡ true → r ≡ run) (λ r. has_id id r ≡ true → P r)
      (λ r same held. subst P (sym (same held)) p) rs
      (All-unique (has_id id) (has_id id) rs run (λ r e. e) (h.keyed id) found)

cancel_queued_run-runs_of :
    (id now : ℕ) (db : Authority) (run : Run)
    → find? (has_id id) db.runs ≡ some run
    → (after db (cancel_queued_run id now db)).runs ≡ (
        if is_undelivered run.state
        then update_where (has_id id) (end_run cancelled now) db.runs
        else db.runs)
unfolding cancel_queued_run load_run find_run
cancel_queued_run-runs_of id now db run found = ground arith

pub cancel_queued_run-Keeps :
    (id now : ℕ) (db : Authority) → Keeps db.runs (after db (cancel_queued_run id now db)).runs
unfolding cancel_queued_run load_run find_run
cancel_queued_run-Keeps id now db = elim (Option-cases (find? (has_id id) db.runs)) [
  | inl missing ↦ rw missing (Keeps-refl db.runs)
  | inr (run, found) ↦
      rw (cancel_queued_run-runs_of id now db run found)
        (elim (Bool-cases (is_undelivered run.state)) [
          | inr settled ↦ rw settled (Keeps-refl db.runs)
          | inl waits ↦ rw waits λ h.
              Keeps-stop (has_id id) (λ r. cancelled) (λ r. some now) db.runs (λ r. refl)
                (only_found (λ r. leads_to r.state cancelled ≡ true) id run db.runs h found
                  (ground arith))
                h
        ])
]

submit_run-runs :
    (h : Hashes) (c : SubmitCommand) (run_id entry_id now : ℕ) (db : Authority)
    → ((after db (submit_run h c run_id entry_id now db)).runs ≡ db.runs)
      ⊎ ((any (has_id run_id) db.runs ≡ false)
          × (is_executing (new_run c run_id now db).state ≡ true
              → any (in_session c.session_id is_accepted) db.runs ≡ false)
          × ((after db (submit_run h c run_id entry_id now db)).runs
              ≡ db.runs ++ new_run c run_id now db ∷ []))
unfolding submit_run answer commit_receipt insert_receipt insert_entry insert_run
submit_run-runs h c run_id entry_id now db = ground arith

any_of_imp :
    (p q : Run → Bool) (rs : List Run)
    → ((r : Run) → p r ≡ true → q r ≡ true)
    → any q rs ≡ false
    → any p rs ≡ false
any_of_imp p q [] h e = refl
any_of_imp p q (r ∷ rs) h e = ground (arith, h r, any_of_imp p q rs h)

pub submit_run-Keeps :
    (h : Hashes) (c : SubmitCommand) (run_id entry_id now : ℕ) (db : Authority)
    → Keeps db.runs (after db (submit_run h c run_id entry_id now db)).runs
unfolding new_run
submit_run-Keeps h c run_id entry_id now db = elim (submit_run-runs h c run_id entry_id now db) [
  | inl same ↦ rw same (Keeps-refl db.runs)
  | inr (fresh, free, written) ↦ rw written (
      Keeps-append db.runs (new_run c run_id now db) fresh λ runs.
        any_of_imp (in_session c.session_id is_executing) (in_session c.session_id is_accepted)
          db.runs (λ r. ground arith) (free runs))
]

-- What `dispatchNext` finds first, and what it writes.
module _ (id : ℕ) (db : Authority) (run : Run) (first : next_queued id db.runs ≡ some run) where
  dispatch_next-runs_of :
      any (in_session id is_executing) db.runs ≡ false
      → (after db (dispatch_next id db)).runs
        ≡ update_where
            (λ (r : Run). (r.run_id == run.run_id) && is_queued r.state)
            (set_state executing)
            db.runs
  unfolding dispatch_next
  dispatch_next-runs_of free = rw (free, first)

  queued_there : in_session id is_queued run ≡ true
  unfolding next_queued
  queued_there =
      first-taken (λ (r : Run). r.session_order) (in_session id is_queued) db.runs run first

  -- No row of another Session has the identifier of the run that is dispatched.
  no_other :
      (s : ℕ)
      → (id == s) ≡ false
      → IsSound db.runs
      → count (λ (r : Run). has_id run.run_id r && (r.session_id == s)) db.runs ≡ 0
  unfolding next_queued
  no_other s other h =
      let here : 0 < count (λ (r : Run). has_id run.run_id r && (r.session_id == id)) db.runs =
        first-counted (λ (r : Run). r.session_order) (in_session id is_queued) db.runs run first
          (λ (r : Run). has_id run.run_id r && (r.session_id == id))
          (let q = queued_there in ground (arith, ==_refl run.run_id)) in
      let apart : count (λ (r : Run). has_id run.run_id r && (r.session_id == s)) db.runs
            + count (λ (r : Run). has_id run.run_id r && (r.session_id == id)) db.runs
          ≤ count (has_id run.run_id) db.runs =
        count-disjoint (λ (r : Run). has_id run.run_id r && (r.session_id == s))
          (λ (r : Run). has_id run.run_id r && (r.session_id == id)) (has_id run.run_id) db.runs
          (λ r e. (ground arith, ground arith)) (λ r e. ground arith) in
      let one = h.keyed run.run_id in omega arith

  -- A Session whose execution is the dispatched run has no other.
  dispatch_alone :
      any (in_session id is_executing) db.runs ≡ false
      → IsSound db.runs
      → (s : ℕ) → count (in_session s is_executing) db.runs ≤ 1
      → count (in_session s is_executing) db.runs
          + count
              (λ (r : Run).
                ((r.run_id == run.run_id) && is_queued r.state)
                && in_session s is_executing (set_state executing r))
              db.runs
        ≤ 1
  dispatch_alone free h s one = elim (Bool-cases (id == s)) [
    | inl same ↦
        let e : id ≡ s = (==_iff id s).0 same in
        let idle : count (in_session s is_executing) db.runs ≡ 0 =
          subst (λ k. count (in_session k is_executing) db.runs ≡ 0) e
            (count_of_not_any (in_session id is_executing) db.runs free) in
        omega (
          arith,
          h.keyed run.run_id,
          count-le_of_imp
              (λ (r : Run).
                ((r.run_id == run.run_id) && is_queued r.state)
                && in_session s is_executing (set_state executing r))
              (has_id run.run_id) db.runs (λ r k. ground arith),
        )
    | inr other ↦ omega (
      arith,
      no_other s other h,
      count-le_of_imp
          (λ (r : Run).
            ((r.run_id == run.run_id) && is_queued r.state)
            && in_session s is_executing (set_state executing r))
          (λ (r : Run). has_id run.run_id r && (r.session_id == s)) db.runs (λ r k. ground arith),
    )
  ]

pub dispatch_next-Keeps :
    (id : ℕ) (db : Authority) → Keeps db.runs (after db (dispatch_next id db)).runs
unfolding dispatch_next
dispatch_next-Keeps id db = elim (Bool-cases (any (in_session id is_executing) db.runs)) [
  | inl busy ↦ rw busy (Keeps-refl db.runs)
  | inr free ↦ elim (Option-cases (next_queued id db.runs)) [
    | inl idle ↦ rw (free, idle) (Keeps-refl db.runs)
    | inr (run, first) ↦ rw (dispatch_next-runs_of id db run first free) λ h.
        Keeps-update (λ (r : Run). (r.run_id == run.run_id) && is_queued r.state) (λ r. executing)
          (λ r. r.completed_at) db.runs (All-universal _ (λ r. ground arith) db.runs)
          (dispatch_alone id db run first free h) h
  ]
]

-- The guards of `releaseRun` after the run is found.
releasable : Run → Authority → Bool
releasable run db =
    is_held run.state
    && (not (any (in_session run.session_id is_executing) db.runs)
        && not (
            any
              (λ (r : Run).
                in_session run.session_id is_undelivered r && ltb r.session_order run.session_order)
              db.runs))

releasable_free :
    (run : Run) (db : Authority)
    → releasable run db ≡ true
    → any (in_session run.session_id is_executing) db.runs ≡ false
unfolding releasable
releasable_free run db h = ground arith

release_run-runs_of :
    (id : ℕ) (db : Authority) (run : Run)
    → find? (has_id id) db.runs ≡ some run
    → (after db (release_run id db)).runs ≡ (
        if releasable run db
        then update_where
            (in_session run.session_id is_held)
            (λ (r : Run). set_state (if r.run_id == id then executing else queued) r)
            db.runs
        else db.runs)
unfolding release_run load_run find_run releasable
release_run-runs_of id db run found = ground arith

release_alone :
    (id : ℕ) (db : Authority) (run : Run)
    → any (in_session run.session_id is_executing) db.runs ≡ false
    → IsSound db.runs
    → (s : ℕ) → count (in_session s is_executing) db.runs ≤ 1
    → count (in_session s is_executing) db.runs
        + count
            (λ (r : Run).
              in_session run.session_id is_held r
              && in_session s is_executing
                  (set_state (if r.run_id == id then executing else queued) r))
            db.runs
      ≤ 1
release_alone id db run free h s one = elim (Bool-cases (run.session_id == s)) [
  | inl same ↦
      let e : run.session_id ≡ s = (==_iff run.session_id s).0 same in
      let idle : count (in_session s is_executing) db.runs ≡ 0 =
        subst (λ k. count (in_session k is_executing) db.runs ≡ 0) e
          (count_of_not_any (in_session run.session_id is_executing) db.runs free) in
      omega (
        arith,
        h.keyed id,
        count-le_of_imp
            (λ (r : Run).
              in_session run.session_id is_held r
              && in_session s is_executing
                  (set_state (if r.run_id == id then executing else queued) r))
            (has_id id) db.runs (λ r k. ground arith),
      )
  | inr other ↦ omega (
    arith,
    count_zero_of_All
        (λ (r : Run).
          in_session run.session_id is_held r
          && in_session s is_executing (set_state (if r.run_id == id then executing else queued) r))
        db.runs (All-universal _ (λ r. ground arith) db.runs),
  )
]

pub release_run-Keeps :
    (id : ℕ) (db : Authority) → Keeps db.runs (after db (release_run id db)).runs
unfolding release_run load_run find_run
release_run-Keeps id db = elim (Option-cases (find? (has_id id) db.runs)) [
  | inl missing ↦ rw missing (Keeps-refl db.runs)
  | inr (run, found) ↦
      rw (release_run-runs_of id db run found) (elim (Bool-cases (releasable run db)) [
        | inr refused ↦ rw refused (Keeps-refl db.runs)
        | inl released ↦ rw released λ h.
            Keeps-update (in_session run.session_id is_held)
              (λ r. if r.run_id == id then executing else queued) (λ r. r.completed_at) db.runs
              (All-universal _ (λ r. ground arith) db.runs)
              (release_alone id db run (releasable_free run db released) h) h
      ])
]

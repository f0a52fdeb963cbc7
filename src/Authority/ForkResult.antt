-- ===== src/Authority/ForkResult.antt =====
-- What `forkSession` of packages/host/src/store.ts leaves, described apart from how it is copied.
use pidex.Prelude.{
  ℕ, ◌≡◌, ◌≢◌, refl, ap, subst, ◌⊎◌, inl, inr, Bool, true, false, ◌&&◌, List, [], ◌∷◌, ◌++◌, some,
  map, arith, ◌==◌, ◌≤◌, leb, any, select, select-All, All, All-weaken, All-select, All-order_by,
  All-of_select, All-of_order_by, Bool-cases, find?, find?_sound, text_eq, text_eq_sound,
  text_eq_refl, Text, Option, none,
}
use pidex.Authority.Schema.{
  Run, RunState, completed, failed, cancelled, interrupted, Entry, response, SessionSummary, Cursor,
  Authority,
}
use pidex.Authority.Result.{committed}
use pidex.Authority.Fork.{
  ForkRequest, is_fork_point, is_terminal, in_history, history_of, is_chosen, runs_of, child_run,
  child_entry, same_checkpoint, is_copied, find_point, fork_session,
}
use pidex.Authority.ForkHistory.{IsHistoryCopied, fork_session-copies}

-- A list holds a row.
abbrev pub Contains {ℓ} : {A : Type ℓ} → A → List A → Type ℓ
Contains {A = A} x xs = (before : List A) × (after : List A) × (xs ≡ before ++ x ∷ after)

-- An entry of the parent, up to the point.
abbrev pub IsUpTo : ForkRequest → Entry → Entry → Type 0
IsUpTo f point e = (e.session_id ≡ f.parent_session_id) × (e.entry_order ≤ point.entry_order)

abbrev pub IsEnded : RunState → Type 0
IsEnded s = (s ≡ completed) ⊎ ((s ≡ failed) ⊎ ((s ≡ cancelled) ⊎ (s ≡ interrupted)))

-- A copy has its own identifier, belongs to the child and to the copy of the Run, and is otherwise the
-- same; at the point it has the first checkpoint of the child.
pub record IsEntryCopy (f : ForkRequest) (point e c : Entry) : Type 0 where
  pub entry_id : c.entry_id ≡ f.child_entry_id e.entry_id
  pub session_id : c.session_id ≡ f.child_session_id
  pub run_id : c.run_id ≡ f.child_run_id e.run_id
  pub at_point : e.entry_order ≡ point.entry_order → c.checkpoint ≡ some f.child_genesis_checkpoint
  pub before_point : e.entry_order ≢ point.entry_order → c.checkpoint ≡ e.checkpoint
  pub rest :
      record c {
        entry_id = e.entry_id;
        session_id = e.session_id;
        run_id = e.run_id;
        checkpoint = e.checkpoint;
      }
      ≡ e

pub record IsRunCopy (f : ForkRequest) (r c : Run) : Type 0 where
  pub run_id : c.run_id ≡ f.child_run_id r.run_id
  pub session_id : c.session_id ≡ f.child_session_id
  pub rest : record c { run_id = r.run_id; session_id = r.session_id } ≡ r

-- The final response of the parent at which the fork was asked for, with its checkpoint; the child's
-- first checkpoint is another, and not blank.
pub record IsPoint (f : ForkRequest) (db : Authority) (p : Entry) : Type 0 where
  pub there : Contains p db.entries
  pub named : p.entry_id ≡ f.fork_point_entry_id
  pub of_parent : p.session_id ≡ f.parent_session_id
  pub final : p.finalized ≡ true
  pub kind : p.kind ≡ response
  pub checkpoint : p.checkpoint ≡ some f.parent_checkpoint
  pub not_blank : f.child_genesis_checkpoint ≢ []
  pub other : f.child_genesis_checkpoint ≢ f.parent_checkpoint

-- An ended Run of the parent.
abbrev pub IsEndedRun : ForkRequest → Authority → Run → Type 0
IsEndedRun f db r = Contains r db.runs × (r.session_id ≡ f.parent_session_id) × IsEnded r.state

pub record IsForked (f : ForkRequest) (db d : Authority) : Type 0 where
  pub point : Entry
  pub is_point : IsPoint f db point
  pub runs : List Run
  pub entries : List Entry
  pub runs_added : d.runs ≡ db.runs ++ runs
  pub entries_added : d.entries ≡ db.entries ++ entries
  pub all_copied :
      All
        (λ (e : Entry).
          IsUpTo f point e
          → (e.finalized ≡ true)
            × ((c : Entry) × Contains c entries × IsEntryCopy f point e c)
            × ((r : Run) × IsEndedRun f db r
                × (r.run_id ≡ e.run_id)
                × ((c : Run) × Contains c runs × IsRunCopy f r c)))
        db.entries
  pub only_entries :
      All
        (λ (c : Entry).
          (e : Entry) × Contains e db.entries × IsUpTo f point e × IsEntryCopy f point e c)
        entries
  pub only_runs :
      All
        (λ (c : Run).
          (r : Run) × IsEndedRun f db r
          × IsRunCopy f r c
          × ((e : Entry) × Contains e db.entries × IsUpTo f point e × (e.run_id ≡ r.run_id)))
        runs

module _ {ℓ} {A : Type ℓ} where
  Contains-cons : (x y : A) (xs : List A) → Contains x xs → Contains x (y ∷ xs)
  Contains-cons x y xs (before, after, e) = (y ∷ before, after, ap (λ (zs : List A). y ∷ zs) e)

  All-contained : (xs : List A) → All (λ x. Contains x xs) xs
  All-contained [] = tt
  All-contained (x ∷ xs) = (
    ([], xs, refl),
    All-weaken (λ y. Contains y xs) (λ y. Contains y (x ∷ xs)) (λ y. Contains-cons y x xs) xs
        (All-contained xs),
  )

  All-mapped {κ} : {B : Type κ} (g : A → B) (xs : List A) → All (λ x. Contains (g x) (map g xs)) xs
  All-mapped g [] = tt
  All-mapped {B = B} g (x ∷ xs) = (
    ([], map g xs, refl),
    All-weaken (λ y. Contains (g y) (map g xs)) (λ y. Contains (g y) (map g (x ∷ xs)))
        (λ y (before, after, e). (g x ∷ before, after, ap (λ (zs : List B). g x ∷ zs) e)) xs
        (All-mapped g xs),
  )

  All-map {κ μ} :
      {B : Type κ} (P : B → Type μ) (g : A → B) (xs : List A)
      → All (λ x. P (g x)) xs
      → All P (map g xs)
  All-map P g [] h = tt
  All-map P g (x ∷ xs) h = (h.0, All-map P g xs h.1)

  All-both {κ μ} :
      (P : A → Type κ) (Q : A → Type μ) (xs : List A)
      → All P xs
      → All Q xs
      → All (λ x. P x × Q x) xs
  All-both P Q [] h k = tt
  All-both P Q (x ∷ xs) h k = ((h.0, k.0), All-both P Q xs h.1 k.1)

  All-found {κ} :
      (P : A → Type κ) (p : A → Bool) (xs : List A) {x : A} → All P xs → find? p xs ≡ some x → P x
  All-found P p [] h e = absurd (cc)
  All-found P p (y ∷ ys) h e = elim (Bool-cases (p y)) [
    | inl k ↦ subst P (ground arith) h.0
    | inr k ↦ All-found P p ys h.1 (ground arith)
  ]

  -- One that passes a test, with what holds of all.
  any-All {κ} :
      (P : A → Type κ) (p : A → Bool) (xs : List A)
      → All P xs
      → any p xs ≡ true
      → (x : A) × P x × (p x ≡ true)
  any-All P p [] h e = absurd (cc)
  any-All P p (x ∷ xs) h e = elim (Bool-cases (p x)) [
    | inl k ↦ (x, h.0, k)
    | inr k ↦ any-All P p xs h.1 (ground arith)
  ]

is_terminal-IsEnded : (s : RunState) → is_terminal s ≡ true → IsEnded s
is_terminal-IsEnded s h = ground arith

child_entry-IsEntryCopy :
    (f : ForkRequest) (point e : Entry) → IsEntryCopy f point e (child_entry f point e)
unfolding child_entry
child_entry-IsEntryCopy f point e = record {
  entry_id = refl;
  session_id = refl;
  run_id = refl;
  at_point = λ same. ground arith;
  before_point = λ (other : e.entry_order ≢ point.entry_order). ground arith;
  rest = refl;
}

child_run-IsRunCopy : (f : ForkRequest) (r : Run) → IsRunCopy f r (child_run f r)
child_run-IsRunCopy f r = record { run_id = refl; session_id = refl; rest = refl }

same_checkpoint_sound : (o : Option Text) (t : Text) → same_checkpoint o t ≡ true → o ≡ some t
same_checkpoint_sound none t h = absurd (cc)
same_checkpoint_sound (some c) t h = ap some (text_eq_sound c t h)

module _ (f : ForkRequest) (db : Authority) where
  find_point-IsPoint :
      (p : Entry) → find_point f db ≡ some p → is_fork_point f p ≡ true → IsPoint f db p
  unfolding is_fork_point
  find_point-IsPoint p found admitted =
      let asked =
        find?_sound
          (λ (e : Entry).
            (e.session_id == f.parent_session_id) && (e.entry_id == f.fork_point_entry_id))
          db.entries found in
      record {
        there =
            All-found (λ (e : Entry). Contains e db.entries)
              (λ (e : Entry).
                (e.session_id == f.parent_session_id) && (e.entry_id == f.fork_point_entry_id))
              db.entries (All-contained db.entries) found;
        named = ground arith;
        of_parent = ground arith;
        final = ground arith;
        kind = ground arith;
        checkpoint = same_checkpoint_sound p.checkpoint f.parent_checkpoint (ground arith);
        not_blank = λ (e : f.child_genesis_checkpoint ≡ []). absurd (ground arith);
        other = λ (e : f.child_genesis_checkpoint ≡ f.parent_checkpoint).
            let same = text_eq_refl f.parent_checkpoint in
            let differ : text_eq f.child_genesis_checkpoint f.parent_checkpoint ≡ false =
              ground arith in
            absurd (cc);
      }

  module _ (point : Entry) where
    abbrev chosen : List Run
    chosen = runs_of f point db.entries db.runs

    abbrev histories : List Entry
    histories = history_of f point db.entries

    in_history-IsUpTo : (e : Entry) → in_history f point e ≡ true → IsUpTo f point e
    in_history-IsUpTo e h = (ground arith, ground arith)

    chosen-IsEndedRun : All (λ (r : Run). IsEndedRun f db r) chosen
    unfolding runs_of
    chosen-IsEndedRun =
        All-select (λ (r : Run). IsEndedRun f db r) (is_chosen f point db.entries) db.runs
          (All-weaken (λ (r : Run). Contains r db.runs)
            (λ (r : Run). is_chosen f point db.entries r ≡ true → IsEndedRun f db r)
            (λ (r : Run) c h. (c, ground arith, is_terminal-IsEnded r.state (ground arith))) db.runs
            (All-contained db.runs))

    copied_run :
        (e : Entry)
        → is_copied chosen e ≡ true
        → (r : Run) × IsEndedRun f db r
          × (r.run_id ≡ e.run_id)
          × ((c : Run) × Contains c (map (child_run f) chosen) × IsRunCopy f r c)
    copied_run e h =
        let (r, k, same) =
          any-All
            (λ (r : Run). IsEndedRun f db r × Contains (child_run f r) (map (child_run f) chosen))
            (λ (r : Run). r.run_id == e.run_id) chosen
            (All-both (λ (r : Run). IsEndedRun f db r)
              (λ (r : Run). Contains (child_run f r) (map (child_run f) chosen)) chosen
              chosen-IsEndedRun (All-mapped (child_run f) chosen))
            (ground arith) in
        (r, k.0, ground arith, (child_run f r, k.1, child_run-IsRunCopy f r))

    abbrev Copied : Entry → Type 0
    Copied e =
        (is_copied chosen e ≡ true)
        × Contains (child_entry f point e) (map (child_entry f point) histories)

    histories-Copied :
        All (λ (e : Entry). is_copied chosen e ≡ true) histories
        → All (λ (e : Entry). in_history f point e ≡ true → Copied e) db.entries
    unfolding history_of
    histories-Copied h = All-of_select Copied (in_history f point) db.entries (
        All-of_order_by Copied (λ (a : Entry) (b : Entry). leb a.entry_order b.entry_order)
          (select (in_history f point) db.entries)
          (All-both (λ (e : Entry). is_copied chosen e ≡ true)
            (λ (e : Entry). Contains (child_entry f point e) (map (child_entry f point) histories))
            histories h (All-mapped (child_entry f point) histories)))

    histories_from : All (λ (e : Entry). Contains e db.entries × IsUpTo f point e) histories
    unfolding history_of
    histories_from =
        All-order_by (λ (e : Entry). Contains e db.entries × IsUpTo f point e)
          (λ (a : Entry) (b : Entry). leb a.entry_order b.entry_order)
          (select (in_history f point) db.entries)
          (All-select (λ (e : Entry). Contains e db.entries × IsUpTo f point e) (in_history f point)
            db.entries
            (All-weaken (λ (e : Entry). Contains e db.entries)
              (λ (e : Entry).
                in_history f point e ≡ true → Contains e db.entries × IsUpTo f point e)
              (λ (e : Entry) c h. (c, in_history-IsUpTo e h)) db.entries
              (All-contained db.entries)))

    abbrev NamesRun : Run → Type 0
    NamesRun r = (e : Entry) × Contains e db.entries × IsUpTo f point e × (e.run_id ≡ r.run_id)

    chosen-NamesRun : All NamesRun chosen
    unfolding runs_of
    chosen-NamesRun =
        All-weaken (λ (r : Run). is_chosen f point db.entries r ≡ true) NamesRun
          (λ (r : Run) h.
            let (e, c, k) =
              any-All (λ (e : Entry). Contains e db.entries)
                (λ (e : Entry). in_history f point e && (e.run_id == r.run_id)) db.entries
                (All-contained db.entries) (ground arith) in
            (e, c, in_history-IsUpTo e (ground arith), ground arith))
          chosen (select-All (is_chosen f point db.entries) db.runs)

  IsHistoryCopied-IsForked : (d : Authority) → IsHistoryCopied f db d → IsForked f db d
  IsHistoryCopied-IsForked d h = record {
    point = h.point;
    is_point = find_point-IsPoint h.point h.is_found h.is_admitted;
    runs = map (child_run f) (chosen h.point);
    entries = map (child_entry f h.point) (histories h.point);
    runs_added = h.runs;
    entries_added = h.entries;
    all_copied =
        All-weaken (λ (e : Entry). in_history f h.point e ≡ true → Copied h.point e)
          (λ (e : Entry).
            IsUpTo f h.point e
            → (e.finalized ≡ true)
              × ((c : Entry) × Contains c (map (child_entry f h.point) (histories h.point))
                  × IsEntryCopy f h.point e c)
              × ((r : Run) × IsEndedRun f db r
                  × (r.run_id ≡ e.run_id)
                  × ((c : Run) × Contains c (map (child_run f) (chosen h.point))
                      × IsRunCopy f r c)))
          (λ (e : Entry) k (up : IsUpTo f h.point e).
            let of_parent = up.0 in
            let before = up.1 in
            let taken : in_history f h.point e ≡ true = ground arith in
            let copied = k taken in
            let there = copied.0 in
            (
              ground arith,
              (child_entry f h.point e, copied.1, child_entry-IsEntryCopy f h.point e),
              copied_run h.point e copied.0,
            ))
          db.entries (histories-Copied h.point h.are_copied);
    only_entries =
        All-map
          (λ (c : Entry).
            (e : Entry) × Contains e db.entries × IsUpTo f h.point e × IsEntryCopy f h.point e c)
          (child_entry f h.point) (histories h.point)
          (All-weaken (λ (e : Entry). Contains e db.entries × IsUpTo f h.point e)
            (λ (x : Entry).
              (e : Entry) × Contains e db.entries
              × IsUpTo f h.point e
              × IsEntryCopy f h.point e (child_entry f h.point x))
            (λ (e : Entry) k. (e, k.0, k.1, child_entry-IsEntryCopy f h.point e))
            (histories h.point) (histories_from h.point));
    only_runs =
        All-map
          (λ (c : Run).
            (r : Run) × IsEndedRun f db r
            × IsRunCopy f r c
            × ((e : Entry) × Contains e db.entries × IsUpTo f h.point e × (e.run_id ≡ r.run_id)))
          (child_run f) (chosen h.point)
          (All-weaken (λ (r : Run). IsEndedRun f db r × NamesRun h.point r)
            (λ (x : Run).
              (r : Run) × IsEndedRun f db r
              × IsRunCopy f r (child_run f x)
              × ((e : Entry) × Contains e db.entries × IsUpTo f h.point e × (e.run_id ≡ r.run_id)))
            (λ (r : Run) k. (r, k.0, child_run-IsRunCopy f r, k.1)) (chosen h.point)
            (All-both (λ (r : Run). IsEndedRun f db r) (NamesRun h.point) (chosen h.point)
              (chosen-IsEndedRun h.point) (chosen-NamesRun h.point)));
  }

-- A fork that commits has found the final response of the parent at which it was asked for, with its
-- checkpoint, and copies the parent's entries up to it, that one included: every one of them is final and
-- is copied to the child, together with its Run, which has ended; the Runs and entries from before are
-- unchanged, and only copies of these are added behind them.
pub fork_session-IsForked :
    (f : ForkRequest) (now : ℕ) (db d : Authority) (session : SessionSummary) (cursor : Cursor)
    → fork_session f now db ≡ committed (d, (session, cursor))
    → IsForked f db d
fork_session-IsForked f now db d session cursor e =
    IsHistoryCopied-IsForked f db d (fork_session-copies f now db d session cursor e)

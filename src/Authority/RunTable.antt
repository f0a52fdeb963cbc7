-- ===== src/Authority/RunTable.antt =====
-- The table of the runs: what its keys and its guards keep, and how the writes of
-- packages/host/src/store.ts keep it.
use pidex.Prelude.{
  ℕ, ◌+◌, ◌≤◌, ◌≡◌, refl, Bool, true, false, ◌&&◌, List, [], ◌∷◌, ◌++◌, Option, arith, ◌==◌, ==_iff,
  Bool-cases, inl, inr, All, All-weaken, any, count, update_where, All-universal, count_zero_of_All,
  count-append, count-update_where_eq, count-update_where_among, count_of_not_any,
}
use pidex.Authority.Schema.{Run, RunState}
use pidex.Authority.States.{is_executing}
use pidex.Authority.Runs.{in_session}
use pidex.Authority.Lifecycle.{
  Evolves, Evolves-refl, Evolves-trans, Evolves-append, Evolves-update_where, Advances, leads_to,
}

abbrev pub has_id : ℕ → Run → Bool
has_id id r = r.run_id == id

-- The primary key, and one execution in a Session at most.
pub record IsSound (runs : List Run) : Type 0 where
  pub keyed : (id : ℕ) → count (has_id id) runs ≤ 1
  pub exclusive : (s : ℕ) → count (in_session s is_executing) runs ≤ 1

-- A write that keeps the table sound and moves its rows along the lifecycle.
pub record Preserves (rs ts : List Run) : Type 0 where
  pub sound : IsSound ts
  pub evolves : Evolves rs ts

abbrev pub Keeps : List Run → List Run → Type 0
Keeps rs ts = IsSound rs → Preserves rs ts

pub Keeps-refl : (rs : List Run) → Keeps rs rs
Keeps-refl rs h = record { sound = h; evolves = Evolves-refl rs }

pub Keeps-trans : (rs ss ts : List Run) → Keeps rs ss → Keeps ss ts → Keeps rs ts
Keeps-trans rs ss ts f g h = record {
  sound = (g (f h).sound).sound;
  evolves = Evolves-trans rs ss ts (f h).evolves (g (f h).sound).evolves;
}

pub Keeps-append :
    (rs : List Run) (r : Run)
    → any (has_id r.run_id) rs ≡ false
    → (is_executing r.state ≡ true → any (in_session r.session_id is_executing) rs ≡ false)
    → Keeps rs (rs ++ r ∷ [])
Keeps-append rs r fresh free h = record {
  sound = record {
    keyed = λ id. rw (count-append (has_id id) rs (r ∷ [])) (keyed_lem id);
    exclusive = λ s. rw (count-append (in_session s is_executing) rs (r ∷ [])) (exclusive_lem s);
  };
  evolves = Evolves-append rs (r ∷ []);
}
  where
    keyed_lem : (id : ℕ) → count (has_id id) rs + count (has_id id) (r ∷ []) ≤ 1
    keyed_lem id = elim (Bool-cases (r.run_id == id)) [
      | inl same ↦
          let e : r.run_id ≡ id = (==_iff r.run_id id).0 same in
          ground (arith, count_of_not_any (has_id r.run_id) rs fresh, e)
      | inr other ↦ ground (arith, h.keyed id)
    ]

    exclusive_lem :
        (s : ℕ)
        → count (in_session s is_executing) rs + count (in_session s is_executing) (r ∷ []) ≤ 1
    exclusive_lem s = elim (Bool-cases (is_executing r.state)) [
      | inl runs ↦ elim (Bool-cases (r.session_id == s)) [
        | inl same ↦
            let e : r.session_id ≡ s = (==_iff r.session_id s).0 same in
            let none_yet : count (in_session r.session_id is_executing) rs ≡ 0 =
              count_of_not_any (in_session r.session_id is_executing) rs (free runs) in
            ground (arith, none_yet, e)
        | inr other ↦ ground (arith, h.exclusive s)
      ]
      | inr waits ↦ ground (arith, h.exclusive s)
    ]

-- UPDATE runs SET state = …, completed_at = … WHERE …
abbrev pub restate : (Run → RunState) → (Run → Option ℕ) → Run → Run
restate state at r = record r { state = state r; completed_at = at r }

module _ (p : Run → Bool) (state : Run → RunState) (at : Run → Option ℕ) (rs : List Run) where
  -- The lifecycle allows each change, and what starts to execute does so alone.
  pub Keeps-update :
      All (λ r. p r ≡ true → leads_to r.state (state r) ≡ true) rs
      → ((s : ℕ)
          → count (in_session s is_executing) rs ≤ 1
          → count (in_session s is_executing) rs
              + count (λ r. p r && in_session s is_executing (restate state at r)) rs
            ≤ 1)
      → Keeps rs (update_where p (restate state at) rs)
  Keeps-update lawful alone h = record {
    sound = record {
      keyed = λ id.
          rw (count-update_where_eq (has_id id) p (restate state at) rs (λ r. refl)) (h.keyed id);
      exclusive = λ s. omega (
        arith,
        count-update_where_among (in_session s is_executing) p (restate state at) rs,
        alone s (h.exclusive s),
      );
    };
    evolves = Evolves-update_where p (restate state at) rs (
        All-weaken (λ r. p r ≡ true → leads_to r.state (state r) ≡ true)
          (λ r. p r ≡ true → Advances r (restate state at r))
          (λ r l taken. record {
            same_id = refl;
            same_session = refl;
            same_order = refl;
            same_prompt = refl;
            same_creation = refl;
            lawful = l taken;
          })
          rs lawful);
  }

  -- Where nothing starts to execute, the second condition is void.
  pub Keeps-stop :
      ((r : Run) → is_executing (state r) ≡ false)
      → All (λ r. p r ≡ true → leads_to r.state (state r) ≡ true) rs
      → Keeps rs (update_where p (restate state at) rs)
  Keeps-stop idle lawful = Keeps-update lawful λ s one. omega (
    arith,
    count_zero_of_All (λ r. p r && in_session s is_executing (restate state at r)) rs
        (All-universal _ (λ r. ground (arith, idle r)) rs),
  )

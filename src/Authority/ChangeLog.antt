-- ===== src/Authority/ChangeLog.antt =====
-- The log of changes of packages/host/src/store.ts: the sequence of the Host and the sequences of the
-- rows.
use pidex.Prelude.{
  true, ◌≡◌, ℕ, ◌+◌, ◌≤◌, ◌<◌, List, [], ◌∷◌, ◌++◌, arith, Bool, Bool-cases, inl, inr, select,
  All-select, All, All-append, All-weaken,
}
use pidex.Authority.Schema.{Change}

-- The rows stand in the order of their sequences, from a bound on.
abbrev pub Increasing : ℕ → List Change → Type 0
Increasing low [] = Unit
Increasing low (c ∷ cs) = (low ≤ c.sequence) × Increasing (c.sequence + 1) cs

-- The rows' sequences are no more than the Host's, and they increase.
pub record IsLog (s : ℕ) (cs : List Change) : Type 0 where
  pub bounded : All (λ (c : Change). c.sequence ≤ s) cs
  pub increasing : Increasing 0 cs

pub IsLog-grow : (s t : ℕ) (cs : List Change) → s ≤ t → IsLog s cs → IsLog t cs
IsLog-grow s t cs le h = record {
  bounded = All-weaken _ _ (λ c k. omega arith) cs h.bounded;
  increasing = h.increasing;
}

Increasing-append :
    (low s : ℕ) (cs : List Change) (c : Change)
    → All (λ (x : Change). x.sequence ≤ s) cs
    → s < c.sequence
    → low ≤ c.sequence
    → Increasing low cs
    → Increasing low (cs ++ c ∷ [])
Increasing-append low s [] c b l m h = (m, tt)
Increasing-append low s (x ∷ xs) c b l m h =
    (h.0, Increasing-append (x.sequence + 1) s xs c b.1 l (omega (arith, b.0)) h.1)

pub IsLog-push :
    (s t : ℕ) (cs : List Change) (c : Change)
    → s < c.sequence
    → c.sequence ≤ t
    → IsLog s cs
    → IsLog t (cs ++ c ∷ [])
IsLog-push s t cs c l m h = record {
  bounded = All-append _ cs (c ∷ []) (IsLog-grow s t cs (omega arith) h).bounded (m, tt);
  increasing = Increasing-append 0 s cs c h.bounded l (omega arith) h.increasing;
}

Increasing-select :
    (p : Change → Bool) (low more : ℕ) (cs : List Change)
    → low ≤ more
    → Increasing more cs
    → Increasing low (select p cs)
Increasing-select p low more [] le h = tt
Increasing-select p low more (c ∷ cs) le h = elim (Bool-cases (p c)) [
  | inl kept ↦ rw kept (
    omega (arith, h.0),
    Increasing-select p (c.sequence + 1) (c.sequence + 1) cs (omega arith) h.1,
  )
  | inr gone ↦ rw gone (Increasing-select p low (c.sequence + 1) cs (omega (arith, h.0)) h.1)
]

-- A part of the log is a log.
pub IsLog-select :
    (p : Change → Bool) (s : ℕ) (cs : List Change) → IsLog s cs → IsLog s (select p cs)
IsLog-select p s cs h = record {
  bounded =
      All-select (λ (c : Change). c.sequence ≤ s) p cs
        (All-weaken (λ (c : Change). c.sequence ≤ s) (λ (c : Change). p c ≡ true → c.sequence ≤ s)
          (λ c k _. k) cs h.bounded);
  increasing = Increasing-select p 0 0 cs (omega arith) h.increasing;
}

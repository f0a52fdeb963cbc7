-- ===== src/Authority/RunSettlement.antt =====
-- A Run ends once: `settleRun` of packages/host/src/store.ts over any history of the store.
use pidex.Prelude.{
  Text, ℕ, ◌≡◌, refl, true, false, ◌&&◌, List, [], ◌∷◌, Option, some, ◌==◌, arith, find?,
  update_where, Bool-cases, Option-cases, inl, inr,
}
use pidex.Authority.Schema.{Run, RunState, Authority}
use pidex.Authority.Result.{committed, thrown, run_not_accepted}
use pidex.Authority.States.{is_in_flight}
use pidex.Authority.Insert.{insert_entry, insert_change}
use pidex.Authority.Query.{find_run, record_change}
use pidex.Authority.Command.{Hashes}
use pidex.Authority.Runs.{end_run}
use pidex.Authority.Interactions.{record_unread_milestone}
use pidex.Authority.Settlement.{TerminalState, to_run_state, Attempt, settle_run}
use pidex.Authority.Operation.{Operation, history}
use pidex.Authority.Lifecycle.{is_terminal, Evolves, leads_to}
use pidex.Authority.RunTable.{IsSound, has_id}
use pidex.Authority.RunEnd.{settle_run-Keeps}
use pidex.Authority.RunHistory.{history-Keeps}

-- A row is found again where it stood.
find?-Evolves :
    (id : ℕ) (rs ts : List Run) (r : Run)
    → Evolves rs ts
    → find? (has_id id) rs ≡ some r
    → (t : Run) × (find? (has_id id) ts ≡ some t) × (leads_to r.state t.state ≡ true)
find?-Evolves id [] ts r h e = cc
find?-Evolves id (x ∷ rs) [] r h e = absurd h
find?-Evolves id (x ∷ rs) (t ∷ ts) r h e = elim (Bool-cases (has_id id x)) [
  | inl here ↦ let same = h.0.same_id in let lawful = h.0.lawful in (t, ground arith, ground arith)
  | inr there ↦
      let same = h.0.same_id in
      let (u, found, lawful) = find?-Evolves id rs ts r h.1 (ground arith) in
      (u, ground arith, lawful)
]

find?-ended :
    (id now : ℕ) (state : RunState) (rs : List Run) (r : Run)
    → find? (has_id id) rs ≡ some r
    → is_in_flight r.state ≡ true
    → find? (has_id id) (
        update_where (λ (x : Run). (x.run_id == id) && is_in_flight x.state) (end_run state now) rs)
      ≡ some (end_run state now r)
find?-ended id now state [] r e k = cc
find?-ended id now state (x ∷ rs) r e k = elim (Bool-cases (has_id id x)) [
  | inl here ↦ ground arith
  | inr there ↦ let ih = find?-ended id now state rs r in ground arith
]

to_run_state-terminal : (t : TerminalState) → is_terminal (to_run_state t) ≡ true
to_run_state-terminal t = ground arith

not_in_flight_of_terminal :
    (s t : RunState) → is_terminal s ≡ true → leads_to s t ≡ true → is_in_flight t ≡ false
not_in_flight_of_terminal s t h k = ground arith

-- What a settlement that commits does to the row of its Run.
settle_run-found :
    (h : Hashes) (id : ℕ) (result : TerminalState) (text : Text) (checkpoint : Option Text)
    (attempt : Attempt) (now : ℕ) (db d : Authority) (run : Run)
    → settle_run h id result text checkpoint attempt now db ≡ committed (d, run)
    → (r : Run) × (find? (has_id id) d.runs ≡ some r) × (r.state ≡ to_run_state result)
unfolding settle_run find_run insert_entry record_unread_milestone record_change insert_change
settle_run-found h id result text checkpoint attempt now db d run e =
    elim (Option-cases (find? (has_id id) db.runs)) [
      | inl missing ↦ cc (rw (missing, settle_run) at e)
      | inr (row, found) ↦
          let flying : is_in_flight row.state ≡ true = ground arith in
          let ended = find?-ended id now (to_run_state result) db.runs row found flying in
          (end_run (to_run_state result) now row, ground arith, refl)
    ]

settle_run-refused :
    (h : Hashes) (id : ℕ) (result : TerminalState) (text : Text) (checkpoint : Option Text)
    (attempt : Attempt) (now : ℕ) (db : Authority) (r : Run)
    → find? (has_id id) db.runs ≡ some r
    → is_in_flight r.state ≡ false
    → settle_run h id result text checkpoint attempt now db ≡ thrown run_not_accepted
unfolding settle_run find_run
settle_run-refused h id result text checkpoint attempt now db r found ended = ground arith

-- From a sound table of Runs, a Run whose settlement committed cannot be settled again, with any
-- result and after any operations.
pub settle_run-once :
    (h : Hashes) (id : ℕ) (result again : TerminalState) (text other : Text)
    (checkpoint evidence : Option Text) (attempt retry : Attempt) (now later : ℕ) (db d : Authority)
    (run : Run) (os : List Operation)
    → IsSound db.runs
    → settle_run h id result text checkpoint attempt now db ≡ committed (d, run)
    → settle_run h id again other evidence retry later (history h d os) ≡ thrown run_not_accepted
settle_run-once h id result again text other checkpoint evidence attempt retry now later db d run os
      sound e =
    let (r, found, ended) = settle_run-found h id result text checkpoint attempt now db d run e in
    let kept = settle_run-Keeps h id result text checkpoint attempt now db sound in
    let sound' : IsSound d.runs = rw e at kept.sound in
    let (t, there, lawful) =
      find?-Evolves id d.runs (history h d os).runs r (history-Keeps h d os sound').evolves found in
    settle_run-refused h id again other evidence retry later (history h d os) t there
      (not_in_flight_of_terminal r.state t.state (rw ended (to_run_state-terminal result)) lawful)

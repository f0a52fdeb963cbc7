-- ===== src/Authority/Following.antt =====
-- What a client that follows the log of changes of packages/host/src/store.ts holds: the changes that
-- it had, and behind them those above its cursor.
use pidex.Prelude.{
  select-append, ℕ, ◌+◌, ◌≤◌, ◌<◌, ◌≡◌, refl, sym, ap, ◌∙◌, List, [], ◌∷◌, ◌++◌, All, All-weaken,
  select, order_by_sorted, Ascending, ltb, arith, true, Bool,
}
use pidex.Authority.Schema.{Authority, Change}
use pidex.Authority.Synchronization.{changes_after, change_sequence}
use pidex.Authority.ChangeLog.{Increasing, IsLog, IsLog-select}

abbrev pub is_above : ℕ → Change → Bool
is_above cursor c = ltb cursor c.sequence

pub record Follows (cursor : ℕ) (base cs : List Change) : Type 0 where
  pub joined : cs ≡ base ++ select (is_above cursor) cs

append_assoc : (xs ys zs : List Change) → (xs ++ ys) ++ zs ≡ xs ++ (ys ++ zs)
append_assoc [] ys zs = refl
append_assoc (x ∷ xs) ys zs = ap (λ (ws : List Change). x ∷ ws) (append_assoc xs ys zs)

select-one : (p : Change → Bool) (c : Change) → p c ≡ true → select p (c ∷ []) ≡ c ∷ []
select-one p c h = rw h refl

pub Follows-push :
    (cursor : ℕ) (base cs : List Change) (c : Change)
    → cursor < c.sequence
    → Follows cursor base cs
    → Follows cursor base (cs ++ c ∷ [])
Follows-push cursor base cs c l h = record {
  joined =
      ap (λ (xs : List Change). xs ++ c ∷ []) h.joined
      ∙ append_assoc base (select (is_above cursor) cs) (c ∷ [])
      ∙ ap (λ (xs : List Change). base ++ (select (is_above cursor) cs ++ xs))
          (sym (select-one (is_above cursor) c (ground arith)))
      ∙ ap (λ (xs : List Change). base ++ xs) (sym (select-append (is_above cursor) cs (c ∷ [])));
}

pub select-none :
    (cursor : ℕ) (cs : List Change)
    → All (λ (c : Change). c.sequence ≤ cursor) cs
    → select (is_above cursor) cs ≡ []
select-none cursor [] h = refl
select-none cursor (c ∷ cs) h = let ih = select-none cursor cs h.1 in let k = h.0 in ground arith

append-nil : (xs : List Change) → xs ≡ xs ++ []
append-nil [] = refl
append-nil (x ∷ xs) = ap (λ (ys : List Change). x ∷ ys) (append-nil xs)

-- At the cursor of the moment nothing is missed yet.
pub Follows-start : (cursor : ℕ) (cs : List Change) → IsLog cursor cs → Follows cursor cs cs
Follows-start cursor cs h = record {
  joined =
      append-nil cs ∙ ap (λ (xs : List Change). cs ++ xs) (sym (select-none cursor cs h.bounded));
}

pub Increasing-least :
    (low : ℕ) (cs : List Change) → Increasing low cs → All (λ (c : Change). low ≤ c.sequence) cs
Increasing-least low [] h = tt
Increasing-least low (c ∷ cs) h = (
  h.0,
  All-weaken (λ (x : Change). c.sequence + 1 ≤ x.sequence) (λ (x : Change). low ≤ x.sequence)
      (λ x k. omega (arith, h.0)) cs (Increasing-least (c.sequence + 1) cs h.1),
)

Ascending-of_Increasing :
    (low : ℕ) (cs : List Change) → Increasing low cs → Ascending change_sequence cs
Ascending-of_Increasing low [] h = tt
Ascending-of_Increasing low (c ∷ cs) h = (
  All-weaken (λ (x : Change). c.sequence + 1 ≤ x.sequence) (λ (x : Change). c.sequence ≤ x.sequence)
      (λ x k. omega arith) cs (Increasing-least (c.sequence + 1) cs h.1),
  Ascending-of_Increasing (c.sequence + 1) cs h.1,
)

-- The rows of a log come out of the database in the order in which they went in.
pub changes_after-select :
    (cursor : ℕ) (db : Authority)
    → IsLog db.host.sequence db.changes
    → changes_after cursor db ≡ select (is_above cursor) db.changes
unfolding changes_after
changes_after-select cursor db h = order_by_sorted change_sequence _ (
    Ascending-of_Increasing 0 _
      (IsLog-select (is_above cursor) db.host.sequence db.changes h).increasing)

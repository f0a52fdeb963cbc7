-- ===== src/Authority/Compaction.antt =====
-- The compaction of the log of changes in `runMaintenance` of packages/host/src/store.ts, and the
-- cursors that `cursorBasis` admits after it.
use pidex.Prelude.{
  ℕ, ◌+◌, ◌≤◌, ◌≡◌, refl, sym, ap, ◌∙◌, List, [], ◌∷◌, All, All-weaken, All-select, select,
  Ascending, ltb, arith, true, false, not, Bool, Bool-cases, Option-cases, some, inl, inr,
}
use pidex.Authority.Schema.{Authority, Change, Cursor}
use pidex.Authority.Synchronization.{
  changes_after, compact_changes, is_expired, cursor_basis, compatible, precedes_history,
  earliest_sequence,
}
use pidex.Authority.ChangeLog.{Increasing, IsLog, IsLog-select}
use pidex.Authority.Following.{is_above, Increasing-least, changes_after-select, select-none}

abbrev is_kept : ℕ → Change → Bool
is_kept now c = not (is_expired now c)

abbrev committed_time : Change → ℕ
committed_time c = c.committed_at

select-of_All : (p : Change → Bool) (cs : List Change) → All (λ c. p c ≡ true) cs → select p cs ≡ cs
select-of_All p [] h = refl
select-of_All p (c ∷ cs) h = rw h.0 (ap (λ (xs : List Change). c ∷ xs) (select-of_All p cs h.1))

earliest-least :
    (low s : ℕ) (cs : List Change)
    → All (λ (c : Change). low ≤ c.sequence) cs
    → precedes_history s (earliest_sequence cs) ≡ false
    → low ≤ s + 1
unfolding earliest_sequence
earliest-least low s [] h k = cc
earliest-least low s (c ∷ cs) h k = elim (Option-cases (earliest_sequence cs)) [
  | inl alone ↦ let l = h.0 in ground arith
  | inr (e, found) ↦ let l = h.0 in let ih = earliest-least low s cs h.1 in ground arith
]

-- Expired rows stand before the rows that are kept, and below the first of them.
select-compacted :
    (now low s : ℕ) (cs : List Change)
    → Increasing low cs
    → Ascending committed_time cs
    → precedes_history s (earliest_sequence (select (is_kept now) cs)) ≡ false
    → select (is_above s) (select (is_kept now) cs) ≡ select (is_above s) cs
select-compacted now low s [] i a k = refl
select-compacted now low s (c ∷ cs) i a k = elim (Bool-cases (is_kept now c)) [
  | inl kept ↦ ap (select (is_above s)) (
      select-of_All (is_kept now) (c ∷ cs) (
        kept,
        All-weaken (λ (x : Change). c.committed_at ≤ x.committed_at)
            (λ (x : Change). is_kept now x ≡ true) (λ x l. ground arith) cs a.0,
      ))
  | inr gone ↦
      let rest : precedes_history s (earliest_sequence (select (is_kept now) cs)) ≡ false =
        rw gone at k in
      let passed : c.sequence + 1 ≤ s + 1 =
        earliest-least (c.sequence + 1) s (select (is_kept now) cs)
          (All-select (λ (x : Change). c.sequence + 1 ≤ x.sequence) (is_kept now) cs
            (All-weaken (λ (x : Change). c.sequence + 1 ≤ x.sequence)
              (λ (x : Change). is_kept now x ≡ true → c.sequence + 1 ≤ x.sequence) (λ x l _. l) cs
              (Increasing-least (c.sequence + 1) cs i.1)))
          rest in
      let below : is_above s c ≡ false = ground arith in
      rw (gone, below) (select-compacted now (c.sequence + 1) s cs i.1 a.1 rest)
]

-- Where the rows stand in the order of their sequences and of their times, and a cursor is admitted
-- after the compaction, the changes after it are those that were there before: what the compaction
-- deleted, the client had seen.
pub changes_after-compacted :
    (now s : ℕ) (cursor : Cursor) (db : Authority)
    → IsLog db.host.sequence db.changes
    → Ascending (λ (c : Change). c.committed_at) db.changes
    → cursor_basis (some cursor) (compact_changes now db) ≡ compatible s
    → changes_after s (compact_changes now db) ≡ changes_after s db
unfolding compact_changes cursor_basis
changes_after-compacted now s cursor db log timed basis =
    changes_after-select s (compact_changes now db)
      (IsLog-select (is_kept now) db.host.sequence db.changes log)
    ∙ (elim (Bool-cases (ltb s db.host.sequence)) [
      | inl behind ↦ select-compacted now 0 s db.changes log.increasing timed (ground arith)
      | inr current ↦
          select-none s (select (is_kept now) db.changes) (
            All-weaken (λ (c : Change). c.sequence ≤ db.host.sequence)
              (λ (c : Change). c.sequence ≤ s) (λ c l. ground arith) _
              (IsLog-select (is_kept now) db.host.sequence db.changes log).bounded)
          ∙ sym (
              select-none s db.changes (
                All-weaken (λ (c : Change). c.sequence ≤ db.host.sequence)
                  (λ (c : Change). c.sequence ≤ s) (λ c l. ground arith) _ log.bounded))
    ])
    ∙ sym (changes_after-select s db log)

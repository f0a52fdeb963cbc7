-- ===== src/Client/Projection.antt =====
-- What the timeline changes of apps/client/src/client-store.ts keep, in any sequence.
use pidex.Prelude.{
  ◌≤◌, ◌≡◌, ap, ◌∙◌, ◌⊎◌, inl, inr, true, false, List, [], ◌∷◌, arith, ◌==◌, order_by, insert_by,
  Bool-cases,
}
use pidex.Client.Timeline.{
  TimelineFact, TimelineChange, SessionView, is_superseded, merge_entry, comes_before, is_next,
  timeline_changed, timeline_changes,
}

-- An entry stands in a timeline.
abbrev pub Holds : TimelineFact → List TimelineFact → Type 0
Holds f [] = ⊥
Holds f (e ∷ es) = (e ≡ f) ⊎ Holds f es

Holds-insert_by :
    (f e : TimelineFact) (es : List TimelineFact)
    → (e ≡ f) ⊎ Holds f es
    → Holds f (insert_by comes_before e es)
Holds-insert_by f e [] h = h
Holds-insert_by f e (x ∷ xs) h = elim (Bool-cases (comes_before e x)) [
  | inl first ↦ rw first h
  | inr later ↦ rw later (elim h [
    | inl here ↦ inr (Holds-insert_by f e xs (inl here))
    | inr (inl there) ↦ inl there
    | inr (inr rest) ↦ inr (Holds-insert_by f e xs (inr rest))
  ])
]

Holds-order_by :
    (f : TimelineFact) (es : List TimelineFact) → Holds f es → Holds f (order_by comes_before es)
Holds-order_by f [] h = absurd h
Holds-order_by f (e ∷ es) (inl here) = Holds-insert_by f e (order_by comes_before es) (inl here)
Holds-order_by f (e ∷ es) (inr rest) =
    Holds-insert_by f e (order_by comes_before es) (inr (Holds-order_by f es rest))

final-is_superseded :
    (e incoming : TimelineFact) → e.finalized ≡ true → is_superseded e incoming ≡ false
unfolding is_superseded
final-is_superseded e incoming h = ground arith

Holds-merge_entry :
    (f incoming : TimelineFact) (es : List TimelineFact)
    → f.finalized ≡ true
    → Holds f es
    → Holds f (merge_entry incoming es)
unfolding merge_entry
Holds-merge_entry f incoming [] final h = absurd h
Holds-merge_entry f incoming (e ∷ es) final (inl here) =
    let kept =
      final-is_superseded e incoming (ap (λ (x : TimelineFact). x.finalized) here ∙ final) in
    elim (Bool-cases (e.entry_id == incoming.entry_id)) [
      | inl same ↦ rw (same, kept, merge_entry) (inl here)
      | inr other ↦ rw (other, merge_entry) (inl here)
    ]
Holds-merge_entry f incoming (e ∷ es) final (inr rest) =
    elim (Bool-cases (e.entry_id == incoming.entry_id)) [
      | inl same ↦ elim (Bool-cases (is_superseded e incoming)) [
        | inl taken ↦ rw (same, taken, merge_entry) (inr rest)
        | inr left ↦ rw (same, left, merge_entry) (inr rest)
      ]
      | inr other ↦ rw (other, merge_entry) (inr (Holds-merge_entry f incoming es final rest))
    ]

Holds-timeline_changed :
    (f : TimelineFact) (change : TimelineChange) (view : SessionView)
    → f.finalized ≡ true
    → Holds f view.timeline
    → Holds f (timeline_changed change view).timeline
unfolding timeline_changed
Holds-timeline_changed f change view final h = elim (Bool-cases (is_next change view)) [
  | inl next ↦
      rw (next, timeline_changed)
        (Holds-order_by f (merge_entry change.entry view.timeline)
          (Holds-merge_entry f change.entry view.timeline final h))
  | inr other ↦ rw (other, timeline_changed) h
]

-- A final entry that the client shows is shown unchanged after any changes.
pub Holds-timeline_changes :
    (f : TimelineFact) (changes : List TimelineChange) (view : SessionView)
    → f.finalized ≡ true
    → Holds f view.timeline
    → Holds f (timeline_changes changes view).timeline
unfolding timeline_changes
Holds-timeline_changes f [] view final h = h
Holds-timeline_changes f (change ∷ changes) view final h =
    Holds-timeline_changes f changes (timeline_changed change view) final
      (Holds-timeline_changed f change view final h)

revision_grows :
    (change : TimelineChange) (view : SessionView)
    → view.timeline_revision ≤ (timeline_changed change view).timeline_revision
unfolding timeline_changed
revision_grows change view = ground arith

revisions_grow :
    (changes : List TimelineChange) (view : SessionView)
    → view.timeline_revision ≤ (timeline_changes changes view).timeline_revision
unfolding timeline_changes
revisions_grow [] view = omega arith
revisions_grow (change ∷ changes) view =
    let first = revision_grows change view in
    let rest = revisions_grow changes (timeline_changed change view) in omega arith

changed_next :
    (change : TimelineChange) (view : SessionView)
    → is_next change view ≡ true
    → (timeline_changed change view).timeline_revision ≡ change.revision
unfolding timeline_changed
changed_next change view e = ground arith

changed_old :
    (change : TimelineChange) (view : SessionView)
    → change.revision ≤ view.timeline_revision
    → timeline_changed change view ≡ view
unfolding timeline_changed
changed_old change view h = ground arith

-- A change that was taken is ignored whenever it comes again, after any changes.
timeline_changed-once :
    (change : TimelineChange) (changes : List TimelineChange) (view : SessionView)
    → is_next change view ≡ true
    → timeline_changed change (timeline_changes changes (timeline_changed change view))
      ≡ timeline_changes changes (timeline_changed change view)
timeline_changed-once change changes view e =
    let there = changed_next change view e in
    let grown = revisions_grow changes (timeline_changed change view) in
    changed_old change (timeline_changes changes (timeline_changed change view)) (omega arith)

presented_bounded :
    (change : TimelineChange) (view : SessionView)
    → view.presented_revision ≤ view.timeline_revision
    → (timeline_changed change view).presented_revision
      ≤ (timeline_changed change view).timeline_revision
unfolding timeline_changed
presented_bounded change view h = ground arith

-- Where the presented revision does not exceed the one that the client holds, it does not after any
-- changes.
presented-le-held :
    (changes : List TimelineChange) (view : SessionView)
    → view.presented_revision ≤ view.timeline_revision
    → (timeline_changes changes view).presented_revision
      ≤ (timeline_changes changes view).timeline_revision
unfolding timeline_changes
presented-le-held [] view h = h
presented-le-held (change ∷ changes) view h =
    presented-le-held changes (timeline_changed change view) (presented_bounded change view h)

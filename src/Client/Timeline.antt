-- ===== src/Client/Timeline.antt =====
-- The timeline of the selected Session in apps/client/src/client-store.ts: the handler that
-- `openSession` gives to `watchSession`, and `mergeTimeline`.
use pidex.Prelude.{
  ℕ, Bool, true, false, not, ◌&&◌, ◌||◌, List, [], ◌∷◌, ◌++◌, Option, none, some, ◌==◌, ltb, leb,
  if◌then◌else◌, select, order_by, Text,
}

pub data TimelineKind : Type 0 where
  assistant interaction lifecycle outcome prompt response tool : TimelineKind

-- A flag that is absent is false.
pub record TimelineFact : Type 0 where
  pub entry_id : ℕ
  pub kind : TimelineKind
  pub text : Text
  pub run_id : Option ℕ
  pub order : Option ℕ
  pub revision : Option ℕ
  pub finalized : Bool
  pub blob_id : Option ℕ
  pub tool_call_id : Option ℕ

pub record TimelineChange : Type 0 where
  pub base_revision : ℕ
  pub revision : ℕ
  pub entry : TimelineFact

pub data ComposerTarget : Type 0 where
  submit : ComposerTarget
  steer stop release cancel : ℕ → ComposerTarget

pub data CommandPhase : Type 0 where
  pending accepted_awaiting_projection rejected uncertain : CommandPhase

pub record ComposerCommand : Type 0 where
  pub command_id : ℕ
  pub target : ComposerTarget
  pub phase : CommandPhase
  pub reason : Option Text

pub data CommandResult : Type 0 where
  accepted : CommandResult
  was_rejected was_uncertain : Text → CommandResult

unfoldable pub pending_command : ℕ → ComposerTarget → ComposerCommand
pending_command id target = record {
  command_id = id;
  target = target;
  phase = pending;
  reason = none;
}

unfoldable pub command_state : ℕ → ComposerTarget → CommandResult → ComposerCommand
command_state id target accepted = record {
  command_id = id;
  target = target;
  phase = accepted_awaiting_projection;
  reason = none;
}
command_state id target (was_rejected why) = record {
  command_id = id;
  target = target;
  phase = rejected;
  reason = some why;
}
command_state id target (was_uncertain why) = record {
  command_id = id;
  target = target;
  phase = uncertain;
  reason = some why;
}

abbrev pub is_awaiting : ComposerCommand → Bool
is_awaiting c = elim c.phase [
  | pending ↦ false
  | accepted_awaiting_projection ↦ true
  | rejected ↦ false
  | uncertain ↦ false
]

unfoldable pub retire_projected_commands : List ComposerCommand → List ComposerCommand
retire_projected_commands commands = select (λ (c : ComposerCommand). not (is_awaiting c)) commands

abbrev pub retire_composer : Option ComposerCommand → Option ComposerCommand
retire_composer none = none
retire_composer (some c) = if is_awaiting c then none else some c

-- What the client holds of the selected Session; `presented_revision` is what its view rendered.
pub record SessionView : Type 0 where
  pub timeline_revision : ℕ
  pub timeline : List TimelineFact
  pub presented_revision : ℕ
  pub command_outcomes : List ComposerCommand
  pub composer_command : Option ComposerCommand

abbrev pub or_zero : Option ℕ → ℕ
or_zero none = 0
or_zero (some n) = n

abbrev pub or_one : Option ℕ → ℕ
or_one none = 1
or_one (some n) = n

unfoldable pub comes_before : TimelineFact → TimelineFact → Bool
comes_before left right = leb (or_zero left.order) (or_zero right.order)

-- An entry that is held gives way to a later revision of it, until it is final.
unfoldable pub is_superseded : TimelineFact → TimelineFact → Bool
is_superseded current incoming =
    not current.finalized && ltb (or_one current.revision) (or_one incoming.revision)

unfoldable pub merge_entry : TimelineFact → List TimelineFact → List TimelineFact
unfolding is_superseded
merge_entry incoming [] = incoming ∷ []
merge_entry incoming (current ∷ entries) =
    let rest = merge_entry incoming entries in
    if current.entry_id == incoming.entry_id
    then (if is_superseded current incoming then incoming ∷ entries else current ∷ entries)
    else current ∷ rest

-- Whether the entry was taken.
unfoldable pub is_merged : TimelineFact → List TimelineFact → Bool
unfolding is_superseded
is_merged incoming [] = true
is_merged incoming (current ∷ entries) =
    let rest = is_merged incoming entries in
    if current.entry_id == incoming.entry_id then is_superseded current incoming else rest

-- The change is the next one after what is held.
abbrev pub is_next : TimelineChange → SessionView → Bool
is_next change view =
    (change.base_revision == view.timeline_revision) && ltb view.timeline_revision change.revision

-- The call of the watcher, while its Session is selected.
unfoldable pub timeline_changed : TimelineChange → SessionView → SessionView
unfolding merge_entry is_merged comes_before retire_projected_commands
timeline_changed change view =
    if is_next change view
    then record {
      timeline_revision = change.revision;
      timeline = order_by comes_before (merge_entry change.entry view.timeline);
      presented_revision =
          if is_merged change.entry view.timeline then change.revision else view.presented_revision;
      command_outcomes = retire_projected_commands view.command_outcomes;
      composer_command = retire_composer view.composer_command;
    }
    else view

unfoldable pub timeline_changes : List TimelineChange → SessionView → SessionView
unfolding timeline_changed
timeline_changes [] view = view
timeline_changes (change ∷ changes) view = timeline_changes changes (timeline_changed change view)

abbrev pub has_entry : ℕ → List TimelineFact → Bool
has_entry id [] = false
has_entry id (e ∷ es) = (e.entry_id == id) || has_entry id es

-- `Map.set`: an entry that is there keeps its place and takes the later value.
unfoldable pub put_entry : TimelineFact → List TimelineFact → List TimelineFact
put_entry e [] = e ∷ []
put_entry e (f ∷ fs) =
    let rest = put_entry e fs in if f.entry_id == e.entry_id then e ∷ fs else f ∷ rest

unfoldable pub put_entries : List TimelineFact → List TimelineFact → List TimelineFact
unfolding put_entry
put_entries [] held = held
put_entries (e ∷ es) held = put_entries es (put_entry e held)

unfoldable pub merge_timeline : List TimelineFact → List TimelineFact → List TimelineFact
unfolding put_entries comes_before
merge_timeline older current = order_by comes_before (put_entries (older ++ current) [])

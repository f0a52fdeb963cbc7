-- ===== src/Client/ClientTests.antt =====
-- Runs of the client's projections, apps/client/src/client-store.ts.
use pidex.Prelude.{
  List, All, ℕ, ◌≡◌, refl, true, false, [], ◌∷◌, Option, none, some, codes, inl, leb, if◌then◌else◌,
}
use pidex.Client.Timeline.{
  TimelineFact, assistant, prompt, TimelineChange, SessionView, timeline_changes,
}
use pidex.Client.Projection.{Holds, Holds-timeline_changes}
use pidex.Client.Discovery.{
  decoded, HeldAttention, quiet, working, HeldActivity, SessionFact, Discovery, load_discovery,
  AttentionChange,
}
use pidex.Client.Attention.{attention_changes, IsDerivedAt, IsShown, IsSince}
use pidex.Client.Catalog.{attention_changes-latest}

abbrev asked : TimelineFact
asked = record {
  entry_id = 1;
  kind = prompt;
  text = codes "q";
  run_id = some 1;
  order = some 1;
  revision = none;
  finalized = true;
  blob_id = none;
  tool_call_id = none;
}

abbrev answered : TimelineFact
answered = record asked { entry_id = 2; kind = assistant; order = some 2; finalized = false }

abbrev opened : SessionView
opened = record {
  timeline_revision = 1;
  timeline = asked ∷ [];
  presented_revision = 1;
  command_outcomes = [];
  composer_command = none;
}

-- The answer, and a change that would rewrite the prompt.
abbrev answer : TimelineChange
answer = record { base_revision = 1; revision = 2; entry = answered }

abbrev rewrite : TimelineChange
rewrite = record { base_revision = 2; revision = 3; entry = record asked { revision = some 5 } }

declines : timeline_changes (answer ∷ rewrite ∷ []) opened ≡ record opened {
  timeline_revision = 3;
  timeline = asked ∷ answered ∷ [];
  presented_revision = 2;
}
unfolding timeline_changes
declines = refl

Holds-timeline_changes_example :
    Holds asked (timeline_changes (answer ∷ rewrite ∷ []) opened).timeline
Holds-timeline_changes_example =
    Holds-timeline_changes asked (answer ∷ rewrite ∷ []) opened refl (inl refl)

-- A Session works up to the sequence 4, and is quiet behind it.
abbrev attention_of : ℕ → ℕ → HeldAttention
attention_of id n = if leb n 4 then working else quiet

abbrev no_activity : ℕ → ℕ → Option HeldActivity
no_activity id n = none

abbrev at_sequence : ℕ → AttentionChange
at_sequence n = record {
  session_id = 7;
  attention = attention_of 7 n;
  activity = none;
  cursor = some (decoded 1 1 n);
}

abbrev one_session : Discovery
one_session = record {
  sessions =
      record {
        session_id = 7;
        name = codes "s";
        project_id = none;
        metadata_revision = 1;
        timeline_revision = 1;
        attention = none;
        activity = none;
        read_state = none;
      }
      ∷ [];
  archived_sessions = [];
  attention_basis = [];
  pending_read_marks = [];
}

-- The catalog is read at the sequence 2.
abbrev catalog_fact : SessionFact
catalog_fact = record {
  session_id = 7;
  name = codes "s";
  project_id = none;
  metadata_revision = 1;
  timeline_revision = 1;
  attention = some (attention_of 7 2);
  activity = none;
  read_state = none;
}

abbrev read_catalog : Discovery
read_catalog = load_discovery (catalog_fact ∷ []) [] (some (decoded 1 1 2)) one_session

abbrev delivered : List AttentionChange
delivered = at_sequence 5 ∷ at_sequence 3 ∷ []

-- The later change comes first.
attention_changes-latest_example :
    IsShown 1 1 attention_of no_activity (attention_changes delivered read_catalog)
    × All
        (λ (s : SessionFact).
          IsSince 1 1 attention_of no_activity s.session_id 2
            (attention_changes delivered read_catalog))
        (catalog_fact ∷ [])
    × All
        (λ (c : AttentionChange).
          (m : ℕ) × IsDerivedAt 1 1 attention_of no_activity m c
          × IsSince 1 1 attention_of no_activity c.session_id m
              (attention_changes delivered read_catalog))
        delivered
attention_changes-latest_example =
    attention_changes-latest 1 1 attention_of no_activity 2 (catalog_fact ∷ []) [] one_session
      (record { attention = refl; activity = refl }, tt) delivered
      (
        (5, record { named = refl; attention = refl; activity = refl }),
        ((3, record { named = refl; attention = refl; activity = refl }), tt),
      )

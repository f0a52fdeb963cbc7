-- ===== src/Authority/Attention.antt =====
-- The Session attention summary of packages/host/src/store.ts: `attentionDetail`,
-- `openInteractionDetail`, `attentionFromBasis` and the query `SESSION_ATTENTION_PROJECTION`.
use pidex.Prelude.{
  Text, codes, ℕ, ◌-◌, Bool, ◌&&◌, ◌||◌, List, [], ◌∷◌, ◌++◌, Option, none, some, max, ltb, leb,
  ◌==◌, if◌then◌else◌, or_else, length, take, select, count, order_by, head?,
}
use pidex.Authority.Schema.{
  Session, Run, Entry, Interaction, Attention, quiet, working, needs_response, SessionActivity,
  Authority,
}
use pidex.Authority.States.{is_held, is_progressing, is_open}

-- The characters that `String.prototype.trim` removes: ECMAScript's white space and line ends.
abbrev pub is_white : ℕ → Bool
is_white c =
    (leb 9 c && leb c 13)
    || (c == 32)
    || (c == 160)
    || (c == 0x1680)
    || (leb 0x2000 c && leb c 0x200a)
    || (c == 0x2028)
    || (c == 0x2029)
    || (c == 0x202f)
    || (c == 0x205f)
    || (c == 0x3000)
    || (c == 0xfeff)

unfoldable pub first_line : Text → Text
first_line [] = []
first_line (c ∷ cs) = let rest = first_line cs in if c == 10 then [] else c ∷ rest

unfoldable pub trim_start : Text → Text
trim_start [] = []
trim_start (c ∷ cs) = let rest = trim_start cs in if is_white c then rest else c ∷ cs

unfoldable pub trim_end : Text → Text
trim_end [] = []
trim_end (c ∷ cs) = elim (trim_end cs) [
  | [] ↦ if is_white c then [] else c ∷ []
  | d ∷ ds ↦ c ∷ d ∷ ds
]

abbrev pub attention_detail_limit : ℕ
attention_detail_limit = 80

-- the line that `split` and `trim` leave, cut to the limit; an empty line is no detail
unfoldable pub shorten : Text → Option Text
unfolding trim_end
shorten [] = none
shorten (c ∷ cs) =
    if ltb attention_detail_limit (length (c ∷ cs))
    then some (trim_end (take (attention_detail_limit - 1) (c ∷ cs)) ++ codes "…")
    else some (c ∷ cs)

unfoldable pub attention_detail : Option Text → Option Text
unfolding shorten first_line trim_start trim_end
attention_detail none = none
attention_detail (some text) = shorten (trim_end (trim_start (first_line text)))

pub record AttentionRow : Type 0 where
  pub open_interaction : Option (Text × ℕ)
  pub held_runs : ℕ
  pub progressing_runs : ℕ
  pub latest_entry_text : Option Text
  pub last_completed_at : Option ℕ
  pub created_at : ℕ

-- the inner function `activity`
abbrev pub activity_of : Option Text → Option ℕ → Option SessionActivity
activity_of none none = none
activity_of (some detail) at = some (record { detail = some detail; at = at })
activity_of none (some at) = some (record { detail = none; at = some at })

unfoldable pub attention_from_basis : AttentionRow → Attention × Option SessionActivity
attention_from_basis row = elim row.open_interaction [
  | some (message, at) ↦ (
    needs_response,
    activity_of (or_else (attention_detail (some message)) (some (codes "Response required")))
        (some at),
  )
  | none ↦
      if ltb 0 row.held_runs
      then (
        needs_response,
        some (record { detail = some (codes "Held work awaiting release"); at = none }),
      )
      else if ltb 0 row.progressing_runs
      then (working, activity_of (attention_detail row.latest_entry_text) none)
      else (quiet, activity_of none (or_else row.last_completed_at (some row.created_at)))
]

-- ORDER BY created_at, interaction_id
abbrev pub earlier_interaction : Interaction → Interaction → Bool
earlier_interaction a b =
    ltb a.created_at b.created_at
    || ((a.created_at == b.created_at) && leb a.interaction_id b.interaction_id)

abbrev pub later_entry : Entry → Entry → Bool
later_entry a b = leb b.entry_order a.entry_order

abbrev pub max_option : Option ℕ → Option ℕ → Option ℕ
max_option none b = b
max_option (some a) none = some a
max_option (some a) (some b) = some (max a b)

-- MAX over a nullable column
unfoldable pub latest_completed : List Run → Option ℕ
latest_completed [] = none
latest_completed (r ∷ rs) = max_option r.completed_at (latest_completed rs)

unfoldable pub attention_row : Session → Authority → AttentionRow
unfolding latest_completed
attention_row s db = record {
  open_interaction =
      elim (head? (
        order_by earlier_interaction (
          select (λ (i : Interaction). (i.session_id == s.session_id) && is_open i.state)
            db.interactions))) [ none ↦ none | some i ↦ some (i.message, i.created_at) ];
  held_runs = count (λ (r : Run). (r.session_id == s.session_id) && is_held r.state) db.runs;
  progressing_runs =
      count (λ (r : Run). (r.session_id == s.session_id) && is_progressing r.state) db.runs;
  latest_entry_text =
      elim (head?
        (order_by later_entry (select (λ (e : Entry). e.session_id == s.session_id) db.entries))) [
          | none ↦ none
          | some e ↦ some e.text
        ];
  last_completed_at = latest_completed (select (λ (r : Run). r.session_id == s.session_id) db.runs);
  created_at = s.created_at;
}

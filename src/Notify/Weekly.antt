-- ===== src/Notify/Weekly.antt =====
-- src/costanza/notify/render.py: the weekly digest, from the data that src/costanza/jobs/digest.py
-- builds.
use costanza.Prelude.{
  ℕ, ◌-◌, String, Option, none, some, List, [], ◌∷◌, ◌++◌, map, take, length, ltb, eqb, or_else,
  if◌then◌else◌, format,
}
use costanza.Stdlib.{decimal}
use costanza.Schemas.{RenderedMessage, MessageKind}
use costanza.Stats.{Arrival, Requests, Watches, Ops}

-- The dict of a digest; a key that is missing or empty is `none` or empty.
pub record DigestData : Type 0 where
  pub period_start : Option String
  pub period_end : Option String
  pub new_arrivals : List Arrival
  pub requests : Option Requests
  pub watches : Watches
  pub ops : Ops

-- sep.join(lines)
unfoldable pub join_with : String → List String → String
unfolding format
join_with sep [] = ""
join_with sep (line ∷ []) = line
join_with sep (line ∷ next ∷ lines) = format (line ∷ sep ∷ join_with sep (next ∷ lines) ∷ [])

abbrev join_lines : List String → String
join_lines lines = join_with "\n" lines

-- One field, unless there is nothing to list.
abbrev field_unless : List String → String → List (String × String)
field_unless [] name = []
field_unless (line ∷ lines) name = (name, join_lines (line ∷ lines)) ∷ []

abbrev arrival_lines : List Arrival → List String
arrival_lines arrivals =
    map (λ (a : Arrival). format ("- " ∷ a.label ∷ [])) (take 15 arrivals)
    ++ (if ltb 15 (length arrivals)
        then format ("…and " ∷ decimal (length arrivals - 15) ∷ " more" ∷ []) ∷ []
        else [])

abbrev pub arrival_fields : List Arrival → List (String × String)
arrival_fields arrivals = field_unless (arrival_lines arrivals) "New arrivals"

abbrev dashed : List String → List String
dashed ss = map (λ s. format ("- " ∷ s ∷ [])) ss

abbrev pub request_fields : Option Requests → List (String × String)
request_fields none = []
request_fields (some r) =
    (
      "Requests",
      format (
          "opened "
          ∷ decimal r.opened
          ∷ " / available "
          ∷ decimal r.available
          ∷ " / declined "
          ∷ decimal r.declined
          ∷ []),
    )
    ∷ field_unless (dashed (take 10 r.stale)) "Still waiting"

abbrev top_lines : List (String × ℕ) → List String
top_lines top = map (λ t. format ("- " ∷ t.0 ∷ " (" ∷ decimal t.1 ∷ ")" ∷ [])) (take 10 top)

abbrev user_lines : List (String × ℕ) → List String
user_lines users = map (λ u. format ("- " ∷ u.0 ∷ ": " ∷ decimal u.1 ∷ [])) users

-- A count that is not zero.
abbrev count_line : String → ℕ → List String
count_line label n = if eqb n 0 then [] else format (label ∷ decimal n ∷ []) ∷ []

abbrev unmapped_line : List String → List String
unmapped_line [] = []
unmapped_line (u ∷ us) =
    format ("unmapped identities: " ∷ join_with ", " (take 10 (u ∷ us)) ∷ []) ∷ []

abbrev ops_lines : Ops → List String
ops_lines ops =
    count_line "reconcile gaps: " ops.gaps
    ++ count_line "dead notifications: " ops.dead_notifications
    ++ count_line "dead ingest items: " ops.dead_outbox
    ++ count_line "unrecognized events: " ops.unknown_events
    ++ unmapped_line ops.unmapped_identities

unfoldable pub later_fields : DigestData → List (String × String)
unfolding join_with
later_fields d =
    field_unless (top_lines d.watches.top) "Most watched"
    ++ field_unless (user_lines d.watches.per_user) "Watch counts"
    ++ field_unless (ops_lines d.ops) "Ops"

unfoldable pub digest_fields : DigestData → List (String × String)
unfolding later_fields
digest_fields d =
    let asked = request_fields d.requests ++ later_fields d in
    arrival_fields d.new_arrivals ++ asked

unfoldable pub describe_fields : List (String × String) → String
describe_fields [] = "A quiet week: nothing new arrived and nothing was watched."
describe_fields (f ∷ fs) = ""

unfoldable pub render_digest : DigestData → RenderedMessage
unfolding digest_fields describe_fields
render_digest d =
    let fields = digest_fields d in
    record {
      kind = MessageKind.digest;
      title = format (
          "Weekly media digest — "
          ∷ or_else d.period_start "?"
          ∷ " to "
          ∷ or_else d.period_end "?"
          ∷ []);
      description = describe_fields fields;
      fields = fields;
      color = some 3426654;
      footer = some "costanza weekly digest";
    }

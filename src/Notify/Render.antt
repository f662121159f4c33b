-- ===== src/Notify/Render.antt =====
-- src/costanza/notify/render.py: `render_event` and what it calls. A format that Python refuses
-- raises.
use costanza.Prelude.{
  ℕ, String, Bool, true, false, not, ◌&&◌, Option, none, some, List, [], ◌∷◌, ◌++◌, ◌==◌,
  if◌then◌else◌, format, or_else,
}
use costanza.Json.{
  Json, null, bool, int, str, arr, obj, Items, nil, cons, Fields, end, field, ℤ, get_field, truthy,
  to_ℤ_truthy,
}
use costanza.Result.{Exception, Result, ok, raised, bind}
use costanza.Stdlib.{Stdlib, py_str, decimal_int, two_digits, chars}
use costanza.Schemas.{EventType, CanonicalEvent, MediaRef, RenderedMessage, Origin, embed}

abbrev pub color_of : EventType → ℕ
color_of EventType.request_created = 0x3498DB
color_of EventType.request_approved = 0x2ECC71
color_of EventType.request_declined = 0xE74C3C
color_of EventType.request_available = 0x9B59B6
color_of EventType.media_grabbed = 0x95A5A6
color_of EventType.media_imported = 0x1ABC9C
color_of EventType.media_upgraded = 0x1ABC9C
color_of EventType.media_deleted = 0xE67E22
color_of EventType.playback_started = 0x95A5A6
color_of EventType.playback_stopped = 0x95A5A6
color_of EventType.watch_completed = 0xF1C40F
color_of EventType.health_issue = 0xE74C3C
color_of EventType.source_unknown = 0x7F8C8D
color_of EventType.reconcile_gap = 0x7F8C8D

abbrev pub title_of : EventType → String
title_of EventType.request_created = "New request"
title_of EventType.request_approved = "Request approved"
title_of EventType.request_declined = "Request declined"
title_of EventType.request_available = "Now available"
title_of EventType.media_grabbed = "Grabbed"
title_of EventType.media_imported = "Added to library"
title_of EventType.media_upgraded = "Quality upgraded"
title_of EventType.media_deleted = "Removed from library"
title_of EventType.playback_started = "Playback started"
title_of EventType.playback_stopped = "Playback stopped"
title_of EventType.watch_completed = "Watched"
title_of EventType.health_issue = "Health issue"
title_of EventType.source_unknown = "Unrecognized event"
title_of EventType.reconcile_gap = "Reconcile gap"

abbrev bad_format : Exception
bad_format = record { name = "ValueError"; message = "Unknown format code 'd'" }

abbrev not_iterable : Exception
not_iterable = record { name = "TypeError"; message = "can only join an iterable" }

abbrev not_text : Exception
not_text = record { name = "TypeError"; message = "expected str instance" }

-- f"{v:02d}"
unfoldable pub format_02d : Json → Result String
format_02d (int n) = ok (two_digits n)
format_02d (bool true) = ok "01"
format_02d (bool false) = ok "00"
format_02d null = raised bad_format
format_02d (str s) = raised bad_format
format_02d (arr xs) = raised bad_format
format_02d (obj fs) = raised bad_format

abbrev is_null : Json → Bool
is_null null = true
is_null _ = false

abbrev with_year : String → Option ℤ → String
with_year label none = label
with_year label (some year) =
    if to_ℤ_truthy year then format (label ∷ " (" ∷ decimal_int year ∷ ")" ∷ []) else label

unfoldable pub with_detail : Stdlib → String → Json → Json → Result String
unfolding format_02d
with_detail lib label season episode =
    if not (is_null season) && not (is_null episode)
    then bind (format_02d season)
        (λ s. bind (format_02d episode) (λ e. ok (format (label ∷ " S" ∷ s ∷ "E" ∷ e ∷ []))))
    else if not (is_null season)
    then ok (format (label ∷ " Season " ∷ py_str lib season ∷ []))
    else ok label

media_text : Stdlib → MediaRef → Result String
unfolding with_detail
media_text lib media =
    if or_else media.title "" == ""
    then ok "(no media)"
    else with_detail lib (with_year (or_else media.title "") media.year)
        (get_field "season" media.detail) (get_field "episode" media.detail)

unfoldable pub media_label : Stdlib → CanonicalEvent → Result String
unfolding media_text
media_label lib event = elim event.media [ none ↦ ok "(no media)" | some m ↦ media_text lib m ]

-- `event.user.display if event.user and event.user.display else None`, with "" for None.
abbrev who : CanonicalEvent → String
who event = elim event.user [ none ↦ "" | some u ↦ or_else u.display "" ]

abbrev phrase : String → String → String
phrase prefix name = if name == "" then "" else format (prefix ∷ name ∷ [])

-- An optional field of the message, for an attribute that is truthy.
abbrev field_for : Stdlib → Fields → String → String → List (String × String)
field_for lib attrs key label =
    if truthy (get_field key attrs) then (label, py_str lib (get_field key attrs)) ∷ [] else []

join_items : Items → Result (List String)
join_items nil = ok []
join_items (cons (str s) xs) = bind (join_items xs) (λ rest. ok (s ∷ rest))
join_items (cons x xs) = raised not_text

field_names : Fields → List String
field_names end = []
field_names (field k v fs) = k ∷ field_names fs

join_comma : List String → String
join_comma [] = ""
join_comma (s ∷ []) = s
join_comma (s ∷ t ∷ ss) = format (s ∷ ", " ∷ join_comma (t ∷ ss) ∷ [])

-- ", ".join(v)
unfoldable pub join_value : Json → Result String
unfolding join_items field_names join_comma
join_value (arr xs) = bind (join_items xs) (λ parts. ok (join_comma parts))
join_value (str s) = ok (join_comma (chars s))
join_value (obj fs) = ok (join_comma (field_names fs))
join_value null = raised not_iterable
join_value (bool b) = raised not_iterable
join_value (int n) = raised not_iterable

-- Title, description and fields of the message.
pub record Parts : Type 0 where
  pub title : String
  pub description : String
  pub fields : List (String × String)

is_request_failed : Json → Bool
is_request_failed (str s) = s == "request_failed"
is_request_failed _ = false

requested_by : Stdlib → String → CanonicalEvent → Parts
requested_by lib title event = record {
  title = title;
  description = phrase "Requested by " (who event);
  fields =
      field_for lib event.attrs "requested_seasons" "Seasons"
      ++ (if truthy (get_field "auto_approved" event.attrs)
          then ("Approval", "automatic") ∷ []
          else []);
}

quality_parts : Stdlib → String → CanonicalEvent → Parts
quality_parts lib title event = record {
  title = title;
  description = "";
  fields = field_for lib event.attrs "quality" "Quality";
}

playback_parts : Stdlib → String → CanonicalEvent → Parts
playback_parts lib title event = record {
  title = title;
  description = who event;
  fields = field_for lib event.attrs "player" "Player";
}

health_state : Stdlib → Fields → String
health_state lib attrs =
    if truthy (get_field "resolved" attrs)
    then "restored"
    else if truthy (get_field "level" attrs)
    then py_str lib (get_field "level" attrs)
    else "issue"

health_parts : Stdlib → String → CanonicalEvent → Parts
unfolding is_request_failed health_state
health_parts lib label event = record {
  title =
      if is_request_failed (get_field "kind" event.attrs)
      then format ("Request failed: " ∷ label ∷ [])
      else format ("Health " ∷ health_state lib event.attrs ∷ ": " ∷ event.source ∷ []);
  description =
      if truthy (get_field "message" event.attrs)
      then py_str lib (get_field "message" event.attrs)
      else "";
  fields = [];
}

gap_parts : Stdlib → CanonicalEvent → List (String × String) → Parts
gap_parts lib event kinds = record {
  title = format ("Reconcile gap: " ∷ event.source ∷ []);
  description = format (
      "Missed webhooks detected for " ∷ event.source
      ∷ "; transient events in this window may be lost" ∷ []);
  fields = field_for lib event.attrs "recovered" "Recovered events" ++ kinds;
}

gap_kinds : Fields → Result (List (String × String))
unfolding join_value
gap_kinds attrs =
    if truthy (get_field "transient_kinds" attrs)
    then bind (join_value (get_field "transient_kinds" attrs))
        (λ text. ok (("Not reconstructable", text) ∷ []))
    else ok []

-- The `match` statement.
parts_of : Stdlib → EventType → String → String → CanonicalEvent → Result Parts
unfolding requested_by quality_parts playback_parts health_parts gap_parts gap_kinds
parts_of lib EventType.request_created title label event = ok (requested_by lib title event)
parts_of lib EventType.request_approved title label event = ok (requested_by lib title event)
parts_of lib EventType.request_declined title label event = ok (requested_by lib title event)
parts_of lib EventType.request_available title label event = ok (record {
  title =
      if truthy (get_field "partial" event.attrs)
      then format ("Partially available: " ∷ label ∷ [])
      else title;
  description = phrase "Requested by " (who event);
  fields = [];
})
parts_of lib EventType.media_grabbed title label event = ok (quality_parts lib title event)
parts_of lib EventType.media_imported title label event = ok (quality_parts lib title event)
parts_of lib EventType.media_upgraded title label event = ok (quality_parts lib title event)
parts_of lib EventType.media_deleted title label event = ok (record {
  title = title;
  description = "";
  fields = field_for lib event.attrs "scope" "Scope" ++ field_for lib event.attrs "reason" "Reason";
})
parts_of lib EventType.watch_completed title label event =
    ok (record { title = title; description = phrase "Watched by " (who event); fields = [] })
parts_of lib EventType.playback_started title label event = ok (playback_parts lib title event)
parts_of lib EventType.playback_stopped title label event = ok (playback_parts lib title event)
parts_of lib EventType.health_issue title label event = ok (health_parts lib label event)
parts_of lib EventType.reconcile_gap title label event =
    bind (gap_kinds event.attrs) (λ kinds. ok (gap_parts lib event kinds))
parts_of lib EventType.source_unknown title label event = ok (record {
  title = format ("Unrecognized " ∷ event.source ∷ " event" ∷ []);
  description = format ("payload kind: " ∷ py_str lib (get_field "payload_kind" event.attrs) ∷ []);
  fields = [];
})

abbrev origin_note : Origin → EventType → List (String × String)
origin_note Origin.reconcile EventType.reconcile_gap = []
origin_note Origin.reconcile _ = ("Origin", "reconcile (synthesized after the fact)") ∷ []
origin_note _ _ = []

unfoldable pub render_event : Stdlib → CanonicalEvent → Result RenderedMessage
unfolding parts_of
render_event lib event = bind (media_label lib event) (λ label.
    bind (parts_of lib event.type (format (title_of event.type ∷ ": " ∷ label ∷ [])) label event)
      (λ parts. ok (record {
        kind = embed;
        title = parts.title;
        description = parts.description;
        fields = parts.fields ++ origin_note event.origin event.type;
        color = some (color_of event.type);
        footer = some (format ("source: " ∷ event.source ∷ []));
      })))

-- ===== src/Normalize/Common.antt =====
-- src/costanza/normalize/common.py, and reading a payload as Python does.
use costanza.Prelude.{
  Bool, ◌||◌, String, true, false, Option, none, some, [], ◌∷◌, ◌==◌, if◌then◌else◌, join_colon,
  format,
}
use costanza.Json.{
  Json, null, bool, int, str, arr, obj, Fields, end, field, ℤ, pos, get_field, truthy,
}
use costanza.Result.{Exception, Result, ok, raised, bind}
use costanza.Stdlib.{Stdlib, py_str, sha16}
use costanza.Schemas.{CanonicalEvent, EventType, Origin, MediaRef, UserRef}
use costanza.Config.{value_error}

-- What `common.py` takes from `str` and `re`: `s.strip()`, and the match of `_TITLE_YEAR`.
pub record Text : Type 0 where
  pub strip : String → String
  pub title_year : String → Option (String × ℤ)

abbrev pub no_attribute : Exception
no_attribute = record { name = "AttributeError"; message = "object has no attribute 'get'" }

abbrev pub not_iterable : Exception
not_iterable = record { name = "TypeError"; message = "object is not iterable" }

-- The object that `.get` is called on.
abbrev pub as_dict : Json → Result Fields
as_dict (obj fs) = ok fs
as_dict null = raised no_attribute
as_dict (bool b) = raised no_attribute
as_dict (int n) = raised no_attribute
as_dict (str s) = raised no_attribute
as_dict (arr xs) = raised no_attribute

-- v or w
abbrev pub or_json : Json → Json → Json
or_json v w = if truthy v then v else w

-- d.get(k) or {}
abbrev pub get_dict : String → Fields → Json
get_dict k fs = or_json (get_field k fs) (obj end)

-- A model field of type `str | None`, which takes nothing else.
abbrev pub text_field : Json → Result (Option String)
text_field null = ok none
text_field (str s) = ok (some s)
text_field (bool b) = raised (value_error "Input should be a valid string")
text_field (int n) = raised (value_error "Input should be a valid string")
text_field (arr xs) = raised (value_error "Input should be a valid string")
text_field (obj fs) = raised (value_error "Input should be a valid string")

unfoldable pub to_int : Stdlib → Json → Option ℤ
to_int lib null = none
to_int lib (bool true) = some (pos 1)
to_int lib (bool false) = some (pos 0)
to_int lib (int n) = some n
to_int lib (str s) = if s == "" then none else lib.int_of_text s
to_int lib (arr xs) = none
to_int lib (obj fs) = none

abbrev split_match : String → Option (String × ℤ) → Option String × Option ℤ
split_match stripped none = (some stripped, none)
split_match stripped (some (title, year)) = (some title, some year)

split_text : Text → String → Option String × Option ℤ
split_text re subject =
    if subject == ""
    then (none, none)
    else split_match (re.strip subject) (re.title_year (re.strip subject))

-- A subject that is truthy and no text has no `strip`.
unfoldable pub split_title_year : Text → Json → Result (Option String × Option ℤ)
unfolding split_text
split_title_year re (str subject) = ok (split_text re subject)
split_title_year re subject = if truthy subject then raised no_attribute else ok (none, none)

-- str(v) of a discriminator, "none" where it is falsy.
abbrev label_of : Stdlib → Json → String
label_of lib discriminator = if truthy discriminator then py_str lib discriminator else "none"

abbrev label_json : Json → Json
label_json discriminator = if truthy discriminator then discriminator else str "none"

-- v == s
abbrev pub json_is : String → Json → Bool
json_is s (str t) = t == s
json_is s _ = false

abbrev pub is_null : Json → Bool
is_null null = true
is_null _ = false

-- An `int | None` as a value.
abbrev pub int_json : Option ℤ → Json
int_json none = null
int_json (some n) = int n

-- if v: attrs[k] = v
abbrev pub truthy_field : String → Json → Fields
truthy_field k v = if truthy v then field k v end else end

-- v or None
abbrev pub or_none : Json → Json
or_none v = if truthy v then v else null

infixl 10 ◌>>=◌
abbrev pub ◌>>=◌ {ℓ κ} : {A : Type ℓ} {B : Type κ} → Result A → (A → Result B) → Result B
m >>= f = bind m f

-- str(to_int(d.get(k)) or d.get("id") or sha16(d))
unfoldable pub native_key : Stdlib → String → Fields → String
unfolding to_int sha16
native_key lib k fs = py_str lib (
    or_json (int_json (to_int lib (get_field k fs)))
      (or_json (get_field "id" fs) (str (sha16 lib (obj fs)))))

-- An event as its constructor makes it from the arguments that a normalizer gives.
abbrev pub new_event :
    String
    → String
    → String
    → EventType
    → Option MediaRef
    → Option UserRef
    → Fields
    → CanonicalEvent
new_event id source key type media user attrs = record {
  id = id;
  source = source;
  source_event_key = key;
  origin = Origin.webhook;
  type = type;
  occurred_at = none;
  received_at = none;
  media = media;
  user = user;
  attrs = attrs;
}

-- `id` is what `new_id` returns.
unfoldable pub unknown_event : Stdlib → String → String → Fields → Json → Fields → CanonicalEvent
unknown_event lib id source payload discriminator attrs =
    new_event id source
      (join_colon (source ∷ "unknown" ∷ label_of lib discriminator ∷ sha16 lib (obj payload) ∷ []))
      EventType.source_unknown none none (field "payload_kind" (label_json discriminator) attrs)

-- {"test": True} if the event type is the source's test.
abbrev pub test_attrs : String → Json → Fields
test_attrs name event_type = if json_is name event_type then field "test" (bool true) end else end

-- The health events of Radarr and Sonarr, which write the same code.
module _ (lib : Stdlib) (id source : String) where
  health_state : Json → String
  health_state event_type = if json_is "HealthRestored" event_type then "restored" else "issue"

  unfoldable pub health_event : Json → Fields → CanonicalEvent
  unfolding health_state
  health_event event_type payload =
      let check = or_json (get_field "type" payload) (str "unknown") in
      let message = or_json (get_field "message" payload) (str "") in
      new_event id source
        (join_colon (
          source
          ∷ format ("health." ∷ health_state event_type ∷ [])
          ∷ py_str lib check
          ∷ sha16 lib message
          ∷ []))
        EventType.health_issue none none
        (field "level" (get_field "level" payload) (
          field "message" message (
            field "check" check
              (field "resolved" (bool (json_is "HealthRestored" event_type)) end))))

abbrev pub is_health : Json → Bool
is_health event_type =
    json_is "Health" event_type
    || json_is "HealthIssue" event_type
    || json_is "HealthRestored" event_type

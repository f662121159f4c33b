-- ===== src/Normalize/Seerr.antt =====
-- src/costanza/normalize/seerr.py.
use costanza.Prelude.{
  String, true, ◌||◌, Option, none, some, List, [], ◌∷◌, ◌==◌, if◌then◌else◌, join_colon,
}
use costanza.Json.{
  Json, null, bool, int, str, arr, obj, Items, nil, cons, Fields, end, field, ℤ, get_field, truthy,
  append_fields, to_ℤ_truthy,
}
use costanza.Result.{Exception, Result, ok, raised, bind}
use costanza.Stdlib.{Stdlib, py_str}
use costanza.Schemas.{
  CanonicalEvent, EventType, type_name, MediaRef, MediaKind, UserRef, IdentityProvider,
}
use costanza.Store.Media.{int_truthy, text_truthy}
use costanza.Normalize.Common.{
  Text, not_iterable, is_null, json_is, no_attribute, as_dict, or_json, get_dict, to_int,
  split_title_year, new_event, unknown_event,
}

-- _REQUEST_TYPES
abbrev pub request_type : String → Option EventType
request_type name =
    if name == "MEDIA_PENDING"
    then some EventType.request_created
    else if name == "MEDIA_APPROVED"
    then some EventType.request_approved
    else if name == "MEDIA_AUTO_APPROVED"
    then some EventType.request_approved
    else if name == "MEDIA_DECLINED"
    then some EventType.request_declined
    else if name == "MEDIA_AVAILABLE"
    then some EventType.request_available
    else none

abbrev pub unhashable : Exception
unhashable = record { name = "TypeError"; message = "unhashable type" }

-- A lookup by a key of any JSON type: a list or an object cannot be hashed.
abbrev pub request_type_of : Json → Result (Option EventType)
request_type_of (str name) = ok (request_type name)
request_type_of null = ok none
request_type_of (bool b) = ok none
request_type_of (int n) = ok none
request_type_of (arr xs) = raised unhashable
request_type_of (obj fs) = raised unhashable

abbrev media_ref : Option ℤ → Option ℤ → Option String × Option ℤ → Json → Option MediaRef
media_ref tmdb tvdb (title, year) media_type =
    if int_truthy tmdb || int_truthy tvdb || text_truthy title
    then some (record {
      media_id = none;
      tmdb_id = tmdb;
      tvdb_id = tvdb;
      imdb_id = none;
      title = title;
      year = year;
      kind = some (if json_is "tv" media_type then MediaKind.series else MediaKind.movie);
      detail = end;
    })
    else none

abbrev user_named : Stdlib → Json → Option UserRef
user_named lib username =
    if truthy username
    then some (record {
      user_id = none;
      display = some (py_str lib username);
      provider = some IdentityProvider.seerr;
      external_id = some (py_str lib username);
    })
    else none

module _ (lib : Stdlib) (re : Text) where
  -- _media
  unfoldable pub media_of : Fields → Result (Option MediaRef)
  unfolding split_title_year to_int
  media_of payload = bind (split_title_year re (get_field "subject" payload)) (λ titled.
      bind (as_dict (get_dict "media" payload)) (λ media. ok (
        media_ref (to_int lib (get_field "tmdbId" media)) (to_int lib (get_field "tvdbId" media))
          titled (get_field "media_type" media))))

  -- _user
  unfoldable pub user_of : Fields → Result (Option UserRef)
  user_of payload =
      bind (as_dict (get_dict "request" payload))
        (λ request. ok (user_named lib (get_field "requestedBy_username" request)))

module _ (lib : Stdlib) where
  seasons_item : Fields → Option String
  seasons_item item =
      if json_is "Requested Seasons" (get_field "name" item)
      then some (py_str lib (get_field "value" item))
      else none

  first_seasons : Items → Result (Option String)
  unfolding seasons_item
  first_seasons nil = ok none
  first_seasons (cons item items) =
      let rest = first_seasons items in
      bind (as_dict item) (λ fs. elim (seasons_item fs) [ none ↦ rest | some s ↦ ok (some s) ])

  -- `payload.get("extra") or []`: an object or a text is gone through by its keys or characters,
  -- which have no `get`.
  extra_seasons : Json → Result (Option String)
  unfolding first_seasons
  extra_seasons null = ok none
  extra_seasons (arr items) = first_seasons items
  extra_seasons (bool b) = if b then raised not_iterable else ok none
  extra_seasons (int n) = if to_ℤ_truthy n then raised not_iterable else ok none
  extra_seasons (str s) = if s == "" then ok none else raised no_attribute
  extra_seasons (obj end) = ok none
  extra_seasons (obj (field k v fs)) = raised no_attribute

  -- _seasons
  unfoldable pub seasons_of : Fields → Result (Option String)
  unfolding extra_seasons
  seasons_of payload = extra_seasons (get_field "extra" payload)

  abbrev optional_field : String → Option String → Fields
  optional_field k none = end
  optional_field k (some v) = if v == "" then end else field k (str v) end

  -- The status that a `request.available` event's key ends in.
  abbrev pub status_of : Fields → Json
  status_of media = or_json (get_field "status" media) (str "AVAILABLE")

  -- `source_event_key` of a request event. The reconcile job makes the same key.
  unfoldable pub request_key : String → EventType → Json → Json → String
  request_key source EventType.request_available request_id status = join_colon (
      source
      ∷ type_name EventType.request_available
      ∷ py_str lib request_id
      ∷ py_str lib status
      ∷ [])
  request_key source type request_id status =
      join_colon (source ∷ type_name type ∷ py_str lib request_id ∷ [])

  availability : EventType → Json → Fields
  availability EventType.request_available status =
      field "partial" (bool (json_is "PARTIALLY_AVAILABLE" status)) end
  availability type status = end

  request_attrs : EventType → Json → Json → Option String → Json → Fields
  unfolding availability
  request_attrs type notification_type request_id seasons status =
      field "request_id" (str (py_str lib request_id)) (
        append_fields (optional_field "requested_seasons" seasons) (
          append_fields
            (if json_is "MEDIA_AUTO_APPROVED" notification_type
              then field "auto_approved" (bool true) end
              else end)
            (availability type status)))

  failed_attrs : Json → Json → Fields
  failed_attrs request_id message =
      field "kind" (str "request_failed")
        (field "request_id" (str (py_str lib request_id)) (field "message" message end))

  -- `media.get("status")` is read of an available request only.
  media_status : EventType → Json → Result Json
  media_status EventType.request_available media = bind (as_dict media) (λ fs. ok (status_of fs))
  media_status type media = ok null

module _ (lib : Stdlib) (re : Text) (id source : String) where
  request_event : EventType → Json → Json → Fields → Result (List CanonicalEvent)
  unfolding seasons_of media_status request_attrs request_key media_of user_of
  request_event type notification_type request_id payload =
      bind (seasons_of lib payload) (λ seasons.
        bind (media_status lib type (get_dict "media" payload)) (λ status.
          bind (media_of lib re payload) (λ media. bind (user_of lib re payload) (λ user. ok (
            new_event id source (request_key lib source type request_id status) type media user
              (request_attrs lib type notification_type request_id seasons status)
            ∷ [])))))

  failed_event : Json → Fields → Result (List CanonicalEvent)
  unfolding media_of user_of failed_attrs
  failed_event request_id payload = bind (media_of lib re payload) (λ media.
      bind (user_of lib re payload) (λ user. ok (
        new_event id source
          (join_colon (source ∷ "health.issue" ∷ "request" ∷ py_str lib request_id ∷ []))
          EventType.health_issue media user
          (failed_attrs lib request_id (get_field "message" payload))
        ∷ [])))

  abbrev test_attrs : Json → Fields
  test_attrs notification_type =
      if json_is "TEST_NOTIFICATION" notification_type then field "test" (bool true) end else end

  -- By the notification type and its event type, if it is one of a request.
  typed_event : Option EventType → Json → Json → Fields → Result (List CanonicalEvent)
  unfolding request_event failed_event unknown_event
  typed_event type notification_type request_id payload =
      if is_null request_id
      then ok (
          unknown_event lib id source payload notification_type (test_attrs notification_type) ∷ [])
      else elim type [
        | some t ↦ request_event t notification_type request_id payload
        | none ↦
            if json_is "MEDIA_FAILED" notification_type
            then failed_event request_id payload
            else ok (
                unknown_event lib id source payload notification_type (test_attrs notification_type)
                ∷ [])
      ]

  -- `id` is what `new_id` returns for the event.
  unfoldable pub normalize_seerr : Json → Result (List CanonicalEvent)
  unfolding typed_event
  normalize_seerr payload = bind (as_dict payload) (λ fs.
      bind (as_dict (get_dict "request" fs)) (λ request.
        bind (request_type_of (get_field "notification_type" fs)) (λ type.
          typed_event type (get_field "notification_type" fs) (get_field "request_id" request) fs)))

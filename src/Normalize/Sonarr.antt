-- ===== src/Normalize/Sonarr.antt =====
-- src/costanza/normalize/sonarr.py.
use costanza.Prelude.{
  String, Bool, true, false, ◌&&◌, Option, none, some, List, [], ◌∷◌, ◌==◌, if◌then◌else◌,
  join_colon, format, or_else,
}
use costanza.Json.{
  Json, null, bool, int, str, arr, obj, Items, nil, cons, Fields, end, field, ℤ, pos, int_eq,
  to_ℤ_truthy, get_field, truthy, append_fields,
}
use costanza.Result.{Result, ok, raised}
use costanza.Stdlib.{Stdlib, py_str, sha16, two_digits}
use costanza.Schemas.{CanonicalEvent, EventType, type_name, MediaRef, MediaKind}
use costanza.Normalize.Common.{
  as_dict, or_json, or_none, get_dict, to_int, int_json, text_field, json_is, truthy_field,
  native_key, new_event, unknown_event, health_event, is_health, test_attrs, no_attribute,
  not_iterable, ◌>>=◌,
}

-- The items of a list, each an object: every use of the list reads each item by `get`.
dicts : Items → Result (List Fields)
dicts nil = ok []
dicts (cons x xs) = let rest = dicts xs in as_dict x >>= λ fs. rest >>= λ others. ok (fs ∷ others)

-- What `for e in v` gives for a value that is truthy.
dicts_of : Json → Result (List Fields)
unfolding dicts
dicts_of null = ok []
dicts_of (arr items) = dicts items
dicts_of (bool b) = if b then raised not_iterable else ok []
dicts_of (int n) = if to_ℤ_truthy n then raised not_iterable else ok []
dicts_of (str s) = if s == "" then ok [] else raised no_attribute
dicts_of (obj end) = ok []
dicts_of (obj (field k v fs)) = raised no_attribute

-- _episodes
unfoldable pub episodes_of : Fields → Result (List Fields)
unfolding dicts_of
episodes_of payload = dicts_of (get_field "episodes" payload)

abbrev int_or_null_eq : Option ℤ → Option ℤ → Bool
int_or_null_eq none none = true
int_or_null_eq none (some b) = false
int_or_null_eq (some a) none = false
int_or_null_eq (some a) (some b) = int_eq a b

module _ (lib : Stdlib) where
  season_of : Fields → Option ℤ
  unfolding to_int
  season_of e = to_int lib (get_field "seasonNumber" e)

  number_of : Fields → Option ℤ
  unfolding to_int
  number_of e = to_int lib (get_field "episodeNumber" e)

  -- len({season of e for e in episodes}) == 1, for a list that starts with one of season `s`.
  all_season : Option ℤ → List Fields → Bool
  unfolding season_of
  all_season s [] = true
  all_season s (e ∷ es) = int_or_null_eq (season_of e) s && all_season s es

  -- The kind and the detail that the episodes give.
  unfoldable pub grouped : List Fields → MediaKind × Fields
  unfolding season_of number_of all_season
  grouped [] = (MediaKind.series, end)
  grouped (e ∷ []) = (
    MediaKind.episode,
    field "season" (int_json (season_of e)) (field "episode" (int_json (number_of e)) end),
  )
  grouped (e ∷ f ∷ es) =
      if all_season (season_of e) (f ∷ es)
      then (MediaKind.season, field "season" (int_json (season_of e)) end)
      else (MediaKind.series, end)

  series_ref : Fields → MediaKind × Fields → Result MediaRef
  unfolding to_int
  series_ref series (kind, detail) = do
    imdb ← text_field (or_none (get_field "imdbId" series))
    title ← text_field (get_field "title" series)
    ok (record {
      media_id = none;
      tmdb_id = to_int lib (get_field "tmdbId" series);
      tvdb_id = to_int lib (get_field "tvdbId" series);
      imdb_id = imdb;
      title = title;
      year = to_int lib (get_field "year" series);
      kind = some kind;
      detail = detail;
    })

  -- _media
  unfoldable pub media_of : Fields → Result (Option MediaRef)
  unfolding series_ref grouped episodes_of
  media_of payload =
      if truthy (get_field "series" payload)
      then (do
        episodes ← episodes_of payload
        series ← as_dict (get_field "series" payload)
        media ← series_ref series (grouped episodes)
        ok (some media))
      else ok none

  -- _series_key
  unfoldable pub series_key : Fields → Result String
  unfolding native_key
  series_key payload = do
    series ← as_dict (get_dict "series" payload)
    ok (native_key lib "tvdbId" series)

  -- f"S{season or 0:02d}E{number or 0:02d}"
  unfoldable pub episode_code : Option ℤ → Option ℤ → String
  episode_code season number =
      format
        ("S" ∷ two_digits (or_else season (pos 0)) ∷ "E" ∷ two_digits (or_else number (pos 0)) ∷ [])

  episode_codes : List Fields → String
  unfolding episode_code season_of number_of
  episode_codes [] = ""
  episode_codes (e ∷ []) = episode_code (season_of e) (number_of e)
  episode_codes (e ∷ f ∷ es) =
      format (episode_code (season_of e) (number_of e) ∷ "-" ∷ episode_codes (f ∷ es) ∷ [])

  -- The codes of the episodes; "S00E00" where there are none.
  unfoldable pub codes_or_none : List Fields → String
  unfolding episode_codes
  codes_or_none [] = "S00E00"
  codes_or_none (e ∷ es) = episode_codes (e ∷ es)

  -- _ep_key
  unfoldable pub ep_key : Fields → Result String
  unfolding codes_or_none episodes_of
  ep_key payload = episodes_of payload >>= λ episodes. ok (codes_or_none episodes)

  episode_json : Fields → Json
  unfolding season_of number_of
  episode_json e = obj (
      field "season" (int_json (season_of e))
        (field "episode" (int_json (number_of e)) (field "title" (get_field "title" e) end)))

  episodes_json : List Fields → Items
  unfolding episode_json
  episodes_json [] = nil
  episodes_json (e ∷ es) = cons (episode_json e) (episodes_json es)

  -- _episode_attrs
  unfoldable pub episode_attrs : Fields → Result Fields
  unfolding episodes_json episodes_of
  episode_attrs payload = do
    episodes ← episodes_of payload
    release ← as_dict (get_dict "release" payload)
    file ← as_dict (get_dict "episodeFile" payload)
    let either = λ (k : String). or_json (get_field k file) (get_field k release)
    ok (
        append_fields (truthy_field "episodes" (arr (episodes_json episodes))) (
          append_fields (truthy_field "quality" (either "quality")) (
            append_fields (truthy_field "size" (either "size"))
              (truthy_field "indexer" (get_field "indexer" release)))))

  module _ (id source : String) where
    -- A grab or an import: the key ends in the episodes and the discriminator.
    acquired : EventType → Option MediaRef → String → Json → Fields → Result (List CanonicalEvent)
    unfolding ep_key episode_attrs
    acquired type media skey discriminator payload = do
      codes ← ep_key payload
      attrs ← episode_attrs payload
      ok (
          new_event id source
            (join_colon (source ∷ type_name type ∷ skey ∷ codes ∷ py_str lib discriminator ∷ []))
            type media none attrs
          ∷ [])

    grabbed : Option MediaRef → String → Fields → Result (List CanonicalEvent)
    unfolding acquired sha16
    grabbed media skey payload =
        acquired EventType.media_grabbed media skey
          (or_json (get_field "downloadId" payload)
            (str (sha16 lib (or_json (get_field "release" payload) (obj payload)))))
          payload

    imported : Option MediaRef → String → Fields → Result (List CanonicalEvent)
    unfolding acquired sha16
    imported media skey payload = do
      file ← as_dict (get_dict "episodeFile" payload)
      acquired
          (if truthy (get_field "isUpgrade" payload)
            then EventType.media_upgraded
            else EventType.media_imported)
          media skey
          (or_json (get_field "downloadId" payload)
            (str (sha16 lib (or_json (get_field "relativePath" file) (obj file)))))
          payload

    file_deleted : Option MediaRef → String → Fields → Result (List CanonicalEvent)
    unfolding sha16 ep_key
    file_deleted media skey payload = do
      file ← as_dict (get_dict "episodeFile" payload)
      codes ← ep_key payload
      let discriminator = or_json (get_field "id" file) (str (sha16 lib (obj file)))
      ok (
          new_event id source
            (join_colon
              (source ∷ "media.deleted" ∷ "file" ∷ skey ∷ codes ∷ py_str lib discriminator ∷ []))
            EventType.media_deleted media none
            (field "scope" (str "file") (field "reason" (get_field "deleteReason" payload) end))
          ∷ [])

    series_deleted : Option MediaRef → String → Fields → CanonicalEvent
    series_deleted media skey payload =
        new_event id source (join_colon (source ∷ "media.deleted" ∷ "series" ∷ skey ∷ []))
          EventType.media_deleted media none
          (field "scope" (str "series")
            (field "deleted_files" (bool (truthy (get_field "deletedFiles" payload))) end))

    -- By the event type, once media and key are read.
    typed_event : Json → Option MediaRef → String → Fields → Result (List CanonicalEvent)
    unfolding grabbed imported file_deleted series_deleted health_event unknown_event
    typed_event event_type media skey payload =
        if json_is "Grab" event_type
        then grabbed media skey payload
        else if json_is "Download" event_type
        then imported media skey payload
        else if json_is "EpisodeFileDelete" event_type
        then file_deleted media skey payload
        else if json_is "SeriesDelete" event_type
        then ok (series_deleted media skey payload ∷ [])
        else if is_health event_type
        then ok (health_event lib id source event_type payload ∷ [])
        else ok (unknown_event lib id source payload event_type (test_attrs "Test" event_type) ∷ [])

    -- `id` is what `new_id` returns for the event.
    unfoldable pub normalize_sonarr : Json → Result (List CanonicalEvent)
    unfolding media_of series_key typed_event
    normalize_sonarr payload = do
      fs ← as_dict payload
      media ← media_of fs
      skey ← series_key fs
      typed_event (get_field "eventType" fs) media skey fs

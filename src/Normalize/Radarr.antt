-- ===== src/Normalize/Radarr.antt =====
-- src/costanza/normalize/radarr.py.
use costanza.Prelude.{String, Option, none, some, List, [], ◌∷◌, if◌then◌else◌, join_colon}
use costanza.Json.{Json, bool, str, obj, Fields, end, field, get_field, truthy, append_fields}
use costanza.Result.{Result, ok}
use costanza.Stdlib.{Stdlib, py_str, sha16}
use costanza.Schemas.{CanonicalEvent, EventType, type_name, MediaRef, MediaKind}
use costanza.Normalize.Common.{
  as_dict, or_json, or_none, get_dict, to_int, text_field, json_is, truthy_field, native_key,
  new_event, unknown_event, health_event, is_health, test_attrs, ◌>>=◌,
}

module _ (lib : Stdlib) where
  movie_ref : Fields → Result MediaRef
  unfolding to_int
  movie_ref movie = do
    imdb ← text_field (or_none (get_field "imdbId" movie))
    title ← text_field (get_field "title" movie)
    ok (record {
      media_id = none;
      tmdb_id = to_int lib (get_field "tmdbId" movie);
      tvdb_id = none;
      imdb_id = imdb;
      title = title;
      year = to_int lib (get_field "year" movie);
      kind = some MediaKind.movie;
      detail = end;
    })

  -- _media
  unfoldable pub media_of : Fields → Result (Option MediaRef)
  unfolding movie_ref
  media_of payload =
      if truthy (get_field "movie" payload)
      then (do
        movie ← as_dict (get_field "movie" payload)
        media ← movie_ref movie
        ok (some media))
      else ok none

  -- _media_key
  unfoldable pub media_key : Fields → Result String
  unfolding native_key
  media_key payload = do
    movie ← as_dict (get_dict "movie" payload)
    ok (native_key lib "tmdbId" movie)

  -- _quality_attrs
  unfoldable pub quality_attrs : Fields → Result Fields
  quality_attrs payload = do
    release ← as_dict (get_dict "release" payload)
    file ← as_dict (get_dict "movieFile" payload)
    let either = λ (k : String). or_json (get_field k file) (get_field k release)
    ok (
        append_fields (truthy_field "quality" (either "quality")) (
          append_fields (truthy_field "size" (either "size")) (
            append_fields (truthy_field "indexer" (get_field "indexer" release))
              (truthy_field "release_group" (either "releaseGroup")))))

  -- payload.get("downloadId") or sha16(payload.get("release") or payload)
  unfoldable pub grab_id : Fields → Json
  unfolding sha16
  grab_id payload =
      or_json (get_field "downloadId" payload)
        (str (sha16 lib (or_json (get_field "release" payload) (obj payload))))

  -- The discriminator of an import: the download, the path, or the file.
  unfoldable pub import_id : Fields → Fields → Json
  unfolding sha16
  import_id payload file =
      or_json (get_field "downloadId" payload)
        (str (sha16 lib (or_json (get_field "relativePath" file) (obj file))))

  abbrev pub imported_type : Fields → EventType
  imported_type payload =
      if truthy (get_field "isUpgrade" payload)
      then EventType.media_upgraded
      else EventType.media_imported

  module _ (id source : String) where
    -- A grab or an import: the key ends in the discriminator.
    acquired : EventType → Option MediaRef → String → Json → Fields → Result (List CanonicalEvent)
    unfolding quality_attrs
    acquired type media mkey discriminator payload = do
      attrs ← quality_attrs payload
      ok (
          new_event id source
            (join_colon (source ∷ type_name type ∷ mkey ∷ py_str lib discriminator ∷ [])) type media
            none attrs
          ∷ [])

    imported : Option MediaRef → String → Fields → Result (List CanonicalEvent)
    unfolding acquired import_id
    imported media mkey payload = do
      file ← as_dict (get_dict "movieFile" payload)
      acquired (imported_type payload) media mkey (import_id payload file) payload

    file_deleted : Option MediaRef → String → Fields → Result (List CanonicalEvent)
    unfolding sha16
    file_deleted media mkey payload = do
      file ← as_dict (get_dict "movieFile" payload)
      let discriminator = or_json (get_field "id" file) (str (sha16 lib (obj file)))
      ok (
          new_event id source
            (join_colon (source ∷ "media.deleted" ∷ "file" ∷ mkey ∷ py_str lib discriminator ∷ []))
            EventType.media_deleted media none
            (field "scope" (str "file") (field "reason" (get_field "deleteReason" payload) end))
          ∷ [])

    movie_deleted : Option MediaRef → String → Fields → CanonicalEvent
    movie_deleted media mkey payload =
        new_event id source (join_colon (source ∷ "media.deleted" ∷ "movie" ∷ mkey ∷ []))
          EventType.media_deleted media none
          (field "scope" (str "movie")
            (field "deleted_files" (bool (truthy (get_field "deletedFiles" payload))) end))

    -- By the event type, once media and key are read.
    typed_event : Json → Option MediaRef → String → Fields → Result (List CanonicalEvent)
    unfolding acquired grab_id imported file_deleted movie_deleted health_event unknown_event
    typed_event event_type media mkey payload =
        if json_is "Grab" event_type
        then acquired EventType.media_grabbed media mkey (grab_id payload) payload
        else if json_is "Download" event_type
        then imported media mkey payload
        else if json_is "MovieFileDelete" event_type
        then file_deleted media mkey payload
        else if json_is "MovieDelete" event_type
        then ok (movie_deleted media mkey payload ∷ [])
        else if is_health event_type
        then ok (health_event lib id source event_type payload ∷ [])
        else ok (unknown_event lib id source payload event_type (test_attrs "Test" event_type) ∷ [])

    -- `id` is what `new_id` returns for the event.
    unfoldable pub normalize_radarr : Json → Result (List CanonicalEvent)
    unfolding media_of media_key typed_event
    normalize_radarr payload = do
      fs ← as_dict payload
      media ← media_of fs
      mkey ← media_key fs
      typed_event (get_field "eventType" fs) media mkey fs

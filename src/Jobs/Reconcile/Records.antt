-- ===== src/Jobs/Reconcile/Records.antt =====
-- src/costanza/jobs/reconcile.py: the event that a history record of Radarr or Sonarr stands for.
use costanza.Prelude.{
  String, Bool, true, false, Option, none, some, List, [], ◌∷◌, ◌++◌, ◌==◌, if◌then◌else◌,
  join_colon, format,
}
use costanza.Json.{
  Json, null, bool, int, str, arr, obj, Fields, end, field, ℤ, pos, int_eq, has_field, get_field,
  truthy,
}
use costanza.Result.{Exception, Result, ok, raised}
use costanza.Stdlib.{Stdlib, py_str}
use costanza.Schemas.{Time, CanonicalEvent, EventType, type_name, Origin, MediaRef, MediaKind}
use costanza.Normalize.Common.{
  as_dict, or_json, or_none, get_dict, to_int, int_json, text_field, truthy_field, ◌>>=◌,
}
use costanza.Normalize.Sonarr.{episode_code}
use costanza.Jobs.Reconcile.{parse_dt}

abbrev unhashable : Exception
unhashable = record { name = "TypeError"; message = "unhashable type" }

abbrev not_joinable : Exception
not_joinable = record { name = "TypeError"; message = "sequence item: expected str instance" }

-- _ARR_HISTORY_TYPES.get(v or "")
unfoldable pub history_type : Json → Result (Option EventType)
history_type (str s) = ok (
    if s == "grabbed"
    then some EventType.media_grabbed
    else if s == "downloadFolderImported"
    then some EventType.media_imported
    else if s == "movieFileDeleted"
    then some EventType.media_deleted
    else if s == "episodeFileDeleted"
    then some EventType.media_deleted
    else none)
history_type value = elim value [
  | null ↦ ok none
  | bool b ↦ ok none
  | int n ↦ ok none
  | str s ↦ ok none
  | arr xs ↦ if truthy (arr xs) then raised unhashable else ok none
  | obj fs ↦ if truthy (obj fs) then raised unhashable else ok none
]

-- v in (True, "true", "True"), where 1 equals True.
abbrev pub is_upgrade : Json → Bool
is_upgrade (bool b) = b
is_upgrade (int n) = int_eq n (pos 1)
is_upgrade (str s) = if s == "true" then true else s == "True"
is_upgrade _ = false

-- d.get("data", {})
abbrev data_of : Fields → Json
data_of fs = if has_field "data" fs then get_field "data" fs else obj end

unfoldable pub refined_type : EventType → Fields → Result EventType
refined_type EventType.media_imported fs = as_dict (data_of fs) >>= λ fields. ok (
    if is_upgrade (get_field "isUpgrade" fields)
    then EventType.media_upgraded
    else EventType.media_imported)
refined_type type fs = ok type

abbrev pub is_deleted : EventType → Bool
is_deleted EventType.media_deleted = true
is_deleted _ = false

-- What a record says of its movie or series: the key's segments and the reference.
pub record ArrMedia : Type 0 where
  pub media_key : String
  pub media_ref : MediaRef
  pub ep_segment : Option String

module _ (lib : Stdlib) where
  -- str(to_int(d.get(k)) or record.get(id))
  abbrev id_or : String → Fields → String → Fields → String
  id_or k d id fs = py_str lib (or_json (int_json (to_int lib (get_field k d))) (get_field id fs))

  movie_media : Fields → Fields → Result ArrMedia
  unfolding to_int
  movie_media fs movie = do
    imdb ← text_field (or_none (get_field "imdbId" movie))
    title ← text_field (get_field "title" movie)
    ok (record {
      media_key = id_or "tmdbId" movie "movieId" fs;
      media_ref = record {
        media_id = none;
        tmdb_id = to_int lib (get_field "tmdbId" movie);
        tvdb_id = none;
        imdb_id = imdb;
        title = title;
        year = to_int lib (get_field "year" movie);
        kind = some MediaKind.movie;
        detail = end;
      };
      ep_segment = none;
    })

  abbrev episode_kind : Option ℤ → MediaKind
  episode_kind none = MediaKind.series
  episode_kind (some number) = MediaKind.episode

  abbrev episode_detail : Option ℤ → Option ℤ → Fields
  episode_detail season none = end
  episode_detail season (some number) =
      field "season" (int_json season) (field "episode" (int number) end)

  series_media : Fields → Fields → Result ArrMedia
  unfolding to_int episode_code
  series_media fs series = do
    episode ← as_dict (get_dict "episode" fs)
    let season = to_int lib (get_field "seasonNumber" episode)
    let number = to_int lib (get_field "episodeNumber" episode)
    title ← text_field (get_field "title" series)
    ok (record {
      media_key = id_or "tvdbId" series "seriesId" fs;
      media_ref = record {
        media_id = none;
        tmdb_id = to_int lib (get_field "tmdbId" series);
        tvdb_id = to_int lib (get_field "tvdbId" series);
        imdb_id = none;
        title = title;
        year = to_int lib (get_field "year" series);
        kind = some (episode_kind number);
        detail = episode_detail season number;
      };
      ep_segment = some (episode_code lib season number);
    })

  unfoldable pub arr_media : Fields → Result (Option ArrMedia)
  unfolding movie_media series_media
  arr_media fs =
      if truthy (get_field "movie" fs)
      then (as_dict (get_field "movie" fs) >>= λ movie.
          movie_media fs movie >>= λ media. ok (some media))
      else if truthy (get_field "series" fs)
      then (as_dict (get_field "series" fs) >>= λ series.
          series_media fs series >>= λ media. ok (some media))
      else ok none

  -- The name of the record's quality, where it has one.
  quality_of : Fields → Result Fields
  quality_of fs = do
    outer ← as_dict (get_dict "quality" fs)
    inner ← as_dict (get_dict "quality" outer)
    ok (truthy_field "quality" (get_field "name" inner))

  -- A part as `join` takes it.
  abbrev part_text : Json → Result String
  part_text (str s) = ok s
  part_text _ = raised not_joinable

  -- download_id or f"history-{record.get('id')}"
  unfoldable pub download_part : Fields → Result String
  download_part fs =
      let download_id = get_field "downloadId" fs in
      if truthy download_id
      then part_text download_id
      else ok (format ("history-" ∷ py_str lib (get_field "id" fs) ∷ []))

  abbrev pub segment_of : Option String → List String
  segment_of none = []
  segment_of (some ep_segment) = ep_segment ∷ []

  unfoldable pub arr_key : String → EventType → ArrMedia → String → String
  arr_key source type media download = join_colon (
      source
        ∷ type_name type
        ∷ (if is_deleted type then "file" ∷ media.media_key ∷ [] else media.media_key ∷ [])
      ++ segment_of media.ep_segment
      ++ download ∷ [])

  -- The event of a record whose type is known; `id` is what `new_id` returns for it.
  record_event :
      String → String → Option Time → Fields → EventType → ArrMedia → Result CanonicalEvent
  unfolding quality_of download_part arr_key refined_type
  record_event source id date fs canonical media = do
    type ← refined_type canonical fs
    quality ← quality_of fs
    download ← download_part fs
    ok (record {
      id = id;
      source = source;
      source_event_key = arr_key source type media download;
      origin = Origin.reconcile;
      type = type;
      occurred_at = date;
      received_at = none;
      media = some media.media_ref;
      user = none;
      attrs = if is_deleted type then field "scope" (str "file") quality else quality;
    })

  typed_record :
      String
      → String
      → Option Time
      → Fields
      → Option EventType
      → Option ArrMedia
      → Result (Option CanonicalEvent)
  unfolding record_event
  typed_record source id date fs canonical none = ok none
  typed_record source id date fs none (some media) = ok none
  typed_record source id date fs (some canonical) (some media) =
      record_event source id date fs canonical media >>= λ event. ok (some event)

  -- `_arr_record_event`
  unfoldable pub arr_record_event :
      (String → Option Time) → String → String → Fields → Result (Option CanonicalEvent)
  unfolding history_type arr_media typed_record parse_dt
  arr_record_event parse_time source id fs = do
    canonical ← history_type (get_field "eventType" fs)
    date ← parse_dt parse_time (get_field "date" fs)
    media ← arr_media fs
    typed_record source id date fs canonical media

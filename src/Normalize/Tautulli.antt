-- ===== src/Normalize/Tautulli.antt =====
-- src/costanza/normalize/tautulli.py.
use costanza.Prelude.{
  String, Bool, true, false, not, ◌&&◌, Option, none, some, List, [], ◌∷◌, ◌==◌, if◌then◌else◌,
  join_colon, leb,
}
use costanza.Json.{
  Json, int, str, obj, Fields, end, field, ℤ, pos, negsuc, get_field, truthy, append_fields,
}
use costanza.Result.{Result, ok}
use costanza.Stdlib.{Stdlib, py_str, sha16}
use costanza.Schemas.{CanonicalEvent, EventType, MediaRef, MediaKind, UserRef, IdentityProvider}
use costanza.Config.{WatchCompletionConfig}
use costanza.Normalize.Common.{
  as_dict, or_json, to_int, int_json, text_field, json_is, is_null, truthy_field, new_event,
  unknown_event, ◌>>=◌,
}

-- a <= b
abbrev pub int_le : ℤ → ℤ → Bool
int_le (pos a) (pos b) = leb a b
int_le (pos a) (negsuc b) = false
int_le (negsuc a) (pos b) = true
int_le (negsuc a) (negsuc b) = leb b a

module _ (lib : Stdlib) where
  episode_ref : Option ℤ → Option ℤ → Fields → Result MediaRef
  unfolding to_int
  episode_ref tmdb tvdb payload = do
    title ← text_field (or_json (get_field "show_name" payload) (get_field "title" payload))
    ok (record {
      media_id = none;
      tmdb_id = tmdb;
      tvdb_id = tvdb;
      imdb_id = none;
      title = title;
      year = to_int lib (get_field "year" payload);
      kind = some MediaKind.episode;
      detail =
          field "season" (int_json (to_int lib (get_field "season_num" payload)))
            (field "episode" (int_json (to_int lib (get_field "episode_num" payload))) end);
    })

  movie_ref : Option ℤ → Option ℤ → Fields → Result MediaRef
  unfolding to_int
  movie_ref tmdb tvdb payload = do
    title ← text_field (get_field "title" payload)
    ok (record {
      media_id = none;
      tmdb_id = tmdb;
      tvdb_id = tvdb;
      imdb_id = none;
      title = title;
      year = to_int lib (get_field "year" payload);
      kind = some MediaKind.movie;
      detail = end;
    })

  -- _media
  unfoldable pub media_of : Fields → Result (Option MediaRef)
  unfolding episode_ref movie_ref to_int
  media_of payload =
      let tmdb = to_int lib (or_json (get_field "tmdbId" payload) (get_field "tmdb_id" payload)) in
      let tvdb = to_int lib (or_json (get_field "tvdbId" payload) (get_field "tvdb_id" payload)) in
      if json_is "episode" (get_field "media_type" payload)
      then (episode_ref tmdb tvdb payload >>= λ media. ok (some media))
      else if json_is "movie" (get_field "media_type" payload)
      then (movie_ref tmdb tvdb payload >>= λ media. ok (some media))
      else ok none

  plex_name : Fields → Json
  plex_name payload = or_json (get_field "plex_username" payload) (get_field "username" payload)

  -- _user
  unfoldable pub user_of : Fields → Option UserRef
  unfolding plex_name
  user_of payload =
      let name = plex_name payload in
      let user_id = get_field "user_id" payload in
      if not (is_null user_id) && not (py_str lib user_id == "")
      then some (record {
        user_id = none;
        display = if truthy name then some (py_str lib name) else none;
        provider = some IdentityProvider.tautulli;
        external_id = some (py_str lib user_id);
      })
      else if truthy name
      then some (record {
        user_id = none;
        display = some (py_str lib name);
        provider = some IdentityProvider.plex;
        external_id = some (py_str lib name);
      })
      else none

  -- _user_key
  unfoldable pub user_key : Fields → String
  user_key payload = py_str lib (
      or_json (get_field "user_id" payload)
        (or_json (get_field "plex_username" payload) (str "unknown")))

  unfoldable pub rating_key : Fields → Json
  unfolding sha16
  rating_key payload = or_json (get_field "rating_key" payload) (str (sha16 lib (obj payload)))

  -- _watch_key
  unfoldable pub watch_key : String → Fields → String
  unfolding user_key rating_key
  watch_key source payload =
      join_colon
        (source ∷ "watch.completed" ∷ user_key payload ∷ py_str lib (rating_key payload) ∷ [])

  -- _base_attrs
  unfoldable pub base_attrs : Fields → Fields
  base_attrs payload = append_fields (truthy_field "player" (get_field "player" payload)) (
      append_fields (truthy_field "episode_title" (get_field "episode_name" payload))
        (truthy_field "video_resolution" (get_field "video_resolution" payload)))

  playback_key : String → String → Fields → String
  unfolding user_key rating_key
  playback_key source kind payload = join_colon (
      source
      ∷ kind
      ∷ user_key payload
      ∷ py_str lib (or_json (get_field "session_key" payload) (str "nosession"))
      ∷ py_str lib (rating_key payload)
      ∷ [])

  abbrev progress_field : Option ℤ → Fields
  progress_field none = end
  progress_field (some n) = field "progress_percent" (int n) end

  -- The playback ended late enough, and no trigger of its own says that it was watched.
  unfoldable pub derives_watch : WatchCompletionConfig → Option ℤ → Bool
  derives_watch watch none = false
  derives_watch watch (some progress) =
      not watch.tautulli_watched_trigger && int_le watch.progress_threshold progress

  -- Two ids, which the events of a payload draw in order.
  module _ (first second source : String) (watch : WatchCompletionConfig) (media : Option MediaRef)
      (user : Option UserRef) (payload : Fields) where
    started : CanonicalEvent
    unfolding playback_key base_attrs
    started =
        new_event first source (playback_key source "playback.started" payload)
          EventType.playback_started media user (base_attrs payload)

    watched : String → Fields → CanonicalEvent
    unfolding watch_key
    watched id attrs =
        new_event id source (watch_key source payload) EventType.watch_completed media user attrs

    unfoldable pub stopped : Option ℤ → List CanonicalEvent
    unfolding playback_key base_attrs derives_watch watched
    stopped progress =
        new_event first source (playback_key source "playback.stopped" payload)
          EventType.playback_stopped media user
          (append_fields (base_attrs payload) (progress_field progress))
        ∷ (if derives_watch watch progress
            then watched second (
                append_fields (base_attrs payload)
                  (field "derived_from" (str "playback.stopped") (progress_field progress)))
              ∷ []
            else [])

    -- By the event, once media and user are read.
    unfoldable pub typed_events : Json → List CanonicalEvent
    unfolding started watched stopped base_attrs to_int unknown_event
    typed_events event =
        if json_is "playback_start" event
        then started ∷ []
        else if json_is "playback_stop" event
        then stopped (to_int lib (get_field "progress_percent" payload))
        else if json_is "watched" event
        then watched first (base_attrs payload) ∷ []
        else unknown_event lib first source payload event end ∷ []

  unfoldable pub normalize_tautulli :
      String → String → String → WatchCompletionConfig → Json → Result (List CanonicalEvent)
  unfolding typed_events media_of user_of
  normalize_tautulli first second source watch payload = do
    fs ← as_dict payload
    media ← media_of fs
    ok (typed_events first second source watch media (user_of fs) fs (get_field "event" fs))

-- ===== src/Jobs/Reconcile/Tautulli.antt =====
-- src/costanza/jobs/reconcile.py: the repair of missed Tautulli watches, from the history rows that
-- the client gives. `from_timestamp` is `datetime.fromtimestamp`.
use costanza.Prelude.{
  ℕ, suc, String, Bool, true, false, ◌||◌, Option, none, some, List, [], ◌∷◌, ◌==◌, if◌then◌else◌,
  join_colon,
}
use costanza.Json.{Json, bool, int, str, Fields, end, field, ℤ, pos, int_eq, get_field, truthy}
use costanza.Result.{Exception, Result, ok, raised, Exec, continue}
use costanza.Stdlib.{Stdlib, py_str}
use costanza.Schemas.{
  Time, CanonicalEvent, EventType, Origin, MediaRef, MediaKind, UserRef, IdentityProvider,
  RenderedMessage,
}
use costanza.Config.{RoutingConfig, value_error}
use costanza.Store.{Db, EventRow}
use costanza.Store.Events.{get_event_by_key}
use costanza.Normalize.Common.{as_dict, or_json, to_int, int_json, text_field, json_is, ◌>>=◌}
use costanza.Jobs.Reconcile.{repair, recover}

abbrev bad_int : Exception
bad_int = record { name = "TypeError"; message = "int() argument must be a string or a number" }

-- v in (1, "1"), where True equals 1.
abbrev pub is_watched : Json → Bool
is_watched (int n) = int_eq n (pos 1)
is_watched (str s) = s == "1"
is_watched (bool b) = b
is_watched _ = false

abbrev parsed_int : Option ℤ → Result ℤ
parsed_int none = raised (value_error "invalid literal for int()")
parsed_int (some n) = ok n

-- int(v)
unfoldable pub py_int : Stdlib → Json → Result ℤ
py_int lib (int n) = ok n
py_int lib (bool b) = ok (if b then pos 1 else pos 0)
py_int lib (str s) = parsed_int (lib.int_of_text s)
py_int lib _ = raised bad_int

module _ (lib : Stdlib) where
  -- str(row.get("user_id") or row.get("user") or "unknown")
  unfoldable pub watcher_key : Fields → String
  watcher_key row =
      py_str lib
        (or_json (get_field "user_id" row) (or_json (get_field "user" row) (str "unknown")))

  unfoldable pub history_key : String → Fields → String
  unfolding watcher_key
  history_key source row =
      join_colon (
        source ∷ "watch.completed" ∷ watcher_key row ∷ py_str lib (get_field "rating_key" row) ∷ [])

  -- When the play stopped, in the zone of the window.
  stopped_at : (ℤ → Result Time) → Fields → Result (Option Time)
  unfolding py_int
  stopped_at from_timestamp row =
      let stopped = or_json (get_field "stopped" row) (get_field "date" row) in
      if truthy stopped
      then (py_int lib stopped >>= λ n. from_timestamp n >>= λ t. ok (some t))
      else ok none

  abbrev is_episode : Fields → Bool
  is_episode row = json_is "episode" (get_field "media_type" row)

  watched_media : Fields → Result MediaRef
  unfolding to_int
  watched_media row = do
    title ← text_field (get_field (if is_episode row then "grandparent_title" else "title") row)
    ok (record {
      media_id = none;
      tmdb_id = none;
      tvdb_id = none;
      imdb_id = none;
      title = title;
      year = to_int lib (get_field "year" row);
      kind = some (if is_episode row then MediaKind.episode else MediaKind.movie);
      detail =
          if is_episode row
          then field "season" (int_json (to_int lib (get_field "parent_media_index" row)))
              (field "episode" (int_json (to_int lib (get_field "media_index" row))) end)
          else end;
    })

  watcher : Fields → Result (Option UserRef)
  watcher row =
      let user_id = get_field "user_id" row in
      if truthy user_id || truthy (get_field "user" row)
      then (text_field (get_field "user" row) >>= λ display. ok (
          some (record {
            user_id = none;
            display = display;
            provider = some IdentityProvider.tautulli;
            external_id = if truthy user_id then some (py_str lib user_id) else none;
          })))
      else ok none

  -- The event of a row that was watched; `id` is what `new_id` returns.
  unfoldable pub watched_event :
      (ℤ → Result Time) → String → String → Time → Fields → Result CanonicalEvent
  unfolding stopped_at watched_media watcher history_key
  watched_event from_timestamp source id now row = do
    occurred ← stopped_at from_timestamp row
    media ← watched_media row
    user ← watcher row
    ok (record {
      id = id;
      source = source;
      source_event_key = history_key source row;
      origin = Origin.reconcile;
      type = EventType.watch_completed;
      occurred_at = occurred;
      received_at = some now;
      media = some media;
      user = user;
      attrs = field "backfilled" (bool true) end;
    })

module _ (lib : Stdlib) (hash : RenderedMessage → String) (routing : RoutingConfig)
    (kill : Option Bool) (now : Time) where
  -- A watch whose key is not stored: its event is applied.
  unfoldable pub recover_watch : Time → ℕ → Result CanonicalEvent → Exec Db ℕ
  unfolding recover
  recover_watch window_start recovered (raised exc) db = (raised exc, db)
  recover_watch window_start recovered (ok event) db =
      recover lib hash routing kill now window_start event recovered none
        (record db { drawn = suc db.drawn })

  -- A watch that is stored is repaired, and not counted.
  unfoldable pub recover_row :
      (ℤ → Result Time) → String → Time → ℕ → Fields → Option EventRow → Exec Db ℕ
  unfolding recover_watch watched_event repair
  recover_row from_timestamp source window_start recovered row none db =
      recover_watch window_start recovered
        (watched_event lib from_timestamp source (db.ids db.drawn) now row) db
  recover_row from_timestamp source window_start recovered row (some known) db =
      continue (λ u s. (ok recovered, s))
        (repair lib hash routing kill now kill window_start known db)

  unfoldable pub reconcile_row : (ℤ → Result Time) → String → Time → ℕ → Result Fields → Exec Db ℕ
  unfolding recover_row history_key
  reconcile_row from_timestamp source window_start recovered (raised exc) db = (raised exc, db)
  reconcile_row from_timestamp source window_start recovered (ok row) db =
      if is_watched (get_field "watched_status" row)
      then recover_row from_timestamp source window_start recovered row
          (get_event_by_key db (history_key lib source row)) db
      else (ok recovered, db)

  -- `_reconcile_tautulli`, over the history rows that the client gives.
  unfoldable pub reconcile_tautulli : (ℤ → Result Time) → String → List Json → Time → ℕ → Exec Db ℕ
  unfolding reconcile_row
  reconcile_tautulli from_timestamp source [] window_start recovered db = (ok recovered, db)
  reconcile_tautulli from_timestamp source (row ∷ rows) window_start recovered db =
      continue (reconcile_tautulli from_timestamp source rows window_start)
        (reconcile_row from_timestamp source window_start recovered (as_dict row) db)

-- ===== src/Tests/JobRuns.antt =====
-- Tests of the scheduled jobs and of the Seerr normalizer.
use costanza.Prelude.{String, ◌≡◌, refl, false, Option, none, some, [], ◌∷◌, find?}
use costanza.Json.{Json, obj, int, end, field, pos}
use costanza.Schemas.{Time, seconds, MediaKind}
use costanza.Store.{Db, EventRow}
use costanza.Store.Events.{event_row}
use costanza.Jobs.Reconcile.{Shared}
use costanza.Jobs.Digest.{run_digest, digest_key, window_cursor, period}
use costanza.Jobs.Digest.Windows.{Tiled, run_digest-Tiled}
use costanza.Config.{RoutingConfig}
use costanza.Notify.Limits.{engaged}
use costanza.Store.Control.{get_cursor, kill_switch_state}
use costanza.Prelude.{any, join_colon, format}
use costanza.Json.{str}
use costanza.Result.{ok}
use costanza.Schemas.{CanonicalEvent, EventType}
use costanza.Jobs.Reconcile.Arr.{segment, recover_unknown}
use costanza.Jobs.Reconcile.Twins.{recover_unknown-twin}
use costanza.Tests.Samples.{db, lib, hash, event, routing}

-- A request that is approved and whose media is available.
abbrev request : Json
request = obj (
    field "id" (int (pos 7)) (
      field "status" (int (pos 2)) (
        field "media" (obj (field "tmdbId" (int (pos 329865)) (field "status" (int (pos 5)) end)))
          end)))

abbrev no_time : String → Option Time
no_time text = none

abbrev shared : Shared
shared = record {
  source = "seerr";
  request_id = int (pos 7);
  media = record {
    media_id = none;
    tmdb_id = some (pos 329865);
    tvdb_id = none;
    imdb_id = none;
    title = none;
    year = none;
    kind = some MediaKind.movie;
    detail = end;
  };
  user = none;
}

abbrev stored : EventRow
stored = event_row event 1 200

abbrev later : Db
later = record db { events = stored ∷ [] }

abbrev isoformat : Time → String
isoformat t = "2026-01-01"

abbrev digests : RoutingConfig
digests = record routing { digest_channel = some "digest" }

-- A cursor whose last window ended at second 5000.
abbrev digested : Db
digested = record db {
  job_cursors = record { job = "digest"; cursor = window_cursor 0 (seconds 5000) } ∷ [];
}

-- The run at second 9000 sends the digest of the 4000 seconds since then.
run_digest-Tiled_example :
    Tiled false false false isoformat "digest"
      (seconds 5000)
      (seconds 9000)
      digested
      (run_digest isoformat digests false (seconds 9000) digested)
unfolding period get_cursor find? engaged kill_switch_state any digest_key format
run_digest-Tiled_example =
    run_digest-Tiled isoformat digests false "digest" refl refl (seconds 9000) digested

-- A grab that the webhook stored with its episode, and the history record without it.
abbrev grabbed : CanonicalEvent
grabbed = record event {
  source = "sonarr";
  source_event_key = "sonarr:media.grabbed:7:abc";
  type = EventType.media_grabbed;
}

abbrev twin : EventRow
twin = event_row (record grabbed { source_event_key = "sonarr:media.grabbed:7:S01E02:abc" }) 1 200

abbrev watched : Db
watched = record db { events = twin ∷ [] }

recover_unknown-twin_example :
    recover_unknown lib hash routing (some false) 300 "sonarr" 100 (str "abc") grabbed 0 watched
    ≡ (ok 0, watched)
unfolding any event_row join_colon format segment
recover_unknown-twin_example =
    recover_unknown-twin lib hash routing (some false) 300 "sonarr" "abc" "S01E02:" 100 grabbed 0
      watched refl refl

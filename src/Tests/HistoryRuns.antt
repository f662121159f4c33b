-- ===== src/Tests/HistoryRuns.antt =====
-- Tests of the history of the database, and of the API.
use costanza.Prelude.{String, ◌≡◌, refl, false, Option, some, [], ◌∷◌, any, find?, count, format}
use costanza.Schemas.{Time, seconds}
use costanza.Config.{RoutingConfig}
use costanza.Store.{Db, EventRow}
use costanza.Store.Control.{set_cursor, get_cursor, kill_switch_state, set_kill_switch}
use costanza.Store.Events.{is_event, event_row}
use costanza.Store.Notifications.{is_for, enqueue_notification}
use costanza.Notify.Limits.{engaged, set_switch}
use costanza.Jobs.Digest.{run_digest, close_window, period}
use costanza.Ingest.{bearer_token, authenticate}
use costanza.Api.{Call, guard, answer, handle, kill_switch_post}
use costanza.Api.Guard.{Guarded, handle-Guarded}
use costanza.Program.Writes.{Writes}
use costanza.Program.Schema.{IsWellFormed}
use costanza.Program.History.{
  Acts, nothing, and_then, call, digest, empty, Acts-Writes, Acts-IsWellFormed,
}
use costanza.Program.Memory.{Acts_immutable, Acts_once}
use costanza.Tests.Samples.{db, event, routing, some_ids}

abbrev day : Time → String
day t = "2026-01-01"

abbrev weekly : RoutingConfig
weekly = record routing { digest_channel = some "feed" }

abbrev token : Option String
token = some "household"

abbrev alarm_off : Call
alarm_off = kill_switch_post false "admin"

-- The kill switch of a new installation is disengaged, and a digest is queued.
abbrev live : Db
live = (handle token false day 10 "Bearer household" alarm_off (empty some_ids)).1

abbrev digested : Db
digested = (run_digest day weekly false (seconds 9000) live).1

abbrev again : Db
again = (run_digest day weekly false (seconds 99000) digested).1

abbrev acts : Acts (empty some_ids) digested
acts =
    and_then (and_then nothing (call token false day 10 "Bearer household" alarm_off))
      (digest day weekly false (seconds 9000))

Acts-Writes_example : Writes (empty some_ids) digested
Acts-Writes_example = Acts-Writes acts

Acts-IsWellFormed_example : IsWellFormed digested
Acts-IsWellFormed_example = Acts-IsWellFormed some_ids digested acts

Acts_once_example : count (is_for "digest:2026-01-01|2026-01-01" "feed") again.notifications ≡ 1
unfolding handle guard answer set_switch set_kill_switch run_digest period close_window engaged any
    count format enqueue_notification kill_switch_state get_cursor find? bearer_token authenticate
    set_cursor
Acts_once_example =
    Acts_once some_ids digested again acts
      (and_then nothing (digest day weekly false (seconds 99000))) "digest:2026-01-01|2026-01-01"
      "feed" refl

abbrev stored : EventRow
stored = event_row event 1 200

abbrev later : Db
later = record db { events = stored ∷ [] }

Acts_immutable_example :
    find?
      (is_event event.source_event_key)
      (run_digest day weekly false (seconds 9000) later).1.events
    ≡ some stored
unfolding find? event_row
Acts_immutable_example =
    Acts_immutable later (run_digest day weekly false (seconds 9000) later).1
      (and_then nothing (digest day weekly false (seconds 9000))) event.source_event_key stored refl

handle-Guarded_example :
    Guarded token false day 10 "Bearer household" alarm_off
      (empty some_ids)
      (handle token false day 10 "Bearer household" alarm_off (empty some_ids))
handle-Guarded_example =
    handle-Guarded token false day 10 "Bearer household" alarm_off (empty some_ids)

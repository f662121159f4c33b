-- ===== src/Tests/NotifyRuns.antt =====
-- Tests of the router, the limiter, the ledger and the send pass.
use costanza.Prelude.{
  ◌==◌, if◌then◌else◌, ◌≤◌, String, ◌≡◌, refl, true, false, none, some, List, [], ◌∷◌, arith, find?,
  count, max,
}
use costanza.Result.{ok, raised}
use costanza.Config.{value_error}
use costanza.Schemas.{Time, seconds, embed}
use costanza.Store.Notifications.{claim_notifications_due}
use costanza.Notify.Router.{channels_for}
use costanza.Notify.Router.Channels.{routed, count-channels_for}
use costanza.Notify.Limits.{rate_limiter, RateLimiter}
use costanza.Notify.Limits.Window.{accepted, in_window, accepted-in-window-le}
use costanza.Notify.Pipeline.{World, Notifier, SpecialRenderers, send_due_once, enqueue_for_event}
use costanza.Notify.Pipeline.Ledger.{rows_for, enqueue_for_event-rows_for}
use costanza.Notify.Pipeline.Rounds.{row_at}
use costanza.Notify.Pipeline.Sends.{
  PassOutcome, PutOff, send_due_once-PassOutcome, send_due_once_not_due, send_due_once_muted,
}
use costanza.Tests.Samples.{db, lib, hash, unsent, policy, event, routing}

-- Six requests for one channel and one for another, within 62 seconds.
abbrev requests : List (String × Time)
requests =
    ("feed", seconds 1)
    ∷ ("feed", seconds 2)
    ∷ ("admin", seconds 3)
    ∷ ("feed", seconds 4)
    ∷ ("feed", seconds 61)
    ∷ ("feed", seconds 62)
    ∷ ("feed", seconds 63)
    ∷ []

accepted-in-window-le_example :
    count (in_window (seconds 1)) (accepted "feed" requests (rate_limiter 2)) ≤ max 1 2
accepted-in-window-le_example = accepted-in-window-le 2 "feed" requests (seconds 1) (
  omega arith,
  (omega arith, (omega arith, (omega arith, (omega arith, (omega arith, (omega arith, tt)))))),
)

count-channels_for_example :
    count (λ y. y == "feed") (channels_for event routing)
    ≡ (if routed routing.rules "request.available" "seerr" "feed" then 1 else 0)
count-channels_for_example = count-channels_for event routing "feed"

enqueue_for_event-rows_for_example :
    rows_for event.source_event_key "feed" (enqueue_for_event lib hash routing false event 200 db).1
    ≤ 1
unfolding count
enqueue_for_event-rows_for_example =
    enqueue_for_event-rows_for event.source_event_key "feed" lib hash routing false event 200 db
      (omega arith)

-- No renderer but a note's own, and a channel that refuses.
abbrev special : SpecialRenderers
special prefix = some (λ key s. ok (record {
  kind = embed;
  title = key;
  description = "";
  fields = [];
  color = none;
  footer = none;
}))

abbrev refusing : Notifier
refusing sent channel message = raised (value_error "no channel")

abbrev world : World
world = record { db = db; limiter = rate_limiter 10; deliveries = [] }

send_due_once-PassOutcome_example :
    PassOutcome lib special refusing policy 200 false unsent
      (claim_notifications_due 20 200 db)
      world
      (send_due_once lib special refusing policy false 20 200 world)
unfolding find? count
send_due_once-PassOutcome_example =
    send_due_once-PassOutcome lib special refusing policy 200 false 20 world unsent refl
      (omega arith)

send_due_once_not_due_example :
    row_at "note-1" (send_due_once lib special refusing policy false 20 50 world).1.db ≡ some unsent
unfolding find? count
send_due_once_not_due_example =
    send_due_once_not_due lib special refusing policy 50 false 20 world unsent refl refl
      (omega arith)

send_due_once_muted_example :
    ((send_due_once lib special refusing policy true 20 200 world).0 ≡ ok 0)
    × ((send_due_once lib special refusing policy true 20 200 world).1.deliveries ≡ [])
    × ((send_due_once lib special refusing policy true 20 200 world).1.limiter ≡ rate_limiter 10)
    × PutOff lib special refusing policy 200 unsent
        (send_due_once lib special refusing policy true 20 200 world).1.db
unfolding find? count costanza.Notify.Limits.engaged
send_due_once_muted_example =
    send_due_once_muted lib special refusing policy 200 true 20 world unsent refl refl (omega arith)

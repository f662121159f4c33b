-- ===== src/Tests/WorkerRuns.antt =====
-- Tests of the worker's pass over the queue.
use costanza.Prelude.{String, refl, [], ◌∷◌, arith, find?, count, false, true, none, any, All}
use costanza.Json.{Json, obj, end}
use costanza.Result.{Result, ok}
use costanza.Store.{Db, EventRow}
use costanza.Store.Events.{event_row, source_by_id, source_by_name, insert_event}
use costanza.Store.Outbox.{claim_outbox_due}
use costanza.Outbox.Settled.{Outcome}
use costanza.Worker.{Normalize, process}
use costanza.Worker.Processor.{process_leaves_queue}
use costanza.Schemas.{CanonicalEvent, EventType}
use costanza.Notify.Pipeline.{enqueue_for_event}
use costanza.Notify.Router.{channels_for}
use costanza.Notify.Limits.{engaged}
use costanza.Correlate.{apply}
use costanza.Correlate.Stored.{IsStored}
use costanza.Worker.Stores.{process-stores}
use costanza.Worker.Pass.{passed, processor, pass-Outcome}
use costanza.Tests.Samples.{db, lib, hash, event, routing, policy, queued, old_raw, seerr_source}

abbrev loads : String → Result Json
loads body = ok (obj end)

-- Each payload is the sample event.
abbrev normalize : Normalize
normalize ids name kind payload = ok (1, event ∷ [])

abbrev stored : EventRow
stored = event_row event 1 200

abbrev later : Db
later = record db { events = stored ∷ [] }

pass-Outcome_example :
    Outcome
      (processor lib hash loads normalize routing false policy 200 20 db)
      policy
      200
      (process_leaves_queue lib hash loads normalize routing false 200)
      queued
      (claim_outbox_due 20 200 db)
      db
      (passed lib hash loads normalize routing false policy 200 20 db)
unfolding find? count
pass-Outcome_example =
    pass-Outcome lib hash loads normalize routing false policy 200 20 db queued refl (omega arith)

-- An event without a media and a user, while the kill switch is engaged.
abbrev plain : CanonicalEvent
plain = record event { media = none; user = none; type = EventType.health_issue }

abbrev plainly : Normalize
plainly ids name kind payload = ok (1, plain ∷ [])

process-stores_example :
    All
      (λ e.
        IsStored e.id e.source_event_key
          (process lib hash loads plainly routing true 200 old_raw db).1)
      (plain ∷ [])
unfolding source_by_id source_by_name find? any process apply insert_event enqueue_for_event
    channels_for engaged
process-stores_example =
    process-stores lib hash loads plainly routing true 200 old_raw (obj end) seerr_source 1
      (plain ∷ []) db refl refl refl refl

-- ===== src/Worker.antt =====
-- src/costanza/worker.py: what the queue's worker does with one raw payload.
pub mod Processor
pub mod Pass
pub mod Stores
use costanza.Prelude.{ℕ, ◌+◌, String, Bool, Option, none, some, List, [], ◌∷◌}
use costanza.Json.{Json}
use costanza.Result.{Exception, Result, ok, raised, Exec, continue, ◌>>=◌, ◌>>◌, pure}
use costanza.Stdlib.{Stdlib}
use costanza.Schemas.{Time, CanonicalEvent, RenderedMessage}
use costanza.Config.{RoutingConfig, value_error}
use costanza.Store.{Db, RawEvent, SourceRow}
use costanza.Store.Events.{source_by_id}
use costanza.Correlate.{apply}
use costanza.Notify.Pipeline.{enqueue_for_event}

-- `normalize` of a payload, by the source's name and kind: the events, and how many ids it drew
-- from the sequence that it is given.
abbrev pub Normalize : Type 0
Normalize = (ℕ → String) → String → String → Json → Result (ℕ × List CanonicalEvent)

-- `loads` is `json.loads`; `now` is the clock.
module _ (lib : Stdlib) (hash : RenderedMessage → String) (loads : String → Result Json)
    (normalize : Normalize) (routing : RoutingConfig) (env_override : Bool) (now : Time) where
  -- The event that `apply` filled in is fanned out, new or not.
  unfoldable pub fan_out_applied : Bool × CanonicalEvent → Exec Db (Unit {0})
  fan_out_applied applied = do
    _ ← enqueue_for_event lib hash routing env_override applied.1 now
    pure tt

  -- One round of the loop.
  unfoldable pub process_event : Time → CanonicalEvent → Exec Db (Unit {0})
  unfolding fan_out_applied
  process_event received_at event = do
    applied ← apply lib (record event { received_at = some received_at }) now
    fan_out_applied applied

  unfoldable pub process_events : Time → List CanonicalEvent → Exec Db (Unit {0})
  unfolding process_event
  process_events received_at [] = pure tt
  process_events received_at (event ∷ events) = do
    process_event received_at event
    process_events received_at events

  -- The events, or the exception of the normalizer.
  unfoldable pub process_normalized : Time → Result (ℕ × List CanonicalEvent) → Exec Db (Unit {0})
  unfolding process_events
  process_normalized received_at (raised exc) db = (raised exc, db)
  process_normalized received_at (ok (used, events)) db =
      process_events received_at events (record db { drawn = db.drawn + used })

  unfoldable pub process_source : Time → Json → Option SourceRow → Exec Db (Unit {0})
  unfolding process_normalized
  process_source received_at payload none db =
      (raised (value_error "raw event references unknown source"), db)
  process_source received_at payload (some row) db =
      process_normalized received_at
        (normalize (λ n. db.ids (db.drawn + n)) row.name row.kind payload) db

  unfoldable pub process_payload : RawEvent → Result Json → Exec Db (Unit {0})
  unfolding process_source
  process_payload raw (raised exc) db = (raised exc, db)
  process_payload raw (ok payload) db =
      process_source raw.received_at payload (source_by_id db raw.source_id) db

  -- The callable that `build_processor` returns.
  unfoldable pub process : RawEvent → Exec Db (Unit {0})
  unfolding process_payload
  process raw = process_payload raw (loads raw.body_json)

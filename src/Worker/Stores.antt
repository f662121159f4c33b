-- ===== src/Worker/Stores.antt =====
-- What the callable of src/costanza/worker.py leaves in the table of events where it returns.
use costanza.Prelude.{ℕ, ◌+◌, String, ◌≡◌, Bool, some, List, [], ◌∷◌, ap, All}
use costanza.Json.{Json}
use costanza.Result.{Result, ok}
use costanza.Stdlib.{Stdlib}
use costanza.Schemas.{Time, CanonicalEvent, RenderedMessage}
use costanza.Config.{RoutingConfig}
use costanza.Store.{Db, RawEvent, SourceRow}
use costanza.Store.Events.{source_by_id}
use costanza.Correlate.{apply}
use costanza.Correlate.Stored.{IsStored, continue-ok, apply-IsStored, apply-keeps}
use costanza.Worker.{
  Normalize, fan_out_applied, process_event, process_events, process_normalized, process_source,
  process_payload, process,
}
use costanza.Worker.Processor.{
  Keeps, fan_out_applied_keeps, process_events_keeps, enqueue_for_event-events,
}

module _ (lib : Stdlib) (hash : RenderedMessage → String) (loads : String → Result Json)
    (normalize : Normalize) (routing : RoutingConfig) (env_override : Bool) (now : Time) where
  IsStored-keeps :
      (id key : String)
      → Keeps lib hash loads normalize routing env_override now (λ (s : Db). IsStored id key s)
  IsStored-keeps id key = record {
    applied = λ event s h. apply-keeps lib event now id key s h;
    fanned = λ event s h. rw (enqueue_for_event-events lib hash routing env_override now event s) h;
    drew = λ n s h. h;
  }

  process_event-IsStored :
      (received_at : Time) (event : CanonicalEvent) (s : Db) (r : Unit {0})
      → (process_event lib hash loads normalize routing env_override now received_at event s).0
        ≡ ok r
      → IsStored event.id event.source_event_key
          (process_event lib hash loads normalize routing env_override now received_at event s).1
  unfolding process_event
  process_event-IsStored received_at event s r h =
      let P = λ (t : Db). IsStored event.id event.source_event_key t in
      let stamped : CanonicalEvent = record event { received_at = some received_at } in
      continue-ok P (fan_out_applied lib hash loads normalize routing env_override now)
        (apply lib stamped now s) h
        (λ a t step rest.
          fan_out_applied_keeps lib hash loads normalize routing env_override now P
            (IsStored-keeps event.id event.source_event_key) a t
            (rw step at (apply-IsStored lib stamped now s a (ap (λ p. p.0) step))))

  process_events-IsStored :
      (received_at : Time) (events : List CanonicalEvent) (s : Db) (r : Unit {0})
      → (process_events lib hash loads normalize routing env_override now received_at events s).0
        ≡ ok r
      → All
          (λ e.
            IsStored e.id e.source_event_key
              (process_events lib hash loads normalize routing env_override now received_at events
                s).1)
          events
  unfolding process_events
  process_events-IsStored received_at [] s r h = tt
  process_events-IsStored received_at (event ∷ events) s r h =
      let loop = λ (u : Unit {0}).
        process_events lib hash loads normalize routing env_override now received_at events in
      continue-ok (λ t. All (λ e. IsStored e.id e.source_event_key t) (event ∷ events)) loop
        (process_event lib hash loads normalize routing env_override now received_at event s) h
        (λ u t step rest. (
          process_events_keeps lib hash loads normalize routing env_override now
              (λ (v : Db). IsStored event.id event.source_event_key v)
              (IsStored-keeps event.id event.source_event_key) received_at events t
              (rw step at (process_event-IsStored received_at event s u (ap (λ p. p.0) step))),
          process_events-IsStored received_at events t r rest,
        ))

  -- Where the worker's callable returns, so that the queue marks the row as done, every event that
  -- the normalizer made of the payload is in the table of events: there is a row with its key, or
  -- one with its id, for which the insert is ignored.
  pub process-stores :
      (raw : RawEvent) (payload : Json) (row : SourceRow) (used : ℕ) (events : List CanonicalEvent)
      (s : Db)
      → loads raw.body_json ≡ ok payload
      → source_by_id s raw.source_id ≡ some row
      → normalize (λ n. s.ids (s.drawn + n)) row.name row.kind payload ≡ ok (used, events)
      → (process lib hash loads normalize routing env_override now raw s).0 ≡ ok tt
      → All
          (λ e.
            IsStored e.id e.source_event_key
              (process lib hash loads normalize routing env_override now raw s).1)
          events
  unfolding process process_payload process_source process_normalized
  process-stores raw payload row used events s loaded found made h =
      rw (loaded, found, made)
        (process_events-IsStored raw.received_at events (record s { drawn = s.drawn + used }) tt
          (rw (loaded, found, made) at h))

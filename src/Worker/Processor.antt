-- ===== src/Worker/Processor.antt =====
-- The callable of src/costanza/worker.py as the queue of src/costanza/outbox.py and the ledger of
-- src/costanza/notify see it.
use costanza.Prelude.{
  ℕ, String, ◌≡◌, refl, ◌∙◌, ap, Bool, true, false, Option, none, some, List, [], ◌∷◌, arith, find?,
}
use costanza.Json.{Json}
use costanza.Result.{Result, ok, raised, continue-state}
use costanza.Stdlib.{Stdlib}
use costanza.Schemas.{Time, CanonicalEvent, RenderedMessage}
use costanza.Config.{RoutingConfig}
use costanza.Store.{Db, RawEvent, SourceRow, EventRow}
use costanza.Store.Events.{is_event}
use costanza.Store.Notifications.{enqueue_notification}
use costanza.Correlate.{apply}
use costanza.Correlate.Aside.{apply-SameQueues}
use costanza.Correlate.Dedup.{apply-immutable}
use costanza.Notify.Render.{render_event}
use costanza.Notify.Pipeline.{enqueue_channels, fan_out, enqueue_for_event}
use costanza.Worker.{
  Normalize, fan_out_applied, process_event, process_events, process_normalized, process_source,
  process_payload, process,
}

enqueue_channels_else :
    (k h : String) (now : Time) (channels : List String) (created : ℕ) (db : Db)
    → ((enqueue_channels k h now channels created db).1.outbox ≡ db.outbox)
      × ((enqueue_channels k h now channels created db).1.events ≡ db.events)
unfolding enqueue_channels enqueue_notification
enqueue_channels_else k h now [] created db = (refl, refl)
enqueue_channels_else k h now (c ∷ channels) created db =
    let step = enqueue_channels_else k h now channels _ (enqueue_notification k c h now db).1 in
    (step.0 ∙ ground arith, step.1 ∙ ground arith)

fan_out_else :
    (k : String) (hash : RenderedMessage → String) (now : Time) (channels : List String)
    (muted : Bool) (message : Result RenderedMessage) (db : Db)
    → ((fan_out k hash now channels muted message db).1.outbox ≡ db.outbox)
      × ((fan_out k hash now channels muted message db).1.events ≡ db.events)
unfolding fan_out
fan_out_else k hash now [] muted message db = (refl, refl)
fan_out_else k hash now (c ∷ cs) true message db = (refl, refl)
fan_out_else k hash now (c ∷ cs) false (raised exc) db = (refl, refl)
fan_out_else k hash now (c ∷ cs) false (ok m) db =
    enqueue_channels_else k (hash m) now (c ∷ cs) 0 db

pub enqueue_for_event-events :
    (lib : Stdlib) (hash : RenderedMessage → String) (routing : RoutingConfig) (env_override : Bool)
    (now : Time) (event : CanonicalEvent) (db : Db)
    → (enqueue_for_event lib hash routing env_override event now db).1.events ≡ db.events
unfolding enqueue_for_event
enqueue_for_event-events lib hash routing env_override now event db =
    (fan_out_else event.source_event_key hash now _ _ (render_event lib event) db).1

module _ (lib : Stdlib) (hash : RenderedMessage → String) (loads : String → Result Json)
    (normalize : Normalize) (routing : RoutingConfig) (env_override : Bool) (now : Time) where
  -- What every step keeps, the whole callable keeps.
  pub record Keeps {κ} (P : Db → Type κ) : Type κ where
    pub applied : (event : CanonicalEvent) (s : Db) → P s → P (apply lib event now s).1
    pub fanned :
        (event : CanonicalEvent) (s : Db)
        → P s
        → P (enqueue_for_event lib hash routing env_override event now s).1
    pub drew : (n : ℕ) (s : Db) → P s → P (record s { drawn = n })

  module _ {κ} (P : Db → Type κ) (keeps : Keeps P) where
    pub fan_out_applied_keeps :
        (applied : Bool × CanonicalEvent) (s : Db)
        → P s
        → P (fan_out_applied lib hash loads normalize routing env_override now applied s).1
    unfolding fan_out_applied
    fan_out_applied_keeps applied s h =
        continue-state {A = ℕ} {B = Unit {0}} P P (λ n u. (ok tt, u))
          (enqueue_for_event lib hash routing env_override applied.1 now s)
          (keeps.fanned applied.1 s h) (λ u l. l) (λ n u l. l)

    process_event_keeps :
        (received_at : Time) (event : CanonicalEvent) (s : Db)
        → P s
        → P (process_event lib hash loads normalize routing env_override now received_at event s).1
    unfolding process_event
    process_event_keeps received_at event s h =
        let stamped : CanonicalEvent = record event { received_at = some received_at } in
        continue-state P P (fan_out_applied lib hash loads normalize routing env_override now)
          (apply lib stamped now s) (keeps.applied stamped s h) (λ t k. k) fan_out_applied_keeps

    pub process_events_keeps :
        (received_at : Time) (events : List CanonicalEvent) (s : Db)
        → P s
        → P
            (process_events lib hash loads normalize routing env_override now received_at events
              s).1
    unfolding process_events
    process_events_keeps received_at [] s h = h
    process_events_keeps received_at (event ∷ events) s h =
        continue-state P P
          (λ u. process_events lib hash loads normalize routing env_override now received_at events)
          (process_event lib hash loads normalize routing env_override now received_at event s)
          (process_event_keeps received_at event s h) (λ t k. k)
          (λ u t k. process_events_keeps received_at events t k)

    process_normalized_keeps :
        (received_at : Time) (events : Result (ℕ × List CanonicalEvent)) (s : Db)
        → P s
        → P
            (process_normalized lib hash loads normalize routing env_override now received_at events
              s).1
    unfolding process_normalized
    process_normalized_keeps received_at (raised exc) s h = h
    process_normalized_keeps received_at (ok (used, events)) s h =
        process_events_keeps received_at events _ (keeps.drew _ s h)

    process_source_keeps :
        (received_at : Time) (payload : Json) (row : Option SourceRow) (s : Db)
        → P s
        → P
            (process_source lib hash loads normalize routing env_override now received_at payload
              row s).1
    unfolding process_source
    process_source_keeps received_at payload none s h = h
    process_source_keeps received_at payload (some row) s h =
        process_normalized_keeps received_at _ s h

    process_payload_keeps :
        (raw : RawEvent) (payload : Result Json) (s : Db)
        → P s
        → P (process_payload lib hash loads normalize routing env_override now raw payload s).1
    unfolding process_payload
    process_payload_keeps raw (raised exc) s h = h
    process_payload_keeps raw (ok payload) s h = process_source_keeps raw.received_at payload _ s h

    pub process_keeps :
        (raw : RawEvent) (s : Db)
        → P s
        → P (process lib hash loads normalize routing env_override now raw s).1
    unfolding process
    process_keeps raw s h = process_payload_keeps raw _ s h

  -- Processing a payload leaves the queue alone, whether it raises or not.
  pub process_leaves_queue :
      (raw : RawEvent) (s : Db)
      → (process lib hash loads normalize routing env_override now raw s).1.outbox ≡ s.outbox
  unfolding enqueue_for_event
  process_leaves_queue raw db =
      process_keeps (λ (s : Db). s.outbox ≡ db.outbox)
        (record {
          applied = λ event s h. (apply-SameQueues lib event now s).0 ∙ h;
          fanned = λ event s h.
              (fan_out_else event.source_event_key hash now _ _ (render_event lib event) s).0 ∙ h;
          drew = λ n s h. h;
        })
        raw db refl

  pub process_immutable :
      (key : String) (row : EventRow) (raw : RawEvent) (db : Db)
      → find? (is_event key) db.events ≡ some row
      → find?
          (is_event key)
          (process lib hash loads normalize routing env_override now raw db).1.events
        ≡ some row
  unfolding enqueue_for_event
  process_immutable key row raw db found =
      process_keeps (λ (s : Db). find? (is_event key) s.events ≡ some row)
        (record {
          applied = λ event s h. apply-immutable lib event now s key row h;
          fanned = λ event s h.
              ap (find? (is_event key))
                (fan_out_else event.source_event_key hash now _ _ (render_event lib event) s).1
              ∙ h;
          drew = λ n s h. h;
        })
        raw db found

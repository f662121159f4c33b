-- ===== src/Notify/Pipeline/Ledger.antt =====
-- The ledger of src/costanza/notify/pipeline.py: one row for each event key and channel.
use costanza.Prelude.{
  ℕ, ◌≤◌, String, Bool, true, false, List, [], ◌∷◌, arith, count, count-append_row,
  count-eq-zero_of_not-any, eq_iff,
}
use costanza.Result.{Result, ok, raised}
use costanza.Stdlib.{Stdlib}
use costanza.Schemas.{Time, CanonicalEvent, RenderedMessage}
use costanza.Config.{RoutingConfig}
use costanza.Store.{Db}
use costanza.Store.Notifications.{is_for, pending_row, enqueue_notification}
use costanza.Notify.Render.{render_event}
use costanza.Notify.Pipeline.{enqueue_channels, fan_out, enqueue_for_event}

-- The number of ledger rows for a key and a channel.
abbrev pub rows_for : String → String → Db → ℕ
rows_for key channel db = count (is_for key channel) db.notifications

module _ (key channel : String) where
  enqueue-rows_for :
      (k c h : String) (now : Time) (db : Db)
      → rows_for key channel db ≤ 1
      → rows_for key channel (enqueue_notification k c h now db).1 ≤ 1
  unfolding enqueue_notification
  enqueue-rows_for k c h now db fits = ground (
    arith,
    eq_iff k key,
    eq_iff c channel,
    count-append_row (is_for key channel) db.notifications
        (pending_row (db.ids db.drawn) k c h now),
    count-eq-zero_of_not-any (is_for key channel) db.notifications,
  )

  enqueue_channels-rows_for :
      (k h : String) (now : Time) (channels : List String) (created : ℕ) (db : Db)
      → rows_for key channel db ≤ 1
      → rows_for key channel (enqueue_channels k h now channels created db).1 ≤ 1
  unfolding enqueue_channels
  enqueue_channels-rows_for k h now [] created db fits = fits
  enqueue_channels-rows_for k h now (c ∷ channels) created db fits =
      enqueue_channels-rows_for k h now channels _ (enqueue_notification k c h now db).1
        (enqueue-rows_for k c h now db fits)

  fan_out-rows_for :
      (k : String) (hash : RenderedMessage → String) (now : Time) (channels : List String)
      (muted : Bool) (message : Result RenderedMessage) (db : Db)
      → rows_for key channel db ≤ 1
      → rows_for key channel (fan_out k hash now channels muted message db).1 ≤ 1
  unfolding fan_out
  fan_out-rows_for k hash now [] muted message db fits = fits
  fan_out-rows_for k hash now (c ∷ cs) true message db fits = fits
  fan_out-rows_for k hash now (c ∷ cs) false (raised exc) db fits = fits
  fan_out-rows_for k hash now (c ∷ cs) false (ok m) db fits =
      enqueue_channels-rows_for k (hash m) now (c ∷ cs) 0 db fits

  -- Fanning an event out leaves at most one row for each key and channel, if there was at most one.
  pub enqueue_for_event-rows_for :
      (lib : Stdlib) (hash : RenderedMessage → String) (routing : RoutingConfig)
      (env_override : Bool) (event : CanonicalEvent) (now : Time) (db : Db)
      → rows_for key channel db ≤ 1
      → rows_for key channel (enqueue_for_event lib hash routing env_override event now db).1 ≤ 1
  unfolding enqueue_for_event
  enqueue_for_event-rows_for lib hash routing env_override event now db fits =
      fan_out-rows_for event.source_event_key hash now _ _ (render_event lib event) db fits

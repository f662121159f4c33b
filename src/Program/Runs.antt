-- ===== src/Program/Runs.antt =====
-- The correlator, the worker and the reconcile job as sequences of writes.
use costanza.Prelude.{
  ℕ, String, Bool, true, false, Option, none, some, List, [], ◌∷◌, Bool-cases, inl, inr, ltb,
  is_some,
}
use costanza.Json.{Json}
use costanza.Result.{Result, ok, raised, continue-state}
use costanza.Stdlib.{Stdlib}
use costanza.Schemas.{Time, CanonicalEvent, RenderedMessage}
use costanza.Config.{RoutingConfig, SourceConfig}
use costanza.Store.{Db, ChainRow}
use costanza.Store.Notifications.{enqueue_notification}
use costanza.Store.Chains.{create_chain}
use costanza.Correlate.{
  Move, rank, closing_time, move_of, open_chain, advance_found, advance_or_open, advance_chain,
  apply, only_if_missing,
}
use costanza.Correlate.Rule.{apply-rule}
use costanza.Notify.Limits.{engaged}
use costanza.Notify.Render.{render_event}
use costanza.Notify.Router.{channels_for}
use costanza.Notify.Pipeline.{enqueue_channels, fan_out, enqueue_for_event}
use costanza.Outbox.{Policy, process_outbox_once}
use costanza.Worker.{Normalize, process}
use costanza.Worker.Processor.{process_keeps}
use costanza.Worker.Pass.{pass_keeps}
use costanza.Jobs.Reconcile.Run.{Client, Clock, run_reconcile}
use costanza.Jobs.Reconcile.Whole.{run_reconcile_keeps}
use costanza.Program.Writes.{Writes, draw, none_yet, then_one}
use costanza.Program.Steps.{
  observe_identity-Writes, find_or_create_media-Writes, insert_event-Writes, create_chain-Writes,
  update_chain-Writes, enqueue_notification-Writes, outbox_done-Writes, outbox_retry-Writes,
  outbox_dead-Writes, set_cursor-Writes,
}

module _ {db : Db} where
  advance_or_open-Writes :
      (move : Move) (chain : Option ChainRow) (s : Db)
      → Writes db s
      → Writes db (advance_or_open move chain s).1
  unfolding open_chain advance_found
  advance_or_open-Writes move none s ws =
      continue-state {A = String} {B = Unit {0}} (Writes db) (Writes db) (λ id u. (ok tt, u))
        (create_chain move.media_id move.request_id move.user_id move.state move.occurred
          (closing_time move) s)
        (create_chain-Writes ws move.media_id move.request_id move.user_id move.state move.occurred
          (closing_time move))
        (λ u k. k) (λ a u k. k)
  advance_or_open-Writes move (some chain) s ws = elim (Bool-cases (is_some chain.closed_at)) [
    | inl e ↦ rw e ws
    | inr is_open ↦ rw is_open (elim (Bool-cases (ltb (rank move.state) (rank chain.state))) [
      | inl e ↦ rw e ws
      | inr e ↦ rw e (
          update_chain-Writes ws chain.id (some move.state) (closing_time move)
            (only_if_missing chain.media_id move.media_id)
            (only_if_missing chain.requested_by move.user_id))
    ])
  ]

  apply-Writes :
      (lib : Stdlib) (event : CanonicalEvent) (now : Time) (s : Db)
      → Writes db s
      → Writes db (apply lib event now s).1
  unfolding advance_chain
  apply-Writes lib event now s ws =
      apply-rule lib event now (Writes db) (Writes db) (Writes db)
        (record {
          media = λ ref u k. find_or_create_media-Writes k ref now;
          user = λ p x u k. observe_identity-Writes k p x;
          insert = λ e source_id u same k. insert_event-Writes k e source_id now;
          advance = λ e state u k. advance_or_open-Writes (move_of lib e state now) _ u k;
          refused = λ u k. k;
          stored = λ u k. k;
        })
        s ws

  enqueue_channels-Writes :
      (key hash : String) (now : Time) (channels : List String) (created : ℕ) (s : Db)
      → Writes db s
      → Writes db (enqueue_channels key hash now channels created s).1
  unfolding enqueue_channels
  enqueue_channels-Writes key hash now [] created s ws = ws
  enqueue_channels-Writes key hash now (c ∷ channels) created s ws =
      enqueue_channels-Writes key hash now channels _ (enqueue_notification key c hash now s).1
        (enqueue_notification-Writes ws key c hash now)

  fan_out-Writes :
      (key : String) (hash : RenderedMessage → String) (now : Time) (channels : List String)
      (muted : Bool) (message : Result RenderedMessage) (s : Db)
      → Writes db s
      → Writes db (fan_out key hash now channels muted message s).1
  unfolding fan_out
  fan_out-Writes key hash now [] muted message s ws = ws
  fan_out-Writes key hash now (c ∷ cs) true message s ws = ws
  fan_out-Writes key hash now (c ∷ cs) false (raised exc) s ws = ws
  fan_out-Writes key hash now (c ∷ cs) false (ok m) s ws =
      enqueue_channels-Writes key (hash m) now (c ∷ cs) 0 s ws

  enqueue_for_event-Writes :
      (lib : Stdlib) (hash : RenderedMessage → String) (routing : RoutingConfig)
      (env_override : Bool) (event : CanonicalEvent) (now : Time) (s : Db)
      → Writes db s
      → Writes db (enqueue_for_event lib hash routing env_override event now s).1
  unfolding enqueue_for_event
  enqueue_for_event-Writes lib hash routing env_override event now s ws =
      fan_out-Writes event.source_event_key hash now (channels_for event routing)
        (engaged env_override s) (render_event lib event) s ws

-- A pass of the worker.
pub pass-Writes :
    (lib : Stdlib) (hash : RenderedMessage → String) (loads : String → Result Json)
    (normalize : Normalize) (routing : RoutingConfig) (env_override : Bool) (policy : Policy)
    (now : Time) (limit : ℕ) (db : Db)
    → Writes db
        (process_outbox_once
          (process lib hash loads normalize routing env_override now)
          policy
          now
          limit
          db).1
pass-Writes lib hash loads normalize routing env_override policy now limit db =
    pass_keeps (Writes db) (process lib hash loads normalize routing env_override now) policy now
      (λ raw s ws.
        process_keeps lib hash loads normalize routing env_override now (Writes db)
          (record {
            applied = λ event u k. apply-Writes lib event now u k;
            fanned =
                λ event u k. enqueue_for_event-Writes lib hash routing env_override event now u k;
            drew = λ n u k. then_one k (draw n);
          })
          raw s ws)
      (λ id s ws. outbox_done-Writes ws id) (λ id error at s ws. outbox_retry-Writes ws id error at)
      (λ id error s ws. outbox_dead-Writes ws id error) limit db none_yet

-- A reconcile run.
pub run_reconcile-Writes :
    (lib : Stdlib) (hash : RenderedMessage → String) (clock : Clock) (routing : RoutingConfig)
    (kill : Option Bool) (now : Time) (clients : String → Option Client)
    (sources : List SourceConfig) (db : Db)
    → Writes db (run_reconcile lib hash clock routing kill now clients sources db).1
run_reconcile-Writes lib hash clock routing kill now clients sources db =
    run_reconcile_keeps lib hash clock routing kill now (Writes db)
      (record {
        applied = λ event u k. apply-Writes lib event now u k;
        fanned = λ env_override event u k.
            enqueue_for_event-Writes lib hash routing env_override event now u k;
        resolved = λ ref u k. find_or_create_media-Writes k ref now;
        drew = λ n u k. then_one k (draw n);
      })
      (λ job cursor s ws. set_cursor-Writes ws job cursor) clients sources db none_yet

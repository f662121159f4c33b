-- ===== src/Program/Requests.antt =====
-- The webhook handler of src/costanza/ingest/routes.py and the digest job of src/costanza/jobs/digest.py as
-- sequences of writes.
use costanza.Prelude.{
  ℕ, String, Bool, true, false, Option, none, some, [], ◌∷◌, Bool-cases, length, inl, inr, ltb,
  ◌==◌, format, ◌-◌,
}
use costanza.Json.{obj}
use costanza.Result.{Result, ok, raised, continue-state}
use costanza.Schemas.{Time}
use costanza.Config.{RoutingConfig, SourceConfig}
use costanza.Store.{Db, SourceRow}
use costanza.Store.Notifications.{enqueue_notification}
use costanza.Store.Outbox.{archive_raw, enqueue_outbox}
use costanza.Store.Events.{source_by_name}
use costanza.Notify.Limits.{engaged}
use costanza.Jobs.Digest.{
  run_digest, digest_for, digest_to, close_window, enqueue_digest, settle_digest, digest_key,
  period, window_cursor, min_period, cursor_job,
}
use costanza.Ingest.{
  Request, Response, Wire, headers_subset, Parsed, valid, invalid, crashed, enqueue_parsed, accept,
  authenticated, receive_from, receive_webhook, authenticate, presented_token, over,
}
use costanza.Program.Writes.{Writes, none_yet}
use costanza.Program.Steps.{
  enqueue_notification-Writes, archive_raw-Writes, enqueue_outbox-Writes, set_cursor-Writes,
}

module _ (isoformat : Time → String) (db : Db) where
  settle_digest-Writes :
      (since now : Time) (r : Bool × Db) → Writes db r.1 → Writes db (settle_digest since now r).1
  settle_digest-Writes since now (true, s) ws =
      set_cursor-Writes ws cursor_job (window_cursor since now)
  settle_digest-Writes since now (false, s) ws = ws

  close_window-Writes :
      (channel : String) (muted : Bool) (since now : Time)
      → Writes db (close_window isoformat channel muted since now db).1
  unfolding close_window enqueue_digest
  close_window-Writes channel true since now =
      set_cursor-Writes none_yet cursor_job (window_cursor since now)
  close_window-Writes channel false since now =
      settle_digest-Writes since now
        (enqueue_notification (digest_key isoformat since now) channel "digest" now db)
        (enqueue_notification-Writes none_yet (digest_key isoformat since now) channel "digest" now)

  digest_to-Writes :
      (env_override : Bool) (channel : String) (now : Time)
      → Writes db (digest_to isoformat env_override channel now db).1
  unfolding digest_to
  digest_to-Writes env_override channel now =
      elim (Bool-cases (ltb (now - (period db now).0) min_period)) [
        | inl e ↦ rw e none_yet
        | inr e ↦ rw e (close_window-Writes channel (engaged env_override db) (period db now).0 now)
      ]

  digest_for-Writes :
      (channel : Option String) (env_override : Bool) (now : Time)
      → Writes db (digest_for isoformat channel env_override now db).1
  digest_for-Writes none env_override now = none_yet
  digest_for-Writes (some channel) env_override now = elim (Bool-cases (channel == "")) [
    | inl e ↦ rw e none_yet
    | inr e ↦ rw e (digest_to-Writes env_override channel now)
  ]

  -- A digest run.
  pub run_digest-Writes :
      (routing : RoutingConfig) (env_override : Bool) (now : Time)
      → Writes db (run_digest isoformat routing env_override now db).1
  unfolding run_digest
  run_digest-Writes routing env_override now =
      digest_for-Writes routing.digest_channel env_override now

module _ {db : Db} where
  enqueue_parsed-Writes :
      (now : Time) (raw_id : String) (parsed : Parsed) (s : Db)
      → Writes db s
      → Writes db (enqueue_parsed now raw_id parsed s).1
  unfolding enqueue_parsed
  enqueue_parsed-Writes now raw_id valid s ws =
      continue-state {A = String} {B = Response} (Writes db) (Writes db)
        (λ id u. (ok Response.accepted, u)) (enqueue_outbox raw_id false none now s)
        (enqueue_outbox-Writes ws raw_id false none now) (λ u k. k) (λ a u k. k)
  enqueue_parsed-Writes now raw_id (invalid exc) s ws =
      let error = some (format ("invalid_json: " ∷ exc.message ∷ [])) in
      continue-state {A = String} {B = Response} (Writes db) (Writes db)
        (λ id u. (ok Response.accepted, u)) (enqueue_outbox raw_id true error now s)
        (enqueue_outbox-Writes ws raw_id true error now) (λ u k. k) (λ a u k. k)
  enqueue_parsed-Writes now raw_id (crashed exc) s ws = ws

  accept-Writes :
      (wire : Wire) (now : Time) (request : Request) (row : Option SourceRow) (s : Db)
      → Writes db s
      → Writes db (accept wire now request row s).1
  unfolding accept
  accept-Writes wire now request none s ws = ws
  accept-Writes wire now request (some row) s ws =
      let head = wire.dumps (obj (headers_subset request.headers)) in
      let body = wire.decode request.body in
      continue-state (Writes db) (Writes db)
        (λ raw_id. enqueue_parsed now raw_id (wire.loads request.body))
        (archive_raw row.id head body now s) (archive_raw-Writes ws row.id head body now) (λ u k. k)
        (λ raw_id u k. enqueue_parsed-Writes now raw_id (wire.loads request.body) u k)

module _ (routing : RoutingConfig) (limit : ℕ) (secret : SourceConfig → Option String) (wire : Wire)
    (db : Db) where
  authenticated-Writes :
      (now : Time) (name : String) (request : Request) (answer : Result Bool)
      → Writes db (authenticated routing limit secret wire now name request answer db).1
  unfolding authenticated
  authenticated-Writes now name request (raised exc) = none_yet
  authenticated-Writes now name request (ok false) = none_yet
  authenticated-Writes now name request (ok true) =
      elim (Bool-cases (ltb limit (length request.body))) [
        | inl e ↦ rw e none_yet
        | inr e ↦ rw e (accept-Writes wire now request (source_by_name db name) db none_yet)
      ]

  receive_from-Writes :
      (now : Time) (name : String) (request : Request) (source : Option SourceConfig)
      → Writes db (receive_from routing limit secret wire now name request source db).1
  unfolding receive_from
  receive_from-Writes now name request none = none_yet
  receive_from-Writes now name request (some source) =
      elim (Bool-cases (over limit request.declared_length)) [
        | inl e ↦ rw e none_yet
        | inr e ↦ rw e (
            authenticated-Writes now name request
              (authenticate (secret source) (presented_token request)))
      ]

  -- A webhook request.
  pub receive_webhook-Writes :
      (now : Time) (name : String) (request : Request)
      → Writes db (receive_webhook routing limit secret wire now name request db).1
  unfolding receive_webhook
  receive_webhook-Writes now name request = receive_from-Writes now name request _

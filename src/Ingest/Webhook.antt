-- ===== src/Ingest/Webhook.antt =====
-- What the webhook handler of src/costanza/ingest/routes.py promises.
use costanza.Prelude.{
  ℕ, suc, ◌≤◌, String, ◌≡◌, refl, ◌≢◌, Bool, true, false, Option, none, some, [], ◌∷◌, ◌++◌, arith,
  any, length, any-append_row, eq_iff, ◌==◌, ltb, eqb, format, Bool-cases, inl, inr, str_eq_self,
}
use costanza.Result.{Result, ok, raised, continue-eq-ok}
use costanza.Json.{obj}
use costanza.Schemas.{Time}
use costanza.Config.{SourceConfig, RoutingConfig}
use costanza.Store.{Db, SourceRow}
use costanza.Store.Events.{source_by_name}
use costanza.Store.Outbox.{archive_raw, enqueue_outbox, raw_row, queue_row, is_raw, is_outbox}
use costanza.Ingest.{
  get, last_named, authenticate, compare_digest, Request, presented_token, Response, accepted, Wire,
  headers_subset, Parsed, valid, invalid, crashed, over, enqueue_parsed, accept, authenticated,
  receive_from, receive_webhook, if_enabled,
}

-- A secret is accepted only where it is configured, not empty, and presented.
authenticate-true :
    (secret presented : Option String)
    → authenticate secret presented ≡ ok true
    → (s : String) × (secret ≡ some s) × (presented ≡ some s) × ((s == "") ≡ false)
unfolding authenticate compare_digest
authenticate-true none presented h = cc
authenticate-true (some s) none h = cc
authenticate-true (some s) (some p) h = (s, refl, ground (arith, eq_iff s p), ground arith)

if_enabled-some :
    (found : Option SourceConfig) (source : SourceConfig)
    → if_enabled found ≡ some source
    → source.enabled ≡ true
if_enabled-some none source h = cc
if_enabled-some (some s) source h = ground arith

module _ (routing : RoutingConfig) (body_max_bytes : ℕ) (secret : SourceConfig → Option String)
    (wire : Wire) (now : Time) (name : String) (request : Request) (db : Db) where
  abbrev pub outcome : Result Response × Db
  outcome = receive_webhook routing body_max_bytes secret wire now name request db

  authenticated-true :
      (answer : Result Bool)
      → (authenticated routing body_max_bytes secret wire now name request answer db).0
        ≡ ok accepted
      → (answer ≡ ok true) × (length request.body ≤ body_max_bytes)
  unfolding authenticated
  authenticated-true (raised exc) h = cc
  authenticated-true (ok false) h = cc
  authenticated-true (ok true) h = (refl, ground arith)

  -- Who was let in: an enabled source whose configured secret is not empty and was presented.
  abbrev pub Authentic : SourceConfig → Type 0
  Authentic source =
      (get routing name ≡ some source)
      × (source.enabled ≡ true)
      × (length request.body ≤ body_max_bytes)
      × ((s : String) × (secret source ≡ some s)
          × (presented_token request ≡ some s)
          × ((s == "") ≡ false))

  receive_from-Authentic :
      (found : Option SourceConfig)
      → get routing name ≡ found
      → (receive_from routing body_max_bytes secret wire now name request found db).0 ≡ ok accepted
      → (source : SourceConfig) × Authentic source
  unfolding receive_from get
  receive_from-Authentic none e h = cc
  receive_from-Authentic (some source) e h =
      elim (Bool-cases (over body_max_bytes request.declared_length)) [
        | inl big ↦ absurd (ground arith)
        | inr fits ↦
            let (answered, small) = authenticated-true _ (rw fits at h) in
            (
              source,
              (
                e,
                if_enabled-some (last_named name routing.sources) source e,
                small,
                authenticate-true (secret source) (presented_token request) answered,
              ),
            )
      ]

  -- A webhook is answered with 202 only if it names an enabled source, presents that source's
  -- configured secret, which is not empty, and has a body within the limit.
  pub accepted-Authentic : outcome.0 ≡ ok accepted → (source : SourceConfig) × Authentic source
  unfolding receive_webhook
  accepted-Authentic h = receive_from-Authentic (get routing name) refl h

  abbrev raw_id : String
  raw_id = db.ids db.drawn

  abbrev queue_id : String
  queue_id = db.ids (suc db.drawn)

  -- The queue row and the answer, by how `json.loads` ended.
  abbrev pub Queued : Parsed → Result Response × Db → Type 0
  Queued valid (r, s) =
      (r ≡ ok accepted) × (s.outbox ≡ db.outbox ++ queue_row queue_id raw_id false none now ∷ [])
  Queued (invalid exc) (r, s) =
      (r ≡ ok accepted)
      × (s.outbox
          ≡ db.outbox
            ++ queue_row queue_id raw_id true (some (format ("invalid_json: " ∷ exc.message ∷ [])))
                now
              ∷ [])
  Queued (crashed exc) (r, s) = (r ≡ raised exc) × (s.outbox ≡ db.outbox)

  abbrev archived_head : String
  archived_head = wire.dumps (obj (headers_subset request.headers))

  abbrev archived_body : String
  archived_body = wire.decode request.body

  -- The row of the archive: the headers of the allowlist as a JSON object, and the decoded body.
  abbrev pub Archived : ℕ → Result Response × Db → Type 0
  Archived source_id (r, s) =
      (s.raw_events
        ≡ db.raw_events ++ raw_row raw_id source_id archived_head archived_body now ∷ [])
      × Queued (wire.loads request.body) (r, s)

  module _ (row : SourceRow) (known : any (λ s. eqb s.id row.id) db.sources ≡ true)
      (fresh_raw : any (is_raw raw_id) db.raw_events ≡ false)
      (fresh_queue : any (is_outbox queue_id) db.outbox ≡ false) where
    abbrev archived : Db
    archived = record db {
      raw_events = db.raw_events ++ raw_row raw_id row.id archived_head archived_body now ∷ [];
      drawn = suc db.drawn;
    }

    archive_raw-archived :
        archive_raw row.id archived_head archived_body now db ≡ (ok raw_id, archived)
    unfolding archive_raw
    archive_raw-archived = rw (fresh_raw, known)

    has_archived : any (is_raw raw_id) archived.raw_events ≡ true
    has_archived =
        rw
          (any-append_row (is_raw raw_id) db.raw_events
            (raw_row raw_id row.id archived_head archived_body now))
          (rw (fresh_raw, str_eq_self raw_id))

    enqueue_parsed-Queued :
        (parsed : Parsed)
        → (((enqueue_parsed now raw_id parsed archived).1.raw_events ≡ archived.raw_events))
          × Queued parsed (enqueue_parsed now raw_id parsed archived)
    unfolding enqueue_parsed enqueue_outbox
    enqueue_parsed-Queued valid = rw (fresh_queue, has_archived) (refl, (refl, refl))
    enqueue_parsed-Queued (invalid exc) = rw (fresh_queue, has_archived) (refl, (refl, refl))
    enqueue_parsed-Queued (crashed exc) = (refl, (refl, refl))

    accept-Archived : Archived row.id (accept wire now request (some row) db)
    unfolding accept
    accept-Archived = rw archive_raw-archived (enqueue_parsed-Queued (wire.loads request.body))

    -- A webhook that passes the checks (source, length, secret, size, a source row) is archived: its
    -- body decoded with replacement characters, whether it is JSON or not, and of its headers those
    -- of the allowlist. It is then queued and answered with 202 where the body is JSON, queued as dead and
    -- answered with 202 where `json.loads` raises a `ValueError`, and neither queued nor answered
    -- with 202 where `json.loads` raises anything else. The new ids must be fresh.
    pub receive_webhook-Archived :
        (source : SourceConfig)
        → get routing name ≡ some source
        → over body_max_bytes request.declared_length ≡ false
        → authenticate (secret source) (presented_token request) ≡ ok true
        → ltb body_max_bytes (length request.body) ≡ false
        → source_by_name db name ≡ some row
        → Archived row.id outcome
    unfolding receive_webhook receive_from authenticated
    receive_webhook-Archived source found fits answered small stored =
        rw (found, fits, answered, small, stored) accept-Archived

  enqueue_parsed-answer :
      (id : String) (parsed : Parsed) (s : Db) (r : Response)
      → (enqueue_parsed now id parsed s).0 ≡ ok r
      → r ≡ accepted
  unfolding enqueue_parsed
  enqueue_parsed-answer id valid s r h =
      let (queued, v, step, rest) = continue-eq-ok _ (enqueue_outbox id false none now s) h in cc
  enqueue_parsed-answer id (invalid exc) s r h =
      let (queued, v, step, rest) =
        continue-eq-ok _
          (enqueue_outbox id true (some (format ("invalid_json: " ∷ exc.message ∷ []))) now s) h in
      cc
  enqueue_parsed-answer id (crashed exc) s r h = cc

  accept-answer :
      (row : Option SourceRow) (r : Response)
      → (accept wire now request row db).0 ≡ ok r
      → r ≡ accepted
  unfolding accept
  accept-answer none r h = cc
  accept-answer (some row) r h =
      let (id, s, step, rest) =
        continue-eq-ok _ (archive_raw row.id archived_head archived_body now db) h in
      enqueue_parsed-answer id (wire.loads request.body) s r rest

  authenticated_rejected :
      (answer : Result Bool) (r : Response)
      → r ≢ accepted
      → (authenticated routing body_max_bytes secret wire now name request answer db).0 ≡ ok r
      → (authenticated routing body_max_bytes secret wire now name request answer db).1 ≡ db
  unfolding authenticated
  authenticated_rejected (raised exc) r other h = refl
  authenticated_rejected (ok false) r other h = refl
  authenticated_rejected (ok true) r other h =
      elim (Bool-cases (ltb body_max_bytes (length request.body))) [
        | inl big ↦ rw big
        | inr fits ↦ absurd (other (accept-answer (source_by_name db name) r (rw fits at h)))
      ]

  rejected_from :
      (found : Option SourceConfig) (r : Response)
      → r ≢ accepted
      → (receive_from routing body_max_bytes secret wire now name request found db).0 ≡ ok r
      → (receive_from routing body_max_bytes secret wire now name request found db).1 ≡ db
  unfolding receive_from
  rejected_from none r other h = refl
  rejected_from (some source) r other h =
      elim (Bool-cases (over body_max_bytes request.declared_length)) [
        | inl big ↦ rw big
        | inr fits ↦ rw fits (
            authenticated_rejected (authenticate (secret source) (presented_token request)) r other
              (rw fits at h))
      ]

  -- A webhook that is answered with anything but 202 (404, 413 or 401) leaves the store as it was.
  pub rejected_unchanged : (r : Response) → r ≢ accepted → outcome.0 ≡ ok r → outcome.1 ≡ db
  unfolding receive_webhook
  rejected_unchanged r other h = rejected_from (get routing name) r other h

-- ===== src/Jobs/Reconcile/Expected.antt =====
-- The events that src/costanza/jobs/reconcile.py expects, against the webhook normalizer of
-- src/costanza/normalize/seerr.py.
use costanza.Prelude.{◌≡◌}
use costanza.Json.{Json, str}
use costanza.Stdlib.{Stdlib}
use costanza.Schemas.{CanonicalEvent}
use costanza.Normalize.Seerr.{request_key}
use costanza.Jobs.Reconcile.{Shared, label}

module _ (lib : Stdlib) (shared : Shared) (media_status : Json) where
  -- The event has the key that a webhook for the same request and type gets, where a webhook for an
  -- available request says the media's status in words.
  abbrev pub HasWebhookKey : CanonicalEvent → Type 0
  HasWebhookKey event =
      event.source_event_key
      ≡ request_key lib shared.source event.type shared.request_id (str (label media_status))

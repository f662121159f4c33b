-- ===== src/Tests/Samples.antt =====
-- Rows, events and states that the tests share.
use costanza.Prelude.{ℕ, zero, suc, String, true, false, none, some, [], ◌∷◌}
use costanza.Json.{end, field, str, pos}
use costanza.Stdlib.{Stdlib}
use costanza.Schemas.{
  seconds, CanonicalEvent, EventType, Origin, MediaKind, IdentityProvider, RenderedMessage,
}
use costanza.Config.{RoutingConfig}
use costanza.Store.{
  Db, SourceRow, RawEvent, OutboxRow, OutboxState, NotificationRow, NotificationStatus, ChainRow,
  ChainState, MediaRow, KillSwitchRow,
}
use costanza.Outbox.{Policy}

-- The ids of a state: "id-0", "id-1", "id-2", and then "id-3" again and again.
abbrev pub some_ids : ℕ → String
some_ids zero = "id-0"
some_ids (suc zero) = "id-1"
some_ids (suc (suc zero)) = "id-2"
some_ids (suc (suc (suc n))) = "id-3"

abbrev pub lib : Stdlib
lib = record {
  repr_text = λ s. s;
  dumps = λ j. "{}";
  sha256_hex = λ s. "0123456789abcdef0123456789abcdef";
  int_of_text = λ s. none;
}

abbrev pub hash : RenderedMessage → String
hash m = "hash"

abbrev pub seerr_source : SourceRow
seerr_source = record {
  id = 1;
  kind = "seerr";
  name = "seerr";
  secret_ref = "WEBHOOK_SECRET__SEERR";
  enabled = true;
}

abbrev pub old_raw : RawEvent
old_raw = record {
  id = "raw-1";
  source_id = 1;
  received_at = 100;
  headers_subset = "{}";
  body_json = "{\"a\": 1}";
}

abbrev pub queued : OutboxRow
queued = record {
  id = "out-1";
  raw_event_id = "raw-1";
  state = OutboxState.pending;
  attempts = 0;
  next_attempt_at = some 100;
  last_error = none;
}

abbrev pub unsent : NotificationRow
unsent = record {
  id = "note-1";
  event_key = "seerr:request.approved:7";
  channel = "feed";
  rendered_hash = "hash";
  status = NotificationStatus.pending;
  attempts = 0;
  next_attempt_at = some 100;
  last_error = none;
  sent_at = none;
}

abbrev pub arrival : MediaRow
arrival = record {
  id = "media-1";
  tmdb_id = some (pos 329865);
  tvdb_id = none;
  imdb_id = none;
  kind = MediaKind.movie;
  title = some "Arrival";
  year = some (pos 2016);
  added_at = 100;
}

abbrev pub chain : ChainRow
chain = record {
  id = "chain-1";
  media_id = some "media-1";
  seerr_request_id = some "7";
  requested_by = none;
  state = ChainState.approved;
  opened_at = 100;
  closed_at = none;
}

abbrev pub live_switch : KillSwitchRow
live_switch = record { engaged = false; set_by = "admin"; via = "api"; set_at = 50 }

abbrev pub db : Db
db = record {
  sources = seerr_source ∷ [];
  raw_events = old_raw ∷ [];
  outbox = queued ∷ [];
  media = arrival ∷ [];
  users = [];
  identities = [];
  events = [];
  request_chains = chain ∷ [];
  notifications = unsent ∷ [];
  job_cursors = [];
  kill_switch_audit = live_switch ∷ [];
  ids = some_ids;
  drawn = 0;
}

abbrev pub event : CanonicalEvent
event = record {
  id = "event-1";
  source = "seerr";
  source_event_key = "seerr:request.available:7:AVAILABLE";
  origin = Origin.webhook;
  type = EventType.request_available;
  occurred_at = none;
  received_at = some 200;
  media = some (record {
    media_id = none;
    tmdb_id = some (pos 329865);
    tvdb_id = none;
    imdb_id = none;
    title = some "Arrival";
    year = some (pos 2016);
    kind = some MediaKind.movie;
    detail = end;
  });
  user = some (record {
    user_id = none;
    display = some "alice";
    provider = some IdentityProvider.seerr;
    external_id = some "alice";
  });
  attrs = field "request_id" (str "7") end;
}

abbrev pub routing : RoutingConfig
routing = record {
  sources = record { name = "seerr"; kind = "seerr"; url = none; enabled = true } ∷ [];
  channels = "feed" ∷ "admin" ∷ [];
  rules =
      record { types = "request.available" ∷ []; channel = "feed"; sources = none }
      ∷ record { types = "request.available" ∷ []; channel = "feed"; sources = some ("seerr" ∷ []) }
      ∷ record { types = "health.issue" ∷ []; channel = "admin"; sources = none }
      ∷ [];
  admin_channel = some "admin";
  digest_channel = none;
  watch_completion = record { tautulli_watched_trigger = true; progress_threshold = pos 85 };
  per_channel_per_minute = 10;
  users = [];
}

abbrev pub policy : Policy
policy = record { max_attempts = 5; backoff_base = seconds 2 }

-- ===== src/Schemas.antt =====
-- src/costanza/schemas.py: the canonical event contract. A `datetime` is a number of microseconds
-- (`Time`), and an ISO string that the store writes for one is that number again.
use costanza.Json.{Fields, ℤ}
use costanza.Prelude.{ℕ, ◌*◌, String, Option, List}

abbrev pub Time : Type 0
Time = ℕ

abbrev pub seconds : ℕ → Time
seconds n = n * 1_000_000

abbrev pub minutes : ℕ → Time
minutes n = seconds (n * 60)

abbrev pub hours : ℕ → Time
hours n = minutes (n * 60)

abbrev pub days : ℕ → Time
days n = hours (n * 24)

pub data EventType : Type 0 where
  request_created request_approved request_declined request_available : EventType
  media_grabbed media_imported media_upgraded media_deleted : EventType
  playback_started playback_stopped watch_completed : EventType
  health_issue source_unknown reconcile_gap : EventType

abbrev pub type_name : EventType → String
type_name request_created = "request.created"
type_name request_approved = "request.approved"
type_name request_declined = "request.declined"
type_name request_available = "request.available"
type_name media_grabbed = "media.grabbed"
type_name media_imported = "media.imported"
type_name media_upgraded = "media.upgraded"
type_name media_deleted = "media.deleted"
type_name playback_started = "playback.started"
type_name playback_stopped = "playback.stopped"
type_name watch_completed = "watch.completed"
type_name health_issue = "health.issue"
type_name source_unknown = "source.unknown"
type_name reconcile_gap = "reconcile.gap"

pub data Origin : Type 0 where
  webhook reconcile manual : Origin

pub data MediaKind : Type 0 where
  movie series season episode : MediaKind

pub data IdentityProvider : Type 0 where
  seerr plex tautulli discord : IdentityProvider

pub record MediaRef : Type 0 where
  pub media_id : Option String
  pub tmdb_id : Option ℤ
  pub tvdb_id : Option ℤ
  pub imdb_id : Option String
  pub title : Option String
  pub year : Option ℤ
  pub kind : Option MediaKind
  pub detail : Fields

pub record UserRef : Type 0 where
  pub user_id : Option String
  pub display : Option String
  pub provider : Option IdentityProvider
  pub external_id : Option String

pub record CanonicalEvent : Type 0 where
  pub id : String
  pub source : String
  pub source_event_key : String
  pub origin : Origin
  pub type : EventType
  pub occurred_at : Option Time
  pub received_at : Option Time
  pub media : Option MediaRef
  pub user : Option UserRef
  pub attrs : Fields

pub data MessageKind : Type 0 where
  embed digest : MessageKind

pub record RenderedMessage : Type 0 where
  pub kind : MessageKind
  pub title : String
  pub description : String
  pub fields : List (String × String)
  pub color : Option ℕ
  pub footer : Option String

-- ===== src/Store.antt =====
-- src/costanza/store/db.py and its schema (store/migrations/0001_initial.sql): the tables as lists
-- of rows in order of insertion, with their primary keys, unique indexes and foreign keys. The
-- children hold the operations, one per table.
-- Each `with self._conn` block is one transaction: an operation that raises changes no table.
pub mod Outbox
pub mod Notifications
pub mod Events
pub mod Chains
pub mod Media
pub mod Users
pub mod Control
pub mod Like
pub mod Sync
use costanza.Prelude.{
  ℕ, suc, String, Bool, Option, List, any, ◌==◌, none, some, if◌then◌else◌, false, true,
}
use costanza.Json.{Fields, ℤ}
use costanza.Result.{Result, ok, Exec}
use costanza.Schemas.{Time, EventType, Origin, MediaKind, IdentityProvider}

pub record SourceRow : Type 0 where
  pub id : ℕ
  pub kind : String
  pub name : String
  pub secret_ref : String
  pub enabled : Bool

pub record RawEvent : Type 0 where
  pub id : String
  pub source_id : ℕ
  pub received_at : Time
  pub headers_subset : String
  pub body_json : String

pub data OutboxState : Type 0 where
  pending done dead : OutboxState

pub record OutboxRow : Type 0 where
  pub id : String
  pub raw_event_id : String
  pub state : OutboxState
  pub attempts : ℕ
  pub next_attempt_at : Option Time
  pub last_error : Option String

pub record MediaRow : Type 0 where
  pub id : String
  pub tmdb_id : Option ℤ
  pub tvdb_id : Option ℤ
  pub imdb_id : Option String
  pub kind : MediaKind
  pub title : Option String
  pub year : Option ℤ
  pub added_at : Time

pub record UserRow : Type 0 where
  pub id : String
  pub display_name : String
  pub is_admin : Bool
  pub active : Bool

pub record IdentityRow : Type 0 where
  pub user_id : Option String
  pub provider : IdentityProvider
  pub external_id : String

pub record EventRow : Type 0 where
  pub id : String
  pub source_event_key : String
  pub source_id : ℕ
  pub origin : Origin
  pub type : EventType
  pub occurred_at : Time
  pub received_at : Time
  pub media_id : Option String
  pub user_id : Option String
  pub attrs : Fields

pub data ChainState : Type 0 where
  requested approved partially_available available declined : ChainState

pub record ChainRow : Type 0 where
  pub id : String
  pub media_id : Option String
  pub seerr_request_id : Option String
  pub requested_by : Option String
  pub state : ChainState
  pub opened_at : Time
  pub closed_at : Option Time

pub data NotificationStatus : Type 0 where
  pending sent failed dead : NotificationStatus

pub record NotificationRow : Type 0 where
  pub id : String
  pub event_key : String
  pub channel : String
  pub rendered_hash : String
  pub status : NotificationStatus
  pub attempts : ℕ
  pub next_attempt_at : Option Time
  pub last_error : Option String
  pub sent_at : Option Time

pub record KillSwitchRow : Type 0 where
  pub engaged : Bool
  pub set_by : String
  pub via : String
  pub set_at : Time

pub record CursorRow : Type 0 where
  pub job : String
  pub cursor : List (String × Time)

-- `new_id` is `uuid.uuid7`: the texts that it will return are the sequence `ids`, of which `drawn`
-- have been handed out.
pub record Db : Type 0 where
  pub sources : List SourceRow
  pub raw_events : List RawEvent
  pub outbox : List OutboxRow
  pub media : List MediaRow
  pub users : List UserRow
  pub identities : List IdentityRow
  pub events : List EventRow
  pub request_chains : List ChainRow
  pub notifications : List NotificationRow
  pub job_cursors : List CursorRow
  pub kill_switch_audit : List KillSwitchRow
  pub ids : ℕ → String
  pub drawn : ℕ

unfoldable pub new_id : Exec Db String
new_id db = (ok (db.ids db.drawn), record db { drawn = suc db.drawn })

-- A nullable column that refers to the key of another table.
abbrev pub refers_to {ℓ} : {A : Type ℓ} → (A → String → Bool) → Option String → List A → Bool
refers_to has none rows = true
refers_to has (some key) rows = any (λ row. has row key) rows

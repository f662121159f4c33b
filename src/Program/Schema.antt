-- ===== src/Program/Schema.antt =====
-- The constraints of store/migrations/0001_initial.sql as an invariant of the database.
pub mod Tables
pub mod Kept
use costanza.Prelude.{
  ℕ, ◌≤◌, String, ◌≡◌, ap, refl, ◌∙◌, Bool, true, false, Option, none, some, List, [], ◌∷◌, ◌++◌,
  any, count, update_where, All, arith, eqb, eq_iff, ◌==◌, count-append_row, count-update_where,
  any-append_row, count-eq-zero_of_not-any, count-filter-le, All-weaken, Bool-cases, inl, inr,
}
use costanza.Schemas.{Time, IdentityProvider}
use costanza.Store.{
  Db, SourceRow, RawEvent, OutboxRow, MediaRow, IdentityRow, EventRow, ChainRow, NotificationRow,
  KillSwitchRow, CursorRow, UserRow,
}
use costanza.Store.Outbox.{is_raw, is_outbox, prune_at, redact}
use costanza.Store.Outbox.Prune.{prune_at-references}
use costanza.Store.Media.{is_media}
use costanza.Store.Users.{is_identity, provider_eq}
use costanza.Store.Events.{is_event}
use costanza.Store.Chains.{is_chain, column_is, has_request, request_taken}
use costanza.Store.Notifications.{is_notification, is_for}
use costanza.Program.Writes.{
  Write, Writes, draw, add_raw, add_outbox, change_outbox, prune_raws, add_media, change_media,
  add_identity, change_identity, put_users, put_sources, add_event, add_chain, change_chain,
  add_notification, change_notification, move_cursors, add_switch, none_yet, then_one,
}

-- Primary keys, unique indexes and references, table by table.
abbrev pub HasRaw : List RawEvent → OutboxRow → Type 0
HasRaw raws row = any (is_raw row.raw_event_id) raws ≡ true

abbrev pub HasSource : List SourceRow → EventRow → Type 0
HasSource sources row = any (λ s. eqb s.id row.source_id) sources ≡ true

pub record IsQueue (raws : List RawEvent) (rows : List OutboxRow) : Type 0 where
  pub raw_ids : (id : String) → count (is_raw id) raws ≤ 1
  pub ids : (id : String) → count (is_outbox id) rows ≤ 1
  pub references : All (HasRaw raws) rows

pub record IsEvents (sources : List SourceRow) (rows : List EventRow) : Type 0 where
  pub keys : (key : String) → count (is_event key) rows ≤ 1
  pub references : All (HasSource sources) rows

pub record IsChains (rows : List ChainRow) : Type 0 where
  pub ids : (id : String) → count (is_chain id) rows ≤ 1
  pub requests : (id : String) → count (has_request id) rows ≤ 1

pub record IsLedger (rows : List NotificationRow) : Type 0 where
  pub ids : (id : String) → count (is_notification id) rows ≤ 1
  pub keys : (key channel : String) → count (is_for key channel) rows ≤ 1

abbrev pub IsMedia : List MediaRow → Type 0
IsMedia rows = (id : String) → count (is_media id) rows ≤ 1

abbrev pub IsIdentities : List IdentityRow → Type 0
IsIdentities rows = (p : IdentityProvider) (x : String) → count (is_identity p x) rows ≤ 1

pub record IsWellFormed (db : Db) : Type 0 where
  pub queue : IsQueue db.raw_events db.outbox
  pub media : IsMedia db.media
  pub identities : IsIdentities db.identities
  pub events : IsEvents db.sources db.events
  pub chains : IsChains db.request_chains
  pub ledger : IsLedger db.notifications

-- ===== src/Program/Writes.antt =====
-- What a store of src/costanza/store/db.py may do to its database, under the constraints of
-- store/migrations/0001_initial.sql: one constructor for each kind of write, and sequences of them.
use costanza.Prelude.{ℕ, String, ◌≡◌, true, false, List, [], ◌∷◌, ◌++◌, any, update_where, eqb}
use costanza.Schemas.{Time, IdentityProvider}
use costanza.Store.{
  Db, SourceRow, UserRow, RawEvent, OutboxRow, MediaRow, IdentityRow, EventRow, ChainRow,
  NotificationRow, KillSwitchRow, CursorRow,
}
use costanza.Store.Outbox.{is_raw, is_outbox, prune_at}
use costanza.Store.Media.{is_media}
use costanza.Store.Users.{is_identity}
use costanza.Store.Events.{is_event}
use costanza.Store.Chains.{is_chain, request_taken}
use costanza.Store.Notifications.{is_notification, is_for}

pub data Write (db : Db) : Db → Type 0 where
  draw : (n : ℕ) → Write db (record db { drawn = n })
  add_raw :
      (row : RawEvent)
      → any (is_raw row.id) db.raw_events ≡ false
      → Write db (record db { raw_events = db.raw_events ++ row ∷ [] })
  add_outbox :
      (row : OutboxRow)
      → any (is_outbox row.id) db.outbox ≡ false
      → any (is_raw row.raw_event_id) db.raw_events ≡ true
      → Write db (record db { outbox = db.outbox ++ row ∷ [] })
  change_outbox :
      (id : String) (f : OutboxRow → OutboxRow)
      → ((x : OutboxRow) → (f x).id ≡ x.id)
      → ((x : OutboxRow) → (f x).raw_event_id ≡ x.raw_event_id)
      → Write db (record db { outbox = update_where (is_outbox id) f db.outbox })
  prune_raws : (cutoff : Time) → Write db (prune_at cutoff db).1
  add_media :
      (row : MediaRow)
      → any (is_media row.id) db.media ≡ false
      → Write db (record db { media = db.media ++ row ∷ [] })
  change_media :
      (id : String) (f : MediaRow → MediaRow)
      → ((x : MediaRow) → (f x).id ≡ x.id)
      → Write db (record db { media = update_where (is_media id) f db.media })
  add_identity :
      (row : IdentityRow)
      → any (is_identity row.provider row.external_id) db.identities ≡ false
      → Write db (record db { identities = db.identities ++ row ∷ [] })
  change_identity :
      (p : IdentityProvider) (x : String) (f : IdentityRow → IdentityRow)
      → ((y : IdentityRow) → (f y).provider ≡ y.provider)
      → ((y : IdentityRow) → (f y).external_id ≡ y.external_id)
      → Write db (record db { identities = update_where (is_identity p x) f db.identities })
  put_users : (rows : List UserRow) → Write db (record db { users = rows })
  put_sources :
      (rows : List SourceRow)
      → ((id : ℕ) → any (λ s. eqb s.id id) db.sources ≡ true → any (λ s. eqb s.id id) rows ≡ true)
      → Write db (record db { sources = rows })
  add_event :
      (row : EventRow)
      → any (is_event row.source_event_key) db.events ≡ false
      → any (λ s. eqb s.id row.source_id) db.sources ≡ true
      → Write db (record db { events = db.events ++ row ∷ [] })
  add_chain :
      (row : ChainRow)
      → any (is_chain row.id) db.request_chains ≡ false
      → request_taken row.seerr_request_id db.request_chains ≡ false
      → Write db (record db { request_chains = db.request_chains ++ row ∷ [] })
  change_chain :
      (id : String) (f : ChainRow → ChainRow)
      → ((x : ChainRow) → (f x).id ≡ x.id)
      → ((x : ChainRow) → (f x).seerr_request_id ≡ x.seerr_request_id)
      → Write db (record db { request_chains = update_where (is_chain id) f db.request_chains })
  add_notification :
      (row : NotificationRow)
      → any (is_notification row.id) db.notifications ≡ false
      → any (is_for row.event_key row.channel) db.notifications ≡ false
      → Write db (record db { notifications = db.notifications ++ row ∷ [] })
  change_notification :
      (id : String) (f : NotificationRow → NotificationRow)
      → ((x : NotificationRow) → (f x).id ≡ x.id)
      → ((x : NotificationRow) → (f x).event_key ≡ x.event_key)
      → ((x : NotificationRow) → (f x).channel ≡ x.channel)
      → Write db
          (record db { notifications = update_where (is_notification id) f db.notifications })
  move_cursors : (rows : List CursorRow) → Write db (record db { job_cursors = rows })
  add_switch :
      (row : KillSwitchRow)
      → Write db (record db { kill_switch_audit = db.kill_switch_audit ++ row ∷ [] })

pub data Writes (db : Db) : Db → Type 0 where
  none_yet : Writes db db
  then_one : {s t : Db} → Writes db s → Write s t → Writes db t

pub Writes-trans : {a b c : Db} → Writes a b → Writes b c → Writes a c
Writes-trans ws none_yet = ws
Writes-trans ws (then_one vs w) = then_one (Writes-trans ws vs) w

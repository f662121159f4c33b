-- ===== src/Notify/Pipeline.antt =====
-- src/costanza/notify/pipeline.py: from an event to ledger rows, and from due rows to the notifier.
pub mod Ledger
pub mod Rounds
pub mod Sends
use costanza.Prelude.{
  ℕ, suc, ◌+◌, String, Bool, true, false, not, Option, none, some, List, [], ◌∷◌, ◌++◌, length, leb,
  ◌==◌, if◌then◌else◌,
}
use costanza.Json.{Json, Fields, end}
use costanza.Result.{Exception, Result, ok, raised, bind, describe, Exec, continue, ◌>>=◌, pure}
use costanza.Stdlib.{Stdlib, before_colon}
use costanza.Schemas.{Time, seconds, CanonicalEvent, MediaRef, UserRef, RenderedMessage}
use costanza.Config.{RoutingConfig}
use costanza.Store.{Db, EventRow, MediaRow, UserRow, NotificationRow}
use costanza.Store.Events.{source_by_id, get_event_by_key}
use costanza.Store.Media.{get_media}
use costanza.Store.Users.{get_user}
use costanza.Store.Notifications.{
  enqueue_notification, claim_notifications_due, notification_sent, notification_retry,
  notification_defer, notification_dead,
}
use costanza.Outbox.{Policy, backoff}
use costanza.Notify.Router.{channels_for}
use costanza.Notify.Limits.{engaged, RateLimiter, allow}
use costanza.Notify.Render.{render_event}

abbrev pub defer : Time
defer = seconds 60

-- The loop over the channels, from the rows created so far.
unfoldable pub enqueue_channels : String → String → Time → List String → ℕ → Db → ℕ × Db
enqueue_channels event_key message_hash now [] created db = (created, db)
enqueue_channels event_key message_hash now (channel ∷ channels) created db =
    let (is_new, db') = enqueue_notification event_key channel message_hash now db in
    enqueue_channels event_key message_hash now channels (if is_new then created + 1 else created)
      db'

-- What follows the routing: no channel, the kill switch engaged, or one row for each channel.
unfoldable pub fan_out :
    String
    → (RenderedMessage → String)
    → Time
    → List String
    → Bool
    → Result RenderedMessage
    → Exec Db ℕ
unfolding enqueue_channels
fan_out key rendered_hash now [] muted message db = (ok 0, db)
fan_out key rendered_hash now (channel ∷ channels) true message db = (ok 0, db)
fan_out key rendered_hash now (channel ∷ channels) false (raised exc) db = (raised exc, db)
fan_out key rendered_hash now (channel ∷ channels) false (ok message) db =
    let (created, db') =
      enqueue_channels key (rendered_hash message) now (channel ∷ channels) 0 db in
    (ok created, db')

-- `rendered_hash` hashes the JSON dump of the message, and is a parameter; `env_override` is the
-- kill switch's flag. Returns the rows created.
unfoldable pub enqueue_for_event :
    Stdlib → (RenderedMessage → String) → RoutingConfig → Bool → CanonicalEvent → Time → Exec Db ℕ
unfolding fan_out
enqueue_for_event lib rendered_hash routing env_override event now db =
    fan_out event.source_event_key rendered_hash now (channels_for event routing)
      (engaged env_override db) (render_event lib event) db

media_ref : MediaRow → MediaRef
media_ref m = record {
  media_id = some m.id;
  tmdb_id = m.tmdb_id;
  tvdb_id = m.tvdb_id;
  imdb_id = m.imdb_id;
  title = m.title;
  year = m.year;
  kind = some m.kind;
  detail = end;
}

user_ref : UserRow → UserRef
user_ref u = record {
  user_id = some u.id;
  display = some u.display_name;
  provider = none;
  external_id = none;
}

abbrev index_error : Exception
index_error = record { name = "IndexError"; message = "list index out of range" }

-- An id that is None or empty is not looked up.
abbrev by_id {ℓ} : {A : Type ℓ} → (String → Option A) → Option String → Option A
by_id find none = none
by_id find (some id) = if id == "" then none else find id

abbrev map_option {ℓ κ} : {A : Type ℓ} {B : Type κ} → (A → B) → Option A → Option B
map_option f none = none
map_option f (some a) = some (f a)

-- Rebuilds an event from its row. The ISO texts of the row give its times back.
unfoldable pub event_from_row : Db → EventRow → Result CanonicalEvent
unfolding media_ref user_ref
event_from_row db row = elim (source_by_id db row.source_id) [
  | none ↦ raised index_error
  | some source ↦ ok (record {
    id = row.id;
    source = source.name;
    source_event_key = row.source_event_key;
    origin = row.origin;
    type = row.type;
    occurred_at = some row.occurred_at;
    received_at = some row.received_at;
    media = map_option media_ref (by_id (get_media db) row.media_id);
    user = map_option user_ref (by_id (get_user db) row.user_id);
    attrs = row.attrs;
  })
]

-- The special renderers, by prefix; they read the store.
abbrev pub SpecialRenderers : Type 0
SpecialRenderers = String → Option (String → Db → Result RenderedMessage)

abbrev render_stored : Stdlib → Db → Option EventRow → Result (Option RenderedMessage)
render_stored lib db none = ok none
render_stored lib db (some row) =
    bind (event_from_row db row) (λ event. bind (render_event lib event) (λ m. ok (some m)))

-- `ok none` where the row's event is missing.
unfoldable pub render_row :
    Stdlib → SpecialRenderers → Db → NotificationRow → Result (Option RenderedMessage)
unfolding event_from_row
render_row lib special db row = elim (special (before_colon row.event_key)) [
  | some render ↦ bind (render row.event_key db) (λ m. ok (some m))
  | none ↦ render_stored lib db (get_event_by_key db row.event_key)
]

-- The database, the limiter, and the deliveries that the notifier was asked for, oldest first.
pub record World : Type 0 where
  pub db : Db
  pub limiter : RateLimiter
  pub deliveries : List (String × RenderedMessage)

-- The channel's answer to a delivery, which may depend on all earlier ones.
abbrev pub Notifier : Type 0
Notifier = List (String × RenderedMessage) → String → RenderedMessage → Result (Unit {0})

-- What follows `notifier.send`.
unfoldable pub settle_send : Policy → Time → NotificationRow → Result (Unit {0}) → Db → Bool × Db
settle_send policy now row (ok _) db = (true, notification_sent row.id now db)
settle_send policy now row (raised exc) db = (
  false,
  if leb policy.max_attempts (row.attempts + 1)
      then notification_dead row.id (describe exc) db
      else notification_retry row.id (describe exc) (now + backoff policy.backoff_base row.attempts)
          db,
)

module _ (lib : Stdlib) (special : SpecialRenderers) (notifier : Notifier) (policy : Policy) where
  -- A message that is rendered and within the limit is sent.
  unfoldable pub deliver : Time → NotificationRow → RenderedMessage → World → Bool × World
  unfolding settle_send
  deliver now row message w =
      let (allowed, limiter) = allow row.channel now w.limiter in
      if allowed
      then (let (done, db) =
            settle_send policy now row (notifier w.deliveries row.channel message) w.db in
          (
            done,
            record {
              db = db;
              limiter = limiter;
              deliveries = w.deliveries ++ (row.channel, message) ∷ [];
            },
          ))
      else (
        false,
        record {
          db = notification_defer row.id (now + defer) w.db;
          limiter = limiter;
          deliveries = w.deliveries;
        },
      )

  -- A row that was rendered: `ok none` is a row whose event is missing.
  unfoldable pub send_rendered :
      Time → NotificationRow → Result (Option RenderedMessage) → Exec World Bool
  unfolding deliver
  send_rendered now row (raised exc) w = (raised exc, w)
  send_rendered now row (ok none) w =
      (ok false, record w { db = notification_dead row.id "event_missing" w.db })
  send_rendered now row (ok (some message)) w =
      let (done, w') = deliver now row message w in (ok done, w')

  -- One round of the loop; `true` if the row was sent.
  unfoldable pub send_row : Time → NotificationRow → Exec World Bool
  unfolding send_rendered
  send_row now row w = send_rendered now row (render_row lib special w.db row) w

  unfoldable pub send_rows : Time → List NotificationRow → ℕ → Exec World ℕ
  unfolding send_row
  send_rows now [] sent w = (ok sent, w)
  send_rows now (row ∷ rows) sent w =
      continue (λ done. send_rows now rows (if done then sent + 1 else sent)) (send_row now row w)

  unfoldable pub defer_rows : Time → List NotificationRow → Db → Db
  defer_rows now [] db = db
  defer_rows now (row ∷ rows) db = defer_rows now rows (notification_defer row.id (now + defer) db)

  -- The rows that were claimed, and whether the kill switch is engaged.
  unfoldable pub send_claimed : Time → List NotificationRow → Bool → Exec World ℕ
  unfolding send_rows defer_rows
  send_claimed now [] muted w = (ok 0, w)
  send_claimed now (row ∷ rows) true w = (ok 0, record w { db = defer_rows now (row ∷ rows) w.db })
  send_claimed now (row ∷ rows) false w = send_rows now (row ∷ rows) 0 w

  -- Returns the messages sent.
  unfoldable pub send_due_once : Bool → ℕ → Time → Exec World ℕ
  unfolding send_claimed
  send_due_once env_override limit now w =
      send_claimed now (claim_notifications_due limit now w.db) (engaged env_override w.db) w

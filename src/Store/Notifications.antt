-- ===== src/Store/Notifications.antt =====
-- src/costanza/store/db.py, "notifications (ledger + outbound outbox)".
use costanza.Prelude.{
  eqb, count, Option, ℕ, suc, String, Bool, true, false, ◌&&◌, ◌||◌, none, some, List, [], ◌∷◌,
  ◌++◌, any, filter, update_where, sort_by, take, or_else, ◌==◌, if◌then◌else◌,
}
use costanza.Schemas.{Time}
use costanza.Store.{Db, NotificationRow, NotificationStatus}
use costanza.Store.Outbox.{is_due_at}

abbrev pub is_notification : String → NotificationRow → Bool
is_notification id row = row.id == id

-- UNIQUE (event_key, channel)
abbrev pub is_for : String → String → NotificationRow → Bool
is_for event_key channel row = row.event_key == event_key && row.channel == channel

insert_or_ignore : NotificationRow → Db → Bool × Db
insert_or_ignore row db =
    if any (is_notification row.id) db.notifications
      || any (is_for row.event_key row.channel) db.notifications
    then (false, db)
    else (true, record db { notifications = db.notifications ++ row ∷ [] })

-- The row that is inserted.
abbrev pub pending_row : String → String → String → String → Time → NotificationRow
pending_row id event_key channel rendered_hash now = record {
  id = id;
  event_key = event_key;
  channel = channel;
  rendered_hash = rendered_hash;
  status = NotificationStatus.pending;
  attempts = 0;
  next_attempt_at = some now;
  last_error = none;
  sent_at = none;
}

-- `True` if a row was created.
unfoldable pub enqueue_notification : String → String → String → Time → Db → Bool × Db
unfolding insert_or_ignore
enqueue_notification event_key channel rendered_hash now db =
    insert_or_ignore (pending_row (db.ids db.drawn) event_key channel rendered_hash now)
      (record db { drawn = suc db.drawn })

-- status IN ('pending', 'failed')
abbrev pub is_waiting : NotificationStatus → Bool
is_waiting NotificationStatus.pending = true
is_waiting NotificationStatus.sent = false
is_waiting NotificationStatus.failed = true
is_waiting NotificationStatus.dead = false

abbrev pub is_sent : NotificationStatus → Bool
is_sent NotificationStatus.pending = false
is_sent NotificationStatus.sent = true
is_sent NotificationStatus.failed = false
is_sent NotificationStatus.dead = false

abbrev pub notification_due : Time → NotificationRow → Bool
notification_due now row = is_waiting row.status && is_due_at now row.next_attempt_at

unfoldable pub claim_notifications_due : ℕ → Time → Db → List NotificationRow
claim_notifications_due limit now db = take limit (
    sort_by (λ row. or_else row.next_attempt_at 0) (filter (notification_due now) db.notifications))

abbrev pub set_sent : Time → NotificationRow → NotificationRow
set_sent now row = record row {
  status = NotificationStatus.sent;
  attempts = suc row.attempts;
  sent_at = some now;
  last_error = none;
}

abbrev pub set_failed : String → Time → NotificationRow → NotificationRow
set_failed error next_attempt_at row = record row {
  status = NotificationStatus.failed;
  attempts = suc row.attempts;
  last_error = some error;
  next_attempt_at = some next_attempt_at;
}

abbrev pub set_deferred : Time → NotificationRow → NotificationRow
set_deferred next_attempt_at row = record row { next_attempt_at = some next_attempt_at }

abbrev pub set_dead : String → NotificationRow → NotificationRow
set_dead error row = record row {
  status = NotificationStatus.dead;
  attempts = suc row.attempts;
  last_error = some error;
}

abbrev update_notification : String → (NotificationRow → NotificationRow) → Db → Db
update_notification id f db = record db {
  notifications = update_where (is_notification id) f db.notifications;
}

unfoldable pub notification_sent : String → Time → Db → Db
notification_sent id now db = update_notification id (set_sent now) db

unfoldable pub notification_retry : String → String → Time → Db → Db
notification_retry id error next_attempt_at db =
    update_notification id (set_failed error next_attempt_at) db

unfoldable pub notification_defer : String → Time → Db → Db
notification_defer id next_attempt_at db = update_notification id (set_deferred next_attempt_at) db

unfoldable pub notification_dead : String → String → Db → Db
notification_dead id error db = update_notification id (set_dead error) db

unfoldable pub notifications_by_key : String → Db → List NotificationRow
notifications_by_key event_key db = filter (λ row. row.event_key == event_key) db.notifications

abbrev pub status_eq : NotificationStatus → NotificationStatus → Bool
status_eq NotificationStatus.pending NotificationStatus.pending = true
status_eq NotificationStatus.sent NotificationStatus.sent = true
status_eq NotificationStatus.failed NotificationStatus.failed = true
status_eq NotificationStatus.dead NotificationStatus.dead = true
status_eq _ _ = false

-- GROUP BY status: a status without a row is not in the dict.
unfoldable pub notification_counts : Db → NotificationStatus → Option ℕ
notification_counts db status =
    let n = count (λ row. status_eq row.status status) db.notifications in
    if eqb n 0 then none else some n

-- NULL sorts first.
unfoldable pub dead_notifications : Db → ℕ → List NotificationRow
dead_notifications db limit = take limit (
    sort_by (λ (row : NotificationRow). or_else row.next_attempt_at 0)
      (filter (λ (row : NotificationRow). status_eq row.status NotificationStatus.dead)
        db.notifications))

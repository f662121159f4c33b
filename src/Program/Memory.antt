-- ===== src/Program/Memory.antt =====
-- What the database never forgets: the log of events and the ledger.
use costanza.Prelude.{
  String, ◌≡◌, refl, ◌∙◌, true, some, any, find?, find?-append_row, any-append_row,
  any-update_where, arith, ℕ, count, count-pos_of_any,
}
use costanza.Store.{Db, EventRow}
use costanza.Store.Events.{is_event}
use costanza.Store.Outbox.{prune_at}
use costanza.Store.Notifications.{is_for}
use costanza.Program.Writes.{
  Write, Writes, draw, add_raw, add_outbox, change_outbox, prune_raws, add_media, change_media,
  add_identity, change_identity, put_users, put_sources, add_event, add_chain, change_chain,
  add_notification, change_notification, move_cursors, add_switch, none_yet, then_one,
}
use costanza.Program.History.{Acts, Acts-Writes, Acts-trans, empty, Acts-IsWellFormed}

-- Every event and every pair of the ledger of `db` is in `s`.
pub record IsRemembered (db : Db) (s : Db) : Type 0 where
  pub events :
      (key : String) (row : EventRow)
      → find? (is_event key) db.events ≡ some row
      → find? (is_event key) s.events ≡ some row
  pub ledger :
      (key channel : String)
      → any (is_for key channel) db.notifications ≡ true
      → any (is_for key channel) s.notifications ≡ true

unchanged :
    (db s : Db) → s.events ≡ db.events → s.notifications ≡ db.notifications → IsRemembered db s
unchanged db s e n = record { events = λ key row h. rw e h; ledger = λ key channel h. rw n h }

Write-IsRemembered : {db s : Db} → Write db s → IsRemembered db s
unfolding prune_at
Write-IsRemembered {db} {s} (draw n) = unchanged db s refl refl
Write-IsRemembered {db} {s} (add_raw row fresh) = unchanged db s refl refl
Write-IsRemembered {db} {s} (add_outbox row fresh known) = unchanged db s refl refl
Write-IsRemembered {db} {s} (change_outbox id f h k) = unchanged db s refl refl
Write-IsRemembered {db} {s} (prune_raws cutoff) = unchanged db s refl refl
Write-IsRemembered {db} {s} (add_media row fresh) = unchanged db s refl refl
Write-IsRemembered {db} {s} (change_media id f h) = unchanged db s refl refl
Write-IsRemembered {db} {s} (add_identity row fresh) = unchanged db s refl refl
Write-IsRemembered {db} {s} (change_identity p x f h k) = unchanged db s refl refl
Write-IsRemembered {db} {s} (put_users rows) = unchanged db s refl refl
Write-IsRemembered {db} {s} (put_sources rows h) = unchanged db s refl refl
Write-IsRemembered {db} (add_event row fresh known) = record {
  events = λ key r h. rw (find?-append_row (is_event key) db.events row, h);
  ledger = λ key channel h. h;
}
Write-IsRemembered {db} {s} (add_chain row fresh free) = unchanged db s refl refl
Write-IsRemembered {db} {s} (change_chain id f h k) = unchanged db s refl refl
Write-IsRemembered {db} (add_notification row fresh free) = record {
  events = λ key r h. h;
  ledger = λ key channel h. rw (any-append_row (is_for key channel) db.notifications row, h);
}
Write-IsRemembered {db} (change_notification id f same_id same_key same_channel) = record {
  events = λ key r h. h;
  ledger = λ key channel h.
      any-update_where (is_for key channel) _ f db.notifications
        (λ x. rw (same_key x, same_channel x))
      ∙ h;
}
Write-IsRemembered {db} {s} (move_cursors rows) = unchanged db s refl refl
Write-IsRemembered {db} {s} (add_switch row) = unchanged db s refl refl

Writes-IsRemembered : {db s : Db} → Writes db s → IsRemembered db s
Writes-IsRemembered {db} none_yet = unchanged db db refl refl
Writes-IsRemembered (then_one ws last) =
    let before = Writes-IsRemembered ws in
    let after = Write-IsRemembered last in
    record {
      events = λ key row h. after.events key row (before.events key row h);
      ledger = λ key channel h. after.ledger key channel (before.ledger key channel h);
    }

-- The log of events is append-only: whatever the parts of the program do, in any number and order and
-- with any outside input, the row that an event key finds stays the row that it finds.
pub Acts_immutable :
    (db s : Db)
    → Acts db s
    → (key : String) (row : EventRow) → find? (is_event key) db.events ≡ some row
    → find? (is_event key) s.events ≡ some row
Acts_immutable db s acts key row h = (Writes-IsRemembered (Acts-Writes acts)).events key row h

-- Once a history that began with an empty database has queued a message for an event key and a
-- channel, the ledger has exactly one row for the two, whatever the parts of the program do from then
-- on.
pub Acts_once :
    (ids : ℕ → String) (db s : Db)
    → Acts (empty ids) db
    → Acts db s
    → (key channel : String) → any (is_for key channel) db.notifications ≡ true
    → count (is_for key channel) s.notifications ≡ 1
Acts_once ids db s before after key channel queued =
    let still = (Writes-IsRemembered (Acts-Writes after)).ledger key channel queued in
    let few = (Acts-IsWellFormed ids s (Acts-trans before after)).ledger.keys key channel in
    ground (arith, count-pos_of_any (is_for key channel) s.notifications still)

-- ===== src/Jobs/Digest.antt =====
-- src/costanza/jobs/digest.py: when a digest is enqueued and for which window. `isoformat` writes a
-- time; the contents of a digest are not modelled.
pub mod Windows
pub mod Content
use costanza.Prelude.{
  ℕ, ◌-◌, String, Bool, true, false, Option, none, some, List, [], ◌∷◌, ◌==◌, ltb, if◌then◌else◌,
  format, or_else,
}
use costanza.Schemas.{Time, days, hours}
use costanza.Config.{RoutingConfig}
use costanza.Store.{Db}
use costanza.Store.Control.{get_cursor, set_cursor}
use costanza.Store.Notifications.{enqueue_notification}
use costanza.Notify.Limits.{engaged}

abbrev pub cursor_job : String
cursor_job = "digest"

abbrev pub default_period : Time
default_period = days 7

abbrev pub min_period : Time
min_period = hours 1

-- cursor.get(k)
abbrev pub lookup : String → List (String × Time) → Option Time
lookup k [] = none
lookup k ((j, t) ∷ cursor) = if j == k then some t else lookup k cursor

-- The time is later than the default period.
unfoldable pub period : Db → Time → Time × Time
period db now = (
  or_else (lookup "period_end_at" (or_else (get_cursor db cursor_job) [])) (now - default_period),
  now,
)

unfoldable pub digest_key : (Time → String) → Time → Time → String
digest_key isoformat since until = format ("digest:" ∷ isoformat since ∷ "|" ∷ isoformat until ∷ [])

abbrev pub window_cursor : Time → Time → List (String × Time)
window_cursor since until = ("period_start_at", since) ∷ ("period_end_at", until) ∷ []

-- The cursor moves only with a row that is new.
abbrev pub settle_digest : Time → Time → Bool × Db → Bool × Db
settle_digest since now (true, db) = (true, set_cursor cursor_job (window_cursor since now) db)
settle_digest since now (false, db) = (false, db)

unfoldable pub enqueue_digest : (Time → String) → String → Time → Time → Db → Bool × Db
unfolding digest_key
enqueue_digest isoformat channel since now db =
    settle_digest since now
      (enqueue_notification (digest_key isoformat since now) channel "digest" now db)

-- A window that is at least `min_period` long, by whether the kill switch is engaged.
unfoldable pub close_window : (Time → String) → String → Bool → Time → Time → Db → Bool × Db
unfolding enqueue_digest
close_window isoformat channel true since now db =
    (false, set_cursor cursor_job (window_cursor since now) db)
close_window isoformat channel false since now db = enqueue_digest isoformat channel since now db

unfoldable pub digest_to : (Time → String) → Bool → String → Time → Db → Bool × Db
unfolding close_window period
digest_to isoformat env_override channel now db =
    let since = (period db now).0 in
    if ltb (now - since) min_period
    then (false, db)
    else close_window isoformat channel (engaged env_override db) since now db

-- No channel, or an empty one: nothing is done.
abbrev pub digest_for : (Time → String) → Option String → Bool → Time → Db → Bool × Db
digest_for isoformat none env_override now db = (false, db)
digest_for isoformat (some channel) env_override now db =
    if channel == "" then (false, db) else digest_to isoformat env_override channel now db

-- `true` if a row was created.
unfoldable pub run_digest : (Time → String) → RoutingConfig → Bool → Time → Db → Bool × Db
unfolding digest_to
run_digest isoformat routing env_override now db =
    digest_for isoformat routing.digest_channel env_override now db

-- ===== src/Outbox.antt =====
-- src/costanza/outbox.py: the ingest work queue. `process` is the callable that the caller injects;
-- it may change any table, also before it raises.
pub mod Settled
use costanza.Prelude.{
  ℕ, suc, ◌+◌, ◌*◌, ◌^◌, min, String, Bool, Option, none, some, List, [], ◌∷◌, length, leb,
  if◌then◌else◌,
}
use costanza.Result.{Result, ok, raised, describe, Exec}
use costanza.Schemas.{Time, seconds}
use costanza.Store.{Db, RawEvent, OutboxRow}
use costanza.Store.Outbox.{get_raw, claim_outbox_due, outbox_done, outbox_retry, outbox_dead}

abbrev pub cap_seconds : Time
cap_seconds = seconds 3600

-- The base is in microseconds. Python raises an OverflowError from attempt 1024 on, far above the
-- attempts after which a row is dead (5 and 8 by default).
unfoldable pub backoff : Time → ℕ → Time
backoff base attempts = min (base * 2 ^ attempts) cap_seconds

pub record Policy : Type 0 where
  pub max_attempts : ℕ
  pub backoff_base : Time

-- What follows `process`: done, dead-lettered or rescheduled. `row` is the row as it was claimed.
unfoldable pub settle : Policy → Time → OutboxRow → Result (Unit {0}) × Db → Db
settle policy now row (ok _, db) = outbox_done row.id db
settle policy now row (raised exc, db) =
    if leb policy.max_attempts (row.attempts + 1)
    then outbox_dead row.id (describe exc) db
    else outbox_retry row.id (describe exc) (now + backoff policy.backoff_base row.attempts) db

module _ (process : RawEvent → Exec Db (Unit {0})) (policy : Policy) (now : Time) where
  unfoldable pub handle_raw : OutboxRow → Option RawEvent → Db → Db
  unfolding settle
  handle_raw row none db = outbox_dead row.id "raw_event_missing" db
  handle_raw row (some raw) db = settle policy now row (process raw db)

  -- One round of the loop.
  unfoldable pub handle_row : OutboxRow → Db → Db
  unfolding handle_raw
  handle_row row db = handle_raw row (get_raw db row.raw_event_id) db

  unfoldable pub handle_rows : List OutboxRow → Db → Db
  unfolding handle_row
  handle_rows [] db = db
  handle_rows (row ∷ rows) db = handle_rows rows (handle_row row db)

  -- Returns the number of rows handled.
  unfoldable pub process_outbox_once : ℕ → Db → ℕ × Db
  unfolding handle_rows
  process_outbox_once limit db =
      let rows = claim_outbox_due limit now db in (length rows, handle_rows rows db)

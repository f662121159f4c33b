-- ===== src/Store/Outbox.antt =====
-- src/costanza/store/db.py, "raw events + ingest outbox".
pub mod Prune
use costanza.Prelude.{
  ℕ, suc, ◌-◌, ◌*◌, ◌+◌, String, Bool, true, false, not, ◌&&◌, ◌||◌, Option, none, some, List, [],
  ◌∷◌, ◌++◌, any, find?, filter, count, update_where, sort_by, take, or_else, ◌==◌, leb, ltb, eqb,
  if◌then◌else◌, map,
}
use costanza.Result.{Result, ok, raised, Exec, integrity_error, ◌>>=◌}
use costanza.Schemas.{Time, days}
use costanza.Store.{Db, SourceRow, RawEvent, OutboxRow, OutboxState, new_id}

abbrev pub is_raw : String → RawEvent → Bool
is_raw id row = row.id == id

abbrev pub is_outbox : String → OutboxRow → Bool
is_outbox id row = row.id == id

abbrev pub raw_row : String → ℕ → String → String → Time → RawEvent
raw_row id source_id headers_subset body received_at = record {
  id = id;
  source_id = source_id;
  received_at = received_at;
  headers_subset = headers_subset;
  body_json = body;
}

insert_raw : RawEvent → Exec Db String
insert_raw row db =
    if any (is_raw row.id) db.raw_events || not (any (λ s. eqb s.id row.source_id) db.sources)
    then (raised integrity_error, db)
    else (ok row.id, record db { raw_events = db.raw_events ++ row ∷ [] })

unfoldable pub archive_raw : ℕ → String → String → Time → Exec Db String
unfolding insert_raw new_id
archive_raw source_id headers_subset body received_at = do
  raw_id ← new_id
  insert_raw (raw_row raw_id source_id headers_subset body received_at)

unfoldable pub get_raw : Db → String → Option RawEvent
get_raw db raw_id = find? (is_raw raw_id) db.raw_events

abbrev pub queue_row : String → String → Bool → Option String → Time → OutboxRow
queue_row id raw_event_id dead error now = record {
  id = id;
  raw_event_id = raw_event_id;
  state = if dead then OutboxState.dead else OutboxState.pending;
  attempts = 0;
  next_attempt_at = if dead then none else some now;
  last_error = error;
}

insert_outbox : OutboxRow → Exec Db String
insert_outbox row db =
    if any (is_outbox row.id) db.outbox || not (any (is_raw row.raw_event_id) db.raw_events)
    then (raised integrity_error, db)
    else (ok row.id, record db { outbox = db.outbox ++ row ∷ [] })

unfoldable pub enqueue_outbox : String → Bool → Option String → Time → Exec Db String
unfolding insert_outbox new_id
enqueue_outbox raw_event_id dead error now = do
  outbox_id ← new_id
  insert_outbox (queue_row outbox_id raw_event_id dead error now)

abbrev pub is_pending : OutboxState → Bool
is_pending OutboxState.pending = true
is_pending OutboxState.done = false
is_pending OutboxState.dead = false

abbrev pub is_done : OutboxState → Bool
is_done OutboxState.pending = false
is_done OutboxState.done = true
is_done OutboxState.dead = false

abbrev pub is_dead : OutboxState → Bool
is_dead OutboxState.pending = false
is_dead OutboxState.done = false
is_dead OutboxState.dead = true

-- `next_attempt_at <= ?`, which NULL does not satisfy.
abbrev pub is_due_at : Time → Option Time → Bool
is_due_at now none = false
is_due_at now (some t) = leb t now

abbrev pub outbox_due : Time → OutboxRow → Bool
outbox_due now row = is_pending row.state && is_due_at now row.next_attempt_at

unfoldable pub claim_outbox_due : ℕ → Time → Db → List OutboxRow
claim_outbox_due limit now db =
    take limit (sort_by (λ row. or_else row.next_attempt_at 0) (filter (outbox_due now) db.outbox))

abbrev pub set_done : OutboxRow → OutboxRow
set_done row = record row { state = OutboxState.done; last_error = none }

abbrev pub set_retry : String → Time → OutboxRow → OutboxRow
set_retry error next_attempt_at row = record row {
  attempts = suc row.attempts;
  last_error = some error;
  next_attempt_at = some next_attempt_at;
}

abbrev pub set_dead : String → OutboxRow → OutboxRow
set_dead error row = record row {
  state = OutboxState.dead;
  attempts = suc row.attempts;
  last_error = some error;
}

unfoldable pub outbox_done : String → Db → Db
outbox_done outbox_id db = record db {
  outbox = update_where (is_outbox outbox_id) set_done db.outbox;
}

unfoldable pub outbox_retry : String → String → Time → Db → Db
outbox_retry outbox_id error next_attempt_at db = record db {
  outbox = update_where (is_outbox outbox_id) (set_retry error next_attempt_at) db.outbox;
}

unfoldable pub outbox_dead : String → String → Db → Db
outbox_dead outbox_id error db = record db {
  outbox = update_where (is_outbox outbox_id) (set_dead error) db.outbox;
}

unfoldable pub outbox_backlog : Db → ℕ
outbox_backlog db = count (λ row. is_pending row.state) db.outbox

unfoldable pub outbox_dead_count : Db → ℕ
outbox_dead_count db = count (λ row. is_dead row.state) db.outbox

abbrev pub redacted_body : String
redacted_body = "{\"redacted\": \"raw payload removed after retention period\"}"

abbrev pub is_expired : Time → RawEvent → Bool
is_expired cutoff raw = ltb raw.received_at cutoff

abbrev pub prunable_outbox : Time → List RawEvent → OutboxRow → Bool
prunable_outbox cutoff raws row =
    is_done row.state && any (is_raw row.raw_event_id) (filter (is_expired cutoff) raws)

abbrev pub prunable_raw : Time → List OutboxRow → RawEvent → Bool
prunable_raw cutoff rows raw =
    is_expired cutoff raw && not (any (λ row. row.raw_event_id == raw.id) rows)

abbrev pub redactable : Time → RawEvent → Bool
redactable cutoff raw = is_expired cutoff raw && not (raw.body_json == redacted_body)

abbrev pub redact : RawEvent → RawEvent
redact raw = record raw { body_json = redacted_body; headers_subset = "{}" }

-- The three statements, in order, at a given cutoff.
unfoldable pub prune_at : Time → Db → (ℕ × ℕ × ℕ) × Db
prune_at cutoff db =
    let doomed = prunable_outbox cutoff db.raw_events in
    let rows = filter (λ row. not (doomed row)) db.outbox in
    let unused = prunable_raw cutoff rows in
    let raws = filter (λ raw. not (unused raw)) db.raw_events in
    (
      (count unused db.raw_events, count doomed db.outbox, count (redactable cutoff) raws),
      record db { outbox = rows; raw_events = update_where (redactable cutoff) redact raws },
    )

-- Returns (pruned, done, redacted).
unfoldable pub prune : ℕ → Time → Db → (ℕ × ℕ × ℕ) × Db
unfolding prune_at
prune retention_days now db = prune_at (now - days retention_days) db

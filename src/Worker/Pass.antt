-- ===== src/Worker/Pass.antt =====
-- One pass of the queue of src/costanza/outbox.py with the callable of src/costanza/worker.py.
use costanza.Prelude.{
  ℕ, ◌+◌, ◌≤◌, String, ◌≡◌, Bool, Option, none, some, List, [], ◌∷◌, count, find?, leb, Bool-cases,
  inl, inr,
}
use costanza.Json.{Json}
use costanza.Result.{Result, ok, raised, describe, Exec}
use costanza.Stdlib.{Stdlib}
use costanza.Schemas.{Time, RenderedMessage}
use costanza.Config.{RoutingConfig}
use costanza.Store.{Db, RawEvent, OutboxRow, EventRow}
use costanza.Store.Events.{is_event}
use costanza.Store.Outbox.{
  is_outbox, get_raw, outbox_done, outbox_retry, outbox_dead, claim_outbox_due,
}
use costanza.Outbox.{
  Policy, backoff, settle, handle_raw, handle_row, handle_rows, process_outbox_once,
}
use costanza.Outbox.Settled.{Outcome, process_outbox_once-Outcome}
use costanza.Worker.{Normalize, process}
use costanza.Worker.Processor.{process_leaves_queue, process_immutable}

-- What the callable keeps, and the updates of the queue keep, a pass keeps.
module _ {κ} (P : Db → Type κ) (callable : RawEvent → Exec Db (Unit {0})) (policy : Policy)
    (now : Time) (kept : (raw : RawEvent) (s : Db) → P s → P (callable raw s).1)
    (finished : (id : String) (s : Db) → P s → P (outbox_done id s))
    (retried : (id error : String) (at : Time) (s : Db) → P s → P (outbox_retry id error at s))
    (died : (id error : String) (s : Db) → P s → P (outbox_dead id error s)) where
  settle_keeps :
      (row : OutboxRow) (r : Result (Unit {0})) (s : Db) → P s → P (settle policy now row (r, s))
  unfolding settle
  settle_keeps row (ok u) s h = finished row.id s h
  settle_keeps row (raised exc) s h =
      elim (Bool-cases (leb policy.max_attempts (row.attempts + 1))) [
        | inl e ↦ rw e (died row.id (describe exc) s h)
        | inr e ↦
            rw e
              (retried row.id (describe exc) (now + backoff policy.backoff_base row.attempts) s h)
      ]

  handle_raw_keeps :
      (row : OutboxRow) (raw : Option RawEvent) (s : Db)
      → P s
      → P (handle_raw callable policy now row raw s)
  unfolding handle_raw
  handle_raw_keeps row none s h = died row.id "raw_event_missing" s h
  handle_raw_keeps row (some raw) s h =
      settle_keeps row (callable raw s).0 (callable raw s).1 (kept raw s h)

  handle_rows_keeps :
      (rows : List OutboxRow) (s : Db) → P s → P (handle_rows callable policy now rows s)
  unfolding handle_rows handle_row
  handle_rows_keeps [] s h = h
  handle_rows_keeps (row ∷ rows) s h =
      handle_rows_keeps rows _ (handle_raw_keeps row (get_raw s row.raw_event_id) s h)

  pub pass_keeps :
      (limit : ℕ) (s : Db) → P s → P (process_outbox_once callable policy now limit s).1
  unfolding process_outbox_once
  pass_keeps limit s h = handle_rows_keeps (claim_outbox_due limit now s) s h

module _ (lib : Stdlib) (hash : RenderedMessage → String) (loads : String → Result Json)
    (normalize : Normalize) (routing : RoutingConfig) (env_override : Bool) (policy : Policy)
    (now : Time) (limit : ℕ) (db : Db) where
  abbrev pub processor : RawEvent → Exec Db (Unit {0})
  processor = process lib hash loads normalize routing env_override now

  abbrev pub passed : Db
  passed = (process_outbox_once processor policy now limit db).1

  -- A pass of the worker keeps every stored event as it is, whatever the payloads are.
  pass_immutable :
      (key : String) (row : EventRow)
      → find? (is_event key) db.events ≡ some row
      → find? (is_event key) passed.events ≡ some row
  unfolding outbox_done outbox_retry outbox_dead
  pass_immutable key row found =
      pass_keeps (λ (s : Db). find? (is_event key) s.events ≡ some row) processor policy now
        (λ raw s h.
          process_immutable lib hash loads normalize routing env_override now key row raw s h)
        (λ id s h. h) (λ id error at s h. h) (λ id error s h. h) limit db found

  -- A pass of the worker over a queue whose ids are unique handles each claimed row exactly once and
  -- no other row, as the queue promises of a callable that leaves the queue alone, which the
  -- worker's callable does.
  pub pass-Outcome :
      (r : OutboxRow)
      → find? (is_outbox r.id) db.outbox ≡ some r
      → count (is_outbox r.id) db.outbox ≤ 1
      → Outcome processor policy now
          (process_leaves_queue lib hash loads normalize routing env_override now)
          r
          (claim_outbox_due limit now db)
          db
          passed
  pass-Outcome r at unique =
      process_outbox_once-Outcome processor policy now
        (process_leaves_queue lib hash loads normalize routing env_override now) limit db r at
        unique

-- ===== src/Outbox/Settled.antt =====
-- What one pass of src/costanza/outbox.py does to each row of the queue.
use native.Mathlib.Nat.{pow-suc}
use costanza.Prelude.{
  ℕ, suc, ◌+◌, ◌≤◌, ◌<◌, String, ◌≡◌, refl, ap, ◌∙◌, true, false, Option, none, some, List, [], ◌∷◌,
  ◌++◌, arith, leb, ◌==◌, ◌⊎◌, inl, inr, Bool-cases, find?, count, find?-update_ne,
  find?-update_self, eq_iff, or_else, Only, query-Only, count-query-le, leb→le,
}
use costanza.Result.{Exception, Result, ok, raised, describe, Exec}
use costanza.Schemas.{Time}
use costanza.Store.{Db, RawEvent, OutboxRow}
use costanza.Store.Outbox.{
  is_outbox, outbox_due, get_raw, claim_outbox_due, outbox_done, outbox_retry, outbox_dead,
  set_done, set_retry, set_dead,
}
use costanza.Outbox.{
  Policy, backoff, cap_seconds, settle, handle_raw, handle_row, handle_rows, process_outbox_once,
}

-- The wait of a retry does not fall from one attempt to the next, and never exceeds an hour.
pub backoff_bounds :
    (base : Time) (attempts : ℕ)
    → (backoff base attempts ≤ backoff base (suc attempts))
      × (backoff base (suc attempts) ≤ cap_seconds)
unfolding backoff
backoff_bounds base attempts = (grind (arith, pow-suc), omega arith)

abbrev pub row_at : String → Db → Option OutboxRow
row_at i db = find? (is_outbox i) db.outbox

-- Two different ids are of different rows.
ids_apart :
    (i j : String) (row : OutboxRow)
    → (j == i) ≡ false
    → is_outbox i row ≡ true
    → is_outbox j row ≡ false
ids_apart i j row h t = ground (arith, eq_iff row.id i, eq_iff row.id j, eq_iff j i)

settle_ne :
    (policy : Policy) (now : Time) (i : String) (row : OutboxRow) (result : Result (Unit {0}))
    (db : Db)
    → (row.id == i) ≡ false
    → row_at i (settle policy now row (result, db)) ≡ row_at i db
unfolding settle outbox_done outbox_retry outbox_dead
settle_ne policy now i row (ok u) db h =
    find?-update_ne _ _ _ db.outbox (λ x. refl) (λ x. ids_apart i row.id x h)
settle_ne policy now i row (raised exc) db h =
    elim (Bool-cases (leb policy.max_attempts (row.attempts + 1))) [
      | inl e ↦ rw e (find?-update_ne _ _ _ db.outbox (λ x. refl) (λ x. ids_apart i row.id x h))
      | inr e ↦ rw e (find?-update_ne _ _ _ db.outbox (λ x. refl) (λ x. ids_apart i row.id x h))
    ]

module _ (process : RawEvent → Exec Db (Unit {0})) (policy : Policy) (now : Time) where
  -- How a row `r` that is handled in the state `s` stands afterwards.
  pub data Settled (s : Db) (r : OutboxRow) (r' : OutboxRow) : Type 0 where
    missing : get_raw s r.raw_event_id ≡ none → r' ≡ set_dead "raw_event_missing" r → Settled s r r'
    returned :
        (raw : RawEvent)
        → get_raw s r.raw_event_id ≡ some raw
        → (process raw s).0 ≡ ok tt
        → r' ≡ set_done r
        → Settled s r r'
    exhausted :
        (raw : RawEvent) (exc : Exception)
        → get_raw s r.raw_event_id ≡ some raw
        → (process raw s).0 ≡ raised exc
        → policy.max_attempts ≤ r.attempts + 1
        → r' ≡ set_dead (describe exc) r
        → Settled s r r'
    retried :
        (raw : RawEvent) (exc : Exception)
        → get_raw s r.raw_event_id ≡ some raw
        → (process raw s).0 ≡ raised exc
        → r.attempts + 1 < policy.max_attempts
        → r' ≡ set_retry (describe exc) (now + backoff policy.backoff_base r.attempts) r
        → Settled s r r'

  -- The callable leaves the queue itself alone.
  abbrev pub LeavesQueue : Type 0
  LeavesQueue = (raw : RawEvent) (s : Db) → (process raw s).1.outbox ≡ s.outbox

  module _ (leaves : LeavesQueue) where
    handle_raw_ne :
        (i : String) (row : OutboxRow) (raw : Option RawEvent) (db : Db)
        → (row.id == i) ≡ false
        → row_at i (handle_raw process policy now row raw db) ≡ row_at i db
    unfolding handle_raw outbox_dead
    handle_raw_ne i row none db h =
        find?-update_ne _ _ _ db.outbox (λ x. refl) (λ x. ids_apart i row.id x h)
    handle_raw_ne i row (some raw) db h =
        settle_ne policy now i row (process raw db).0 (process raw db).1 h
        ∙ ap (find? (is_outbox i)) (leaves raw db)

    -- The rows of a pass that are not the row `i` leave it as it is.
    handle_rows_ne :
        (i : String) (rows : List OutboxRow) (db : Db)
        → count (is_outbox i) rows ≡ 0
        → row_at i (handle_rows process policy now rows db) ≡ row_at i db
    unfolding handle_rows handle_row count
    handle_rows_ne i [] db h = refl
    handle_rows_ne i (row ∷ rows) db h =
        handle_rows_ne i rows (handle_raw process policy now row (get_raw db row.raw_event_id) db)
          (ground arith)
        ∙ handle_raw_ne i row (get_raw db row.raw_event_id) db (ground arith)

    -- What is left of the row `r` once it was handled.
    abbrev Handled : Db → OutboxRow → Db → Type 0
    Handled s r db = (r' : OutboxRow) × (row_at r.id db ≡ some r') × Settled s r r'

    settle_self :
        (r : OutboxRow) (raw : RawEvent) (s : Db) (result : Result (Unit {0})) (db : Db)
        → get_raw s r.raw_event_id ≡ some raw
        → (process raw s).0 ≡ result
        → row_at r.id db ≡ some r
        → Handled s r (settle policy now r (result, db))
    unfolding settle outbox_done outbox_retry outbox_dead
    settle_self r raw s (ok u) db found ran at = (
      set_done r,
      find?-update_self _ _ db.outbox r (λ x. refl) at,
      Settled.returned raw found ran refl,
    )
    settle_self r raw s (raised exc) db found ran at =
        elim (Bool-cases (leb policy.max_attempts (r.attempts + 1))) [
          | inl e ↦ rw e (
            set_dead (describe exc) r,
            find?-update_self _ _ db.outbox r (λ x. refl) at,
            Settled.exhausted raw exc found ran (leb→le _ _ e) refl,
          )
          | inr e ↦ rw e (
            set_retry (describe exc) (now + backoff policy.backoff_base r.attempts) r,
            find?-update_self _ _ db.outbox r (λ x. refl) at,
            Settled.retried raw exc found ran (ground arith) refl,
          )
        ]

    handle_raw_self :
        (r : OutboxRow) (raw : Option RawEvent) (db : Db)
        → get_raw db r.raw_event_id ≡ raw
        → row_at r.id db ≡ some r
        → Handled db r (handle_raw process policy now r raw db)
    unfolding handle_raw outbox_dead
    handle_raw_self r none db found at = (
      set_dead "raw_event_missing" r,
      find?-update_self _ _ db.outbox r (λ x. refl) at,
      Settled.missing found refl,
    )
    handle_raw_self r (some raw) db found at =
        settle_self r raw db (process raw db).0 (process raw db).1 found refl
          (ap (find? (is_outbox r.id)) (leaves raw db) ∙ at)

    -- Of a pass over `rows` from `db` to `last`: a row that is not among them is unchanged, and one
    -- that is was handled in the state that the rows before it left.
    abbrev pub Outcome : OutboxRow → List OutboxRow → Db → Db → Type 0
    Outcome r rows db last =
        (r' : OutboxRow) × (row_at r.id last ≡ some r')
        × (((r' ≡ r) × (count (is_outbox r.id) rows ≡ 0))
            ⊎ ((before : List OutboxRow) × (after : List OutboxRow) × (rows ≡ before ++ r ∷ after)
                × Settled (handle_rows process policy now before db) r r'))

    behind :
        (r row : OutboxRow) (rows : List OutboxRow) (db last : Db)
        → (row.id == r.id) ≡ false
        → Outcome r rows (handle_raw process policy now row (get_raw db row.raw_event_id) db) last
        → Outcome r (row ∷ rows) db last
    unfolding handle_rows handle_row count
    behind r row rows db last other (r', at, inl (same, none_here)) =
        (r', at, inl (same, ground arith))
    behind r row rows db last other (r', at, inr (before, after, split, settled)) =
        (r', at, inr (row ∷ before, after, ap (λ xs. row ∷ xs) split, settled))

    handle_rows-Outcome :
        (r : OutboxRow) (rows : List OutboxRow) (db : Db)
        → Only (is_outbox r.id) r rows
        → count (is_outbox r.id) rows ≤ 1
        → row_at r.id db ≡ some r
        → Outcome r rows db (handle_rows process policy now rows db)
    unfolding handle_rows handle_row count
    handle_rows-Outcome r [] db only once at = (r, at, inl (refl, refl))
    handle_rows-Outcome r (row ∷ rows) db only once at = elim (Bool-cases (row.id == r.id)) [
      | inl e ↦
          let same : row ≡ r = only.0 e in
          let next : Db = handle_raw process policy now r (get_raw db r.raw_event_id) db in
          let (r', at', settled) = handle_raw_self r (get_raw db r.raw_event_id) db refl at in
          rw same
            (r', handle_rows_ne r.id rows next (ground arith) ∙ at', inr ([], rows, refl, settled))
      | inr e ↦
          let next : Db = handle_raw process policy now row (get_raw db row.raw_event_id) db in
          behind r row rows db (handle_rows process policy now rows next) e (
            handle_rows-Outcome r rows next only.1 (ground arith)
              (handle_raw_ne r.id row (get_raw db row.raw_event_id) db e ∙ at))
    ]

    -- A pass over a queue whose ids are unique handles each claimed row exactly once and no other
    -- row: a row that was not claimed is unchanged, and a claimed row is, by the state that the rows
    -- before it left, dead since its raw event is missing, done since `process` returned, or, since
    -- `process` raised, dead with its attempts used up or rescheduled by the backoff with one more
    -- attempt below the maximum. This needs that `process` leaves the queue alone.
    pub process_outbox_once-Outcome :
        (limit : ℕ) (db : Db) (r : OutboxRow)
        → row_at r.id db ≡ some r
        → count (is_outbox r.id) db.outbox ≤ 1
        → Outcome r
            (claim_outbox_due limit now db)
            db
            (process_outbox_once process policy now limit db).1
    unfolding process_outbox_once claim_outbox_due
    process_outbox_once-Outcome limit db r at unique =
        handle_rows-Outcome r _ db (query-Only _ r limit _ (outbox_due now) db.outbox at unique)
          (omega (
            arith,
            count-query-le (is_outbox r.id) limit
                (λ (row : OutboxRow). or_else row.next_attempt_at 0) (outbox_due now) db.outbox,
          ))
          at

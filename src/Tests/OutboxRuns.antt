-- ===== src/Tests/OutboxRuns.antt =====
-- Tests of the ingest queue and of the pruning of raw payloads.
use costanza.Prelude.{
  ◌≤◌, ◌+◌, ◌≡◌, refl, true, some, [], ◌∷◌, arith, find?, count, any, All, filter, sort_by,
  update_where,
}
use costanza.Result.{raised, Exec, describe}
use costanza.Config.{value_error}
use costanza.Schemas.{seconds}
use costanza.Store.{Db, RawEvent}
use costanza.Store.Outbox.{is_outbox, is_raw, claim_outbox_due, set_retry, get_raw, outbox_retry}
use costanza.Outbox.{process_outbox_once, backoff, cap_seconds}
use costanza.Outbox.Settled.{Outcome, process_outbox_once-Outcome, backoff_bounds}
use costanza.Store.Outbox.Prune.{
  pruned, prune_at-IsClean, prune_at-undone, prune_at-fresh, prune_at-references, IsClean,
}
use costanza.Tests.Samples.{db, old_raw, queued, policy}

-- A callable that refuses every payload.
abbrev refuse : RawEvent → Exec Db (Unit {0})
refuse raw s = (raised (value_error "bad payload"), s)

process_outbox_once-Outcome_example :
    Outcome refuse policy 200
      (λ raw s. refl)
      queued
      (claim_outbox_due 20 200 db)
      db
      (process_outbox_once refuse policy 200 20 db).1
unfolding find? count
process_outbox_once-Outcome_example =
    process_outbox_once-Outcome refuse policy 200 (λ raw s. refl) 20 db queued refl (omega arith)

-- The first failure is retried two seconds later.
first_failure :
    (process_outbox_once refuse policy 200 20 db).1.outbox
    ≡ set_retry "ValueError: bad payload" (200 + seconds 2) queued ∷ []
unfolding process_outbox_once claim_outbox_due sort_by filter get_raw find? outbox_retry
    update_where backoff describe
first_failure = refl

backoff_bounds_example : (backoff 5 10 ≤ backoff 5 11) × (backoff 5 11 ≤ cap_seconds)
backoff_bounds_example = backoff_bounds 5 10

prune_at-IsClean_example : All (IsClean 150 db) (pruned 150 db).raw_events
prune_at-IsClean_example = prune_at-IsClean 150 db

prune_at-undone_example : find? (is_outbox "out-1") (pruned 150 db).outbox ≡ some queued
unfolding find?
prune_at-undone_example = prune_at-undone 150 db "out-1" queued refl refl

prune_at-fresh_example : find? (is_raw "raw-1") (pruned 50 db).raw_events ≡ some old_raw
unfolding find?
prune_at-fresh_example = prune_at-fresh 50 db "raw-1" old_raw refl refl

prune_at-references_example :
    All
      (λ row. any (is_raw row.raw_event_id) (pruned 150 db).raw_events ≡ true)
      (pruned 150 db).outbox
unfolding any
prune_at-references_example = prune_at-references 150 db (refl, tt)

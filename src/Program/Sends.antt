-- ===== src/Program/Sends.antt =====
-- The sender of src/costanza/notify/pipeline.py as a sequence of writes.
use costanza.Prelude.{
  ℕ, ◌+◌, Bool, true, false, Option, none, some, List, [], ◌∷◌, Bool-cases, inl, inr, leb,
  if◌then◌else◌,
}
use costanza.Result.{Result, ok, raised, describe, continue-state}
use costanza.Stdlib.{Stdlib}
use costanza.Schemas.{Time, RenderedMessage}
use costanza.Store.{Db, NotificationRow}
use costanza.Store.Notifications.{claim_notifications_due, notification_defer}
use costanza.Notify.Limits.{engaged, allow}
use costanza.Notify.Pipeline.{
  World, Notifier, SpecialRenderers, settle_send, deliver, send_rendered, send_row, send_rows,
  defer_rows, send_claimed, send_due_once, render_row, defer,
}
use costanza.Outbox.{Policy, backoff}
use costanza.Program.Writes.{Writes, none_yet}
use costanza.Program.Steps.{
  notification_sent-Writes, notification_retry-Writes, notification_defer-Writes,
  notification_dead-Writes,
}

module _ {db : Db} (lib : Stdlib) (special : SpecialRenderers) (notifier : Notifier)
    (policy : Policy) where
  settle_send-Writes :
      (now : Time) (row : NotificationRow) (answer : Result (Unit {0})) (s : Db)
      → Writes db s
      → Writes db (settle_send policy now row answer s).1
  unfolding settle_send
  settle_send-Writes now row (ok u) s ws = notification_sent-Writes ws row.id now
  settle_send-Writes now row (raised exc) s ws =
      elim (Bool-cases (leb policy.max_attempts (row.attempts + 1))) [
        | inl e ↦ rw e (notification_dead-Writes ws row.id (describe exc))
        | inr e ↦ rw e (
            notification_retry-Writes ws row.id (describe exc)
              (now + backoff policy.backoff_base row.attempts))
      ]

  deliver-Writes :
      (now : Time) (row : NotificationRow) (message : RenderedMessage) (w : World)
      → Writes db w.db
      → Writes db (deliver lib special notifier policy now row message w).1.db
  unfolding deliver
  deliver-Writes now row message w ws = elim (Bool-cases (allow row.channel now w.limiter).0) [
    | inl e ↦ rw e (settle_send-Writes now row (notifier w.deliveries row.channel message) w.db ws)
    | inr e ↦ rw e (notification_defer-Writes ws row.id (now + defer))
  ]

  send_rendered-Writes :
      (now : Time) (row : NotificationRow) (message : Result (Option RenderedMessage)) (w : World)
      → Writes db w.db
      → Writes db (send_rendered lib special notifier policy now row message w).1.db
  unfolding send_rendered
  send_rendered-Writes now row (raised exc) w ws = ws
  send_rendered-Writes now row (ok none) w ws = notification_dead-Writes ws row.id "event_missing"
  send_rendered-Writes now row (ok (some message)) w ws = deliver-Writes now row message w ws

  send_rows-Writes :
      (now : Time) (rows : List NotificationRow) (sent : ℕ) (w : World)
      → Writes db w.db
      → Writes db (send_rows lib special notifier policy now rows sent w).1.db
  unfolding send_rows send_row
  send_rows-Writes now [] sent w ws = ws
  send_rows-Writes now (row ∷ rows) sent w ws =
      continue-state {A = Bool} {B = ℕ} (λ (u : World). Writes db u.db)
        (λ (u : World). Writes db u.db)
        (λ done. send_rows lib special notifier policy now rows (if done then sent + 1 else sent))
        (send_row lib special notifier policy now row w)
        (send_rendered-Writes now row (render_row lib special w.db row) w ws) (λ u k. k)
        (λ done u k. send_rows-Writes now rows (if done then sent + 1 else sent) u k)

  defer_rows-Writes :
      (now : Time) (rows : List NotificationRow) (s : Db)
      → Writes db s
      → Writes db (defer_rows lib special notifier policy now rows s)
  unfolding defer_rows
  defer_rows-Writes now [] s ws = ws
  defer_rows-Writes now (row ∷ rows) s ws =
      defer_rows-Writes now rows (notification_defer row.id (now + defer) s)
        (notification_defer-Writes ws row.id (now + defer))

  send_claimed-Writes :
      (now : Time) (rows : List NotificationRow) (muted : Bool) (w : World)
      → Writes db w.db
      → Writes db (send_claimed lib special notifier policy now rows muted w).1.db
  unfolding send_claimed
  send_claimed-Writes now [] muted w ws = ws
  send_claimed-Writes now (row ∷ rows) true w ws = defer_rows-Writes now (row ∷ rows) w.db ws
  send_claimed-Writes now (row ∷ rows) false w ws = send_rows-Writes now (row ∷ rows) 0 w ws

-- A pass of the sender.
pub send_due_once-Writes :
    (lib : Stdlib) (special : SpecialRenderers) (notifier : Notifier) (policy : Policy)
    (env_override : Bool) (limit : ℕ) (now : Time) (w : World)
    → Writes w.db (send_due_once lib special notifier policy env_override limit now w).1.db
unfolding send_due_once
send_due_once-Writes lib special notifier policy env_override limit now w =
    send_claimed-Writes lib special notifier policy now (claim_notifications_due limit now w.db)
      (engaged env_override w.db) w none_yet

-- ===== src/Notify/Pipeline/Rounds.antt =====
-- What one round of the send pass of src/costanza/notify/pipeline.py does to each row of the ledger.
use costanza.Prelude.{
  ℕ, ◌+◌, ◌≤◌, ◌<◌, String, ◌≡◌, refl, ◌∙◌, Bool, true, false, Option, none, some, List, [], ◌∷◌,
  arith, leb, ◌==◌, ◌⊎◌, inl, inr, Bool-cases, find?, count, find?-update_ne, find?-update_self,
  eq_iff, leb→le, if◌then◌else◌,
}
use costanza.Result.{Exception, Result, ok, raised, describe, continue-state}
use costanza.Stdlib.{Stdlib}
use costanza.Schemas.{Time, RenderedMessage}
use costanza.Store.{Db, NotificationRow}
use costanza.Store.Notifications.{
  is_notification, notification_sent, notification_retry, notification_defer, notification_dead,
  set_sent, set_failed, set_deferred, set_dead,
}
use costanza.Outbox.{Policy, backoff}
use costanza.Notify.Limits.{allow}
use costanza.Notify.Pipeline.{
  World, Notifier, SpecialRenderers, defer, render_row, settle_send, deliver, send_rendered,
  send_row, send_rows,
}

abbrev pub row_at : String → Db → Option NotificationRow
row_at i db = find? (is_notification i) db.notifications

pub ids_apart :
    (i j : String) (row : NotificationRow)
    → (j == i) ≡ false
    → is_notification i row ≡ true
    → is_notification j row ≡ false
ids_apart i j row h t = ground (arith, eq_iff row.id i, eq_iff row.id j, eq_iff j i)

module _ (lib : Stdlib) (special : SpecialRenderers) (notifier : Notifier) (policy : Policy)
    (now : Time) where
  -- How a row `r` that is handled in the state `w` stands afterwards.
  pub data Handled (w : World) (r : NotificationRow) (r' : NotificationRow) : Type 0 where
    missing :
        render_row lib special w.db r ≡ ok none → r' ≡ set_dead "event_missing" r → Handled w r r'
    limited :
        (message : RenderedMessage)
        → render_row lib special w.db r ≡ ok (some message)
        → (allow r.channel now w.limiter).0 ≡ false
        → r' ≡ set_deferred (now + defer) r
        → Handled w r r'
    delivered :
        (message : RenderedMessage)
        → render_row lib special w.db r ≡ ok (some message)
        → (allow r.channel now w.limiter).0 ≡ true
        → notifier w.deliveries r.channel message ≡ ok tt
        → r' ≡ set_sent now r
        → Handled w r r'
    exhausted :
        (message : RenderedMessage) (exc : Exception)
        → render_row lib special w.db r ≡ ok (some message)
        → (allow r.channel now w.limiter).0 ≡ true
        → notifier w.deliveries r.channel message ≡ raised exc
        → policy.max_attempts ≤ r.attempts + 1
        → r' ≡ set_dead (describe exc) r
        → Handled w r r'
    retried :
        (message : RenderedMessage) (exc : Exception)
        → render_row lib special w.db r ≡ ok (some message)
        → (allow r.channel now w.limiter).0 ≡ true
        → notifier w.deliveries r.channel message ≡ raised exc
        → r.attempts + 1 < policy.max_attempts
        → r' ≡ set_failed (describe exc) (now + backoff policy.backoff_base r.attempts) r
        → Handled w r r'

  settle_send_ne :
      (i : String) (row : NotificationRow) (answer : Result (Unit {0})) (db : Db)
      → (row.id == i) ≡ false
      → row_at i (settle_send policy now row answer db).1 ≡ row_at i db
  unfolding settle_send notification_sent notification_dead notification_retry
  settle_send_ne i row (ok u) db h =
      find?-update_ne _ _ _ db.notifications (λ x. refl) (λ x. ids_apart i row.id x h)
  settle_send_ne i row (raised exc) db h =
      elim (Bool-cases (leb policy.max_attempts (row.attempts + 1))) [
        | inl e ↦
            rw e (find?-update_ne _ _ _ db.notifications (λ x. refl) (λ x. ids_apart i row.id x h))
        | inr e ↦
            rw e (find?-update_ne _ _ _ db.notifications (λ x. refl) (λ x. ids_apart i row.id x h))
      ]

  deliver_ne :
      (i : String) (row : NotificationRow) (message : RenderedMessage) (w : World)
      → (row.id == i) ≡ false
      → row_at i (deliver lib special notifier policy now row message w).1.db ≡ row_at i w.db
  unfolding deliver notification_defer
  deliver_ne i row message w h = elim (Bool-cases (allow row.channel now w.limiter).0) [
    | inl e ↦ rw e (settle_send_ne i row (notifier w.deliveries row.channel message) w.db h)
    | inr e ↦
        rw e (find?-update_ne _ _ _ w.db.notifications (λ x. refl) (λ x. ids_apart i row.id x h))
  ]

  pub send_rendered_ne :
      (i : String) (row : NotificationRow) (message : Result (Option RenderedMessage)) (w : World)
      → (row.id == i) ≡ false
      → row_at i (send_rendered lib special notifier policy now row message w).1.db ≡ row_at i w.db
  unfolding send_rendered notification_dead
  send_rendered_ne i row (raised exc) w h = refl
  send_rendered_ne i row (ok none) w h =
      find?-update_ne _ _ _ w.db.notifications (λ x. refl) (λ x. ids_apart i row.id x h)
  send_rendered_ne i row (ok (some message)) w h = deliver_ne i row message w h

  pub send_rows_ne :
      (i : String) (rows : List NotificationRow) (sent : ℕ) (w : World)
      → count (is_notification i) rows ≡ 0
      → row_at i (send_rows lib special notifier policy now rows sent w).1.db ≡ row_at i w.db
  unfolding send_rows send_row count
  send_rows_ne i [] sent w h = refl
  send_rows_ne i (row ∷ rows) sent w h =
      continue-state (λ (v : World). row_at i v.db ≡ row_at i w.db)
        (λ (v : World). row_at i v.db ≡ row_at i w.db)
        (λ done. send_rows lib special notifier policy now rows (if done then sent + 1 else sent))
        (send_rendered lib special notifier policy now row (render_row lib special w.db row) w)
        (send_rendered_ne i row (render_row lib special w.db row) w (ground arith)) (λ v at. at)
        (λ done v at. send_rows_ne i rows _ v (ground arith) ∙ at)

  -- What is left of the row `r` once it was handled in `w`.
  abbrev Now : NotificationRow → World → Db → Type 0
  Now r w db = (r' : NotificationRow) × (row_at r.id db ≡ some r') × Handled w r r'

  settle_send_self :
      (r : NotificationRow) (message : RenderedMessage) (answer : Result (Unit {0})) (w : World)
      → render_row lib special w.db r ≡ ok (some message)
      → (allow r.channel now w.limiter).0 ≡ true
      → notifier w.deliveries r.channel message ≡ answer
      → row_at r.id w.db ≡ some r
      → Now r w (settle_send policy now r answer w.db).1
  unfolding settle_send notification_sent notification_dead notification_retry
  settle_send_self r message (ok u) w rendered allowed answered at = (
    set_sent now r,
    find?-update_self _ _ w.db.notifications r (λ x. refl) at,
    Handled.delivered message rendered allowed answered refl,
  )
  settle_send_self r message (raised exc) w rendered allowed answered at =
      elim (Bool-cases (leb policy.max_attempts (r.attempts + 1))) [
        | inl e ↦ rw e (
          set_dead (describe exc) r,
          find?-update_self _ _ w.db.notifications r (λ x. refl) at,
          Handled.exhausted message exc rendered allowed answered (leb→le _ _ e) refl,
        )
        | inr e ↦ rw e (
          set_failed (describe exc) (now + backoff policy.backoff_base r.attempts) r,
          find?-update_self _ _ w.db.notifications r (λ x. refl) at,
          Handled.retried message exc rendered allowed answered (ground arith) refl,
        )
      ]

  deliver_self :
      (r : NotificationRow) (message : RenderedMessage) (w : World)
      → render_row lib special w.db r ≡ ok (some message)
      → row_at r.id w.db ≡ some r
      → Now r w (deliver lib special notifier policy now r message w).1.db
  unfolding deliver notification_defer
  deliver_self r message w rendered at = elim (Bool-cases (allow r.channel now w.limiter).0) [
    | inl e ↦
        rw e (
          settle_send_self r message (notifier w.deliveries r.channel message) w rendered e refl at)
    | inr e ↦ rw e (
      set_deferred (now + defer) r,
      find?-update_self _ _ w.db.notifications r (λ x. refl) at,
      Handled.limited message rendered e refl,
    )
  ]

  -- The pass raised.
  abbrev pub Raised {ℓ} : {A : Type ℓ} → Result A × World → Type ℓ
  Raised p = (exc : Exception) × (p.0 ≡ raised exc)

  -- One round: the row is handled, or unchanged where its renderer raised.
  abbrev pub Round : NotificationRow → World → Result Bool × World → Type 0
  Round r w p =
      (r' : NotificationRow) × (row_at r.id p.1.db ≡ some r')
      × (((r' ≡ r) × Raised p) ⊎ Handled w r r')

  pub send_rendered_self :
      (r : NotificationRow) (message : Result (Option RenderedMessage)) (w : World)
      → render_row lib special w.db r ≡ message
      → row_at r.id w.db ≡ some r
      → Round r w (send_rendered lib special notifier policy now r message w)
  unfolding send_rendered notification_dead
  send_rendered_self r (raised exc) w rendered at = (r, at, inl (refl, (exc, refl)))
  send_rendered_self r (ok none) w rendered at = (
    set_dead "event_missing" r,
    find?-update_self _ _ w.db.notifications r (λ x. refl) at,
    inr (Handled.missing rendered refl),
  )
  send_rendered_self r (ok (some message)) w rendered at =
      let (r', at', handled) = deliver_self r message w rendered at in (r', at', inr handled)

-- ===== src/Notify/Pipeline/Sends.antt =====
-- What one send pass of src/costanza/notify/pipeline.py does to each row of the ledger.
use costanza.Prelude.{
  ℕ, ◌+◌, ◌≤◌, String, ◌≡◌, refl, ap, ◌∙◌, Bool, true, false, some, List, [], ◌∷◌, ◌++◌, arith,
  ◌==◌, ◌⊎◌, inl, inr, Bool-cases, count, find?-update_ne, find?-update_self, or_else, Only,
  query-Only, count-query-le, count-query_rejected, if◌then◌else◌,
}
use costanza.Result.{Result, ok, raised, continue}
use costanza.Stdlib.{Stdlib}
use costanza.Schemas.{Time}
use costanza.Store.{Db, NotificationRow}
use costanza.Store.Notifications.{
  is_notification, notification_due, claim_notifications_due, notification_defer, set_deferred,
}
use costanza.Outbox.{Policy}
use costanza.Notify.Limits.{engaged}
use costanza.Notify.Pipeline.{
  World, Notifier, SpecialRenderers, defer, render_row, send_rendered, send_row, send_rows,
  defer_rows, send_claimed, send_due_once,
}
use costanza.Notify.Pipeline.Rounds.{
  row_at, ids_apart, Handled, Raised, Round, send_rendered_ne, send_rendered_self, send_rows_ne,
}

module _ (lib : Stdlib) (special : SpecialRenderers) (notifier : Notifier) (policy : Policy)
    (now : Time) where
  -- Of a pass over `rows` from `w`, with `sent` messages sent before, that ends as `last`: the row
  -- was handled in the state that the rows before it left, or it is unchanged, and then it is not
  -- among the rows or the pass raised.
  abbrev pub Outcome :
      NotificationRow → List NotificationRow → ℕ → World → Result ℕ × World → Type 0
  Outcome r rows sent w last =
      (r' : NotificationRow) × (row_at r.id last.1.db ≡ some r')
      × (((r' ≡ r)
            × ((count (is_notification r.id) rows ≡ 0)
                ⊎ Raised lib special notifier policy now last))
          ⊎ ((before : List NotificationRow) × (after : List NotificationRow) × (rows
                ≡ before ++ r ∷ after)
              × Handled lib special notifier policy now
                  (send_rows lib special notifier policy now before sent w).1 r r'))

  -- The rounds after one.
  abbrev rest_of : List NotificationRow → ℕ → Bool → World → Result ℕ × World
  rest_of rows sent done =
      send_rows lib special notifier policy now rows (if done then sent + 1 else sent)

  after_self :
      (r : NotificationRow) (rows : List NotificationRow) (sent : ℕ) (w : World)
      (p : Result Bool × World)
      → count (is_notification r.id) rows ≡ 0
      → Round lib special notifier policy now r w p
      → Outcome r (r ∷ rows) sent w (continue (rest_of rows sent) p)
  unfolding send_rows
  after_self r rows sent w (ok done, v) none_left (r', at, inl (same, (exc, bad))) = cc
  after_self r rows sent w (ok done, v) none_left (r', at, inr handled) = (
    r',
    send_rows_ne lib special notifier policy now r.id rows _ v none_left ∙ at,
    inr ([], rows, refl, handled),
  )
  after_self r rows sent w (raised exc, v) none_left (r', at, inl (same, failed)) =
      (r', at, inl (same, inr (exc, refl)))
  after_self r rows sent w (raised exc, v) none_left (r', at, inr handled) =
      (r', at, inr ([], rows, refl, handled))

  abbrev round : NotificationRow → World → Result Bool × World
  round row w =
      send_rendered lib special notifier policy now row (render_row lib special w.db row) w

  behind :
      (r row : NotificationRow) (rows : List NotificationRow) (sent : ℕ) (w : World) (done : Bool)
      (v : World) (last : Result ℕ × World)
      → (row.id == r.id) ≡ false
      → round row w ≡ (ok done, v)
      → Outcome r rows (if done then sent + 1 else sent) v last
      → Outcome r (row ∷ rows) sent w last
  unfolding send_rows send_row count
  behind r row rows sent w done v last other ran (r', at, inl (same, inl none_here)) =
      (r', at, inl (same, inl (ground arith)))
  behind r row rows sent w done v last other ran (r', at, inl (same, inr failed)) =
      (r', at, inl (same, inr failed))
  behind r row rows sent w done v last other ran (r', at, inr (before, after, split, handled)) =
      (r', at, inr (row ∷ before, after, ap (λ xs. row ∷ xs) split, rw ran handled))

  after_other :
      (r row : NotificationRow) (rows : List NotificationRow) (sent : ℕ) (w : World)
      (p : Result Bool × World)
      → ((n : ℕ) (v : World)
          → row_at r.id v.db ≡ some r
          → Outcome r rows n v (send_rows lib special notifier policy now rows n v))
      → round row w ≡ p
      → (row.id == r.id) ≡ false
      → row_at r.id p.1.db ≡ some r
      → Outcome r (row ∷ rows) sent w (continue (rest_of rows sent) p)
  after_other r row rows sent w (ok done, v) rest ran other at =
      behind r row rows sent w done v
        (send_rows lib special notifier policy now rows (if done then sent + 1 else sent) v) other
        ran (rest (if done then sent + 1 else sent) v at)
  after_other r row rows sent w (raised exc, v) rest ran other at =
      (r, at, inl (refl, inr (exc, refl)))

  send_rows-Outcome :
      (r : NotificationRow) (rows : List NotificationRow) (sent : ℕ) (w : World)
      → Only (is_notification r.id) r rows
      → count (is_notification r.id) rows ≤ 1
      → row_at r.id w.db ≡ some r
      → Outcome r rows sent w (send_rows lib special notifier policy now rows sent w)
  unfolding send_rows send_row count
  send_rows-Outcome r [] sent w only once at = (r, at, inl (refl, inl refl))
  send_rows-Outcome r (row ∷ rows) sent w only once at = elim (Bool-cases (row.id == r.id)) [
    | inl e ↦
        let same : row ≡ r = only.0 e in
        rw same (
          after_self r rows sent w (round r w) (ground arith) (
            send_rendered_self lib special notifier policy now r (render_row lib special w.db r) w
              refl at))
    | inr e ↦
        after_other r row rows sent w (round row w)
          (λ n v h. send_rows-Outcome r rows n v only.1 (ground arith) h) refl e
          (send_rendered_ne lib special notifier policy now r.id row
              (render_row lib special w.db row) w e
            ∙ at)
  ]

  defer_rows_ne :
      (i : String) (rows : List NotificationRow) (db : Db)
      → count (is_notification i) rows ≡ 0
      → row_at i (defer_rows lib special notifier policy now rows db) ≡ row_at i db
  unfolding defer_rows notification_defer count
  defer_rows_ne i [] db h = refl
  defer_rows_ne i (row ∷ rows) db h =
      defer_rows_ne i rows (notification_defer row.id (now + defer) db) (ground arith)
      ∙ find?-update_ne _ _ _ db.notifications (λ x. refl)
          (λ x. ids_apart i row.id x (ground arith))

  -- Unchanged, or put off by a minute.
  abbrev pub PutOff : NotificationRow → Db → Type 0
  PutOff r db =
      (r' : NotificationRow) × (row_at r.id db ≡ some r')
      × ((r' ≡ r) ⊎ (r' ≡ set_deferred (now + defer) r))

  defer_rows-PutOff :
      (r : NotificationRow) (rows : List NotificationRow) (db : Db)
      → Only (is_notification r.id) r rows
      → count (is_notification r.id) rows ≤ 1
      → row_at r.id db ≡ some r
      → PutOff r (defer_rows lib special notifier policy now rows db)
  unfolding defer_rows notification_defer count
  defer_rows-PutOff r [] db only once at = (r, at, inl refl)
  defer_rows-PutOff r (row ∷ rows) db only once at = elim (Bool-cases (row.id == r.id)) [
    | inl e ↦
        let same : row ≡ r = only.0 e in
        let next : Db = notification_defer r.id (now + defer) db in
        rw same (
          set_deferred (now + defer) r,
          defer_rows_ne r.id rows next (ground arith)
              ∙ find?-update_self _ _ db.notifications r (λ x. refl) at,
          inr refl,
        )
    | inr e ↦
        defer_rows-PutOff r rows (notification_defer row.id (now + defer) db) only.1 (ground arith)
          (find?-update_ne _ _ _ db.notifications (λ x. refl) (λ x. ids_apart r.id row.id x e) ∙ at)
  ]

  -- Of a pass over the claimed rows: all put off where the kill switch is engaged, else sent.
  abbrev pub PassOutcome :
      Bool → NotificationRow → List NotificationRow → World → Result ℕ × World → Type 0
  PassOutcome env_override r rows w last =
      ((engaged env_override w.db ≡ true) × PutOff r last.1.db)
      ⊎ ((engaged env_override w.db ≡ false) × Outcome r rows 0 w last)

  send_claimed-PassOutcome :
      (r : NotificationRow) (rows : List NotificationRow) (env_override : Bool) (silent : Bool)
      (w : World)
      → engaged env_override w.db ≡ silent
      → Only (is_notification r.id) r rows
      → count (is_notification r.id) rows ≤ 1
      → row_at r.id w.db ≡ some r
      → PassOutcome env_override r rows w
          (send_claimed lib special notifier policy now rows silent w)
  unfolding send_claimed count
  send_claimed-PassOutcome r [] env true w on only once at = inl (on, (r, at, inl refl))
  send_claimed-PassOutcome r [] env false w on only once at =
      inr (on, (r, at, inl (refl, inl refl)))
  send_claimed-PassOutcome r (row ∷ rows) env true w on only once at =
      inl (on, defer_rows-PutOff r (row ∷ rows) w.db only once at)
  send_claimed-PassOutcome r (row ∷ rows) env false w on only once at =
      inr (on, send_rows-Outcome r (row ∷ rows) 0 w only once at)

  module _ (env_override : Bool) (limit : ℕ) (w : World) where
    abbrev pub after : Result ℕ × World
    after = send_due_once lib special notifier policy env_override limit now w

    -- Over a ledger whose ids are unique, a pass handles each claimed row at most once. With the
    -- kill switch engaged a row is unchanged or put off by a minute. Else a row is unchanged only
    -- if it was not claimed or the pass raised, and a row that is handled is, by the state that the
    -- rows before it left: dead since its event is missing; put off by a minute since the limiter
    -- refused; sent since the limiter allowed it and the channel took its message; or, since the
    -- channel raised, dead with its attempts used up or rescheduled by the backoff with one more
    -- attempt below the maximum.
    pub send_due_once-PassOutcome :
        (r : NotificationRow)
        → row_at r.id w.db ≡ some r
        → count (is_notification r.id) w.db.notifications ≤ 1
        → PassOutcome env_override r (claim_notifications_due limit now w.db) w after
    unfolding send_due_once claim_notifications_due
    send_due_once-PassOutcome r at unique =
        send_claimed-PassOutcome r _ env_override _ w refl
          (query-Only _ r limit _ (notification_due now) w.db.notifications at unique)
          (omega (
            arith,
            count-query-le (is_notification r.id) limit
                (λ (row : NotificationRow). or_else row.next_attempt_at 0) (notification_due now)
                w.db.notifications,
          ))
          at

    send_claimed_ne :
        (i : String) (rows : List NotificationRow) (silent : Bool)
        → count (is_notification i) rows ≡ 0
        → row_at i (send_claimed lib special notifier policy now rows silent w).1.db ≡ row_at i w.db
    unfolding send_claimed
    send_claimed_ne i [] silent h = refl
    send_claimed_ne i (row ∷ rows) true h = defer_rows_ne i (row ∷ rows) w.db h
    send_claimed_ne i (row ∷ rows) false h =
        send_rows_ne lib special notifier policy now i (row ∷ rows) 0 w h

    -- Over a ledger whose ids are unique, a row that is not due (sent, dead, or with a later next
    -- attempt) is as it was after any pass.
    pub send_due_once_not_due :
        (r : NotificationRow)
        → notification_due now r ≡ false
        → row_at r.id w.db ≡ some r
        → count (is_notification r.id) w.db.notifications ≤ 1
        → row_at r.id after.1.db ≡ some r
    unfolding send_due_once claim_notifications_due
    send_due_once_not_due r idle at unique =
        send_claimed_ne r.id _ _ (
          count-query_rejected _ r limit _ (notification_due now) w.db.notifications at unique idle)
        ∙ at

    send_claimed_muted :
        (rows : List NotificationRow)
        → ((send_claimed lib special notifier policy now rows true w).0 ≡ ok 0)
          × ((send_claimed lib special notifier policy now rows true w).1.deliveries ≡ w.deliveries)
          × ((send_claimed lib special notifier policy now rows true w).1.limiter ≡ w.limiter)
    unfolding send_claimed
    send_claimed_muted [] = (refl, refl, refl)
    send_claimed_muted (row ∷ rows) = (refl, refl, refl)

    send_claimed_muted-PutOff :
        (r : NotificationRow) (rows : List NotificationRow)
        → Only (is_notification r.id) r rows
        → count (is_notification r.id) rows ≤ 1
        → row_at r.id w.db ≡ some r
        → PutOff r (send_claimed lib special notifier policy now rows true w).1.db
    unfolding send_claimed
    send_claimed_muted-PutOff r [] only once at = (r, at, inl refl)
    send_claimed_muted-PutOff r (row ∷ rows) only once at =
        defer_rows-PutOff r (row ∷ rows) w.db only once at

    -- With the kill switch engaged a pass sends nothing and uses no budget, and over unique ids it
    -- leaves each row as it was but for a next attempt a minute later: no attempt is burnt.
    pub send_due_once_muted :
        (r : NotificationRow)
        → engaged env_override w.db ≡ true
        → row_at r.id w.db ≡ some r
        → count (is_notification r.id) w.db.notifications ≤ 1
        → (after.0 ≡ ok 0)
          × (after.1.deliveries ≡ w.deliveries)
          × (after.1.limiter ≡ w.limiter)
          × PutOff r after.1.db
    unfolding send_due_once claim_notifications_due
    send_due_once_muted r on at unique =
        let rows = claim_notifications_due limit now w.db in
        let quiet = send_claimed_muted rows in
        rw on (
          quiet.0,
          quiet.1,
          quiet.2,
          send_claimed_muted-PutOff r _
              (query-Only _ r limit _ (notification_due now) w.db.notifications at unique)
              (omega (
                arith,
                count-query-le (is_notification r.id) limit
                    (λ (row : NotificationRow). or_else row.next_attempt_at 0)
                    (notification_due now) w.db.notifications,
              ))
              at,
        )

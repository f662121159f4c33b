-- ===== src/Program/Steps.antt =====
-- The operations of src/costanza/store/db.py, each a sequence of writes.
use costanza.Prelude.{
  ℕ, suc, String, ◌≡◌, refl, Bool, not, ◌&&◌, ◌||◌, Option, none, some, List, ◌==◌, any, arith,
  Bool-cases, inl, inr, eqb,
}
use costanza.Schemas.{Time, MediaRef, IdentityProvider, CanonicalEvent}
use costanza.Store.{Db, MediaRow, ChainRow, ChainState, EventRow, refers_to}
use costanza.Store.Outbox.{
  is_raw, is_outbox, raw_row, queue_row, archive_raw, enqueue_outbox, outbox_done, outbox_retry,
  outbox_dead, set_done, set_retry, prune_at,
}
use costanza.Store.Media.{is_media, find_media, backfill, row_kind, find_or_create_media}
use costanza.Store.Users.{is_identity, observe_identity}
use costanza.Store.Events.{is_event, has_media_id, has_user_id, event_row, insert_event}
use costanza.Store.Chains.{is_chain, request_taken, create_chain, update_chain, set_chain}
use costanza.Store.Outbox
use costanza.Store.Notifications
use costanza.Store.Notifications.{
  is_notification, is_for, pending_row, enqueue_notification, notification_sent, notification_retry,
  notification_defer, notification_dead, set_sent, set_failed, set_deferred,
}
use costanza.Store.Control.{set_cursor, set_kill_switch}
use costanza.Program.Writes.{
  Writes, draw, add_raw, add_outbox, change_outbox, prune_raws, add_media, change_media,
  add_identity, add_event, add_chain, change_chain, add_notification, change_notification,
  move_cursors, add_switch, then_one,
}

module _ {db s : Db} (ws : Writes db s) where
  pub observe_identity-Writes :
      (p : IdentityProvider) (x : String) → Writes db (observe_identity p x s).1
  unfolding observe_identity
  observe_identity-Writes p x = elim (Bool-cases (any (is_identity p x) s.identities)) [
    | inl e ↦ rw e ws
    | inr e ↦
        rw e
          (then_one ws (add_identity (record { user_id = none; provider = p; external_id = x }) e))
  ]

  drew : Writes db (record s { drawn = suc s.drawn })
  drew = then_one ws (draw (suc s.drawn))

  media_found-Writes :
      (ref : MediaRef) (now : Time) (row : Option MediaRow)
      → find_media ref s.media ≡ row
      → Writes db (find_or_create_media ref now s).1
  unfolding find_or_create_media backfill
  media_found-Writes ref now none h =
      let row : MediaRow = record {
        id = s.ids s.drawn;
        tmdb_id = ref.tmdb_id;
        tvdb_id = ref.tvdb_id;
        imdb_id = ref.imdb_id;
        kind = row_kind ref.kind;
        title = ref.title;
        year = ref.year;
        added_at = now;
      } in
      rw (find_or_create_media, h)
        (elim (Bool-cases (any (is_media (s.ids s.drawn)) s.media)) [
          | inl e ↦ rw e drew
          | inr e ↦ rw e (then_one drew (add_media row e))
        ])
  media_found-Writes ref now (some row) h =
      rw (find_or_create_media, h)
        (then_one ws (change_media row.id (backfill ref row) (λ x. refl)))

  pub find_or_create_media-Writes :
      (ref : MediaRef) (now : Time) → Writes db (find_or_create_media ref now s).1
  find_or_create_media-Writes ref now = media_found-Writes ref now (find_media ref s.media) refl

  pub insert_event-Writes :
      (event : CanonicalEvent) (source_id : ℕ) (now : Time)
      → Writes db (insert_event event source_id now s).1
  unfolding insert_event
  insert_event-Writes event source_id now =
      let row = event_row event source_id now in
      elim (Bool-cases (
        any (λ (r : EventRow). r.id == row.id) s.events
        || any (is_event row.source_event_key) s.events)) [
          | inl e ↦ rw e ws
          | inr e ↦
              rw e
                (elim (Bool-cases (
                  any (λ t. eqb t.id row.source_id) s.sources
                  && refers_to has_media_id row.media_id s.media
                  && refers_to has_user_id row.user_id s.users)) [
                    | inl known ↦
                        rw known (then_one ws (add_event row (ground arith) (ground arith)))
                    | inr lost ↦ rw lost ws
                  ])
        ]

  pub create_chain-Writes :
      (media_id request_id user_id : Option String) (state : ChainState) (opened : Time)
      (closed : Option Time)
      → Writes db (create_chain media_id request_id user_id state opened closed s).1
  unfolding create_chain
  create_chain-Writes media_id request_id user_id state opened closed =
      let row : ChainRow = record {
        id = s.ids s.drawn;
        media_id = media_id;
        seerr_request_id = request_id;
        requested_by = user_id;
        state = state;
        opened_at = opened;
        closed_at = closed;
      } in
      elim (Bool-cases (
        any (is_chain row.id) s.request_chains
        || request_taken request_id s.request_chains
        || not (refers_to has_media_id media_id s.media))) [
          | inl e ↦ rw e drew
          | inr e ↦ rw e (then_one drew (add_chain row (ground arith) (ground arith)))
        ]

  pub update_chain-Writes :
      (id : String) (state : Option ChainState) (closed : Option Time)
      (media_id user : Option String)
      → Writes db (update_chain id state closed media_id user s).1
  unfolding update_chain set_chain
  update_chain-Writes id state closed media_id user =
      elim (Bool-cases
        (any (is_chain id) s.request_chains && not (refers_to has_media_id media_id s.media))) [
          | inl e ↦ rw e ws
          | inr e ↦ rw e (
              then_one ws
                (change_chain id (set_chain state closed media_id user) (λ x. refl) (λ x. refl)))
        ]

  pub enqueue_notification-Writes :
      (key channel hash : String) (now : Time)
      → Writes db (enqueue_notification key channel hash now s).1
  unfolding enqueue_notification
  enqueue_notification-Writes key channel hash now =
      let row = pending_row (s.ids s.drawn) key channel hash now in
      elim (Bool-cases (
        any (is_notification row.id) s.notifications || any (is_for key channel) s.notifications)) [
          | inl e ↦ rw e drew
          | inr e ↦ rw e (then_one drew (add_notification row (ground arith) (ground arith)))
        ]

  pub archive_raw-Writes :
      (source_id : ℕ) (headers body : String) (now : Time)
      → Writes db (archive_raw source_id headers body now s).1
  unfolding archive_raw
  archive_raw-Writes source_id headers body now =
      let row = raw_row (s.ids s.drawn) source_id headers body now in
      elim (Bool-cases
        (any (is_raw row.id) s.raw_events || not (any (λ t. eqb t.id source_id) s.sources))) [
          | inl e ↦ rw e drew
          | inr e ↦ rw e (then_one drew (add_raw row (ground arith)))
        ]

  pub enqueue_outbox-Writes :
      (raw_id : String) (dead : Bool) (error : Option String) (now : Time)
      → Writes db (enqueue_outbox raw_id dead error now s).1
  unfolding enqueue_outbox
  enqueue_outbox-Writes raw_id dead error now =
      let row = queue_row (s.ids s.drawn) raw_id dead error now in
      elim (Bool-cases
        (any (is_outbox row.id) s.outbox || not (any (is_raw raw_id) s.raw_events))) [
          | inl e ↦ rw e drew
          | inr e ↦ rw e (then_one drew (add_outbox row (ground arith) (ground arith)))
        ]

  -- The updates of one queue row.
  pub outbox_done-Writes : (id : String) → Writes db (outbox_done id s)
  unfolding outbox_done
  outbox_done-Writes id = then_one ws (change_outbox id set_done (λ x. refl) (λ x. refl))

  pub outbox_retry-Writes : (id error : String) (at : Time) → Writes db (outbox_retry id error at s)
  unfolding outbox_retry
  outbox_retry-Writes id error at =
      then_one ws (change_outbox id (set_retry error at) (λ x. refl) (λ x. refl))

  pub outbox_dead-Writes : (id error : String) → Writes db (outbox_dead id error s)
  unfolding outbox_dead
  outbox_dead-Writes id error =
      then_one ws (change_outbox id (Outbox.set_dead error) (λ x. refl) (λ x. refl))

  -- The updates of one ledger row.
  pub notification_sent-Writes : (id : String) (now : Time) → Writes db (notification_sent id now s)
  unfolding notification_sent
  notification_sent-Writes id now =
      then_one ws (change_notification id (set_sent now) (λ x. refl) (λ x. refl) (λ x. refl))

  pub notification_retry-Writes :
      (id error : String) (at : Time) → Writes db (notification_retry id error at s)
  unfolding notification_retry
  notification_retry-Writes id error at =
      then_one ws (change_notification id (set_failed error at) (λ x. refl) (λ x. refl) (λ x. refl))

  pub notification_defer-Writes : (id : String) (at : Time) → Writes db (notification_defer id at s)
  unfolding notification_defer
  notification_defer-Writes id at =
      then_one ws (change_notification id (set_deferred at) (λ x. refl) (λ x. refl) (λ x. refl))

  pub notification_dead-Writes : (id error : String) → Writes db (notification_dead id error s)
  unfolding notification_dead
  notification_dead-Writes id error =
      then_one ws
        (change_notification id (Notifications.set_dead error) (λ x. refl) (λ x. refl) (λ x. refl))

  pub set_cursor-Writes :
      (job : String) (cursor : List (String × Time)) → Writes db (set_cursor job cursor s)
  unfolding set_cursor
  set_cursor-Writes job cursor = then_one ws (move_cursors _)

  pub set_kill_switch-Writes :
      (engaged : Bool) (set_by via : String) (now : Time)
      → Writes db (set_kill_switch engaged set_by via now s).1
  unfolding set_kill_switch
  set_kill_switch-Writes engaged set_by via now = then_one ws (add_switch _)

  pub prune_at-Writes : (cutoff : Time) → Writes db (prune_at cutoff s).1
  prune_at-Writes cutoff = then_one ws (prune_raws cutoff)

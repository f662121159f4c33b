-- ===== src/Api.antt =====
-- src/costanza/api/app.py: the bearer guard and the routes of /api/v1, over the store and the kill
-- switch. `token` is the configured bearer token. FastAPI's parsing of a request is done: a call
-- has its parameters, and the limit of a list is not negative.
pub mod Guard
use costanza.Prelude.{
  ℕ, ◌-◌, String, Bool, true, false, not, ◌&&◌, ◌||◌, Option, none, some, List, [], ◌∷◌, ◌==◌, any,
  filter, map, take, sort_by_desc, find?, ltb, eqb, or_else, if◌then◌else◌,
}
use costanza.Result.{Result, ok, raised, Exec}
use costanza.Schemas.{Time, EventType, type_name, RenderedMessage, IdentityProvider}
use costanza.Store.{
  Db, RawEvent, OutboxRow, SourceRow, MediaRow, EventRow, ChainRow, NotificationRow,
}
use costanza.Store.Events.{list_events, events_for_media, source_by_id}
use costanza.Store.Media.{get_media}
use costanza.Store.Chains.{chains_for_media}
use costanza.Store.Outbox.{get_raw, is_dead, outbox_backlog}
use costanza.Store.Notifications.{dead_notifications}
use costanza.Store.Users.{unmapped_identities}
use costanza.Store.Control.{SwitchState, get_cursor}
use costanza.Stats.{UserRequests, UserWatches, requests_per_user, watch_per_user}
use costanza.Notify.Limits.{state, set_switch}
use costanza.Notify.Weekly.{DigestData, render_digest}
use costanza.Jobs.Digest.{period}
use costanza.Jobs.Digest.Content.{build_digest_data}
use costanza.Ingest.{bearer_token, authenticate}

abbrev pub or_empty : Option String → String
or_empty none = ""
or_empty (some s) = s

-- `guard`: a token that is not set lets nobody in.
unfoldable pub guard : Option String → String → Result Bool
unfolding bearer_token authenticate
guard token authorization = authenticate token (some (or_empty (bearer_token authorization)))

-- EVENT_TYPES
abbrev event_types : List EventType
event_types =
    EventType.request_created ∷ EventType.request_approved ∷ EventType.request_declined
    ∷ EventType.request_available ∷ EventType.media_grabbed ∷ EventType.media_imported
    ∷ EventType.media_upgraded ∷ EventType.media_deleted ∷ EventType.playback_started
    ∷ EventType.playback_stopped ∷ EventType.watch_completed ∷ EventType.health_issue
    ∷ EventType.source_unknown ∷ EventType.reconcile_gap ∷ []

unfoldable pub is_event_type : String → Bool
is_event_type name = any (λ t. type_name t == name) event_types

-- `_event_dict`: the row, with the name of its source where the source has a row.
pub record EventView : Type 0 where
  pub row : EventRow
  pub source : Option String

abbrev event_view : Db → EventRow → EventView
event_view db row = record {
  row = row;
  source = elim (source_by_id db row.source_id) [ none ↦ none | some s ↦ some s.name ];
}

-- A dead row of the queue, with the raw event and the source that it is joined with.
pub record DeadItem : Type 0 where
  pub row : OutboxRow
  pub received_at : Time
  pub source : String

abbrev dead_item : OutboxRow → RawEvent → Option SourceRow → List DeadItem
dead_item row raw none = []
dead_item row raw (some source) =
    (record { row = row; received_at = raw.received_at; source = source.name }) ∷ []

abbrev joined_item : Db → OutboxRow → Option RawEvent → List DeadItem
joined_item db row none = []
joined_item db row (some raw) = dead_item row raw (source_by_id db raw.source_id)

abbrev dead_items : Db → List OutboxRow → List DeadItem
dead_items db [] = []
dead_items db (row ∷ rows) =
    let rest = dead_items db rows in
    elim (joined_item db row (get_raw db row.raw_event_id)) [
      | [] ↦ rest
      | item ∷ items ↦ item ∷ rest
    ]

unfoldable pub dead_outbox : Db → List DeadItem
unfolding source_by_id get_raw
dead_outbox db = take 50 (
    sort_by_desc (λ (i : DeadItem). i.received_at)
      (dead_items db (filter (λ (row : OutboxRow). is_dead row.state) db.outbox)))

-- A request that FastAPI has routed.
pub data Call : Type 0 where
  timeline : String → Call
  events : Option String → Option Time → Option String → ℕ → Call
  stats_requests stats_watch digest_preview kill_switch_get diagnostics : Call
  kill_switch_post : Bool → String → Call

pub data Reply : Type 0 where
  unauthorized not_found unprocessable : Reply
  media_timeline : MediaRow → List ChainRow → List EventView → Reply
  event_list : List EventView → Reply
  user_requests : List UserRequests → Reply
  user_watches : List UserWatches → Reply
  preview : DigestData → RenderedMessage → Reply
  switch : SwitchState × Bool → Reply
  diagnosis : ℕ → List DeadItem → List NotificationRow → List (IdentityProvider × String) → Reply

abbrev timeline_of : Db → String → Option MediaRow → Reply
timeline_of db media_id none = not_found
timeline_of db media_id (some media) =
    media_timeline media (chains_for_media db media_id)
      (map (event_view db) (events_for_media db media_id))

abbrev known_type : Option String → Bool
known_type none = true
known_type (some type) = is_event_type type

module _ (token : Option String) (env_override : Bool) (day : Time → String) (now : Time) where
  -- The routes.
  unfoldable pub answer : Call → Db → Reply × Db
  unfolding is_event_type source_by_id chains_for_media events_for_media get_media list_events
      requests_per_user watch_per_user period build_digest_data render_digest state set_switch
      outbox_backlog dead_outbox dead_notifications unmapped_identities
  answer (timeline media_id) db = (timeline_of db media_id (get_media db media_id), db)
  answer (events type since user limit) db = (
    (if known_type type && not (ltb 1000 limit)
        then event_list (map (event_view db) (list_events db type since user none limit))
        else unprocessable),
    db,
  )
  answer stats_requests db = (user_requests (requests_per_user db), db)
  answer stats_watch db = (user_watches (watch_per_user db), db)
  answer digest_preview db =
      let window = period db now in
      let found = build_digest_data db day window.0 window.1 in
      (preview found (render_digest found), db)
  answer kill_switch_get db = (switch (state env_override db), db)
  answer (kill_switch_post engaged set_by) db =
      let set = set_switch env_override engaged set_by "api" now db in (switch set.0, set.1)
  answer diagnostics db = (
    diagnosis (outbox_backlog db) (dead_outbox db) (dead_notifications db 20)
        (unmapped_identities db),
    db,
  )

  abbrev pub guarded : Result Bool → Call → Exec Db Reply
  guarded (raised exc) call db = (raised exc, db)
  guarded (ok false) call db = (ok unauthorized, db)
  guarded (ok true) call db = (ok (answer call db).0, (answer call db).1)

  -- A call with its `authorization` header.
  unfoldable pub handle : String → Call → Exec Db Reply
  unfolding answer guard
  handle authorization call db = guarded (guard token authorization) call db

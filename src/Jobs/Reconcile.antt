-- ===== src/Jobs/Reconcile.antt =====
-- src/costanza/jobs/reconcile.py: the repair of missed Seerr webhooks. The client gives the
-- requests; `parse_time` is `datetime.fromisoformat`.
pub mod Records
pub mod Arr
pub mod Tautulli
pub mod Run
pub mod Twins
pub mod Keeps
pub mod Whole
pub mod Watches
pub mod Cursors
pub mod Settled
pub mod Expected
use costanza.Prelude.{
  ℕ, suc, ◌+◌, String, Bool, true, false, not, ◌&&◌, ◌||◌, Option, none, some, List, [], ◌∷◌, ◌++◌,
  ◌==◌, if◌then◌else◌, join_colon, leb, length,
}
use costanza.Json.{
  Json, null, bool, int, str, arr, obj, Fields, end, field, ℤ, pos, int_eq, get_field, truthy,
}
use costanza.Result.{Exception, Result, ok, raised, bind, Exec, continue, ◌>>=◌, ◌>>◌, pure}
use costanza.Stdlib.{Stdlib, py_str}
use costanza.Schemas.{
  Time, CanonicalEvent, EventType, Origin, MediaRef, MediaKind, UserRef, IdentityProvider,
  RenderedMessage,
}
use costanza.Config.{RoutingConfig}
use costanza.Store.{Db, EventRow}
use costanza.Store.Events.{get_event_by_key}
use costanza.Correlate.{apply}
use costanza.Notify.Pipeline.{enqueue_for_event, event_from_row}
use costanza.Normalize.Common.{json_is, as_dict, get_dict, to_int}

abbrev not_text : Exception
not_text = record { name = "TypeError"; message = "fromisoformat: argument must be str" }

-- A falsy value and a text that is no time give None.
unfoldable pub parse_dt : (String → Option Time) → Json → Result (Option Time)
parse_dt parse_time (str s) = if s == "" then ok none else ok (parse_time s)
parse_dt parse_time value = if truthy value then raised not_text else ok none

abbrev pub json_int_is : ℕ → Json → Bool
json_int_is n (int m) = int_eq m (pos n)
json_int_is n _ = false

-- What the request says, which all its events share.
pub record Shared : Type 0 where
  pub source : String
  pub request_id : Json
  pub media : MediaRef
  pub user : Option UserRef

-- `event`, with the id that it draws.
unfoldable pub expected_event :
    Stdlib → Shared → String → EventType → String → Option Time → Fields → CanonicalEvent
expected_event lib shared id type key occurred attrs = record {
  id = id;
  source = shared.source;
  source_event_key = key;
  origin = Origin.reconcile;
  type = type;
  occurred_at = occurred;
  received_at = none;
  media = some shared.media;
  user = shared.user;
  attrs = field "request_id" (str (py_str lib shared.request_id)) attrs;
}

-- The event of the request's status, if it has one.
unfoldable pub decided : Stdlib → Shared → (ℕ → String) → Option Time → Json → List CanonicalEvent
unfolding expected_event
decided lib shared ids updated_at status =
    let id = py_str lib shared.request_id in
    if json_int_is 2 status
    then expected_event lib shared (ids 1) EventType.request_approved
        (join_colon (shared.source ∷ "request.approved" ∷ id ∷ [])) updated_at end
      ∷ []
    else if json_int_is 3 status
    then expected_event lib shared (ids 1) EventType.request_declined
        (join_colon (shared.source ∷ "request.declined" ∷ id ∷ [])) updated_at end
      ∷ []
    else []

-- The label in the key of an available request, from the media's status.
abbrev pub label : Json → String
label media_status = if json_int_is 5 media_status then "AVAILABLE" else "PARTIALLY_AVAILABLE"

-- The event of the media's status, if it is available in part or as a whole.
unfoldable pub arrived : Stdlib → Shared → String → Option Time → Json → List CanonicalEvent
unfolding expected_event
arrived lib shared id updated_at media_status =
    if json_int_is 4 media_status || json_int_is 5 media_status
    then expected_event lib shared id EventType.request_available
        (join_colon (
          shared.source
          ∷ "request.available"
          ∷ py_str lib shared.request_id
          ∷ label media_status
          ∷ []))
        updated_at (field "partial" (bool (json_int_is 4 media_status)) end)
      ∷ []
    else []

-- The list that `_seerr_expected` builds; `ids` are the ids that its events draw.
unfoldable pub expected_events :
    Stdlib → Shared → (ℕ → String) → Option Time → Option Time → Json → Json → List CanonicalEvent
unfolding decided arrived expected_event
expected_events lib shared ids created_at updated_at status media_status =
    let middle = decided lib shared ids updated_at status in
    expected_event lib shared (ids 0) EventType.request_created
        (join_colon (shared.source ∷ "request.created" ∷ py_str lib shared.request_id ∷ []))
        created_at end
      ∷ middle
    ++ arrived lib shared (ids (length middle + 1)) updated_at media_status

abbrev media_ref : Stdlib → Fields → MediaRef
media_ref lib media = record {
  media_id = none;
  tmdb_id = to_int lib (get_field "tmdbId" media);
  tvdb_id = to_int lib (get_field "tvdbId" media);
  imdb_id = none;
  title = none;
  year = none;
  kind =
      some
        (if json_is "tv" (get_field "mediaType" media) then MediaKind.series else MediaKind.movie);
  detail = end;
}

abbrev user_ref : Stdlib → Json → Option UserRef
user_ref lib username =
    if truthy username
    then some (record {
      user_id = none;
      display = some (py_str lib username);
      provider = some IdentityProvider.seerr;
      external_id = some (py_str lib username);
    })
    else none

abbrev pub or_time : Option Time → Option Time → Option Time
or_time none second = second
or_time (some t) second = some t

module _ (lib : Stdlib) (parse_time : String → Option Time) where
  -- `_seerr_expected` of an object: the events, in order.
  unfoldable pub expected_of : String → (ℕ → String) → Fields → Result (List CanonicalEvent)
  unfolding expected_events parse_dt
  expected_of source ids request = bind (as_dict (get_dict "media" request)) (λ media.
      bind (as_dict (get_dict "requestedBy" request)) (λ requester.
        bind (parse_dt parse_time (get_field "createdAt" request)) (λ created_at.
          bind (parse_dt parse_time (get_field "updatedAt" request)) (λ updated_at. ok (
            expected_events lib
              (record {
                source = source;
                request_id = get_field "id" request;
                media = media_ref lib media;
                user = user_ref lib (get_field "username" requester);
              })
              ids created_at (or_time updated_at created_at) (get_field "status" request)
              (get_field "status" media))))))

  unfoldable pub seerr_expected : String → (ℕ → String) → Json → Result (List CanonicalEvent)
  unfolding expected_of
  seerr_expected source ids request = bind (as_dict request) (λ fs. expected_of source ids fs)

-- `_NotifyingApplier`: `kill` is the kill switch's flag, or None.
module _ (lib : Stdlib) (hash : RenderedMessage → String) (routing : RoutingConfig)
    (kill : Option Bool) (now : Time) where
  -- A new event is fanned out.
  unfoldable pub notify_new : Option Bool → Bool × CanonicalEvent → Exec Db Bool
  notify_new none (inserted, event) = pure inserted
  notify_new (some env_override) (false, event) = pure false
  notify_new (some env_override) (true, event) = do
    _ ← enqueue_for_event lib hash routing env_override event now
    pure true

  unfoldable pub apply_notifying : CanonicalEvent → Exec Db Bool
  unfolding notify_new
  apply_notifying event = do applied ← apply lib event now; notify_new kill applied

  abbrev from_reconcile : Origin → Bool
  from_reconcile Origin.webhook = false
  from_reconcile Origin.reconcile = true
  from_reconcile Origin.manual = false

  -- The row is of a run that began after the window's start.
  abbrev pub is_owed : Time → EventRow → Bool
  is_owed window_start row = from_reconcile row.origin && not (leb row.received_at window_start)

  -- The event of a row, fanned out again.
  unfoldable pub refan : Bool → Result CanonicalEvent → Exec Db (Unit {0})
  refan env_override (raised exc) db = (raised exc, db)
  refan env_override (ok event) db =
      continue (λ n. pure tt) (enqueue_for_event lib hash routing env_override event now db)

  unfoldable pub repair : Option Bool → Time → EventRow → Exec Db (Unit {0})
  unfolding refan
  repair none window_start row db = (ok tt, db)
  repair (some env_override) window_start row db =
      if is_owed window_start row
      then refan env_override (event_from_row db row) db
      else (ok tt, db)

  -- One event: known, or to be recovered. Gives the count.
  unfoldable pub recover : Time → CanonicalEvent → ℕ → Option EventRow → Exec Db ℕ
  unfolding repair apply_notifying
  recover window_start event recovered (some row) = do repair kill window_start row; pure recovered
  recover window_start event recovered none = do
    inserted ← apply_notifying (record event { received_at = some now })
    pure (if inserted then recovered + 1 else recovered)

  unfoldable pub recover_events : Time → List CanonicalEvent → ℕ → Exec Db ℕ
  unfolding recover
  recover_events window_start [] recovered db = (ok recovered, db)
  recover_events window_start (event ∷ events) recovered db =
      continue (recover_events window_start events)
        (recover window_start event recovered (get_event_by_key db event.source_event_key) db)

  unfoldable pub recover_expected : Time → Result (List CanonicalEvent) → ℕ → Exec Db ℕ
  unfolding recover_events
  recover_expected window_start (raised exc) recovered db = (raised exc, db)
  recover_expected window_start (ok events) recovered db =
      recover_events window_start events recovered (record db { drawn = db.drawn + length events })

  -- `_reconcile_seerr`, over the requests that the client gives.
  unfoldable pub reconcile_seerr :
      (String → Option Time) → String → List Json → Time → ℕ → Exec Db ℕ
  unfolding recover_expected seerr_expected
  reconcile_seerr parse_time source [] window_start recovered db = (ok recovered, db)
  reconcile_seerr parse_time source (request ∷ requests) window_start recovered db =
      continue (reconcile_seerr parse_time source requests window_start) (
        recover_expected window_start
          (seerr_expected lib parse_time source (λ n. db.ids (db.drawn + n)) request) recovered db)

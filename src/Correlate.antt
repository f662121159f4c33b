-- ===== src/Correlate.antt =====
-- src/costanza/correlate: media identity, user identity, persistence and request chains.
pub mod Rule
pub mod Frames
pub mod Stored
pub mod Dedup
pub mod Repair
pub mod Chains
pub mod Aside
use costanza.Prelude.{
  ℕ, zero, suc, String, Bool, true, false, not, ◌&&◌, ◌||◌, Option, none, some, List, ltb, ◌==◌,
  if◌then◌else◌, is_some, or_else,
}
use costanza.Json.{
  Json, null, obj, str, bool, int, arr, Fields, end, field, get_field, set_default, truthy,
}
use costanza.Result.{Exception, Result, ok, raised, Exec, ◌>>=◌, ◌>>◌, pure, raise, gets}
use costanza.Stdlib.{Stdlib, py_str}
use costanza.Schemas.{Time, EventType, CanonicalEvent, MediaRef, UserRef, IdentityProvider}
use costanza.Config.{value_error}
use costanza.Store.{Db, ChainRow, ChainState, SourceRow, UserRow}
use costanza.Store.Events.{source_by_name, insert_event}
use costanza.Store.Media.{find_or_create_media, has_ids, text_truthy, or_try}
use costanza.Store.Users.{provider_name, resolve_identity, observe_identity}
use costanza.Store.Chains.{chain_by_request_id, open_chain_for_media, create_chain, update_chain}

abbrev optional_text : Option String → Json
optional_text none = null
optional_text (some s) = str s

-- The note that an event with an unmapped user gets.
unmapped_note : IdentityProvider → String → Option String → Json
unmapped_note provider external_id display = obj (
    field "provider" (str (provider_name provider))
      (field "external_id" (str external_id) (field "display" (optional_text display) end)))

-- With the member that the identity is mapped to, or noted as unmapped.
unfoldable pub settle_user :
    CanonicalEvent → UserRef → IdentityProvider → String → Option UserRow → Db → CanonicalEvent × Db
unfolding unmapped_note
settle_user event user provider external_id (some hit) db = (
  record event {
    user = some (record user { user_id = some hit.id; display = some hit.display_name });
  },
  db,
)
settle_user event user provider external_id none db = (
  record event {
    user = some (record user { user_id = none });
    attrs =
        set_default "unmapped_user" (unmapped_note provider external_id user.display) event.attrs;
  },
  (observe_identity provider external_id db).1,
)

unfoldable pub resolve_hint :
    CanonicalEvent → UserRef → Option IdentityProvider → Option String → Db → CanonicalEvent × Db
unfolding settle_user
resolve_hint event user (some provider) (some external_id) db =
    settle_user event user provider external_id (resolve_identity db provider external_id) db
resolve_hint event user _ _ db = (event, db)

-- identity.py: `resolve_user`, by the event's hint.
unfoldable pub resolve_user_ref : CanonicalEvent → Option UserRef → Db → CanonicalEvent × Db
unfolding resolve_hint
resolve_user_ref event none db = (event, db)
resolve_user_ref event (some user) db = resolve_hint event user user.provider user.external_id db

unfoldable pub resolve_user : CanonicalEvent → Db → CanonicalEvent × Db
unfolding resolve_user_ref
resolve_user event db = resolve_user_ref event event.user db

-- _CHAIN_STATES
abbrev pub chain_state : EventType → Option ChainState
chain_state EventType.request_created = some ChainState.requested
chain_state EventType.request_approved = some ChainState.approved
chain_state EventType.request_declined = some ChainState.declined
chain_state EventType.request_available = some ChainState.available
chain_state _ = none

-- _CLOSING_STATES
abbrev pub closes : ChainState → Bool
closes ChainState.declined = true
closes ChainState.available = true
closes _ = false

-- _STATE_RANK
abbrev pub rank : ChainState → ℕ
rank ChainState.requested = 0
rank ChainState.approved = 1
rank ChainState.partially_available = 2
rank ChainState.available = 3
rank ChainState.declined = 3

-- The state that an event proposes: a partial availability is a state of its own.
unfoldable pub proposed_state : EventType → Fields → ChainState → ChainState
proposed_state EventType.request_available attrs state =
    if truthy (get_field "partial" attrs) then ChainState.partially_available else state
proposed_state _ attrs state = state

-- What an event says of a chain.
pub record Move : Type 0 where
  pub state : ChainState
  pub occurred : Time
  pub request_id : Option String
  pub media_id : Option String
  pub user_id : Option String

-- `attrs.get("request_id")`: a falsy value is looked up nowhere, and what is stored is its `str`.
abbrev pub request_key : Stdlib → Json → Option String
request_key lib null = none
request_key lib v = some (py_str lib v)

unfoldable pub move_of : Stdlib → CanonicalEvent → ChainState → Time → Move
unfolding proposed_state
move_of lib event state now = record {
  state = proposed_state event.type event.attrs state;
  occurred = or_else event.occurred_at (or_else event.received_at now);
  request_id = request_key lib (get_field "request_id" event.attrs);
  media_id = elim event.media [ none ↦ none | some m ↦ m.media_id ];
  user_id = elim event.user [ none ↦ none | some u ↦ u.user_id ];
}

abbrev pub chain_for_media : Db → Option String → Option ChainRow
chain_for_media db none = none
chain_for_media db (some media_id) =
    if media_id == "" then none else open_chain_for_media db media_id

abbrev pub chain_for_request : Db → Bool → Option String → Option ChainRow
chain_for_request db false request_id = none
chain_for_request db true none = none
chain_for_request db true (some request_id) = chain_by_request_id db request_id

-- By request id (if it is truthy), else the newest open chain of the media.
unfoldable pub find_chain : Db → Bool → Move → Option ChainRow
find_chain db has_request move =
    or_try (chain_for_request db has_request move.request_id) (chain_for_media db move.media_id)

abbrev pub closing_time : Move → Option Time
closing_time move = if closes move.state then some move.occurred else none

abbrev pub only_if_missing {ℓ} : {A : Type ℓ} → Option A → Option A → Option A
only_if_missing none value = value
only_if_missing (some old) value = none

-- A closed chain and a lower state are left alone.
unfoldable pub advance_found : Move → ChainRow → Exec Db (Unit {0})
advance_found move chain db =
    if is_some chain.closed_at
    then (ok tt, db)
    else if ltb (rank move.state) (rank chain.state)
    then (ok tt, db)
    else update_chain chain.id (some move.state) (closing_time move)
        (only_if_missing chain.media_id move.media_id)
        (only_if_missing chain.requested_by move.user_id) db

unfoldable pub open_chain : Move → Exec Db (Unit {0})
open_chain move = do
  _ ←
      create_chain move.media_id move.request_id move.user_id move.state move.occurred
        (closing_time move)
  pure tt

abbrev pub advance_or_open : Move → Option ChainRow → Exec Db (Unit {0})
advance_or_open move none = open_chain move
advance_or_open move (some chain) = advance_found move chain

-- `_advance_chain`, for an event of a type that `_CHAIN_STATES` maps to `state`.
unfoldable pub advance_chain : Stdlib → CanonicalEvent → ChainState → Time → Exec Db (Unit {0})
unfolding find_chain advance_found open_chain move_of
advance_chain lib event state now db =
    let move = move_of lib event state now in
    let has_request = truthy (get_field "request_id" event.attrs) in
    advance_or_open move (find_chain db has_request move) db

-- The guard before `find_or_create_media`.
abbrev pub needs_media : MediaRef → Bool
needs_media media = not (is_some media.media_id) && (has_ids media || text_truthy media.title)

abbrev pub with_media_id : CanonicalEvent → MediaRef → String → CanonicalEvent
with_media_id event media id = record event { media = some (record media { media_id = some id }) }

unfoldable pub resolve_media_ref : CanonicalEvent → Option MediaRef → Time → Exec Db CanonicalEvent
resolve_media_ref event none now = pure event
resolve_media_ref event (some media) now =
    if needs_media media
    then (do media_id ← find_or_create_media media now; pure (with_media_id event media media_id))
    else pure event

unfoldable pub resolve_media : CanonicalEvent → Time → Exec Db CanonicalEvent
unfolding resolve_media_ref
resolve_media event now = resolve_media_ref event event.media now

abbrev pub received : Time → CanonicalEvent → CanonicalEvent
received now event = record event { received_at = some (or_else event.received_at now) }

abbrev pub advance_if : Stdlib → CanonicalEvent → Option ChainState → Time → Exec Db (Unit {0})
advance_if lib event none now = pure tt
advance_if lib event (some state) now = advance_chain lib event state now

-- The user is resolved, and `received_at` set where it is missing.
abbrev pub resolve_user_at : Time → CanonicalEvent → Exec Db CanonicalEvent
resolve_user_at now event db =
    (ok (received now (resolve_user event db).0), (resolve_user event db).1)

-- The steps of `Correlator.apply`, from the last to the first.
unfoldable pub finish :
    Stdlib → CanonicalEvent → Option ChainState → Time → Bool → Exec Db (Bool × CanonicalEvent)
finish lib event state now inserted = do advance_if lib event state now; pure (inserted, event)

unfoldable pub store_event : Stdlib → ℕ → CanonicalEvent → Time → Exec Db (Bool × CanonicalEvent)
unfolding finish
store_event lib source_id event now = do
  inserted ← insert_event event source_id now
  finish lib event (chain_state event.type) now inserted

unfoldable pub correlate_user : Stdlib → ℕ → CanonicalEvent → Time → Exec Db (Bool × CanonicalEvent)
unfolding store_event
correlate_user lib source_id event now = do
  event ← resolve_user_at now event
  store_event lib source_id event now

unfoldable pub apply_from : Stdlib → ℕ → CanonicalEvent → Time → Exec Db (Bool × CanonicalEvent)
unfolding correlate_user resolve_media resolve_user
apply_from lib source_id event now = do
  event ← resolve_media event now
  correlate_user lib source_id event now

unfoldable pub apply_at :
    Stdlib → CanonicalEvent → Time → Option SourceRow → Exec Db (Bool × CanonicalEvent)
unfolding apply_from
apply_at lib event now none db = (raised (value_error "event from unregistered source"), db)
apply_at lib event now (some row) db = apply_from lib row.id event now db

-- engine.py: `Correlator.apply`. It fills in the caller's event, which is returned beside the flag
-- that says whether the event was new.
unfoldable pub apply : Stdlib → CanonicalEvent → Time → Exec Db (Bool × CanonicalEvent)
unfolding apply_at
apply lib event now db = apply_at lib event now (source_by_name db event.source) db

-- ===== src/Correlate/Frames.antt =====
-- What the steps of `Correlator.apply` (src/costanza/correlate/engine.py) leave alone.
use costanza.Prelude.{ℕ, String, ◌≡◌, Option, none, some, arith}
use costanza.Result.{continue-state}
use costanza.Stdlib.{Stdlib}
use costanza.Schemas.{Time, CanonicalEvent, MediaRef, IdentityProvider}
use costanza.Store.{Db, ChainRow, ChainState}
use costanza.Store.Chains.{create_chain, update_chain}
use costanza.Store.Events.{insert_event}
use costanza.Store.Media.{find_or_create_media}
use costanza.Store.Users.{observe_identity}
use costanza.Correlate.{
  Move, closing_time, move_of, open_chain, advance_found, advance_or_open, advance_chain,
}

pub find_or_create_media-request_chains :
    (ref : MediaRef) (now : Time) (db : Db)
    → (find_or_create_media ref now db).1.request_chains ≡ db.request_chains
unfolding find_or_create_media
find_or_create_media-request_chains ref now db = ground arith

pub find_or_create_media-events :
    (ref : MediaRef) (now : Time) (db : Db) → (find_or_create_media ref now db).1.events ≡ db.events
unfolding find_or_create_media
find_or_create_media-events ref now db = ground arith

pub observe_identity-request_chains :
    (p : IdentityProvider) (x : String) (db : Db)
    → (observe_identity p x db).1.request_chains ≡ db.request_chains
unfolding observe_identity
observe_identity-request_chains p x db = ground arith

pub observe_identity-events :
    (p : IdentityProvider) (x : String) (db : Db) → (observe_identity p x db).1.events ≡ db.events
unfolding observe_identity
observe_identity-events p x db = ground arith

pub insert_event-request_chains :
    (event : CanonicalEvent) (source_id : ℕ) (now : Time) (db : Db)
    → (insert_event event source_id now db).1.request_chains ≡ db.request_chains
unfolding insert_event
insert_event-request_chains event source_id now db = ground arith

create_chain-events :
    (media_id request_id user_id : Option String) (state : ChainState) (opened : Time)
    (closed : Option Time) (db : Db)
    → (create_chain media_id request_id user_id state opened closed db).1.events ≡ db.events
unfolding create_chain
create_chain-events media_id request_id user_id state opened closed db = ground arith

open_chain-events : (move : Move) (db : Db) → (open_chain move db).1.events ≡ db.events
unfolding open_chain
open_chain-events move db =
    continue-state (λ (s : Db). s.events ≡ db.events) (λ (s : Db). s.events ≡ db.events) _
      (create_chain move.media_id move.request_id move.user_id move.state move.occurred
        (closing_time move) db)
      (create_chain-events move.media_id move.request_id move.user_id move.state move.occurred
        (closing_time move) db)
      (λ s h. h) (λ a s h. h)

advance_found-events :
    (move : Move) (chain : ChainRow) (db : Db) → (advance_found move chain db).1.events ≡ db.events
unfolding advance_found update_chain
advance_found-events move chain db = ground arith

advance_or_open-events :
    (move : Move) (chain : Option ChainRow) (db : Db)
    → (advance_or_open move chain db).1.events ≡ db.events
advance_or_open-events move none db = open_chain-events move db
advance_or_open-events move (some chain) db = advance_found-events move chain db

pub advance_chain-events :
    (lib : Stdlib) (e : CanonicalEvent) (state : ChainState) (now : Time) (db : Db)
    → (advance_chain lib e state now db).1.events ≡ db.events
unfolding advance_chain
advance_chain-events lib e state now db = advance_or_open-events (move_of lib e state now) _ db

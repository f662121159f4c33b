-- ===== src/Correlate/Aside.antt =====
-- `Correlator.apply` (src/costanza/correlate/engine.py) and the two queues: the outbox and the
-- ledger of notifications.
use costanza.Prelude.{ℕ, String, ◌≡◌, refl, ◌∙◌, Option, none, some, arith}
use costanza.Result.{continue-state}
use costanza.Stdlib.{Stdlib}
use costanza.Schemas.{Time, CanonicalEvent, MediaRef, IdentityProvider}
use costanza.Store.{Db, ChainRow, ChainState}
use costanza.Store.Chains.{create_chain, update_chain}
use costanza.Store.Events.{insert_event}
use costanza.Store.Media.{find_or_create_media}
use costanza.Store.Users.{observe_identity}
use costanza.Correlate.Rule.{apply-rule}
use costanza.Correlate.{
  Move, closing_time, move_of, open_chain, advance_found, advance_or_open, advance_chain, apply,
}

-- Both queues are those of `db`.
abbrev pub SameQueues : Db → Db → Type 0
SameQueues db s = (s.outbox ≡ db.outbox) × (s.notifications ≡ db.notifications)

pub find_or_create_media-SameQueues :
    (ref : MediaRef) (now : Time) (db : Db) → SameQueues db (find_or_create_media ref now db).1
unfolding find_or_create_media
find_or_create_media-SameQueues ref now db = (ground arith, ground arith)

observe_identity-SameQueues :
    (p : IdentityProvider) (x : String) (db : Db) → SameQueues db (observe_identity p x db).1
unfolding observe_identity
observe_identity-SameQueues p x db = (ground arith, ground arith)

insert_event-SameQueues :
    (event : CanonicalEvent) (source_id : ℕ) (now : Time) (db : Db)
    → SameQueues db (insert_event event source_id now db).1
unfolding insert_event
insert_event-SameQueues event source_id now db = (ground arith, ground arith)

create_chain-SameQueues :
    (media_id request_id user_id : Option String) (state : ChainState) (opened : Time)
    (closed : Option Time) (db : Db)
    → SameQueues db (create_chain media_id request_id user_id state opened closed db).1
unfolding create_chain
create_chain-SameQueues media_id request_id user_id state opened closed db =
    (ground arith, ground arith)

advance_or_open-SameQueues :
    (move : Move) (chain : Option ChainRow) (db : Db)
    → SameQueues db (advance_or_open move chain db).1
unfolding open_chain advance_found update_chain
advance_or_open-SameQueues move none db =
    continue-state (λ (s : Db). SameQueues db s) (λ (s : Db). SameQueues db s) _
      (create_chain move.media_id move.request_id move.user_id move.state move.occurred
        (closing_time move) db)
      (create_chain-SameQueues move.media_id move.request_id move.user_id move.state move.occurred
        (closing_time move) db)
      (λ s h. h) (λ a s h. h)
advance_or_open-SameQueues move (some chain) db = (ground arith, ground arith)

-- `apply` leaves the outbox and the ledger alone.
pub apply-SameQueues :
    (lib : Stdlib) (event : CanonicalEvent) (now : Time) (db : Db)
    → SameQueues db (apply lib event now db).1
unfolding advance_chain
apply-SameQueues lib event now db =
    let P = λ (s : Db). SameQueues db s in
    apply-rule lib event now P P P
      (record {
        media =
            λ ref s h. let k = find_or_create_media-SameQueues ref now s in (k.0 ∙ h.0, k.1 ∙ h.1);
        user = λ p x s h. let k = observe_identity-SameQueues p x s in (k.0 ∙ h.0, k.1 ∙ h.1);
        insert = λ e source_id s same h.
            let k = insert_event-SameQueues e source_id now s in (k.0 ∙ h.0, k.1 ∙ h.1);
        advance = λ e state s h.
            let k = advance_or_open-SameQueues (move_of lib e state now) _ s in
            (k.0 ∙ h.0, k.1 ∙ h.1);
        refused = λ s h. h;
        stored = λ s h. h;
      })
      db (refl, refl)

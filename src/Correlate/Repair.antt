-- ===== src/Correlate/Repair.antt =====
-- Crash repair in src/costanza/correlate/engine.py: what running the chain advancement of one event
-- twice does.
use costanza.Prelude.{
  ◌≤◌, String, ◌≡◌, refl, ◌∙◌, ap, true, false, Option, none, some, [], ◌∷◌, arith, any, find?,
  filter, sort_by_desc, length, update_where, eq_iff, ◌==◌,
}
use costanza.Json.{Json, null, truthy, get_field}
use costanza.Stdlib.{Stdlib, py_str}
use costanza.Schemas.{Time, CanonicalEvent, MediaRef}
use costanza.Store.{Db, ChainRow, ChainState}
use costanza.Store.Events.{has_media_id}
use costanza.Store.Chains.{
  column_is, chain_by_request_id, open_chain_for_media, create_chain, update_chain, set_chain,
}
use costanza.Correlate.{
  request_key, move_of, chain_state, advance_if, advance_chain, Move, rank, closes, find_chain,
  advance_found, open_chain, advance_or_open,
}

-- `_advance_chain` for a move whose request id is truthy.
abbrev pub advanced : Move → Db → Db
advanced move db = (advance_or_open move (find_chain db true move) db).1

-- A request `q` for the media `m` that closes, while the only chain of the media is another
-- request's, and open.
abbrev pub late_move : ChainState → Time → String → String → Option String → Move
late_move state occurred q m user = record {
  state = state;
  occurred = occurred;
  request_id = some q;
  media_id = some m;
  user_id = user;
}

abbrev pub other_chain :
    String → String → Option String → Option String → ChainState → Time → ChainRow
other_chain id m request user state opened = record {
  id = id;
  media_id = some m;
  seerr_request_id = request;
  requested_by = user;
  state = state;
  opened_at = opened;
  closed_at = none;
}

module _ (state : ChainState) (occurred : Time) (q m : String) (user : Option String) (id : String)
    (request requester : Option String) (was : ChainState) (opened : Time) (db : Db) where
  abbrev pub move : Move
  move = late_move state occurred q m user

  abbrev pub chain : ChainRow
  chain = other_chain id m request requester was opened

  abbrev pub before : Db
  before = record db { request_chains = chain ∷ [] }

  find_other :
      (m == "") ≡ false → column_is q request ≡ false → find_chain before true move ≡ some chain
  unfolding find_chain chain_by_request_id open_chain_for_media find? filter sort_by_desc
  find_other named apart = ground (arith, eq_iff m m)

  abbrev after : Db
  after = advanced move before

  abbrev pub closed : ChainRow
  closed = record chain {
    state = state;
    closed_at = some occurred;
    requested_by = elim requester [ none ↦ user | some u ↦ some u ];
  }

  rank_top : closes state ≡ true → rank was ≤ rank state
  rank_top h = ground arith

  close_other :
      closes state ≡ true
      → (advance_found move chain before).1 ≡ record before { request_chains = closed ∷ [] }
  unfolding advance_found update_chain set_chain any update_where
  close_other h = ground (arith, rank_top h, eq_iff id id)

  abbrev once : Db
  once = record before { request_chains = closed ∷ [] }

  find_none : (m == "") ≡ false → column_is q request ≡ false → find_chain once true move ≡ none
  unfolding find_chain chain_by_request_id open_chain_for_media find? filter sort_by_desc
  find_none named apart = ground (arith, eq_iff m m)

  opens_second :
      (db.ids db.drawn == id) ≡ false
      → (id == db.ids db.drawn) ≡ false
      → column_is q request ≡ false
      → any (λ row. has_media_id row m) db.media ≡ true
      → length (open_chain move once).1.request_chains ≡ 2
  unfolding open_chain create_chain any
  opens_second fresh fresh' apart stored = ground arith

  -- The two runs of one move.
  advanced_twice :
      closes state ≡ true
      → (m == "") ≡ false
      → column_is q request ≡ false
      → (id == db.ids db.drawn) ≡ false
      → any (λ row. has_media_id row m) db.media ≡ true
      → ((advanced move before).request_chains ≡ closed ∷ [])
        × (length (advanced move (advanced move before)).request_chains ≡ 2)
  advanced_twice closing named apart fresh stored =
      let first : advanced move before ≡ once =
        ap (λ c. (advance_or_open move c before).1) (find_other named apart)
        ∙ close_other closing in
      let fresh' : (db.ids db.drawn == id) ≡ false =
        ground (arith, eq_iff (db.ids db.drawn) id, eq_iff id (db.ids db.drawn)) in
      rw first (
        refl,
        ap (λ c. length (advance_or_open move c once).1.request_chains) (find_none named apart)
            ∙ opens_second fresh' fresh apart stored,
      )

move-eq-late :
    (move : Move) (q m : String)
    → move.request_id ≡ some q
    → move.media_id ≡ some m
    → move ≡ late_move move.state move.occurred q m move.user_id
move-eq-late move q m p h =
    ap (λ r. record move { request_id = r }) p
    ∙ ap (λ x. record move { request_id = some q; media_id = x }) h

request_key-truthy :
    (lib : Stdlib) (v : Json) → truthy v ≡ true → request_key lib v ≡ some (py_str lib v)
request_key-truthy lib null h = cc
request_key-truthy lib (Json.bool b) h = refl
request_key-truthy lib (Json.int n) h = refl
request_key-truthy lib (Json.str t) h = refl
request_key-truthy lib (Json.arr xs) h = refl
request_key-truthy lib (Json.obj fs) h = refl

module _ (lib : Stdlib) (event : CanonicalEvent) (now : Time) where
  -- What `apply` runs for an event that is stored already, after the insert.
  abbrev pub repaired : Db → Db
  repaired d = (advance_if lib event (chain_state event.type) now d).1

  module _ (base : ChainState) (ref : MediaRef) (m id : String) (request requester : Option String)
      (was : ChainState) (opened : Time) (db : Db) (typed : chain_state event.type ≡ some base)
      (asked : truthy (get_field "request_id" event.attrs) ≡ true) (about : event.media ≡ some ref)
      (resolved : ref.media_id ≡ some m) where
    abbrev said : Move
    said = move_of lib event base now

    abbrev q : String
    q = py_str lib (get_field "request_id" event.attrs)

    said-eq-late : said ≡ late_move said.state said.occurred q m said.user_id
    unfolding move_of
    said-eq-late =
        move-eq-late said q m (request_key-truthy lib (get_field "request_id" event.attrs) asked)
          (rw about resolved)

    repaired-advanced :
        (d : Db) → repaired d ≡ advanced (late_move said.state said.occurred q m said.user_id) d
    unfolding advance_chain
    repaired-advanced d =
        ap (λ (st : Option ChainState). (advance_if lib event st now d).1) typed
        ∙ ap (λ b. (advance_or_open said (find_chain d b said) d).1) asked
        ∙ ap (λ (mv : Move). advanced mv d) said-eq-late

    abbrev pub others : Db
    others = before said.state said.occurred q m said.user_id id request requester was opened db

    -- Advancing a chain for one event twice is not the same as doing it once. The event is of a type
    -- that moves chains, to a state that closes them, with a request id that is truthy and a media
    -- row; the table of chains has exactly one row, an open chain of that media whose request id is
    -- another one or missing. Then the first run closes that chain, and the second opens another.
    pub repaired_twice :
        closes said.state ≡ true
        → (m == "") ≡ false
        → column_is q request ≡ false
        → (id == db.ids db.drawn) ≡ false
        → any (λ row. has_media_id row m) db.media ≡ true
        → ((repaired others).request_chains
            ≡ closed said.state said.occurred q m said.user_id id request requester was opened db
              ∷ [])
          × (length (repaired (repaired others)).request_chains ≡ 2)
    repaired_twice closing named apart fresh stored =
        rw (repaired-advanced (repaired others), repaired-advanced others)
          (advanced_twice said.state said.occurred q m said.user_id id request requester was opened
            db closing named apart fresh stored)

-- ===== src/Tests/CorrelateRuns.antt =====
-- Tests of the correlator.
use costanza.Prelude.{
  ◌≤◌, ◌≡◌, refl, none, some, [], ◌∷◌, arith, find?, count, any, length, UniqueIds,
}
use costanza.Store.{Db, EventRow, ChainState}
use costanza.Store.Events.{is_event, event_row}
use costanza.Stdlib.{py_str}
use costanza.Json.{str, end, field}
use costanza.Schemas.{CanonicalEvent, EventType, MediaRef}
use costanza.Correlate.{apply, move_of}
use costanza.Correlate.Chains.{Kept, chain_id, apply-Kept}
use costanza.Correlate.Dedup.{apply_unique, apply-known}
use costanza.Correlate.Repair.{repaired, repaired_twice}
use costanza.Tests.Samples.{db, lib, event, chain}

chains_unique : UniqueIds chain_id db.request_chains
unfolding count
chains_unique i = ground arith

apply-Kept_example : Kept chain (apply lib event 200 db).1.request_chains
unfolding find?
apply-Kept_example = apply-Kept lib event 200 chain db chains_unique refl

-- The event as it is stored, and a state that holds it.
abbrev stored : EventRow
stored = event_row event 1 200

abbrev later : Db
later = record db { events = stored ∷ [] }

apply_unique_example :
    count (is_event event.source_event_key) (apply lib event 200 later).1.events ≤ 1
unfolding count event_row
apply_unique_example = apply_unique lib event 200 later event.source_event_key (omega arith)

apply-known_example : (apply lib event 300 later).1.events ≡ stored ∷ []
unfolding any event_row
apply-known_example = apply-known lib event 300 later refl

-- The request 8 becomes available, of a media whose only chain is that of the request 7.
abbrev about : MediaRef
about = record {
  media_id = some "media-1";
  tmdb_id = none;
  tvdb_id = none;
  imdb_id = none;
  title = some "Heat";
  year = none;
  kind = none;
  detail = end;
}

abbrev available : CanonicalEvent
available = record event {
  type = EventType.request_available;
  media = some about;
  attrs = field "request_id" (str "8") end;
}

repaired_twice_example :
    ((repaired lib available 200 (record db { request_chains = chain ∷ [] })).request_chains
      ≡ record chain { state = ChainState.available; closed_at = some 200 } ∷ [])
    × (length
          (repaired lib available 200
            (repaired lib available 200 (record db { request_chains = chain ∷ [] }))).request_chains
        ≡ 2)
unfolding any move_of py_str
repaired_twice_example =
    repaired_twice lib available 200 ChainState.available about "media-1" "chain-1" (some "7") none
      ChainState.approved 100 db refl refl refl refl refl refl refl refl refl

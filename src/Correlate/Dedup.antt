-- ===== src/Correlate/Dedup.antt =====
-- Events by their `source_event_key`, through `Correlator.apply` of
-- src/costanza/correlate/engine.py.
use costanza.Prelude.{
  ℕ, ◌≤◌, String, ◌≡◌, refl, ◌∙◌, true, some, arith, any, find?, count, count-append_row,
  find?-append_row, count-eq-zero_of_not-any, eq_iff,
}
use costanza.Stdlib.{Stdlib}
use costanza.Schemas.{Time, CanonicalEvent}
use costanza.Store.{Db, EventRow}
use costanza.Store.Events.{is_event, event_row, insert_event}
use costanza.Correlate.{apply}
use costanza.Correlate.Rule.{apply-rule}
use costanza.Correlate.Frames.{
  find_or_create_media-events, observe_identity-events, advance_chain-events,
}

insert_event-count :
    (event : CanonicalEvent) (source_id : ℕ) (now : Time) (db : Db) (key : String)
    → count (is_event key) db.events ≤ 1
    → count (is_event key) (insert_event event source_id now db).1.events ≤ 1
unfolding insert_event event_row
insert_event-count event source_id now db key once = ground (
  arith,
  eq_iff event.source_event_key key,
  count-append_row (is_event key) db.events (event_row event source_id now),
  count-eq-zero_of_not-any (is_event key) db.events,
)

insert_event-found :
    (event : CanonicalEvent) (source_id : ℕ) (now : Time) (db : Db) (key : String) (r : EventRow)
    → find? (is_event key) db.events ≡ some r
    → find? (is_event key) (insert_event event source_id now db).1.events ≡ some r
unfolding insert_event event_row
insert_event-found event source_id now db key r found =
    ground (arith, find?-append_row (is_event key) db.events (event_row event source_id now))

insert_event-known :
    (event : CanonicalEvent) (source_id : ℕ) (now : Time) (db : Db)
    → any (is_event event.source_event_key) db.events ≡ true
    → (insert_event event source_id now db).1.events ≡ db.events
unfolding insert_event event_row
insert_event-known event source_id now db known = ground arith

module _ (lib : Stdlib) (event : CanonicalEvent) (now : Time) (db : Db) where
  -- `apply` keeps the keys of events unique, whether it raises or not.
  pub apply_unique :
      (key : String)
      → count (is_event key) db.events ≤ 1
      → count (is_event key) (apply lib event now db).1.events ≤ 1
  apply_unique key once =
      let P = λ (s : Db). count (is_event key) s.events ≤ 1 in
      apply-rule lib event now P P P
        (record {
          media = λ ref s h. rw (find_or_create_media-events ref now s) h;
          user = λ p x s h. rw (observe_identity-events p x s) h;
          insert = λ e source_id s same h. insert_event-count e source_id now s key h;
          advance = λ e state s h. rw (advance_chain-events lib e state now s) h;
          refused = λ s h. h;
          stored = λ s h. h;
        })
        db once

  -- A stored event stays as it is: `apply` never rewrites or drops the row of any key.
  pub apply-immutable :
      (key : String) (r : EventRow)
      → find? (is_event key) db.events ≡ some r
      → find? (is_event key) (apply lib event now db).1.events ≡ some r
  apply-immutable key r found =
      let P = λ (s : Db). find? (is_event key) s.events ≡ some r in
      apply-rule lib event now P P P
        (record {
          media = λ ref s h. rw (find_or_create_media-events ref now s) h;
          user = λ p x s h. rw (observe_identity-events p x s) h;
          insert = λ e source_id s same h. insert_event-found e source_id now s key r h;
          advance = λ e state s h. rw (advance_chain-events lib e state now s) h;
          refused = λ s h. h;
          stored = λ s h. h;
        })
        db found

  -- An event whose key is stored already adds nothing to the table of events.
  pub apply-known :
      any (is_event event.source_event_key) db.events ≡ true
      → (apply lib event now db).1.events ≡ db.events
  apply-known known =
      let P = λ (s : Db). s.events ≡ db.events in
      apply-rule lib event now P P P
        (record {
          media = λ ref s h. find_or_create_media-events ref now s ∙ h;
          user = λ p x s h. observe_identity-events p x s ∙ h;
          insert = λ e source_id s same h.
              insert_event-known e source_id now s (rw (same.key, h) known) ∙ h;
          advance = λ e state s h. advance_chain-events lib e state now s ∙ h;
          refused = λ s h. h;
          stored = λ s h. h;
        })
        db refl

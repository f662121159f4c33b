-- ===== src/Store/Events.antt =====
-- src/costanza/store/db.py, "sources" and "events".
use costanza.Prelude.{
  ℕ, ◌+◌, ◌-◌, String, Bool, true, false, ◌&&◌, ◌||◌, Option, none, some, List, [], ◌∷◌, ◌++◌, any,
  find?, filter, sort_by, sort_by_desc, take, or_else, ◌==◌, leb, eqb, if◌then◌else◌,
}
use costanza.Result.{ok, raised, Exec, integrity_error}
use costanza.Schemas.{Time, EventType, type_name, CanonicalEvent, hours}
use costanza.Store.{Db, SourceRow, MediaRow, UserRow, EventRow, refers_to}

unfoldable pub source_by_name : Db → String → Option SourceRow
source_by_name db name = find? (λ row. row.name == name) db.sources

unfoldable pub source_by_id : Db → ℕ → Option SourceRow
source_by_id db id = find? (λ row. eqb row.id id) db.sources

abbrev pub is_event : String → EventRow → Bool
is_event source_event_key row = row.source_event_key == source_event_key

abbrev pub has_media_id : MediaRow → String → Bool
has_media_id row id = row.id == id

abbrev pub has_user_id : UserRow → String → Bool
has_user_id row id = row.id == id

-- INSERT OR IGNORE skips a row whose id or key is taken; a foreign key that fails still raises.
insert_row : EventRow → Exec Db Bool
insert_row row db =
    if any (λ (r : EventRow). r.id == row.id) db.events
      || any (is_event row.source_event_key) db.events
    then (ok false, db)
    else if any (λ s. eqb s.id row.source_id) db.sources
        && refers_to has_media_id row.media_id db.media
        && refers_to has_user_id row.user_id db.users
    then (ok true, record db { events = db.events ++ row ∷ [] })
    else (raised integrity_error, db)

-- The row that an event is stored as; `now` is the clock where `received_at` is missing.
unfoldable pub event_row : CanonicalEvent → ℕ → Time → EventRow
event_row event source_id now =
    let received = or_else event.received_at now in
    record {
      id = event.id;
      source_event_key = event.source_event_key;
      source_id = source_id;
      origin = event.origin;
      type = event.type;
      occurred_at = or_else event.occurred_at received;
      received_at = received;
      media_id = elim event.media [ none ↦ none | some m ↦ m.media_id ];
      user_id = elim event.user [ none ↦ none | some u ↦ u.user_id ];
      attrs = event.attrs;
    }

-- `True` if the event was new.
unfoldable pub insert_event : CanonicalEvent → ℕ → Time → Exec Db Bool
unfolding insert_row event_row
insert_event event source_id now = insert_row (event_row event source_id now)

unfoldable pub event_key_exists : Db → String → Bool
event_key_exists db key = any (is_event key) db.events

unfoldable pub get_event_by_key : Db → String → Option EventRow
get_event_by_key db key = find? (is_event key) db.events

abbrev is_near : EventType → String → Time → Time → EventRow → Bool
is_near type media_id lo hi row =
    type_name row.type == type_name type
    && elim row.media_id [ none ↦ false | some id ↦ id == media_id ]
    && leb lo row.occurred_at
    && leb row.occurred_at hi

unfoldable pub has_event_near : Db → EventType → Option String → Time → ℕ → Bool
has_event_near db type none occurred_at window_hours = false
has_event_near db type (some media_id) occurred_at window_hours =
    any
      (is_near type media_id (occurred_at - hours window_hours) (occurred_at + hours window_hours))
      db.events

-- An optional filter of `list_events`; an empty text does not filter.
abbrev text_filter : Option String → Option String → Bool
text_filter none value = true
text_filter (some wanted) value = wanted == "" || elim value [ none ↦ false | some v ↦ v == wanted ]

abbrev since_filter : Option Time → Time → Bool
since_filter none occurred_at = true
since_filter (some since) occurred_at = leb since occurred_at

unfoldable pub list_events :
    Db → Option String → Option Time → Option String → Option String → ℕ → List EventRow
list_events db type since user_id media_id limit = take limit (
    sort_by_desc (λ (row : EventRow). row.occurred_at)
      (filter
        (λ row.
          text_filter type (some (type_name row.type))
          && since_filter since row.occurred_at
          && text_filter user_id row.user_id
          && text_filter media_id row.media_id)
        db.events))

unfoldable pub events_for_media : Db → String → List EventRow
events_for_media db media_id =
    sort_by (λ (row : EventRow). row.occurred_at)
      (filter (λ row. elim row.media_id [ none ↦ false | some id ↦ id == media_id ]) db.events)

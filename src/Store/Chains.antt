-- ===== src/Store/Chains.antt =====
-- src/costanza/store/db.py, "request chains".
use costanza.Prelude.{
  String, Bool, true, false, not, ◌&&◌, ◌||◌, Option, none, some, List, [], ◌∷◌, ◌++◌, any, find?,
  filter, update_where, sort_by, sort_by_desc, ◌==◌, ltb, if◌then◌else◌, is_some,
}
use costanza.Result.{ok, raised, Exec, integrity_error, ◌>>=◌}
use costanza.Schemas.{Time}
use costanza.Store.{Db, ChainRow, ChainState, new_id, refers_to}
use costanza.Store.Events.{has_media_id}

abbrev pub is_chain : String → ChainRow → Bool
is_chain id row = row.id == id

-- A nullable text column against a text: NULL equals nothing.
abbrev pub column_is : String → Option String → Bool
column_is value none = false
column_is value (some v) = v == value

abbrev pub has_request : String → ChainRow → Bool
has_request seerr_request_id row = column_is seerr_request_id row.seerr_request_id

abbrev pub is_open_for : String → ChainRow → Bool
is_open_for media_id row = column_is media_id row.media_id && not (is_some row.closed_at)

unfoldable pub chain_by_request_id : Db → String → Option ChainRow
chain_by_request_id db seerr_request_id = find? (has_request seerr_request_id) db.request_chains

abbrev pub first_of_list {ℓ} : {A : Type ℓ} → List A → Option A
first_of_list [] = none
first_of_list (x ∷ xs) = some x

unfoldable pub open_chain_for_media : Db → String → Option ChainRow
open_chain_for_media db media_id = first_of_list (
    sort_by_desc (λ (row : ChainRow). row.opened_at)
      (filter (is_open_for media_id) db.request_chains))

-- The unique index covers the rows whose request id is not NULL.
abbrev pub request_taken : Option String → List ChainRow → Bool
request_taken none rows = false
request_taken (some id) rows = any (has_request id) rows

insert_chain : ChainRow → Exec Db String
insert_chain row db =
    if any (is_chain row.id) db.request_chains
      || request_taken row.seerr_request_id db.request_chains
      || not (refers_to has_media_id row.media_id db.media)
    then (raised integrity_error, db)
    else (ok row.id, record db { request_chains = db.request_chains ++ row ∷ [] })

unfoldable pub create_chain :
    Option String → Option String → Option String → ChainState → Time → Option Time → Exec Db String
unfolding insert_chain new_id
create_chain media_id seerr_request_id requested_by state opened_at closed_at = do
  chain_id ← new_id
  insert_chain (record {
    id = chain_id;
    media_id = media_id;
    seerr_request_id = seerr_request_id;
    requested_by = requested_by;
    state = state;
    opened_at = opened_at;
    closed_at = closed_at;
  })

-- A column is written only where the argument is not None.
abbrev pub write {ℓ} : {A : Type ℓ} → Option A → Option A → Option A
write none old = old
write (some new) old = some new

abbrev pub write_state : Option ChainState → ChainState → ChainState
write_state none old = old
write_state (some new) old = new

unfoldable pub set_chain :
    Option ChainState → Option Time → Option String → Option String → ChainRow → ChainRow
set_chain state closed_at media_id requested_by row = record row {
  state = write_state state row.state;
  closed_at = write closed_at row.closed_at;
  media_id = write media_id row.media_id;
  requested_by = write requested_by row.requested_by;
}

unfoldable pub update_chain :
    String → Option ChainState → Option Time → Option String → Option String → Exec Db (Unit {0})
unfolding set_chain
update_chain chain_id state closed_at media_id requested_by db =
    if any (is_chain chain_id) db.request_chains && not (refers_to has_media_id media_id db.media)
    then (raised integrity_error, db)
    else (
      ok tt,
      record db {
        request_chains =
            update_where (is_chain chain_id) (set_chain state closed_at media_id requested_by)
              db.request_chains;
      },
    )

unfoldable pub chains_for_media : Db → String → List ChainRow
chains_for_media db media_id =
    sort_by (λ (row : ChainRow). row.opened_at)
      (filter (λ row. column_is media_id row.media_id) db.request_chains)

abbrev opened_before_filter : Option Time → ChainRow → Bool
opened_before_filter none row = true
opened_before_filter (some t) row = ltb row.opened_at t

unfoldable pub open_chains : Db → Option Time → List ChainRow
open_chains db opened_before =
    sort_by (λ (row : ChainRow). row.opened_at)
      (filter (λ row. not (is_some row.closed_at) && opened_before_filter opened_before row)
        db.request_chains)

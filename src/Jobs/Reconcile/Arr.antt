-- ===== src/Jobs/Reconcile/Arr.antt =====
-- src/costanza/jobs/reconcile.py: the repair of missed Radarr and Sonarr webhooks, from the history
-- records that the client gives.
use Prim.Native.Char.{code}
use costanza.Prelude.{
  ℕ, zero, suc, String, Bool, false, Option, none, some, List, [], ◌∷◌, ◌==◌, if◌then◌else◌,
  join_colon, format, or_else, eqb, ◌≡◌, refl,
}
use costanza.Json.{Json, str, Fields, get_field}
use costanza.Result.{Result, ok, raised, Exec, continue}
use costanza.Stdlib.{Stdlib, before_colon}
use costanza.Schemas.{Time, CanonicalEvent, EventType, type_name, MediaRef, RenderedMessage}
use costanza.Config.{RoutingConfig}
use costanza.Store.{Db, EventRow}
use costanza.Store.Events.{get_event_by_key, has_event_near}
use costanza.Store.Like.{event_key_like}
use costanza.Store.Media.{find_or_create_media}
use costanza.Normalize.Common.{as_dict}
use costanza.Jobs.Reconcile.{recover}
use costanza.Jobs.Reconcile.Records.{is_deleted, arr_record_event}

after_colon : String → String
after_colon String.[] = String.[]
after_colon (String.◌∷◌ c s) = let rest = after_colon s in if eqb (code c) b':' then s else rest

-- s.split(":")[n], for a text that has so many parts.
unfoldable pub segment : ℕ → String → String
unfolding before_colon after_colon
segment zero s = before_colon s
segment (suc n) s = segment n (after_colon s)

-- The fuzzy dedupe, for a `downloadId` that is a text or falsy.
unfoldable pub has_twin : Db → String → Json → CanonicalEvent → Bool
unfolding segment event_key_like
has_twin db source (str download_id) event =
    if download_id == ""
    then false
    else event_key_like db (
        join_colon (
          source
          ∷ type_name event.type
          ∷ segment 2 event.source_event_key
          ∷ format ("%" ∷ download_id ∷ [])
          ∷ []))
has_twin db source _ event = false

module _ (lib : Stdlib) (hash : RenderedMessage → String) (routing : RoutingConfig)
    (kill : Option Bool) (now : Time) where
  -- With the media resolved: a delete of the same media near the same time is the same delete.
  unfoldable pub after_media : Time → CanonicalEvent → MediaRef → ℕ → String → Exec Db ℕ
  unfolding has_event_near recover
  after_media window_start event ref recovered media_id db =
      if has_event_near db EventType.media_deleted (some media_id) (or_else event.occurred_at now)
        24
      then (ok recovered, db)
      else recover lib hash routing kill now window_start
          (record event { media = some (record ref { media_id = some media_id }) }) recovered none
          db

  unfoldable pub recover_deleted : Time → CanonicalEvent → ℕ → Option MediaRef → Exec Db ℕ
  unfolding after_media find_or_create_media recover
  recover_deleted window_start event recovered none db =
      recover lib hash routing kill now window_start event recovered none db
  recover_deleted window_start event recovered (some ref) db =
      continue (after_media window_start event ref recovered) (find_or_create_media ref now db)

  -- An event whose key is not stored.
  unfoldable pub recover_unknown : String → Time → Json → CanonicalEvent → ℕ → Exec Db ℕ
  unfolding has_twin recover_deleted recover
  recover_unknown source window_start download_id event recovered db =
      if has_twin db source download_id event
      then (ok recovered, db)
      else if is_deleted event.type
      then recover_deleted window_start event recovered event.media db
      else recover lib hash routing kill now window_start event recovered none db

  unfoldable pub recover_found :
      String → Time → Json → CanonicalEvent → ℕ → Option EventRow → Exec Db ℕ
  unfolding recover_unknown recover
  recover_found source window_start download_id event recovered none =
      recover_unknown source window_start download_id event recovered
  recover_found source window_start download_id event recovered (some row) =
      recover lib hash routing kill now window_start event recovered (some row)

  -- What is done with the event of a record.
  unfoldable pub recover_record :
      String → Time → Json → ℕ → Result (Option CanonicalEvent) → Exec Db ℕ
  unfolding recover_found
  recover_record source window_start download_id recovered (raised exc) db = (raised exc, db)
  recover_record source window_start download_id recovered (ok none) db = (ok recovered, db)
  recover_record source window_start download_id recovered (ok (some event)) db =
      recover_found source window_start download_id event recovered
        (get_event_by_key db event.source_event_key) (record db { drawn = suc db.drawn })

  unfoldable pub reconcile_record :
      (String → Option Time) → String → Time → ℕ → Result Fields → Exec Db ℕ
  unfolding recover_record arr_record_event
  reconcile_record parse_time source window_start recovered (raised exc) db = (raised exc, db)
  reconcile_record parse_time source window_start recovered (ok fs) db =
      recover_record source window_start (get_field "downloadId" fs) recovered
        (arr_record_event lib parse_time source (db.ids db.drawn) fs) db

  -- `_reconcile_arr`, over the history records that the client gives.
  unfoldable pub reconcile_arr : (String → Option Time) → String → List Json → Time → ℕ → Exec Db ℕ
  unfolding reconcile_record
  reconcile_arr parse_time source [] window_start recovered db = (ok recovered, db)
  reconcile_arr parse_time source (entry ∷ entries) window_start recovered db =
      continue (reconcile_arr parse_time source entries window_start)
        (reconcile_record parse_time source window_start recovered (as_dict entry) db)

segment_test : segment 2 "radarr:media.grabbed:603:abc" ≡ "603"
unfolding segment before_colon after_colon
segment_test = refl

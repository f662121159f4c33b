-- ===== src/Jobs/Reconcile/Keeps.antt =====
-- What the steps of a reconcile (src/costanza/jobs/reconcile.py) keep, the jobs keep.
use costanza.Prelude.{
  ℕ, or_else, ◌+◌, String, Bool, true, false, Option, none, some, List, [], ◌∷◌, if◌then◌else◌,
  Bool-cases, inl, inr,
}
use costanza.Json.{Json, ℤ, Fields, get_field}
use costanza.Result.{Result, ok, raised, continue-state}
use costanza.Stdlib.{Stdlib}
use costanza.Schemas.{Time, CanonicalEvent, MediaRef, RenderedMessage, EventType}
use costanza.Config.{RoutingConfig}
use costanza.Store.{Db, EventRow}
use costanza.Store.Events.{get_event_by_key, has_event_near}
use costanza.Store.Media.{find_or_create_media}
use costanza.Normalize.Common.{as_dict}
use costanza.Correlate.{apply}
use costanza.Notify.Pipeline.{enqueue_for_event, event_from_row}
use costanza.Jobs.Reconcile.{
  notify_new, apply_notifying, is_owed, refan, repair, recover, recover_events, recover_expected,
  seerr_expected, reconcile_seerr,
}
use costanza.Jobs.Reconcile.Records.{is_deleted, arr_record_event}
use costanza.Jobs.Reconcile.Arr.{
  has_twin, after_media, recover_deleted, recover_unknown, recover_found, recover_record,
  reconcile_record, reconcile_arr,
}
use costanza.Jobs.Reconcile.Tautulli.{
  is_watched, recover_watch, recover_row, reconcile_row, reconcile_tautulli,
}

module _ (lib : Stdlib) (hash : RenderedMessage → String) (routing : RoutingConfig)
    (kill : Option Bool) (now : Time) where
  -- What a correlation and a fan-out keep, the job keeps.
  pub record Keeps {κ} (P : Db → Type κ) : Type κ where
    pub applied : (event : CanonicalEvent) (s : Db) → P s → P (apply lib event now s).1
    pub fanned :
        (env_override : Bool) (event : CanonicalEvent) (s : Db)
        → P s
        → P (enqueue_for_event lib hash routing env_override event now s).1
    pub resolved : (ref : MediaRef) (s : Db) → P s → P (find_or_create_media ref now s).1
    pub drew : (n : ℕ) (s : Db) → P s → P (record s { drawn = n })

  module _ {κ} (P : Db → Type κ) (keeps : Keeps P) where
    notify_new_keeps :
        (k : Option Bool) (applied : Bool × CanonicalEvent) (s : Db)
        → P s
        → P (notify_new lib hash routing kill now k applied s).1
    unfolding notify_new
    notify_new_keeps none applied s h = h
    notify_new_keeps (some env_override) (false, event) s h = h
    notify_new_keeps (some env_override) (true, event) s h =
        continue-state {A = ℕ} {B = Bool} P P (λ n u. (ok true, u))
          (enqueue_for_event lib hash routing env_override event now s)
          (keeps.fanned env_override event s h) (λ u l. l) (λ n u l. l)

    pub apply_notifying_keeps :
        (event : CanonicalEvent) (s : Db)
        → P s
        → P (apply_notifying lib hash routing kill now event s).1
    unfolding apply_notifying
    apply_notifying_keeps event s h =
        continue-state P P (notify_new lib hash routing kill now kill) (apply lib event now s)
          (keeps.applied event s h) (λ u l. l) (notify_new_keeps kill)

    refan_keeps :
        (env_override : Bool) (event : Result CanonicalEvent) (s : Db)
        → P s
        → P (refan lib hash routing kill now env_override event s).1
    unfolding refan
    refan_keeps env_override (raised exc) s h = h
    refan_keeps env_override (ok event) s h =
        continue-state {A = ℕ} {B = Unit {0}} P P (λ n u. (ok tt, u))
          (enqueue_for_event lib hash routing env_override event now s)
          (keeps.fanned env_override event s h) (λ u l. l) (λ n u l. l)

    pub repair_keeps :
        (k : Option Bool) (window_start : Time) (row : EventRow) (s : Db)
        → P s
        → P (repair lib hash routing kill now k window_start row s).1
    unfolding repair
    repair_keeps none window_start row s h = h
    repair_keeps (some env_override) window_start row s h =
        elim (Bool-cases (is_owed lib hash routing kill now window_start row)) [
          | inl e ↦ rw e (refan_keeps env_override (event_from_row s row) s h)
          | inr e ↦ rw e h
        ]

    recover_keeps :
        (window_start : Time) (event : CanonicalEvent) (recovered : ℕ) (row : Option EventRow)
        (s : Db)
        → P s
        → P (recover lib hash routing kill now window_start event recovered row s).1
    unfolding recover
    recover_keeps window_start event recovered (some row) s h =
        continue-state {A = Unit {0}} {B = ℕ} P P (λ u v. (ok recovered, v))
          (repair lib hash routing kill now kill window_start row s)
          (repair_keeps kill window_start row s h) (λ u l. l) (λ n u l. l)
    recover_keeps window_start event recovered none s h =
        let stamped : CanonicalEvent = record event { received_at = some now } in
        continue-state {A = Bool} {B = ℕ} P P
          (λ inserted v. (ok (if inserted then recovered + 1 else recovered), v))
          (apply_notifying lib hash routing kill now stamped s) (apply_notifying_keeps stamped s h)
          (λ u l. l) (λ n u l. l)

    recover_events_keeps :
        (window_start : Time) (events : List CanonicalEvent) (recovered : ℕ) (s : Db)
        → P s
        → P (recover_events lib hash routing kill now window_start events recovered s).1
    unfolding recover_events
    recover_events_keeps window_start [] recovered s h = h
    recover_events_keeps window_start (event ∷ events) recovered s h =
        continue-state P P (recover_events lib hash routing kill now window_start events)
          (recover lib hash routing kill now window_start event recovered
            (get_event_by_key s event.source_event_key) s)
          (recover_keeps window_start event recovered _ s h) (λ u l. l)
          (λ n u l. recover_events_keeps window_start events n u l)

    recover_expected_keeps :
        (window_start : Time) (events : Result (List CanonicalEvent)) (recovered : ℕ) (s : Db)
        → P s
        → P (recover_expected lib hash routing kill now window_start events recovered s).1
    unfolding recover_expected
    recover_expected_keeps window_start (raised exc) recovered s h = h
    recover_expected_keeps window_start (ok events) recovered s h =
        recover_events_keeps window_start events recovered _ (keeps.drew _ s h)

    pub reconcile_keeps :
        (parse_time : String → Option Time) (source : String) (requests : List Json)
        (window_start : Time) (recovered : ℕ) (s : Db)
        → P s
        → P
            (reconcile_seerr lib hash routing kill now parse_time source requests window_start
              recovered s).1
    unfolding reconcile_seerr
    reconcile_keeps parse_time source [] window_start recovered s h = h
    reconcile_keeps parse_time source (request ∷ requests) window_start recovered s h =
        continue-state P P
          (reconcile_seerr lib hash routing kill now parse_time source requests window_start)
          (recover_expected lib hash routing kill now window_start
            (seerr_expected lib parse_time source (λ n. s.ids (s.drawn + n)) request) recovered s)
          (recover_expected_keeps window_start _ recovered s h) (λ u l. l)
          (λ n u l. reconcile_keeps parse_time source requests window_start n u l)

    after_media_keeps :
        (window_start : Time) (event : CanonicalEvent) (ref : MediaRef) (recovered : ℕ)
        (media_id : String) (s : Db)
        → P s
        → P (after_media lib hash routing kill now window_start event ref recovered media_id s).1
    unfolding after_media
    after_media_keeps window_start event ref recovered media_id s h =
        elim (Bool-cases (
          has_event_near s EventType.media_deleted (some media_id) (or_else event.occurred_at now)
            24)) [
              | inl e ↦ rw e h
              | inr e ↦ rw e (
                  recover_keeps window_start
                    (record event { media = some (record ref { media_id = some media_id }) })
                    recovered none s h)
            ]

    recover_deleted_keeps :
        (window_start : Time) (event : CanonicalEvent) (recovered : ℕ) (ref : Option MediaRef)
        (s : Db)
        → P s
        → P (recover_deleted lib hash routing kill now window_start event recovered ref s).1
    unfolding recover_deleted
    recover_deleted_keeps window_start event recovered none s h =
        recover_keeps window_start event recovered none s h
    recover_deleted_keeps window_start event recovered (some ref) s h =
        continue-state P P (after_media lib hash routing kill now window_start event ref recovered)
          (find_or_create_media ref now s) (keeps.resolved ref s h) (λ u l. l)
          (λ id u l. after_media_keeps window_start event ref recovered id u l)

    recover_unknown_keeps :
        (source : String) (window_start : Time) (download_id : Json) (event : CanonicalEvent)
        (recovered : ℕ) (s : Db)
        → P s
        → P
            (recover_unknown lib hash routing kill now source window_start download_id event
              recovered s).1
    unfolding recover_unknown
    recover_unknown_keeps source window_start download_id event recovered s h =
        elim (Bool-cases (has_twin s source download_id event)) [
          | inl e ↦ rw e h
          | inr twin ↦ rw twin (elim (Bool-cases (is_deleted event.type)) [
            | inl e ↦ rw e (recover_deleted_keeps window_start event recovered event.media s h)
            | inr e ↦ rw e (recover_keeps window_start event recovered none s h)
          ])
        ]

    recover_found_keeps :
        (source : String) (window_start : Time) (download_id : Json) (event : CanonicalEvent)
        (recovered : ℕ) (row : Option EventRow) (s : Db)
        → P s
        → P
            (recover_found lib hash routing kill now source window_start download_id event recovered
              row s).1
    unfolding recover_found
    recover_found_keeps source window_start download_id event recovered none s h =
        recover_unknown_keeps source window_start download_id event recovered s h
    recover_found_keeps source window_start download_id event recovered (some row) s h =
        recover_keeps window_start event recovered (some row) s h

    recover_record_keeps :
        (source : String) (window_start : Time) (download_id : Json) (recovered : ℕ)
        (event : Result (Option CanonicalEvent)) (s : Db)
        → P s
        → P
            (recover_record lib hash routing kill now source window_start download_id recovered
              event s).1
    unfolding recover_record
    recover_record_keeps source window_start download_id recovered (raised exc) s h = h
    recover_record_keeps source window_start download_id recovered (ok none) s h = h
    recover_record_keeps source window_start download_id recovered (ok (some event)) s h =
        recover_found_keeps source window_start download_id event recovered _ _ (keeps.drew _ s h)

    reconcile_record_keeps :
        (parse_time : String → Option Time) (source : String) (window_start : Time) (recovered : ℕ)
        (entry : Result Fields) (s : Db)
        → P s
        → P
            (reconcile_record lib hash routing kill now parse_time source window_start recovered
              entry s).1
    unfolding reconcile_record
    reconcile_record_keeps parse_time source window_start recovered (raised exc) s h = h
    reconcile_record_keeps parse_time source window_start recovered (ok fs) s h =
        recover_record_keeps source window_start (get_field "downloadId" fs) recovered
          (arr_record_event lib parse_time source (s.ids s.drawn) fs) s h

    pub reconcile_arr_keeps :
        (parse_time : String → Option Time) (source : String) (entries : List Json)
        (window_start : Time) (recovered : ℕ) (s : Db)
        → P s
        → P
            (reconcile_arr lib hash routing kill now parse_time source entries window_start
              recovered s).1
    unfolding reconcile_arr
    reconcile_arr_keeps parse_time source [] window_start recovered s h = h
    reconcile_arr_keeps parse_time source (entry ∷ entries) window_start recovered s h =
        continue-state P P
          (reconcile_arr lib hash routing kill now parse_time source entries window_start)
          (reconcile_record lib hash routing kill now parse_time source window_start recovered
            (as_dict entry) s)
          (reconcile_record_keeps parse_time source window_start recovered (as_dict entry) s h)
          (λ u l. l) (λ n u l. reconcile_arr_keeps parse_time source entries window_start n u l)

    recover_watch_keeps :
        (window_start : Time) (recovered : ℕ) (event : Result CanonicalEvent) (s : Db)
        → P s
        → P (recover_watch lib hash routing kill now window_start recovered event s).1
    unfolding recover_watch
    recover_watch_keeps window_start recovered (raised exc) s h = h
    recover_watch_keeps window_start recovered (ok event) s h =
        recover_keeps window_start event recovered none _ (keeps.drew _ s h)

    recover_row_keeps :
        (from_timestamp : ℤ → Result Time) (source : String) (window_start : Time) (recovered : ℕ)
        (row : Fields) (known : Option EventRow) (s : Db)
        → P s
        → P
            (recover_row lib hash routing kill now from_timestamp source window_start recovered row
              known s).1
    unfolding recover_row
    recover_row_keeps from_timestamp source window_start recovered row none s h =
        recover_watch_keeps window_start recovered _ s h
    recover_row_keeps from_timestamp source window_start recovered row (some known) s h =
        continue-state {A = Unit {0}} {B = ℕ} P P (λ u v. (ok recovered, v))
          (repair lib hash routing kill now kill window_start known s)
          (repair_keeps kill window_start known s h) (λ u l. l) (λ n u l. l)

    reconcile_row_keeps :
        (from_timestamp : ℤ → Result Time) (source : String) (window_start : Time) (recovered : ℕ)
        (row : Result Fields) (s : Db)
        → P s
        → P
            (reconcile_row lib hash routing kill now from_timestamp source window_start recovered
              row s).1
    unfolding reconcile_row
    reconcile_row_keeps from_timestamp source window_start recovered (raised exc) s h = h
    reconcile_row_keeps from_timestamp source window_start recovered (ok row) s h =
        elim (Bool-cases (is_watched (get_field "watched_status" row))) [
          | inl e ↦ rw e (recover_row_keeps from_timestamp source window_start recovered row _ s h)
          | inr e ↦ rw e h
        ]

    pub reconcile_tautulli_keeps :
        (from_timestamp : ℤ → Result Time) (source : String) (rows : List Json)
        (window_start : Time) (recovered : ℕ) (s : Db)
        → P s
        → P
            (reconcile_tautulli lib hash routing kill now from_timestamp source rows window_start
              recovered s).1
    unfolding reconcile_tautulli
    reconcile_tautulli_keeps from_timestamp source [] window_start recovered s h = h
    reconcile_tautulli_keeps from_timestamp source (row ∷ rows) window_start recovered s h =
        continue-state P P
          (reconcile_tautulli lib hash routing kill now from_timestamp source rows window_start)
          (reconcile_row lib hash routing kill now from_timestamp source window_start recovered
            (as_dict row) s)
          (reconcile_row_keeps from_timestamp source window_start recovered (as_dict row) s h)
          (λ u l. l)
          (λ n u l. reconcile_tautulli_keeps from_timestamp source rows window_start n u l)

-- ===== src/Jobs/Reconcile/Run.antt =====
-- src/costanza/jobs/reconcile.py: the gap markers, and the run over every source. A source's client
-- gives the requests, or the history after a time. `isoformat` writes a time as text.
use costanza.Prelude.{
  ℕ, zero, suc, ◌-◌, String, Bool, true, false, ◌&&◌, Option, none, some, List, [], ◌∷◌, ◌++◌, ◌==◌,
  if◌then◌else◌, join_colon, or_else, filter, sort_by_desc,
}
use costanza.Json.{Json, int, str, arr, Items, nil, cons, end, field, ℤ, pos}
use costanza.Result.{Result, ok, raised, Exec, continue}
use costanza.Stdlib.{Stdlib}
use costanza.Schemas.{Time, hours, CanonicalEvent, EventType, type_name, Origin, RenderedMessage}
use costanza.Config.{RoutingConfig, SourceConfig}
use costanza.Store.{Db, EventRow}
use costanza.Store.Control.{get_cursor, set_cursor}
use costanza.Store.Events.{get_event_by_key}
use costanza.Store.Like.{like}
use costanza.Jobs.Digest.{lookup}
use costanza.Jobs.Reconcile.{apply_notifying, repair, reconcile_seerr}
use costanza.Jobs.Reconcile.Arr.{reconcile_arr}
use costanza.Jobs.Reconcile.Tautulli.{reconcile_tautulli}

-- Flag-only event kinds per source kind.
unfoldable pub transient_kinds : String → Option (List String)
transient_kinds kind =
    if kind == "radarr"
    then some ("health.issue" ∷ "failed downloads" ∷ [])
    else if kind == "sonarr"
    then some ("health.issue" ∷ "failed downloads" ∷ [])
    else if kind == "tautulli"
    then some ("playback.started" ∷ "playback.stopped" ∷ [])
    else none

abbrev text_items : List String → Items
text_items [] = nil
text_items (s ∷ ss) = cons (str s) (text_items ss)

-- What the program calls of a source's client: `get_requests` of Seerr, `get_history` of the others.
pub record Client : Type 0 where
  pub get_requests : Result (List Json)
  pub get_history : Time → Result (List Json)

-- The calls of `datetime`.
pub record Clock : Type 0 where
  pub parse_time : String → Option Time
  pub from_timestamp : ℤ → Result Time
  pub isoformat : Time → String

pub data Summary : Type 0 where
  done : ℕ → Bool → Summary
  error : String → Summary

abbrev pub head_row : List EventRow → Option EventRow
head_row [] = none
head_row (row ∷ rows) = some row

-- The newest gap marker of a source.
unfoldable pub newest_marker : Db → String → Option EventRow
unfolding like
newest_marker db source = head_row (
    sort_by_desc (λ (row : EventRow). row.received_at)
      (filter
        (λ row.
          type_name row.type == "reconcile.gap"
          && like (join_colon (source ∷ "reconcile.gap" ∷ "%" ∷ [])) row.source_event_key)
        db.events))

-- The time of the last run, or 24 hours ago. The cursor holds the time that its text stands for.
unfoldable pub window_of : Db → String → Time → Time
window_of db source now =
    or_else
      (lookup "last_run" (or_else (get_cursor db (join_colon ("reconcile" ∷ source ∷ []))) []))
      (now - hours 24)

module _ (lib : Stdlib) (hash : RenderedMessage → String) (clock : Clock) (routing : RoutingConfig)
    (kill : Option Bool) (now : Time) where
  pub gap_key : String → Time → String
  gap_key source window_start =
      join_colon (source ∷ "reconcile.gap" ∷ clock.isoformat window_start ∷ [])

  -- The marker; `id` is what `new_id` returns for it.
  pub gap_event : String → List String → Time → ℕ → String → CanonicalEvent
  unfolding gap_key
  gap_event source kinds window_start recovered id = record {
    id = id;
    source = source;
    source_event_key = gap_key source window_start;
    origin = Origin.reconcile;
    type = EventType.reconcile_gap;
    occurred_at = some now;
    received_at = some now;
    media = none;
    user = none;
    attrs = field "window_start" (str (clock.isoformat window_start)) (
        field "recovered" (int (pos recovered))
          (field "transient_kinds" (arr (text_items kinds)) end));
  }

  -- A marker is owed its notification still.
  unfoldable pub repair_row : Time → Option EventRow → Bool → Exec Db Bool
  unfolding repair
  repair_row window_start none marked db = (ok marked, db)
  repair_row window_start (some row) marked db =
      continue (λ u s. (ok marked, s)) (repair lib hash routing kill now kill window_start row db)

  -- A marker that was not inserted is repaired where it was stored before.
  unfoldable pub after_marker : Time → Option EventRow → Bool → Exec Db Bool
  unfolding repair_row
  after_marker window_start existing true db = (ok true, db)
  after_marker window_start existing false db = repair_row window_start existing false db

  -- `_mark_gap`
  unfoldable pub mark_gap : String → List String → Time → ℕ → Exec Db Bool
  unfolding repair_row newest_marker after_marker apply_notifying gap_event gap_key
  mark_gap source kinds window_start zero db =
      repair_row window_start (newest_marker db source) false db
  mark_gap source kinds window_start (suc n) db =
      continue (after_marker window_start (get_event_by_key db (gap_key source window_start))) (
        apply_notifying lib hash routing kill now
          (gap_event source kinds window_start (suc n) (db.ids db.drawn))
          (record db { drawn = suc db.drawn }))

  -- The gap marker of a source that has flag-only kinds.
  unfoldable pub mark_source : SourceConfig → Time → ℕ → Exec Db (ℕ × Bool)
  unfolding mark_gap transient_kinds
  mark_source source window_start recovered db = elim (transient_kinds source.kind) [
    | none ↦ (ok (recovered, false), db)
    | some kinds ↦
        continue (λ marked s. (ok (recovered, marked), s))
          (mark_gap source.name kinds window_start recovered db)
  ]

  -- Over what the client gives, which may raise.
  unfoldable pub with_items : (List Json → Exec Db ℕ) → Result (List Json) → Exec Db ℕ
  with_items job (raised exc) db = (raised exc, db)
  with_items job (ok items) db = job items db

  -- The job of a source, by its kind; no job for another kind.
  unfoldable pub source_job : SourceConfig → Client → Time → Option (Exec Db ℕ)
  unfolding with_items reconcile_seerr reconcile_arr reconcile_tautulli
  source_job source client window_start =
      let history = client.get_history window_start in
      let arr_job : Exec Db ℕ =
        with_items
          (λ items.
            reconcile_arr lib hash routing kill now clock.parse_time source.name items window_start
              0)
          history in
      if source.kind == "seerr"
      then some (
          with_items
            (λ items.
              reconcile_seerr lib hash routing kill now clock.parse_time source.name items
                window_start 0)
            client.get_requests)
      else if source.kind == "radarr"
      then some arr_job
      else if source.kind == "sonarr"
      then some arr_job
      else if source.kind == "tautulli"
      then some (
          with_items
            (λ items.
              reconcile_tautulli lib hash routing kill now clock.from_timestamp source.name items
                window_start 0)
            history)
      else none

  -- What a source's part gives: the cursor moves on only where nothing raised.
  unfoldable pub settle : String → Result (ℕ × Bool) × Db → Summary × Db
  settle name (raised exc, db) = (error exc.message, db)
  settle name (ok (recovered, marked), db) = (
    done recovered marked,
    set_cursor (join_colon ("reconcile" ∷ name ∷ [])) (("last_run", now) ∷ []) db,
  )

  unfoldable pub run_job : SourceConfig → Time → Option (Exec Db ℕ) → Db → Option Summary × Db
  unfolding settle mark_source
  run_job source window_start none db = (none, db)
  run_job source window_start (some job) db =
      let settled = settle source.name (continue (mark_source source window_start) (job db)) in
      (some settled.0, settled.1)

  -- By whether the source is enabled.
  unfoldable pub run_client : Bool → SourceConfig → Client → Db → Option Summary × Db
  unfolding run_job source_job window_of
  run_client false source client db = (none, db)
  run_client true source client db =
      let window_start = window_of db source.name now in
      run_job source window_start (source_job source client window_start) db

  -- One source: a client that is missing and a source that is disabled are skipped.
  unfoldable pub run_source : SourceConfig → Option Client → Db → Option Summary × Db
  unfolding run_client
  run_source source none db = (none, db)
  run_source source (some client) db = run_client source.enabled source client db

  abbrev entry_of : String → Option Summary → List (String × Summary)
  entry_of name none = []
  entry_of name (some summary) = (name, summary) ∷ []

  -- `run_reconcile` over the configured sources: what it did to each that it ran, in order.
  unfoldable pub run_reconcile :
      (String → Option Client) → List SourceConfig → Db → List (String × Summary) × Db
  unfolding run_source
  run_reconcile clients [] db = ([], db)
  run_reconcile clients (source ∷ sources) db =
      let first = run_source source (clients source.name) db in
      let rest = run_reconcile clients sources first.1 in
      (entry_of source.name first.0 ++ rest.0, rest.1)

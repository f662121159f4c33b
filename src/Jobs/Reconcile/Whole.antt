-- ===== src/Jobs/Reconcile/Whole.antt =====
-- What `run_reconcile` of src/costanza/jobs/reconcile.py keeps over all sources, and what it does to
-- the events, the ledger and the cursors.
use costanza.Prelude.{
  ℕ, zero, suc, String, ◌≡◌, refl, Bool, true, false, Option, none, some, List, [], ◌∷◌, Bool-cases,
  inl, inr, ◌==◌,
}
use costanza.Json.{Json}
use costanza.Result.{Result, ok, raised, Exec, continue, continue-state}
use costanza.Stdlib.{Stdlib}
use costanza.Schemas.{Time, RenderedMessage}
use costanza.Config.{RoutingConfig, SourceConfig}
use costanza.Store.{Db, EventRow}
use costanza.Store.Events.{get_event_by_key}
use costanza.Store.Control.{set_cursor}
use costanza.Jobs.Reconcile.{apply_notifying, repair}
use costanza.Jobs.Reconcile.Arr.{reconcile_arr}
use costanza.Jobs.Reconcile.Run.{
  transient_kinds, Client, Clock, newest_marker, window_of, repair_row, after_marker, mark_gap,
  mark_source, with_items, source_job, settle, run_job, run_client, run_source, run_reconcile,
  gap_key, gap_event,
}
use costanza.Jobs.Reconcile.Keeps.{
  Keeps, reconcile_keeps, reconcile_arr_keeps, reconcile_tautulli_keeps, apply_notifying_keeps,
  repair_keeps,
}

module _ (lib : Stdlib) (hash : RenderedMessage → String) (clock : Clock) (routing : RoutingConfig)
    (kill : Option Bool) (now : Time) where
  module _ {κ} (P : Db → Type κ) (keeps : Keeps lib hash routing kill now P) where
    repair_row_keeps :
        (window_start : Time) (row : Option EventRow) (marked : Bool) (s : Db)
        → P s
        → P (repair_row lib hash clock routing kill now window_start row marked s).1
    unfolding repair_row
    repair_row_keeps window_start none marked s h = h
    repair_row_keeps window_start (some row) marked s h =
        continue-state {A = Unit {0}} {B = Bool} P P (λ u v. (ok marked, v))
          (repair lib hash routing kill now kill window_start row s)
          (repair_keeps lib hash routing kill now P keeps kill window_start row s h) (λ u l. l)
          (λ n u l. l)

    after_marker_keeps :
        (window_start : Time) (existing : Option EventRow) (inserted : Bool) (s : Db)
        → P s
        → P (after_marker lib hash clock routing kill now window_start existing inserted s).1
    unfolding after_marker
    after_marker_keeps window_start existing true s h = h
    after_marker_keeps window_start existing false s h =
        repair_row_keeps window_start existing false s h

    mark_gap_keeps :
        (source : String) (kinds : List String) (window_start : Time) (recovered : ℕ) (s : Db)
        → P s
        → P (mark_gap lib hash clock routing kill now source kinds window_start recovered s).1
    unfolding mark_gap
    mark_gap_keeps source kinds window_start zero s h =
        repair_row_keeps window_start (newest_marker s source) false s h
    mark_gap_keeps source kinds window_start (suc n) s h =
        let drew : Db = record s { drawn = suc s.drawn } in
        let marker =
          gap_event lib hash clock routing kill now source kinds window_start (suc n)
            (s.ids s.drawn) in
        continue-state P P
          (after_marker lib hash clock routing kill now window_start
            (get_event_by_key s (gap_key lib hash clock routing kill now source window_start)))
          (apply_notifying lib hash routing kill now marker drew)
          (apply_notifying_keeps lib hash routing kill now P keeps marker drew (keeps.drew _ s h))
          (λ u l. l)
          (λ inserted u l.
            after_marker_keeps window_start
              (get_event_by_key s (gap_key lib hash clock routing kill now source window_start))
              inserted u l)

    mark_kinds_keeps :
        (source : SourceConfig) (window_start : Time) (recovered : ℕ) (kinds : Option (List String))
        (s : Db)
        → transient_kinds source.kind ≡ kinds
        → P s
        → P (mark_source lib hash clock routing kill now source window_start recovered s).1
    unfolding mark_source
    mark_kinds_keeps source window_start recovered none s e h = rw (mark_source, e) h
    mark_kinds_keeps source window_start recovered (some kinds) s e h =
        rw (mark_source, e)
          (continue-state {A = Bool} {B = ℕ × Bool} P P (λ marked u. (ok (recovered, marked), u))
            (mark_gap lib hash clock routing kill now source.name kinds window_start recovered s)
            (mark_gap_keeps source.name kinds window_start recovered s h) (λ u l. l) (λ n u l. l))

    pub mark_source_keeps :
        (source : SourceConfig) (window_start : Time) (recovered : ℕ) (s : Db)
        → P s
        → P (mark_source lib hash clock routing kill now source window_start recovered s).1
    mark_source_keeps source window_start recovered s h =
        mark_kinds_keeps source window_start recovered (transient_kinds source.kind) s refl h

    with_items_keeps :
        (job : List Json → Exec Db ℕ) (items : Result (List Json)) (s : Db)
        → ((xs : List Json) → P (job xs s).1)
        → P s
        → P (with_items lib hash clock routing kill now job items s).1
    unfolding with_items
    with_items_keeps job (raised exc) s kept h = h
    with_items_keeps job (ok items) s kept h = kept items

    -- The part of a run that may raise.
    abbrev pub JobKeeps : Option (Exec Db ℕ) → Type κ
    JobKeeps none = Unit
    JobKeeps (some job) = (s : Db) → P s → P (job s).1

    arr_keeps :
        (source : SourceConfig) (client : Client) (window_start : Time) (s : Db)
        → P s
        → P
            (with_items lib hash clock routing kill now
              (λ items.
                reconcile_arr lib hash routing kill now clock.parse_time source.name items
                  window_start 0)
              (client.get_history window_start)
              s).1
    arr_keeps source client window_start s h =
        with_items_keeps _ (client.get_history window_start) s
          (λ xs.
            reconcile_arr_keeps lib hash routing kill now P keeps clock.parse_time source.name xs
              window_start 0 s h)
          h

    pub source_job_keeps :
        (source : SourceConfig) (client : Client) (window_start : Time)
        → JobKeeps (source_job lib hash clock routing kill now source client window_start)
    unfolding source_job
    source_job_keeps source client window_start = elim (Bool-cases (source.kind == "seerr")) [
      | inl e ↦ rw e (λ s h.
          with_items_keeps _ client.get_requests s
            (λ xs.
              reconcile_keeps lib hash routing kill now P keeps clock.parse_time source.name xs
                window_start 0 s h)
            h)
      | inr not_seerr ↦ rw not_seerr (elim (Bool-cases (source.kind == "radarr")) [
        | inl e ↦ rw e (arr_keeps source client window_start)
        | inr not_radarr ↦ rw not_radarr (elim (Bool-cases (source.kind == "sonarr")) [
          | inl e ↦ rw e (arr_keeps source client window_start)
          | inr not_sonarr ↦ rw not_sonarr (elim (Bool-cases (source.kind == "tautulli")) [
            | inl e ↦ rw e (λ s h.
                with_items_keeps _ (client.get_history window_start) s
                  (λ xs.
                    reconcile_tautulli_keeps lib hash routing kill now P keeps clock.from_timestamp
                      source.name xs window_start 0 s h)
                  h)
            | inr e ↦ rw e tt
          ])
        ])
      ])
    ]

    module _
        (moved : (job : String) (cursor : List (String × Time)) (s : Db)
          → P s
          → P (set_cursor job cursor s)) where
      settle_keeps :
          (name : String) (r : Result (ℕ × Bool) × Db)
          → P r.1
          → P (settle lib hash clock routing kill now name r).1
      unfolding settle
      settle_keeps name (raised exc, s) h = h
      settle_keeps name (ok (recovered, marked), s) h = moved _ _ s h

      run_job_keeps :
          (source : SourceConfig) (window_start : Time) (job : Option (Exec Db ℕ)) (s : Db)
          → JobKeeps job
          → P s
          → P (run_job lib hash clock routing kill now source window_start job s).1
      unfolding run_job
      run_job_keeps source window_start none s kept h = h
      run_job_keeps source window_start (some job) s kept h =
          settle_keeps source.name
            (continue (mark_source lib hash clock routing kill now source window_start) (job s))
            (continue-state P P (mark_source lib hash clock routing kill now source window_start)
              (job s) (kept s h) (λ u l. l)
              (λ recovered u l. mark_source_keeps source window_start recovered u l))

      run_client_keeps :
          (enabled : Bool) (source : SourceConfig) (client : Client) (s : Db)
          → P s
          → P (run_client lib hash clock routing kill now enabled source client s).1
      unfolding run_client
      run_client_keeps false source client s h = h
      run_client_keeps true source client s h =
          let window_start = window_of s source.name now in
          run_job_keeps source window_start
            (source_job lib hash clock routing kill now source client window_start) s
            (source_job_keeps source client window_start) h

      run_source_keeps :
          (source : SourceConfig) (client : Option Client) (s : Db)
          → P s
          → P (run_source lib hash clock routing kill now source client s).1
      unfolding run_source
      run_source_keeps source none s h = h
      run_source_keeps source (some client) s h = run_client_keeps source.enabled source client s h

      pub run_reconcile_keeps :
          (clients : String → Option Client) (sources : List SourceConfig) (s : Db)
          → P s
          → P (run_reconcile lib hash clock routing kill now clients sources s).1
      unfolding run_reconcile
      run_reconcile_keeps clients [] s h = h
      run_reconcile_keeps clients (source ∷ sources) s h =
          run_reconcile_keeps clients sources
            (run_source lib hash clock routing kill now source (clients source.name) s).1
            (run_source_keeps source (clients source.name) s h)

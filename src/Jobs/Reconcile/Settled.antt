-- ===== src/Jobs/Reconcile/Settled.antt =====
-- How a source's part of src/costanza/jobs/reconcile.py, `run_reconcile`, ends.
use costanza.Prelude.{
  ℕ, ◌-◌, String, ◌≡◌, refl, ◌∙◌, ap, Bool, true, false, ◌||◌, Option, none, some, List, [], ◌∷◌,
  join_colon, or_else, ◌==◌, if◌then◌else◌, Bool-cases, inl, inr,
}
use costanza.Json.{Json}
use costanza.Result.{Result, ok, raised, Exec, continue, continue-state}
use costanza.Stdlib.{Stdlib}
use costanza.Schemas.{Time, hours, RenderedMessage}
use costanza.Config.{RoutingConfig, SourceConfig}
use costanza.Store.{Db}
use costanza.Store.Control.{set_cursor}
use costanza.Jobs.Digest.{lookup}
use costanza.Jobs.Digest.Windows.{get_cursor-set_cursor}
use costanza.Jobs.Reconcile.Cursors.{SameCursors, jobs_keep_cursors}
use costanza.Jobs.Reconcile.Run.{
  Client, Clock, Summary, done, error, window_of, mark_source, with_items, source_job, settle,
  run_job, run_client, run_source,
}
use costanza.Jobs.Reconcile.Whole.{JobKeeps, source_job_keeps, mark_source_keeps}

module _ (lib : Stdlib) (hash : RenderedMessage → String) (clock : Clock) (routing : RoutingConfig)
    (kill : Option Bool) (now : Time) where
  abbrev cursor_key : String → String
  cursor_key name = join_colon ("reconcile" ∷ name ∷ [])

  -- What the client of a kind of source answers; no answer for another kind.
  abbrev pub fetched : String → Client → Time → Option (Result (List Json))
  fetched kind client since =
      if kind == "seerr"
      then some client.get_requests
      else if kind == "radarr" || kind == "sonarr" || kind == "tautulli"
      then some (client.get_history since)
      else none

  -- The part of a run that may raise: the job, and then the gap marker.
  abbrev run_part : SourceConfig → Time → Option (Exec Db ℕ) → Exec Db (ℕ × Bool)
  run_part source since none db = (ok (0, false), db)
  run_part source since (some job) db =
      continue (mark_source lib hash clock routing kill now source since) (job db)

  abbrev pub part : SourceConfig → Client → Time → Exec Db (ℕ × Bool)
  part source client since =
      run_part source since (source_job lib hash clock routing kill now source client since)

  -- How a run ended: with the exception, what was written before it, and the old cursors; or with
  -- the part's counts and a cursor from which the next window starts at `now`.
  abbrev pub Ended : String → Db → Result (ℕ × Bool) × Db → Option Summary × Db → Type 0
  Ended name db (raised exc, s) out =
      (out ≡ (some (error exc.message), s)) × (s.job_cursors ≡ db.job_cursors)
  Ended name db (ok (recovered, marked), s) out =
      (out
        ≡ (some (done recovered marked), set_cursor (cursor_key name) (("last_run", now) ∷ []) s))
      × ((later : Time) → window_of out.1 name later ≡ now)

  -- What a run did, by whether the source is enabled and what the client answered.
  abbrev pub Ran :
      Bool → Option (Result (List Json)) → SourceConfig → Client → Db → Option Summary × Db → Type 0
  Ran false answer source client db out = out ≡ (none, db)
  Ran true none source client db out = out ≡ (none, db)
  Ran true (some (raised exc)) source client db out = out ≡ (some (error exc.message), db)
  Ran true (some (ok items)) source client db out =
      Ended source.name db (part source client (window_of db source.name now) db) out

  abbrev pub Settled : SourceConfig → Option Client → Db → Option Summary × Db → Type 0
  Settled source none db out = out ≡ (none, db)
  Settled source (some client) db out =
      Ran source.enabled (fetched source.kind client (window_of db source.name now)) source client
        db out

  settle-Ended :
      (name : String) (db : Db) (r : Result (ℕ × Bool) × Db)
      → SameCursors db r.1
      → let out = settle lib hash clock routing kill now name r in
        Ended name db r (some out.0, out.1)
  unfolding settle window_of
  settle-Ended name db (raised exc, s) h = (refl, h)
  settle-Ended name db (ok (recovered, marked), s) h = (
    refl,
    λ later.
        ap (λ c. or_else (lookup "last_run" (or_else c [])) (later - hours 24))
          (get_cursor-set_cursor (cursor_key name) (("last_run", now) ∷ []) s),
  )

  -- The job of a source is a function of what the client answers.
  abbrev Fetches : Option (Exec Db ℕ) → Option (Result (List Json)) → Type 0
  Fetches none answer = answer ≡ none
  Fetches (some job) answer =
      (k : List Json → Exec Db ℕ) × (a : Result (List Json)) × (answer ≡ some a)
      × (job ≡ with_items lib hash clock routing kill now k a)

  source_job-Fetches :
      (source : SourceConfig) (client : Client) (since : Time)
      → Fetches
          (source_job lib hash clock routing kill now source client since)
          (fetched source.kind client since)
  unfolding source_job
  source_job-Fetches source client since = elim (Bool-cases (source.kind == "seerr")) [
    | inl e1 ↦ rw e1 (_, _, refl, refl)
    | inr e1 ↦ elim (Bool-cases (source.kind == "radarr")) [
      | inl e2 ↦ rw (e1, e2) (_, _, refl, refl)
      | inr e2 ↦ elim (Bool-cases (source.kind == "sonarr")) [
        | inl e3 ↦ rw (e1, e2, e3) (_, _, refl, refl)
        | inr e3 ↦ elim (Bool-cases (source.kind == "tautulli")) [
          | inl e4 ↦ rw (e1, e2, e3, e4) (_, _, refl, refl)
          | inr e4 ↦ rw (e1, e2, e3, e4) refl
        ]
      ]
    ]
  ]

  -- A job that keeps the cursors, by what the client answers.
  run_job-Ran :
      (source : SourceConfig) (client : Client) (db : Db) (job : Option (Exec Db ℕ))
      (answer : Option (Result (List Json)))
      → Fetches job answer
      → source_job lib hash clock routing kill now source client (window_of db source.name now)
        ≡ job
      → JobKeeps lib hash clock routing kill now
          (λ (s : Db). SameCursors db s)
          (jobs_keep_cursors lib hash clock routing kill now db)
          job
      → Ran true answer source client db
          (run_job lib hash clock routing kill now source (window_of db source.name now) job db)
  unfolding run_job with_items
  run_job-Ran source client db none none fetches same kept = refl
  run_job-Ran source client db none (some a) fetches same kept = absurd cc
  run_job-Ran source client db (some job) none (k, b, answered, e) same kept = absurd cc
  run_job-Ran source client db (some job) (some (raised exc)) (k, b, answered, e) same kept =
      let q : b ≡ raised exc = cc in
      let stopped : job db ≡ (raised exc, db) =
        ap (λ (j : Exec Db ℕ). j db) e
        ∙ ap (λ c. with_items lib hash clock routing kill now k c db) q in
      rw stopped refl
  run_job-Ran source client db (some job) (some (ok items)) fetches same kept =
      let P = λ (s : Db). SameCursors db s in
      let since = window_of db source.name now in
      let mark = mark_source lib hash clock routing kill now source since in
      rw same (
        settle-Ended source.name db (continue mark (job db)) (
          continue-state P P mark (job db) (kept db refl) (λ u l. l)
            (λ recovered u l.
              mark_source_keeps lib hash clock routing kill now P
                (jobs_keep_cursors lib hash clock routing kill now db) source since recovered u l)))

  run_client-Ran :
      (enabled : Bool) (source : SourceConfig) (client : Client) (db : Db)
      → Ran enabled
          (fetched source.kind client (window_of db source.name now))
          source
          client
          db
          (run_client lib hash clock routing kill now enabled source client db)
  unfolding run_client
  run_client-Ran false source client db = refl
  run_client-Ran true source client db =
      let since = window_of db source.name now in
      run_job-Ran source client db _ _ (source_job-Fetches source client since) refl (
        source_job_keeps lib hash clock routing kill now (λ (s : Db). SameCursors db s)
          (jobs_keep_cursors lib hash clock routing kill now db) source client since)

  -- How a reconcile of one source ends. A source without a client, disabled, or of a kind that has
  -- no job is skipped and nothing is written. Where the client raises, the summary is its message
  -- and nothing is written. Where the job or the gap marker raises on what the client gave, the
  -- summary is the exception's message, and no cursor of any job has changed. Else the summary has
  -- the counts, and the source's next window starts at `now`.
  pub run_source-Settled :
      (source : SourceConfig) (client : Option Client) (db : Db)
      → Settled source client db (run_source lib hash clock routing kill now source client db)
  unfolding run_source
  run_source-Settled source none db = refl
  run_source-Settled source (some client) db = run_client-Ran source.enabled source client db

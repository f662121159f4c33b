-- ===== src/Jobs/Digest/Windows.antt =====
-- The windows of successive digests (src/costanza/jobs/digest.py).
use costanza.Prelude.{
  ◌-◌, ◌||◌, String, ◌≡◌, refl, ap, Bool, true, false, some, List, [], ◌∷◌, ◌++◌, arith, ◌⊎◌, inl,
  inr, Bool-cases, ◌==◌, ltb, any, find?, update_where, str_eq_self,
}
use costanza.Schemas.{Time, hours}
use costanza.Config.{RoutingConfig}
use costanza.Store.{Db, CursorRow, NotificationRow}
use costanza.Store.Control.{is_job, cursor_of, get_cursor, set_cursor}
use costanza.Store.Notifications.{enqueue_notification, pending_row, is_notification, is_for}
use costanza.Notify.Limits.{engaged}
use costanza.Jobs.Digest.{
  cursor_job, period, window_cursor, enqueue_digest, close_window, digest_key, digest_to,
  run_digest,
}

abbrev row_of : String → List (String × Time) → CursorRow
row_of job cursor = record { job = job; cursor = cursor }

find?-written :
    (job : String) (cursor : List (String × Time)) (rows : List CursorRow)
    → any (is_job job) rows ≡ true
    → find? (is_job job) (update_where (is_job job) (λ row. row_of job cursor) rows)
      ≡ some (row_of job cursor)
unfolding any find? update_where
find?-written job cursor [] h = cc
find?-written job cursor (row ∷ rows) h =
    ground (arith, str_eq_self job, find?-written job cursor rows)

find?-new :
    (job : String) (cursor : List (String × Time)) (rows : List CursorRow)
    → any (is_job job) rows ≡ false
    → find? (is_job job) (rows ++ row_of job cursor ∷ []) ≡ some (row_of job cursor)
unfolding any find?
find?-new job cursor [] h = ground (arith, str_eq_self job)
find?-new job cursor (row ∷ rows) h = ground (arith, find?-new job cursor rows)

-- The row of a job in the table that `set_cursor` writes.
find?-set_cursor :
    (job : String) (cursor : List (String × Time)) (db : Db)
    → find? (is_job job) (set_cursor job cursor db).job_cursors ≡ some (row_of job cursor)
unfolding set_cursor
find?-set_cursor job cursor db = elim (Bool-cases (any (is_job job) db.job_cursors)) [
  | inl e ↦ rw e (find?-written job cursor db.job_cursors e)
  | inr e ↦ rw e (find?-new job cursor db.job_cursors e)
]

-- What was written for a job is what is read for it.
pub get_cursor-set_cursor :
    (job : String) (cursor : List (String × Time)) (db : Db)
    → get_cursor (set_cursor job cursor db) job ≡ some cursor
unfolding get_cursor
get_cursor-set_cursor job cursor db = ap cursor_of (find?-set_cursor job cursor db)

-- The next window starts at `now`.
abbrev pub NextStarts : Time → Db → Type 0
NextStarts now db = (later : Time) → (period db later).0 ≡ now

set_cursor-NextStarts :
    (since now : Time) (db : Db)
    → NextStarts now (set_cursor cursor_job (window_cursor since now) db)
unfolding period
set_cursor-NextStarts since now db later =
    rw (get_cursor-set_cursor cursor_job (window_cursor since now) db) refl

-- A run that moved on leaves a cursor from which the next window starts; else it left the cursors.
abbrev Tiles : Time → Db → Bool × Db → Type 0
Tiles now db (created, db') =
    NextStarts now db' ⊎ ((created ≡ false) × (db'.job_cursors ≡ db.job_cursors))

-- The row of the digest of a window.
abbrev pub digest_row : (Time → String) → String → Time → Time → Db → NotificationRow
digest_row isoformat channel since now db =
    pending_row (db.ids db.drawn) (digest_key isoformat since now) channel "digest" now

-- The ledger has that row's key or id already.
abbrev pub taken : (Time → String) → String → Time → Time → Db → Bool
taken isoformat channel since now db =
    any (is_notification (db.ids db.drawn)) db.notifications
    || any (is_for (digest_key isoformat since now) channel) db.notifications

-- What a run does, by whether the window is shorter than an hour, whether the kill switch is
-- engaged, and whether the row is taken.
abbrev pub Tiled :
    Bool → Bool → Bool → (Time → String) → String → Time → Time → Db → Bool × Db → Type 0
Tiled true muted has isoformat channel since now db r = r ≡ (false, db)
Tiled false true has isoformat channel since now db (created, s) =
    (created ≡ false) × (s.notifications ≡ db.notifications) × NextStarts now s
Tiled false false true isoformat channel since now db (created, s) =
    (created ≡ false) × (s.notifications ≡ db.notifications) × (s.job_cursors ≡ db.job_cursors)
Tiled false false false isoformat channel since now db (created, s) =
    (created ≡ true)
    × (s.notifications ≡ db.notifications ++ digest_row isoformat channel since now db ∷ [])
    × NextStarts now s

enqueue_digest-Tiled :
    (isoformat : Time → String) (channel : String) (since now : Time) (db : Db) (has : Bool)
    → taken isoformat channel since now db ≡ has
    → Tiled false false has isoformat channel since now db
        (enqueue_digest isoformat channel since now db)
unfolding enqueue_digest enqueue_notification set_cursor
enqueue_digest-Tiled isoformat channel since now db true e = rw e (refl, refl, refl)
enqueue_digest-Tiled isoformat channel since now db false e =
    rw e (refl, refl, set_cursor-NextStarts since now _)

close_window-Tiled :
    (isoformat : Time → String) (channel : String) (muted : Bool) (since now : Time) (db : Db)
    → Tiled false muted
        (taken isoformat channel since now db)
        isoformat
        channel
        since
        now
        db
        (close_window isoformat channel muted since now db)
unfolding close_window set_cursor
close_window-Tiled isoformat channel true since now db =
    (refl, refl, set_cursor-NextStarts since now db)
close_window-Tiled isoformat channel false since now db =
    enqueue_digest-Tiled isoformat channel since now db _ refl

module _ (isoformat : Time → String) (routing : RoutingConfig) (env_override : Bool)
    (channel : String) (configured : routing.digest_channel ≡ some channel)
    (named : (channel == "") ≡ false) where
  digest_to-Tiled :
      (now : Time) (db : Db)
      → let since = (period db now).0 in
        Tiled
          (ltb (now - since) (hours 1))
          (engaged env_override db)
          (taken isoformat channel since now db)
          isoformat
          channel
          since
          now
          db
          (digest_to isoformat env_override channel now db)
  unfolding digest_to
  digest_to-Tiled now db = elim (Bool-cases (ltb (now - (period db now).0) (hours 1))) [
    | inl e ↦ rw e refl
    | inr e ↦
        rw e
          (close_window-Tiled isoformat channel (engaged env_override db) (period db now).0 now db)
  ]

  -- A run for a configured channel: in a window shorter than an hour it does nothing. Else, under
  -- the kill switch it adds no row, and the next window starts where this one ended. Else, where the
  -- ledger has neither a row for this window's key and the channel nor one with the new row's id, it
  -- appends the row, and the next window starts where this one ended; and where the ledger has one,
  -- the ledger and the cursors stay as they were.
  pub run_digest-Tiled :
      (now : Time) (db : Db)
      → let since = (period db now).0 in
        Tiled
          (ltb (now - since) (hours 1))
          (engaged env_override db)
          (taken isoformat channel since now db)
          isoformat
          channel
          since
          now
          db
          (run_digest isoformat routing env_override now db)
  unfolding run_digest
  run_digest-Tiled now db = rw (configured, named) (digest_to-Tiled now db)

-- ===== src/Api/Guard.antt =====
-- What a call of src/costanza/api/app.py may change, and for whom.
use costanza.Prelude.{
  String, ◌≡◌, refl, sym, ap, Bool, true, false, ◌&&◌, Option, none, some, List, [], ◌∷◌, ◌++◌,
  if◌then◌else◌, ◌⊎◌, inl, inr, Bool-cases, ◌==◌, eq_iff, arith,
}
use costanza.Result.{Result, ok, raised}
use costanza.Schemas.{Time}
use costanza.Store.{Db, KillSwitchRow}
use costanza.Store.Control.{last_row, kill_switch_state, set_kill_switch}
use costanza.Notify.Limits.{engaged, set_switch}
use costanza.Ingest.{bearer_token, authenticate, compare_digest, is_ascii, not_ascii}
use costanza.Api.{
  guard, Call, Reply, timeline, events, stats_requests, stats_watch, digest_preview,
  kill_switch_get, kill_switch_post, diagnostics, unauthorized, answer, handle, guarded, or_empty,
}

last_row-append :
    (rows : List KillSwitchRow) (row : KillSwitchRow) → last_row (rows ++ row ∷ []) ≡ some row
last_row-append [] row = refl
last_row-append (x ∷ []) row = refl
last_row-append (x ∷ y ∷ rows) row = last_row-append (y ∷ rows) row

-- The presented token is the configured one, and not empty.
abbrev pub Holds : Option String → Option String → Type 0
Holds token bearer = (t : String) × (token ≡ some t) × (bearer ≡ some t) × ((t == "") ≡ false)

-- There are two tokens, and one of them is not ASCII.
abbrev pub Uncomparable : Option String → Option String → Type 0
Uncomparable token bearer =
    (t : String) × (p : String) × (token ≡ some t)
    × (bearer ≡ some p)
    × ((is_ascii t && is_ascii p) ≡ false)

abbrev Judged : Option String → Option String → Result Bool → Type 0
Judged token bearer (raised exc) = (exc ≡ not_ascii) × Uncomparable token bearer
Judged token bearer (ok false) = ¬ Holds token bearer
Judged token bearer (ok true) = Holds token bearer

compare-Judged : (t p : String) → (t == "") ≡ false → Judged (some t) (some p) (compare_digest t p)
unfolding compare_digest
compare-Judged t p set = elim (Bool-cases (is_ascii t && is_ascii p)) [
  | inr e ↦ rw e (refl, (t, p, refl, refl, e))
  | inl e ↦ elim (Bool-cases (t == p)) [
    | inl same ↦ rw (e, same) (t, refl, ap some (sym ((eq_iff t p).0 same)), set)
    | inr other ↦ rw (e, other) (λ (u, a, b, c). ground (arith, eq_iff t p))
  ]
]

authenticate-Judged :
    (token bearer : Option String)
    → Judged token bearer (authenticate token (some (or_empty bearer)))
unfolding authenticate
authenticate-Judged none bearer = λ (u, a, b, c). cc
authenticate-Judged (some t) none = elim (Bool-cases (t == "")) [
  | inl e ↦ rw e (λ (u, a, b, c). cc)
  | inr e ↦ rw e (λ (u, a, b, c). cc)
]
authenticate-Judged (some t) (some p) = elim (Bool-cases (t == "")) [
  | inl e ↦ rw e (λ (u, a, b, c). ground (arith, eq_iff t u))
  | inr e ↦ elim (Bool-cases (p == "")) [
    | inl e' ↦ rw (e, e') (λ (u, a, b, c). ground (arith, eq_iff p u))
    | inr e' ↦ rw (e, e') (compare-Judged t p e)
  ]
]

module _ (token : Option String) (env_override : Bool) (day : Time → String) (now : Time) where
  -- What a call that was let in does to the database.
  abbrev pub Answered : Call → Db → Db → Type 0
  Answered (kill_switch_post wanted set_by) db s =
      (engaged env_override s ≡ (if env_override then true else wanted))
      × (s ≡ record db {
        kill_switch_audit =
            db.kill_switch_audit
            ++ (record { engaged = wanted; set_by = set_by; via = "api"; set_at = now }) ∷ [];
      })
  Answered (timeline media_id) db s = s ≡ db
  Answered (events type since user limit) db s = s ≡ db
  Answered stats_requests db s = s ≡ db
  Answered stats_watch db s = s ≡ db
  Answered digest_preview db s = s ≡ db
  Answered kill_switch_get db s = s ≡ db
  Answered diagnostics db s = s ≡ db

  switched :
      (wanted : Bool) (set_by : String) (db : Db)
      → Answered
          (kill_switch_post wanted set_by)
          db
          (answer token env_override day now (kill_switch_post wanted set_by) db).1
  unfolding answer set_switch set_kill_switch engaged kill_switch_state
  switched wanted set_by db = (rw (last_row-append db.kill_switch_audit) refl, refl)

  answered :
      (call : Call) (db : Db) → Answered call db (answer token env_override day now call db).1
  unfolding answer
  answered (kill_switch_post wanted set_by) db = switched wanted set_by db
  answered (timeline media_id) db = refl
  answered (events type since user limit) db = refl
  answered stats_requests db = refl
  answered stats_watch db = refl
  answered digest_preview db = refl
  answered kill_switch_get db = refl
  answered diagnostics db = refl

  -- What a call does: refused without the token, refused by the comparison, or answered.
  abbrev pub Guarded : String → Call → Db → Result Reply × Db → Type 0
  Guarded authorization call db r =
      ((r ≡ (ok unauthorized, db)) × ¬ Holds token (bearer_token authorization))
      ⊎ (((r ≡ (raised not_ascii, db)) × Uncomparable token (bearer_token authorization))
          ⊎ (Holds token (bearer_token authorization)
              × (r.0 ≡ ok (answer token env_override day now call db).0)
              × Answered call db r.1))

  guarded-Guarded :
      (verdict : Result Bool) (authorization : String) (call : Call) (db : Db)
      → Judged token (bearer_token authorization) verdict
      → Guarded authorization call db (guarded token env_override day now verdict call db)
  guarded-Guarded (raised exc) authorization call db (same, judged) =
      inr (inl (ap (λ e. (raised e, db)) same, judged))
  guarded-Guarded (ok false) authorization call db judged = inl (refl, judged)
  guarded-Guarded (ok true) authorization call db judged =
      inr (inr (judged, refl, answered call db))

  -- A call is answered only if its bearer token is the configured one, which is set and not empty.
  -- Then the kill switch command appends its audit row and is in force at once, an override of the
  -- environment still winning, and every other call changes nothing. Without that token the answer
  -- is 401, or the comparison raises since one of the two is not ASCII, and nothing changes.
  pub handle-Guarded :
      (authorization : String) (call : Call) (db : Db)
      → Guarded authorization call db (handle token env_override day now authorization call db)
  unfolding handle guard
  handle-Guarded authorization call db =
      guarded-Guarded (guard token authorization) authorization call db
        (authenticate-Judged token (bearer_token authorization))

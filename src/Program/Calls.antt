-- ===== src/Program/Calls.antt =====
-- The identity sync of src/costanza/jobs/identity_sync.py and the API of src/costanza/api/app.py as
-- sequences of writes.
use costanza.Prelude.{
  ℕ, String, Bool, true, false, Option, none, some, List, [], ◌∷◌, ◌==◌, is_some, Bool-cases, inl,
  inr,
}
use costanza.Json.{Json, Fields}
use costanza.Result.{Result, ok, raised}
use costanza.Stdlib.{Stdlib}
use costanza.Schemas.{Time, IdentityProvider}
use costanza.Store.{Db}
use costanza.Store.Users.{resolve_identity}
use costanza.Notify.Limits.{set_switch}
use costanza.Jobs.Identities.{
  seerr_id, tautulli_id, observe_unmapped, observe_user, observe_users, dicts, sync_source_users,
  run_identity_sync,
}
use costanza.Api.{
  guard, Call, timeline, events, stats_requests, stats_watch, digest_preview, kill_switch_get,
  kill_switch_post, diagnostics, answer, handle, guarded,
}
use costanza.Program.Writes.{Writes, none_yet}
use costanza.Program.Steps.{observe_identity-Writes, set_kill_switch-Writes}

module _ {db : Db} where
  observe_user-Writes :
      (p : IdentityProvider) (id : Option String) (n : ℕ) (s : Db)
      → Writes db s
      → Writes db (observe_user p id n s).1
  unfolding observe_unmapped
  observe_user-Writes p none n s ws = ws
  observe_user-Writes p (some x) n s ws = elim (Bool-cases (is_some (resolve_identity s p x))) [
    | inl e ↦ rw e ws
    | inr e ↦ rw e (observe_identity-Writes ws p x)
  ]

  observe_users-Writes :
      (p : IdentityProvider) (id_of : Fields → Option String) (users : List (Result Fields)) (n : ℕ)
      (s : Db)
      → Writes db s
      → Writes db (observe_users p id_of users n s).1
  unfolding observe_users
  observe_users-Writes p id_of [] n s ws = ws
  observe_users-Writes p id_of (raised exc ∷ users) n s ws = ws
  observe_users-Writes p id_of (ok user ∷ users) n s ws =
      let next = observe_user p (id_of user) n s in
      observe_users-Writes p id_of users next.0 next.1 (observe_user-Writes p (id_of user) n s ws)

  module _ (lib : Stdlib) where
    source-Writes :
        (kind : Option String) (users : Result (List Json)) (n : ℕ) (s : Db)
        → Writes db s
        → Writes db (sync_source_users lib kind users n s).1
    unfolding sync_source_users
    source-Writes none users n s ws = ws
    source-Writes (some kind) (raised exc) n s ws = ws
    source-Writes (some kind) (ok users) n s ws = elim (Bool-cases (kind == "seerr")) [
      | inl e ↦
          rw e (observe_users-Writes IdentityProvider.seerr (seerr_id lib) (dicts users) n s ws)
      | inr other ↦ rw other (elim (Bool-cases (kind == "tautulli")) [
        | inl e ↦
            rw e (
              observe_users-Writes IdentityProvider.tautulli (tautulli_id lib) (dicts users) n s ws)
        | inr e ↦ rw e ws
      ])
    ]

    pub run_identity_sync-Writes :
        (kinds : String → Option String) (clients : List (String × Result (List Json))) (n : ℕ)
        (s : Db)
        → Writes db s
        → Writes db (run_identity_sync lib kinds clients n s).1
    unfolding run_identity_sync
    run_identity_sync-Writes kinds [] n s ws = ws
    run_identity_sync-Writes kinds ((name, users) ∷ clients) n s ws =
        let next = sync_source_users lib (kinds name) users n s in
        run_identity_sync-Writes kinds clients next.0 next.1
          (source-Writes (kinds name) users n s ws)

module _ (token : Option String) (env_override : Bool) (day : Time → String) (now : Time)
    (db : Db) where
  answer-Writes : (call : Call) → Writes db (answer token env_override day now call db).1
  unfolding answer set_switch
  answer-Writes (kill_switch_post wanted set_by) =
      set_kill_switch-Writes none_yet wanted set_by "api" now
  answer-Writes (timeline media_id) = none_yet
  answer-Writes (events type since user limit) = none_yet
  answer-Writes stats_requests = none_yet
  answer-Writes stats_watch = none_yet
  answer-Writes digest_preview = none_yet
  answer-Writes kill_switch_get = none_yet
  answer-Writes diagnostics = none_yet

  guarded-Writes :
      (verdict : Result Bool) (call : Call)
      → Writes db (guarded token env_override day now verdict call db).1
  guarded-Writes (raised exc) call = none_yet
  guarded-Writes (ok false) call = none_yet
  guarded-Writes (ok true) call = answer-Writes call

  pub handle-Writes :
      (authorization : String) (call : Call)
      → Writes db (handle token env_override day now authorization call db).1
  unfolding handle
  handle-Writes authorization call = guarded-Writes (guard token authorization) call

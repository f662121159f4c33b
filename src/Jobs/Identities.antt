-- ===== src/Jobs/Identities.antt =====
-- src/costanza/jobs/identity_sync.py: the identities that no household member is mapped to. A client
-- gives its users, or raises; the job goes on with the next source.
pub mod Again
use costanza.Prelude.{
  ℕ, ◌+◌, String, Bool, true, false, Option, none, some, List, [], ◌∷◌, ◌==◌, if◌then◌else◌,
  is_some,
}
use costanza.Json.{Json, Fields, get_field, truthy}
use costanza.Result.{Result, ok, raised}
use costanza.Stdlib.{Stdlib, py_str}
use costanza.Schemas.{IdentityProvider}
use costanza.Store.{Db}
use costanza.Store.Users.{resolve_identity, observe_identity}
use costanza.Normalize.Common.{as_dict, or_json, is_null}

-- The external id of a user of Seerr and of Tautulli, if there is one to look up.
unfoldable pub seerr_id : Stdlib → Fields → Option String
seerr_id lib user =
    let username = or_json (get_field "username" user) (get_field "plexUsername" user) in
    if truthy username then some (py_str lib username) else none

unfoldable pub tautulli_id : Stdlib → Fields → Option String
tautulli_id lib user =
    let user_id = get_field "user_id" user in
    if is_null user_id then none else some (py_str lib user_id)

-- An identity that resolves to no active member is observed. Gives the count.
unfoldable pub observe_unmapped : IdentityProvider → String → ℕ → Db → ℕ × Db
observe_unmapped provider x observed db =
    let seen = observe_identity provider x db in
    if is_some (resolve_identity db provider x)
    then (observed, db)
    else (if seen.0 then observed + 1 else observed, seen.1)

abbrev pub observe_user : IdentityProvider → Option String → ℕ → Db → ℕ × Db
observe_user provider none observed db = (observed, db)
observe_user provider (some x) observed db = observe_unmapped provider x observed db

-- The loop over the users; a user that is no object raises, which ends it.
unfoldable pub observe_users :
    IdentityProvider → (Fields → Option String) → List (Result Fields) → ℕ → Db → ℕ × Db
unfolding observe_unmapped
observe_users provider id_of [] observed db = (observed, db)
observe_users provider id_of (raised exc ∷ users) observed db = (observed, db)
observe_users provider id_of (ok user ∷ users) observed db =
    let next = observe_user provider (id_of user) observed db in
    observe_users provider id_of users next.0 next.1

abbrev pub dicts : List Json → List (Result Fields)
dicts [] = []
dicts (x ∷ xs) = as_dict x ∷ dicts xs

-- One source, by its kind.
unfoldable pub sync_source_users : Stdlib → Option String → Result (List Json) → ℕ → Db → ℕ × Db
unfolding observe_users seerr_id tautulli_id
sync_source_users lib none users observed db = (observed, db)
sync_source_users lib (some kind) (raised exc) observed db = (observed, db)
sync_source_users lib (some kind) (ok users) observed db =
    if kind == "seerr"
    then observe_users IdentityProvider.seerr (seerr_id lib) (dicts users) observed db
    else if kind == "tautulli"
    then observe_users IdentityProvider.tautulli (tautulli_id lib) (dicts users) observed db
    else (observed, db)

-- `run_identity_sync`: the clients by name, with what their `get_users` gives.
unfoldable pub run_identity_sync :
    Stdlib → (String → Option String) → List (String × Result (List Json)) → ℕ → Db → ℕ × Db
unfolding sync_source_users
run_identity_sync lib kinds [] observed db = (observed, db)
run_identity_sync lib kinds ((name, users) ∷ clients) observed db =
    let next = sync_source_users lib (kinds name) users observed db in
    run_identity_sync lib kinds clients next.0 next.1

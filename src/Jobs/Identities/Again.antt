-- ===== src/Jobs/Identities/Again.antt =====
-- A second identity sync of src/costanza/jobs/identity_sync.py finds nothing new.
use costanza.Prelude.{
  ℕ, String, ◌≡◌, refl, ap, ◌∙◌, true, Option, none, some, List, [], ◌∷◌, ◌==◌, is_some, any, arith,
  Bool-cases, inl, inr, find?, any_of_find?, any-append_row, str_eq_self,
}
use costanza.Json.{Json, Fields}
use costanza.Result.{Result, ok, raised}
use costanza.Stdlib.{Stdlib}
use costanza.Schemas.{IdentityProvider}
use costanza.Store.{Db, IdentityRow}
use costanza.Store.Users.{is_identity, provider_eq, joined, resolve_identity, observe_identity}
use costanza.Jobs.Identities.{
  seerr_id, tautulli_id, observe_unmapped, observe_user, observe_users, dicts, sync_source_users,
  run_identity_sync,
}

-- The identity is in the table.
abbrev Seen : IdentityProvider → String → Db → Type 0
Seen p x db = any (is_identity p x) db.identities ≡ true

-- Every identity of `db` is in `s`.
abbrev Grows : Db → Db → Type 0
Grows db s = (p : IdentityProvider) (x : String) → Seen p x db → Seen p x s

provider_eq_self : (p : IdentityProvider) → provider_eq p p ≡ true
provider_eq_self IdentityProvider.seerr = refl
provider_eq_self IdentityProvider.plex = refl
provider_eq_self IdentityProvider.tautulli = refl
provider_eq_self IdentityProvider.discord = refl

joined-found :
    (rows : Option IdentityRow) (db : Db)
    → is_some (joined rows db.users) ≡ true
    → (row : IdentityRow) × (rows ≡ some row)
joined-found none db h = cc
joined-found (some row) db h = (row, refl)

-- An identity that resolves is in the table.
resolved-Seen :
    (p : IdentityProvider) (x : String) (db : Db)
    → is_some (resolve_identity db p x) ≡ true
    → Seen p x db
unfolding resolve_identity
resolved-Seen p x db h =
    let found = joined-found (find? (is_identity p x) db.identities) db h in
    any_of_find? (is_identity p x) db.identities found.0 found.1

observe_unmapped-Grows :
    (p : IdentityProvider) (x : String) (n : ℕ) (db : Db) → Grows db (observe_unmapped p x n db).1
unfolding observe_unmapped observe_identity
observe_unmapped-Grows p x n db q y h = ground (
  arith,
  any-append_row (is_identity q y) db.identities
      (record { user_id = none; provider = p; external_id = x }),
)

observe_unmapped-Seen :
    (p : IdentityProvider) (x : String) (n : ℕ) (db : Db) → Seen p x (observe_unmapped p x n db).1
unfolding observe_unmapped observe_identity
observe_unmapped-Seen p x n db = ground (
  arith,
  resolved-Seen p x db,
  any-append_row (is_identity p x) db.identities
      (record { user_id = none; provider = p; external_id = x }),
  provider_eq_self p,
  str_eq_self x,
)

-- A known identity changes nothing.
observe_unmapped-known :
    (p : IdentityProvider) (x : String) (n : ℕ) (db : Db)
    → Seen p x db
    → observe_unmapped p x n db ≡ (n, db)
unfolding observe_unmapped observe_identity
observe_unmapped-known p x n db seen = elim (Bool-cases (is_some (resolve_identity db p x))) [
  | inl e ↦ rw e refl
  | inr e ↦ rw (e, seen) refl
]

-- Every user that the loop gets to has its identity in the table.
abbrev Covered : IdentityProvider → (Fields → Option String) → List (Result Fields) → Db → Type 0
Covered p id_of [] db = Unit
Covered p id_of (raised exc ∷ users) db = Unit
Covered p id_of (ok user ∷ users) db =
    ((x : String) → id_of user ≡ some x → Seen p x db) × Covered p id_of users db

observe_user-Grows :
    (p : IdentityProvider) (id : Option String) (n : ℕ) (db : Db)
    → Grows db (observe_user p id n db).1
observe_user-Grows p none n db q y h = h
observe_user-Grows p (some x) n db q y h = observe_unmapped-Grows p x n db q y h

observe_user-Seen :
    (p : IdentityProvider) (id : Option String) (n : ℕ) (db : Db)
    → (x : String) → id ≡ some x
    → Seen p x (observe_user p id n db).1
observe_user-Seen p none n db x e = cc
observe_user-Seen p (some y) n db x e =
    let same : y ≡ x = ground arith in rw (← same) (observe_unmapped-Seen p y n db)

observe_users-Grows :
    (p : IdentityProvider) (id_of : Fields → Option String) (users : List (Result Fields)) (n : ℕ)
    (db : Db)
    → Grows db (observe_users p id_of users n db).1
unfolding observe_users
observe_users-Grows p id_of [] n db q y h = h
observe_users-Grows p id_of (raised exc ∷ users) n db q y h = h
observe_users-Grows p id_of (ok user ∷ users) n db q y h =
    observe_users-Grows p id_of users _ (observe_user p (id_of user) n db).1 q y
      (observe_user-Grows p (id_of user) n db q y h)

observe_users-Covered :
    (p : IdentityProvider) (id_of : Fields → Option String) (users : List (Result Fields)) (n : ℕ)
    (db : Db)
    → Covered p id_of users (observe_users p id_of users n db).1
unfolding observe_users
observe_users-Covered p id_of [] n db = tt
observe_users-Covered p id_of (raised exc ∷ users) n db = tt
observe_users-Covered p id_of (ok user ∷ users) n db =
    let next = observe_user p (id_of user) n db in
    (
      (λ x e.
          observe_users-Grows p id_of users next.0 next.1 p x
            (observe_user-Seen p (id_of user) n db x e)),
      observe_users-Covered p id_of users next.0 next.1,
    )

Covered-Grows :
    (p : IdentityProvider) (id_of : Fields → Option String) (users : List (Result Fields))
    (db s : Db)
    → Grows db s
    → Covered p id_of users db
    → Covered p id_of users s
Covered-Grows p id_of [] db s g h = tt
Covered-Grows p id_of (raised exc ∷ users) db s g h = tt
Covered-Grows p id_of (ok user ∷ users) db s g h =
    ((λ x e. g p x (h.0 x e)), Covered-Grows p id_of users db s g h.1)

observe_user-known :
    (p : IdentityProvider) (id : Option String) (n : ℕ) (db : Db)
    → ((x : String) → id ≡ some x → Seen p x db)
    → observe_user p id n db ≡ (n, db)
observe_user-known p none n db h = refl
observe_user-known p (some x) n db h = observe_unmapped-known p x n db (h x refl)

observe_users-known :
    (p : IdentityProvider) (id_of : Fields → Option String) (users : List (Result Fields)) (n : ℕ)
    (db : Db)
    → Covered p id_of users db
    → observe_users p id_of users n db ≡ (n, db)
unfolding observe_users
observe_users-known p id_of [] n db h = refl
observe_users-known p id_of (raised exc ∷ users) n db h = refl
observe_users-known p id_of (ok user ∷ users) n db h =
    ap (λ next. observe_users p id_of users next.0 next.1)
      (observe_user-known p (id_of user) n db h.0)
    ∙ observe_users-known p id_of users n db h.1

module _ (lib : Stdlib) where
  source-Grows :
      (kind : Option String) (users : Result (List Json)) (n : ℕ) (db : Db)
      → Grows db (sync_source_users lib kind users n db).1
  unfolding sync_source_users
  source-Grows none users n db q y h = h
  source-Grows (some kind) (raised exc) n db q y h = h
  source-Grows (some kind) (ok users) n db q y h = elim (Bool-cases (kind == "seerr")) [
    | inl e ↦
        rw e (observe_users-Grows IdentityProvider.seerr (seerr_id lib) (dicts users) n db q y h)
    | inr other ↦ rw other (elim (Bool-cases (kind == "tautulli")) [
      | inl e ↦
          rw e (
            observe_users-Grows IdentityProvider.tautulli (tautulli_id lib) (dicts users) n db q y
              h)
      | inr e ↦ rw e h
    ])
  ]

  -- What the source's users need to be known.
  abbrev Known : Option String → Result (List Json) → Db → Type 0
  Known kind users db =
      (s : Db) → Grows db s → (n : ℕ) → sync_source_users lib kind users n s ≡ (n, s)

  source-Known :
      (kind : Option String) (users : Result (List Json)) (n : ℕ) (db : Db)
      → Known kind users (sync_source_users lib kind users n db).1
  unfolding sync_source_users
  source-Known none users n db = λ s g m. refl
  source-Known (some kind) (raised exc) n db = λ s g m. refl
  source-Known (some kind) (ok users) n db = elim (Bool-cases (kind == "seerr")) [
    | inl e ↦ rw e (λ s g m.
        observe_users-known IdentityProvider.seerr (seerr_id lib) (dicts users) m s (
          Covered-Grows IdentityProvider.seerr (seerr_id lib) (dicts users)
            (observe_users IdentityProvider.seerr (seerr_id lib) (dicts users) n db).1 s g
            (observe_users-Covered IdentityProvider.seerr (seerr_id lib) (dicts users) n db)))
    | inr other ↦ rw other (elim (Bool-cases (kind == "tautulli")) [
      | inl e ↦ rw e (λ s g m.
          observe_users-known IdentityProvider.tautulli (tautulli_id lib) (dicts users) m s (
            Covered-Grows IdentityProvider.tautulli (tautulli_id lib) (dicts users)
              (observe_users IdentityProvider.tautulli (tautulli_id lib) (dicts users) n db).1 s g
              (observe_users-Covered IdentityProvider.tautulli (tautulli_id lib) (dicts users) n
                db)))
      | inr e ↦ rw e (λ s g m. refl)
    ])
  ]

  module _ (kinds : String → Option String) where
    sync-Grows :
        (clients : List (String × Result (List Json))) (n : ℕ) (db : Db)
        → Grows db (run_identity_sync lib kinds clients n db).1
    unfolding run_identity_sync
    sync-Grows [] n db q y h = h
    sync-Grows ((name, users) ∷ clients) n db q y h =
        sync-Grows clients _ (sync_source_users lib (kinds name) users n db).1 q y
          (source-Grows (kinds name) users n db q y h)

    sync-Known :
        (clients : List (String × Result (List Json))) (n : ℕ) (db s : Db)
        → Grows (run_identity_sync lib kinds clients n db).1 s
        → (m : ℕ) → run_identity_sync lib kinds clients m s ≡ (m, s)
    unfolding run_identity_sync
    sync-Known [] n db s g m = refl
    sync-Known ((name, users) ∷ clients) n db s g m =
        let first = sync_source_users lib (kinds name) users n db in
        ap (λ next. run_identity_sync lib kinds clients next.0 next.1)
          (source-Known (kinds name) users n db s
            (λ q y h. g q y (sync-Grows clients first.0 first.1 q y h)) m)
        ∙ sync-Known clients first.0 first.1 s g m

    -- An identity sync that runs again with the same answers of the clients, before anything else is
    -- written, observes no new identity and leaves the database as it is, whatever the clients
    -- answered or raised.
    pub run_identity_sync_again :
        (clients : List (String × Result (List Json))) (db : Db)
        → run_identity_sync lib kinds clients 0 (run_identity_sync lib kinds clients 0 db).1
          ≡ (0, (run_identity_sync lib kinds clients 0 db).1)
    run_identity_sync_again clients db =
        sync-Known clients 0 db (run_identity_sync lib kinds clients 0 db).1 (λ q y h. h) 0

-- ===== src/Program/Sync.antt =====
-- The upserts of src/costanza/store/db.py at start-up as sequences of writes.
use costanza.Prelude.{
  String, refl, ◌∙◌, some, List, [], ◌∷◌, any, eqb, Bool-cases, inl, inr, any-update_where,
  any-append_row, format,
}
use costanza.Schemas.{IdentityProvider}
use costanza.Config.{SourceConfig, HouseholdUser}
use costanza.Store.{Db}
use costanza.Store.Users.{is_identity}
use costanza.Store.Sync.{
  Case, is_named, sync_source, sync_sources, slug, user_row, upsert_user, upsert_identity,
  upsert_identities, sync_user, sync_users,
}
use costanza.Program.Writes.{
  Writes, add_identity, change_identity, put_users, put_sources, then_one,
}

module _ {db : Db} (case : Case) where
  sync_source-Writes :
      (source : SourceConfig) (s : Db) → Writes db s → Writes db (sync_source case source s)
  unfolding sync_source
  sync_source-Writes source s ws = elim (Bool-cases (any (is_named source.name) s.sources)) [
    | inl e ↦ rw e (
        then_one ws (
          put_sources _
            (λ id h. any-update_where (λ t. eqb t.id id) _ _ s.sources (λ x. refl) ∙ h)))
    | inr e ↦
        rw e (
          then_one ws (put_sources _ (λ id h. rw (any-append_row (λ t. eqb t.id id) s.sources, h))))
  ]

  pub sync_sources-Writes :
      (sources : List SourceConfig) (s : Db) → Writes db s → Writes db (sync_sources case sources s)
  unfolding sync_sources
  sync_sources-Writes [] s ws = ws
  sync_sources-Writes (source ∷ sources) s ws =
      sync_sources-Writes sources (sync_source case source s) (sync_source-Writes source s ws)

  upsert_identity-Writes :
      (user_id : String) (p : IdentityProvider) (x : String) (s : Db)
      → Writes db s
      → Writes db (record s { identities = upsert_identity user_id (p, x) s.identities })
  unfolding upsert_identity
  upsert_identity-Writes user_id p x s ws = elim (Bool-cases (any (is_identity p x) s.identities)) [
    | inl e ↦ rw e (then_one ws (change_identity p x _ (λ y. refl) (λ y. refl)))
    | inr e ↦ rw e (
        then_one ws
          (add_identity (record { user_id = some user_id; provider = p; external_id = x }) e))
  ]

  upsert_identities-Writes :
      (user_id : String) (identities : List (IdentityProvider × String)) (s : Db)
      → Writes db s
      → Writes db (record s { identities = upsert_identities user_id identities s.identities })
  unfolding upsert_identities
  upsert_identities-Writes user_id [] s ws = ws
  upsert_identities-Writes user_id ((p, x) ∷ identities) s ws =
      upsert_identities-Writes user_id identities
        (record s { identities = upsert_identity user_id (p, x) s.identities })
        (upsert_identity-Writes user_id p x s ws)

  sync_user-Writes :
      (user : HouseholdUser) (s : Db) → Writes db s → Writes db (sync_user case user s)
  unfolding sync_user
  sync_user-Writes user s ws =
      let id = format ("u:" ∷ slug case user.display ∷ []) in
      let users = upsert_user (user_row id user) s.users in
      upsert_identities-Writes id user.identities (record s { users = users })
        (then_one ws (put_users users))

  pub sync_users-Writes :
      (users : List HouseholdUser) (s : Db) → Writes db s → Writes db (sync_users case users s)
  unfolding sync_users
  sync_users-Writes [] s ws = ws
  sync_users-Writes (user ∷ users) s ws =
      sync_users-Writes users (sync_user case user s) (sync_user-Writes user s ws)

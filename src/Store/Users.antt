-- ===== src/Store/Users.antt =====
-- src/costanza/store/db.py, "users + identities".
use costanza.Prelude.{
  String, Bool, true, false, ◌&&◌, Option, none, some, List, [], ◌∷◌, ◌++◌, any, find?, ◌==◌,
  if◌then◌else◌, not, filter, is_some, map, sort_with, text_le,
}
use costanza.Schemas.{IdentityProvider}
use costanza.Store.{Db, UserRow, IdentityRow}

abbrev pub provider_eq : IdentityProvider → IdentityProvider → Bool
provider_eq IdentityProvider.seerr IdentityProvider.seerr = true
provider_eq IdentityProvider.plex IdentityProvider.plex = true
provider_eq IdentityProvider.tautulli IdentityProvider.tautulli = true
provider_eq IdentityProvider.discord IdentityProvider.discord = true
provider_eq _ _ = false

-- UNIQUE (provider, external_id)
abbrev pub is_identity : IdentityProvider → String → IdentityRow → Bool
is_identity provider external_id row =
    provider_eq row.provider provider && row.external_id == external_id

abbrev pub is_user : String → UserRow → Bool
is_user id row = row.id == id

abbrev pub joined : Option IdentityRow → List UserRow → Option UserRow
joined none users = none
joined (some identity) users = elim identity.user_id [
  | none ↦ none
  | some id ↦ find? (λ (u : UserRow). is_user id u && u.active) users
]

-- The member that an identity is mapped to, if that member is active.
unfoldable pub resolve_identity : Db → IdentityProvider → String → Option UserRow
resolve_identity db provider external_id =
    joined (find? (is_identity provider external_id) db.identities) db.users

-- INSERT OR IGNORE with user_id NULL; `True` if the identity was new.
unfoldable pub observe_identity : IdentityProvider → String → Db → Bool × Db
observe_identity provider external_id db =
    if any (is_identity provider external_id) db.identities then (false, db) else (
      true,
      record db {
        identities =
            db.identities
            ++ (record { user_id = none; provider = provider; external_id = external_id }) ∷ [];
      },
    )

unfoldable pub get_user : Db → String → Option UserRow
get_user db user_id = find? (is_user user_id) db.users

abbrev pub provider_name : IdentityProvider → String
provider_name IdentityProvider.seerr = "seerr"
provider_name IdentityProvider.plex = "plex"
provider_name IdentityProvider.tautulli = "tautulli"
provider_name IdentityProvider.discord = "discord"

abbrev identity_key : IdentityRow → IdentityProvider × String
identity_key row = (row.provider, row.external_id)

-- ORDER BY provider, external_id
abbrev identity_le : IdentityRow → IdentityRow → Bool
identity_le a b =
    if provider_eq a.provider b.provider
    then text_le a.external_id b.external_id
    else text_le (provider_name a.provider) (provider_name b.provider)

-- The columns of an identity without a member, by provider and external id.
unfoldable pub unmapped_identities : Db → List (IdentityProvider × String)
unmapped_identities db = map identity_key (
    sort_with identity_le (filter (λ (row : IdentityRow). not (is_some row.user_id)) db.identities))

-- ===== src/Store/Sync.antt =====
-- src/costanza/store/db.py: the upserts of `sync_sources` and `sync_users`, at start-up.
use Prim.Native.Char.{code}
use costanza.Prelude.{
  ℕ, suc, max, String, Bool, true, false, ◌&&◌, ◌||◌, some, List, [], ◌∷◌, ◌++◌, ◌==◌, any,
  update_where, leb, eqb, if◌then◌else◌, format, ◌≡◌, refl,
}
use costanza.Schemas.{IdentityProvider}
use costanza.Config.{SourceConfig, HouseholdUser}
use costanza.Store.{Db, SourceRow, UserRow, IdentityRow}
use costanza.Store.Users.{is_identity, is_user}

-- `str.upper` and `str.lower`.
pub record Case : Type 0 where
  pub upper : String → String
  pub lower : String → String

-- s.replace("-", "_")
underscored : String → String
underscored String.[] = ""
underscored (String.◌∷◌ c s) =
    let rest = underscored s in
    if eqb (code c) b'-' then format ("_" ∷ rest ∷ []) else String.◌∷◌ c rest

-- config.py: `_env_name` and `SourceConfig.secret_env`.
unfoldable pub secret_env : Case → SourceConfig → String
unfolding underscored
secret_env case source = format ("WEBHOOK_SECRET__" ∷ underscored (case.upper source.name) ∷ [])

pub is_named : String → SourceRow → Bool
is_named name row = row.name == name

-- AUTOINCREMENT: past every id.
pub next_source_id : List SourceRow → ℕ
next_source_id [] = 1
next_source_id (row ∷ rows) = max (suc row.id) (next_source_id rows)

-- One upsert. SQLite's AUTOINCREMENT keeps a sequence of its own and may leave gaps.
unfoldable pub sync_source : Case → SourceConfig → Db → Db
unfolding secret_env is_named next_source_id
sync_source case source db =
    if any (is_named source.name) db.sources
    then record db {
      sources =
          update_where (is_named source.name)
            (λ row. record row {
              kind = source.kind;
              secret_ref = secret_env case source;
              enabled = source.enabled;
            })
            db.sources;
    }
    else record db {
      sources =
          db.sources
          ++ (record {
            id = next_source_id db.sources;
            kind = source.kind;
            name = source.name;
            secret_ref = secret_env case source;
            enabled = source.enabled;
          })
            ∷ [];
    }

unfoldable pub sync_sources : Case → List SourceConfig → Db → Db
unfolding sync_source
sync_sources case [] db = db
sync_sources case (source ∷ sources) db = sync_sources case sources (sync_source case source db)

-- `[a-z0-9]`
is_slug_char : ℕ → Bool
is_slug_char c = (leb b'a' c && leb c b'z') || (leb b'0' c && leb c b'9')

-- The runs of other characters become one dash each, without those at the ends: `begun` after the
-- first character that is kept, `gap` within a run.
slug_from : Bool → Bool → String → String
unfolding is_slug_char
slug_from begun gap String.[] = ""
slug_from begun gap (String.◌∷◌ c s) = elim (is_slug_char (code c)) [
  | true ↦ format ((if begun && gap then "-" else "") ∷ String.◌∷◌ c (slug_from true false s) ∷ [])
  | false ↦ slug_from begun true s
]

-- _slug
unfoldable pub slug : Case → String → String
unfolding slug_from
slug case text = slug_from false false (case.lower text)

pub user_row : String → HouseholdUser → UserRow
user_row id user = record {
  id = id;
  display_name = user.display;
  is_admin = user.admin;
  active = user.active;
}

pub upsert_user : UserRow → List UserRow → List UserRow
upsert_user row rows =
    if any (is_user row.id) rows
    then update_where (is_user row.id) (λ old. row) rows
    else rows ++ row ∷ []

unfoldable pub upsert_identity :
    String → IdentityProvider × String → List IdentityRow → List IdentityRow
upsert_identity user_id (provider, external_id) rows =
    if any (is_identity provider external_id) rows
    then update_where (is_identity provider external_id)
        (λ old. record old { user_id = some user_id }) rows
    else rows
      ++ (record { user_id = some user_id; provider = provider; external_id = external_id }) ∷ []

unfoldable pub upsert_identities :
    String → List (IdentityProvider × String) → List IdentityRow → List IdentityRow
unfolding upsert_identity
upsert_identities user_id [] rows = rows
upsert_identities user_id (identity ∷ identities) rows =
    upsert_identities user_id identities (upsert_identity user_id identity rows)

unfoldable pub sync_user : Case → HouseholdUser → Db → Db
unfolding user_row upsert_user upsert_identities slug
sync_user case user db =
    let id = format ("u:" ∷ slug case user.display ∷ []) in
    record db {
      users = upsert_user (user_row id user) db.users;
      identities = upsert_identities id user.identities db.identities;
    }

unfoldable pub sync_users : Case → List HouseholdUser → Db → Db
unfolding sync_user
sync_users case [] db = db
sync_users case (user ∷ users) db = sync_users case users (sync_user case user db)

plain : Case
plain = record { upper = λ s. s; lower = λ s. s }

slug_test : slug plain "--alice  b!2-" ≡ "alice-b-2"
unfolding slug plain format
slug_test = refl

-- ===== src/Config.antt =====
-- src/costanza/config.py: routing.yaml as a record, and the checks that its models make. What
-- pydantic parses and what the environment holds are inputs.
use costanza.Prelude.{
  ℕ, String, Bool, false, not, ◌&&◌, ◌||◌, Option, none, some, List, [], ◌∷◌, any, find?, map, ◌==◌,
  if◌then◌else◌,
}
use costanza.Json.{ℤ}
use costanza.Result.{Exception, Result, ok, raised}
use costanza.Schemas.{IdentityProvider}

pub record SourceConfig : Type 0 where
  pub name : String
  pub kind : String
  pub url : Option String
  pub enabled : Bool

pub record RouteRule : Type 0 where
  pub types : List String
  pub channel : String
  pub sources : Option (List String)

pub record WatchCompletionConfig : Type 0 where
  pub tautulli_watched_trigger : Bool
  pub progress_threshold : ℤ

pub record HouseholdUser : Type 0 where
  pub display : String
  pub admin : Bool
  pub active : Bool
  pub identities : List (IdentityProvider × String)

-- `channels` keeps the names; `digest_channel` is `digest.channel`.
pub record RoutingConfig : Type 0 where
  pub sources : List SourceConfig
  pub channels : List String
  pub rules : List RouteRule
  pub admin_channel : Option String
  pub digest_channel : Option String
  pub watch_completion : WatchCompletionConfig
  pub per_channel_per_minute : ℕ
  pub users : List HouseholdUser

abbrev pub source_kinds : List String
source_kinds = "seerr" ∷ "radarr" ∷ "sonarr" ∷ "tautulli" ∷ []

-- x in xs
abbrev pub is_in : String → List String → Bool
is_in x xs = any (λ y. y == x) xs

abbrev pub value_error : String → Exception
value_error message = record { name = "ValueError"; message = message }

unfoldable pub check_kind : SourceConfig → Result (Unit {0})
check_kind source =
    if is_in source.kind source_kinds then ok tt else raised (value_error "unknown source kind")

abbrev source_name : SourceConfig → String
source_name s = s.name

-- len(names) != len(set(names))
unfoldable pub has_duplicates : List String → Bool
has_duplicates [] = false
has_duplicates (x ∷ xs) = is_in x xs || has_duplicates xs

-- A channel reference that is None or empty is not checked.
abbrev dangling : List String → Option String → Bool
dangling known none = false
dangling known (some channel) = not (channel == "") && not (is_in channel known)

unfoldable pub check_refs : RoutingConfig → Result (Unit {0})
unfolding has_duplicates
check_refs routing =
    if has_duplicates (map source_name routing.sources)
    then raised (value_error "duplicate source names in routing.yaml")
    else if any (λ rule. not (is_in rule.channel routing.channels)) routing.rules
    then raised (value_error "rule routes to unknown channel")
    else if dangling routing.channels routing.digest_channel
    then raised (value_error "digest channel not in channels")
    else if dangling routing.channels routing.admin_channel
    then raised (value_error "admin channel not in channels")
    else ok tt

unfoldable pub source : RoutingConfig → String → Option SourceConfig
source routing name = find? (λ s. s.name == name) routing.sources

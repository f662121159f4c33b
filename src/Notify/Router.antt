-- ===== src/Notify/Router.antt =====
-- src/costanza/notify/router.py.
pub mod Channels
use costanza.Prelude.{
  String, Bool, true, false, not, ◌&&◌, Option, none, some, List, [], ◌∷◌, ◌++◌, any, ◌==◌,
  if◌then◌else◌,
}
use costanza.Schemas.{CanonicalEvent, EventType, type_name}
use costanza.Config.{RoutingConfig, RouteRule, is_in}

abbrev pub allows_source : Option (List String) → String → Bool
allows_source none source = true
allows_source (some names) source = is_in source names

-- The rule's two guards.
abbrev pub matches : RouteRule → String → String → Bool
matches rule type source = is_in type rule.types && allows_source rule.sources source

-- The loop over the rules, from the channels found so far.
unfoldable pub collect : List RouteRule → String → String → List String → List String
collect [] type source channels = channels
collect (rule ∷ rules) type source channels = collect rules type source (
    if matches rule type source && not (is_in rule.channel channels)
    then channels ++ rule.channel ∷ []
    else channels)

unfoldable pub channels_for : CanonicalEvent → RoutingConfig → List String
unfolding collect
channels_for event routing = collect routing.rules (type_name event.type) event.source []

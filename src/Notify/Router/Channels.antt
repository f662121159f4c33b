-- ===== src/Notify/Router/Channels.antt =====
-- The router of src/costanza/notify/router.py against the rules: which channels, and each once.
use costanza.Prelude.{
  String, ◌≡◌, refl, Bool, false, not, ◌&&◌, ◌||◌, List, [], ◌∷◌, ◌++◌, arith, any, count, ◌==◌,
  any-append_row, count-append_row, count-eq-zero_of_not-any, count-pos_of_any, if◌then◌else◌,
  eq_iff, ◌≤◌, Bool-cases, inl, inr,
}
use costanza.Schemas.{CanonicalEvent, type_name}
use costanza.Config.{RoutingConfig, RouteRule, is_in}
use costanza.Notify.Router.{matches, collect, channels_for}

-- Some rule for the channel matches.
abbrev pub routed : List RouteRule → String → String → String → Bool
routed rules type source channel =
    any (λ rule. matches rule type source && rule.channel == channel) rules

is_in_nil : (channel : String) → is_in channel [] ≡ false
unfolding any
is_in_nil channel = refl

is_in-collect :
    (rules : List RouteRule) (type source channel : String) (found : List String)
    → is_in channel (collect rules type source found)
      ≡ (is_in channel found || routed rules type source channel)
unfolding collect any
is_in-collect [] type source channel found = ground arith
is_in-collect (rule ∷ rules) type source channel found = ground (
  arith,
  eq_iff rule.channel channel,
  is_in-collect rules type source channel (
      if matches rule type source && not (is_in rule.channel found)
      then found ++ rule.channel ∷ []
      else found),
  any-append_row (λ y. y == channel) found rule.channel,
)

count-collect-le :
    (rules : List RouteRule) (type source channel : String) (found : List String)
    → count (λ y. y == channel) found ≤ 1
    → count (λ y. y == channel) (collect rules type source found) ≤ 1
unfolding collect
count-collect-le [] type source channel found h = h
count-collect-le (rule ∷ rules) type source channel found h =
    count-collect-le rules type source channel _
      (elim (Bool-cases (matches rule type source && not (is_in rule.channel found))) [
        | inl new ↦ rw new (
            ground (
              arith,
              eq_iff rule.channel channel,
              count-append_row (λ y. y == channel) found rule.channel,
              count-eq-zero_of_not-any (λ y. y == channel) found,
            ))
        | inr old ↦ rw old h
      ])

-- A channel is among the channels of an event exactly once if some rule allows the event's type
-- and source and routes to it, and else not at all.
pub count-channels_for :
    (event : CanonicalEvent) (routing : RoutingConfig) (channel : String)
    → count (λ y. y == channel) (channels_for event routing)
      ≡ (if routed routing.rules (type_name event.type) event.source channel then 1 else 0)
unfolding channels_for
count-channels_for event routing channel =
    let rules = routing.rules in
    let type = type_name event.type in
    let found = collect rules type event.source [] in
    ground (
      arith,
      count-collect-le rules type event.source channel [] (unfold count in omega arith),
      is_in-collect rules type event.source channel [],
      count-eq-zero_of_not-any (λ y. y == channel) found,
      count-pos_of_any (λ y. y == channel) found,
      is_in_nil channel,
    )

-- ===== src/Rules.antt =====
-- src/routing.rs: the router that the configuration gives, which takes the first rule that matches.
use telegraph_center.Base.{
  String, ◌≡◌, refl, true, false, List, [], ◌∷◌, ◌++◌, map, some, arith, ◌==◌, eq_iff, All,
  Bool-cases, ◌⊎◌, inl, inr, if◌then◌else◌, ap,
}
use telegraph_center.Base.Table.{select_one}
use telegraph_center.Domain.Entities.{Recording, Tags}
use telegraph_center.Config.{
  AppConfig, Sink, RoutingRule, matches, routing_rules, sink_name, match_tags,
}
use telegraph_center.Workers.{RoutingDecision, sink, backlog}

pub record ConfigRouter : Type 0 where
  pub rules : List RoutingRule

unfoldable pub from_config : AppConfig → ConfigRouter
unfolding routing_rules
from_config config = record { rules = routing_rules config }

-- the loop over the rules
unfoldable pub first_match : List RoutingRule → Tags → RoutingDecision
unfolding matches
first_match [] tags = backlog
first_match (rule ∷ rules) tags =
    if matches rule tags then sink rule.sink_name else first_match rules tags

unfoldable pub route : ConfigRouter → Recording → RoutingDecision
unfolding first_match
route router recording = first_match router.rules recording.tags

-- The first rule that matches decides, and the Backlog is the answer only where none matches.
pub first_match_lem :
    (rules : List RoutingRule) (tags : Tags)
    → (All (λ r. matches r tags ≡ false) rules × (first_match rules tags ≡ backlog))
      ⊎ ((before : List RoutingRule) × (rule : RoutingRule) × (after : List RoutingRule) × (rules
            ≡ before ++ rule ∷ after)
          × All (λ r. matches r tags ≡ false) before
          × (matches rule tags ≡ true)
          × (first_match rules tags ≡ sink rule.sink_name))
unfolding first_match
first_match_lem [] tags = inl (tt, refl)
first_match_lem (rule ∷ rules) tags = elim (Bool-cases (matches rule tags)) [
  | inl fits ↦ inr ([], rule, rules, refl, tt, fits, rw fits refl)
  | inr other ↦ elim (first_match_lem rules tags) [
    | inl (others, nothing) ↦ inl ((other, others), rw other nothing)
    | inr (before, r, after, split, earlier, fits, found) ↦
        inr (
          rule ∷ before,
          r,
          after,
          ap (λ l. rule ∷ l) split,
          (other, earlier),
          fits,
          rw other found,
        )
  ]
]

-- A rule's Sink stands in the configuration under its name.
named_sink :
    (sinks : List Sink) (name : String) (tags : Tags)
    → first_match
        (map (λ s. record { sink_name = sink_name s; match_tags = match_tags s }) sinks)
        tags
      ≡ sink name
    → (s : Sink) × (select_one (λ x. sink_name x == name) sinks ≡ some s)
unfolding first_match select_one
named_sink [] name tags e = absurd (ground arith)
named_sink (s ∷ sinks) name tags e = elim (Bool-cases (sink_name s == name)) [
  | inl same ↦ (s, rw same refl)
  | inr other ↦
      let (t, found) = named_sink sinks name tags (ground (arith, eq_iff (sink_name s) name)) in
      (t, rw other found)
]

-- Where the router of a configuration selects a Sink, the configuration has a Sink of that name.
pub route_configured :
    (config : AppConfig) (recording : Recording) (name : String)
    → route (from_config config) recording ≡ sink name
    → (s : Sink) × (select_one (λ x. sink_name x == name) config.sinks ≡ some s)
unfolding route from_config routing_rules
route_configured config recording name e = named_sink config.sinks name recording.tags e

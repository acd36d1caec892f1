-- ===== src/Model/Routes.antt =====
-- `ValidateCustomRouteRules` of internal/model/custom_route_validate.go. An error carries the place
-- of the rule and the check that failed; `none` is success.
use cpanelde.Prelude.{
  ℕ, suc, Bool, true, false, not, ◌||◌, ◌&&◌, List, [], ◌∷◌, any, if◌then◌else◌, Text, Option, none,
  some, ◌==◌, text_eq, codes, trim_space, to_lower, is_empty,
}
use cpanelde.Model.Types.{RouteMatch, CustomRouteRule}
use cpanelde.Model.Ports.{validate_port_specs, validate_networks, validate_geo_ip_categories}
use cpanelde.Model.Support.{mem_text, normal, KernelRouteSupport, route_support_matrix}

pub data RouteCheck : Type 0 where
  match_required matcher_unsupported bad_ports bad_source_ports bad_networks bad_geo_ips :
      RouteCheck
  action_required action_unsupported target_required unknown_target target_forbidden : RouteCheck
  action_unknown : RouteCheck

pub data RouteError : Type 0 where
  unsupported_kernel : RouteError
  failed : ℕ → RouteCheck → RouteError

unfoldable pub has_any_non_blank : List Text → Bool
has_any_non_blank = any (λ v. not (is_empty (trim_space v)))

unfoldable pub has_route_match : RouteMatch → Bool
unfolding has_any_non_blank
has_route_match m =
    has_any_non_blank m.domains
    || (has_any_non_blank m.domain_suffixes
        || (has_any_non_blank m.geo_ips
            || (has_any_non_blank m.ip_cidrs
                || (has_any_non_blank m.ports
                    || (has_any_non_blank m.networks
                        || (has_any_non_blank m.source_cidrs
                            || has_any_non_blank m.source_ports))))))

abbrev pub matcher_ok : List Text → Text → List Text → Bool
matcher_ok support name values = not (has_any_non_blank values) || mem_text name support

unfoldable pub ensure_route_matcher_supported : List Text → RouteMatch → Bool
ensure_route_matcher_supported support m =
    matcher_ok support (codes "domains") m.domains
    && (matcher_ok support (codes "domain_suffixes") m.domain_suffixes
        && (matcher_ok support (codes "geo_ips") m.geo_ips
            && (matcher_ok support (codes "ip_cidrs") m.ip_cidrs
                && (matcher_ok support (codes "ports") m.ports
                    && (matcher_ok support (codes "networks") m.networks
                        && (matcher_ok support (codes "source_cidrs") m.source_cidrs
                            && matcher_ok support (codes "source_ports") m.source_ports))))))

-- An early return of an error.
abbrev pub check {ℓ} : {E : Type ℓ} → Bool → E → Option E → Option E
check true e rest = rest
check false e rest = some e

-- The tags that a route may name; nil is no restriction.
abbrev pub knows_tag : Option (List Text) → Text → Bool
knows_tag none tag = true
knows_tag (some tags) tag = mem_text tag tags

-- The `switch` over the action.
unfoldable pub check_target : Text → Text → Option (List Text) → Option RouteCheck
check_target action target tags =
    if action == codes "route"
    then check (not (is_empty target)) target_required
        (check (knows_tag tags (to_lower target)) unknown_target none)
    else if action == codes "direct" || action == codes "block"
    then check (is_empty target) target_forbidden none
    else some action_unknown

-- `support` is that of the kernel, if one is named.
abbrev pub supports_matchers : Option KernelRouteSupport → RouteMatch → Bool
supports_matchers none m = true
supports_matchers (some s) m = ensure_route_matcher_supported s.matchers m

abbrev pub supports_action : Option KernelRouteSupport → Text → Bool
supports_action none a = true
supports_action (some s) a = mem_text a s.actions

unfoldable pub check_rule :
    Option KernelRouteSupport → Option (List Text) → CustomRouteRule → Option RouteCheck
unfolding check_target
check_rule support tags rule = check (has_route_match rule.match) match_required (
    check (supports_matchers support rule.match) matcher_unsupported (
      check (validate_port_specs rule.match.ports) bad_ports (
        check (validate_port_specs rule.match.source_ports) bad_source_ports (
          check (validate_networks rule.match.networks) bad_networks (
            check (validate_geo_ip_categories rule.match.geo_ips) bad_geo_ips (
              check (not (is_empty (normal rule.action.type))) action_required (
                check (supports_action support (normal rule.action.type)) action_unsupported (
                  check_target (normal rule.action.type) (trim_space rule.action.target)
                    tags))))))))

abbrev pub at_rule : ℕ → Option RouteCheck → Option RouteError → Option RouteError
at_rule i none rest = rest
at_rule i (some c) rest = some (failed i c)

unfoldable pub check_rules :
    Option KernelRouteSupport → Option (List Text) → ℕ → List CustomRouteRule → Option RouteError
check_rules support tags i [] = none
check_rules support tags i (rule ∷ rules) =
    let rest = check_rules support tags (suc i) rules in
    if rule.disabled then rest else at_rule i (check_rule support tags rule) rest

abbrev pub kernel_support : Text → Option (Option KernelRouteSupport)
kernel_support [] = some none
kernel_support (c ∷ kernel) = elim (route_support_matrix (c ∷ kernel)) [
  | none ↦ none
  | some s ↦ some (some s)
]

unfoldable pub validate_custom_route_rules :
    List CustomRouteRule → Text → Option (List Text) → Option RouteError
validate_custom_route_rules [] kernel tags = none
validate_custom_route_rules (rule ∷ rules) kernel tags = elim (kernel_support (normal kernel)) [
  | none ↦ some unsupported_kernel
  | some support ↦ check_rules support tags 0 (rule ∷ rules)
]

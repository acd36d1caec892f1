-- ===== src/Model/Accepted.antt =====
-- What a configuration that passes the checks of internal/model is known to satisfy.
use cpanelde.Prelude.{
  ℕ, suc, ◌≤◌, ◌≡◌, refl, Bool, true, false, not, ◌||◌, ◌&&◌, List, [], ◌∷◌, arith, all, map, Text,
  Option, none, some, ◌==◌, nat_eq, text_eq, codes, trim_space, to_lower, is_empty, Bool-cases,
  Option-cases, ==_comm, inl, inr,
}
use cpanelde.Prelude.Int.{ℤ, pos, negsuc}
use cpanelde.Model.Types.{Value, OutboundConfig, CustomRouteRule}
use cpanelde.Model.Ports.{as_port, port_of_int, atoi}
use cpanelde.Model.Support.{
  mem_text, normal, validate_transport_kernel, resolve_kernel_for_transport, KernelRouteSupport,
}
use cpanelde.Model.Routes.{
  RouteCheck, RouteError, at_rule, check_target, check_rule, check_rules, knows_tag,
  has_route_match, kernel_support, validate_custom_route_rules,
}
use cpanelde.Model.Outbounds.{
  OutboundError, check_outbound, check_outbounds, check_proxy, check_proxies,
  build_available_outbound_tags, kernel_protocols, validate_custom_outbounds_for_kernel,
  OutboundCheck, at_outbound, then_check, then_error, validate_outbound_settings,
}

port_of_int-bounds : (z : ℤ) {p : ℕ} → port_of_int z ≡ some p → (1 ≤ p) × (p ≤ 65535)
port_of_int-bounds (pos n) e = ground arith
port_of_int-bounds (negsuc n) e = cc

-- Whatever the type of a port setting, a port that `asPort` accepts is from 1 to 65535.
pub as_port-bounds : (v : Value) {p : ℕ} → as_port v ≡ some p → (1 ≤ p) × (p ≤ 65535)
unfolding as_port
as_port-bounds (Value.int n) e = port_of_int-bounds n e
as_port-bounds (Value.int32 n) e = port_of_int-bounds n e
as_port-bounds (Value.int64 n) e = port_of_int-bounds n e
as_port-bounds (Value.float n true printed) e = port_of_int-bounds n e
as_port-bounds (Value.float n false printed) e = cc
as_port-bounds (Value.text s) e = elim (Option-cases (atoi (trim_space s))) [
  | inl h ↦ absurd (ground arith)
  | inr (n, h) ↦ port_of_int-bounds n (ground arith)
]
as_port-bounds (Value.bool b) e = cc
as_port-bounds (Value.other printed) e = cc

-- The kernel that `ResolveKernelForTransport` picks can always carry the transport, and resolving
-- again changes nothing.
pub resolve_kernel_for_transport_lem :
    (network kernel : Text)
    → (validate_transport_kernel network (resolve_kernel_for_transport network kernel) ≡ true)
      × (resolve_kernel_for_transport network (resolve_kernel_for_transport network kernel)
          ≡ resolve_kernel_for_transport network kernel)
unfolding validate_transport_kernel resolve_kernel_for_transport
resolve_kernel_for_transport_lem network kernel = ground arith

-- A rule that a kernel can act on: it matches something, and it either routes to a tag that is
-- known or sends traffic to one of the two built-in outbounds, without a target.
abbrev pub is_actionable : Option (List Text) → CustomRouteRule → Bool
is_actionable tags r =
    has_route_match r.match
    && ((normal r.action.type == codes "route"
          && (not (is_empty (trim_space r.action.target))
              && knows_tag tags (to_lower (trim_space r.action.target))))
        || ((normal r.action.type == codes "direct" || normal r.action.type == codes "block")
            && is_empty (trim_space r.action.target)))

check_target-actionable :
    (action target : Text) (tags : Option (List Text))
    → check_target action target tags ≡ none
    → ((action == codes "route" && (not (is_empty target) && knows_tag tags (to_lower target)))
        || ((action == codes "direct" || action == codes "block") && is_empty target))
      ≡ true
unfolding check_target
check_target-actionable action target tags h = ground arith

check_rule-actionable :
    (support : Option KernelRouteSupport) (tags : Option (List Text)) (r : CustomRouteRule)
    → check_rule support tags r ≡ none
    → is_actionable tags r ≡ true
unfolding check_rule
check_rule-actionable support tags r h =
    ground (arith, check_target-actionable (normal r.action.type) (trim_space r.action.target) tags)

at_rule-none :
    (i : ℕ) (o : Option RouteCheck) {rest : Option RouteError}
    → at_rule i o rest ≡ none
    → (o ≡ none) × (rest ≡ none)
at_rule-none i none h = (refl, h)
at_rule-none i (some c) h = absurd (ground arith)

check_rules-actionable :
    (support : Option KernelRouteSupport) (tags : Option (List Text)) (i : ℕ)
    (rules : List CustomRouteRule)
    → check_rules support tags i rules ≡ none
    → all (λ r. r.disabled || is_actionable tags r) rules ≡ true
unfolding check_rules check_rule
check_rules-actionable support tags i [] h = refl
check_rules-actionable support tags i (r ∷ rules) h = elim (Bool-cases r.disabled) [
  | inl off ↦ rw off (check_rules-actionable support tags (suc i) rules (rw off at h))
  | inr on ↦
      let (now, later) = at_rule-none i (check_rule support tags r) (rw on at h) in
      rw (on, check_rule-actionable support tags r now)
        (check_rules-actionable support tags (suc i) rules later)
]

-- If `ValidateCustomRouteRules` reports no error, every rule that is not disabled matches
-- something and has an action that can be carried out: to a known tag, or to a built-in outbound.
pub validate_custom_route_rules-actionable :
    (rules : List CustomRouteRule) (kernel : Text) (tags : Option (List Text))
    → validate_custom_route_rules rules kernel tags ≡ none
    → all (λ r. r.disabled || is_actionable tags r) rules ≡ true
unfolding validate_custom_route_rules
validate_custom_route_rules-actionable [] kernel tags h = refl
validate_custom_route_rules-actionable (r ∷ rules) kernel tags h =
    elim (Option-cases (kernel_support (normal kernel))) [
      | inl e ↦ absurd (ground arith)
      | inr (support, e) ↦
          check_rules-actionable support tags 0 (r ∷ rules)
            (rw (e, validate_custom_route_rules) at h)
    ]

-- No two texts of a list are the same.
abbrev pub all_distinct : List Text → Bool
all_distinct [] = true
all_distinct (t ∷ ts) = not (mem_text t ts) && all_distinct ts

-- None of the texts is in a list.
abbrev none_in : List Text → List Text → Bool
none_in seen ts = all (λ t. not (mem_text t seen)) ts

none_in-cons :
    (t : Text) (seen ts : List Text)
    → none_in (t ∷ seen) ts ≡ true
    → (mem_text t ts ≡ false) × (none_in seen ts ≡ true)
none_in-cons t seen [] h = (refl, refl)
none_in-cons t seen (u ∷ ts) h = ground (arith, none_in-cons t seen ts, ==_comm t u)

at_outbound-none :
    (i : ℕ) (o : Option OutboundCheck) {rest : Option OutboundError}
    → at_outbound i o rest ≡ none
    → (o ≡ none) × (rest ≡ none)
at_outbound-none i none h = (refl, h)
at_outbound-none i (some c) h = absurd (ground arith)

then_check-none :
    (o : Option OutboundCheck) {rest : Option OutboundCheck}
    → then_check o rest ≡ none
    → rest ≡ none
then_check-none none h = h
then_check-none (some c) h = absurd (ground arith)

check_outbound-fresh :
    (protocols : Option (List Text)) (seen : List Text) (o : OutboundConfig)
    → check_outbound protocols seen o ≡ none
    → mem_text (normal o.tag) seen ≡ false
unfolding check_outbound
check_outbound-fresh protocols seen o h =
    ground (arith, then_check-none (validate_outbound_settings o.settings))

abbrev pub normal_outbound_tags : List OutboundConfig → List Text
normal_outbound_tags = map (λ o. normal o.tag)

check_outbounds-distinct :
    (protocols : Option (List Text)) (seen : List Text) (i : ℕ) (os : List OutboundConfig)
    → check_outbounds protocols seen i os ≡ none
    → (none_in seen (normal_outbound_tags os) ≡ true)
      × (all_distinct (normal_outbound_tags os) ≡ true)
unfolding check_outbounds check_outbound
check_outbounds-distinct protocols seen i [] h = (refl, refl)
check_outbounds-distinct protocols seen i (o ∷ os) h =
    let (now, later) = at_outbound-none i (check_outbound protocols seen o) h in
    let (absent, distinct) =
      check_outbounds-distinct protocols (normal o.tag ∷ seen) (suc i) os later in
    let (once, rest) = none_in-cons (normal o.tag) seen _ absent in
    (rw (check_outbound-fresh protocols seen o now) rest, rw once distinct)

-- A chain of outbounds that can be dialled: the outbound names no proxy, or another outbound that
-- is there.
abbrev pub is_dialable : List Text → OutboundConfig → Bool
is_dialable tags o =
    is_empty o.proxy_tag
    || (not (normal o.proxy_tag == normal o.tag) && mem_text (normal o.proxy_tag) tags)

check_proxies-dialable :
    (tags : List Text) (i : ℕ) (os : List OutboundConfig)
    → check_proxies tags i os ≡ none
    → all (is_dialable tags) os ≡ true
unfolding check_proxies check_proxy
check_proxies-dialable tags i [] h = refl
check_proxies-dialable tags i (o ∷ os) h =
    let (now, later) = at_outbound-none i (check_proxy tags o) h in
    let rest = check_proxies-dialable tags (suc i) os later in ground (arith, now, rest)

then_error-none : (a b : Option OutboundError) → then_error a b ≡ none → (a ≡ none) × (b ≡ none)
then_error-none none b h = (refl, h)
then_error-none (some c) b h = absurd (ground arith)

-- If `ValidateCustomOutboundsForKernel` reports no error, the tags of the outbounds differ from
-- one another, whatever their case, and every proxy tag names an outbound that is there and is
-- not the outbound itself.
pub validate_custom_outbounds_for_kernel-distinct :
    (outbounds : List OutboundConfig) (kernel : Text) (additional : List Text)
    → validate_custom_outbounds_for_kernel outbounds kernel additional ≡ none
    → (all_distinct (normal_outbound_tags outbounds) ≡ true)
      × (all (is_dialable (build_available_outbound_tags outbounds additional)) outbounds ≡ true)
unfolding validate_custom_outbounds_for_kernel
validate_custom_outbounds_for_kernel-distinct [] kernel additional h = (refl, refl)
validate_custom_outbounds_for_kernel-distinct (o ∷ os) kernel additional h =
    elim (Option-cases (kernel_protocols (normal kernel))) [
      | inl e ↦ absurd (ground arith)
      | inr (protocols, e) ↦
          let (first, second) =
            then_error-none (check_outbounds protocols [] 0 (o ∷ os)) _
              (rw (e, validate_custom_outbounds_for_kernel) at h) in
          (
            (check_outbounds-distinct protocols [] 0 (o ∷ os) first).1,
            check_proxies-dialable _ 0 (o ∷ os) second,
          )
    ]

-- ===== src/Tests/Config.antt =====
-- The checks of internal/model on a small configuration.
use cpanelde.Prelude.{
  ◌≡◌, refl, true, false, List, [], ◌∷◌, all, Text, codes, nat_eq, text_eq, lookup, to_lower,
  trim_space,
}
use cpanelde.Prelude.Int.{pos}
use cpanelde.Model.Types.{Value, OutboundConfig, CustomRouteRule}
use cpanelde.Model.Ports.{as_port}
use cpanelde.Model.Support.{outbound_support_matrix}
use cpanelde.Model.Outbounds.{
  validate_custom_outbounds_for_kernel, check_outbounds, check_outbound, check_proxies, check_proxy,
  validate_outbound_settings, build_available_outbound_tags,
}
use cpanelde.Model.Accepted.{
  all_distinct, normal_outbound_tags, is_dialable, validate_custom_outbounds_for_kernel-distinct,
}

abbrev rule : CustomRouteRule
rule = record {
  name = codes "r";
  disabled = false;
  match = record {
    domains = [];
    domain_suffixes = codes "example.org" ∷ [];
    geo_ips = [];
    ip_cidrs = [];
    ports = codes "80" ∷ codes "1000-2000" ∷ [];
    networks = codes "TCP" ∷ [];
    source_cidrs = [];
    source_ports = [];
  };
  action = record { type = codes "Route"; target = codes "Exit" };
}

abbrev exit_tags : List Text
exit_tags = codes "direct" ∷ codes "exit" ∷ []

abbrev hop : OutboundConfig
hop = record {
  tag = codes "Hop";
  protocol = codes "socks";
  settings =
      (codes "server", Value.text (codes "h.example.org"))
      ∷ (codes "server_port", Value.int (pos 1080))
      ∷ [];
  proxy_tag = [];
}

abbrev exit : OutboundConfig
exit = record hop { tag = codes "exit"; proxy_tag = codes "hop" }

validate_custom_outbounds_for_kernel-distinct_example :
    (all_distinct (normal_outbound_tags (hop ∷ exit ∷ [])) ≡ true)
    × (all (is_dialable (build_available_outbound_tags (hop ∷ exit ∷ []) [])) (hop ∷ exit ∷ [])
        ≡ true)
unfolding validate_custom_outbounds_for_kernel check_outbounds check_outbound check_proxies
    check_proxy validate_outbound_settings build_available_outbound_tags outbound_support_matrix
    as_port lookup to_lower trim_space
validate_custom_outbounds_for_kernel-distinct_example =
    validate_custom_outbounds_for_kernel-distinct (hop ∷ exit ∷ []) (codes "singbox") [] refl

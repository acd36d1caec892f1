-- ===== src/Model/Support.antt =====
-- What each kernel supports: internal/model/custom_route_support.go, custom_outbound_support.go, and
-- the kernel names and transports of validate.go. Sets of texts are lists.
use cpanelde.Prelude.{
  Bool, not, ◌||◌, ◌&&◌, List, [], ◌∷◌, any, map, if◌then◌else◌, Text, Option, none, some, ◌==◌,
  text_eq, codes, trim_space, to_lower,
}

abbrev pub mem_text : Text → List Text → Bool
mem_text a = any (λ b. a == b)

-- strings.ToLower(strings.TrimSpace(s))
abbrev pub normal : Text → Text
normal s = to_lower (trim_space s)

pub record KernelRouteSupport : Type 0 where
  pub matchers : List Text
  pub actions : List Text

abbrev pub common_matchers : List Text
common_matchers = map codes (
    "domains" ∷ "domain_suffixes" ∷ "ip_cidrs" ∷ "ports" ∷ "networks" ∷ "source_cidrs"
    ∷ "source_ports" ∷ [])

abbrev pub route_actions : List Text
route_actions = map codes ("block" ∷ "direct" ∷ "route" ∷ [])

unfoldable pub route_support_matrix : Text → Option KernelRouteSupport
route_support_matrix kernel =
    if kernel == codes "xray"
    then some (record { matchers = codes "geo_ips" ∷ common_matchers; actions = route_actions })
    else if kernel == codes "singbox"
    then some (record { matchers = common_matchers; actions = route_actions })
    else none

abbrev pub common_protocols : List Text
common_protocols =
    map codes ("vmess" ∷ "vless" ∷ "trojan" ∷ "shadowsocks" ∷ "socks" ∷ "http" ∷ "wireguard" ∷ [])

abbrev pub singbox_protocols : List Text
singbox_protocols = map codes (
    "vmess" ∷ "vless" ∷ "trojan" ∷ "shadowsocks" ∷ "socks" ∷ "http" ∷ "wireguard" ∷ "tuic"
    ∷ "hysteria2" ∷ "anytls" ∷ "naive" ∷ "mieru" ∷ [])

-- The protocols of a kernel's outbounds.
unfoldable pub outbound_support_matrix : Text → Option (List Text)
outbound_support_matrix kernel =
    if kernel == codes "xray"
    then some common_protocols
    else if kernel == codes "singbox"
    then some singbox_protocols
    else none

-- `none` is an unsupported kernel type.
unfoldable pub normalize_kernel_type : Text → Option Text
normalize_kernel_type value =
    let kernel = normal value in
    if kernel == codes "singbox" || kernel == codes "sing-box"
    then some (codes "singbox")
    else if kernel == codes "xray"
    then some (codes "xray")
    else none

unfoldable pub is_singbox_unsupported : Text → Bool
is_singbox_unsupported net = net == codes "xhttp" || net == codes "splithttp"

-- Whether the kernel can carry the transport.
unfoldable pub validate_transport_kernel : Text → Text → Bool
unfolding is_singbox_unsupported
validate_transport_kernel network kernel =
    not (kernel == codes "singbox" && is_singbox_unsupported (normal network))

unfoldable pub resolve_kernel_for_transport : Text → Text → Text
unfolding is_singbox_unsupported
resolve_kernel_for_transport network kernel =
    if kernel == codes "singbox" && is_singbox_unsupported (normal network)
    then codes "xray"
    else kernel

-- ===== src/Model/Types.antt =====
-- internal/model/types.go and custom_route.go, and `CertConfig` of internal/config/config.go. Of it
-- and of `NodeSpec` the fields that the modelled code reads are kept. User and node ids are natural
-- numbers.
use cpanelde.Prelude.{ℕ, Bool, List, Text, Option, Map}
use cpanelde.Prelude.Int.{ℤ}

pub record UserSpec : Type 0 where
  pub id : ℕ
  pub uuid : Text
  pub speed_limit : ℤ
  pub device_limit : ℤ
  pub route_scope : Text

-- A value of a decoded JSON or YAML document. A float64 is given by its truncation to an integer
-- and by whether it is whole; `other` stands for maps, lists and null, with what `%v` prints.
pub data Value : Type 0 where
  int : ℤ → Value
  int32 : ℤ → Value
  int64 : ℤ → Value
  float : ℤ → Bool → Text → Value
  text : Text → Value
  bool : Bool → Value
  other : Text → Value

pub record OutboundConfig : Type 0 where
  pub tag : Text
  pub protocol : Text
  pub settings : Map Text Value
  pub proxy_tag : Text

pub record RouteMatch : Type 0 where
  pub domains : List Text
  pub domain_suffixes : List Text
  pub geo_ips : List Text
  pub ip_cidrs : List Text
  pub ports : List Text
  pub networks : List Text
  pub source_cidrs : List Text
  pub source_ports : List Text

pub record RouteAction : Type 0 where
  pub type : Text
  pub target : Text

pub record CustomRouteRule : Type 0 where
  pub name : Text
  pub disabled : Bool
  pub match : RouteMatch
  pub action : RouteAction

pub record RouteProfile : Type 0 where
  pub custom_route_rules : List CustomRouteRule
  pub default_outbound_tag : Text
  pub custom_outbounds : List OutboundConfig

pub record CertConfig : Type 0 where
  pub cert_mode : Text
  pub domain : Text
  pub cert_file : Text
  pub key_file : Text
  pub cert_content : Text
  pub key_content : Text
  pub dns_provider : Text

pub record NodeSpec : Type 0 where
  pub protocol : Text
  pub network : Text
  pub kernel_type : Text
  pub custom_outbounds : List OutboundConfig
  pub custom_route_rules : List CustomRouteRule
  pub route_profiles : Map Text RouteProfile
  pub default_outbound_tag : Text
  pub transport : Text
  pub cert_config : Option CertConfig
  pub tls : ℕ
  pub tls_settings : Option (Map Text Value)

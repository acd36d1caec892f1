-- ===== src/Service/Runtime.antt =====
-- internal/service/service.go: the checks of a configuration before it is applied. The providers of
-- DNS challenges are those of a library, given by a test; `has_cert` is whether a certificate and a
-- key are loaded already.
pub mod Needs
pub mod Runnable
use cpanelde.Prelude.{
  ◌≡◌, ◌↔◌, refl, Bool, true, false, not, ◌||◌, ◌&&◌, List, [], ◌∷◌, arith, map, if◌then◌else◌,
  Text, Option, none, some, ◌==◌, nat_eq, text_eq, codes, trim_space, is_empty, Map, lookup,
}
use cpanelde.Model.Types.{Value, int, int32, int64, float, text, bool, other, CertConfig, NodeSpec}
use cpanelde.Model.Support.{normal, mem_text}

pub data RuntimeError : Type 0 where
  unsupported_protocol : RuntimeError
  needs_certificate : RuntimeError
  no_tls_settings : RuntimeError
  no_private_key : RuntimeError
  no_server_name : RuntimeError
  no_dns_provider : RuntimeError
  unknown_dns_provider : RuntimeError

abbrev pub is_blank : Text → Bool
is_blank t = is_empty (trim_space t)

abbrev pub string_value : Option Value → Text
string_value none = []
string_value (some (int z)) = []
string_value (some (int32 z)) = []
string_value (some (int64 z)) = []
string_value (some (float z whole shown)) = []
string_value (some (text t)) = t
string_value (some (bool b)) = []
string_value (some (other shown)) = []

-- The certificate that the configuration brings, by its mode.
unfoldable pub brings_certificate : CertConfig → Bool
brings_certificate c =
    let mode = normal c.cert_mode in
    if mode == codes "self"
    then true
    else if mode == codes "content"
    then not (is_blank c.cert_content) && not (is_blank c.key_content)
    else if mode == codes "file"
    then not (is_blank c.cert_file) && not (is_blank c.key_file)
    else if mode == codes "http"
    then not (is_blank c.domain)
    else (mode == codes "dns") && (not (is_blank c.domain) && not (is_blank c.dns_provider))

abbrev pub brings : Option CertConfig → Bool
brings none = false
brings (some c) = brings_certificate c

unfoldable pub has_usable_tls_config : NodeSpec → Bool → Bool
unfolding brings_certificate
has_usable_tls_config spec has_cert = has_cert || brings spec.cert_config

abbrev pub always_tls : List Text
always_tls = map codes ("hysteria" ∷ "hysteria2" ∷ "tuic" ∷ "anytls" ∷ [])

unfoldable pub needs_cert : NodeSpec → Bool
needs_cert spec =
    mem_text spec.protocol always_tls || ((spec.protocol == codes "trojan") && not (spec.tls == 2))

abbrev pub check_reality : Option (Map Text Value) → Option RuntimeError
check_reality none = some no_tls_settings
check_reality (some settings) =
    if is_blank (string_value (lookup (codes "private_key") settings))
    then some no_private_key
    else if is_blank (string_value (lookup (codes "server_name") settings))
        && is_blank (string_value (lookup (codes "dest") settings))
    then some no_server_name
    else none

unfoldable pub validate_reality_requirements : NodeSpec → Option RuntimeError
validate_reality_requirements spec = check_reality spec.tls_settings

unfoldable pub validate_tls_requirements : NodeSpec → Bool → Option RuntimeError
unfolding has_usable_tls_config needs_cert validate_reality_requirements
validate_tls_requirements spec has_cert =
    if needs_cert spec && not (has_usable_tls_config spec has_cert)
    then some needs_certificate
    else if spec.tls == 2
    then validate_reality_requirements spec
    else none

abbrev pub check_dns : (Text → Bool) → Option CertConfig → Option RuntimeError
check_dns is_provider none = none
check_dns is_provider (some c) =
    if not (normal c.cert_mode == codes "dns")
    then none
    else if is_blank c.dns_provider
    then some no_dns_provider
    else if is_provider (trim_space c.dns_provider)
    then none
    else some unknown_dns_provider

unfoldable pub validate_runtime_cert_config : (Text → Bool) → NodeSpec → Option RuntimeError
validate_runtime_cert_config is_provider spec = check_dns is_provider spec.cert_config

abbrev pub first_error : Option RuntimeError → Option RuntimeError → Option RuntimeError
first_error none e = e
first_error (some a) e = some a

unfoldable pub validate_node_runtime :
    (Text → Bool) → List Text → Bool → NodeSpec → Option RuntimeError
unfolding validate_tls_requirements validate_runtime_cert_config
validate_node_runtime is_provider supported has_cert spec =
    if not (mem_text spec.protocol supported)
    then some unsupported_protocol
    else first_error (validate_tls_requirements spec has_cert)
        (validate_runtime_cert_config is_provider spec)

-- Whether the settings of REALITY have its key and a name.
abbrev pub has_reality : Option (Map Text Value) → Bool
has_reality none = false
has_reality (some settings) =
    not (is_blank (string_value (lookup (codes "private_key") settings)))
    && (not (is_blank (string_value (lookup (codes "server_name") settings)))
        || not (is_blank (string_value (lookup (codes "dest") settings))))

abbrev pub asks_challenge : Option CertConfig → Bool
asks_challenge none = false
asks_challenge (some c) = normal c.cert_mode == codes "dns"

abbrev pub knows_provider : (Text → Bool) → Option CertConfig → Bool
knows_provider is_provider none = false
knows_provider is_provider (some c) =
    not (is_blank c.dns_provider) && is_provider (trim_space c.dns_provider)

-- The tests that a configuration passes.
pub record Passes (is_provider : Text → Bool) (supported : List Text) (has_cert : Bool)
    (spec : NodeSpec) : Type 0 where
  pub protocol : mem_text spec.protocol supported ≡ true
  pub certificate : needs_cert spec ≡ true → (has_cert || brings spec.cert_config) ≡ true
  pub reality : (spec.tls == 2) ≡ true → has_reality spec.tls_settings ≡ true
  pub challenge :
      asks_challenge spec.cert_config ≡ true → knows_provider is_provider spec.cert_config ≡ true

reality_lem : (o : Option (Map Text Value)) → (check_reality o ≡ none) ↔ (has_reality o ≡ true)
reality_lem none = (λ h. cc, λ h. cc)
reality_lem (some settings) = ground arith

challenge_lem :
    (is_provider : Text → Bool) (o : Option CertConfig)
    → (check_dns is_provider o ≡ none)
      ↔ ((not (asks_challenge o) || knows_provider is_provider o) ≡ true)
challenge_lem is_provider none = (λ h. refl, λ h. refl)
challenge_lem is_provider (some c) = ground arith

first_error_lem : (a b : Option RuntimeError) → (first_error a b ≡ none) ↔ ((a ≡ none) × (b ≡ none))
first_error_lem none b = (λ h. (refl, h), λ h. h.1)
first_error_lem (some e) b = (λ h. cc, λ h. cc h.0)

tls_lem :
    (spec : NodeSpec) (has_cert : Bool)
    → (validate_tls_requirements spec has_cert ≡ none) ↔ (
        (needs_cert spec ≡ true → (has_cert || brings spec.cert_config) ≡ true)
        × ((spec.tls == 2) ≡ true → has_reality spec.tls_settings ≡ true))
unfolding validate_tls_requirements has_usable_tls_config validate_reality_requirements
tls_lem spec has_cert = ground (arith, reality_lem spec.tls_settings)

guard_lem :
    (b : Bool) (e : Option RuntimeError)
    → ((if not b then some unsupported_protocol else e) ≡ none) ↔ ((b ≡ true) × (e ≡ none))
guard_lem true e = (λ h. (refl, h), λ h. h.1)
guard_lem false e = (λ h. cc, λ h. cc h.0)

pub validate_node_runtime-Passes :
    (is_provider : Text → Bool) (supported : List Text) (has_cert : Bool) (spec : NodeSpec)
    → (validate_node_runtime is_provider supported has_cert spec ≡ none)
      ↔ Passes is_provider supported has_cert spec
unfolding validate_node_runtime validate_runtime_cert_config
validate_node_runtime-Passes is_provider supported has_cert spec =
    let guard =
      guard_lem (mem_text spec.protocol supported)
        (first_error tls (check_dns is_provider spec.cert_config)) in
    let both = first_error_lem tls (check_dns is_provider spec.cert_config) in
    let secure = tls_lem spec has_cert in
    let known = challenge_lem is_provider spec.cert_config in
    (
      λ h.
          let (t, d) = both.0 (guard.0 h).1 in
          record {
            protocol = (guard.0 h).0;
            certificate = (secure.0 t).0;
            reality = (secure.0 t).1;
            challenge = λ asks. ground (arith, known.0 d, asks);
          },
      λ r.
          let d : check_dns is_provider spec.cert_config ≡ none =
            known.1 (ground (arith, r.challenge)) in
          guard.1 (r.protocol, both.1 (secure.1 (r.certificate, r.reality), d)),
    )
  where
    tls : Option RuntimeError
    tls = validate_tls_requirements spec has_cert

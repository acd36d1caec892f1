-- ===== src/Model/Outbounds.antt =====
-- internal/model/custom_outbound_validate.go, and the tag collisions of custom_config_tags.go. An
-- error carries the place of the outbound and the check that failed; `none` is success.
use cpanelde.Prelude.{
  ℕ, suc, Bool, true, false, not, ◌||◌, ◌&&◌, List, [], ◌∷◌, ◌++◌, any, all, map, if◌then◌else◌,
  Text, Option, none, some, ◌==◌, text_eq, codes, trim_space, is_empty, Map, lookup, has_key,
  is_some,
}
use cpanelde.Model.Types.{Value, OutboundConfig}
use cpanelde.Model.Ports.{as_port}
use cpanelde.Model.Support.{mem_text, normal, outbound_support_matrix}
use cpanelde.Model.Routes.{check}

pub data OutboundCheck : Type 0 where
  tag_required protocol_required protocol_unsupported settings_required reserved_key blank_field :
      OutboundCheck
  bad_server_port duplicate_tag proxy_blank proxy_self proxy_unknown : OutboundCheck

pub data OutboundError : Type 0 where
  unsupported_kernel : OutboundError
  failed : ℕ → OutboundCheck → OutboundError

-- fmt.Sprintf("%v", value). Only whether it is blank matters; numbers and booleans never are.
abbrev pub printed_blank : Value → Bool
printed_blank (Value.text s) = is_empty (trim_space s)
printed_blank (Value.other printed) = is_empty (trim_space printed)
printed_blank _ = false

abbrev pub reserved_keys : List Text
reserved_keys = map codes ("tag" ∷ "protocol" ∷ "proxy_tag" ∷ "proxyTag" ∷ [])

abbrev pub secret_fields : List Text
secret_fields = map codes (
    "server" ∷ "uuid" ∷ "password" ∷ "method" ∷ "cipher" ∷ "private_key" ∷ "secret_key"
    ∷ "privateKey" ∷ "secretKey" ∷ [])

abbrev pub is_nil {ℓ} : {A : Type ℓ} → List A → Bool
is_nil [] = true
is_nil (x ∷ xs) = false

abbrev pub blank_setting : Option Value → Bool
blank_setting none = false
blank_setting (some v) = printed_blank v

abbrev pub port_setting : Option Value → Bool
port_setting none = true
port_setting (some v) = is_some (as_port v)

unfoldable pub validate_outbound_settings : Map Text Value → Option OutboundCheck
validate_outbound_settings settings = check (not (is_nil settings)) settings_required (
    check (not (any (λ k. has_key k settings) reserved_keys)) reserved_key (
      check (not (any (λ k. blank_setting (lookup k settings)) secret_fields)) blank_field (
        check
          (port_setting (lookup (codes "server_port") settings)
            && port_setting (lookup (codes "serverPort") settings))
          bad_server_port none)))

abbrev pub then_check : Option OutboundCheck → Option OutboundCheck → Option OutboundCheck
then_check none rest = rest
then_check (some c) rest = some c

abbrev pub allows : Option (List Text) → Text → Bool
allows none protocol = true
allows (some protocols) protocol = mem_text protocol protocols

-- One round of the first loop; `seen` holds the tags of the earlier outbounds.
unfoldable pub check_outbound :
    Option (List Text) → List Text → OutboundConfig → Option OutboundCheck
check_outbound protocols seen o = check (not (is_empty (trim_space o.tag))) tag_required (
    check (not (is_empty (normal o.protocol))) protocol_required (
      check (allows protocols (normal o.protocol)) protocol_unsupported (
        then_check (validate_outbound_settings o.settings)
          (check (not (mem_text (normal o.tag) seen)) duplicate_tag none))))

abbrev pub at_outbound : ℕ → Option OutboundCheck → Option OutboundError → Option OutboundError
at_outbound i none rest = rest
at_outbound i (some c) rest = some (failed i c)

unfoldable pub check_outbounds :
    Option (List Text) → List Text → ℕ → List OutboundConfig → Option OutboundError
unfolding check_outbound
check_outbounds protocols seen i [] = none
check_outbounds protocols seen i (o ∷ os) =
    let rest = check_outbounds protocols (normal o.tag ∷ seen) (suc i) os in
    at_outbound i (check_outbound protocols seen o) rest

-- The non-blank tags of a list, in lower case.
abbrev pub normal_tags : List Text → List Text
normal_tags [] = []
normal_tags (t ∷ ts) = if is_empty (normal t) then normal_tags ts else normal t ∷ normal_tags ts

abbrev pub outbound_tags : List OutboundConfig → List Text
outbound_tags = map (λ o. o.tag)

unfoldable pub build_available_outbound_tags : List OutboundConfig → List Text → List Text
build_available_outbound_tags outbounds raw =
    codes "direct" ∷ codes "block" ∷ (normal_tags (outbound_tags outbounds) ++ normal_tags raw)

-- One round of the second loop.
unfoldable pub check_proxy : List Text → OutboundConfig → Option OutboundCheck
check_proxy tags o =
    if is_empty o.proxy_tag
    then none
    else check (not (is_empty (normal o.proxy_tag))) proxy_blank (
        check (not (normal o.proxy_tag == normal o.tag)) proxy_self
          (check (mem_text (normal o.proxy_tag) tags) proxy_unknown none))

unfoldable pub check_proxies : List Text → ℕ → List OutboundConfig → Option OutboundError
unfolding check_proxy
check_proxies tags i [] = none
check_proxies tags i (o ∷ os) =
    let rest = check_proxies tags (suc i) os in at_outbound i (check_proxy tags o) rest

abbrev pub kernel_protocols : Text → Option (Option (List Text))
kernel_protocols [] = some none
kernel_protocols (c ∷ kernel) = elim (outbound_support_matrix (c ∷ kernel)) [
  | none ↦ none
  | some ps ↦ some (some ps)
]

abbrev pub then_error : Option OutboundError → Option OutboundError → Option OutboundError
then_error none rest = rest
then_error (some e) rest = some e

unfoldable pub validate_custom_outbounds_for_kernel :
    List OutboundConfig → Text → List Text → Option OutboundError
validate_custom_outbounds_for_kernel [] kernel additional = none
validate_custom_outbounds_for_kernel (o ∷ os) kernel additional =
    elim (kernel_protocols (normal kernel)) [
      | none ↦ some unsupported_kernel
      | some protocols ↦
          then_error (check_outbounds protocols [] 0 (o ∷ os))
            (check_proxies (build_available_outbound_tags (o ∷ os) additional) 0 (o ∷ os))
    ]

-- `validateOutboundTagCollisions`: whether no tag stands twice among the additional ones, nor in
-- both lists. The duplicates among the structured ones are the loop above's.
unfoldable pub additional_distinct : List Text → List Text → Bool
additional_distinct seen [] = true
additional_distinct seen (t ∷ ts) =
    let rest = additional_distinct (normal t ∷ seen) ts in
    let skipped = additional_distinct seen ts in
    if is_empty (normal t) then skipped else not (mem_text (normal t) seen) && rest

unfoldable pub validate_outbound_tag_collisions : List OutboundConfig → List Text → Bool
unfolding additional_distinct
validate_outbound_tag_collisions outbounds additional =
    additional_distinct [] additional
    && all (λ o. is_empty (normal o.tag) || not (mem_text (normal o.tag) (normal_tags additional)))
        outbounds

-- ===== src/Service/Runtime/Needs.antt =====
-- What a configuration needs to run: protocol by protocol and mode by mode.
use cpanelde.Prelude.{
  ◌≡◌, ◌≢◌, ◌⊎◌, Bool, true, List, [], ◌∷◌, Text, Option, some, nat_eq, text_eq, codes, trim_space,
  Map, lookup,
}
use cpanelde.Model.Types.{Value, text, CertConfig, NodeSpec}
use cpanelde.Model.Support.{normal}

abbrev pub NonBlank : Text → Type 0
NonBlank t = trim_space t ≢ []

-- The protocols that need a certificate.
pub data NeedsCertificate (spec : NodeSpec) : Type 0 where
  hysteria : spec.protocol ≡ codes "hysteria" → NeedsCertificate spec
  hysteria2 : spec.protocol ≡ codes "hysteria2" → NeedsCertificate spec
  tuic : spec.protocol ≡ codes "tuic" → NeedsCertificate spec
  anytls : spec.protocol ≡ codes "anytls" → NeedsCertificate spec
  trojan : spec.protocol ≡ codes "trojan" → spec.tls ≢ 2 → NeedsCertificate spec

-- The modes in which a configuration brings a certificate, with what each takes.
pub data Brings (c : CertConfig) : Type 0 where
  self_signed : normal c.cert_mode ≡ codes "self" → Brings c
  in_content :
      normal c.cert_mode ≡ codes "content"
      → NonBlank c.cert_content
      → NonBlank c.key_content
      → Brings c
  in_files :
      normal c.cert_mode ≡ codes "file" → NonBlank c.cert_file → NonBlank c.key_file → Brings c
  over_http : normal c.cert_mode ≡ codes "http" → NonBlank c.domain → Brings c
  over_dns :
      normal c.cert_mode ≡ codes "dns" → NonBlank c.domain → NonBlank c.dns_provider → Brings c

-- The certificate settings, where the configuration has any.
abbrev pub Brought : Option CertConfig → Type 0
Brought o = (c : CertConfig) × (o ≡ some c) × Brings c

-- A text that is not blank stands under the key.
pub data HasText (settings : Map Text Value) (key : Text) : Type 0 where
  has_text : {t : Text} → lookup key settings ≡ some (text t) → NonBlank t → HasText settings key

abbrev pub Named : Map Text Value → Type 0
Named settings =
    HasText settings (codes "private_key")
    × (HasText settings (codes "server_name") ⊎ HasText settings (codes "dest"))

abbrev pub HasReality : Option (Map Text Value) → Type 0
HasReality o = (settings : Map Text Value) × (o ≡ some settings) × Named settings

-- A DNS challenge, if the configuration asks for one, names a known provider.
abbrev pub Challenge : (Text → Bool) → Option CertConfig → Type 0
Challenge is_provider o =
    (c : CertConfig)
    → o ≡ some c
    → normal c.cert_mode ≡ codes "dns"
    → NonBlank c.dns_provider × (is_provider (trim_space c.dns_provider) ≡ true)

-- The text is in the list.
pub data Listed (t : Text) : List Text → Type 0 where
  first : {u : Text} {us : List Text} → t ≡ u → Listed t (u ∷ us)
  later : {u : Text} {us : List Text} → Listed t us → Listed t (u ∷ us)

-- What a configuration that may run has: a protocol that the kernel supports; a certificate, or a
-- way to get one, where the protocol needs one; the key and a name for REALITY; a known provider
-- for a DNS challenge.
pub record Runnable (is_provider : Text → Bool) (supported : List Text) (has_cert : Bool)
    (spec : NodeSpec) : Type 0 where
  pub protocol : Listed spec.protocol supported
  pub certificate : NeedsCertificate spec → (has_cert ≡ true) ⊎ Brought spec.cert_config
  pub reality : spec.tls ≡ 2 → HasReality spec.tls_settings
  pub challenge : Challenge is_provider spec.cert_config

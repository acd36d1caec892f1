-- ===== src/Service/Runtime/Runnable.antt =====
-- The checks of a configuration before it is applied, against what it needs.
use cpanelde.Prelude.{
  ◌≡◌, ◌≢◌, ◌⊎◌, ◌↔◌, refl, ap, sym, ◌∙◌, Bool, true, false, not, ◌||◌, ◌&&◌, List, [], ◌∷◌, arith,
  Text, Option, none, some, ◌==◌, nat_eq, text_eq, codes, trim_space, is_empty, Map, lookup,
  Bool-cases, inl, inr, eq_of_beq, ==_refl,
}
use cpanelde.Model.Types.{Value, int, int32, int64, float, text, bool, other, CertConfig, NodeSpec}
use cpanelde.Model.Support.{normal, mem_text}
use cpanelde.Service.Runtime.{
  is_blank, string_value, brings_certificate, brings, needs_cert, has_reality, asks_challenge,
  knows_provider, validate_node_runtime, validate_node_runtime-Passes,
}
use cpanelde.Service.Runtime.Needs.{
  NonBlank, NeedsCertificate, hysteria, hysteria2, tuic, anytls, trojan, Brings, self_signed,
  in_content, in_files, over_http, over_dns, Brought, HasText, has_text, Named, HasReality,
  Challenge, Listed, first, later, Runnable,
}

mem_text-Listed : (t : Text) (us : List Text) → mem_text t us ≡ true → Listed t us
mem_text-Listed t [] h = cc
mem_text-Listed t (u ∷ us) h = elim (Bool-cases (t == u)) [
  | inl e ↦ first (eq_of_beq t u e)
  | inr n ↦ later (mem_text-Listed t us (ground (arith, h, n)))
]

Listed-mem_text : (t : Text) (us : List Text) → Listed t us → mem_text t us ≡ true
Listed-mem_text t [] l = elim l [ ]
Listed-mem_text t (u ∷ us) (first e) = rw (e, ==_refl u) refl
Listed-mem_text t (u ∷ us) (later l) = let h = Listed-mem_text t us l in ground (arith, h)

empty_lem : (u : Text) → (is_empty u ≡ false) ↔ (u ≢ [])
empty_lem [] = (λ h. cc, λ n. absurd (n refl))
empty_lem (c ∷ s) = (λ h e. cc, λ n. refl)

filled : (t : Text) → (is_blank t ≡ false) ↔ NonBlank t
filled t = empty_lem (trim_space t)

needs_cert-NeedsCertificate : (spec : NodeSpec) → needs_cert spec ≡ true → NeedsCertificate spec
unfolding needs_cert
needs_cert-NeedsCertificate spec h = elim (Bool-cases (spec.protocol == codes "hysteria")) [
  | inl e ↦ hysteria (eq_of_beq _ _ e)
  | inr a ↦ elim (Bool-cases (spec.protocol == codes "hysteria2")) [
    | inl e ↦ hysteria2 (eq_of_beq _ _ e)
    | inr b ↦ elim (Bool-cases (spec.protocol == codes "tuic")) [
      | inl e ↦ tuic (eq_of_beq _ _ e)
      | inr c ↦ elim (Bool-cases (spec.protocol == codes "anytls")) [
        | inl e ↦ anytls (eq_of_beq _ _ e)
        | inr d ↦ elim (Bool-cases (spec.protocol == codes "trojan")) [
          | inl e ↦ trojan (eq_of_beq _ _ e) (λ two. ground (arith, h, a, b, c, d, two))
          | inr n ↦ absurd (ground (arith, h, a, b, c, d, n))
        ]
      ]
    ]
  ]
]

NeedsCertificate-needs_cert : (spec : NodeSpec) → NeedsCertificate spec → needs_cert spec ≡ true
unfolding needs_cert
NeedsCertificate-needs_cert spec (hysteria e) = rw e refl
NeedsCertificate-needs_cert spec (hysteria2 e) = rw e refl
NeedsCertificate-needs_cert spec (tuic e) = rw e refl
NeedsCertificate-needs_cert spec (anytls e) = rw e refl
NeedsCertificate-needs_cert spec (trojan e n) = rw e (ground (arith, n))

brings_certificate-Brings : (c : CertConfig) → brings_certificate c ≡ true → Brings c
unfolding brings_certificate
brings_certificate-Brings c h = elim (Bool-cases (normal c.cert_mode == codes "self")) [
  | inl e ↦ self_signed (eq_of_beq _ _ e)
  | inr a ↦ elim (Bool-cases (normal c.cert_mode == codes "content")) [
    | inl e ↦
        let both : (is_blank c.cert_content ≡ false) × (is_blank c.key_content ≡ false) =
          ground (arith, h, a, e) in
        in_content (eq_of_beq _ _ e) ((filled _).0 both.0) ((filled _).0 both.1)
    | inr b ↦ elim (Bool-cases (normal c.cert_mode == codes "file")) [
      | inl e ↦
          let both : (is_blank c.cert_file ≡ false) × (is_blank c.key_file ≡ false) =
            ground (arith, h, a, b, e) in
          in_files (eq_of_beq _ _ e) ((filled _).0 both.0) ((filled _).0 both.1)
      | inr d ↦ elim (Bool-cases (normal c.cert_mode == codes "http")) [
        | inl e ↦
            let named : is_blank c.domain ≡ false = ground (arith, h, a, b, d, e) in
            over_http (eq_of_beq _ _ e) ((filled _).0 named)
        | inr n ↦
            let all : ((normal c.cert_mode == codes "dns") ≡ true)
                × (is_blank c.domain ≡ false)
                × (is_blank c.dns_provider ≡ false) =
              ground (arith, h, a, b, d, n) in
            over_dns (eq_of_beq _ _ all.0) ((filled _).0 all.1) ((filled _).0 all.2)
      ]
    ]
  ]
]

Brings-brings_certificate : (c : CertConfig) → Brings c → brings_certificate c ≡ true
unfolding brings_certificate
Brings-brings_certificate c (self_signed e) = rw e refl
Brings-brings_certificate c (in_content e a b) =
    rw (e, (filled c.cert_content).1 a, (filled c.key_content).1 b) refl
Brings-brings_certificate c (in_files e a b) =
    rw (e, (filled c.cert_file).1 a, (filled c.key_file).1 b) refl
Brings-brings_certificate c (over_http e a) = rw (e, (filled c.domain).1 a) refl
Brings-brings_certificate c (over_dns e a b) =
    rw (e, (filled c.domain).1 a, (filled c.dns_provider).1 b) refl

brought_lem : (o : Option CertConfig) → (brings o ≡ true) ↔ Brought o
brought_lem none = (λ h. cc, λ b. cc b.1)
brought_lem (some c) = (
  λ h. (c, refl, brings_certificate-Brings c h),
  λ b. ap brings b.1 ∙ Brings-brings_certificate b.0 b.2,
)

-- A value that is read as a text that is not blank is that text.
value_text :
    (o : Option Value)
    → is_blank (string_value o) ≡ false
    → (t : Text) × (o ≡ some (text t)) × NonBlank t
unfolding trim_space
value_text none h = cc
value_text (some (int z)) h = cc
value_text (some (int32 z)) h = cc
value_text (some (int64 z)) h = cc
value_text (some (float z whole shown)) h = cc
value_text (some (text t)) h = (t, refl, (filled t).0 h)
value_text (some (bool b)) h = cc
value_text (some (other shown)) h = cc

has_text_lem :
    (settings : Map Text Value) (key : Text)
    → (is_blank (string_value (lookup key settings)) ≡ false) ↔ HasText settings key
has_text_lem settings key =
    (λ h. let (t, e, full) = value_text (lookup key settings) h in has_text e full, λ h. reads h)
  where
    reads : HasText settings key → is_blank (string_value (lookup key settings)) ≡ false
    reads (has_text {t} e full) = rw e ((filled t).1 full)

any_of_two :
    {B C : Type 0} (b c : Bool)
    → (b ≡ false) ↔ B
    → (c ≡ false) ↔ C
    → ((not b || not c) ≡ true) ↔ (B ⊎ C)
any_of_two false c p q = (λ h. inl (p.0 refl), λ w. refl)
any_of_two true false p q = (λ h. inr (q.0 refl), λ w. refl)
any_of_two true true p q = (λ h. cc, λ w. elim w [ inl x ↦ cc (p.1 x) | inr y ↦ cc (q.1 y) ])

both_of_two :
    {A B : Type 0} (a b : Bool) → (a ≡ true) ↔ A → (b ≡ true) ↔ B → ((a && b) ≡ true) ↔ (A × B)
both_of_two true b p q = (λ h. (p.0 refl, q.0 h), λ w. q.1 w.1)
both_of_two false b p q = (λ h. cc, λ w. p.1 w.0)

not_lem : {A : Type 0} (a : Bool) → (a ≡ false) ↔ A → (not a ≡ true) ↔ A
not_lem true p = (λ h. cc, λ x. cc (p.1 x))
not_lem false p = (λ h. p.0 refl, λ x. refl)

named_lem : (settings : Map Text Value) → (has_reality (some settings) ≡ true) ↔ Named settings
named_lem settings = both_of_two _ _ (not_lem _ (has_text_lem settings (codes "private_key"))) (
    any_of_two _ _ (has_text_lem settings (codes "server_name"))
      (has_text_lem settings (codes "dest")))

reality_lem : (o : Option (Map Text Value)) → (has_reality o ≡ true) ↔ HasReality o
reality_lem none = (λ h. cc, λ r. cc r.1)
reality_lem (some settings) = (
  λ h. (settings, refl, (named_lem settings).0 h),
  λ r. ap has_reality r.1 ∙ (named_lem r.0).1 r.2,
)

known_lem :
    (is_provider : Text → Bool) (c : CertConfig)
    → (knows_provider is_provider (some c) ≡ true)
      ↔ (NonBlank c.dns_provider × (is_provider (trim_space c.dns_provider) ≡ true))
known_lem is_provider c = both_of_two _ _ (not_lem _ (filled c.dns_provider)) (λ h. h, λ h. h)

certificate_lem :
    (has_cert : Bool) (o : Option CertConfig)
    → ((has_cert || brings o) ≡ true) ↔ ((has_cert ≡ true) ⊎ Brought o)
certificate_lem true o = (λ h. inl refl, λ w. refl)
certificate_lem false o =
    (λ h. inr ((brought_lem o).0 h), λ w. elim w [ inl e ↦ cc | inr b ↦ (brought_lem o).1 b ])

knows_provider-Challenge :
    (is_provider : Text → Bool) (o : Option CertConfig)
    → (asks_challenge o ≡ true → knows_provider is_provider o ≡ true)
    → Challenge is_provider o
knows_provider-Challenge is_provider o h c e asks = (known_lem is_provider c).0 (
    ap (knows_provider is_provider) (sym e)
    ∙ h (ap asks_challenge e ∙ ap (λ m. m == codes "dns") asks))

Challenge-knows_provider :
    (is_provider : Text → Bool) (o : Option CertConfig)
    → Challenge is_provider o
    → asks_challenge o ≡ true
    → knows_provider is_provider o ≡ true
Challenge-knows_provider is_provider none h asks = cc
Challenge-knows_provider is_provider (some c) h asks =
    (known_lem is_provider c).1 (h c refl (eq_of_beq _ _ asks))

-- A configuration passes the checks before it is applied exactly when its protocol is one of the
-- kernel's; a certificate is at hand or comes with it, in a mode whose settings are there, if the
-- protocol is hysteria, hysteria2, tuic or anytls, or trojan without REALITY; with REALITY there
-- are its private key and a server name or a destination; and a DNS challenge names a known
-- provider.
pub validate_node_runtime-Runnable :
    (is_provider : Text → Bool) (supported : List Text) (has_cert : Bool) (spec : NodeSpec)
    → (validate_node_runtime is_provider supported has_cert spec ≡ none)
      ↔ Runnable is_provider supported has_cert spec
validate_node_runtime-Runnable is_provider supported has_cert spec =
    let passes = validate_node_runtime-Passes is_provider supported has_cert spec in
    let cert = certificate_lem has_cert spec.cert_config in
    let real = reality_lem spec.tls_settings in
    (
      λ h.
          let p = passes.0 h in
          record {
            protocol = mem_text-Listed spec.protocol supported p.protocol;
            certificate = λ needs. cert.0 (p.certificate (NeedsCertificate-needs_cert spec needs));
            reality = λ two. real.0 (p.reality (ap (λ n. n == 2) two));
            challenge = knows_provider-Challenge is_provider spec.cert_config p.challenge;
          },
      λ r. passes.1 (record {
        protocol = Listed-mem_text spec.protocol supported r.protocol;
        certificate = λ needs. cert.1 (r.certificate (needs_cert-NeedsCertificate spec needs));
        reality = λ two. real.1 (r.reality (eq_of_beq spec.tls 2 two));
        challenge = Challenge-knows_provider is_provider spec.cert_config r.challenge;
      }),
    )

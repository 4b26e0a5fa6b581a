-- ===== src/Policy.antt =====
-- core/engine/policy/engine.go: what a policy says about a certificate request. Texts are ASCII bytes. What
-- lies outside is a parameter: the key types of the gateway SDK, and the decoding of a rule's JSON into the
-- configuration of its kind. A message is kept with what it names, instead of as a sentence.
pub mod Engine
pub mod Domains
pub mod Rules
pub mod Naming
pub mod Request
pub mod Violations
mod Examples
use certpilot.Prelude.{
  ℕ, zero, suc, negsuc, Bool, true, false, not, ◌&&◌, ◌||◌, Option, none, some, List, [], ◌∷◌, ◌++◌,
  length, is_none, ◌==◌, if◌then◌else◌, ℤ, pos, ltb_ℤ,
}
use certpilot.Audit.Bytes.{Bytes, bytes_eq}
use certpilot.Text.{to_lower, trim_space, equal_fold, has_prefix, has_suffix, trim_prefix}

pub data RuleType : Type 0 where
  key_size key_type ca_restriction max_lifetime naming approval_required : RuleType
  unknown : Bytes → RuleType

-- INFO, WARNING, BLOCK, or another text.
pub data Severity : Type 0 where
  info warning block : Severity
  unknown : Bytes → Severity

pub data Message : Type 0 where
  does_not_parse no_floor no_key_types no_bound no_providers no_names : Message
  needs_approval cannot_evaluate : Message
  rsa_below ecdsa_below : ℤ → ℤ → Message
  unsupported_key_type forbidden_key_type not_permitted_key_type : Bytes → Message
  above_maximum below_minimum : ℤ → ℤ → Message
  not_permitted_provider : Bytes → Message
  too_many_names : ℕ → ℤ → Message
  wildcard_name : Bytes → Message
  forbidden_name : Bytes → Bytes → Message
  outside_suffixes : Bytes → Message

pub record Policy : Type 0 where
  pub name : Bytes
  pub is_enabled : Bool
  pub rule_type : RuleType
  pub rule_config : Bytes
  pub domain_pattern : Bytes
  pub severity : Severity

pub record Violation : Type 0 where
  pub policy_name : Bytes
  pub rule_type : RuleType
  pub message : Message
  pub severity : Severity

pub record CertRequest : Type 0 where
  pub common_name : Bytes
  pub domains : List Bytes
  pub key_type : Bytes
  pub key_size : ℤ
  pub validity_days : ℤ
  pub ca_provider_type : Bytes

pub record KeySizeConfig : Type 0 where
  pub min_key_size : ℤ
  pub rsa_min_bits : ℤ
  pub ecdsa_min_bits : ℤ

pub record KeyTypeConfig : Type 0 where
  pub allowed_key_types : List Bytes
  pub forbidden_key_types : List Bytes

pub record MaxLifetimeConfig : Type 0 where
  pub max_days : ℤ
  pub min_days : ℤ

pub record CaRestrictionConfig : Type 0 where
  pub allowed_providers : List Bytes

pub record NamingConfig : Type 0 where
  pub allowed_suffixes : List Bytes
  pub forbidden_patterns : List Bytes
  pub allow_wildcards : Option Bool
  pub max_sans : ℤ

-- What lies outside: `none` of a decoder is a text that does not parse, `none` of ParseKeyType an error.
pub record Outside : Type 0 where
  pub parse_key_type : Bytes → Option Bytes
  pub rsa : Bytes
  pub ecdsa : Bytes
  pub ed25519 : Bytes
  pub key_size_config : Bytes → Option KeySizeConfig
  pub key_type_config : Bytes → Option KeyTypeConfig
  pub max_lifetime_config : Bytes → Option MaxLifetimeConfig
  pub ca_restriction_config : Bytes → Option CaRestrictionConfig
  pub naming_config : Bytes → Option NamingConfig

pub fail : Policy → Message → List Violation
fail p message =
    record {
      policy_name = p.name;
      rule_type = p.rule_type;
      message = message;
      severity = p.severity;
    }
    ∷ []

abbrev pub is_positive : ℤ → Bool
is_positive n = ltb_ℤ (pos 0) n

abbrev pub is_empty {ℓ} : {A : Type ℓ} → List A → Bool
is_empty [] = true
is_empty (x ∷ xs) = false

pub normal_name : Bytes → Bytes
normal_name d = to_lower (trim_space d)

-- One name against a pattern that is in lower case.
pub matches_name : Bytes → Bytes → Bool
matches_name pattern d =
    bytes_eq pattern (b'*' ∷ [])
    || bytes_eq pattern d
    || has_prefix pattern (b'*' ∷ b'.' ∷ []) && has_suffix d (trim_prefix pattern (b'*' ∷ []))

unfoldable pub any_name : (Bytes → Bool) → List Bytes → Bool
any_name test [] = false
any_name test (d ∷ ds) = test d || any_name test ds

pub matches_domain_pattern : List Bytes → Bytes → Bool
unfolding matches_name any_name normal_name
matches_domain_pattern domains pattern =
    any_name (λ d. matches_name (normal_name pattern) (normal_name d)) domains

-- One suffix of hasAllowedSuffix, cleaned as the loop does.
pub clean_suffix : Bytes → Bytes
clean_suffix suffix = to_lower (trim_space (trim_prefix suffix (b'.' ∷ [])))

pub is_under : Bytes → Bytes → Bool
is_under name suffix =
    not (is_empty suffix)
    && (bytes_eq name suffix
        || has_suffix name (b'.' ∷ suffix)
        || has_prefix name (b'*' ∷ b'.' ∷ [])
          && bytes_eq (trim_prefix name (b'*' ∷ b'.' ∷ [])) suffix)

pub has_allowed_suffix : Bytes → List Bytes → Bool
unfolding is_under clean_suffix any_name
has_allowed_suffix name suffixes = any_name (λ suffix. is_under name (clean_suffix suffix)) suffixes

module _ (o : Outside) where
  or_empty : Option Bytes → Bytes
  or_empty none = []
  or_empty (some t) = t

  pub normalise_key_type : Bytes → Bytes
  unfolding or_empty
  normalise_key_type s = or_empty (o.parse_key_type (trim_space s))

  -- The floor for RSA: the older field stands in for the newer one.
  pub rsa_floor : KeySizeConfig → ℤ
  rsa_floor cfg = elim cfg.rsa_min_bits [
    | pos zero ↦ cfg.min_key_size
    | pos (suc n) ↦ pos (suc n)
    | negsuc n ↦ negsuc n
  ]

  pub judge_key_size : Policy → CertRequest → KeySizeConfig → List Violation
  unfolding rsa_floor normalise_key_type fail
  judge_key_size p req cfg =
      let rsa_min = rsa_floor cfg in
      let kind = normalise_key_type req.key_type in
      if not (is_positive rsa_min) && not (is_positive cfg.ecdsa_min_bits)
      then fail p no_floor
      else if bytes_eq kind o.rsa
      then if is_positive rsa_min && ltb_ℤ req.key_size rsa_min
        then fail p (rsa_below req.key_size rsa_min)
        else []
      else if bytes_eq kind o.ecdsa
      then if is_positive cfg.ecdsa_min_bits && ltb_ℤ req.key_size cfg.ecdsa_min_bits
        then fail p (ecdsa_below req.key_size cfg.ecdsa_min_bits)
        else []
      else []

  pub names_type : Bytes → Bytes → Bool
  names_type requested kind = bytes_eq (normalise_key_type kind) requested

  pub judge_key_type : Policy → CertRequest → KeyTypeConfig → List Violation
  unfolding normalise_key_type fail any_name names_type
  judge_key_type p req cfg =
      let requested = normalise_key_type req.key_type in
      if is_empty cfg.allowed_key_types && is_empty cfg.forbidden_key_types
      then fail p no_key_types
      else if is_empty requested
      then fail p (unsupported_key_type req.key_type)
      else if any_name (names_type requested) cfg.forbidden_key_types
      then fail p (forbidden_key_type requested)
      else if is_empty cfg.allowed_key_types
      then []
      else if any_name (names_type requested) cfg.allowed_key_types
      then []
      else fail p (not_permitted_key_type requested)

  pub judge_max_lifetime : Policy → CertRequest → MaxLifetimeConfig → List Violation
  unfolding fail
  judge_max_lifetime p req cfg =
      if not (is_positive cfg.max_days) && not (is_positive cfg.min_days)
      then fail p no_bound
      else if is_positive cfg.max_days && ltb_ℤ cfg.max_days req.validity_days
      then fail p (above_maximum req.validity_days cfg.max_days)
      else if is_positive cfg.min_days
          && is_positive req.validity_days
          && ltb_ℤ req.validity_days cfg.min_days
      then fail p (below_minimum req.validity_days cfg.min_days)
      else []

  pub permits_provider : Bytes → Bytes → Bool
  permits_provider requested provider = equal_fold (trim_space provider) requested

  pub judge_ca_restriction : Policy → CertRequest → CaRestrictionConfig → List Violation
  unfolding fail any_name permits_provider
  judge_ca_restriction p req cfg =
      if is_empty cfg.allowed_providers
      then fail p no_providers
      else if any_name (permits_provider req.ca_provider_type) cfg.allowed_providers
      then []
      else fail p (not_permitted_provider req.ca_provider_type)

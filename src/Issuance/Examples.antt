-- ===== src/Issuance/Examples.antt =====
-- core/engine/issuance: a request under a template, with a policy.
use certpilot.Prelude.{
  ◌≡◌, ◌≢◌, ◌↔◌, refl, true, false, none, some, [], ◌∷◌, pos, ok, if◌then◌else◌,
}
use certpilot.Audit.Bytes.{bytes_eq}
use certpilot.Text.{
  contains, has_prefix, has_suffix, to_lower, to_upper, trim_prefix, trim_space, trim_suffix,
  equal_fold,
}
use certpilot.Policy.{Outside, Policy, block, max_lifetime, any_name}
use certpilot.Policy.Engine.{evaluate_request}
use certpilot.Issuance.{CertificateTemplate, Custody, Decision, Request, ecdsa_type, rsa_type}
use certpilot.Issuance.Filled.{apply_names_and_key, apply_supplied_values}
use certpilot.Issuance.Template.{check_template}
use certpilot.Issuance.Demands.{Permitted, check_template_iff}
use certpilot.Issuance.Resolver.{Catalog, resolve}
use certpilot.Issuance.Granted.{Grant, resolve-Grant}

abbrev outside : Outside
outside = record {
  parse_key_type = λ s. some (to_upper s);
  rsa = rsa_type;
  ecdsa = ecdsa_type;
  ed25519 = b'E' ∷ [];
  key_size_config = λ s. none;
  key_type_config = λ s. none;
  max_lifetime_config = λ s. some (record { max_days = pos 100; min_days = pos 0 });
  ca_restriction_config = λ s. none;
  naming_config = λ s. none;
}

abbrev lifetime_policy : Policy
lifetime_policy = record {
  name = b'l' ∷ [];
  is_enabled = true;
  rule_type = max_lifetime;
  rule_config = [];
  domain_pattern = [];
  severity = block;
}

abbrev web_template : CertificateTemplate
web_template = record {
  slug = b'w' ∷ [];
  is_enabled = true;
  ca_account_id = 3;
  supplies_subject = false;
  subject_defaults = [];
  common_name_rule = record {
    required = some true;
    suffixes = (b'a' ∷ b'.' ∷ b'b' ∷ []) ∷ [];
    forbidden_patterns = [];
  };
  san_rules = record { types = []; suffixes = []; allow_wildcards = none; max_names = pos 0 };
  allowed_key_types = (b'r' ∷ b's' ∷ b'a' ∷ []) ∷ [];
  rsa_min_bits = pos 3072;
  rsa_max_bits = pos 0;
  ecdsa_curves = [];
  csr_required = false;
  key_custody_required = Custody.unset;
  validity_days = pos 0;
  max_validity_days = pos 90;
  require_metadata = [];
  default_environment = 0;
  default_team = 0;
  default_tags = [];
}

abbrev catalog : Catalog
catalog = record {
  by_slug = λ s. if bytes_eq s (b'w' ∷ []) then some web_template else none;
  by_id = λ s. none;
  provider_of = λ id. some (b'l' ∷ b'e' ∷ []);
  policies = lifetime_policy ∷ [];
}

abbrev request : Request
request = record {
  template_ref = b'w' ∷ [];
  ca_account_id = [];
  common_name = b'X' ∷ b'.' ∷ b'a' ∷ b'.' ∷ b'b' ∷ [];
  sans = (b'x' ∷ b'.' ∷ b'a' ∷ b'.' ∷ b'b' ∷ b'.' ∷ []) ∷ [];
  csr = none;
  key_type = [];
  key_size = pos 0;
  validity_days = pos 0;
  environment = 0;
  team = 0;
  tags = [];
  metadata_keys = [];
  key_custody = Custody.unset;
}

-- One name in two spellings, the key type that is allowed, its floor, and 90 days.
abbrev decision : Decision
decision = record {
  common_name = b'X' ∷ b'.' ∷ b'a' ∷ b'.' ∷ b'b' ∷ [];
  domains = (b'x' ∷ b'.' ∷ b'a' ∷ b'.' ∷ b'b' ∷ []) ∷ [];
  key_type = rsa_type;
  key_size = pos 3072;
  validity_days = pos 90;
  environment = 0;
  team = 0;
  tags = [];
  overrides = 0;
  violations = [];
}

granted : resolve outside catalog request ≡ ok decision
unfolding resolve bytes_eq equal_fold to_lower to_upper trim_space has_prefix has_suffix trim_prefix
    trim_suffix contains apply_names_and_key apply_supplied_values check_template any_name
    evaluate_request
granted = refl

rsa≢ecdsa : outside.rsa ≢ outside.ecdsa
rsa≢ecdsa e = cc

resolve-Grant_example : Grant outside catalog request decision
resolve-Grant_example = resolve-Grant outside catalog request decision rsa≢ecdsa granted

check_template_iff_example :
    (check_template decision web_template request ≡ none) ↔ Permitted decision web_template request
check_template_iff_example = check_template_iff decision web_template request

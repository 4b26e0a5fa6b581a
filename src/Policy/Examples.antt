-- ===== src/Policy/Examples.antt =====
-- core/engine/policy/engine.go: the policies on concrete requests.
use certpilot.Prelude.{
  ◌≡◌, ◌≢◌, ◌↔◌, refl, inl, inr, true, [], ◌∷◌, none, some, pos, All, if◌then◌else◌,
}
use certpilot.Audit.Bytes.{Bytes, bytes_eq}
use certpilot.Text.{to_lower, trim_space, has_prefix, has_suffix, trim_prefix}
use certpilot.Policy.{CertRequest, Outside, Policy, RuleType, normal_name, naming, block, key_size}
use certpilot.Policy.Engine.{evaluate_request}
use certpilot.Policy.Domains.{Any}
use certpilot.Policy.Request.{Complies, Judges, evaluate_request_iff}
use certpilot.Policy.Violations.{IsOf, evaluate_request-CannotJudge}

abbrev rsa_text : Bytes
rsa_text = b'r' ∷ b's' ∷ b'a' ∷ []

abbrev ecdsa_text : Bytes
ecdsa_text = b'e' ∷ b'c' ∷ []

-- A gateway that knows two key types, and configurations of which only the first text parses.
abbrev outside : Outside
outside = record {
  parse_key_type = λ s.
      if bytes_eq (to_lower s) rsa_text
      then some rsa_text
      else if bytes_eq (to_lower s) ecdsa_text
      then some ecdsa_text
      else none;
  rsa = rsa_text;
  ecdsa = ecdsa_text;
  ed25519 = b'e' ∷ b'd' ∷ [];
  key_size_config = λ s. none;
  key_type_config = λ s. none;
  max_lifetime_config = λ s. none;
  ca_restriction_config = λ s. none;
  naming_config = λ s.
      if bytes_eq s (b'{' ∷ b'}' ∷ [])
      then some (record {
        allowed_suffixes = (b'.' ∷ b'A' ∷ b'.' ∷ b'b' ∷ []) ∷ [];
        forbidden_patterns = [];
        allow_wildcards = some true;
        max_sans = pos 2;
      })
      else none;
}

abbrev policy_of : RuleType → Bytes → Policy
policy_of kind config = record {
  name = b'p' ∷ [];
  is_enabled = true;
  rule_type = kind;
  rule_config = config;
  domain_pattern = b'*' ∷ b'.' ∷ b'b' ∷ [];
  severity = block;
}

abbrev request : CertRequest
request = record {
  common_name = b'x' ∷ b'.' ∷ b'a' ∷ b'.' ∷ b'b' ∷ [];
  domains = (b'x' ∷ b'.' ∷ b'a' ∷ b'.' ∷ b'B' ∷ []) ∷ (b'*' ∷ b'.' ∷ b'a' ∷ b'.' ∷ b'b' ∷ []) ∷ [];
  key_type = b'R' ∷ b'S' ∷ b'A' ∷ [];
  key_size = pos 2048;
  validity_days = pos 90;
  ca_provider_type = b'l' ∷ b'e' ∷ [];
}

-- A request within the zone, and one with a name beside it.
accepted : evaluate_request outside (policy_of naming (b'{' ∷ b'}' ∷ []) ∷ []) request ≡ []
unfolding evaluate_request bytes_eq to_lower trim_space has_prefix has_suffix trim_prefix
accepted = refl

abbrev beside : CertRequest
beside = record request { domains = (b'x' ∷ b'a' ∷ b'.' ∷ b'b' ∷ []) ∷ [] }

refused : evaluate_request outside (policy_of naming (b'{' ∷ b'}' ∷ []) ∷ []) beside ≢ []
unfolding evaluate_request bytes_eq to_lower trim_space has_prefix has_suffix trim_prefix
refused e = cc

rsa≢ecdsa : outside.rsa ≢ outside.ecdsa
rsa≢ecdsa e = cc

evaluate_request_iff_example :
    (evaluate_request outside (policy_of naming (b'{' ∷ b'}' ∷ []) ∷ []) request ≡ [])
    ↔ All
        (λ p. Judges p request → Complies outside p request)
        (policy_of naming (b'{' ∷ b'}' ∷ []) ∷ [])
evaluate_request_iff_example =
    evaluate_request_iff outside request (policy_of naming (b'{' ∷ b'}' ∷ []) ∷ []) rsa≢ecdsa

key_rule_covers : Judges (policy_of key_size []) request
unfolding normal_name to_lower trim_space
key_rule_covers = (refl, inr (inl (inr (inr (b'b' ∷ [], refl, b'x' ∷ b'.' ∷ b'a' ∷ [], refl)))))

evaluate_request-CannotJudge_example : Any (IsOf (policy_of key_size [])) (
    evaluate_request outside
      (policy_of naming (b'{' ∷ b'}' ∷ []) ∷ policy_of key_size [] ∷ [])
      request)
evaluate_request-CannotJudge_example =
    evaluate_request-CannotJudge outside request (policy_of naming (b'{' ∷ b'}' ∷ []) ∷ []) []
      (policy_of key_size []) key_rule_covers refl

-- ===== src/Issuance/Permits.antt =====
-- core/engine/issuance/rules.go: what a template demands of a request, against the checks.
use certpilot.Prelude.{
  ◌≡◌, ◌≢◌, ◌↔◌, ◌⊎◌, refl, sym, ◌∙◌, arith, Bool, true, false, Option, none, some, List, [], ◌∷◌,
  ℤ, pos, length, All,
}
use certpilot.Audit.Bytes.{Bytes}
use certpilot.Text.{
  bytes_eq_iff, contains, equal_fold, equal_fold_iff, has_prefix, has_suffix_iff, to_lower,
  to_upper, trim_space,
}
use certpilot.Policy.Domains.{Any, Any-map_iff, IsUnder, any_name_iff}
use certpilot.Policy.Rules.{AtMost, IsPositive, is_empty_iff}
use certpilot.Issuance.{
  CertificateTemplate, Decision, Refusal, clean_name, curve_bits, ecdsa_type, rsa_type,
}
use certpilot.Issuance.Template.{
  all_suffixes, allows_curve, allows_type, check_each_name, check_key, check_name, check_names,
  clean_suffix, is_forbidden_by, is_true, is_under_suffix, is_within, or_else, refuse_if, same_bits,
}

pub or_else_iff : (a b : Option Refusal) → (or_else a b ≡ none) ↔ ((a ≡ none) × (b ≡ none))
or_else_iff none b = (λ h. (refl, h), λ h. h.1)
or_else_iff (some r) b = (λ h. cc, λ h. cc)

pub refuse_if_iff : (c : Bool) (r : Refusal) → (refuse_if c r ≡ none) ↔ (c ≡ false)
refuse_if_iff true r = (λ h. cc, λ h. cc)
refuse_if_iff false r = (λ h. refl, λ h. refl)

-- The key is of an allowed type, and within the bounds of RSA, or on an allowed curve.
abbrev pub MeetsKey : Decision → CertificateTemplate → Type 0
MeetsKey d tpl =
    Any (λ allowed. to_lower allowed ≡ to_lower d.key_type) tpl.allowed_key_types
    × (to_upper d.key_type ≡ rsa_type
        → IsPositive tpl.rsa_min_bits
        → AtMost tpl.rsa_min_bits d.key_size)
    × (to_upper d.key_type ≡ rsa_type
        → IsPositive tpl.rsa_max_bits
        → AtMost d.key_size tpl.rsa_max_bits)
    × (to_upper d.key_type ≡ ecdsa_type
        → (tpl.ecdsa_curves ≡ [])
          ⊎ Any
              (λ curve. AtMost (curve_bits curve) d.key_size × AtMost d.key_size (curve_bits curve))
              tpl.ecdsa_curves)

-- A name is no wildcard unless the template allows these, contains no forbidden pattern, and lies under one
-- of the suffixes, if the template gives any.
abbrev pub MeetsName : CertificateTemplate → Bytes → Type 0
MeetsName tpl name =
    (has_prefix name (b'*' ∷ b'.' ∷ []) ≡ true → is_true tpl.san_rules.allow_wildcards ≡ true)
    × (Any (λ p. (p ≢ []) × (contains (to_lower name) (to_lower p) ≡ true))
          tpl.common_name_rule.forbidden_patterns
        → ⊥)
    × ((all_suffixes tpl ≡ [])
        ⊎ Any (λ s. (clean_suffix s ≢ []) × IsUnder (clean_name name) (clean_suffix s))
            (all_suffixes tpl))

abbrev pub MeetsNames : Decision → CertificateTemplate → Type 0
MeetsNames d tpl =
    (is_true tpl.common_name_rule.required ≡ true → trim_space d.common_name ≢ [])
    × (IsPositive tpl.san_rules.max_names → AtMost (pos (length d.domains)) tpl.san_rules.max_names)
    × All (MeetsName tpl) d.domains

rsa≢ecdsa : rsa_type ≢ ecdsa_type
rsa≢ecdsa e = cc

pub check_key_iff :
    (d : Decision) (tpl : CertificateTemplate) → (check_key d tpl ≡ none) ↔ MeetsKey d tpl
unfolding check_key allows_type allows_curve same_bits
check_key_iff d tpl =
    let types = any_name_iff (λ allowed. equal_fold allowed d.key_type) tpl.allowed_key_types in
    let each_type =
      Any-map_iff {P = λ allowed. equal_fold allowed d.key_type ≡ true}
        {Q = λ allowed. to_lower allowed ≡ to_lower d.key_type} tpl.allowed_key_types
        (λ allowed. equal_fold_iff allowed d.key_type) in
    let curves = any_name_iff (same_bits d.key_size) tpl.ecdsa_curves in
    let each_curve =
      Any-map_iff {P = λ curve. same_bits d.key_size curve ≡ true}
        {Q = λ curve. AtMost (curve_bits curve) d.key_size × AtMost d.key_size (curve_bits curve)}
        tpl.ecdsa_curves (same_bits_iff d.key_size) in
    let rsa = bytes_eq_iff (to_upper d.key_type) rsa_type in
    let ecdsa = bytes_eq_iff (to_upper d.key_type) ecdsa_type in
    let empty = is_empty_iff tpl.ecdsa_curves in
    let apart : to_upper d.key_type ≡ rsa_type → to_upper d.key_type ≡ ecdsa_type → ⊥ =
      λ r e. rsa≢ecdsa (sym r ∙ e) in
    ground (arith, types, each_type, curves, each_curve, rsa, ecdsa, empty, apart)
  where
    same_bits_iff :
        (size : ℤ) (curve : Bytes)
        → (same_bits size curve ≡ true)
          ↔ (AtMost (curve_bits curve) size × AtMost size (curve_bits curve))
    same_bits_iff size curve = ground arith

is_forbidden_by_iff :
    (name pattern : Bytes)
    → (is_forbidden_by name pattern ≡ true)
      ↔ ((pattern ≢ []) × (contains (to_lower name) (to_lower pattern) ≡ true))
unfolding is_forbidden_by
is_forbidden_by_iff name [] = (λ h. cc, λ h. absurd (h.0 refl))
is_forbidden_by_iff name (c ∷ cs) = (λ h. (λ e. cc, h), λ h. h.1)

is_under_suffix_iff :
    (name suffix : Bytes)
    → (is_under_suffix name suffix ≡ true) ↔ ((suffix ≢ []) × IsUnder name suffix)
unfolding is_under_suffix
is_under_suffix_iff name suffix =
    let empty = is_empty_iff suffix in
    let same = bytes_eq_iff name suffix in
    let below = has_suffix_iff name (b'.' ∷ suffix) in ground (arith, empty, same, below)

check_name_iff :
    (tpl : CertificateTemplate) (name : Bytes) → (check_name tpl name ≡ none) ↔ MeetsName tpl name
unfolding check_name is_within
check_name_iff tpl name =
    let patterns = any_name_iff (is_forbidden_by name) tpl.common_name_rule.forbidden_patterns in
    let each_pattern =
      Any-map_iff {P = λ p. is_forbidden_by name p ≡ true}
        {Q = λ p. (p ≢ []) × (contains (to_lower name) (to_lower p) ≡ true)}
        tpl.common_name_rule.forbidden_patterns (is_forbidden_by_iff name) in
    let zones =
      any_name_iff (λ s. is_under_suffix (clean_name name) (clean_suffix s)) (all_suffixes tpl) in
    let each_zone =
      Any-map_iff {P = λ s. is_under_suffix (clean_name name) (clean_suffix s) ≡ true}
        {Q = λ s. (clean_suffix s ≢ []) × IsUnder (clean_name name) (clean_suffix s)}
        (all_suffixes tpl) (λ s. is_under_suffix_iff (clean_name name) (clean_suffix s)) in
    let empty = is_empty_iff (all_suffixes tpl) in
    ground (arith, patterns, each_pattern, zones, each_zone, empty)

check_each_name_iff :
    (tpl : CertificateTemplate) (names : List Bytes)
    → (check_each_name tpl names ≡ none) ↔ All (MeetsName tpl) names
unfolding check_each_name
check_each_name_iff tpl [] = (λ h. tt, λ h. refl)
check_each_name_iff tpl (name ∷ names) =
    let split = or_else_iff (check_name tpl name) (check_each_name tpl names) in
    let first = check_name_iff tpl name in
    let rest = check_each_name_iff tpl names in
    (λ h. (first.0 (split.0 h).0, rest.0 (split.0 h).1), λ h. split.1 (first.1 h.0, rest.1 h.1))

pub check_names_iff :
    (d : Decision) (tpl : CertificateTemplate) → (check_names d tpl ≡ none) ↔ MeetsNames d tpl
unfolding check_names
check_names_iff d tpl =
    let rest = check_each_name_iff tpl d.domains in
    let blank = is_empty_iff (trim_space d.common_name) in ground (arith, rest, blank)

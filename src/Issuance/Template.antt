-- ===== src/Issuance/Template.antt =====
-- core/engine/issuance/rules.go, checkTemplate: everything that a template constrains. A check answers with
-- the first refusal, or with none.
use certpilot.Prelude.{
  Bool, true, false, not, ◌&&◌, ◌||◌, Option, none, some, List, [], ◌∷◌, ◌++◌, Text, ◌==◌,
  if◌then◌else◌, ℤ, pos, ltb_ℤ, length,
}
use certpilot.Audit.Bytes.{Bytes, bytes_eq}
use certpilot.Text.{
  contains, equal_fold, has_prefix, has_suffix, to_lower, to_upper, trim_prefix, trim_space,
}
use certpilot.Policy.{any_name, is_empty, is_positive}
use certpilot.Issuance.{
  CertificateTemplate, CsrInfo, Custody, Decision, Refusal, Request, asks_for_ca,
  asks_for_cert_sign, any_custody, clean_name, common_name_missing, csr_missing, curve_bits,
  curve_refused, custody_differs, ecdsa_type, held_by, key_type_refused, lifetime_too_long,
  metadata_missing, outside_suffixes, pattern_forbidden, rsa_too_long, rsa_too_short, rsa_type,
  san_type_refused, subject_differs, too_many_names, wildcard_refused,
}

-- The first refusal of a sequence of checks.
abbrev pub or_else : Option Refusal → Option Refusal → Option Refusal
or_else (some r) next = some r
or_else none next = next

abbrev pub refuse_if : Bool → Refusal → Option Refusal
refuse_if c r = if c then some r else none

unfoldable pub check_authority_csr : CsrInfo → Option Refusal
check_authority_csr csr =
    or_else (refuse_if csr.requests_ca asks_for_ca)
      (refuse_if csr.requests_key_cert_sign asks_for_cert_sign)

unfoldable pub check_authority_request : Request → Option Refusal
unfolding check_authority_csr
check_authority_request req = elim req.csr [ none ↦ none | some csr ↦ check_authority_csr csr ]

unfoldable pub same_bits : ℤ → Bytes → Bool
same_bits size curve = not (ltb_ℤ (curve_bits curve) size || ltb_ℤ size (curve_bits curve))

unfoldable pub allows_type : Bytes → CertificateTemplate → Bool
allows_type kind tpl = any_name (λ allowed. equal_fold allowed kind) tpl.allowed_key_types

unfoldable pub allows_curve : ℤ → CertificateTemplate → Bool
unfolding same_bits
allows_curve size tpl = is_empty tpl.ecdsa_curves || any_name (same_bits size) tpl.ecdsa_curves

unfoldable pub check_key : Decision → CertificateTemplate → Option Refusal
unfolding allows_type allows_curve
check_key d tpl =
    if not (allows_type d.key_type tpl)
    then some key_type_refused
    else if bytes_eq (to_upper d.key_type) rsa_type
    then or_else
        (refuse_if (is_positive tpl.rsa_min_bits && ltb_ℤ d.key_size tpl.rsa_min_bits)
          rsa_too_short)
        (refuse_if (is_positive tpl.rsa_max_bits && ltb_ℤ tpl.rsa_max_bits d.key_size) rsa_too_long)
    else if bytes_eq (to_upper d.key_type) ecdsa_type
    then refuse_if (not (allows_curve d.key_size tpl)) curve_refused
    else none

unfoldable pub names_kind : Bytes → Bytes → Bool
names_kind kind t = bytes_eq (to_upper (trim_space t)) kind

-- Whether names of a kind, if there are any, are permitted.
unfoldable pub permits_kind : CertificateTemplate → Bytes → List Bytes → Bool
unfolding names_kind
permits_kind tpl kind names = is_empty names || any_name (names_kind kind) tpl.san_rules.types

abbrev pub ip_kind : Bytes
ip_kind = b'I' ∷ b'P' ∷ []

abbrev pub email_kind : Bytes
email_kind = b'E' ∷ b'M' ∷ b'A' ∷ b'I' ∷ b'L' ∷ []

abbrev pub uri_kind : Bytes
uri_kind = b'U' ∷ b'R' ∷ b'I' ∷ []

abbrev pub dns_kind : Bytes
dns_kind = b'D' ∷ b'N' ∷ b'S' ∷ []

unfoldable pub permits_kinds : CertificateTemplate → CsrInfo → Bool
unfolding permits_kind
permits_kinds tpl csr =
    permits_kind tpl ip_kind csr.ip_addresses
    && permits_kind tpl email_kind csr.email_addresses
    && permits_kind tpl uri_kind csr.uris
    && permits_kind tpl dns_kind csr.dns_names

unfoldable pub check_san_types : CertificateTemplate → Request → Option Refusal
unfolding permits_kinds
check_san_types tpl req = elim req.csr [
  | none ↦ none
  | some csr ↦
      if is_empty tpl.san_rules.types
      then none
      else refuse_if (not (permits_kinds tpl csr)) san_type_refused
]

unfoldable pub is_under_suffix : Bytes → Bytes → Bool
is_under_suffix name suffix =
    not (is_empty suffix) && (bytes_eq name suffix || has_suffix name (b'.' ∷ suffix))

pub clean_suffix : Bytes → Bytes
clean_suffix suffix = to_lower (trim_prefix (trim_space suffix) (b'.' ∷ []))

-- `hasSuffix` of this package.
unfoldable pub is_within : Bytes → List Bytes → Bool
unfolding is_under_suffix clean_suffix
is_within name suffixes =
    any_name (λ suffix. is_under_suffix (clean_name name) (clean_suffix suffix)) suffixes

pub is_true : Option Bool → Bool
is_true none = false
is_true (some b) = b

unfoldable pub is_forbidden_by : Bytes → Bytes → Bool
is_forbidden_by name pattern = not (is_empty pattern) && contains (to_lower name) (to_lower pattern)

pub all_suffixes : CertificateTemplate → List Bytes
all_suffixes tpl = tpl.common_name_rule.suffixes ++ tpl.san_rules.suffixes

-- One turn of the loop over the names.
unfoldable pub check_name : CertificateTemplate → Bytes → Option Refusal
unfolding is_true is_forbidden_by all_suffixes is_within
check_name tpl name =
    or_else
      (refuse_if (has_prefix name (b'*' ∷ b'.' ∷ []) && not (is_true tpl.san_rules.allow_wildcards))
        wildcard_refused)
      (or_else
        (refuse_if (any_name (is_forbidden_by name) tpl.common_name_rule.forbidden_patterns)
          pattern_forbidden)
        (refuse_if (not (is_empty (all_suffixes tpl)) && not (is_within name (all_suffixes tpl)))
          outside_suffixes))

unfoldable pub check_each_name : CertificateTemplate → List Bytes → Option Refusal
unfolding check_name
check_each_name tpl [] = none
check_each_name tpl (name ∷ names) = or_else (check_name tpl name) (check_each_name tpl names)

unfoldable pub check_names : Decision → CertificateTemplate → Option Refusal
unfolding check_each_name is_true
check_names d tpl =
    or_else
      (refuse_if (is_true tpl.common_name_rule.required && is_empty (trim_space d.common_name))
        common_name_missing)
      (or_else
        (refuse_if
          (is_positive tpl.san_rules.max_names
            && ltb_ℤ tpl.san_rules.max_names (pos (length d.domains)))
          too_many_names)
        (check_each_name tpl d.domains))

unfoldable pub find_value : Text → List (Text × Text) → Option Text
find_value key [] = none
find_value key ((k, v) ∷ rest) = if k == key then some v else find_value key rest

-- A default that the signing request answers with another value.
unfoldable pub differs : CsrInfo → Text → Text → Bool
unfolding find_value
differs csr key want = elim (find_value key csr.subject) [
  | none ↦ false
  | some got ↦ not (got == want)
]

unfoldable pub any_differs : CsrInfo → List (Text × Text) → Bool
unfolding differs
any_differs csr [] = false
any_differs csr ((key, want) ∷ rest) = differs csr key want || any_differs csr rest

unfoldable pub check_subject : CertificateTemplate → Request → Option Refusal
unfolding any_differs
check_subject tpl req = elim req.csr [
  | none ↦ none
  | some csr ↦
      refuse_if (tpl.supplies_subject && any_differs csr tpl.subject_defaults) subject_differs
]

unfoldable pub has_no_csr : Option CsrInfo → Bool
has_no_csr none = true
has_no_csr (some csr) = false

unfoldable pub is_other_custody : Custody → Custody → Bool
is_other_custody Custody.unset required = false
is_other_custody (held_by a) (held_by b) = not (a == b)
is_other_custody any_custody (held_by b) = true
is_other_custody _ _ = false

unfoldable pub check_custody : CertificateTemplate → Request → Option Refusal
unfolding has_no_csr is_other_custody
check_custody tpl req =
    or_else (refuse_if (tpl.csr_required && has_no_csr req.csr) csr_missing)
      (refuse_if (is_other_custody req.key_custody tpl.key_custody_required) custody_differs)

unfoldable pub is_answered : Text → List Text → Bool
is_answered key [] = false
is_answered key (k ∷ ks) = k == key || is_answered key ks

unfoldable pub all_answered : List Text → List Text → Bool
unfolding is_answered
all_answered answers [] = true
all_answered answers (key ∷ keys) = is_answered key answers && all_answered answers keys

unfoldable pub check_metadata : CertificateTemplate → Request → Option Refusal
unfolding all_answered
check_metadata tpl req =
    refuse_if (not (all_answered req.metadata_keys tpl.require_metadata)) metadata_missing

unfoldable pub check_lifetime : Decision → CertificateTemplate → Option Refusal
check_lifetime d tpl =
    refuse_if (is_positive tpl.max_validity_days && ltb_ℤ tpl.max_validity_days d.validity_days)
      lifetime_too_long

unfoldable pub check_template : Decision → CertificateTemplate → Request → Option Refusal
unfolding check_authority_request check_key check_san_types check_names check_subject check_custody
    check_metadata check_lifetime
check_template d tpl req = or_else (check_authority_request req) (
    or_else (check_key d tpl) (
      or_else (check_san_types tpl req) (
        or_else (check_names d tpl) (
          or_else (check_subject tpl req) (
            or_else (check_custody tpl req)
              (or_else (check_metadata tpl req) (check_lifetime d tpl)))))))

-- ===== src/Issuance.antt =====
-- core/engine/issuance/rules.go and core/engine/issuance/resolve.go: which certificate may be issued under a
-- template. Names, key types and the like are ASCII bytes. A certificate signing request is what
-- the gateway SDK reads from it: its names, its key, and what it asks to become. A refusal is kept with its
-- rung and its kind, instead of as a sentence.
pub mod Filled
pub mod Template
pub mod Resolver
pub mod Permits
pub mod Demands
pub mod Granted
mod Examples
use certpilot.Prelude.{
  ℕ, zero, suc, negsuc, Bool, true, false, not, ◌&&◌, ◌||◌, Option, none, some, List, [], ◌∷◌, ◌++◌,
  Text, empty_text, ◌==◌, if◌then◌else◌, ℤ, pos, ltb_ℤ, Result, ok, err, suc,
}
use certpilot.Audit.Bytes.{Bytes, bytes_eq}
use certpilot.Text.{
  equal_fold, has_suffix, to_lower, to_upper, trim_prefix, trim_space, trim_suffix,
}
use certpilot.Policy.{Violation, any_name, is_empty, is_positive}

-- The key types that the code spells out.
abbrev pub rsa_type : Bytes
rsa_type = b'R' ∷ b'S' ∷ b'A' ∷ []

abbrev pub ecdsa_type : Bytes
ecdsa_type = b'E' ∷ b'C' ∷ b'D' ∷ b'S' ∷ b'A' ∷ []

abbrev pub ed25519_type : Bytes
ed25519_type = b'E' ∷ b'd' ∷ b'2' ∷ b'5' ∷ b'5' ∷ b'1' ∷ b'9' ∷ []

pub data Custody : Type 0 where
  unset any_custody : Custody
  held_by : Text → Custody

pub record CommonNameRule : Type 0 where
  pub required : Option Bool
  pub suffixes : List Bytes
  pub forbidden_patterns : List Bytes

pub record SanRules : Type 0 where
  pub types : List Bytes
  pub suffixes : List Bytes
  pub allow_wildcards : Option Bool
  pub max_names : ℤ

-- The fields of a template that decide. `subject_defaults` is in the order of its keys.
pub record CertificateTemplate : Type 0 where
  pub slug : Bytes
  pub is_enabled : Bool
  pub ca_account_id : Text
  pub supplies_subject : Bool
  pub subject_defaults : List (Text × Text)
  pub common_name_rule : CommonNameRule
  pub san_rules : SanRules
  pub allowed_key_types : List Bytes
  pub rsa_min_bits : ℤ
  pub rsa_max_bits : ℤ
  pub ecdsa_curves : List Bytes
  pub csr_required : Bool
  pub key_custody_required : Custody
  pub validity_days : ℤ
  pub max_validity_days : ℤ
  pub require_metadata : List Text
  pub default_environment : Text
  pub default_team : Text
  pub default_tags : List Text

pub record CsrInfo : Type 0 where
  pub names : List Bytes
  pub key_type : Bytes
  pub key_size : ℤ
  pub requests_ca : Bool
  pub requests_key_cert_sign : Bool
  pub dns_names : List Bytes
  pub ip_addresses : List Bytes
  pub email_addresses : List Bytes
  pub uris : List Bytes
  pub subject : List (Text × Text)

pub record Request : Type 0 where
  pub template_ref : Bytes
  pub ca_account_id : Bytes
  pub common_name : Bytes
  pub sans : List Bytes
  pub csr : Option CsrInfo
  pub key_type : Bytes
  pub key_size : ℤ
  pub validity_days : ℤ
  pub environment : Text
  pub team : Text
  pub tags : List Text
  pub metadata_keys : List Text
  pub key_custody : Custody

pub record Decision : Type 0 where
  pub common_name : Bytes
  pub domains : List Bytes
  pub key_type : Bytes
  pub key_size : ℤ
  pub validity_days : ℤ
  pub environment : Text
  pub team : Text
  pub tags : List Text
  pub overrides : ℕ
  pub violations : List Violation

-- Why a request is refused; the first group is the request's own fault, `policy` the policies'.
pub data Refusal : Type 0 where
  names_nothing no_common_name no_template no_such_template no_default_template : Refusal
  template_disabled no_account : Refusal
  asks_for_ca asks_for_cert_sign key_type_refused rsa_too_short rsa_too_long : Refusal
  curve_refused san_type_refused common_name_missing too_many_names wildcard_refused : Refusal
  pattern_forbidden outside_suffixes subject_differs csr_missing custody_differs : Refusal
  metadata_missing lifetime_too_long : Refusal
  policy : List Violation → Refusal

-- What `dedupe` and `hasSuffix` make of a name.
pub clean_name : Bytes → Bytes
clean_name n = to_lower (trim_suffix (trim_space n) (b'.' ∷ []))

pub dedupe_from : List Bytes → List Bytes → List Bytes
unfolding clean_name
dedupe_from seen [] = []
dedupe_from seen (n ∷ ns) =
    let skipped = dedupe_from seen ns in
    let kept = clean_name n ∷ dedupe_from (clean_name n ∷ seen) ns in
    if is_empty (clean_name n) || any_name (bytes_eq (clean_name n)) seen then skipped else kept

pub dedupe : List Bytes → List Bytes
unfolding dedupe_from
dedupe names = dedupe_from [] names

is_one_of : Bytes → List Bytes → Bool
is_one_of c spellings = any_name (bytes_eq c) spellings

pub curve_bits : Bytes → ℤ
unfolding is_one_of
curve_bits curve =
    let c = to_upper (trim_space curve) in
    if is_one_of c (
      (b'P' ∷ b'-' ∷ b'2' ∷ b'5' ∷ b'6' ∷ [])
      ∷ (b'P' ∷ b'2' ∷ b'5' ∷ b'6' ∷ [])
      ∷ (b'P' ∷ b'R' ∷ b'I' ∷ b'M' ∷ b'E' ∷ b'2' ∷ b'5' ∷ b'6' ∷ b'V' ∷ b'1' ∷ [])
      ∷ (b'S' ∷ b'E' ∷ b'C' ∷ b'P' ∷ b'2' ∷ b'5' ∷ b'6' ∷ b'R' ∷ b'1' ∷ [])
      ∷ [])
    then pos 256
    else if is_one_of c (
        (b'P' ∷ b'-' ∷ b'3' ∷ b'8' ∷ b'4' ∷ [])
        ∷ (b'P' ∷ b'3' ∷ b'8' ∷ b'4' ∷ [])
        ∷ (b'S' ∷ b'E' ∷ b'C' ∷ b'P' ∷ b'3' ∷ b'8' ∷ b'4' ∷ b'R' ∷ b'1' ∷ [])
        ∷ [])
    then pos 384
    else if is_one_of c (
        (b'P' ∷ b'-' ∷ b'5' ∷ b'2' ∷ b'1' ∷ [])
        ∷ (b'P' ∷ b'5' ∷ b'2' ∷ b'1' ∷ [])
        ∷ (b'S' ∷ b'E' ∷ b'C' ∷ b'P' ∷ b'5' ∷ b'2' ∷ b'1' ∷ b'R' ∷ b'1' ∷ [])
        ∷ [])
    then pos 521
    else pos 0

-- The loop, from the best so far.
pub weakest_from : ℤ → List Bytes → ℤ
unfolding curve_bits
weakest_from best [] = best
weakest_from best (c ∷ cs) =
    weakest_from
      (if is_positive (curve_bits c) && (not (is_positive best) || ltb_ℤ (curve_bits c) best)
        then curve_bits c
        else best)
      cs

pub weakest_curve : List Bytes → ℤ
unfolding weakest_from
weakest_curve curves = weakest_from (pos 0) curves

-- ===== src/Issuance/Filled.antt =====
-- core/engine/issuance/rules.go: what the request, its signing request and the template fill a decision with.
use certpilot.Prelude.{
  suc, Bool, ◌&&◌, ◌||◌, none, some, List, [], ◌∷◌, Text, empty_text, ◌==◌, if◌then◌else◌, ℤ, pos,
  ltb_ℤ, Result, ok, err, suc,
}
use certpilot.Audit.Bytes.{Bytes, bytes_eq}
use certpilot.Text.{equal_fold, to_upper, trim_space}
use certpilot.Policy.{any_name, is_empty, is_positive}
use certpilot.Issuance.{
  CertificateTemplate, CsrInfo, Decision, Refusal, Request, dedupe, ecdsa_type, ed25519_type,
  names_nothing, no_common_name, rsa_type, weakest_curve,
}

pub first_allowed : CertificateTemplate → List Bytes → Bytes
first_allowed tpl [] = elim tpl.allowed_key_types [ [] ↦ rsa_type | ◌∷◌ t ts ↦ t ]
first_allowed tpl (want ∷ wants) =
    if any_name (λ allowed. equal_fold allowed want) tpl.allowed_key_types
    then want
    else first_allowed tpl wants

pub default_key_type : CertificateTemplate → Bytes
unfolding first_allowed
default_key_type tpl = first_allowed tpl (rsa_type ∷ ecdsa_type ∷ ed25519_type ∷ [])

pub default_key_size : CertificateTemplate → Bytes → ℤ
unfolding weakest_curve
default_key_size tpl key_type =
    if bytes_eq (to_upper key_type) rsa_type
    then if is_positive tpl.rsa_min_bits then tpl.rsa_min_bits else pos 2048
    else if bytes_eq (to_upper key_type) ecdsa_type
    then if is_positive (weakest_curve tpl.ecdsa_curves)
      then weakest_curve tpl.ecdsa_curves
      else pos 256
    else pos 256

-- The key type that the request or the template names.
chosen_type : CertificateTemplate → Bytes → Bytes
unfolding default_key_type
chosen_type tpl asked = if is_empty asked then default_key_type tpl else asked

named : CertificateTemplate → Bytes → List Bytes → Bytes → ℤ → Decision
unfolding chosen_type default_key_size dedupe
named tpl common_name names key_type key_size =
    let kind = chosen_type tpl key_type in
    record {
      common_name = common_name;
      domains = dedupe names;
      key_type = kind;
      key_size = if is_positive key_size then key_size else default_key_size tpl kind;
      validity_days = pos 0;
      environment = empty_text;
      team = empty_text;
      tags = [];
      overrides = 0;
      violations = [];
    }

of_csr : CertificateTemplate → CsrInfo → List Bytes → Result Refusal Decision
unfolding named
of_csr tpl csr [] = err names_nothing
of_csr tpl csr (n ∷ ns) = ok (named tpl n (n ∷ ns) csr.key_type csr.key_size)

-- applyNamesAndKey.
unfoldable pub apply_names_and_key : CertificateTemplate → Request → Result Refusal Decision
unfolding named of_csr
apply_names_and_key tpl req = elim req.csr [
  | some csr ↦ of_csr tpl csr csr.names
  | none ↦
      if is_empty (trim_space req.common_name)
      then err no_common_name
      else ok (named tpl req.common_name (req.common_name ∷ req.sans) req.key_type req.key_size)
]

or_default : Text → Text → Text
or_default t other = if t == empty_text then other else t

is_not : ℤ → ℤ → Bool
is_not a b = ltb_ℤ a b || ltb_ℤ b a

-- applySuppliedValues; of the messages on an override, their number.
unfoldable pub apply_supplied_values : CertificateTemplate → Request → Decision → Decision
unfolding or_default is_not
apply_supplied_values tpl req d = record d {
  validity_days =
      if is_positive tpl.validity_days
      then tpl.validity_days
      else if is_positive req.validity_days
      then req.validity_days
      else pos 90;
  overrides =
      if is_positive tpl.validity_days
        && (is_positive req.validity_days && is_not req.validity_days tpl.validity_days)
      then suc d.overrides
      else d.overrides;
  environment = or_default req.environment tpl.default_environment;
  team = or_default req.team tpl.default_team;
  tags = if is_empty req.tags then tpl.default_tags else req.tags;
}

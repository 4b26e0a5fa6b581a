-- ===== src/Issuance/Resolver.antt =====
-- core/engine/issuance/resolve.go: a request is decided under its template and the policies. What the
-- store holds is a record of lookups.
use certpilot.Prelude.{
  Bool, true, false, Option, none, some, List, [], ◌∷◌, ◌++◌, Text, ◌==◌, if◌then◌else◌, Result, ok,
  err, take, ◌||◌,
}
use certpilot.Audit.Bytes.{Bytes}
use certpilot.Text.{to_lower, trim_space}
use certpilot.Policy.{CertRequest, Outside, Policy, Severity, Violation, block, is_empty}
use certpilot.Policy.Engine.{evaluate_request}
use certpilot.Issuance.{
  CertificateTemplate, Decision, Refusal, Request, no_account, no_default_template,
  no_such_template, no_template, policy, template_disabled,
}
use certpilot.Issuance.Filled.{apply_names_and_key, apply_supplied_values}
use certpilot.Issuance.Template.{check_template}

-- What the store holds: templates by slug and by id, the provider type of a CA account, the policies.
pub record Catalog : Type 0 where
  pub by_slug : Bytes → Option CertificateTemplate
  pub by_id : Bytes → Option CertificateTemplate
  pub provider_of : Text → Option Bytes
  pub policies : List Policy

pub without_dashes : Bytes → Bytes
without_dashes [] = []
without_dashes (c ∷ cs) = let rest = without_dashes cs in if c == b'-' then rest else c ∷ rest

-- "default-" and the first eight characters of the account.
pub default_slug : Bytes → Bytes
unfolding without_dashes
default_slug ca_account_id =
    (b'd' ∷ b'e' ∷ b'f' ∷ b'a' ∷ b'u' ∷ b'l' ∷ b't' ∷ b'-' ∷ [])
    ++ take 8 (to_lower (without_dashes ca_account_id))

unfoldable pub live : CertificateTemplate → Result Refusal CertificateTemplate
live tpl = if tpl.is_enabled then ok tpl else err template_disabled

unfoldable pub live_or : Refusal → Option CertificateTemplate → Result Refusal CertificateTemplate
unfolding live
live_or missing none = err missing
live_or missing (some tpl) = live tpl

-- `template`: the template of a request.
unfoldable pub template : Catalog → Request → Result Refusal CertificateTemplate
unfolding default_slug live_or live
template c req =
    let ref = trim_space req.template_ref in
    if is_empty ref
    then if is_empty req.ca_account_id
      then err no_template
      else live_or no_default_template (c.by_slug (default_slug req.ca_account_id))
    else elim (c.by_slug ref) [
      | some tpl ↦ live tpl
      | none ↦ live_or no_such_template (c.by_id ref)
    ]

unfoldable pub is_block : Severity → Bool
is_block block = true
is_block _ = false

unfoldable pub any_block : List Violation → Bool
unfolding is_block
any_block [] = false
any_block (v ∷ vs) = is_block v.severity || any_block vs

unfoldable pub policy_request : Decision → Bytes → CertRequest
policy_request d provider = record {
  common_name = d.common_name;
  domains = d.domains;
  key_type = d.key_type;
  key_size = d.key_size;
  validity_days = d.validity_days;
  ca_provider_type = provider;
}

-- The last rung: the policies.
unfoldable pub judged : Outside → Catalog → Bytes → Decision → Result Refusal Decision
unfolding any_block policy_request
judged o c provider d =
    let violations = evaluate_request o c.policies (policy_request d provider) in
    if any_block violations
    then err (policy violations)
    else ok (record d { violations = violations })

unfoldable pub checked :
    Outside → Catalog → Bytes → Decision → Option Refusal → Result Refusal Decision
unfolding judged
checked o c provider d (some r) = err r
checked o c provider d none = judged o c provider d

unfoldable pub decide :
    Outside
    → Catalog
    → Request
    → CertificateTemplate
    → Bytes
    → Result Refusal Decision
    → Result Refusal Decision
unfolding checked
decide o c req tpl provider (err r) = err r
decide o c req tpl provider (ok d) =
    let filled = apply_supplied_values tpl req d in
    checked o c provider filled (check_template filled tpl req)

unfoldable pub under_template :
    Outside → Catalog → Request → CertificateTemplate → Option Bytes → Result Refusal Decision
unfolding decide
under_template o c req tpl none = err no_account
under_template o c req tpl (some provider) =
    decide o c req tpl provider (apply_names_and_key tpl req)

unfoldable pub resolved_under :
    Outside → Catalog → Request → Result Refusal CertificateTemplate → Result Refusal Decision
unfolding under_template
resolved_under o c req (err r) = err r
resolved_under o c req (ok tpl) = under_template o c req tpl (c.provider_of tpl.ca_account_id)

unfoldable pub resolve : Outside → Catalog → Request → Result Refusal Decision
unfolding resolved_under template
resolve o c req = resolved_under o c req (template c req)

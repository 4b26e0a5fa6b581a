-- ===== src/Issuance/Granted.antt =====
-- core/engine/issuance/resolve.go: what holds of every decision that Resolve grants.
use certpilot.Text.{trim_space}
use certpilot.Prelude.{
  ◌≡◌, ◌≢◌, refl, ap, subst, ◌∙◌, inl, inr, arith, Bool-cases, true, false, Option, Option-cases,
  none, some, List, [], ◌∷◌, ◌++◌, All, Result, ok, err, ok_injective, if◌then◌else◌,
}
use certpilot.Audit.Bytes.{Bytes}
use certpilot.Policy.{CertRequest, Outside, Policy, Violation, block, is_empty}
use certpilot.Policy.Engine.{applies, evaluate_policy, evaluate_request}
use certpilot.Policy.Request.{Complies, Judges, applies_iff, judge_as_iff}
use certpilot.Policy.Violations.{IsOf, judge_as-IsOf}
use certpilot.Issuance.{
  CertificateTemplate, Decision, Refusal, Request, no_default_template, no_such_template,
}
use certpilot.Issuance.Filled.{apply_names_and_key, apply_supplied_values}
use certpilot.Issuance.Template.{check_template, check_key, check_names, check_lifetime}
use certpilot.Issuance.Demands.{Permitted, check_template_iff}
use certpilot.Issuance.Resolver.{
  Catalog, any_block, checked, decide, is_block, judged, policy_request, resolve, resolved_under,
  template, under_template, live, live_or, default_slug,
}

-- What a grant rests on: a template of the store that is enabled, demands met, and blocking policies met.
pub record Grant (o : Outside) (c : Catalog) (req : Request) (d : Decision) : Type 0 where
  pub tpl : CertificateTemplate
  pub provider : Bytes
  pub found : template c req ≡ ok tpl
  pub enabled : tpl.is_enabled ≡ true
  pub account : c.provider_of tpl.ca_account_id ≡ some provider
  pub permitted : Permitted d tpl req
  pub complies :
      All
        (λ p.
          p.severity ≡ block
          → Judges p (policy_request d provider)
          → Complies o p (policy_request d provider))
        c.policies
  pub reported : d.violations ≡ evaluate_request o c.policies (policy_request d provider)

any_block-append :
    (xs ys : List Violation)
    → any_block (xs ++ ys) ≡ false
    → (any_block xs ≡ false) × (any_block ys ≡ false)
unfolding any_block
any_block-append [] ys h = (refl, h)
any_block-append (x ∷ xs) ys h =
    let rest = any_block-append xs ys (ground (arith, h)) in (ground (arith, h, rest.0), rest.1)

-- The violations of one blocking policy: there are none if none of them blocks.
unblocked_is_empty :
    (p : Policy) (vs : List Violation)
    → p.severity ≡ block
    → All (IsOf p) vs
    → any_block vs ≡ false
    → vs ≡ []
unfolding any_block is_block
unblocked_is_empty p [] s h b = refl
unblocked_is_empty p (v ∷ vs) s h b =
    let severe : v.severity ≡ block = h.0.2 ∙ s in
    let blocks : is_block v.severity ≡ true = ap is_block severe in
    absurd (ground (arith, blocks, b))

unblocked-Complies :
    (o : Outside) (req : CertRequest) (policies : List Policy)
    → o.rsa ≢ o.ecdsa
    → any_block (evaluate_request o policies req) ≡ false
    → All (λ p. p.severity ≡ block → Judges p req → Complies o p req) policies
unfolding evaluate_request evaluate_policy
unblocked-Complies o req [] distinct h = tt
unblocked-Complies o req (p ∷ policies) distinct h =
    let (here, rest) =
      any_block-append (if applies o p req then evaluate_policy o p req else [])
        (evaluate_request o policies req) h in
    (
      λ severe judges.
          let hit = (applies_iff o req p).1 judges in
          (judge_as_iff o req p p.rule_type distinct).0
            (unblocked_is_empty p _ severe (judge_as-IsOf o p req p.rule_type) (rw (hit) at here)),
      unblocked-Complies o req policies distinct rest,
    )

live_is_enabled :
    (tpl : CertificateTemplate) {t : CertificateTemplate} → live tpl ≡ ok t → t.is_enabled ≡ true
unfolding live
live_is_enabled tpl {t} h = elim (Bool-cases tpl.is_enabled) [
  | inl e ↦ subst (λ u. u.is_enabled ≡ true) (ok_injective (rw (e) at h)) refl
  | inr e ↦ let bad = rw (e) at h in cc
]

live_or_is_enabled :
    (missing : Refusal) (found : Option CertificateTemplate) {t : CertificateTemplate}
    → live_or missing found ≡ ok t
    → t.is_enabled ≡ true
unfolding live_or
live_or_is_enabled missing none h = cc
live_or_is_enabled missing (some tpl) h = live_is_enabled tpl h

template-live :
    (c : Catalog) (req : Request) {t : CertificateTemplate}
    → template c req ≡ ok t
    → t.is_enabled ≡ true
unfolding template
template-live c req h = elim (Bool-cases (is_empty (trim_space req.template_ref))) [
  | inl e ↦ elim (Bool-cases (is_empty req.ca_account_id)) [
    | inl f ↦ let bad = rw (e, f) at h in cc
    | inr f ↦
        live_or_is_enabled no_default_template (c.by_slug (default_slug req.ca_account_id))
          (rw (e, f) at h)
  ]
  | inr e ↦ elim (Option-cases (c.by_slug (trim_space req.template_ref))) [
    | inl f ↦
        live_or_is_enabled no_such_template (c.by_id (trim_space req.template_ref)) (rw (e, f) at h)
    | inr (tpl, f) ↦ live_is_enabled tpl (rw (e, f) at h)
  ]
]

err≢ok : {r : Refusal} {d : Decision} → ◌≡◌ {A = Result Refusal Decision} (err r) (ok d) → ⊥
err≢ok h = cc

module _ (o : Outside) (c : Catalog) (req : Request) (distinct : o.rsa ≢ o.ecdsa) where
  judged-Grant :
      (tpl : CertificateTemplate) (provider : Bytes) (d e : Decision)
      → template c req ≡ ok tpl
      → c.provider_of tpl.ca_account_id ≡ some provider
      → check_template d tpl req ≡ none
      → judged o c provider d ≡ ok e
      → Grant o c req e
  unfolding judged policy_request check_template check_key check_names check_lifetime
  judged-Grant tpl provider d e found account passed h =
      let violations = evaluate_request o c.policies (policy_request d provider) in
      elim (Bool-cases (any_block violations)) [
        | inl blocked ↦ absurd (err≢ok (rw (blocked) at h))
        | inr clear ↦
            let granted : Decision = record d { violations = violations } in
            let same : granted ≡ e = ok_injective (rw (clear) at h) in
            subst (Grant o c req) same (record {
              tpl = tpl;
              provider = provider;
              found = found;
              enabled = template-live c req found;
              account = account;
              permitted = (check_template_iff granted tpl req).0 passed;
              complies = unblocked-Complies o (policy_request d provider) c.policies distinct clear;
              reported = refl;
            })
      ]

  decide-Grant :
      (tpl : CertificateTemplate) (provider : Bytes) (named : Result Refusal Decision)
      (e : Decision)
      → template c req ≡ ok tpl
      → c.provider_of tpl.ca_account_id ≡ some provider
      → decide o c req tpl provider named ≡ ok e
      → Grant o c req e
  unfolding decide checked
  decide-Grant tpl provider (err r) e found account h = absurd (err≢ok h)
  decide-Grant tpl provider (ok d) e found account h =
      let filled = apply_supplied_values tpl req d in
      elim (Option-cases (check_template filled tpl req)) [
        | inl passed ↦ judged-Grant tpl provider filled e found account passed (rw (passed) at h)
        | inr (r, stopped) ↦ absurd (err≢ok (rw (stopped) at h))
      ]

  under_template-Grant :
      (found : Result Refusal CertificateTemplate) (e : Decision)
      → template c req ≡ found
      → resolved_under o c req found ≡ ok e
      → Grant o c req e
  unfolding resolved_under under_template
  under_template-Grant (err r) e found h = absurd (err≢ok h)
  under_template-Grant (ok tpl) e found h = elim (Option-cases (c.provider_of tpl.ca_account_id)) [
    | inl none_there ↦ absurd (err≢ok (rw (none_there) at h))
    | inr (provider, account) ↦
        decide-Grant tpl provider (apply_names_and_key tpl req) e found account (rw (account) at h)
  ]

-- With the names of RSA and of ECDSA distinct, every decision that Resolve grants rests on the template that
-- the request names or falls back to, which is enabled, and on its CA account, meets everything that the template demands, and
-- meets every enabled policy of severity BLOCK that judges it; the violations of the other policies are in
-- the decision.
pub resolve-Grant :
    (o : Outside) (c : Catalog) (req : Request) (d : Decision)
    → o.rsa ≢ o.ecdsa
    → resolve o c req ≡ ok d
    → Grant o c req d
unfolding resolve
resolve-Grant o c req d distinct h = under_template-Grant o c req distinct (template c req) d refl h

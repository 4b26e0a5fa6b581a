-- ===== src/Policy/Request.antt =====
-- core/engine/policy/engine.go: EvaluateRequest, against what the policies demand.
use certpilot.Prelude.{
  ◌≡◌, ◌≢◌, ◌↔◌, ◌⊎◌, refl, inl, inr, Bool-cases, true, List, [], ◌∷◌, arith, All, Option, none,
  some,
}
use certpilot.Policy.{
  CertRequest, Outside, Policy, RuleType, Violation, judge_ca_restriction, judge_key_size,
  judge_key_type, judge_max_lifetime, normal_name,
}
use certpilot.Policy.Engine.{
  applies, decoded, evaluate_policy, evaluate_request, judge_as, judge_naming,
}
use certpilot.Policy.Domains.{Any, Matches, matches_domain_pattern_iff}
use certpilot.Policy.Rules.{
  MeetsCa, MeetsKeySize, MeetsKeyType, MeetsLifetime, fail≢empty, is_empty_iff,
  judge_ca_restriction_iff, judge_key_size_iff, judge_key_type_iff, judge_max_lifetime_iff,
}
use certpilot.Policy.Naming.{MeetsNaming, append-empty_iff, judge_naming_iff}

-- A configuration that does not parse is met by nothing.
abbrev Parses : {A : Type 0} → (A → Type 0) → Option A → Type 0
Parses P none = ⊥
Parses P (some cfg) = P cfg

-- What a policy of a kind demands: nothing meets a kind that cannot be evaluated, nor a demand for approval.
abbrev CompliesAs : RuleType → Outside → Policy → CertRequest → Type 0
CompliesAs RuleType.key_size o p req = Parses (MeetsKeySize o req) (o.key_size_config p.rule_config)
CompliesAs RuleType.key_type o p req = Parses (MeetsKeyType o req) (o.key_type_config p.rule_config)
CompliesAs RuleType.max_lifetime o p req =
    Parses (MeetsLifetime req) (o.max_lifetime_config p.rule_config)
CompliesAs RuleType.ca_restriction o p req =
    Parses (MeetsCa req) (o.ca_restriction_config p.rule_config)
CompliesAs RuleType.naming o p req = Parses (MeetsNaming o req) (o.naming_config p.rule_config)
CompliesAs RuleType.approval_required o p req = ⊥
CompliesAs (RuleType.unknown t) o p req = ⊥

abbrev pub Complies : Outside → Policy → CertRequest → Type 0
Complies o p req = CompliesAs p.rule_type o p req

-- The requests that a policy judges: all of them without a pattern, else those with a name that it matches.
abbrev pub Judges : Policy → CertRequest → Type 0
Judges p req =
    (p.is_enabled ≡ true)
    × ((p.domain_pattern ≡ [])
        ⊎ Any (λ d. Matches (normal_name p.domain_pattern) (normal_name d)) req.domains)

module _ (o : Outside) (req : CertRequest) where
  decoded_iff :
      {A : Type 0} (p : Policy) (m : Option A) (judge : A → List Violation) (P : A → Type 0)
      → ((cfg : A) → (judge cfg ≡ []) ↔ P cfg)
      → (decoded o p m judge ≡ []) ↔ Parses P m
  unfolding decoded
  decoded_iff p none judge P f = (λ h. fail≢empty p _ h, λ h. absurd h)
  decoded_iff p (some cfg) judge P f = f cfg

  pub judge_as_iff :
      (p : Policy) (kind : RuleType)
      → o.rsa ≢ o.ecdsa
      → (judge_as o kind p req ≡ []) ↔ CompliesAs kind o p req
  unfolding judge_as
  judge_as_iff p RuleType.key_size h =
      decoded_iff p _ (judge_key_size o p req) (MeetsKeySize o req)
        (λ cfg. judge_key_size_iff o p req cfg h)
  judge_as_iff p RuleType.key_type h =
      decoded_iff p _ (judge_key_type o p req) (MeetsKeyType o req) (judge_key_type_iff o p req)
  judge_as_iff p RuleType.max_lifetime h =
      decoded_iff p _ (judge_max_lifetime o p req) (MeetsLifetime req)
        (judge_max_lifetime_iff o p req)
  judge_as_iff p RuleType.ca_restriction h =
      decoded_iff p _ (judge_ca_restriction o p req) (MeetsCa req)
        (judge_ca_restriction_iff o p req)
  judge_as_iff p RuleType.naming h =
      decoded_iff p _ (judge_naming o p req) (MeetsNaming o req)
        (λ cfg. judge_naming_iff o p cfg req)
  judge_as_iff p RuleType.approval_required h = (λ e. fail≢empty p _ e, λ e. absurd e)
  judge_as_iff p (RuleType.unknown t) h = (λ e. fail≢empty p _ e, λ e. absurd e)

  pub applies_iff : (p : Policy) → (applies o p req ≡ true) ↔ Judges p req
  unfolding applies
  applies_iff p =
      let pattern = matches_domain_pattern_iff req.domains p.domain_pattern in
      let empty = is_empty_iff p.domain_pattern in ground (arith, pattern, empty)

  -- With the names of RSA and of ECDSA distinct, a request has no violation exactly if it meets every
  -- enabled policy whose domain pattern is empty or matches one of its names: the policy's configuration
  -- parses and constrains something, and the request is within it; an approval rule and a rule of an unknown
  -- kind are met by nothing.
  pub evaluate_request_iff :
      (policies : List Policy)
      → o.rsa ≢ o.ecdsa
      → (evaluate_request o policies req ≡ []) ↔ All (λ p. Judges p req → Complies o p req) policies
  unfolding evaluate_request evaluate_policy
  evaluate_request_iff [] h = (λ e. tt, λ e. refl)
  evaluate_request_iff (p ∷ policies) h =
      let here = judge_as_iff p p.rule_type h in
      let when = applies_iff p in
      let rest = evaluate_request_iff policies h in
      elim (Bool-cases (applies o p req)) [
        | inl e ↦
            let split =
              append-empty_iff (judge_as o p.rule_type p req) (evaluate_request o policies req) in
            ground (arith, here, when, rest, e, split)
        | inr e ↦ ground (arith, when, rest, e)
      ]

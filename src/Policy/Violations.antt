-- ===== src/Policy/Violations.antt =====
-- core/engine/policy/engine.go: the violations that EvaluateRequest reports, and the policies they come from.
use certpilot.Prelude.{
  ◌≡◌, refl, inl, inr, Bool, Bool-cases, true, false, ◌&&◌, List, [], ◌∷◌, ◌++◌, arith,
  if◌then◌else◌, All, All-map, All-append, Option, none, some, not, pos, ltb_ℤ, length, is_none,
}
use certpilot.Audit.Bytes.{Bytes}
use certpilot.Policy.{
  CaRestrictionConfig, CertRequest, KeySizeConfig, KeyTypeConfig, MaxLifetimeConfig, NamingConfig,
  Message, Outside, Policy, RuleType, Violation, fail, is_empty, judge_ca_restriction,
  judge_key_size, judge_key_type, judge_max_lifetime, matches_domain_pattern, normal_name,
  is_positive, no_names, too_many_names, does_not_parse, needs_approval, cannot_evaluate,
}
use certpilot.Policy.Engine.{
  applies, decoded, evaluate_policy, evaluate_request, judge_as, judge_naming, judge_name,
  judge_names, judge_patterns,
}
use certpilot.Policy.Domains.{Any, Any-append_left, Any-append_right}
use certpilot.Policy.Request.{Judges, applies_iff}

-- A policy that this build cannot evaluate, or that it has no way to satisfy.
abbrev CannotJudgeAs : RuleType → Outside → Policy → Type 0
CannotJudgeAs RuleType.key_size o p = o.key_size_config p.rule_config ≡ none
CannotJudgeAs RuleType.key_type o p = o.key_type_config p.rule_config ≡ none
CannotJudgeAs RuleType.max_lifetime o p = o.max_lifetime_config p.rule_config ≡ none
CannotJudgeAs RuleType.ca_restriction o p = o.ca_restriction_config p.rule_config ≡ none
CannotJudgeAs RuleType.naming o p = o.naming_config p.rule_config ≡ none
CannotJudgeAs RuleType.approval_required o p = Unit
CannotJudgeAs (RuleType.unknown t) o p = Unit

abbrev pub CannotJudge : Outside → Policy → Type 0
CannotJudge o p = CannotJudgeAs p.rule_type o p

-- The violation carries the policy's name, kind and severity.
abbrev pub IsOf : Policy → Violation → Type 0
IsOf p v = (v.policy_name ≡ p.name) × (v.rule_type ≡ p.rule_type) × (v.severity ≡ p.severity)

fail-IsOf : (p : Policy) (m : Message) → All (IsOf p) (fail p m)
unfolding fail
fail-IsOf p m = ((refl, refl, refl), tt)

either-All :
    {A : Type 0} (P : A → Type 0) (c : Bool) (xs ys : List A)
    → All P xs
    → All P ys
    → All P (if c then xs else ys)
either-All P true xs ys hx hy = hx
either-All P false xs ys hx hy = hy

when-IsOf : (p : Policy) (c : Bool) (m : Message) → All (IsOf p) (if c then fail p m else [])
when-IsOf p c m = either-All (IsOf p) c (fail p m) [] (fail-IsOf p m) tt

module _ (o : Outside) (p : Policy) (req : CertRequest) where
  judge_key_size-IsOf : (cfg : KeySizeConfig) → All (IsOf p) (judge_key_size o p req cfg)
  unfolding judge_key_size fail
  judge_key_size-IsOf cfg = ground arith

  judge_key_type-IsOf : (cfg : KeyTypeConfig) → All (IsOf p) (judge_key_type o p req cfg)
  unfolding judge_key_type fail
  judge_key_type-IsOf cfg = ground arith

  judge_max_lifetime-IsOf :
      (cfg : MaxLifetimeConfig) → All (IsOf p) (judge_max_lifetime o p req cfg)
  unfolding judge_max_lifetime fail
  judge_max_lifetime-IsOf cfg = ground arith

  judge_ca_restriction-IsOf :
      (cfg : CaRestrictionConfig) → All (IsOf p) (judge_ca_restriction o p req cfg)
  unfolding judge_ca_restriction fail
  judge_ca_restriction-IsOf cfg = ground arith

  judge_patterns-IsOf :
      (name low : Bytes) (patterns : List Bytes)
      → All (IsOf p) (judge_patterns o p name low patterns)
  unfolding judge_patterns
  judge_patterns-IsOf name low [] = tt
  judge_patterns-IsOf name low (pattern ∷ patterns) =
      All-append (IsOf p) _ (judge_patterns o p name low patterns)
        (when-IsOf p (matches_domain_pattern (low ∷ []) pattern) _)
        (judge_patterns-IsOf name low patterns)

  judge_name-IsOf :
      (cfg : NamingConfig) (name low : Bytes) → All (IsOf p) (judge_name o p cfg name low)
  unfolding judge_name
  judge_name-IsOf cfg name [] = tt
  judge_name-IsOf cfg name (c ∷ cs) = All-append (IsOf p) _ _ (when-IsOf p _ _) (
      All-append (IsOf p) _ _ (judge_patterns-IsOf name (c ∷ cs) cfg.forbidden_patterns)
        (when-IsOf p _ _))

  judge_names-IsOf :
      (cfg : NamingConfig) (names : List Bytes) → All (IsOf p) (judge_names o p cfg names)
  unfolding judge_names
  judge_names-IsOf cfg [] = tt
  judge_names-IsOf cfg (name ∷ names) =
      All-append (IsOf p) (judge_name o p cfg name (normal_name name)) (judge_names o p cfg names)
        (judge_name-IsOf cfg name (normal_name name)) (judge_names-IsOf cfg names)

  judge_naming-IsOf : (cfg : NamingConfig) → All (IsOf p) (judge_naming o p req cfg)
  unfolding judge_naming
  judge_naming-IsOf cfg =
      either-All (IsOf p)
        (is_empty cfg.allowed_suffixes
          && is_empty cfg.forbidden_patterns
          && is_none cfg.allow_wildcards
          && not (is_positive cfg.max_sans))
        (fail p no_names)
        ((if is_positive cfg.max_sans && ltb_ℤ cfg.max_sans (pos (length req.domains))
            then fail p (too_many_names (length req.domains) cfg.max_sans)
            else [])
          ++ judge_names o p cfg req.domains)
        (fail-IsOf p no_names)
        (All-append (IsOf p) _ _ (when-IsOf p _ _) (judge_names-IsOf cfg req.domains))

  decoded-IsOf :
      {A : Type 0} (m : Option A) (judge : A → List Violation)
      → ((cfg : A) → All (IsOf p) (judge cfg))
      → All (IsOf p) (decoded o p m judge)
  unfolding decoded
  decoded-IsOf none judge h = fail-IsOf p does_not_parse
  decoded-IsOf (some cfg) judge h = h cfg

  pub judge_as-IsOf : (kind : RuleType) → All (IsOf p) (judge_as o kind p req)
  unfolding judge_as
  judge_as-IsOf RuleType.key_size =
      decoded-IsOf (o.key_size_config p.rule_config) _ judge_key_size-IsOf
  judge_as-IsOf RuleType.key_type =
      decoded-IsOf (o.key_type_config p.rule_config) _ judge_key_type-IsOf
  judge_as-IsOf RuleType.max_lifetime =
      decoded-IsOf (o.max_lifetime_config p.rule_config) _ judge_max_lifetime-IsOf
  judge_as-IsOf RuleType.ca_restriction =
      decoded-IsOf (o.ca_restriction_config p.rule_config) _ judge_ca_restriction-IsOf
  judge_as-IsOf RuleType.naming = decoded-IsOf (o.naming_config p.rule_config) _ judge_naming-IsOf
  judge_as-IsOf RuleType.approval_required = fail-IsOf p needs_approval
  judge_as-IsOf (RuleType.unknown t) = fail-IsOf p cannot_evaluate

  decoded_none :
      {A : Type 0} (m : Option A) (judge : A → List Violation)
      → m ≡ none
      → Any (IsOf p) (decoded o p m judge)
  unfolding decoded fail
  decoded_none none judge h = inl (refl, refl, refl)
  decoded_none (some cfg) judge h = cc

  judge_as-CannotJudge :
      (kind : RuleType) → CannotJudgeAs kind o p → Any (IsOf p) (judge_as o kind p req)
  unfolding judge_as fail
  judge_as-CannotJudge RuleType.key_size h = decoded_none _ _ h
  judge_as-CannotJudge RuleType.key_type h = decoded_none _ _ h
  judge_as-CannotJudge RuleType.max_lifetime h = decoded_none _ _ h
  judge_as-CannotJudge RuleType.ca_restriction h = decoded_none _ _ h
  judge_as-CannotJudge RuleType.naming h = decoded_none _ _ h
  judge_as-CannotJudge RuleType.approval_required h = inl (refl, refl, refl)
  judge_as-CannotJudge (RuleType.unknown t) h = inl (refl, refl, refl)

module _ (o : Outside) (req : CertRequest) where
  -- Every violation carries the name, the kind and the severity of a policy of the list that judges the
  -- request.
  pub evaluate_request-IsOf :
      (policies : List Policy)
      → All (λ v. Any (λ p. Judges p req × IsOf p v) policies) (evaluate_request o policies req)
  unfolding evaluate_request evaluate_policy
  evaluate_request-IsOf [] = tt
  evaluate_request-IsOf (p ∷ policies) =
      let rest =
        All-map (λ v. Any (λ q. Judges q req × IsOf q v) policies)
          (λ v. Any (λ q. Judges q req × IsOf q v) (p ∷ policies)) (evaluate_request o policies req)
          (λ v h. inr h) (evaluate_request-IsOf policies) in
      elim (Bool-cases (applies o p req)) [
        | inl e ↦
            let here =
              All-map (IsOf p) (λ v. Any (λ q. Judges q req × IsOf q v) (p ∷ policies))
                (judge_as o p.rule_type p req) (λ v h. inl ((applies_iff o req p).0 e, h))
                (judge_as-IsOf o p req p.rule_type) in
            rw (e)
              (All-append (λ v. Any (λ q. Judges q req × IsOf q v) (p ∷ policies)) _ _ here rest)
        | inr e ↦ rw (e) rest
      ]

  -- An enabled policy that judges the request and that the build cannot evaluate - its kind is unknown, it
  -- asks for an approval, or its configuration does not parse - is reported in its own name and at its own
  -- severity, wherever it stands among the policies.
  pub evaluate_request-CannotJudge :
      (before after : List Policy) (p : Policy)
      → Judges p req
      → CannotJudge o p
      → Any (IsOf p) (evaluate_request o (before ++ p ∷ after) req)
  unfolding evaluate_request evaluate_policy
  evaluate_request-CannotJudge [] after p judges cannot =
      let e = (applies_iff o req p).1 judges in
      rw (e) (
        Any-append_left (IsOf p) (judge_as o p.rule_type p req) (evaluate_request o after req)
          (judge_as-CannotJudge o p req p.rule_type cannot))
  evaluate_request-CannotJudge (q ∷ before) after p judges cannot =
      Any-append_right (IsOf p) _ (evaluate_request o (before ++ p ∷ after) req)
        (evaluate_request-CannotJudge before after p judges cannot)

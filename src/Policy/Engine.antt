-- ===== src/Policy/Engine.antt =====
-- core/engine/policy/engine.go: the naming rule, the switch over the kinds of rule, and EvaluateRequest.
use certpilot.Prelude.{
  Bool, false, not, ◌&&◌, ◌||◌, Option, none, some, List, [], ◌∷◌, ◌++◌, length, is_none,
  if◌then◌else◌, pos, ltb_ℤ,
}
use certpilot.Audit.Bytes.{Bytes}
use certpilot.Text.{has_prefix}
use certpilot.Policy.{
  CertRequest, NamingConfig, Outside, Policy, RuleType, Violation, cannot_evaluate, does_not_parse,
  fail, forbidden_name, has_allowed_suffix, is_empty, is_positive, judge_ca_restriction,
  judge_key_size, judge_key_type, judge_max_lifetime, matches_domain_pattern, needs_approval,
  no_names, normal_name, outside_suffixes, too_many_names, wildcard_name,
}

module _ (o : Outside) where
  unfoldable pub bans_wildcards : Option Bool → Bool
  bans_wildcards none = false
  bans_wildcards (some allowed) = not allowed

  -- The forbidden patterns that the name matches, each with a violation.
  unfoldable pub judge_patterns : Policy → Bytes → Bytes → List Bytes → List Violation
  unfolding fail matches_domain_pattern
  judge_patterns p name low [] = []
  judge_patterns p name low (pattern ∷ patterns) =
      (if matches_domain_pattern (low ∷ []) pattern
        then fail p (forbidden_name name pattern)
        else [])
      ++ judge_patterns p name low patterns

  -- One turn of the loop over the names.
  unfoldable pub judge_name : Policy → NamingConfig → Bytes → Bytes → List Violation
  unfolding bans_wildcards judge_patterns has_allowed_suffix fail
  judge_name p cfg name low =
      if is_empty low
      then []
      else (if bans_wildcards cfg.allow_wildcards && has_prefix low (b'*' ∷ b'.' ∷ [])
          then fail p (wildcard_name name)
          else [])
        ++ (judge_patterns p name low cfg.forbidden_patterns
            ++ (if not (is_empty cfg.allowed_suffixes)
                  && not (has_allowed_suffix low cfg.allowed_suffixes)
                then fail p (outside_suffixes name)
                else []))

  unfoldable pub judge_names : Policy → NamingConfig → List Bytes → List Violation
  unfolding judge_name normal_name
  judge_names p cfg [] = []
  judge_names p cfg (name ∷ names) =
      judge_name p cfg name (normal_name name) ++ judge_names p cfg names

  unfoldable pub judge_naming : Policy → CertRequest → NamingConfig → List Violation
  unfolding judge_names fail
  judge_naming p req cfg =
      if is_empty cfg.allowed_suffixes
        && is_empty cfg.forbidden_patterns
        && is_none cfg.allow_wildcards
        && not (is_positive cfg.max_sans)
      then fail p no_names
      else (if is_positive cfg.max_sans && ltb_ℤ cfg.max_sans (pos (length req.domains))
          then fail p (too_many_names (length req.domains) cfg.max_sans)
          else [])
        ++ judge_names p cfg req.domains

  -- `decode`: a text that does not parse is a violation.
  unfoldable pub decoded : {A : Type 0} → Policy → Option A → (A → List Violation) → List Violation
  unfolding fail
  decoded p none judge = fail p does_not_parse
  decoded p (some cfg) judge = judge cfg

  unfoldable pub judge_as : RuleType → Policy → CertRequest → List Violation
  unfolding decoded judge_key_size judge_key_type judge_max_lifetime judge_ca_restriction
      judge_naming fail
  judge_as RuleType.key_size p req =
      decoded p (o.key_size_config p.rule_config) (judge_key_size o p req)
  judge_as RuleType.key_type p req =
      decoded p (o.key_type_config p.rule_config) (judge_key_type o p req)
  judge_as RuleType.max_lifetime p req =
      decoded p (o.max_lifetime_config p.rule_config) (judge_max_lifetime o p req)
  judge_as RuleType.ca_restriction p req =
      decoded p (o.ca_restriction_config p.rule_config) (judge_ca_restriction o p req)
  judge_as RuleType.naming p req = decoded p (o.naming_config p.rule_config) (judge_naming p req)
  judge_as RuleType.approval_required p req = fail p needs_approval
  judge_as (RuleType.unknown t) p req = fail p cannot_evaluate

  unfoldable pub evaluate_policy : Policy → CertRequest → List Violation
  unfolding judge_as
  evaluate_policy p req = judge_as p.rule_type p req

  -- Whether a policy judges the request at all.
  unfoldable pub applies : Policy → CertRequest → Bool
  unfolding matches_domain_pattern
  applies p req =
      p.is_enabled
      && (is_empty p.domain_pattern || matches_domain_pattern req.domains p.domain_pattern)

  unfoldable pub evaluate_request : List Policy → CertRequest → List Violation
  unfolding applies evaluate_policy
  evaluate_request [] req = []
  evaluate_request (p ∷ policies) req =
      (if applies p req then evaluate_policy p req else []) ++ evaluate_request policies req

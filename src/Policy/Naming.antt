-- ===== src/Policy/Naming.antt =====
-- core/engine/policy/engine.go: what the naming rule demands of the names of a request.
use certpilot.Prelude.{
  ◌≡◌, ◌≢◌, ◌↔◌, ◌⊎◌, refl, inl, Bool, true, false, not, ◌&&◌, List, [], ◌∷◌, ◌++◌, arith,
  if◌then◌else◌, pos, ltb_ℤ, All, Option, none, some, is_none, length,
}
use certpilot.Audit.Bytes.{Bytes}
use certpilot.Text.{has_prefix}
use certpilot.Policy.{
  CertRequest, Message, NamingConfig, Outside, Policy, Violation, clean_suffix, fail,
  has_allowed_suffix, is_empty, is_positive, matches_domain_pattern, normal_name, forbidden_name,
  outside_suffixes, wildcard_name, too_many_names, no_names,
}
use certpilot.Policy.Engine.{bans_wildcards, judge_name, judge_names, judge_naming, judge_patterns}
use certpilot.Policy.Domains.{
  Any, IsUnder, Matches, has_allowed_suffix_iff, matches_domain_pattern_iff,
}
use certpilot.Policy.Rules.{AtMost, IsPositive, fail≢empty, is_empty_iff}

-- No forbidden pattern stands for the name.
abbrev pub IsForbidden : NamingConfig → Bytes → Type 0
IsForbidden cfg low =
    Any (λ pattern. Matches (normal_name pattern) (normal_name low)) cfg.forbidden_patterns

abbrev pub IsInZone : NamingConfig → Bytes → Type 0
IsInZone cfg low =
    Any (λ s. (clean_suffix s ≢ []) × IsUnder low (clean_suffix s)) cfg.allowed_suffixes

-- A name that is not blank is no wildcard where these are banned, is not forbidden, and lies in an allowed zone
-- where zones are given.
abbrev pub MeetsName : Outside → NamingConfig → Bytes → Type 0
MeetsName o cfg low =
    (low ≡ [])
    ⊎ ((bans_wildcards o cfg.allow_wildcards ≡ true → has_prefix low (b'*' ∷ b'.' ∷ []) ≡ false)
        × (IsForbidden cfg low → ⊥)
        × ((cfg.allowed_suffixes ≡ []) ⊎ IsInZone cfg low))

abbrev pub MeetsNaming : Outside → CertRequest → NamingConfig → Type 0
MeetsNaming o req cfg =
    ((cfg.allowed_suffixes ≢ [])
      ⊎ ((cfg.forbidden_patterns ≢ []) ⊎ ((cfg.allow_wildcards ≢ none) ⊎ IsPositive cfg.max_sans)))
    × (IsPositive cfg.max_sans → AtMost (pos (length req.domains)) cfg.max_sans)
    × All (λ name. MeetsName o cfg (normal_name name)) req.domains

pub append-empty_iff : {A : Type 0} (xs ys : List A) → (xs ++ ys ≡ []) ↔ ((xs ≡ []) × (ys ≡ []))
append-empty_iff [] ys = (λ h. (refl, h), λ h. h.1)
append-empty_iff (x ∷ xs) ys = (λ h. cc, λ h. cc)

is_none_iff : {A : Type 0} (m : Option A) → (is_none m ≡ true) ↔ (m ≡ none)
is_none_iff none = (λ h. refl, λ h. refl)
is_none_iff (some x) = (λ h. cc, λ h. cc)

module _ (o : Outside) (p : Policy) (cfg : NamingConfig) where
  fail_if_iff :
      (c : Bool) (m : Message) (rest : List Violation)
      → ((if c then fail p m else []) ++ rest ≡ []) ↔ ((c ≡ false) × (rest ≡ []))
  unfolding fail
  fail_if_iff true m rest = (λ h. cc, λ h. cc)
  fail_if_iff false m rest = (λ h. (refl, h), λ h. h.1)

  last_fail_if_iff : (c : Bool) (m : Message) → ((if c then fail p m else []) ≡ []) ↔ (c ≡ false)
  unfolding fail
  last_fail_if_iff true m = (λ h. cc, λ h. cc)
  last_fail_if_iff false m = (λ h. refl, λ h. refl)

  judge_patterns_iff :
      (name low : Bytes) (patterns : List Bytes)
      → (judge_patterns o p name low patterns ≡ [])
        ↔ (Any (λ pattern. Matches (normal_name pattern) (normal_name low)) patterns → ⊥)
  unfolding judge_patterns
  judge_patterns_iff name low [] = (λ h e. e, λ h. refl)
  judge_patterns_iff name low (pattern ∷ patterns) =
      let first = matches_domain_pattern_iff (low ∷ []) pattern in
      let split =
        fail_if_iff (matches_domain_pattern (low ∷ []) pattern) (forbidden_name name pattern)
          (judge_patterns o p name low patterns) in
      let rest = judge_patterns_iff name low patterns in ground (arith, first, split, rest)

  judge_name_iff : (name low : Bytes) → (judge_name o p cfg name low ≡ []) ↔ MeetsName o cfg low
  unfolding judge_name
  judge_name_iff name [] = (λ h. inl refl, λ h. refl)
  judge_name_iff name (c ∷ cs) =
      let low = c ∷ cs in
      let last =
        if not (is_empty cfg.allowed_suffixes) && not (has_allowed_suffix low cfg.allowed_suffixes)
        then fail p (outside_suffixes name)
        else [] in
      let tail = judge_patterns o p name low cfg.forbidden_patterns ++ last in
      let wildcard =
        fail_if_iff (bans_wildcards o cfg.allow_wildcards && has_prefix low (b'*' ∷ b'.' ∷ []))
          (wildcard_name name) tail in
      let middle = append-empty_iff (judge_patterns o p name low cfg.forbidden_patterns) last in
      let patterns = judge_patterns_iff name low cfg.forbidden_patterns in
      let zone =
        last_fail_if_iff
          (not (is_empty cfg.allowed_suffixes) && not (has_allowed_suffix low cfg.allowed_suffixes))
          (outside_suffixes name) in
      ground (
        arith,
        wildcard,
        middle,
        patterns,
        zone,
        has_allowed_suffix_iff low cfg.allowed_suffixes,
        is_empty_iff cfg.allowed_suffixes,
      )

  judge_names_iff :
      (names : List Bytes)
      → (judge_names o p cfg names ≡ []) ↔ All (λ name. MeetsName o cfg (normal_name name)) names
  unfolding judge_names
  judge_names_iff [] = (λ h. tt, λ h. refl)
  judge_names_iff (name ∷ names) =
      let split =
        append-empty_iff (judge_name o p cfg name (normal_name name)) (judge_names o p cfg names) in
      let first = judge_name_iff name (normal_name name) in
      let rest = judge_names_iff names in
      (λ h. (first.0 (split.0 h).0, rest.0 (split.0 h).1), λ h. split.1 (first.1 h.0, rest.1 h.1))

  pub judge_naming_iff :
      (req : CertRequest) → (judge_naming o p req cfg ≡ []) ↔ MeetsNaming o req cfg
  unfolding judge_naming
  judge_naming_iff req =
      let names = judge_names_iff req.domains in
      let split =
        fail_if_iff (is_positive cfg.max_sans && ltb_ℤ cfg.max_sans (pos (length req.domains)))
          (too_many_names (length req.domains) cfg.max_sans) (judge_names o p cfg req.domains) in
      ground (
        arith,
        names,
        split,
        fail≢empty p no_names,
        is_empty_iff cfg.allowed_suffixes,
        is_empty_iff cfg.forbidden_patterns,
        is_none_iff cfg.allow_wildcards,
      )

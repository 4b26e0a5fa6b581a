-- ===== src/Policy/Rules.antt =====
-- core/engine/policy/engine.go: what each kind of rule demands of a request, apart from the naming rule.
use certpilot.Prelude.{◌≡◌, ◌≢◌, ◌↔◌, ◌⊎◌, refl, ap, true, false, List, [], ◌∷◌, arith, ℤ, ltb_ℤ}
use certpilot.Audit.Bytes.{Bytes}
use certpilot.Text.{bytes_eq_iff, equal_fold_iff, trim_space, to_lower}
use certpilot.Policy.{
  CaRestrictionConfig, CertRequest, KeySizeConfig, KeyTypeConfig, MaxLifetimeConfig, Outside,
  Policy, Message, any_name, fail, is_empty, is_positive, judge_ca_restriction, judge_key_size,
  judge_key_type, judge_max_lifetime, names_type, normalise_key_type, permits_provider, rsa_floor,
}
use certpilot.Policy.Domains.{Any, Any-map_iff, any_name_iff}

abbrev pub IsPositive : ℤ → Type 0
IsPositive n = is_positive n ≡ true

-- The first is no more than the second.
abbrev pub AtMost : ℤ → ℤ → Type 0
AtMost a b = ltb_ℤ b a ≡ false

-- A floor is set, and keys of its algorithm reach it; any size of another algorithm does.
abbrev pub MeetsKeySize : Outside → CertRequest → KeySizeConfig → Type 0
MeetsKeySize o req cfg =
    (IsPositive (rsa_floor o cfg) ⊎ IsPositive cfg.ecdsa_min_bits)
    × (normalise_key_type o req.key_type ≡ o.rsa
        → IsPositive (rsa_floor o cfg)
        → AtMost (rsa_floor o cfg) req.key_size)
    × (normalise_key_type o req.key_type ≡ o.ecdsa
        → IsPositive cfg.ecdsa_min_bits
        → AtMost cfg.ecdsa_min_bits req.key_size)

pub fail≢empty : (p : Policy) (m : Message) → fail p m ≢ []
unfolding fail
fail≢empty p m e = cc

-- The key type is one that the build supports, is not forbidden, and is allowed where types are allowed.
abbrev pub MeetsKeyType : Outside → CertRequest → KeyTypeConfig → Type 0
MeetsKeyType o req cfg =
    ((cfg.allowed_key_types ≢ []) ⊎ (cfg.forbidden_key_types ≢ []))
    × (normalise_key_type o req.key_type ≢ [])
    × (Any (λ k. normalise_key_type o k ≡ normalise_key_type o req.key_type) cfg.forbidden_key_types
        → ⊥)
    × ((cfg.allowed_key_types ≡ [])
        ⊎ Any (λ k. normalise_key_type o k ≡ normalise_key_type o req.key_type)
            cfg.allowed_key_types)

abbrev pub MeetsLifetime : CertRequest → MaxLifetimeConfig → Type 0
MeetsLifetime req cfg =
    (IsPositive cfg.max_days ⊎ IsPositive cfg.min_days)
    × (IsPositive cfg.max_days → AtMost req.validity_days cfg.max_days)
    × (IsPositive cfg.min_days
        → IsPositive req.validity_days
        → AtMost cfg.min_days req.validity_days)

abbrev pub MeetsCa : CertRequest → CaRestrictionConfig → Type 0
MeetsCa req cfg =
    Any (λ provider. to_lower (trim_space provider) ≡ to_lower req.ca_provider_type)
      cfg.allowed_providers

pub is_empty_iff {ℓ} : {A : Type ℓ} (xs : List A) → (is_empty xs ≡ true) ↔ (xs ≡ [])
is_empty_iff [] = (λ h. refl, λ h. refl)
is_empty_iff (x ∷ xs) = (λ h. cc, λ h. cc)

module _ (o : Outside) (p : Policy) (req : CertRequest) where
  pub judge_max_lifetime_iff :
      (cfg : MaxLifetimeConfig) → (judge_max_lifetime o p req cfg ≡ []) ↔ MeetsLifetime req cfg
  unfolding judge_max_lifetime fail
  judge_max_lifetime_iff cfg = ground arith

  pub judge_key_size_iff :
      (cfg : KeySizeConfig)
      → o.rsa ≢ o.ecdsa
      → (judge_key_size o p req cfg ≡ []) ↔ MeetsKeySize o req cfg
  unfolding judge_key_size fail
  judge_key_size_iff cfg distinct = ground (
    arith,
    bytes_eq_iff (normalise_key_type o req.key_type) o.rsa,
    bytes_eq_iff (normalise_key_type o req.key_type) o.ecdsa,
  )

  kinds_naming_iff :
      (requested : Bytes) (kinds : List Bytes)
      → (any_name (names_type o requested) kinds ≡ true)
        ↔ Any (λ k. normalise_key_type o k ≡ requested) kinds
  unfolding names_type
  kinds_naming_iff requested kinds =
      let any = any_name_iff (names_type o requested) kinds in
      let each =
        Any-map_iff {P = λ k. names_type o requested k ≡ true}
          {Q = λ k. normalise_key_type o k ≡ requested} kinds
          (λ k. bytes_eq_iff (normalise_key_type o k) requested) in
      (λ h. each.0 (any.0 h), λ h. any.1 (each.1 h))

  pub judge_key_type_iff :
      (cfg : KeyTypeConfig) → (judge_key_type o p req cfg ≡ []) ↔ MeetsKeyType o req cfg
  unfolding judge_key_type fail
  judge_key_type_iff cfg = ground (
    arith,
    is_empty_iff cfg.allowed_key_types,
    is_empty_iff cfg.forbidden_key_types,
    is_empty_iff (normalise_key_type o req.key_type),
    kinds_naming_iff (normalise_key_type o req.key_type) cfg.allowed_key_types,
    kinds_naming_iff (normalise_key_type o req.key_type) cfg.forbidden_key_types,
  )

  pub judge_ca_restriction_iff :
      (cfg : CaRestrictionConfig) → (judge_ca_restriction o p req cfg ≡ []) ↔ MeetsCa req cfg
  unfolding judge_ca_restriction fail permits_provider
  judge_ca_restriction_iff cfg =
      let none_listed : is_empty cfg.allowed_providers ≡ true
          → any_name (permits_provider o req.ca_provider_type) cfg.allowed_providers ≡ false =
        λ h.
          ap (any_name (permits_provider o req.ca_provider_type))
            ((is_empty_iff cfg.allowed_providers).0 h) in
      let any = any_name_iff (permits_provider o req.ca_provider_type) cfg.allowed_providers in
      let each =
        Any-map_iff {P = λ provider. permits_provider o req.ca_provider_type provider ≡ true}
          {Q = λ provider. to_lower (trim_space provider) ≡ to_lower req.ca_provider_type}
          cfg.allowed_providers
          (λ provider. equal_fold_iff (trim_space provider) req.ca_provider_type) in
      ground (arith, none_listed, any, each)

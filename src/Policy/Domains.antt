-- ===== src/Policy/Domains.antt =====
-- core/engine/policy/engine.go: domain patterns and suffixes as relations between names.
use certpilot.Prelude.{
  ◌≡◌, ◌≢◌, ◌↔◌, ◌⊎◌, refl, sym, ap, ◌∙◌, inl, inr, Bool, Bool-cases, true, List, [], ◌∷◌, ◌++◌,
  arith,
}
use certpilot.Audit.Bytes.{Bytes, bytes_eq}
use certpilot.Text.{
  bytes_eq_iff, has_prefix, has_prefix_iff, has_suffix, has_suffix_iff, trim_prefix, trim_prefix-eq,
  trim_prefix-append,
}
use certpilot.Policy.{
  any_name, clean_suffix, has_allowed_suffix, is_under, matches_domain_pattern, matches_name,
  normal_name,
}

-- Some element has the property.
abbrev pub Any {ℓ} : {A : Type ℓ} → (A → Type 0) → List A → Type 0
Any P [] = ⊥
Any P (x ∷ xs) = P x ⊎ Any P xs

pub any_name_iff :
    (test : Bytes → Bool) (ds : List Bytes)
    → (any_name test ds ≡ true) ↔ Any (λ d. test d ≡ true) ds
unfolding any_name
any_name_iff test [] = (λ h. cc, λ h. absurd h)
any_name_iff test (d ∷ ds) = (
  λ h. elim (Bool-cases (test d)) [
    | inl e ↦ inl e
    | inr e ↦ inr ((any_name_iff test ds).0 (ground (arith, e)))
  ],
  λ h. elim h [
    | inl e ↦ ground (arith, e)
    | inr rest ↦ let e = (any_name_iff test ds).1 rest in ground (arith, e)
  ],
)

pub Any-map_iff :
    {P Q : Bytes → Type 0} (ds : List Bytes) → ((d : Bytes) → P d ↔ Q d) → Any P ds ↔ Any Q ds
Any-map_iff [] f = (λ h. h, λ h. h)
Any-map_iff (d ∷ ds) f = (
  λ h. elim h [ inl p ↦ inl ((f d).0 p) | inr r ↦ inr ((Any-map_iff ds f).0 r) ],
  λ h. elim h [ inl p ↦ inl ((f d).1 p) | inr r ↦ inr ((Any-map_iff ds f).1 r) ],
)

pub Any-append_left : {A : Type 0} (P : A → Type 0) (xs ys : List A) → Any P xs → Any P (xs ++ ys)
Any-append_left P [] ys h = absurd h
Any-append_left P (x ∷ xs) ys (inl h) = inl h
Any-append_left P (x ∷ xs) ys (inr h) = inr (Any-append_left P xs ys h)

pub Any-append_right : {A : Type 0} (P : A → Type 0) (xs ys : List A) → Any P ys → Any P (xs ++ ys)
Any-append_right P [] ys h = h
Any-append_right P (x ∷ xs) ys h = inr (Any-append_right P xs ys h)

-- The zone itself, or a name below it: a label boundary stands before the suffix.
abbrev pub IsUnder : Bytes → Bytes → Type 0
IsUnder name suffix = (name ≡ suffix) ⊎ ((front : Bytes) × (name ≡ front ++ b'.' ∷ suffix))

is_under_iff :
    (name suffix : Bytes) → (is_under name suffix ≡ true) ↔ ((suffix ≢ []) × IsUnder name suffix)
unfolding is_under
is_under_iff name [] = (λ h. cc, λ h. absurd (h.0 refl))
is_under_iff name (c ∷ cs) = (
  λ h. (
    λ e. cc,
    elim (Bool-cases (bytes_eq name (c ∷ cs))) [
      | inl e ↦ inl ((bytes_eq_iff name (c ∷ cs)).0 e)
      | inr e ↦ elim (Bool-cases (has_suffix name (b'.' ∷ c ∷ cs))) [
        | inl f ↦ inr ((has_suffix_iff name (b'.' ∷ c ∷ cs)).0 f)
        | inr f ↦
            let star : has_prefix name (b'*' ∷ b'.' ∷ []) ≡ true = ground (arith, e, f) in
            let rest : bytes_eq (trim_prefix name (b'*' ∷ b'.' ∷ [])) (c ∷ cs) ≡ true =
              ground (arith, e, f) in
            inr (
              b'*' ∷ [],
              trim_prefix-eq name (b'*' ∷ b'.' ∷ []) star
                  ∙ ap (λ t. b'*' ∷ b'.' ∷ t) ((bytes_eq_iff _ (c ∷ cs)).0 rest),
            )
      ]
    ],
  ),
  λ h. elim h.1 [
    | inl e ↦ let same = (bytes_eq_iff name (c ∷ cs)).1 e in ground (arith, same)
    | inr below ↦ let found = (has_suffix_iff name (b'.' ∷ c ∷ cs)).1 below in ground (arith, found)
  ],
)

-- A name is allowed exactly if it is the zone of one of the suffixes, or a name below such a zone.
pub has_allowed_suffix_iff :
    (name : Bytes) (suffixes : List Bytes)
    → (has_allowed_suffix name suffixes ≡ true)
      ↔ Any (λ s. (clean_suffix s ≢ []) × IsUnder name (clean_suffix s)) suffixes
unfolding has_allowed_suffix
has_allowed_suffix_iff name suffixes =
    let any = any_name_iff (λ s. is_under name (clean_suffix s)) suffixes in
    let each =
      Any-map_iff {P = λ s. is_under name (clean_suffix s) ≡ true}
        {Q = λ s. (clean_suffix s ≢ []) × IsUnder name (clean_suffix s)} suffixes
        (λ s. is_under_iff name (clean_suffix s)) in
    (λ h. each.0 (any.0 h), λ h. any.1 (each.1 h))

-- What a pattern in lower case stands for: every name, one name, or the names below a zone.
abbrev pub Matches : Bytes → Bytes → Type 0
Matches pattern d =
    (pattern ≡ b'*' ∷ [])
    ⊎ ((pattern ≡ d)
        ⊎ ((zone : Bytes) × (pattern ≡ b'*' ∷ b'.' ∷ zone)
            × (front : Bytes) × (d ≡ front ++ b'.' ∷ zone)))

matches_name_iff : (pattern d : Bytes) → (matches_name pattern d ≡ true) ↔ Matches pattern d
unfolding matches_name
matches_name_iff pattern d = (to, from)
  where
    to : matches_name pattern d ≡ true → Matches pattern d
    to h = elim (Bool-cases (bytes_eq pattern (b'*' ∷ []))) [
      | inl e ↦ inl ((bytes_eq_iff pattern (b'*' ∷ [])).0 e)
      | inr e ↦ elim (Bool-cases (bytes_eq pattern d)) [
        | inl f ↦ inr (inl ((bytes_eq_iff pattern d).0 f))
        | inr f ↦
            let star : has_prefix pattern (b'*' ∷ b'.' ∷ []) ≡ true = ground (arith, e, f) in
            let ends : has_suffix d (trim_prefix pattern (b'*' ∷ [])) ≡ true =
              ground (arith, e, f) in
            let (zone, is_zone) = (has_prefix_iff pattern (b'*' ∷ b'.' ∷ [])).0 star in
            let (front, eq) = (has_suffix_iff d (trim_prefix pattern (b'*' ∷ []))).0 ends in
            inr (
              inr (
                zone,
                is_zone,
                front,
                eq
                    ∙ ap (λ t. front ++ t)
                        (ap (λ q. trim_prefix q (b'*' ∷ [])) is_zone
                          ∙ trim_prefix-append (b'*' ∷ []) (b'.' ∷ zone)),
              ))
      ]
    ]

    from : Matches pattern d → matches_name pattern d ≡ true
    from (inl e) = let h = (bytes_eq_iff pattern (b'*' ∷ [])).1 e in ground (arith, h)
    from (inr (inl e)) = let h = (bytes_eq_iff pattern d).1 e in ground (arith, h)
    from (inr (inr (zone, is_zone, front, eq))) =
        let star = (has_prefix_iff pattern (b'*' ∷ b'.' ∷ [])).1 (zone, is_zone) in
        let ends = (has_suffix_iff d (trim_prefix pattern (b'*' ∷ []))).1 (
          front,
          eq
              ∙ ap (λ t. front ++ t)
                  (sym (
                    ap (λ q. trim_prefix q (b'*' ∷ [])) is_zone
                    ∙ trim_prefix-append (b'*' ∷ []) (b'.' ∷ zone))),
        ) in
        ground (arith, star, ends)

pub matches_domain_pattern_iff :
    (domains : List Bytes) (pattern : Bytes)
    → (matches_domain_pattern domains pattern ≡ true)
      ↔ Any (λ d. Matches (normal_name pattern) (normal_name d)) domains
unfolding matches_domain_pattern
matches_domain_pattern_iff domains pattern =
    let any = any_name_iff (λ d. matches_name (normal_name pattern) (normal_name d)) domains in
    let each =
      Any-map_iff {P = λ d. matches_name (normal_name pattern) (normal_name d) ≡ true}
        {Q = λ d. Matches (normal_name pattern) (normal_name d)} domains
        (λ d. matches_name_iff (normal_name pattern) (normal_name d)) in
    (λ h. each.0 (any.0 h), λ h. any.1 (each.1 h))

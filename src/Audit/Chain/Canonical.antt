-- ===== src/Audit/Chain/Canonical.antt =====
-- core/store/audit_chain.go: the bytes that a tag covers.
use certpilot.Prelude.{◌/◌, ◌<◌, ◌≡◌, refl, ap, ◌∙◌, sym, Option, none, some, [], ◌∷◌, ◌++◌, length}
use certpilot.Audit.Bytes.{
  Bytes, be32, be64, append_injective, be32-injective, be64-injective, length-be32, length-be64,
  tail_eq,
}
use certpilot.Audit.Chain.{AuditLog, audit_field, audit_optional, audit_canonical}

abbrev pub Fits : Option Bytes → Type 0
Fits none = Unit {0}
Fits (some s) = length s < 4294967296

-- Lengths below 2^32, a number and a time of 64 bits.
abbrev pub IsSized : AuditLog → Type 0
IsSized l =
    (l.seq < 18446744073709551616)
    × (length l.id < 4294967296)
    × (length l.action < 4294967296)
    × (length l.entity_type < 4294967296)
    × Fits l.entity_id
    × Fits l.actor_id
    × Fits l.actor_email
    × (length l.details < 4294967296)
    × Fits l.ip_address
    × (l.created_at / 1000 < 18446744073709551616)

-- The two entries agree on every field that a tag covers, the time to the microsecond.
abbrev pub SameRecord : AuditLog → AuditLog → Type 0
SameRecord l o =
    (l.seq ≡ o.seq)
    × (l.id ≡ o.id)
    × (l.action ≡ o.action)
    × (l.entity_type ≡ o.entity_type)
    × (l.entity_id ≡ o.entity_id)
    × (l.actor_id ≡ o.actor_id)
    × (l.actor_email ≡ o.actor_email)
    × (l.details ≡ o.details)
    × (l.ip_address ≡ o.ip_address)
    × (l.created_at / 1000 ≡ o.created_at / 1000)

assoc : (xs ys zs : Bytes) → (xs ++ ys) ++ zs ≡ xs ++ (ys ++ zs)
assoc [] ys zs = refl
assoc (x ∷ xs) ys zs = ap (λ rest. x ∷ rest) (assoc xs ys zs)

field_split :
    (s t : Bytes) {rest rest' : Bytes}
    → length s < 4294967296
    → length t < 4294967296
    → audit_field s ++ rest ≡ audit_field t ++ rest'
    → (s ≡ t) × (rest ≡ rest')
unfolding audit_field
field_split s t {rest} {rest'} hs ht e =
    let sizes =
      append_injective (be32 (length s)) (be32 (length t)) {rest = s ++ rest} {rest' = t ++ rest'}
        (length-be32 (length s) ∙ sym (length-be32 (length t)))
        (sym (assoc (be32 (length s)) s rest) ∙ e ∙ assoc (be32 (length t)) t rest') in
    append_injective s t (be32-injective (length s) (length t) hs ht sizes.0) sizes.1

optional_split :
    (s t : Option Bytes) {rest rest' : Bytes}
    → Fits s
    → Fits t
    → audit_optional s ++ rest ≡ audit_optional t ++ rest'
    → (s ≡ t) × (rest ≡ rest')
unfolding audit_optional
optional_split none none hs ht e = (refl, tail_eq e)
optional_split none (some t) hs ht e = absurd cc
optional_split (some s) none hs ht e = absurd cc
optional_split (some s) (some t) hs ht e =
    let parts = field_split s t hs ht (tail_eq e) in (ap some parts.0, parts.1)

-- What follows the version and the number.
abbrev rest_of : AuditLog → Bytes
rest_of l =
    audit_field l.id
    ++ (audit_field l.action
        ++ (audit_field l.entity_type
            ++ (audit_optional l.entity_id
                ++ (audit_optional l.actor_id
                    ++ (audit_optional l.actor_email
                        ++ (audit_field l.details
                            ++ (audit_optional l.ip_address ++ be64 (l.created_at / 1000))))))))

-- The bytes that a tag covers are the same for two entries only if the entries agree on every covered field, for field lengths below 2^32 and numbers and times of 64 bits.
pub audit_canonical-injective :
    (l o : AuditLog)
    → IsSized l
    → IsSized o
    → audit_canonical l ≡ audit_canonical o
    → SameRecord l o
unfolding audit_canonical
audit_canonical-injective l o (hs, h1, h2, h3, h4, h5, h6, h7, h8, h9)
      (ks, k1, k2, k3, k4, k5, k6, k7, k8, k9) e =
    let s0 =
      append_injective (be64 l.seq) (be64 o.seq) {rest = rest_of l} {rest' = rest_of o}
        (length-be64 l.seq ∙ sym (length-be64 o.seq)) (tail_eq e) in
    let s1 = field_split l.id o.id h1 k1 s0.1 in
    let s2 = field_split l.action o.action h2 k2 s1.1 in
    let s3 = field_split l.entity_type o.entity_type h3 k3 s2.1 in
    let s4 = optional_split l.entity_id o.entity_id h4 k4 s3.1 in
    let s5 = optional_split l.actor_id o.actor_id h5 k5 s4.1 in
    let s6 = optional_split l.actor_email o.actor_email h6 k6 s5.1 in
    let s7 = field_split l.details o.details h7 k7 s6.1 in
    let s8 = optional_split l.ip_address o.ip_address h8 k8 s7.1 in
    (
      be64-injective l.seq o.seq hs ks s0.0,
      s1.0,
      s2.0,
      s3.0,
      s4.0,
      s5.0,
      s6.0,
      s7.0,
      s8.0,
      be64-injective (l.created_at / 1000) (o.created_at / 1000) h9 k9 s8.1,
    )

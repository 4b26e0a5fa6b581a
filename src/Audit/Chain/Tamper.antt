-- ===== src/Audit/Chain/Tamper.antt =====
-- core/store/audit_chain.go: Verify on entries that were changed after they were tagged.
use mathlib.Core.Bool.{true≢false}
use certpilot.Prelude.{
  ◌≡◌, ◌≢◌, ◌⊎◌, inl, inr, some, sym, ◌∙◌, ap, Bool-cases, true, ◌++◌, length, ◌==◌, arith, ok,
}
use certpilot.Audit.Bytes.{
  Bytes, bytes_eq, bytes_eq_refl, bytes_eq_sound, append_injective, hex_decode,
}
use certpilot.Audit.Keyring.{Keyring, mac, mac_size, verify_mac, verify_mac-agree}
use certpilot.Audit.Chain.{
  AuditLog, audit_canonical, purpose_audit_chain, or_zero_prev, verify, verify_tag,
}
use certpilot.Audit.Chain.Canonical.{IsSized, SameRecord, audit_canonical-injective}

-- The message of an entry's tag.
abbrev pub message_of : AuditLog → Bytes
message_of l = or_zero_prev l.prev_hash ++ audit_canonical l

-- The two entries' messages differ, and the key that the keyring holds under the first entry's identifier
-- gives both of them the first entry's tag.
pub record Collide (hmac : Bytes → Bytes → Bytes) (kr : Keyring) (l o : AuditLog) : Type 0 where
  pub id : Bytes
  pub kek : Bytes
  pub named : hex_decode l.chain_key_id ≡ some id
  pub held : kr.keks id ≡ some kek
  pub differ : message_of l ≢ message_of o
  pub tags : mac hmac kek purpose_audit_chain (message_of l) ≡ l.entry_hash
  pub tags' : mac hmac kek purpose_audit_chain (message_of o) ≡ l.entry_hash

module _ (hmac : Bytes → Bytes → Bytes) where
  pub verify_sound :
      (kr : Keyring) (l : AuditLog)
      → verify hmac kr l ≡ ok true
      → (length (or_zero_prev l.prev_hash) ≡ mac_size)
        × (verify_mac hmac kr l.chain_key_id purpose_audit_chain (message_of l) l.entry_hash
            ≡ ok true)
  unfolding verify verify_tag
  verify_sound kr l h = elim (Bool-cases (length l.entry_hash == 0)) [
    | inl e ↦ absurd (cc (rw (e) at h))
    | inr e ↦ elim (Bool-cases (length (or_zero_prev l.prev_hash) == mac_size)) [
      | inl s ↦ (ground arith, rw (e, s) at h)
      | inr s ↦ absurd (cc (rw (e, s) at h))
    ]
  ]

  bound :
      (l o : AuditLog)
      → IsSized l
      → IsSized o
      → length (or_zero_prev l.prev_hash) ≡ length (or_zero_prev o.prev_hash)
      → message_of l ≡ message_of o
      → SameRecord l o × (or_zero_prev l.prev_hash ≡ or_zero_prev o.prev_hash)
  bound l o hl ho sizes e =
      let parts =
        append_injective (or_zero_prev l.prev_hash) (or_zero_prev o.prev_hash)
          {rest = audit_canonical l} {rest' = audit_canonical o} sizes e in
      (audit_canonical-injective l o hl ho parts.1, parts.0)

  -- Two entries that verify with the same tag and key identifier agree on every covered field and on the predecessor's tag, or their own two messages differ and the keyring's key of that identifier gives both messages that tag, for entries within the sizes.
  pub verify-unaltered :
      (kr : Keyring) (l o : AuditLog)
      → IsSized l
      → IsSized o
      → l.entry_hash ≡ o.entry_hash
      → l.chain_key_id ≡ o.chain_key_id
      → verify hmac kr l ≡ ok true
      → verify hmac kr o ≡ ok true
      → (SameRecord l o × (or_zero_prev l.prev_hash ≡ or_zero_prev o.prev_hash))
        ⊎ Collide hmac kr l o
  verify-unaltered kr l o hl ho tag key h h' =
      let a = verify_sound kr l h in
      let b = verify_sound kr o h' in
      elim (Bool-cases (bytes_eq (message_of l) (message_of o))) [
        | inl e ↦
            inl (bound l o hl ho (a.0 ∙ sym b.0) (bytes_eq_sound (message_of l) (message_of o) e))
        | inr e ↦
            let same =
              verify_mac-agree hmac kr l.chain_key_id purpose_audit_chain (message_of l)
                (message_of o) l.entry_hash a.1 (rw (tag, key) b.1) in
            inr record {
              id = same.0;
              kek = same.1;
              named = same.2;
              held = same.3;
              differ = λ eq. true≢false (
                  sym (bytes_eq_refl (message_of o))
                  ∙ ap (λ m. bytes_eq m (message_of o)) (sym eq)
                  ∙ e);
              tags = same.4;
              tags' = same.5;
            }
      ]

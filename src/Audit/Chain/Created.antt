-- ===== src/Audit/Chain/Created.antt =====
-- core/store/inmemory.go: CreateAuditLog.
use mathlib.Core.Path.{ap₂}
use certpilot.Prelude.{
  ℕ, suc, ◌-◌, ◌%◌, ◌≡◌, refl, ◌∙◌, true, some, List, [], ◌∷◌, ◌++◌, length, arith, ok, All,
}
use certpilot.Audit.Bytes.{Bytes, AreBytes, hex_encode}
use certpilot.Audit.Keyring.{
  Keyring, mac, mac_size, key_id_size, keyring_mac-known, length-mac, verify_mac, verify_mac-known,
}
use certpilot.Audit.Chain.{
  AuditLog, AuditStore, audit_canonical, audit_chain_zero_prev, create_audit_log, head_tag, link,
  or_fresh, or_zero_prev, purpose_audit_chain, sealed, verify, verify_tag,
}

-- Written before the chain.
abbrev pub IsUnchained : AuditLog → Type 0
IsUnchained l = (l.seq ≡ 0) × (l.entry_hash ≡ [])

-- The entries, newest first, of which the newest n are the chain.
pub data Chained (hmac : Bytes → Bytes → Bytes) (kr : Keyring) : List AuditLog → ℕ → Type 0 where
  unchained : {logs : List AuditLog} → All IsUnchained logs → Chained hmac kr logs 0
  chained :
      {logs : List AuditLog} {n : ℕ} (l : AuditLog)
      → Chained hmac kr logs n
      → l.seq ≡ suc n
      → l.prev_hash ≡ head_tag logs
      → length l.entry_hash ≡ mac_size
      → verify hmac kr l ≡ ok true
      → Chained hmac kr (l ∷ logs) (suc n)

pub or_zero_prev-full : (tag : Bytes) → length tag ≡ mac_size → or_zero_prev tag ≡ tag
unfolding or_zero_prev
or_zero_prev-full [] e = absurd (omega arith)
or_zero_prev-full (b ∷ bs) e = refl

pub head_tag-olds :
    (logs : List AuditLog) → All IsUnchained logs → head_tag logs ≡ audit_chain_zero_prev
unfolding head_tag or_zero_prev
head_tag-olds [] olds = refl
head_tag-olds (l ∷ logs) (old, olds) = rw (old.1) refl

module _ (hmac : Bytes → Bytes → Bytes) (kr : Keyring) where
  head_tag-size :
      (logs : List AuditLog) (n : ℕ) → Chained hmac kr logs n → length (head_tag logs) ≡ mac_size
  unfolding head_tag or_zero_prev
  head_tag-size logs _ (unchained olds) = rw (head_tag-olds logs olds) refl
  head_tag-size _ _ (chained l rest number before size sound) =
      rw (or_zero_prev-full l.entry_hash size) size

  -- The fresh entry before its tag.
  pub verify-tagged :
      (l : AuditLog) (kek prev : Bytes)
      → ((key message : Bytes) → length (hmac key message) ≡ mac_size)
      → AreBytes kr.primary_id
      → length kr.primary_id ≡ key_id_size
      → kr.keks kr.primary_id ≡ some kek
      → length l.prev_hash ≡ mac_size
      → l.entry_hash ≡ mac hmac kek purpose_audit_chain (l.prev_hash ++ audit_canonical l)
      → l.chain_key_id ≡ hex_encode kr.primary_id
      → verify hmac kr l ≡ ok true
  unfolding verify verify_tag
  verify-tagged l kek prev sizes bytes width found size tag key =
      let accepted =
        verify_mac-known hmac kr kr.primary_id kek purpose_audit_chain
          (l.prev_hash ++ audit_canonical l) bytes width found in
      let size' : length l.entry_hash ≡ mac_size =
        rw (tag)
          (length-mac hmac sizes kek purpose_audit_chain (l.prev_hash ++ audit_canonical l)) in
      rw (size', or_zero_prev-full l.prev_hash size, size)
        (ap₂ (λ k t. verify_mac hmac kr k purpose_audit_chain (l.prev_hash ++ audit_canonical l) t)
            key tag
          ∙ accepted)

  -- What the store writes: the entry, chained to the newest one.
  abbrev pub entry_under : Bytes → AuditStore → AuditLog → AuditLog
  entry_under kek m log =
      let prev = head_tag m.audit_logs in
      let numbered = record log { seq = suc m.audit_chain_head } in
      record log {
        seq = suc m.audit_chain_head;
        prev_hash = prev;
        entry_hash = mac hmac kek purpose_audit_chain (prev ++ audit_canonical numbered);
        chain_key_id = hex_encode kr.primary_id;
      }

  sealed-entry_under :
      (m : AuditStore) (log : AuditLog) (kek : Bytes)
      → m.audit_chain ≡ some kr
      → length (head_tag m.audit_logs) ≡ mac_size
      → kr.keks kr.primary_id ≡ some kek
      → sealed hmac m log ≡ ok (entry_under kek m log)
  unfolding sealed link
  sealed-entry_under m log kek chain size found =
      let prev = head_tag m.audit_logs in
      let numbered = record log { seq = suc m.audit_chain_head } in
      rw
        (
          chain,
          sealed,
          size,
          keyring_mac-known hmac kr kek purpose_audit_chain (prev ++ audit_canonical numbered)
              found,
        )
        refl

  -- What the entry to write has before it is chained.
  abbrev pub stamped : Bytes → ℕ → AuditLog → AuditLog
  stamped fresh now log = record log { id = or_fresh fresh log.id; created_at = now - now % 1000 }

  create_audit_log-entry_under :
      (m : AuditStore) (fresh : Bytes) (now : ℕ) (log : AuditLog) (kek : Bytes)
      → m.audit_chain ≡ some kr
      → length (head_tag m.audit_logs) ≡ mac_size
      → kr.keks kr.primary_id ≡ some kek
      → create_audit_log hmac fresh now log m
        ≡ ok (record m {
          audit_logs = entry_under kek m (stamped fresh now log) ∷ m.audit_logs;
          audit_chain_head = suc m.audit_chain_head;
        })
  unfolding create_audit_log
  create_audit_log-entry_under m fresh now log kek chain size found =
      rw
        (sealed-entry_under m (stamped fresh now log) kek chain size found, create_audit_log, chain)
        refl

  -- Where the keyring holds its primary key, an 8-byte identifier names it and HMAC gives 32 bytes, creating an entry in a store whose newest entries are the chain succeeds, adds one entry, and leaves a store whose newest entries are the chain, one longer.
  pub create_audit_log-Chained :
      (m : AuditStore) (fresh : Bytes) (now : ℕ) (log : AuditLog) (kek : Bytes)
      → ((key message : Bytes) → length (hmac key message) ≡ mac_size)
      → AreBytes kr.primary_id
      → length kr.primary_id ≡ key_id_size
      → kr.keks kr.primary_id ≡ some kek
      → m.audit_chain ≡ some kr
      → Chained hmac kr m.audit_logs m.audit_chain_head
      → (m' : AuditStore) × (create_audit_log hmac fresh now log m ≡ ok m')
        × Chained hmac kr m'.audit_logs m'.audit_chain_head
        × (m'.audit_chain_head ≡ suc m.audit_chain_head)
        × (m'.audit_chain ≡ m.audit_chain)
        × (length m'.audit_logs ≡ suc (length m.audit_logs))
  unfolding audit_canonical
  create_audit_log-Chained m fresh now log kek sizes bytes width found chain chained_so_far =
      let size = head_tag-size m.audit_logs m.audit_chain_head chained_so_far in
      let entry = entry_under kek m (stamped fresh now log) in
      (
        record m { audit_logs = entry ∷ m.audit_logs; audit_chain_head = suc m.audit_chain_head },
        create_audit_log-entry_under m fresh now log kek chain size found,
        chained entry chained_so_far refl refl
            (length-mac hmac sizes kek purpose_audit_chain
              (entry.prev_hash ++ audit_canonical entry))
            (verify-tagged entry kek entry.prev_hash sizes bytes width found size refl refl),
        refl,
        refl,
        refl,
      )

-- ===== src/Audit/Chain/Examples.antt =====
-- Concrete entries, keyrings and chains. The authentication code here only counts bytes.
use certpilot.Prelude.{
  ◌+◌, ◌%◌, ◌≡◌, refl, ◌↔◌, ◌⊎◌, true, false, none, some, [], ◌∷◌, length, arith, ok, err, ◌++◌,
  if◌then◌else◌,
}
use certpilot.Audit.Bytes.{Bytes, AreBytes, hex_encode, bytes_eq, bytes_eq_refl}
use certpilot.Audit.Keyring.{
  Keyring, KeyError, mac, mac_size, keyring_mac-known, length-mac, verify_mac, verify-keyring_mac,
}
use certpilot.Audit.Chain.{
  AuditLog, AuditStore, audit_canonical, create_audit_log, purpose_audit_chain, verify,
  verify_audit_chain, verify_tag, head_tag, verify_audit_chain_over, or_zero_prev,
}
use certpilot.Audit.Chain.Canonical.{SameRecord}
use certpilot.Audit.Chain.Tamper.{Collide, verify-unaltered}
use certpilot.Audit.Chain.Walk.{Linked, first_prev, verify_audit_chain_over-intact}
use certpilot.Audit.Chain.Created.{
  Chained, unchained, chained, create_audit_log-Chained, verify-tagged, entry_under,
}
use certpilot.Audit.Chain.Verified.{verify_audit_chain-Chained}

abbrev toy_hmac : Bytes → Bytes → Bytes
toy_hmac key message =
    length key % 256
    ∷ length message % 256
    ∷ 0
    ∷ 0
    ∷ 0
    ∷ 0
    ∷ 0
    ∷ 0
    ∷ 0
    ∷ 0
    ∷ 0
    ∷ 0
    ∷ 0
    ∷ 0
    ∷ 0
    ∷ 0
    ∷ 0
    ∷ 0
    ∷ 0
    ∷ 0
    ∷ 0
    ∷ 0
    ∷ 0
    ∷ 0
    ∷ 0
    ∷ 0
    ∷ 0
    ∷ 0
    ∷ 0
    ∷ 0
    ∷ 0
    ∷ 0
    ∷ []

abbrev first_id : Bytes
first_id = 17 ∷ 2 ∷ 3 ∷ 4 ∷ 5 ∷ 6 ∷ 7 ∷ 255 ∷ []

abbrev second_id : Bytes
second_id = 200 ∷ 2 ∷ 3 ∷ 4 ∷ 5 ∷ 6 ∷ 7 ∷ 255 ∷ []

abbrev first_ring : Keyring
first_ring = record { primary_id = first_id; keks = λ id. some (1 ∷ 2 ∷ []) }

abbrev second_ring : Keyring
second_ring = record { primary_id = second_id; keks = λ id. some (1 ∷ 2 ∷ []) }

abbrev blank : AuditLog
blank = record {
  id = b'x' ∷ [];
  action = b'c' ∷ b'a' ∷ [];
  entity_type = [];
  entity_id = none;
  actor_id = some [];
  actor_email = none;
  details = [];
  ip_address = none;
  created_at = 1700000000123456700;
  seq = 0;
  entry_hash = [];
  prev_hash = [];
  chain_key_id = [];
}

abbrev seeded : AuditStore
seeded = record { audit_logs = blank ∷ []; audit_chain = some first_ring; audit_chain_head = 0 }

abbrev tagged_entry : AuditLog
tagged_entry = entry_under toy_hmac first_ring (1 ∷ 2 ∷ []) seeded blank

-- The same entry with a time later in the same microsecond.
abbrev same_microsecond : AuditLog
same_microsecond = record tagged_entry { created_at = 1700000000123456999 }

first_id-AreBytes : AreBytes first_id
first_id-AreBytes = ground arith

tagged_entry-verifies : verify toy_hmac first_ring tagged_entry ≡ ok true
unfolding head_tag or_zero_prev audit_canonical
tagged_entry-verifies =
    verify-tagged toy_hmac first_ring tagged_entry (1 ∷ 2 ∷ []) [] (λ key message. refl)
      first_id-AreBytes refl refl refl refl refl

tag_size : length tagged_entry.entry_hash ≡ mac_size
unfolding head_tag audit_canonical
tag_size =
    length-mac toy_hmac (λ key message. refl) (1 ∷ 2 ∷ []) purpose_audit_chain
      (tagged_entry.prev_hash ++ audit_canonical tagged_entry)

seeded-Chained : Chained toy_hmac first_ring (tagged_entry ∷ blank ∷ []) 1
seeded-Chained =
    chained tagged_entry (unchained ((refl, refl), tt)) refl refl tag_size tagged_entry-verifies

same_microsecond-verifies : verify toy_hmac first_ring same_microsecond ≡ ok true
unfolding audit_canonical verify verify_tag
same_microsecond-verifies = tagged_entry-verifies

-- The second keyring after the first key has been dropped.
abbrev dropped_ring : Keyring
dropped_ring = record {
  primary_id = second_id;
  keks = λ id. if bytes_eq id first_id then none else some (5 ∷ 6 ∷ []);
}

-- Witnesses.
verify-keyring_mac_example :
    (verify_mac toy_hmac second_ring
        (hex_encode first_id)
        (b'p' ∷ [])
        (b'm' ∷ [])
        (mac toy_hmac (1 ∷ 2 ∷ []) (b'p' ∷ []) (b'm' ∷ []))
      ≡ ok true)
    × (verify_mac toy_hmac dropped_ring
          (hex_encode first_id)
          (b'p' ∷ [])
          (b'm' ∷ [])
          (mac toy_hmac (1 ∷ 2 ∷ []) (b'p' ∷ []) (b'm' ∷ []))
        ≡ err KeyError.unknown_key)
verify-keyring_mac_example =
    verify-keyring_mac toy_hmac first_ring second_ring dropped_ring (b'p' ∷ []) (b'm' ∷ [])
      (keyring_mac-known toy_hmac first_ring (1 ∷ 2 ∷ []) (b'p' ∷ []) (b'm' ∷ []) refl)
      first_id-AreBytes refl refl (rw (bytes_eq_refl first_id) refl)

verify-unaltered_example :
    (SameRecord tagged_entry same_microsecond
      × (or_zero_prev tagged_entry.prev_hash ≡ or_zero_prev same_microsecond.prev_hash))
    ⊎ Collide toy_hmac first_ring tagged_entry same_microsecond
verify-unaltered_example =
    verify-unaltered toy_hmac first_ring tagged_entry same_microsecond (ground arith) (ground arith)
      refl refl tagged_entry-verifies same_microsecond-verifies

verify_audit_chain_over-intact_example :
    ((verify_audit_chain_over toy_hmac (tagged_entry ∷ []) (some first_ring) 1 false).intact ≡ true)
    ↔ Linked toy_hmac first_ring 1 (first_prev toy_hmac first_ring tagged_entry) (tagged_entry ∷ [])
verify_audit_chain_over-intact_example =
    verify_audit_chain_over-intact toy_hmac first_ring tagged_entry [] 1 false

create_audit_log-Chained_example :
    (m' : AuditStore) × (create_audit_log toy_hmac first_id 1700000000123456789 blank seeded
      ≡ ok m')
    × Chained toy_hmac first_ring m'.audit_logs m'.audit_chain_head
    × (m'.audit_chain_head ≡ 1)
    × (m'.audit_chain ≡ some first_ring)
    × (length m'.audit_logs ≡ 2)
create_audit_log-Chained_example =
    create_audit_log-Chained toy_hmac first_ring seeded first_id 1700000000123456789 blank
      (1 ∷ 2 ∷ []) (λ key message. refl) first_id-AreBytes refl refl refl
      (unchained ((refl, refl), tt))

abbrev one_created : AuditStore
one_created = record {
  audit_logs = tagged_entry ∷ blank ∷ [];
  audit_chain = some first_ring;
  audit_chain_head = 1;
}

verify_audit_chain-Chained_example :
    ((verify_audit_chain toy_hmac 0 0 one_created).intact ≡ true)
    × ((verify_audit_chain toy_hmac 0 0 one_created).verified ≡ 1)
    × ((verify_audit_chain toy_hmac 0 0 one_created).broken_at ≡ none)
    × ((verify_audit_chain toy_hmac 0 0 one_created).unchained + 1 ≡ 2)
verify_audit_chain-Chained_example =
    verify_audit_chain-Chained toy_hmac first_ring one_created 0 (omega arith) refl seeded-Chained

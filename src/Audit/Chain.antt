-- ===== src/Audit/Chain.antt =====
-- core/store/audit_chain.go and the audit operations of core/store/inmemory.go: entries tagged
-- in a chain, and the walk that checks it. Times are nanoseconds from the epoch.
pub mod Canonical
pub mod Tamper
pub mod Walk
pub mod Created
pub mod Verified
pub mod Examples
use certpilot.Prelude.{
  ℕ, suc, ◌+◌, ◌-◌, ◌/◌, ◌%◌, ◌≡◌, Bool, true, false, not, ◌&&◌, Option, none, some, List, [], ◌∷◌,
  ◌++◌, length, take, ◌||◌, ltb, ◌==◌, if◌then◌else◌, Result, ok, err,
}
use certpilot.Audit.Bytes.{Bytes, be32, be64, bytes_eq}
use certpilot.Audit.Keyring.{Keyring, KeyError, keyring_mac, verify_mac, mac_size}

pub record AuditLog : Type 0 where
  pub id : Bytes
  pub action : Bytes
  pub entity_type : Bytes
  pub entity_id : Option Bytes
  pub actor_id : Option Bytes
  pub actor_email : Option Bytes
  pub details : Bytes
  pub ip_address : Option Bytes
  pub created_at : ℕ
  pub seq : ℕ
  pub entry_hash : Bytes
  pub prev_hash : Bytes
  pub chain_key_id : Bytes

-- "audit-chain"
pub purpose_audit_chain : Bytes
purpose_audit_chain =
    b'a' ∷ b'u' ∷ b'd' ∷ b'i' ∷ b't' ∷ b'-' ∷ b'c' ∷ b'h' ∷ b'a' ∷ b'i' ∷ b'n' ∷ []

pub data ChainError : Type 0 where
  no_audit_chain wrong_size : ChainError
  key_failure : KeyError → ChainError

abbrev pub audit_chain_version : ℕ
audit_chain_version = 1

abbrev pub audit_chain_zero_prev : Bytes
audit_chain_zero_prev =
    0 ∷ 0 ∷ 0 ∷ 0 ∷ 0 ∷ 0 ∷ 0 ∷ 0 ∷ 0 ∷ 0 ∷ 0 ∷ 0 ∷ 0 ∷ 0 ∷ 0 ∷ 0 ∷ 0 ∷ 0 ∷ 0 ∷ 0 ∷ 0 ∷ 0 ∷ 0 ∷ 0
    ∷ 0 ∷ 0 ∷ 0 ∷ 0 ∷ 0 ∷ 0 ∷ 0 ∷ 0 ∷ []

-- What auditField and auditOptional append to the buffer.
pub audit_field : Bytes → Bytes
audit_field s = be32 (length s) ++ s

pub audit_optional : Option Bytes → Bytes
unfolding audit_field
audit_optional none = 0 ∷ []
audit_optional (some s) = 1 ∷ audit_field s

pub audit_canonical : AuditLog → Bytes
unfolding audit_field audit_optional
audit_canonical l =
    audit_chain_version
    ∷ (be64 l.seq
        ++ (audit_field l.id
            ++ (audit_field l.action
                ++ (audit_field l.entity_type
                    ++ (audit_optional l.entity_id
                        ++ (audit_optional l.actor_id
                            ++ (audit_optional l.actor_email
                                ++ (audit_field l.details
                                    ++ (audit_optional l.ip_address
                                        ++ be64 (l.created_at / 1000))))))))))

pub or_fresh : Bytes → Bytes → Bytes
or_fresh fresh [] = fresh
or_fresh fresh (b ∷ bs) = b ∷ bs

-- An empty predecessor tag stands for the zero tag.
pub or_zero_prev : Bytes → Bytes
or_zero_prev [] = audit_chain_zero_prev
or_zero_prev (b ∷ bs) = b ∷ bs

pub data Break : Type 0 where
  no_key_configured entry_missing wrong_predecessor altered : Break
  cannot_be_checked : ChainError → Break
  nothing_to_check : Break

pub record AuditChainReport : Type 0 where
  pub intact : Bool
  pub verified : ℕ
  pub unchained : ℕ
  pub first_seq : ℕ
  pub last_seq : ℕ
  pub broken_at : Option ℕ
  pub reason : Option Break
  pub truncated : Bool

abbrev pub blank_report : ℕ → Bool → AuditChainReport
blank_report unchained truncated = record {
  intact = false;
  verified = 0;
  unchained = unchained;
  first_seq = 0;
  last_seq = 0;
  broken_at = none;
  reason = none;
  truncated = truncated;
}

broken : ℕ → Break → AuditChainReport → AuditChainReport
broken seq reason r = record r { broken_at = some seq; reason = some reason }

pub counted : AuditLog → AuditChainReport → AuditChainReport
counted l r = record r { last_seq = l.seq; verified = suc r.verified }

pub finished : AuditChainReport → AuditChainReport
finished r = record r {
  intact = true;
  reason = if r.verified == 0 then some Break.nothing_to_check else r.reason;
}

-- The store: entries newest first, the chainer when a keyring was given, the last number.
pub record AuditStore : Type 0 where
  pub audit_logs : List AuditLog
  pub audit_chain : Option Keyring
  pub audit_chain_head : ℕ

-- The tag that the entry before the next one left.
pub head_tag : List AuditLog → Bytes
unfolding or_zero_prev
head_tag [] = audit_chain_zero_prev
head_tag (head ∷ logs) = or_zero_prev head.entry_hash

-- The entries of the chain in ascending order, before those gathered already.
pub ascending : ℕ → List AuditLog → List AuditLog → List AuditLog
ascending start [] gathered = gathered
ascending start (l ∷ logs) gathered =
    ascending start logs (if l.seq == 0 || ltb l.seq start then gathered else l ∷ gathered)

pub count_unchained : List AuditLog → ℕ
count_unchained [] = 0
count_unchained (l ∷ logs) = (if l.seq == 0 then 1 else 0) + count_unchained logs

module _ (hmac : Bytes → Bytes → Bytes) where
  pub link : Keyring → AuditLog → Bytes → Result ChainError (Bytes × Bytes)
  link kr l prev =
      if length prev == mac_size
      then elim (keyring_mac hmac kr purpose_audit_chain (prev ++ audit_canonical l)) [
        | err e ↦ err (ChainError.key_failure e)
        | ok sealed ↦ ok sealed
      ]
      else err ChainError.wrong_size

  -- The part of Verify for an entry that has a tag.
  pub verify_tag : Keyring → AuditLog → Bytes → Result KeyError Bool
  verify_tag kr l prev =
      if length prev == mac_size
      then verify_mac hmac kr l.chain_key_id purpose_audit_chain (prev ++ audit_canonical l)
          l.entry_hash
      else ok false

  pub verify : Keyring → AuditLog → Result KeyError Bool
  unfolding verify_tag or_zero_prev
  verify kr l =
      if length l.entry_hash == 0 then ok false else verify_tag kr l (or_zero_prev l.prev_hash)

  -- One turn of the walk: a break ends it with its report.
  checked :
      AuditChainReport → AuditLog → Result KeyError Bool → Result AuditChainReport AuditChainReport
  unfolding broken counted
  checked r l (err e) = err (broken l.seq (Break.cannot_be_checked (ChainError.key_failure e)) r)
  checked r l (ok false) = err (broken l.seq Break.altered r)
  checked r l (ok true) = ok (counted l r)

  pub walk_one :
      Keyring → AuditChainReport → ℕ → Bytes → AuditLog → Result AuditChainReport AuditChainReport
  unfolding broken checked
  walk_one kr r expected prev l =
      if not (l.seq == expected)
      then err (broken expected Break.entry_missing r)
      else if length prev == mac_size
          && length l.prev_hash == mac_size
          && not (bytes_eq prev l.prev_hash)
      then err (broken l.seq Break.wrong_predecessor r)
      else checked r l (verify kr l)

  pub walk : Keyring → AuditChainReport → ℕ → Bytes → List AuditLog → AuditChainReport
  unfolding finished
  walk kr r expected prev [] = finished r
  walk kr r expected prev (l ∷ entries) = elim (walk_one kr r expected prev l) [
    | err stopped ↦ stopped
    | ok r' ↦ walk kr r' (suc expected) l.entry_hash entries
  ]

  pub verify_audit_chain_over : List AuditLog → Option Keyring → ℕ → Bool → AuditChainReport
  unfolding finished
  verify_audit_chain_over entries none unchained truncated =
      record (blank_report unchained truncated) { reason = some Break.no_key_configured }
  verify_audit_chain_over [] (some kr) unchained truncated =
      finished (blank_report unchained truncated)
  verify_audit_chain_over (l ∷ entries) (some kr) unchained truncated =
      walk kr (record (blank_report unchained truncated) { first_seq = l.seq }) l.seq
        (if l.seq == 1 then audit_chain_zero_prev else l.prev_hash) (l ∷ entries)

  -- The chained entry, or the plain one where the store has no chainer.
  pub sealed : AuditStore → AuditLog → Result ChainError AuditLog
  unfolding head_tag
  sealed m log = elim m.audit_chain [
    | none ↦ ok log
    | some kr ↦
        let prev = head_tag m.audit_logs in
        elim (link kr (record log { seq = suc m.audit_chain_head }) prev) [
          | err e ↦ err e
          | ok (key_id, tag) ↦ ok (record log {
            seq = suc m.audit_chain_head;
            prev_hash = prev;
            entry_hash = tag;
            chain_key_id = key_id;
          })
        ]
  ]

  pub create_audit_log : Bytes → ℕ → AuditLog → AuditStore → Result ChainError AuditStore
  unfolding or_fresh
  create_audit_log fresh now log m =
      elim (sealed m (record log { id = or_fresh fresh log.id; created_at = now - now % 1000 })) [
        | err e ↦ err e
        | ok entry ↦ ok (record m {
          audit_logs = entry ∷ m.audit_logs;
          audit_chain_head = elim m.audit_chain [ none ↦ m.audit_chain_head | some kr ↦ entry.seq ];
        })
      ]

  pub verify_audit_chain : ℕ → ℕ → AuditStore → AuditChainReport
  unfolding ascending count_unchained
  verify_audit_chain start limit m =
      let entries = ascending (if start == 0 then 1 else start) m.audit_logs [] in
      let truncated = ltb 0 limit && ltb limit (length entries) in
      verify_audit_chain_over (if truncated then take limit entries else entries) m.audit_chain
        (count_unchained m.audit_logs) truncated

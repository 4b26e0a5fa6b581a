-- ===== src/Audit/Chain/Verified.antt =====
-- core/store/inmemory.go, VerifyAuditChain, on the entries that CreateAuditLog wrote.
use certpilot.Prelude.{
  ℕ, suc, ◌+◌, ◌≤◌, ◌≡◌, refl, sym, ◌∙◌, ap, subst, true, false, ◌||◌, some, none, List, [], ◌∷◌,
  length, ltb, ◌==◌, arith, if◌then◌else◌, All,
}
use certpilot.Audit.Bytes.{Bytes}
use certpilot.Audit.Keyring.{Keyring}
use certpilot.Audit.Chain.{
  AuditLog, AuditStore, audit_chain_zero_prev, ascending, blank_report, count_unchained, finished,
  head_tag, verify_audit_chain, verify_audit_chain_over,
}
use certpilot.Audit.Chain.Walk.{Linked, Linked-walk, first_prev}
use certpilot.Audit.Chain.Created.{
  Chained, IsUnchained, unchained, chained, or_zero_prev-full, head_tag-olds,
}

ascending-olds :
    (logs gathered : List AuditLog) → All IsUnchained logs → ascending 1 logs gathered ≡ gathered
unfolding ascending
ascending-olds [] gathered olds = refl
ascending-olds (l ∷ logs) gathered (old, olds) = rw (old.0) (ascending-olds logs gathered olds)

count_unchained-olds :
    (logs : List AuditLog) → All IsUnchained logs → count_unchained logs ≡ length logs
unfolding count_unchained
count_unchained-olds [] olds = refl
count_unchained-olds (l ∷ logs) (old, olds) =
    rw (old.0, count_unchained-olds logs olds) (omega arith)

ascending-next :
    (l : AuditLog) (logs gathered : List AuditLog) (n : ℕ)
    → l.seq ≡ suc n
    → ascending 1 (l ∷ logs) gathered ≡ ascending 1 logs (l ∷ gathered)
unfolding ascending
ascending-next l logs gathered n number =
    let kept : (l.seq == 0 || ltb l.seq 1) ≡ false = ground arith in rw (kept) refl

module _ (hmac : Bytes → Bytes → Bytes) (kr : Keyring) where
  ascending-Linked :
      (logs : List AuditLog) (n : ℕ) (gathered : List AuditLog)
      → Chained hmac kr logs n
      → Linked hmac kr (suc n) (head_tag logs) gathered
      → Linked hmac kr 1 audit_chain_zero_prev (ascending 1 logs gathered)
  unfolding head_tag
  ascending-Linked logs _ gathered (unchained olds) linked =
      rw (ascending-olds logs gathered olds)
        (subst (λ tag. Linked hmac kr 1 tag gathered) (head_tag-olds logs olds) linked)
  ascending-Linked _ _ gathered (chained {logs} {n} l rest number before size sound) linked =
      rw (ascending-next l logs gathered n number) (
        ascending-Linked logs n (l ∷ gathered) rest (
          (number, (λ _ _. sym before), sound),
          subst (λ tag. Linked hmac kr (suc (suc n)) tag gathered)
              (or_zero_prev-full l.entry_hash size) linked,
        ))

  length-ascending :
      (logs : List AuditLog) (n : ℕ) (gathered : List AuditLog)
      → Chained hmac kr logs n
      → length (ascending 1 logs gathered) ≡ n + length gathered
  length-ascending logs _ gathered (unchained olds) =
      rw (ascending-olds logs gathered olds) (omega arith)
  length-ascending _ _ gathered (chained {logs} {n} l rest number before size sound) =
      ap length (ascending-next l logs gathered n number)
      ∙ length-ascending logs n (l ∷ gathered) rest
      ∙ omega arith

  count_unchained-Chained :
      (logs : List AuditLog) (n : ℕ)
      → Chained hmac kr logs n
      → count_unchained logs + n ≡ length logs
  unfolding count_unchained
  count_unchained-Chained logs _ (unchained olds) =
      rw (count_unchained-olds logs olds) (omega arith)
  count_unchained-Chained _ _ (chained {logs} {n} l rest number before size sound) =
      let ih = count_unchained-Chained logs n rest in ground (arith, number)

  over-Linked :
      (entries : List AuditLog) (olds : ℕ)
      → Linked hmac kr 1 audit_chain_zero_prev entries
      → ((verify_audit_chain_over hmac entries (some kr) olds false).intact ≡ true)
        × ((verify_audit_chain_over hmac entries (some kr) olds false).verified ≡ length entries)
        × ((verify_audit_chain_over hmac entries (some kr) olds false).broken_at ≡ none)
        × ((verify_audit_chain_over hmac entries (some kr) olds false).unchained ≡ olds)
  unfolding verify_audit_chain_over finished
  over-Linked [] olds linked = (refl, refl, refl, refl)
  over-Linked (l ∷ entries) olds linked =
      let start = record (blank_report olds false) { first_seq = l.seq } in
      let starts : first_prev hmac kr l ≡ audit_chain_zero_prev = rw (linked.0.0) refl in
      let walked = Linked-walk hmac kr start l.seq (first_prev hmac kr l) (l ∷ entries) (
        subst (λ n. Linked hmac kr n (first_prev hmac kr l) (l ∷ entries)) (sym linked.0.0)
          (subst (λ tag. Linked hmac kr 1 tag (l ∷ entries)) (sym starts) linked)) in
      (walked.0, walked.1 ∙ omega arith, walked.2, walked.3)

  -- A store whose newest entries are the chain is reported intact: from the first entry on and with no limit, the report has no break, verifies as many entries as the chain has, and counts all other entries of the store as unchained.
  pub verify_audit_chain-Chained :
      (m : AuditStore) (start : ℕ)
      → start ≤ 1
      → m.audit_chain ≡ some kr
      → Chained hmac kr m.audit_logs m.audit_chain_head
      → ((verify_audit_chain hmac start 0 m).intact ≡ true)
        × ((verify_audit_chain hmac start 0 m).verified ≡ m.audit_chain_head)
        × ((verify_audit_chain hmac start 0 m).broken_at ≡ none)
        × ((verify_audit_chain hmac start 0 m).unchained + m.audit_chain_head ≡ length m.audit_logs)
  unfolding verify_audit_chain
  verify_audit_chain-Chained m start h chain c =
      let first : (if start == 0 then 1 else start) ≡ 1 = ground arith in
      let entries = ascending 1 m.audit_logs [] in
      let report =
        over-Linked entries (count_unchained m.audit_logs)
          (ascending-Linked m.audit_logs m.audit_chain_head [] c tt) in
      (
        rw (first, chain) report.0,
        rw (first, chain)
            (report.1 ∙ length-ascending m.audit_logs m.audit_chain_head [] c ∙ omega arith),
        rw (first, chain) report.2,
        rw (first, chain, report.3) (count_unchained-Chained m.audit_logs m.audit_chain_head c),
      )

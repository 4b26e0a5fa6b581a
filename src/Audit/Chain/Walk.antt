-- ===== src/Audit/Chain/Walk.antt =====
-- core/store/audit_chain.go: which entries the walk accepts.
use mathlib.Core.Bool.{true≢false}
use certpilot.Prelude.{
  ℕ, suc, ◌+◌, ◌≡◌, refl, ◌↔◌, ◌⊎◌, inl, inr, sym, ◌∙◌, ap, Bool, Bool-cases, true, false, not,
  ◌&&◌, some, List, [], ◌∷◌, length, ◌==◌, arith, Result, ok, err, if◌then◌else◌,
}
use certpilot.Audit.Bytes.{Bytes, bytes_eq, bytes_eq_refl, bytes_eq_sound}
use certpilot.Audit.Keyring.{Keyring, KeyError, mac_size}
use certpilot.Audit.Chain.{
  AuditLog, AuditChainReport, Break, ChainError, verify, walk_one, walk, counted, checked, broken,
  finished, verify_audit_chain_over, audit_chain_zero_prev, blank_report,
}

-- The entry has the number, verifies, and names the tag before it where both tags have their size.
abbrev pub Follows : (Bytes → Bytes → Bytes) → Keyring → ℕ → Bytes → AuditLog → Type 0
Follows hmac kr expected prev l =
    (l.seq ≡ expected)
    × (length prev ≡ mac_size → length l.prev_hash ≡ mac_size → prev ≡ l.prev_hash)
    × (verify hmac kr l ≡ ok true)

abbrev pub Linked : (Bytes → Bytes → Bytes) → Keyring → ℕ → Bytes → List AuditLog → Type 0
Linked hmac kr expected prev [] = Unit {0}
Linked hmac kr expected prev (l ∷ entries) =
    Follows hmac kr expected prev l × Linked hmac kr (suc expected) l.entry_hash entries

agreed :
    (prev recorded : Bytes)
    → length prev ≡ mac_size
    → length recorded ≡ mac_size
    → (length prev == mac_size && length recorded == mac_size && not (bytes_eq prev recorded))
      ≡ false
    → prev ≡ recorded
agreed prev recorded a b d = bytes_eq_sound prev recorded (ground arith)

no_conflict :
    (prev recorded : Bytes)
    → (length prev ≡ mac_size → length recorded ≡ mac_size → prev ≡ recorded)
    → (length prev == mac_size && length recorded == mac_size && not (bytes_eq prev recorded))
      ≡ false
no_conflict prev recorded before =
    elim (Bool-cases (length prev == mac_size && length recorded == mac_size)) [
      | inl e ↦
          let same = before (ground arith) (ground arith) in
          let kept : bytes_eq prev recorded ≡ true = rw (same) (bytes_eq_refl recorded) in
          ground arith
      | inr e ↦ ground arith
    ]

module _ (hmac : Bytes → Bytes → Bytes) (kr : Keyring) where
  checked-cases :
      (r : AuditChainReport) (l : AuditLog) (answer : Result KeyError Bool)
      → ((checked hmac r l answer ≡ ok (counted l r)) × (answer ≡ ok true))
        ⊎ ((stopped : AuditChainReport) × (checked hmac r l answer ≡ err stopped)
            × (stopped.intact ≡ r.intact))
  unfolding checked broken counted
  checked-cases r l (err e) =
      inr (broken l.seq (Break.cannot_be_checked (ChainError.key_failure e)) r, refl, refl)
  checked-cases r l (ok true) = inl (refl, refl)
  checked-cases r l (ok false) = inr (broken l.seq Break.altered r, refl, refl)

  pub walk_one-cases :
      (r : AuditChainReport) (expected : ℕ) (prev : Bytes) (l : AuditLog)
      → ((walk_one hmac kr r expected prev l ≡ ok (counted l r)) × Follows hmac kr expected prev l)
        ⊎ ((stopped : AuditChainReport) × (walk_one hmac kr r expected prev l ≡ err stopped)
            × (stopped.intact ≡ r.intact))
  unfolding walk_one broken
  walk_one-cases r expected prev l = elim (Bool-cases (l.seq == expected)) [
    | inr e ↦ inr (broken expected Break.entry_missing r, rw (e) refl, refl)
    | inl e ↦
        elim (Bool-cases (
          length prev == mac_size
          && length l.prev_hash == mac_size
          && not (bytes_eq prev l.prev_hash))) [
            | inl d ↦ inr (broken l.seq Break.wrong_predecessor r, rw (e, d) refl, refl)
            | inr d ↦ elim (checked-cases r l (verify hmac kr l)) [
              | inl (same, sound) ↦
                  inl
                    (rw (e, d) same, (ground arith, (λ a b. agreed prev l.prev_hash a b d), sound))
              | inr (stopped, eq, kept) ↦ inr (stopped, rw (e, d) eq, kept)
            ]
          ]
  ]

  pub walk_one-Follows :
      (r : AuditChainReport) (expected : ℕ) (prev : Bytes) (l : AuditLog)
      → Follows hmac kr expected prev l
      → walk_one hmac kr r expected prev l ≡ ok (counted l r)
  unfolding walk_one checked
  walk_one-Follows r expected prev l (number, before, sound) =
      let seen : (l.seq == expected) ≡ true = ground arith in
      rw (seen, no_conflict prev l.prev_hash before, sound) refl

  walk-ok :
      (r r' : AuditChainReport) (expected : ℕ) (prev : Bytes) (l : AuditLog)
      (entries : List AuditLog)
      → walk_one hmac kr r expected prev l ≡ ok r'
      → walk hmac kr r expected prev (l ∷ entries)
        ≡ walk hmac kr r' (suc expected) l.entry_hash entries
  unfolding walk
  walk-ok r r' expected prev l entries e = rw (e, walk) refl

  walk-err :
      (r r' : AuditChainReport) (expected : ℕ) (prev : Bytes) (l : AuditLog)
      (entries : List AuditLog)
      → walk_one hmac kr r expected prev l ≡ err r'
      → walk hmac kr r expected prev (l ∷ entries) ≡ r'
  unfolding walk
  walk-err r r' expected prev l entries e = rw (e, walk) refl

  pub walk-Linked :
      (r : AuditChainReport) (expected : ℕ) (prev : Bytes) (entries : List AuditLog)
      → r.intact ≡ false
      → (walk hmac kr r expected prev entries).intact ≡ true
      → Linked hmac kr expected prev entries
  unfolding walk counted
  walk-Linked r expected prev [] blank done = tt
  walk-Linked r expected prev (l ∷ entries) blank done = elim (walk_one-cases r expected prev l) [
    | inl (eq, follows) ↦ (
      follows,
      walk-Linked (counted l r) (suc expected) l.entry_hash entries blank
          (ap (λ x. x.intact) (sym (walk-ok r (counted l r) expected prev l entries eq)) ∙ done),
    )
    | inr (stopped, eq, kept) ↦ absurd (
        true≢false (
          sym done
          ∙ ap (λ x. x.intact) (walk-err r stopped expected prev l entries eq)
          ∙ kept
          ∙ blank))
  ]

  pub Linked-walk :
      (r : AuditChainReport) (expected : ℕ) (prev : Bytes) (entries : List AuditLog)
      → Linked hmac kr expected prev entries
      → ((walk hmac kr r expected prev entries).intact ≡ true)
        × ((walk hmac kr r expected prev entries).verified ≡ r.verified + length entries)
        × ((walk hmac kr r expected prev entries).broken_at ≡ r.broken_at)
        × ((walk hmac kr r expected prev entries).unchained ≡ r.unchained)
  unfolding walk finished counted
  Linked-walk r expected prev [] linked = (refl, omega arith, refl, refl)
  Linked-walk r expected prev (l ∷ entries) (follows, linked) =
      let rest = Linked-walk (counted l r) (suc expected) l.entry_hash entries linked in
      let one =
        walk-ok r (counted l r) expected prev l entries
          (walk_one-Follows r expected prev l follows) in
      (rw (one) rest.0, rw (one) (rest.1 ∙ omega arith), rw (one) rest.2, rw (one) rest.3)

  -- Where the walk starts: the tag that the first entry has to follow.
  abbrev pub first_prev : AuditLog → Bytes
  first_prev l = if l.seq == 1 then audit_chain_zero_prev else l.prev_hash

  -- The report on a chain that is not empty says intact exactly if the entries are numbered without a gap from the first one's number, all verify, and each names the tag of the one before it (the zero tag before entry 1) where both have the size of a tag; the first one's number need not be 1, and what stood before it is not missed.
  pub verify_audit_chain_over-intact :
      (l : AuditLog) (entries : List AuditLog) (unchained : ℕ) (truncated : Bool)
      → ((verify_audit_chain_over hmac (l ∷ entries) (some kr) unchained truncated).intact ≡ true)
        ↔ Linked hmac kr l.seq (first_prev l) (l ∷ entries)
  unfolding verify_audit_chain_over
  verify_audit_chain_over-intact l entries unchained truncated =
      let start = record (blank_report unchained truncated) { first_seq = l.seq } in
      (
        walk-Linked start l.seq (first_prev l) (l ∷ entries) refl,
        λ linked. (Linked-walk start l.seq (first_prev l) (l ∷ entries) linked).0,
      )

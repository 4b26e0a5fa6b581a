-- ===== src/Acme/Nonce/Spent.antt =====
-- core/acmeserver/nonce.go: a nonce that has been spent.
use mathlib.Core.Bool.{true≢false}
use certpilot.Prelude.{
  ℕ, ◌≤◌, ◌≡◌, ◌⊎◌, refl, sym, ap, subst, ◌∙◌, inl, inr, Bool-cases, Option-cases, true, false,
  some, [], ◌∷◌, ◌++◌, ok, err, ok_injective, arith,
}
use certpilot.Audit.Bytes.{Bytes, bytes_eq, bytes_eq_refl}
use certpilot.Audit.Keyring.{Keyring}
use certpilot.Acme.Base64.{decode64, decode64-line_feed}
use certpilot.Acme.Nonce.{
  Nonces, bad_nonce, claim_acme_nonce, claimed, expires_after, expiry_of, is_genuine, seen,
  spend_nonce, spend_raw, sweep_acme_nonces,
}

expires_after-earlier :
    (e : ℕ) (now later : ℕ)
    → now ≤ later
    → expires_after e later ≡ true
    → expires_after e now ≡ true
unfolding expires_after
expires_after-earlier e now later h k = ground arith

expired_later :
    (e : ℕ) {now later : ℕ}
    → now ≤ later
    → expires_after e now ≡ false
    → expires_after e later ≡ false
unfolding expires_after
expired_later e h gone = ground arith

-- The table holds the hash with this expiry.
pub data Holds (hash : Bytes) (e : ℕ) : Nonces → Type 0 where
  here : {m : Nonces} → Holds hash e ((hash, e) ∷ m)
  there : {m : Nonces} (entry : Bytes × ℕ) → Holds hash e m → Holds hash e (entry ∷ m)

Holds-seen : {hash : Bytes} {e : ℕ} {m : Nonces} → Holds hash e m → seen hash m ≡ true
unfolding seen
Holds-seen {hash} here = rw (bytes_eq_refl hash) refl
Holds-seen {hash} (there entry h) = elim (Bool-cases (bytes_eq entry.0 hash)) [
  | inl q ↦ rw q refl
  | inr q ↦ rw q (Holds-seen h)
]

Holds-sweep :
    {hash : Bytes} {e : ℕ} {m : Nonces} (now : ℕ)
    → expires_after e now ≡ true
    → Holds hash e m
    → Holds hash e (sweep_acme_nonces now m)
unfolding sweep_acme_nonces
Holds-sweep now alive here = rw alive here
Holds-sweep now alive (there entry h) = elim (Bool-cases (expires_after entry.1 now)) [
  | inl q ↦ rw q (there entry (Holds-sweep now alive h))
  | inr q ↦ rw q (Holds-sweep now alive h)
]

Holds-claim :
    {hash : Bytes} {e : ℕ} {m : Nonces} (other : Bytes) (f : ℕ)
    → Holds hash e m
    → Holds hash e (claim_acme_nonce other f m).0
unfolding claim_acme_nonce
Holds-claim {m} other f h = elim (Bool-cases (seen other m)) [
  | inl q ↦ rw q h
  | inr q ↦ rw q (there (other, f) h)
]

module _ (hmac : Bytes → Bytes → Bytes) (sha : Bytes → Bytes) (kr : Keyring) where
  genuine-alive :
      (raw : Bytes) (now : ℕ)
      → is_genuine hmac sha kr raw now ≡ true
      → expires_after (expiry_of raw) now ≡ true
  unfolding is_genuine
  genuine-alive raw now h = elim (Bool-cases (expires_after (expiry_of raw) now)) [
    | inl e ↦ e
    | inr e ↦ ground (arith, e)
  ]

  -- What a successful spend shows.
  pub record Accepted (nonce : Bytes) (now : ℕ) (m m' : Nonces) : Type 0 where
    pub raw : Bytes
    pub decoded : decode64 nonce ≡ some raw
    pub genuine : is_genuine hmac sha kr raw now ≡ true
    pub fresh : seen (sha nonce) m ≡ false
    pub stored : m' ≡ (sha nonce, expiry_of raw) ∷ m

  claimed-ok :
      (hash : Bytes) (e : ℕ) (m : Nonces) {m' : Nonces}
      → claimed hmac sha kr (claim_acme_nonce hash e m) ≡ ok m'
      → (seen hash m ≡ false) × (m' ≡ (hash, e) ∷ m)
  unfolding claimed claim_acme_nonce
  claimed-ok hash e m h = elim (Bool-cases (seen hash m)) [
    | inl q ↦ absurd (cc (rw q at h))
    | inr q ↦ (q, sym (ok_injective (rw q at h)))
  ]

  spend_nonce-Accepted :
      (nonce : Bytes) (now : ℕ) (m : Nonces) {m' : Nonces}
      → spend_nonce hmac sha kr nonce now m ≡ ok m'
      → Accepted nonce now m m'
  unfolding spend_nonce spend_raw
  spend_nonce-Accepted nonce now m {m'} h = elim (Option-cases (decode64 nonce)) [
    | inl q ↦ absurd (cc (rw q at h))
    | inr (raw, q) ↦ elim (Bool-cases (is_genuine hmac sha kr raw now)) [
      | inr g ↦ absurd (cc (rw (q, g) at h))
      | inl g ↦
          let (fresh, stored) = claimed-ok (sha nonce) (expiry_of raw) m (rw (q, g) at h) in
          record { raw = raw; decoded = q; genuine = g; fresh = fresh; stored = stored }
    ]
  ]

  pub Accepted-spend_nonce :
      {nonce : Bytes} {now : ℕ} {m m' : Nonces}
      → Accepted nonce now m m'
      → spend_nonce hmac sha kr nonce now m ≡ ok m'
  unfolding spend_nonce spend_raw claimed claim_acme_nonce
  Accepted-spend_nonce a =
      rw (a.decoded, spend_raw, a.genuine, claim_acme_nonce, a.fresh, claimed)
        (ap ok (sym a.stored))

  -- Why a nonce is refused for good: its hash is in the table, or it has expired.
  abbrev pub IsSpent : Bytes → Bytes → ℕ → Nonces → Type 0
  IsSpent nonce raw now m =
      Holds (sha nonce) (expiry_of raw) m ⊎ (expires_after (expiry_of raw) now ≡ false)

  spent_refused :
      (nonce raw : Bytes) (now : ℕ) (m : Nonces)
      → decode64 nonce ≡ some raw
      → IsSpent nonce raw now m
      → spend_nonce hmac sha kr nonce now m ≡ err bad_nonce
  unfolding spend_nonce spend_raw claimed claim_acme_nonce
  spent_refused nonce raw now m q s = elim (Bool-cases (is_genuine hmac sha kr raw now)) [
    | inr g ↦ rw (q, spend_raw, g) refl
    | inl g ↦ elim s [
      | inl held ↦ rw (q, spend_raw, g, claim_acme_nonce, Holds-seen held, claimed) refl
      | inr gone ↦ absurd (true≢false (sym (genuine-alive raw now g) ∙ gone))
    ]
  ]

  -- What happens to the table from one time to a later one.
  pub data Step (now : ℕ) (m : Nonces) (later : ℕ) : Nonces → Type 0 where
    waits : now ≤ later → Step now m later m
    spends :
        (nonce : Bytes) {m' : Nonces}
        → now ≤ later
        → spend_nonce hmac sha kr nonce later m ≡ ok m'
        → Step now m later m'
    sweeps : now ≤ later → Step now m later (sweep_acme_nonces later m)

  pub data History (now : ℕ) (m : Nonces) : ℕ → Nonces → Type 0 where
    start : History now m now m
    next :
        {then_it later : ℕ} {m' m'' : Nonces}
        → History now m then_it m'
        → Step then_it m' later m''
        → History now m later m''

  Step-IsSpent :
      (nonce raw : Bytes) {now later : ℕ} {m m' : Nonces}
      → Step now m later m'
      → IsSpent nonce raw now m
      → IsSpent nonce raw later m'
  Step-IsSpent nonce raw (waits order) (inl held) = inl held
  Step-IsSpent nonce raw (waits order) (inr gone) = inr (expired_later (expiry_of raw) order gone)
  Step-IsSpent nonce raw {later} {m} (spends other order e) (inl held) =
      let a = spend_nonce-Accepted other later m e in
      inl (
        subst (Holds (sha nonce) (expiry_of raw)) (sym a.stored)
          (there (sha other, expiry_of a.raw) held))
  Step-IsSpent nonce raw (spends other order e) (inr gone) =
      inr (expired_later (expiry_of raw) order gone)
  Step-IsSpent nonce raw {later} (sweeps order) (inl held) =
      elim (Bool-cases (expires_after (expiry_of raw) later)) [
        | inl alive ↦ inl (Holds-sweep later alive held)
        | inr gone ↦ inr gone
      ]
  Step-IsSpent nonce raw (sweeps order) (inr gone) = inr (expired_later (expiry_of raw) order gone)

  History-IsSpent :
      (nonce raw : Bytes) {now : ℕ} {m : Nonces} {later : ℕ} {m' : Nonces}
      → History now m later m'
      → IsSpent nonce raw now m
      → IsSpent nonce raw later m'
  History-IsSpent nonce raw start s = s
  History-IsSpent nonce raw (next h st) s =
      Step-IsSpent nonce raw st (History-IsSpent nonce raw h s)

  -- Once a nonce has been spent, every later attempt to spend the same text is refused as a bad nonce, whatever nonces are spent and however often the table is swept in between, while the clock does not run backwards.
  pub spend_nonce-once :
      (nonce : Bytes) (now : ℕ) (m : Nonces) {m' : Nonces} {later : ℕ} {m'' : Nonces}
      → spend_nonce hmac sha kr nonce now m ≡ ok m'
      → History now m' later m''
      → spend_nonce hmac sha kr nonce later m'' ≡ err bad_nonce
  spend_nonce-once nonce now m {m'} {later} {m''} e h =
      let a = spend_nonce-Accepted nonce now m e in
      spent_refused nonce a.raw later m'' a.decoded (
        History-IsSpent nonce a.raw h
          (inl (subst (Holds (sha nonce) (expiry_of a.raw)) (sym a.stored) here)))

  -- A nonce that has just been spent is accepted a second time when a line feed is written behind it, provided that no spent nonce has the hash of that longer text.
  pub spend_nonce-respelled :
      (nonce : Bytes) (now : ℕ) (m : Nonces) {m' : Nonces}
      → spend_nonce hmac sha kr nonce now m ≡ ok m'
      → seen (sha (nonce ++ 10 ∷ [])) m' ≡ false
      → (m'' : Nonces) × (spend_nonce hmac sha kr (nonce ++ 10 ∷ []) now m' ≡ ok m'')
  spend_nonce-respelled nonce now m {m'} e unseen =
      let a = spend_nonce-Accepted nonce now m e in
      (
        (sha (nonce ++ 10 ∷ []), expiry_of a.raw) ∷ m',
        Accepted-spend_nonce (record {
          raw = a.raw;
          decoded = decode64-line_feed nonce ∙ a.decoded;
          genuine = a.genuine;
          fresh = unseen;
          stored = refl;
        }),
      )

-- ===== src/Acme/Nonce/Examples.antt =====
-- One nonce, minted, spent and spent again. The authentication code here only counts bytes, and the
-- hash is the text itself.
use certpilot.Prelude.{
  ℕ, ◌%◌, ◌≡◌, refl, ap, inl, inr, Bool-cases, false, some, [], ◌∷◌, ◌++◌, ok, err, arith, length,
  length-append,
}
use certpilot.Audit.Bytes.{Bytes, AreBytes, bytes_eq, bytes_eq_sound}
use certpilot.Audit.Keyring.{Keyring}
use certpilot.Acme.Base64.{encode64, decode64-encode64}
use certpilot.Acme.Nonce.{Nonces, bad_nonce, expiry_of, mint_nonce, seen, spend_nonce}
use certpilot.Acme.Nonce.Spent.{
  Accepted-spend_nonce, History, spend_nonce-once, spend_nonce-respelled,
}
use certpilot.Acme.Nonce.Minted.{
  alive_until, genuine_while, minted-AreBytes, raw_nonce, spend_nonce-mint_nonce,
}

abbrev toy_hmac : Bytes → Bytes → Bytes
toy_hmac key message =
    length key % 256
    ∷ length message % 256
    ∷ 0
    ∷ 0
    ∷ 0
    ∷ 0
    ∷ 0
    ∷ 0
    ∷ 0
    ∷ 0
    ∷ 0
    ∷ 0
    ∷ 0
    ∷ 0
    ∷ 0
    ∷ 0
    ∷ 0
    ∷ 0
    ∷ 0
    ∷ 0
    ∷ 0
    ∷ 0
    ∷ 0
    ∷ 0
    ∷ 0
    ∷ 0
    ∷ 0
    ∷ 0
    ∷ 0
    ∷ 0
    ∷ 0
    ∷ 0
    ∷ []

toy_hmac-AreBytes : (key message : Bytes) → AreBytes (toy_hmac key message)
toy_hmac-AreBytes key message = omega arith

abbrev own_text : Bytes → Bytes
own_text s = s

abbrev the_id : Bytes
the_id = 17 ∷ 2 ∷ 3 ∷ 4 ∷ 5 ∷ 6 ∷ 7 ∷ 255 ∷ []

abbrev the_kek : Bytes
the_kek = 1 ∷ 2 ∷ []

abbrev the_ring : Keyring
the_ring = record { primary_id = the_id; keks = λ id. some the_kek }

abbrev drawn : Bytes
drawn = 9 ∷ 8 ∷ 7 ∷ 6 ∷ 5 ∷ 4 ∷ 3 ∷ 2 ∷ 1 ∷ 0 ∷ 255 ∷ 254 ∷ 253 ∷ 252 ∷ 251 ∷ 250 ∷ []

abbrev minted_at : ℕ
minted_at = 1_700_000_000_123_456_789

abbrev spent_at : ℕ
spent_at = 1_700_000_300_000_000_000

abbrev its_raw : Bytes
its_raw = raw_nonce toy_hmac own_text the_ring the_kek minted_at drawn

abbrev its_nonce : Bytes
its_nonce = encode64 its_raw

drawn-AreBytes : AreBytes drawn
drawn-AreBytes = omega arith

the_id-AreBytes : AreBytes the_id
the_id-AreBytes = omega arith

abbrev its_table : Nonces
its_table = (its_nonce, expiry_of its_raw) ∷ []

spent_first : spend_nonce toy_hmac own_text the_ring its_nonce spent_at [] ≡ ok its_table
unfolding seen
spent_first = Accepted-spend_nonce toy_hmac own_text the_ring (record {
  raw = its_raw;
  decoded = decode64-encode64 its_raw (
      minted-AreBytes toy_hmac own_text the_ring the_kek drawn minted_at toy_hmac-AreBytes
        the_id-AreBytes drawn-AreBytes);
  genuine =
      genuine_while toy_hmac own_text the_ring the_kek drawn minted_at spent_at (λ k m. refl)
        the_id-AreBytes refl refl refl
        (alive_until toy_hmac own_text the_ring minted_at spent_at (omega arith) (omega arith))
        (omega arith);
  fresh = refl;
  stored = refl;
})

longer : (s : Bytes) → bytes_eq s (s ++ 10 ∷ []) ≡ false
longer s = elim (Bool-cases (bytes_eq s (s ++ 10 ∷ []))) [
  | inl e ↦
      absurd
        (omega (arith, ap length (bytes_eq_sound s (s ++ 10 ∷ []) e), length-append s (10 ∷ [])))
  | inr e ↦ e
]

unseen : seen (its_nonce ++ 10 ∷ []) its_table ≡ false
unfolding seen
unseen = rw (longer its_nonce) refl

-- Witnesses.
spend_nonce-mint_nonce_example :
    (nonce : Bytes) × (mint_nonce toy_hmac own_text the_ring (some drawn) minted_at ≡ ok nonce)
    × (m' : Nonces) × (spend_nonce toy_hmac own_text the_ring nonce spent_at [] ≡ ok m')
unfolding seen
spend_nonce-mint_nonce_example =
    spend_nonce-mint_nonce toy_hmac own_text the_ring the_kek drawn minted_at spent_at []
      (λ k m. refl) toy_hmac-AreBytes the_id-AreBytes refl refl drawn-AreBytes refl (omega arith)
      (omega arith) refl

spend_nonce-once_example :
    spend_nonce toy_hmac own_text the_ring its_nonce spent_at its_table ≡ err bad_nonce
spend_nonce-once_example =
    spend_nonce-once toy_hmac own_text the_ring its_nonce spent_at [] spent_first History.start

spend_nonce-respelled_example :
    (m'' : Nonces) × (spend_nonce toy_hmac own_text the_ring
        (its_nonce ++ 10 ∷ [])
        spent_at
        its_table
      ≡ ok m'')
spend_nonce-respelled_example =
    spend_nonce-respelled toy_hmac own_text the_ring its_nonce spent_at [] spent_first unseen

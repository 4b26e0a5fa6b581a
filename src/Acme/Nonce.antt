-- ===== src/Acme/Nonce.antt =====
-- core/acmeserver/nonce.go, and the nonces of core/store/inmemory_acme.go. Times are nanoseconds from the epoch.
-- HMAC-SHA256 and SHA-256 are parameters; the random bytes of a nonce are an argument.
pub mod Spent
pub mod Minted
mod Examples
use certpilot.Prelude.{
  ℕ, suc, ◌+◌, ◌*◌, ◌/◌, Bool, true, false, not, Option, none, some, List, [], ◌∷◌, ◌++◌, Result,
  ok, err, length, take, drop, ltb, ◌==◌, if◌then◌else◌,
}
use certpilot.Audit.Bytes.{Bytes, be64, uint64_of, bytes_eq, hex_encode, hex_decode}
use certpilot.Audit.Keyring.{Keyring, KeyError, key_id_size, mac_size, keyring_mac, verify_mac}
use certpilot.Acme.Base64.{encode64, decode64}

pub data NonceError : Type 0 where
  bad_nonce no_random bad_key_id : NonceError
  key_failure : KeyError → NonceError

-- Ten minutes.
abbrev pub nonce_life : ℕ
nonce_life = 600_000_000_000

abbrev pub second_ns : ℕ
second_ns = 1_000_000_000

abbrev pub nonce_random : ℕ
nonce_random = 16

abbrev pub data_size : ℕ
data_size = 24

-- "acme-nonce"
pub nonce_purpose : Bytes
nonce_purpose = b'a' ∷ b'c' ∷ b'm' ∷ b'e' ∷ b'-' ∷ b'n' ∷ b'o' ∷ b'n' ∷ b'c' ∷ b'e' ∷ []

-- `time.Unix(int64(seconds), 0).After(now)`: a count of seconds that does not fit into the internal one
-- of a time wraps to before the epoch.
pub expires_after : ℕ → ℕ → Bool
expires_after seconds now =
    if ltb (seconds + 62_135_596_800) 9_223_372_036_854_775_808
    then ltb now (seconds * second_ns)
    else false

-- The table of spent nonces: the hash and the expiry in seconds.
abbrev pub Nonces : Type 0
Nonces = List (Bytes × ℕ)

pub seen : Bytes → Nonces → Bool
seen hash [] = false
seen hash ((h, e) ∷ rest) = if bytes_eq h hash then true else seen hash rest

-- ClaimACMENonce: the table, and whether this was the first claim.
pub claim_acme_nonce : Bytes → ℕ → Nonces → Nonces × Bool
unfolding seen
claim_acme_nonce hash expires m = if seen hash m then (m, false) else ((hash, expires) ∷ m, true)

-- SweepACMENonces.
pub sweep_acme_nonces : ℕ → Nonces → Nonces
unfolding expires_after
sweep_acme_nonces now [] = []
sweep_acme_nonces now ((h, e) ∷ rest) =
    let swept = sweep_acme_nonces now rest in if expires_after e now then (h, e) ∷ swept else swept

-- The parts of a decoded nonce.
pub key_part : Bytes → Bytes
key_part raw = hex_encode (take key_id_size raw)

pub data_part : Bytes → Bytes
data_part raw = take data_size (drop key_id_size raw)

pub tag_part : Bytes → Bytes
tag_part raw = drop (key_id_size + data_size) raw

pub expiry_of : Bytes → ℕ
unfolding data_part
expiry_of raw = uint64_of (drop nonce_random (data_part raw))

module _ (hmac : Bytes → Bytes → Bytes) (sha : Bytes → Bytes) (kr : Keyring) where
  with_id : Bytes → Bytes → Option Bytes → Result NonceError Bytes
  with_id nonce_data tag none = err bad_key_id
  with_id nonce_data tag (some id) = ok (encode64 ((id ++ nonce_data) ++ tag))

  pub sealed_nonce : Bytes → Result NonceError Bytes
  unfolding with_id nonce_purpose
  sealed_nonce nonce_data = elim (keyring_mac hmac kr nonce_purpose nonce_data) [
    | err e ↦ err (key_failure e)
    | ok (key_id, tag) ↦ with_id nonce_data tag (hex_decode key_id)
  ]

  -- The random bytes, where the generator gives any.
  pub mint_nonce : Option Bytes → ℕ → Result NonceError Bytes
  unfolding sealed_nonce
  mint_nonce none now = err no_random
  mint_nonce (some random) now = sealed_nonce (random ++ be64 ((now + nonce_life) / second_ns))

  -- Whether the server made the decoded nonce, and it has not expired.
  pub is_genuine : Bytes → ℕ → Bool
  unfolding key_part data_part tag_part expiry_of expires_after nonce_purpose
  is_genuine raw now =
      if not (length raw == key_id_size + data_size + mac_size)
      then false
      else elim (verify_mac hmac kr (key_part raw) nonce_purpose (data_part raw) (tag_part raw)) [
        | err e ↦ false
        | ok matches ↦ if matches then expires_after (expiry_of raw) now else false
      ]

  -- The claim of a nonce that is genuine.
  pub claimed : Nonces × Bool → Result NonceError Nonces
  claimed (m, first) = if first then ok m else err bad_nonce

  pub spend_raw : Bytes → ℕ → Nonces → Option Bytes → Result NonceError Nonces
  unfolding is_genuine claimed claim_acme_nonce expiry_of
  spend_raw nonce now m none = err bad_nonce
  spend_raw nonce now m (some raw) =
      if is_genuine raw now
      then claimed (claim_acme_nonce (sha nonce) (expiry_of raw) m)
      else err bad_nonce

  -- The table after the nonce is spent.
  pub spend_nonce : Bytes → ℕ → Nonces → Result NonceError Nonces
  unfolding spend_raw
  spend_nonce nonce now m = spend_raw nonce now m (decode64 nonce)

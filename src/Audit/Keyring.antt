-- ===== src/Audit/Keyring.antt =====
-- pkg/secrets/secrets.go: tags under the keys of a keyring. HMAC-SHA256 is a parameter.
use certpilot.Prelude.{
  ℕ, ◌≡◌, refl, inl, inr, Bool-cases, some_injective, Bool, true, Option, none, some, [], ◌∷◌, ◌++◌,
  length, ◌==◌, if◌then◌else◌, Result, ok, err, ok_injective, ap, sym, ◌∙◌,
}
use certpilot.Audit.Bytes.{
  Bytes, bytes_eq, bytes_eq_refl, bytes_eq_sound, hex_encode, hex_decode, hex_decode-encode,
  AreBytes,
}

abbrev pub key_id_size : ℕ
key_id_size = 8

abbrev pub mac_size : ℕ
mac_size = 32

pub data KeyError : Type 0 where
  no_key unknown_key : KeyError

-- The map from identifiers to keys is a function.
pub record Keyring : Type 0 where
  pub primary_id : Bytes
  pub keks : Bytes → Option Bytes

-- "certpilot/subkey\x00"
subkey_label : Bytes
subkey_label =
    b'c' ∷ b'e' ∷ b'r' ∷ b't' ∷ b'p' ∷ b'i' ∷ b'l' ∷ b'o' ∷ b't' ∷ b'/' ∷ b's' ∷ b'u' ∷ b'b' ∷ b'k'
    ∷ b'e' ∷ b'y' ∷ 0 ∷ []

module _ (hmac : Bytes → Bytes → Bytes) where
  pub mac : Bytes → Bytes → Bytes → Bytes
  unfolding subkey_label
  mac kek purpose message = hmac (hmac kek (subkey_label ++ purpose)) message

  -- The identifier of the key, in hexadecimal, and the tag.
  pub keyring_mac : Keyring → Bytes → Bytes → Result KeyError (Bytes × Bytes)
  keyring_mac kr purpose message = elim (kr.keks kr.primary_id) [
    | none ↦ err KeyError.no_key
    | some kek ↦ ok (hex_encode kr.primary_id, mac kek purpose message)
  ]

  tag_matches : Bytes → Bytes → Bytes → Option Bytes → Result KeyError Bool
  tag_matches purpose message tag none = err KeyError.unknown_key
  tag_matches purpose message tag (some kek) = ok (bytes_eq (mac kek purpose message) tag)

  verify_under : Keyring → Bytes → Bytes → Bytes → Option Bytes → Result KeyError Bool
  unfolding tag_matches
  verify_under kr purpose message tag none = err KeyError.unknown_key
  verify_under kr purpose message tag (some id) =
      if length id == key_id_size
      then tag_matches purpose message tag (kr.keks id)
      else err KeyError.unknown_key

  pub verify_mac : Keyring → Bytes → Bytes → Bytes → Bytes → Result KeyError Bool
  unfolding verify_under
  verify_mac kr key_id purpose message tag = verify_under kr purpose message tag (hex_decode key_id)

  tagged :
      (kr : Keyring) (purpose message : Bytes) {key_id tag : Bytes} (found : Option Bytes)
      → kr.keks kr.primary_id ≡ found
      → keyring_mac kr purpose message ≡ ok (key_id, tag)
      → (kek : Bytes) × (found ≡ some kek)
        × (key_id ≡ hex_encode kr.primary_id)
        × (tag ≡ mac kek purpose message)
  unfolding keyring_mac
  tagged kr purpose message none e h = absurd (cc (rw (e, keyring_mac) at h))
  tagged kr purpose message (some kek) e h =
      let pair = ok_injective (rw (e, keyring_mac) at h) in
      (kek, refl, sym (ap (λ p. p.0) pair), sym (ap (λ p. p.1) pair))

  pub keyring_mac-known :
      (kr : Keyring) (kek purpose message : Bytes)
      → kr.keks kr.primary_id ≡ some kek
      → keyring_mac kr purpose message ≡ ok (hex_encode kr.primary_id, mac kek purpose message)
  unfolding keyring_mac
  keyring_mac-known kr kek purpose message found = rw (found, keyring_mac) refl

  pub mac-AreBytes :
      ((key message : Bytes) → AreBytes (hmac key message))
      → (kek purpose message : Bytes) → AreBytes (mac kek purpose message)
  unfolding mac
  mac-AreBytes codes kek purpose message = codes (hmac kek (subkey_label ++ purpose)) message

  pub length-mac :
      ((key message : Bytes) → length (hmac key message) ≡ mac_size)
      → (kek purpose message : Bytes) → length (mac kek purpose message) ≡ mac_size
  unfolding mac
  length-mac sizes kek purpose message = sizes (hmac kek (subkey_label ++ purpose)) message

  pub verify_mac-known :
      (kr : Keyring) (id kek purpose message : Bytes)
      → AreBytes id
      → length id ≡ key_id_size
      → kr.keks id ≡ some kek
      → verify_mac kr (hex_encode id) purpose message (mac kek purpose message) ≡ ok true
  unfolding verify_mac verify_under tag_matches
  verify_mac-known kr id kek purpose message bytes size found =
      rw (hex_decode-encode id bytes, size, found, bytes_eq_refl (mac kek purpose message)) refl

  verify_mac-unknown :
      (kr : Keyring) (id purpose message tag : Bytes)
      → AreBytes id
      → length id ≡ key_id_size
      → kr.keks id ≡ none
      → verify_mac kr (hex_encode id) purpose message tag ≡ err KeyError.unknown_key
  unfolding verify_mac verify_under tag_matches
  verify_mac-unknown kr id purpose message tag bytes size dropped =
      rw (hex_decode-encode id bytes, size, dropped) refl

  -- A tag that a keyring made under its primary key, whose identifier is eight bytes, is accepted by every keyring that holds the same key under that identifier, whichever key is primary there, and a keyring that holds no key under it answers that the key is unknown.
  pub verify-keyring_mac :
      (old new lost : Keyring) (purpose message : Bytes) {key_id tag : Bytes}
      → keyring_mac old purpose message ≡ ok (key_id, tag)
      → AreBytes old.primary_id
      → length old.primary_id ≡ key_id_size
      → new.keks old.primary_id ≡ old.keks old.primary_id
      → lost.keks old.primary_id ≡ none
      → (verify_mac new key_id purpose message tag ≡ ok true)
        × (verify_mac lost key_id purpose message tag ≡ err KeyError.unknown_key)
  verify-keyring_mac old new lost purpose message {key_id} {tag} h bytes size kept dropped =
      let made = tagged old purpose message (old.keks old.primary_id) refl h in
      (
        rw (made.2, made.3)
            (verify_mac-known new old.primary_id made.0 purpose message bytes size (kept ∙ made.1)),
        rw (made.2) (verify_mac-unknown lost old.primary_id purpose message tag bytes size dropped),
      )

  checks_under :
      (purpose message tag : Bytes) (found : Option Bytes)
      → tag_matches purpose message tag found ≡ ok true
      → (kek : Bytes) × (found ≡ some kek) × (mac kek purpose message ≡ tag)
  unfolding tag_matches
  checks_under purpose message tag none h = absurd cc
  checks_under purpose message tag (some kek) h =
      (kek, refl, bytes_eq_sound (mac kek purpose message) tag (ok_injective h))

  agree_under :
      (kr : Keyring) (purpose m m' tag : Bytes) (found : Option Bytes)
      → verify_under kr purpose m tag found ≡ ok true
      → verify_under kr purpose m' tag found ≡ ok true
      → (id kek : Bytes) × (found ≡ some id)
        × (kr.keks id ≡ some kek)
        × (mac kek purpose m ≡ tag)
        × (mac kek purpose m' ≡ tag)
  unfolding verify_under
  agree_under kr purpose m m' tag none h h' = absurd cc
  agree_under kr purpose m m' tag (some id) h h' = elim (Bool-cases (length id == key_id_size)) [
    | inl e ↦
        let a = checks_under purpose m tag (kr.keks id) (rw (e) at h) in
        let b = checks_under purpose m' tag (kr.keks id) (rw (e) at h') in
        (
          id,
          a.0,
          refl,
          a.1,
          a.2,
          ap (λ kek. mac kek purpose m') (some_injective (sym a.1 ∙ b.1)) ∙ b.2,
        )
    | inr e ↦ absurd (cc (rw (e) at h))
  ]

  -- Two messages with one accepted tag have it under the key that the keyring holds under the identifier.
  pub verify_mac-agree :
      (kr : Keyring) (key_id purpose m m' tag : Bytes)
      → verify_mac kr key_id purpose m tag ≡ ok true
      → verify_mac kr key_id purpose m' tag ≡ ok true
      → (id kek : Bytes) × (hex_decode key_id ≡ some id)
        × (kr.keks id ≡ some kek)
        × (mac kek purpose m ≡ tag)
        × (mac kek purpose m' ≡ tag)
  unfolding verify_mac
  verify_mac-agree kr key_id purpose m m' tag h h' =
      agree_under kr purpose m m' tag (hex_decode key_id) h h'

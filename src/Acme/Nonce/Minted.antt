-- ===== src/Acme/Nonce/Minted.antt =====
-- core/acmeserver/nonce.go: a nonce that the server has just made.
use certpilot.Prelude.{
  ℕ, zero, suc, ◌+◌, ◌/◌, ◌≤◌, ◌<◌, ◌≡◌, refl, sym, subst, ap, ◌∙◌, true, false, some, [], ◌∷◌,
  ◌++◌, ok, arith, length, length-append, take, drop, ◌==◌,
}
use certpilot.Audit.Bytes.{
  Bytes, AreBytes, be64, hex_encode, hex_decode-encode, length-be64, uint64_of, uint64_of-be64,
  be64-AreBytes,
}
use certpilot.Audit.Keyring.{
  Keyring, key_id_size, mac_size, mac, keyring_mac-known, verify_mac, verify_mac-known, length-mac,
  mac-AreBytes,
}
use certpilot.Acme.Base64.{encode64, decode64-encode64}
use certpilot.Acme.Nonce.{
  Nonces, data_part, data_size, expires_after, expiry_of, is_genuine, key_part, mint_nonce,
  nonce_life, nonce_purpose, nonce_random, sealed_nonce, second_ns, seen, spend_nonce, tag_part,
  uint64_of, with_id,
}
use certpilot.Acme.Nonce.Spent.{Accepted-spend_nonce}

take-append : (xs ys : Bytes) (n : ℕ) → length xs ≡ n → take n (xs ++ ys) ≡ xs
take-append [] ys zero h = refl
take-append [] ys (suc n) h = absurd (omega arith)
take-append (x ∷ xs) ys zero h = absurd (omega arith)
take-append (x ∷ xs) ys (suc n) h = ap (λ rest. x ∷ rest) (take-append xs ys n (omega arith))

drop-append : (xs ys : Bytes) (n : ℕ) → length xs ≡ n → drop n (xs ++ ys) ≡ ys
drop-append [] ys zero h = refl
drop-append [] ys (suc n) h = absurd (omega arith)
drop-append (x ∷ xs) ys zero h = absurd (omega arith)
drop-append (x ∷ xs) ys (suc n) h = drop-append xs ys n (omega arith)

append-AreBytes : (xs ys : Bytes) → AreBytes xs → AreBytes ys → AreBytes (xs ++ ys)
append-AreBytes [] ys h k = k
append-AreBytes (x ∷ xs) ys h k = (h.0, append-AreBytes xs ys h.1 k)

assoc : (xs ys zs : Bytes) → (xs ++ ys) ++ zs ≡ xs ++ (ys ++ zs)
assoc [] ys zs = refl
assoc (x ∷ xs) ys zs = ap (λ rest. x ∷ rest) (assoc xs ys zs)

-- The parts of what is put together are the parts.
module _ (id random expiry tag : Bytes) (size_id : length id ≡ key_id_size)
    (size_random : length random ≡ nonce_random) (size_expiry : length expiry ≡ 8) where
  abbrev whole : Bytes
  whole = (id ++ (random ++ expiry)) ++ tag

  whole_assoc : whole ≡ id ++ ((random ++ expiry) ++ tag)
  whole_assoc = assoc id (random ++ expiry) tag

  length-parts : length (random ++ expiry) ≡ data_size
  length-parts = omega (arith, length-append random expiry, size_random, size_expiry)

  key_part-whole : key_part whole ≡ hex_encode id
  unfolding key_part
  key_part-whole =
      ap (λ w. hex_encode (take 8 w)) whole_assoc ∙ ap hex_encode (take-append id _ 8 size_id)

  data_part-whole : data_part whole ≡ random ++ expiry
  unfolding data_part
  data_part-whole =
      ap (λ w. take 24 (drop 8 w)) whole_assoc
      ∙ ap (take 24) (drop-append id _ 8 size_id)
      ∙ take-append (random ++ expiry) tag 24 length-parts

  tag_part-whole : tag_part whole ≡ tag
  unfolding tag_part
  tag_part-whole =
      drop-append (id ++ (random ++ expiry)) tag 32
        (omega (arith, length-append id (random ++ expiry), size_id, length-parts))

  expiry_of-whole : expiry_of whole ≡ uint64_of expiry
  unfolding expiry_of
  expiry_of-whole =
      ap (λ d. uint64_of (drop 16 d)) data_part-whole
      ∙ ap uint64_of (drop-append random expiry 16 size_random)

  length-whole : length tag ≡ mac_size → length whole ≡ 64
  length-whole h = omega (
    arith,
    length-append (id ++ (random ++ expiry)) tag,
    length-append id (random ++ expiry),
    size_id,
    length-parts,
    h,
  )

-- The seconds that a nonce minted then holds.
abbrev pub expiry_at : ℕ → ℕ
expiry_at now = (now + nonce_life) / second_ns

module _ (hmac : Bytes → Bytes → Bytes) (sha : Bytes → Bytes) (kr : Keyring) where
  -- The bytes of a nonce before they are written in base64.
  abbrev pub raw_nonce : Bytes → ℕ → Bytes → Bytes
  raw_nonce kek now random =
      let body = random ++ be64 (expiry_at now) in
      (kr.primary_id ++ body) ++ mac hmac kek nonce_purpose body

  mint_nonce-raw :
      (kek random : Bytes) (now : ℕ)
      → AreBytes kr.primary_id
      → kr.keks kr.primary_id ≡ some kek
      → mint_nonce hmac sha kr (some random) now ≡ ok (encode64 (raw_nonce kek now random))
  unfolding mint_nonce sealed_nonce with_id
  mint_nonce-raw kek random now bytes found =
      rw
        (
          keyring_mac-known hmac kr kek nonce_purpose (random ++ be64 (expiry_at now)) found,
          sealed_nonce,
          hex_decode-encode kr.primary_id bytes,
        )
        refl

  genuine_by_parts :
      (raw : Bytes) (now : ℕ)
      → length raw ≡ 64
      → verify_mac hmac kr (key_part raw) nonce_purpose (data_part raw) (tag_part raw) ≡ ok true
      → expires_after (expiry_of raw) now ≡ true
      → is_genuine hmac sha kr raw now ≡ true
  unfolding is_genuine
  genuine_by_parts raw now size accepted alive =
      let sized : (length raw == 64) ≡ true = ground arith in rw (sized, is_genuine, accepted) alive

  pub genuine_while :
      (kek random : Bytes) (now later : ℕ)
      → ((key message : Bytes) → length (hmac key message) ≡ mac_size)
      → AreBytes kr.primary_id
      → length kr.primary_id ≡ key_id_size
      → kr.keks kr.primary_id ≡ some kek
      → length random ≡ nonce_random
      → expires_after (expiry_at now) later ≡ true
      → expiry_at now < 18_446_744_073_709_551_616
      → is_genuine hmac sha kr (raw_nonce kek now random) later ≡ true
  genuine_while kek random now later sizes bytes size found long alive small =
      let expiry = be64 (expiry_at now) in
      let tag = mac hmac kek nonce_purpose (random ++ expiry) in
      let eight = length-be64 (expiry_at now) in
      let parts =
        λ (P : Bytes → Bytes → Bytes → Type 0)
            (h : P (hex_encode kr.primary_id) (random ++ expiry) tag).
          subst
            (λ k. P k (data_part (raw_nonce kek now random)) (tag_part (raw_nonce kek now random)))
            (sym (key_part-whole kr.primary_id random expiry tag size long eight))
            (subst (λ d. P (hex_encode kr.primary_id) d (tag_part (raw_nonce kek now random)))
              (sym (data_part-whole kr.primary_id random expiry tag size long eight))
              (subst (λ t. P (hex_encode kr.primary_id) (random ++ expiry) t)
                (sym (tag_part-whole kr.primary_id random expiry tag size long eight)) h)) in
      genuine_by_parts (raw_nonce kek now random) later
        (length-whole kr.primary_id random expiry tag size long eight
          (length-mac hmac sizes kek nonce_purpose (random ++ expiry)))
        (parts (λ k d t. verify_mac hmac kr k nonce_purpose d t ≡ ok true)
          (verify_mac-known hmac kr kr.primary_id kek nonce_purpose (random ++ expiry) bytes size
            found))
        (subst (λ e. expires_after e later ≡ true)
          (sym (
            expiry_of-whole kr.primary_id random expiry tag size long eight
            ∙ uint64_of-be64 (expiry_at now) small))
          alive)

  pub minted-AreBytes :
      (kek random : Bytes) (now : ℕ)
      → ((key message : Bytes) → AreBytes (hmac key message))
      → AreBytes kr.primary_id
      → AreBytes random
      → AreBytes (raw_nonce kek now random)
  minted-AreBytes kek random now codes bytes drawn =
      let body = random ++ be64 (expiry_at now) in
      append-AreBytes (kr.primary_id ++ body) _
        (append-AreBytes kr.primary_id body bytes
          (append-AreBytes random _ drawn (be64-AreBytes (expiry_at now))))
        (mac-AreBytes hmac codes kek nonce_purpose body)

  pub alive_until :
      (now later : ℕ)
      → later + second_ns ≤ now + nonce_life
      → expiry_at now + 62_135_596_800 < 9_223_372_036_854_775_808
      → expires_after (expiry_at now) later ≡ true
  unfolding expires_after
  alive_until now later h k = ground arith

  -- The server can mint a nonce, and accepts it until one second before its ten minutes are over, unless its hash has been claimed before; the keyring holds its primary key under an identifier of eight bytes, sixteen random bytes were drawn, HMAC gives 32 bytes, and the time fits into the seconds of a time.
  pub spend_nonce-mint_nonce :
      (kek random : Bytes) (now later : ℕ) (m : Nonces)
      → ((key message : Bytes) → length (hmac key message) ≡ mac_size)
      → ((key message : Bytes) → AreBytes (hmac key message))
      → AreBytes kr.primary_id
      → length kr.primary_id ≡ key_id_size
      → kr.keks kr.primary_id ≡ some kek
      → AreBytes random
      → length random ≡ nonce_random
      → later + second_ns ≤ now + nonce_life
      → expiry_at now + 62_135_596_800 < 9_223_372_036_854_775_808
      → seen (sha (encode64 (raw_nonce kek now random))) m ≡ false
      → (nonce : Bytes) × (mint_nonce hmac sha kr (some random) now ≡ ok nonce)
        × (m' : Nonces) × (spend_nonce hmac sha kr nonce later m ≡ ok m')
  spend_nonce-mint_nonce kek random now later m sizes codes bytes size found drawn long early fits
        fresh =
      let raw = raw_nonce kek now random in
      (
        encode64 raw,
        mint_nonce-raw kek random now bytes found,
        (sha (encode64 raw), expiry_of raw) ∷ m,
        Accepted-spend_nonce hmac sha kr (record {
          raw = raw;
          decoded = decode64-encode64 raw (minted-AreBytes kek random now codes bytes drawn);
          genuine =
              genuine_while kek random now later sizes bytes size found long
                (alive_until now later early fits) (omega arith);
          fresh = fresh;
          stored = refl;
        }),
      )

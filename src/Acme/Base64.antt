-- ===== src/Acme/Base64.antt =====
-- RawURLEncoding of encoding/base64, which the nonces are written in: no padding, the URL alphabet,
-- line breaks skipped and the unused bits of the last character ignored.
use mathlib.Core.Path.{ap₂}
use certpilot.Prelude.{
  ℕ, ◌+◌, ◌-◌, ◌*◌, ◌/◌, ◌%◌, ◌<◌, ◌≡◌, refl, ap, false, ◌&&◌, ◌||◌, Option, none, some, [], ◌∷◌,
  ◌++◌, arith, ltb, leb, ◌==◌, if◌then◌else◌,
}
use certpilot.Audit.Bytes.{Bytes, AreBytes}

-- The character of six bits.
digit64 : ℕ → ℕ
digit64 n =
    if ltb n 26
    then b'A' + n
    else if ltb n 52
    then b'a' + (n - 26)
    else if ltb n 62
    then b'0' + (n - 52)
    else if n == 62
    then b'-'
    else b'_'

value64 : ℕ → Option ℕ
value64 c =
    if leb b'A' c && leb c b'Z'
    then some (c - b'A')
    else if leb b'a' c && leb c b'z'
    then some (c - b'a' + 26)
    else if leb b'0' c && leb c b'9'
    then some (c - b'0' + 52)
    else if c == b'-'
    then some 62
    else if c == b'_'
    then some 63
    else none

pub encode64 : Bytes → Bytes
unfolding digit64
encode64 [] = []
encode64 (a ∷ []) = digit64 (a / 4) ∷ digit64 ((a % 4) * 16) ∷ []
encode64 (a ∷ b ∷ []) =
    digit64 (a / 4) ∷ digit64 ((a % 4) * 16 + b / 16) ∷ digit64 ((b % 16) * 4) ∷ []
encode64 (a ∷ b ∷ c ∷ rest) =
    digit64 (a / 4)
    ∷ digit64 ((a % 4) * 16 + b / 16)
    ∷ digit64 ((b % 16) * 4 + c / 64)
    ∷ digit64 (c % 64)
    ∷ encode64 rest

two_of : Option ℕ → Option ℕ → Option Bytes
two_of (some w) (some x) = some ((w * 4 + x / 16) ∷ [])
two_of _ _ = none

three_of : Option ℕ → Option ℕ → Option ℕ → Option Bytes
three_of (some w) (some x) (some y) = some ((w * 4 + x / 16) ∷ ((x % 16) * 16 + y / 4) ∷ [])
three_of _ _ _ = none

four_of : Option ℕ → Option ℕ → Option ℕ → Option ℕ → Option Bytes → Option Bytes
four_of (some w) (some x) (some y) (some z) (some rest) =
    some ((w * 4 + x / 16) ∷ ((x % 16) * 16 + y / 4) ∷ ((y % 4) * 64 + z) ∷ rest)
four_of _ _ _ _ _ = none

-- Four characters at a time; one left over is an error.
quanta : Bytes → Option Bytes
unfolding value64 two_of three_of four_of
quanta [] = some []
quanta (w ∷ []) = none
quanta (w ∷ x ∷ []) = two_of (value64 w) (value64 x)
quanta (w ∷ x ∷ y ∷ []) = three_of (value64 w) (value64 x) (value64 y)
quanta (w ∷ x ∷ y ∷ z ∷ rest) =
    four_of (value64 w) (value64 x) (value64 y) (value64 z) (quanta rest)

without_breaks : Bytes → Bytes
without_breaks [] = []
without_breaks (c ∷ cs) = if c == 10 || c == 13 then without_breaks cs else c ∷ without_breaks cs

pub decode64 : Bytes → Option Bytes
unfolding quanta without_breaks
decode64 s = quanta (without_breaks s)

value-digit : (n : ℕ) → n < 64 → value64 (digit64 n) ≡ some n
unfolding value64 digit64
value-digit n h = ground arith

digit-kept : (n : ℕ) → (digit64 n == 10 || digit64 n == 13) ≡ false
unfolding digit64
digit-kept n = ground arith

without_breaks-encode64 : (bs : Bytes) → without_breaks (encode64 bs) ≡ encode64 bs
unfolding encode64 without_breaks
without_breaks-encode64 [] = refl
without_breaks-encode64 (a ∷ []) = rw (digit-kept (a / 4), digit-kept ((a % 4) * 16)) refl
without_breaks-encode64 (a ∷ b ∷ []) =
    rw (digit-kept (a / 4), digit-kept ((a % 4) * 16 + b / 16), digit-kept ((b % 16) * 4)) refl
without_breaks-encode64 (a ∷ b ∷ c ∷ rest) =
    rw
      (
        digit-kept (a / 4),
        digit-kept ((a % 4) * 16 + b / 16),
        digit-kept ((b % 16) * 4 + c / 64),
        digit-kept (c % 64),
        without_breaks-encode64 rest,
      )
      refl

quanta-encode64 : (bs : Bytes) → AreBytes bs → quanta (encode64 bs) ≡ some bs
unfolding encode64 quanta two_of three_of four_of
quanta-encode64 [] h = refl
quanta-encode64 (a ∷ []) h =
    rw (value-digit (a / 4) (omega arith), value-digit ((a % 4) * 16) (omega arith))
      (ap (λ n. some (n ∷ [])) (omega arith))
quanta-encode64 (a ∷ b ∷ []) h =
    rw
      (
        value-digit (a / 4) (omega arith),
        value-digit ((a % 4) * 16 + b / 16) (omega arith),
        value-digit ((b % 16) * 4) (omega arith),
      )
      (ap some (ap₂ (λ m n. m ∷ n ∷ []) (omega arith) (omega arith)))
quanta-encode64 (a ∷ b ∷ c ∷ rest) h =
    rw
      (
        value-digit (a / 4) (omega arith),
        value-digit ((a % 4) * 16 + b / 16) (omega arith),
        value-digit ((b % 16) * 4 + c / 64) (omega arith),
        value-digit (c % 64) (omega arith),
        quanta-encode64 rest h.1.1.1,
      )
      (ap₂ (λ (m : ℕ) (r : Bytes). some (m ∷ r)) (omega arith)
        (ap₂ (λ (m : ℕ) (n : ℕ). m ∷ n ∷ rest) (omega arith) (omega arith)))

pub decode64-encode64 : (bs : Bytes) → AreBytes bs → decode64 (encode64 bs) ≡ some bs
unfolding decode64
decode64-encode64 bs h = rw (without_breaks-encode64 bs) (quanta-encode64 bs h)

-- A line feed at the end is skipped.
pub decode64-line_feed : (s : Bytes) → decode64 (s ++ 10 ∷ []) ≡ decode64 s
unfolding decode64 without_breaks
decode64-line_feed s = ap quanta (breaks s)
  where
    breaks : (cs : Bytes) → without_breaks (cs ++ 10 ∷ []) ≡ without_breaks cs
    breaks [] = refl
    breaks (c ∷ cs) = rw (breaks cs) refl

-- ===== src/Audit/Bytes.antt =====
-- Byte strings: fixed-width integers (encoding/binary), hexadecimal (encoding/hex), comparison.
use mathlib.Core.Path.{ap₂}
use certpilot.Prelude.{
  ℕ, ◌+◌, ◌-◌, ◌*◌, ◌/◌, ◌%◌, ◌<◌, ◌≡◌, refl, ap, Bool, true, false, ◌&&◌, Option, none, some, List,
  [], ◌∷◌, ◌++◌, arith, leb, ltb, ◌==◌, if◌then◌else◌, length,
}

abbrev pub Bytes : Type 0
Bytes = List ℕ

abbrev pub AreBytes : Bytes → Type 0
AreBytes [] = Unit {0}
AreBytes (b ∷ bs) = (b < 256) × AreBytes bs

-- AppendUint32 and AppendUint64 of the big-endian order.
pub be32 : ℕ → Bytes
be32 n = (n / 16777216) % 256 ∷ (n / 65536) % 256 ∷ (n / 256) % 256 ∷ n % 256 ∷ []

pub be64 : ℕ → Bytes
unfolding be32
be64 n = be32 (n / 4294967296) ++ be32 n

unfoldable pub bytes_eq : Bytes → Bytes → Bool
bytes_eq [] [] = true
bytes_eq [] (y ∷ ys) = false
bytes_eq (x ∷ xs) [] = false
bytes_eq (x ∷ xs) (y ∷ ys) = x == y && bytes_eq xs ys

pub bytes_eq_sound : (xs ys : Bytes) → bytes_eq xs ys ≡ true → xs ≡ ys
unfolding bytes_eq
bytes_eq_sound [] [] h = refl
bytes_eq_sound [] (y ∷ ys) h = cc
bytes_eq_sound (x ∷ xs) [] h = cc
bytes_eq_sound (x ∷ xs) (y ∷ ys) h = ground (arith, bytes_eq_sound xs ys)

pub bytes_eq_refl : (xs : Bytes) → bytes_eq xs xs ≡ true
unfolding bytes_eq
bytes_eq_refl [] = refl
bytes_eq_refl (x ∷ xs) = ground (arith, bytes_eq_refl xs)

pub head_eq : {x y : ℕ} {xs ys : Bytes} → ◌≡◌ {A = Bytes} (x ∷ xs) (y ∷ ys) → x ≡ y
head_eq e = cc

pub tail_eq : {x y : ℕ} {xs ys : Bytes} → ◌≡◌ {A = Bytes} (x ∷ xs) (y ∷ ys) → xs ≡ ys
tail_eq e = cc

pub append_injective :
    (xs ys : Bytes) {rest rest' : Bytes}
    → length xs ≡ length ys
    → xs ++ rest ≡ ys ++ rest'
    → (xs ≡ ys) × (rest ≡ rest')
append_injective [] [] n e = (refl, e)
append_injective [] (y ∷ ys) n e = absurd (omega arith)
append_injective (x ∷ xs) [] n e = absurd (omega arith)
append_injective (x ∷ xs) (y ∷ ys) n e =
    let rests = append_injective xs ys (omega arith) (tail_eq e) in
    (ap₂ ◌∷◌ (head_eq e) rests.0, rests.1)

pub be32-injective : (m n : ℕ) → m < 4294967296 → n < 4294967296 → be32 m ≡ be32 n → m ≡ n
unfolding be32
be32-injective m n hm hn e = ground arith

pub length-be32 : (n : ℕ) → length (be32 n) ≡ 4
unfolding be32
length-be32 n = refl

pub length-be64 : (n : ℕ) → length (be64 n) ≡ 8
unfolding be64
length-be64 n = refl

pub be64-injective :
    (m n : ℕ) → m < 18446744073709551616 → n < 18446744073709551616 → be64 m ≡ be64 n → m ≡ n
unfolding be64
be64-injective m n hm hn e = ground arith

-- BigEndian.Uint64 of a slice of eight bytes.
read_be : ℕ → Bytes → ℕ
read_be acc [] = acc
read_be acc (b ∷ bs) = read_be (acc * 256 + b) bs

pub uint64_of : Bytes → ℕ
unfolding read_be
uint64_of bs = read_be 0 bs

pub uint64_of-be64 : (n : ℕ) → n < 18446744073709551616 → uint64_of (be64 n) ≡ n
unfolding uint64_of be64 be32 read_be
uint64_of-be64 n h = omega arith

pub be64-AreBytes : (n : ℕ) → AreBytes (be64 n)
unfolding be64 be32
be64-AreBytes n = omega arith

-- EncodeToString and DecodeString, which takes either case.
hex_digit : ℕ → ℕ
hex_digit d = if ltb d 10 then b'0' + d else b'a' + d - 10

hex_value : ℕ → Option ℕ
hex_value c =
    if leb b'0' c && leb c b'9'
    then some (c - b'0')
    else if leb b'a' c && leb c b'f'
    then some (c - b'a' + 10)
    else if leb b'A' c && leb c b'F'
    then some (c - b'A' + 10)
    else none

pub hex_encode : Bytes → Bytes
unfolding hex_digit
hex_encode [] = []
hex_encode (b ∷ bs) = hex_digit (b / 16) ∷ hex_digit (b % 16) ∷ hex_encode bs

hex_pair : Option ℕ → Option ℕ → Option Bytes → Option Bytes
hex_pair (some h) (some l) (some bs) = some ((16 * h + l) ∷ bs)
hex_pair _ _ _ = none

pub hex_decode : Bytes → Option Bytes
unfolding hex_value hex_pair
hex_decode [] = some []
hex_decode (c ∷ []) = none
hex_decode (c ∷ d ∷ cs) = hex_pair (hex_value c) (hex_value d) (hex_decode cs)

digit_value : (d : ℕ) → d < 16 → hex_value (hex_digit d) ≡ some d
unfolding hex_value hex_digit
digit_value d h = ground arith

pub hex_decode-encode : (bs : Bytes) → AreBytes bs → hex_decode (hex_encode bs) ≡ some bs
unfolding hex_decode hex_encode
hex_decode-encode [] h = refl
hex_decode-encode (b ∷ bs) h =
    rw
      (
        digit_value (b / 16) (omega arith),
        digit_value (b % 16) (omega arith),
        hex_decode-encode bs h.1,
      )
      (ap (λ n. some (n ∷ bs)) (omega arith))

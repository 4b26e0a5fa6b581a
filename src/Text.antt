-- ===== src/Text.antt =====
-- The functions of the strings package that the core uses, on texts of ASCII bytes.
use certpilot.Prelude.{
  ℕ, zero, suc, ◌+◌, ◌-◌, ◌≡◌, ◌↔◌, refl, sym, ap, ◌∙◌, Bool, true, false, ◌&&◌, ◌||◌, [], ◌∷◌,
  ◌++◌, arith, leb, ◌==◌, if◌then◌else◌, length, length-append, drop, take,
}
use certpilot.Audit.Bytes.{Bytes, bytes_eq, bytes_eq_refl, bytes_eq_sound, head_eq, tail_eq}

lower_byte : ℕ → ℕ
lower_byte c = if leb b'A' c && leb c b'Z' then c + 32 else c

upper_byte : ℕ → ℕ
upper_byte c = if leb b'a' c && leb c b'z' then c - 32 else c

unfoldable pub to_upper : Bytes → Bytes
unfolding upper_byte
to_upper [] = []
to_upper (c ∷ cs) = upper_byte c ∷ to_upper cs

unfoldable pub to_lower : Bytes → Bytes
unfolding lower_byte
to_lower [] = []
to_lower (c ∷ cs) = lower_byte c ∷ to_lower cs

is_space : ℕ → Bool
is_space c = c == 32 || leb 9 c && leb c 13

trim_left : Bytes → Bytes
unfolding is_space
trim_left [] = []
trim_left (c ∷ cs) = let rest = trim_left cs in if is_space c then rest else c ∷ cs

trim_right : Bytes → Bytes
unfolding is_space
trim_right [] = []
trim_right (c ∷ cs) =
    let rest = trim_right cs in if is_space c && length rest == 0 then [] else c ∷ rest

unfoldable pub trim_space : Bytes → Bytes
unfolding trim_left trim_right
trim_space s = trim_right (trim_left s)

unfoldable pub equal_fold : Bytes → Bytes → Bool
equal_fold a b = bytes_eq (to_lower a) (to_lower b)

unfoldable pub has_prefix : Bytes → Bytes → Bool
has_prefix s [] = true
has_prefix [] (p ∷ ps) = false
has_prefix (c ∷ cs) (p ∷ ps) = c == p && has_prefix cs ps

unfoldable pub has_suffix : Bytes → Bytes → Bool
has_suffix s t = leb (length t) (length s) && bytes_eq (drop (length s - length t) s) t

unfoldable pub trim_prefix : Bytes → Bytes → Bytes
unfolding has_prefix
trim_prefix s p = if has_prefix s p then drop (length p) s else s

unfoldable pub contains : Bytes → Bytes → Bool
unfolding has_prefix
contains [] t = has_prefix [] t
contains (c ∷ cs) t = has_prefix (c ∷ cs) t || contains cs t

unfoldable pub trim_suffix : Bytes → Bytes → Bytes
unfolding has_suffix
trim_suffix s t = if has_suffix s t then take (length s - length t) s else s

pub bytes_eq_iff : (s t : Bytes) → (bytes_eq s t ≡ true) ↔ (s ≡ t)
bytes_eq_iff s t = (bytes_eq_sound s t, λ e. ap (bytes_eq s) (sym e) ∙ bytes_eq_refl s)

pub equal_fold_iff : (s t : Bytes) → (equal_fold s t ≡ true) ↔ (to_lower s ≡ to_lower t)
unfolding equal_fold
equal_fold_iff s t = bytes_eq_iff (to_lower s) (to_lower t)

split_drop : (n : ℕ) (s : Bytes) → (front : Bytes) × (s ≡ front ++ drop n s)
split_drop zero s = ([], refl)
split_drop (suc n) [] = ([], refl)
split_drop (suc n) (c ∷ cs) = let rest = split_drop n cs in (c ∷ rest.0, ap (λ r. c ∷ r) rest.1)

drop_front : (front t : Bytes) (n : ℕ) → n ≡ length front → drop n (front ++ t) ≡ t
drop_front [] t zero h = refl
drop_front [] t (suc n) h = absurd (omega arith)
drop_front (c ∷ front) t zero h = absurd (omega arith)
drop_front (c ∷ front) t (suc n) h = drop_front front t n (omega arith)

-- HasSuffix: the text is something followed by the suffix.
pub has_suffix_iff : (s t : Bytes) → (has_suffix s t ≡ true) ↔ ((front : Bytes) × (s ≡ front ++ t))
unfolding has_suffix
has_suffix_iff s t = (
  λ h.
      let (front, e) = split_drop (length s - length t) s in
      let same : bytes_eq (drop (length s - length t) s) t ≡ true = ground arith in
      (front, e ∙ ap (λ r. front ++ r) (bytes_eq_sound _ t same)),
  λ (front, e).
      let fits : leb (length t) (length s) ≡ true =
        ground (arith, ap length e, length-append front t) in
      let size : length s - length t ≡ length front =
        omega (arith, ap length e, length-append front t) in
      rw (fits) (
        ap (λ r. bytes_eq (drop (length s - length t) r) t) e
        ∙ ap (λ r. bytes_eq r t) (drop_front front t (length s - length t) size)
        ∙ bytes_eq_refl t),
)

-- HasPrefix, and what TrimPrefix leaves.
pub has_prefix_iff : (s p : Bytes) → (has_prefix s p ≡ true) ↔ ((rest : Bytes) × (s ≡ p ++ rest))
unfolding has_prefix
has_prefix_iff s [] = (λ h. (s, refl), λ h. refl)
has_prefix_iff [] (p ∷ ps) = (λ h. cc, λ (rest, e). cc)
has_prefix_iff (c ∷ cs) (p ∷ ps) = (
  λ h.
      let (rest, e) = (has_prefix_iff cs ps).0 (ground arith) in
      let same : c ≡ p = ground arith in (rest, ap (λ d. d ∷ cs) same ∙ ap (λ r. p ∷ r) e),
  λ (rest, e).
      let same : c ≡ p = head_eq e in
      let others : has_prefix cs ps ≡ true = (has_prefix_iff cs ps).1 (rest, tail_eq e) in
      ground arith,
)

pub trim_prefix-eq : (s p : Bytes) → has_prefix s p ≡ true → s ≡ p ++ trim_prefix s p
unfolding trim_prefix
trim_prefix-eq s p h =
    let (rest, e) = (has_prefix_iff s p).0 h in
    rw (h) (e ∙ ap (λ r. p ++ r) (sym (ap (drop (length p)) e ∙ drop_front p rest (length p) refl)))

pub trim_prefix-append : (p rest : Bytes) → trim_prefix (p ++ rest) p ≡ rest
unfolding trim_prefix
trim_prefix-append p rest =
    rw ((has_prefix_iff (p ++ rest) p).1 (rest, refl)) (drop_front p rest (length p) refl)

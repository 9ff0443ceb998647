-- ===== src/Dictionary/Digits.antt =====
-- The decimal digits that `std::to_chars` writes, read back by the functions of
-- src/Dictionary.cpp.
use openfix.Prelude.{
  ℕ, zero, suc, ◌+◌, ◌*◌, ◌/◌, ◌%◌, ◌<◌, true, some, [], ◌∷◌, ltb, ◌≡◌, ◌≢◌, refl, ap, ◌∙◌, arith,
  Bytes, All, int, digits, to_chars, is_digit, leading, inl, inr, Bool-cases,
}
use openfix.Dictionary.{parse_digits, fast_parse_tag}
use openfix.Dictionary.Parse.{from_chars_ulong}

abbrev pow10 : ℕ → ℕ
pow10 zero = 1
pow10 (suc f) = 10 * pow10 f

abbrev Digits : Bytes → Type 0
Digits = All (λ c. is_digit c ≡ true)

pub digits-Digits : (f n : ℕ) (out : Bytes) → Digits out → Digits (digits f n out)
unfolding digits
digits-Digits zero n out h = h
digits-Digits (suc f) n out h =
    ground (arith, h, digits-Digits f (n / 10) ((48 + n % 10) ∷ out) (ground arith, h))

parse_digits-step :
    (e acc : ℕ) (out : Bytes)
    → e < 10
    → acc * 10 + e < 4294967296
    → parse_digits ((48 + e) ∷ out) acc ≡ parse_digits out (acc * 10 + e)
unfolding parse_digits
parse_digits-step e acc out h b = ground arith

parse_digits-digits :
    (f n : ℕ) (out : Bytes)
    → n < pow10 f
    → n < 4294967296
    → parse_digits (digits f n out) 0 ≡ parse_digits out n
unfolding digits
parse_digits-digits zero n out h b = let e : n ≡ 0 = omega arith in rw e refl
parse_digits-digits (suc f) n out h b = elim (Bool-cases (ltb n 10)) [
  | inl e ↦
      rw e (
        parse_digits-step n 0 out (ground arith) (omega arith)
        ∙ ap (parse_digits out) (omega arith))
  | inr e ↦ rw e (
      parse_digits-digits f (n / 10) ((48 + n % 10) ∷ out) (omega arith) (omega arith)
      ∙ parse_digits-step (n % 10) (n / 10) out (omega arith) (omega arith)
      ∙ ap (parse_digits out) (omega arith))
]

leading-step :
    (e acc : ℕ) (out : Bytes) → e < 10 → leading ((48 + e) ∷ out) acc ≡ leading out (acc * 10 + e)
unfolding leading
leading-step e acc out h = ground arith

pub leading-digits :
    (f n : ℕ) (out : Bytes) → n < pow10 f → leading (digits f n out) 0 ≡ leading out n
unfolding digits
leading-digits zero n out h = let e : n ≡ 0 = omega arith in rw e refl
leading-digits (suc f) n out h = elim (Bool-cases (ltb n 10)) [
  | inl e ↦ rw e (leading-step n 0 out (ground arith) ∙ ap (leading out) (omega arith))
  | inr e ↦ rw e (
      leading-digits f (n / 10) ((48 + n % 10) ∷ out) (omega arith)
      ∙ leading-step (n % 10) (n / 10) out (omega arith)
      ∙ ap (leading out) (omega arith))
]

digits-cons : (f n c : ℕ) (out : Bytes) → digits f n (c ∷ out) ≢ []
unfolding digits
digits-cons zero n c out = cc
digits-cons (suc f) n c out = ground (arith, digits-cons f (n / 10) (48 + n % 10) (c ∷ out))

pub digits-ne : (f n : ℕ) → digits (suc f) n [] ≢ []
unfolding digits
digits-ne f n = ground (arith, digits-cons f (n / 10) (48 + n % 10) [])

pub to_chars-int : (n : ℕ) → n < 2147483648 → to_chars (int n) ≡ digits 10 n []
unfolding to_chars
to_chars-int n h = ground arith

-- The bytes of a number are digits.
pub to_chars-Digits : (n : ℕ) → n < 2147483648 → All (λ c. is_digit c ≡ true) (to_chars (int n))
to_chars-Digits n h = rw (to_chars-int n h) (digits-Digits 10 n [] tt)

fast_parse_tag-parse_digits :
    (s : Bytes) (n : ℕ)
    → s ≢ []
    → parse_digits s 0 ≡ some n
    → n < 2147483648
    → fast_parse_tag s ≡ some n
unfolding fast_parse_tag
fast_parse_tag-parse_digits [] n ne h b = absurd (ne refl)
fast_parse_tag-parse_digits (c ∷ s) n ne h b = rw (fast_parse_tag, h) (ground arith)

from_chars_ulong-leading :
    (s : Bytes) (n : ℕ)
    → s ≢ []
    → Digits s
    → leading s 0 ≡ n
    → n < 2147483648
    → from_chars_ulong s ≡ some n
unfolding from_chars_ulong
from_chars_ulong-leading [] n ne k h b = absurd (ne refl)
from_chars_ulong-leading (c ∷ s) n ne k h b = rw (h, k.0) (ground arith)

-- A tag below 2^31 that is written is read back.
pub fast_parse_tag-to_chars : (n : ℕ) → n < 2147483648 → fast_parse_tag (to_chars (int n)) ≡ some n
unfolding parse_digits
fast_parse_tag-to_chars n h = rw (to_chars-int n h) (
    fast_parse_tag-parse_digits (digits 10 n []) n (digits-ne 9 n)
      (parse_digits-digits 10 n [] (omega arith) (omega arith)) h)

-- A length that is written is read back.
pub from_chars_ulong-to_chars :
    (n : ℕ) → n < 2147483648 → from_chars_ulong (to_chars (int n)) ≡ some n
unfolding leading
from_chars_ulong-to_chars n h = rw (to_chars-int n h) (
    from_chars_ulong-leading (digits 10 n []) n (digits-ne 9 n) (digits-Digits 10 n [] tt)
      (leading-digits 10 n [] (omega arith)) h)

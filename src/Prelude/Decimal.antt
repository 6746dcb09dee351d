-- ===== src/Prelude/Decimal.antt =====
-- Python's texts as lists of character codes, and their integers: `"%d" % n` and `int(text)`, for
-- texts in ASCII.
use Prim.Native.Nat.{ℕ, zero, suc, ◌+◌, ◌-◌, ◌*◌, ◌/◌, ◌%◌, ◌≤◌, ◌<◌}
use mathlib.Core.Path.{◌≡◌, refl, ap, sym, subst, ◌∙◌}
use mathlib.Core.Logic.{◌≢◌, ◌⊎◌, inl, inr}
use mathlib.Core.Bool.{Bool, true, false, ◌&&◌, ◌||◌}
use mathlib.Core.List.{[], ◌∷◌}
use native.Mathlib.Omega.{arith}
use pycoinnet.Prelude.Tests.{ltb, leb, ◌==◌, if◌then◌else◌, Bool-cases}
use pycoinnet.Prelude.Lists.{All, All-map, length}
use pycoinnet.Prelude.ByteString.{Bytes}
use pycoinnet.Prelude.Int.{ℤ, pos, negsuc}
use pycoinnet.Prelude.Raise.{Result, err, ok, value_error}

abbrev is_digit : ℕ → Bool
is_digit c = leb b'0' c && leb c b'9'

abbrev is_space : ℕ → Bool
is_space c = (leb 9 c && leb c 13) || (c == 32)

abbrev pub IsDigit : ℕ → Type 0
IsDigit c = (b'0' ≤ c) × (c ≤ b'9')

-- The decimal digits of a number in front of a text. A number has at most as many digits as it
-- counts, plus one.
unfoldable digits_from : ℕ → ℕ → Bytes → Bytes
digits_from zero n out = out
digits_from (suc fuel) n out = elim (ltb n 10) [
  | true ↦ (b'0' + n) ∷ out
  | false ↦ digits_from fuel (n / 10) ((b'0' + n % 10) ∷ out)
]

unfoldable pub print_ℕ : ℕ → Bytes
unfolding digits_from
print_ℕ n = digits_from (suc n) n []

unfoldable pub print_ℤ : ℤ → Bytes
unfolding print_ℕ
print_ℤ (pos n) = print_ℕ n
print_ℤ (negsuc n) = b'-' ∷ print_ℕ (suc n)

all_space : Bytes → Bool
all_space [] = true
all_space (c ∷ s) = is_space c && all_space s

-- The digits behind a number already read, and only space after them.
unfoldable read_digits : ℕ → Bytes → Result ℕ
unfolding all_space
read_digits n [] = ok n
read_digits n (c ∷ s) =
    let rest = read_digits (n * 10 + (c - b'0')) s in
    if is_digit c then rest else if all_space (c ∷ s) then ok n else err value_error

unfoldable read_ℕ : Bytes → Result ℕ
unfolding read_digits
read_ℕ [] = err value_error
read_ℕ (c ∷ s) = if is_digit c then read_digits 0 (c ∷ s) else err value_error

negated : Result ℕ → Result ℤ
negated (err e) = err e
negated (ok zero) = ok (pos 0)
negated (ok (suc n)) = ok (negsuc n)

unsigned : Result ℕ → Result ℤ
unsigned (err e) = err e
unsigned (ok n) = ok (pos n)

-- `int(text)`: space, a sign or none, digits, space.
unfoldable pub int_of : Bytes → Result ℤ
unfolding read_ℕ negated unsigned
int_of [] = err value_error
int_of (c ∷ s) =
    let rest = int_of s in
    if is_space c
    then rest
    else if c == b'-'
    then negated (read_ℕ s)
    else if c == b'+'
    then unsigned (read_ℕ s)
    else unsigned (read_ℕ (c ∷ s))

digits_small :
    (f n : ℕ) (out : Bytes) → ltb n 10 ≡ true → digits_from (suc f) n out ≡ (b'0' + n) ∷ out
unfolding digits_from
digits_small f n out e = rw (digits_from, e) refl

digits_large :
    (f n : ℕ) (out : Bytes)
    → ltb n 10 ≡ false
    → digits_from (suc f) n out ≡ digits_from f (n / 10) ((b'0' + n % 10) ∷ out)
unfolding digits_from
digits_large f n out e = rw (digits_from, e) refl

digits_from-IsDigit :
    (f n : ℕ) (out : Bytes) → All IsDigit out → n < f → All IsDigit (digits_from f n out)
digits_from-IsDigit zero n out h lt = absurd (omega arith)
digits_from-IsDigit (suc f) n out h lt = elim (Bool-cases (ltb n 10)) [
  | inl e ↦ subst (All IsDigit) (sym (digits_small f n out e)) ((ground arith, ground arith), h)
  | inr e ↦
      subst (All IsDigit) (sym (digits_large f n out e))
        (digits_from-IsDigit f (n / 10) _ ((ground arith, ground arith), h) (ground arith))
]

pub print_ℕ-IsDigit : (n : ℕ) → All IsDigit (print_ℕ n)
unfolding print_ℕ
print_ℕ-IsDigit n = digits_from-IsDigit (suc n) n [] tt (omega arith)

read_digit :
    (n d : ℕ) (s : Bytes) → d < 10 → read_digits n ((b'0' + d) ∷ s) ≡ read_digits (n * 10 + d) s
unfolding read_digits
read_digit n d s h = ground (arith, is_digit)

-- Reading the digits of a number and then a text is reading the text behind that number.
read_digits-digits_from :
    (f n : ℕ) (out : Bytes) → n < f → read_digits 0 (digits_from f n out) ≡ read_digits n out
read_digits-digits_from zero n out lt = absurd (omega arith)
read_digits-digits_from (suc f) n out lt = elim (Bool-cases (ltb n 10)) [
  | inl e ↦
      rw (digits_small f n out e)
        (read_digit 0 n out (ground arith) ∙ ap (λ m. read_digits m out) (omega arith))
  | inr e ↦ rw (digits_large f n out e) (
      read_digits-digits_from f (n / 10) _ (ground arith)
      ∙ read_digit (n / 10) (n % 10) out (omega arith)
      ∙ ap (λ m. read_digits m out) (omega arith))
]

digits_from-positive : (f n : ℕ) (out : Bytes) → n < f → 0 < length (digits_from f n out)
unfolding digits_from
digits_from-positive zero n out lt = absurd (omega arith)
digits_from-positive (suc f) n out lt = elim (Bool-cases (ltb n 10)) [
  | inl e ↦ subst (λ s. 0 < length s) (sym (digits_small f n out e)) (omega arith)
  | inr e ↦
      subst (λ s. 0 < length s) (sym (digits_large f n out e))
        (digits_from-longer f (n / 10) _ (omega arith))
]
  where
    digits_from-longer : (f n : ℕ) (out : Bytes) → 0 < length out → 0 < length (digits_from f n out)
    digits_from-longer zero n out h = h
    digits_from-longer (suc f) n out h = elim (Bool-cases (ltb n 10)) [
      | inl e ↦ subst (λ s. 0 < length s) (sym (digits_small f n out e)) (omega arith)
      | inr e ↦
          subst (λ s. 0 < length s) (sym (digits_large f n out e))
            (digits_from-longer f (n / 10) _ (omega arith))
    ]

digit_test : (c : ℕ) → IsDigit c → is_digit c ≡ true
digit_test c h = ground arith

not_space : (c : ℕ) → IsDigit c → is_space c ≡ false
not_space c h = ground arith

not_sign : (c k : ℕ) → IsDigit c → k < b'0' → (c == k) ≡ false
not_sign c k h lt = ground arith

read_ℕ_lem : (s : Bytes) → 0 < length s → All IsDigit s → read_ℕ s ≡ read_digits 0 s
unfolding read_ℕ
read_ℕ_lem [] h a = absurd (omega arith)
read_ℕ_lem (c ∷ s) h a = rw (read_ℕ, digit_test c a.0) refl

int_of-digits :
    (s : Bytes) (n : ℕ) → 0 < length s → All IsDigit s → read_ℕ s ≡ ok n → int_of s ≡ ok (pos n)
unfolding unsigned int_of
int_of-digits [] n h a e = absurd (omega arith)
int_of-digits (c ∷ s) n h a e = chosen ∙ ap unsigned e
  where
    chosen : int_of (c ∷ s) ≡ unsigned (read_ℕ (c ∷ s))
    chosen =
        rw
          (
            int_of,
            not_space c a.0,
            not_sign c b'-' a.0 (omega arith),
            not_sign c b'+' a.0 (omega arith),
          )
          refl

read_ℕ-print_ℕ : (n : ℕ) → read_ℕ (print_ℕ n) ≡ ok n
unfolding print_ℕ read_digits
read_ℕ-print_ℕ n =
    read_ℕ_lem (print_ℕ n) (digits_from-positive (suc n) n [] (omega arith)) (print_ℕ-IsDigit n)
    ∙ read_digits-digits_from (suc n) n [] (omega arith)

-- An integer is read back from its decimal print.
pub int_of-print_ℤ : (z : ℤ) → int_of (print_ℤ z) ≡ ok z
unfolding print_ℤ print_ℕ int_of negated
int_of-print_ℤ (pos n) =
    int_of-digits (print_ℕ n) n (digits_from-positive (suc n) n [] (omega arith))
      (print_ℕ-IsDigit n) (read_ℕ-print_ℕ n)
int_of-print_ℤ (negsuc n) = signed (print_ℕ (suc n)) (read_ℕ-print_ℕ (suc n))
  where
    signed : (s : Bytes) → read_ℕ s ≡ ok (suc n) → int_of (b'-' ∷ s) ≡ ok (negsuc n)
    signed s e = rw (int_of, e) refl

-- Texts without a character.
abbrev pub Lacks : ℕ → Bytes → Type 0
Lacks c = All (λ x. x ≢ c)

digits-Lacks : (c : ℕ) → c < b'0' → (s : Bytes) → All IsDigit s → Lacks c s
digits-Lacks c h s = All-map IsDigit (λ x. x ≢ c) (λ x d. omega arith) s

pub print_ℤ-Lacks : (c : ℕ) → c < b'-' ⊎ c ≡ b'/' → (z : ℤ) → Lacks c (print_ℤ z)
unfolding print_ℤ
print_ℤ-Lacks c h (pos n) = digits-Lacks c (omega arith) (print_ℕ n) (print_ℕ-IsDigit n)
print_ℤ-Lacks c h (negsuc n) =
    (omega arith, digits-Lacks c (omega arith) (print_ℕ (suc n)) (print_ℕ-IsDigit (suc n)))

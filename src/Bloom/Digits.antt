-- ===== src/Bloom/Digits.antt =====
-- Single bits of a number, for the masks of the filter.
use Prim.Native.Nat.{bit_and, bit_or, max, min}
use native.Mathlib.Nat.{div-div-eq-div-mul, pow-succ'}
use pycoinnet.Prelude.{
  ℕ, suc, zero, ◌+◌, ◌*◌, ◌/◌, ◌%◌, ◌^◌, ◌<◌, ◌≡◌, ◌≢◌, refl, sym, ◌∙◌, ap, arith, ok, item_at,
}
use pycoinnet.Prelude.Bits.{bit_or_step, bit_and_step, bit_and_ones, bit_or_mod}
use pycoinnet.Bloom.{masks}

-- The digit of `2 ^ j`.
abbrev pub digit : ℕ → ℕ → ℕ
digit a j = a / 2 ^ j % 2

halve : (a j : ℕ) → digit a (suc j) ≡ digit (a / 2) j
halve a j =
    ap (λ (t : ℕ). t % 2)
      (ap (λ (t : ℕ). a / t) (pow-succ' 2 j) ∙ sym (div-div-eq-div-mul a 2 (2 ^ j)))

pub digit-bit_or : (j a b : ℕ) → digit (bit_or a b) j ≡ max (digit a j) (digit b j)
digit-bit_or zero a b = omega (arith, bit_or_step a b)
digit-bit_or (suc j) a b =
    let half : bit_or a b / 2 ≡ bit_or (a / 2) (b / 2) = omega (arith, bit_or_step a b) in
    halve (bit_or a b) j ∙ rw half (digit-bit_or j (a / 2) (b / 2) ∙ rw (halve a j, halve b j))

pub digit-power_self : (i : ℕ) → digit (2 ^ i) i ≡ 1
digit-power_self zero = refl
digit-power_self (suc i) =
    let half : 2 ^ suc i / 2 ≡ 2 ^ i = omega (arith, pow-succ' 2 i) in
    halve (2 ^ suc i) i ∙ rw half (digit-power_self i)

pub digit-power_ne : (i j : ℕ) → i ≢ j → digit (2 ^ i) j ≡ 0
digit-power_ne zero zero h = absurd (h refl)
digit-power_ne zero (suc j) h = halve 1 j ∙ zero_digit j
  where
    zero_digit : (j : ℕ) → digit 0 j ≡ 0
    zero_digit zero = refl
    zero_digit (suc j) = halve 0 j ∙ zero_digit j
digit-power_ne (suc i) zero h = omega (arith, pow-succ' 2 i)
digit-power_ne (suc i) (suc j) h =
    let half : 2 ^ suc i / 2 ≡ 2 ^ i = omega (arith, pow-succ' 2 i) in
    halve (2 ^ suc i) j ∙ rw half (digit-power_ne i j (λ e. h (ap suc e)))

-- A mask of one bit picks its digit.
pub bit_and-power : (j a : ℕ) → bit_and a (2 ^ j) ≡ digit a j * 2 ^ j
bit_and-power zero a = omega (arith, bit_and_ones 1 a)
bit_and-power (suc j) a =
    let half : 2 ^ suc j / 2 ≡ 2 ^ j = omega (arith, pow-succ' 2 j) in
    let even : 2 ^ suc j % 2 ≡ 0 = omega (arith, pow-succ' 2 j) in
    let step : bit_and a (2 ^ suc j) ≡ bit_and (a / 2) (2 ^ j) * 2 + min (a % 2) 0 =
      bit_and_step a (2 ^ suc j) ∙ rw (half, even) in
    let twice : digit (a / 2) j * 2 ^ suc j ≡ digit (a / 2) j * 2 ^ j * 2 =
      ap (λ (t : ℕ). digit (a / 2) j * t) (pow-succ' 2 j) ∙ omega arith in
    rw (halve a j) (omega (arith, step, twice, bit_and-power j (a / 2)))

pub bit_or-lt-byte : (a b : ℕ) → a < 256 → b < 256 → bit_or a b < 256
bit_or-lt-byte a b ha hb =
    let ea : a % 2 ^ 8 ≡ a = omega arith in
    let eb : b % 2 ^ 8 ≡ b = omega arith in
    let e : bit_or a b % 2 ^ 8 ≡ bit_or a b = bit_or_mod 8 a b ∙ rw (ea, eb) in omega (arith, e)

pub mask_at : (i : ℕ) → i < 8 → (item_at masks i ≡ ok (2 ^ i)) × (2 ^ i < 256)
unfolding item_at
mask_at zero h = (refl, omega arith)
mask_at (suc zero) h = (refl, omega arith)
mask_at (suc (suc zero)) h = (refl, omega arith)
mask_at (suc (suc (suc zero))) h = (refl, omega arith)
mask_at (suc (suc (suc (suc zero)))) h = (refl, omega arith)
mask_at (suc (suc (suc (suc (suc zero))))) h = (refl, omega arith)
mask_at (suc (suc (suc (suc (suc (suc zero)))))) h = (refl, omega arith)
mask_at (suc (suc (suc (suc (suc (suc (suc zero))))))) h = (refl, omega arith)
mask_at (suc (suc (suc (suc (suc (suc (suc (suc i)))))))) h = absurd (omega arith)

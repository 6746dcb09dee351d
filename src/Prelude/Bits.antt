-- ===== src/Prelude/Bits.antt =====
-- The bitwise operations on ℕ, by their lowest digits, and modulo a power of two.
use Prim.Native.Nat.{
  ℕ, zero, suc, ◌+◌, ◌-◌, ◌*◌, ◌/◌, ◌%◌, ◌^◌, ◌≤◌, ◌<◌, min, max, bit_and, bit_or, bit_xor, digits,
  differ, bit_and-bitwise, bit_or-bitwise, bit_xor-bitwise,
}
use mathlib.Core.Path.{◌≡◌, refl, sym, ◌∙◌, ap}
use native.Mathlib.Nat.{
  pow-suc, one-le-pow, mul-add-mod_self_left, mod-eq_of_lt, mod-lt, div-add-mod,
}
use native.Mathlib.Omega.{arith}

-- More fuel than digits changes nothing.
module _ (z : ℕ → ℕ) (f : ℕ → ℕ → ℕ) where
  enough_fuel : (k a b : ℕ) → a ≤ k → digits z f k a b ≡ digits z f a a b
  enough_fuel k a b h = same k a a b h (omega arith)
    where
      same : (k m a b : ℕ) → a ≤ k → a ≤ m → digits z f k a b ≡ digits z f m a b
      same zero zero a b p q = refl
      same zero (suc m) zero b p q = refl
      same zero (suc m) (suc a) b p q = absurd (omega arith)
      same (suc k) zero zero b p q = refl
      same (suc k) zero (suc a) b p q = absurd (omega arith)
      same (suc k) (suc m) zero b p q = refl
      same (suc k) (suc m) (suc a) b p q =
          ap (λ (t : ℕ). t * 2 + f (suc a % 2) (b % 2))
            (same k m (suc a / 2) (b / 2) (omega arith) (omega arith))

pub bit_xor_step : (a b : ℕ) → bit_xor a b ≡ bit_xor (a / 2) (b / 2) * 2 + differ (a % 2) (b % 2)
bit_xor_step zero b = omega (arith, bit_xor-bitwise 0 b, bit_xor-bitwise 0 (b / 2))
bit_xor_step (suc a) b =
    bit_xor-bitwise (suc a) b
    ∙ omega (
      arith,
      enough_fuel (λ y. y) differ a (suc a / 2) (b / 2) (omega arith),
      bit_xor-bitwise (suc a / 2) (b / 2),
    )

pub bit_or_step : (a b : ℕ) → bit_or a b ≡ bit_or (a / 2) (b / 2) * 2 + max (a % 2) (b % 2)
bit_or_step zero b = omega (arith, bit_or-bitwise 0 b, bit_or-bitwise 0 (b / 2))
bit_or_step (suc a) b =
    bit_or-bitwise (suc a) b
    ∙ omega (
      arith,
      enough_fuel (λ y. y) max a (suc a / 2) (b / 2) (omega arith),
      bit_or-bitwise (suc a / 2) (b / 2),
    )

pub bit_and_step : (a b : ℕ) → bit_and a b ≡ bit_and (a / 2) (b / 2) * 2 + min (a % 2) (b % 2)
bit_and_step zero b = omega (arith, bit_and-bitwise 0 b, bit_and-bitwise 0 (b / 2))
bit_and_step (suc a) b =
    bit_and-bitwise (suc a) b
    ∙ omega (
      arith,
      enough_fuel (λ y. 0) min a (suc a / 2) (b / 2) (omega arith),
      bit_and-bitwise (suc a / 2) (b / 2),
    )

pub mod_unique : (m q r : ℕ) {a : ℕ} → r < m → a ≡ m * q + r → a % m ≡ r
mod_unique m q r h e = rw e (mul-add-mod_self_left m q r ∙ mod-eq_of_lt h)

pub mod_split : (k a : ℕ) → a % 2 ^ suc k ≡ a / 2 % 2 ^ k * 2 + a % 2
mod_split k a =
    let q = a / 2 / 2 ^ k in
    let low = mod-lt (a / 2) (one-le-pow k 2 (omega arith)) in
    mod_unique (2 ^ suc k) q (a / 2 % 2 ^ k * 2 + a % 2) (omega (arith, pow-suc 2 k, low))
      (omega (arith, div-add-mod (a / 2) (2 ^ k), ap (λ (t : ℕ). t * q) (pow-suc 2 k)))

differ_lt : (x y : ℕ) → x < 2 → y < 2 → differ x y < 2
differ_lt zero y h k = k
differ_lt (suc zero) zero h k = omega arith
differ_lt (suc zero) (suc zero) h k = omega arith
differ_lt (suc zero) (suc (suc y)) h k = absurd (omega arith)
differ_lt (suc (suc x)) y h k = absurd (omega arith)

-- An operation that works digit by digit commutes with the remainder by a power of two.
module _ (op digit : ℕ → ℕ → ℕ)
    (step : (a b : ℕ) → op a b ≡ op (a / 2) (b / 2) * 2 + digit (a % 2) (b % 2))
    (small : (x y : ℕ) → x < 2 → y < 2 → digit x y < 2) (op_zero : op 0 0 ≡ 0) where
  digitwise_mod : (k a b : ℕ) → op a b % 2 ^ k ≡ op (a % 2 ^ k) (b % 2 ^ k)
  digitwise_mod zero a b =
      let za : a % 1 ≡ 0 = omega arith in
      let zb : b % 1 ≡ 0 = omega arith in
      let z : op a b % 1 ≡ 0 = omega arith in rw (z, za, zb) (sym op_zero)
  digitwise_mod (suc k) a b =
      let d = small (a % 2) (b % 2) (omega arith) (omega arith) in
      let half_a : a % 2 ^ suc k / 2 ≡ a / 2 % 2 ^ k = omega (arith, mod_split k a) in
      let half_b : b % 2 ^ suc k / 2 ≡ b / 2 % 2 ^ k = omega (arith, mod_split k b) in
      let bit_a : a % 2 ^ suc k % 2 ≡ a % 2 = omega (arith, mod_split k a) in
      let bit_b : b % 2 ^ suc k % 2 ≡ b % 2 = omega (arith, mod_split k b) in
      let half : op a b / 2 ≡ op (a / 2) (b / 2) = omega (arith, step a b) in
      let bit : op a b % 2 ≡ digit (a % 2) (b % 2) = omega (arith, step a b) in
      mod_split k (op a b)
      ∙ rw (
        step (a % 2 ^ suc k) (b % 2 ^ suc k),
        half,
        bit,
        half_a,
        half_b,
        bit_a,
        bit_b,
        digitwise_mod k (a / 2) (b / 2),
      )

pub bit_xor_mod : (k a b : ℕ) → bit_xor a b % 2 ^ k ≡ bit_xor (a % 2 ^ k) (b % 2 ^ k)
bit_xor_mod = digitwise_mod bit_xor differ bit_xor_step differ_lt refl

pub bit_or_mod : (k a b : ℕ) → bit_or a b % 2 ^ k ≡ bit_or (a % 2 ^ k) (b % 2 ^ k)
bit_or_mod = digitwise_mod bit_or max bit_or_step (λ x y h k. omega arith) refl

bit_and-zero : (n a : ℕ) → a ≤ n → bit_and a 0 ≡ 0
bit_and-zero zero a h = let z : a ≡ 0 = omega arith in rw z
bit_and-zero (suc n) zero h = refl
bit_and-zero (suc n) (suc a) h =
    omega (arith, bit_and_step (suc a) 0, bit_and-zero n (suc a / 2) (omega arith))

bit_or-zero : (n a : ℕ) → a ≤ n → bit_or a 0 ≡ a
bit_or-zero zero a h = let z : a ≡ 0 = omega arith in rw z
bit_or-zero (suc n) zero h = refl
bit_or-zero (suc n) (suc a) h =
    omega (arith, bit_or_step (suc a) 0, bit_or-zero n (suc a / 2) (omega arith))

-- The `k` low bits.
pub bit_and_ones : (k a : ℕ) → bit_and a (2 ^ k - 1) ≡ a % 2 ^ k
bit_and_ones zero a = omega (arith, bit_and-zero a a (omega arith))
bit_and_ones (suc k) a =
    let positive = one-le-pow k 2 (omega arith) in
    let half : (2 ^ suc k - 1) / 2 ≡ 2 ^ k - 1 = omega (arith, pow-suc 2 k, positive) in
    let odd : (2 ^ suc k - 1) % 2 ≡ 1 = omega (arith, pow-suc 2 k, positive) in
    let step : bit_and a (2 ^ suc k - 1) ≡ bit_and (a / 2) (2 ^ k - 1) * 2 + min (a % 2) 1 =
      bit_and_step a (2 ^ suc k - 1) ∙ rw (half, odd) in
    omega (arith, step, mod_split k a, bit_and_ones k (a / 2))

-- Fields that do not overlap are added.
pub bit_or_sum : (k a b : ℕ) → b < 2 ^ k → bit_or (a * 2 ^ k) b ≡ a * 2 ^ k + b
bit_or_sum zero a b h =
    let z : b ≡ 0 = omega arith in rw z (omega (arith, bit_or-zero (a * 1) (a * 1) (omega arith)))
bit_or_sum (suc k) a b h =
    let twice : a * 2 ^ suc k ≡ a * 2 ^ k * 2 =
      omega (arith, ap (λ (t : ℕ). a * t) (pow-suc 2 k)) in
    let half : a * 2 ^ suc k / 2 ≡ a * 2 ^ k = omega (arith, twice) in
    let even : a * 2 ^ suc k % 2 ≡ 0 = omega (arith, twice) in
    let step : bit_or (a * 2 ^ suc k) b ≡ bit_or (a * 2 ^ k) (b / 2) * 2 + max 0 (b % 2) =
      bit_or_step (a * 2 ^ suc k) b ∙ rw (half, even) in
    omega (arith, step, twice, bit_or_sum k a (b / 2) (omega (arith, pow-suc 2 k)))

bit_or_comm : (n a b : ℕ) → a ≤ n → bit_or a b ≡ bit_or b a
bit_or_comm n zero b h = omega (arith, bit_or-bitwise 0 b, bit_or-zero b b (omega arith))
bit_or_comm zero (suc a) b h = absurd (omega arith)
bit_or_comm (suc n) (suc a) b h = omega (
  arith,
  bit_or_step (suc a) b,
  bit_or_step b (suc a),
  bit_or_comm n (suc a / 2) (b / 2) (omega arith),
)

pub bit_or_sum_low : (k a b : ℕ) → b < 2 ^ k → bit_or b (a * 2 ^ k) ≡ b + a * 2 ^ k
bit_or_sum_low k a b h =
    omega (arith, bit_or_comm b b (a * 2 ^ k) (omega arith), bit_or_sum k a b h)

-- ===== src/Bloom/Sizes.antt =====
-- The two size formulas of pycoinnet/bloom.py. Floating point numbers and what the code computes with
-- them are a parameter.
use pycoinnet.Prelude.{
  ℕ, ◌+◌, ◌*◌, ◌≤◌, ◌≡◌, arith, ◌==◌, if◌then◌else◌, Result, ok, err, ◌>>=◌, >>=-eq-ok,
  zero_division, ℤ, pos, negsuc, leb_ℤ,
}

-- `log` and `int` may raise.
pub record Floats : Type 1 where
  pub Float : Type 0
  pub of_int : ℤ → Float
  pub half : Float
  pub log_2 : Float
  pub add : Float → Float → Float
  pub mul : Float → Float → Float
  pub div : Float → Float → Float
  pub floor_div : Float → Float → Float
  pub pow : Float → Float → Float
  pub log : Float → Result Float
  pub int : Float → Result ℤ

-- `min` of two integers
unfoldable pub min_int : ℤ → ℤ → ℤ
min_int a b = if leb_ℤ a b then a else b

-- `n * 8`
abbrev pub eightfold : ℤ → ℤ
eightfold (pos n) = pos (n * 8)
eightfold (negsuc n) = negsuc (n * 8 + 7)

module _ (floats : Floats) where
  open floats use {Float, of_int, half, log_2, add, mul, div, floor_div, pow, log, int}

  unfoldable pub filter_size_required : ℕ → Float → Result ℤ
  unfolding min_int
  filter_size_required element_count false_positive_probability = do
    lfpp ← log false_positive_probability
    size ← int (
        floor_div
          (add
            (mul
              (mul (div (of_int (negsuc 0)) (pow log_2 (of_int (pos 2))))
                (of_int (pos element_count)))
              lfpp)
            (of_int (pos 7)))
          (of_int (pos 8)))
    ok (min_int (pos 36000) size)

  unfoldable pub hash_function_count_required : ℤ → ℕ → Result ℤ
  hash_function_count_required filter_size element_count =
      if element_count == 0
      then err zero_division
      else int
          (add (mul (div (of_int (eightfold filter_size)) (of_int (pos element_count))) log_2) half)

  -- The size never exceeds the limit of the filter.
  pub filter_size_required-le :
      (element_count : ℕ) (p : Float) {size : ℕ}
      → filter_size_required element_count p ≡ ok (pos size)
      → size ≤ 36000
  unfolding filter_size_required
  filter_size_required-le element_count p {size} e =
      let (lfpp, e1, f) = >>=-eq-ok (log p) _ e in
      let (n, e2, g) = >>=-eq-ok (int _) _ f in min_le n (ok_inj g)
    where
      ok_inj : {a b : ℤ} → ok a ≡ ok b → a ≡ b
      ok_inj h = cc

      min_le : (n : ℤ) → min_int (pos 36000) n ≡ pos size → size ≤ 36000
      min_le n h = ground arith

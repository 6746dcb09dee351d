-- ===== src/Bloom/Filter.antt =====
-- The filter as the set of its bits: what `set_bit`, `check_bit` and `add_item` do to it.
use Prim.Native.Nat.{bit_or}
use native.Mathlib.Nat.{mod-lt, one-le-pow}
use pycoinnet.Prelude.{
  ℕ, suc, zero, ◌*◌, ◌/◌, ◌%◌, ◌^◌, ◌<◌, ◌==◌, ◌≡◌, ◌≢◌, ◌↔◌, ◌⊎◌, inl, inr, refl, sym, ◌∙◌, ap,
  arith, List, [], ◌∷◌, All, get_or, set, length, length-set, get_elem?, some, ok, item_at,
  item_at-some, lt→ltb,
}
use native.Mathlib.Decide.{ℕ_discrete}
use pycoinnet.Bloom.{BloomFilter, reduce, index_for_bit, set_byte, set_bit, check_bit}
use pycoinnet.Bloom.Digits.{
  digit, digit-bit_or, digit-power_self, digit-power_ne, bit_and-power, bit_or-lt-byte, mask_at,
}

pub record IsWellFormed (f : BloomFilter) : Type 0 where
  pub counted : f.bit_count ≡ 8 * length f.filter_bytes
  pub bytes : All (λ (b : ℕ). b < 256) f.filter_bytes
  pub some_bits : 0 < f.bit_count

module _ {A : Type 0} where
  get_elem?-get_or :
      (xs : List A) (i : ℕ) (d : A) → i < length xs → get_elem? xs i ≡ some (get_or xs i d)
  get_elem?-get_or [] i d h = absurd (omega arith)
  get_elem?-get_or (x ∷ xs) zero d h = refl
  get_elem?-get_or (x ∷ xs) (suc i) d h = get_elem?-get_or xs i d (omega arith)

  get_or-set_self : (xs : List A) (i : ℕ) (v d : A) → i < length xs → get_or (set xs i v) i d ≡ v
  get_or-set_self [] i v d h = absurd (omega arith)
  get_or-set_self (x ∷ xs) zero v d h = refl
  get_or-set_self (x ∷ xs) (suc i) v d h = get_or-set_self xs i v d (omega arith)

  get_or-set_ne :
      (xs : List A) (i j : ℕ) (v d : A) → i ≢ j → get_or (set xs i v) j d ≡ get_or xs j d
  get_or-set_ne [] i j v d h = refl
  get_or-set_ne (x ∷ xs) zero zero v d h = absurd (h refl)
  get_or-set_ne (x ∷ xs) zero (suc j) v d h = refl
  get_or-set_ne (x ∷ xs) (suc i) zero v d h = refl
  get_or-set_ne (x ∷ xs) (suc i) (suc j) v d h = get_or-set_ne xs i j v d (λ e. h (ap suc e))

  All-set : (P : A → Type 0) (xs : List A) (i : ℕ) (v : A) → All P xs → P v → All P (set xs i v)
  All-set P [] i v h p = tt
  All-set P (x ∷ xs) zero v (_, hs) p = (p, hs)
  All-set P (x ∷ xs) (suc i) v (h, hs) p = (h, All-set P xs i v hs p)

  All-get_or : (P : A → Type 0) (xs : List A) (i : ℕ) (d : A) → All P xs → P d → P (get_or xs i d)
  All-get_or P [] i d h p = p
  All-get_or P (x ∷ xs) zero d (h, _) p = h
  All-get_or P (x ∷ xs) (suc i) d (_, hs) p = All-get_or P xs i d hs p

-- The bit at a position below the number of bits.
abbrev pub bit : BloomFilter → ℕ → ℕ
bit f w = digit (get_or f.filter_bytes (w / 8) 0) (w % 8)

-- A filter that differs in its bits at most.
pub record IsGrown (f f' : BloomFilter) : Type 0 where
  pub same_count : f'.bit_count ≡ f.bit_count
  pub same_functions : f'.hash_function_count ≡ f.hash_function_count
  pub same_tweak : f'.tweak ≡ f.tweak

mask_test : (d p : ℕ) → d < 2 → 0 < p → (d * p == p) ≡ (d == 1)
mask_test zero p h k = let e : 0 * p ≡ 0 = omega arith in rw e (ground arith)
mask_test (suc zero) p h k = let e : 1 * p ≡ p = omega arith in rw e (ground arith)
mask_test (suc (suc d)) p h k = absurd (omega arith)

module _ (f : BloomFilter) (wf : IsWellFormed f) where
  pub reduce_lem : (v : ℕ) → reduce v f ≡ ok (v % f.bit_count)
  unfolding reduce
  reduce_lem v = let some_bits = wf.some_bits in ground arith

  index_lem : (v : ℕ) → index_for_bit v f ≡ ok (v % f.bit_count / 8, 2 ^ (v % f.bit_count % 8))
  unfolding index_for_bit
  index_lem v = rw (reduce_lem v, (mask_at (v % f.bit_count % 8) (omega arith)).0) refl

  byte_lem :
      (v : ℕ)
      → item_at f.filter_bytes (v % f.bit_count / 8)
        ≡ ok (get_or f.filter_bytes (v % f.bit_count / 8) 0)
  byte_lem v = item_at-some f.filter_bytes (v % f.bit_count / 8) (
      get_elem?-get_or f.filter_bytes (v % f.bit_count / 8) 0
        (omega (arith, mod-lt v wf.some_bits, wf.counted)))

  -- `check_bit` tells whether the bit is set.
  pub check_bit_lem : (v : ℕ) → check_bit v f ≡ ok (bit f (v % f.bit_count) == 1)
  unfolding check_bit
  check_bit_lem v =
      rw
        (
          index_lem v,
          byte_lem v,
          bit_and-power (v % f.bit_count % 8) (get_or f.filter_bytes (v % f.bit_count / 8) 0),
        )
        (ap ok (
          mask_test (bit f (v % f.bit_count)) (2 ^ (v % f.bit_count % 8)) (omega arith)
            (one-le-pow (v % f.bit_count % 8) 2 (omega arith))))

  abbrev changed : ℕ → BloomFilter
  changed w = record f {
    filter_bytes =
        set f.filter_bytes (w / 8) (bit_or (get_or f.filter_bytes (w / 8) 0) (2 ^ (w % 8)));
  }

  small_byte : (w : ℕ) → bit_or (get_or f.filter_bytes (w / 8) 0) (2 ^ (w % 8)) < 256
  small_byte w =
      bit_or-lt-byte (get_or f.filter_bytes (w / 8) 0) (2 ^ (w % 8))
        (All-get_or (λ b. b < 256) f.filter_bytes (w / 8) 0 wf.bytes (omega arith))
        (mask_at (w % 8) (omega arith)).1

  set_bit_eq : (v : ℕ) → set_bit v f ≡ ok (changed (v % f.bit_count))
  unfolding set_bit set_byte
  set_bit_eq v = rw (index_lem v, byte_lem v, lt→ltb _ _ (small_byte (v % f.bit_count))) refl

  changed-IsWellFormed : (w : ℕ) → IsWellFormed (changed w)
  changed-IsWellFormed w = record {
    counted =
        wf.counted
        ∙ rw
            (length-set f.filter_bytes (w / 8)
              (bit_or (get_or f.filter_bytes (w / 8) 0) (2 ^ (w % 8))))
            refl;
    bytes =
        All-set (λ b. b < 256) f.filter_bytes (w / 8)
          (bit_or (get_or f.filter_bytes (w / 8) 0) (2 ^ (w % 8))) wf.bytes (small_byte w);
    some_bits = wf.some_bits;
  }

  changed_self : (w : ℕ) → w < f.bit_count → bit (changed w) w ≡ 1
  changed_self w h =
      let old = get_or f.filter_bytes (w / 8) 0 in
      rw
        (get_or-set_self f.filter_bytes (w / 8) (bit_or old (2 ^ (w % 8))) 0
          (omega (arith, wf.counted)))
        (digit-bit_or (w % 8) old (2 ^ (w % 8)) ∙ rw (digit-power_self (w % 8)) (omega arith))

  changed_ne : (w x : ℕ) → w < f.bit_count → w ≢ x → bit (changed w) x ≡ bit f x
  changed_ne w x h ne = elim (ℕ_discrete (w / 8) (x / 8)) [
    | yes e ↦
        let old = get_or f.filter_bytes (w / 8) 0 in
        rw (sym e) (
          rw
            (get_or-set_self f.filter_bytes (w / 8) (bit_or old (2 ^ (w % 8))) 0
              (omega (arith, wf.counted)))
            (digit-bit_or (x % 8) old (2 ^ (w % 8))
              ∙ rw (digit-power_ne (w % 8) (x % 8) (λ k. ne (omega arith))) (omega arith)))
    | no other ↦
        rw
          (get_or-set_ne f.filter_bytes (w / 8) (x / 8)
            (bit_or (get_or f.filter_bytes (w / 8) 0) (2 ^ (w % 8))) 0 other)
          refl
  ]

  -- On a well-formed filter `set_bit` sets one bit, that of the position modulo the number of
  -- bits, keeps all others, and leaves a well-formed filter of the same parameters.
  pub set_bit_lem :
      (v : ℕ)
      → (f' : BloomFilter) × (set_bit v f ≡ ok f')
        × IsWellFormed f'
        × IsGrown f f'
        × ((w : ℕ) → w < f.bit_count → (bit f' w ≡ 1) ↔ ((bit f w ≡ 1) ⊎ (v % f.bit_count ≡ w)))
  set_bit_lem v =
      let p = v % f.bit_count in
      (
        changed p,
        set_bit_eq v,
        changed-IsWellFormed p,
        record { same_count = refl; same_functions = refl; same_tweak = refl },
        λ w h. elim (ℕ_discrete p w) [
          | yes e ↦ (
            (λ _. inr e),
            (λ _. ap (bit (changed p)) (sym e) ∙ changed_self p (mod-lt v wf.some_bits)),
          )
          | no ne ↦ (
            (λ k. inl (sym (changed_ne p w (mod-lt v wf.some_bits) ne) ∙ k)),
            (λ o. elim o [
              | inl k ↦ changed_ne p w (mod-lt v wf.some_bits) ne ∙ k
              | inr e ↦ absurd (ne e)
            ]),
          )
        ],
      )

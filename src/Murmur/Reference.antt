-- ===== src/Murmur/Reference.antt =====
-- MurmurHash3_x86_32 on 32-bit words, every operation modulo 2 ^ 32, beside `murmur3` of
-- pycoinnet/bloom.py, which lets its integers grow.
use Prim.Native.Nat.{bit_and, bit_or, bit_xor}
use native.Mathlib.Nat.{mod-eq_of_lt, mul-add-mod_self_left, div-le_self}
use pycoinnet.Prelude.{
  ℕ, ◌+◌, ◌-◌, ◌*◌, ◌/◌, ◌%◌, ◌^◌, ◌<◌, ◌≡◌, refl, sym, ◌∙◌, ap, [], ◌∷◌, Bytes, length, All, arith,
}
use pycoinnet.Prelude.Bits.{bit_xor_mod, bit_and_ones, bit_or_sum, bit_or_sum_low}
use pycoinnet.Murmur.{
  rotl_15, rotl_13, scramble, load_block, mix_block, mix_tail, mix_data, shift_xor, fmix, murmur3,
}

abbrev word : ℕ
word = 2 ^ 32

-- Rotation of a word to the left.
abbrev rotl : ℕ → ℕ → ℕ
rotl x k = x * 2 ^ k % word + x / 2 ^ (32 - k)

pub reference_scramble : ℕ → ℕ
reference_scramble k = rotl (k * 0xcc9e2d51 % word) 15 * 0x1b873593 % word

pub reference_block : ℕ → ℕ → ℕ
unfolding reference_scramble
reference_block h k = (rotl (bit_xor h (reference_scramble k)) 13 * 5 + 0xe6546b64) % word

-- The bytes as little-endian words.
pub reference_data : ℕ → Bytes → ℕ
unfolding reference_block
reference_data h (a ∷ b ∷ c ∷ d ∷ rest) =
    reference_data (reference_block h (a + 0x100 * b + 0x10000 * c + 0x1000000 * d)) rest
reference_data h (a ∷ b ∷ c ∷ []) = bit_xor h (reference_scramble (a + 0x100 * b + 0x10000 * c))
reference_data h (a ∷ b ∷ []) = bit_xor h (reference_scramble (a + 0x100 * b))
reference_data h (a ∷ []) = bit_xor h (reference_scramble a)
reference_data h [] = h

abbrev shifted : ℕ → ℕ → ℕ
shifted h k = bit_xor h (h / 2 ^ k)

pub reference_fmix : ℕ → ℕ
reference_fmix h = shifted (shifted (shifted h 16 * 0x85ebca6b % word) 13 * 0xc2b2ae35 % word) 16

pub reference_murmur3 : Bytes → ℕ → ℕ
reference_murmur3 bytes seed =
    reference_fmix (bit_xor (reference_data seed bytes) (length bytes % word))

low_word : (x : ℕ) → bit_and x 0xffffffff ≡ x % word
low_word x = bit_and_ones 32 x

low_byte : (x : ℕ) → bit_and x 0xff ≡ x % 256
low_byte x = bit_and_ones 8 x

rotl_15_mod : (x : ℕ) → rotl_15 x % word ≡ rotl (x % word) 15
unfolding rotl_15
rotl_15_mod x = rw low_word (omega (arith, bit_or_sum 15 x (x % word / 2 ^ 17) (omega arith)))

rotl_13_mod : (x : ℕ) → rotl_13 x % word ≡ rotl (x % word) 13
unfolding rotl_13
rotl_13_mod x = rw low_word (omega (arith, bit_or_sum 13 x (x % word / 2 ^ 19) (omega arith)))

mul_mod : (x c : ℕ) → x * c % word ≡ x % word * c % word
mul_mod x c =
    let e : x * c ≡ word * (x / word * c) + x % word * c =
      ap (λ (t : ℕ). t * c) {y = word * (x / word) + x % word} (omega arith) ∙ omega arith in
    rw e (mul-add-mod_self_left word (x / word * c) (x % word * c))

scramble_mod : (k : ℕ) → scramble k % word ≡ reference_scramble (k % word)
unfolding scramble reference_scramble
scramble_mod k =
    mul_mod (rotl_15 (k * 0xcc9e2d51)) 0x1b873593 ∙ rw (rotl_15_mod, mul_mod k 0xcc9e2d51)

block_mod : (h k : ℕ) → mix_block h k % word ≡ reference_block (h % word) (k % word)
unfolding mix_block reference_block
block_mod h k =
    let r = rotl_13_mod (bit_xor h (scramble k)) in
    let x : bit_xor h (scramble k) % word ≡ bit_xor (h % word) (reference_scramble (k % word)) =
      bit_xor_mod 32 h (scramble k) ∙ rw scramble_mod in
    rw (sym x, sym r) (omega arith)

shift_xor_mod : (h k : ℕ) → shift_xor h k % word ≡ shifted (h % word) k
unfolding shift_xor
shift_xor_mod h k =
    let small : h % word / 2 ^ k % word ≡ h % word / 2 ^ k =
      mod-eq_of_lt (omega (arith, div-le_self (h % word) (2 ^ k))) in
    rw low_word (bit_xor_mod 32 h (h % word / 2 ^ k) ∙ rw small)

fmix_mod : (h : ℕ) → fmix h % word ≡ reference_fmix (h % word)
unfolding fmix reference_fmix
fmix_mod h =
    shift_xor_mod (shift_xor (shift_xor h 16 * 0x85ebca6b) 13 * 0xc2b2ae35) 16
    ∙ rw (
      mul_mod (shift_xor (shift_xor h 16 * 0x85ebca6b) 13) 0xc2b2ae35,
      shift_xor_mod (shift_xor h 16 * 0x85ebca6b) 13,
      mul_mod (shift_xor h 16) 0x85ebca6b,
      shift_xor_mod h 16,
    )

-- The four bytes of a block make a little-endian word.
load_block_lem :
    {a b c d : ℕ}
    → a < 256
    → b < 256
    → c < 256
    → d < 256
    → load_block a b c d ≡ a + 0x100 * b + 0x10000 * c + 0x1000000 * d
unfolding load_block
load_block_lem {a} {b} {c} {d} ha hb hc hd =
    let ea : bit_and a 0xff ≡ a = low_byte a ∙ mod-eq_of_lt ha in
    let eb : bit_and b 0xff ≡ b = low_byte b ∙ mod-eq_of_lt hb in
    let ec : bit_and c 0xff ≡ c = low_byte c ∙ mod-eq_of_lt hc in
    rw
      (
        ea,
        eb,
        ec,
        bit_or_sum_low 8 b a (omega arith),
        bit_or_sum_low 16 c (a + b * 2 ^ 8) (omega arith),
        bit_or_sum_low 24 d (a + b * 2 ^ 8 + c * 2 ^ 16) (omega arith),
      )
      (omega arith)

tail_mod :
    (h : ℕ) (tail : Bytes)
    → length tail < 4
    → All (λ (b : ℕ). b < 256) tail
    → mix_tail h tail % word ≡ reference_data (h % word) tail
unfolding mix_tail reference_data
tail_mod h [] l hb = refl
tail_mod h (a ∷ []) l (ha, _) =
    let ea : bit_and a 0xff ≡ a = low_byte a ∙ mod-eq_of_lt ha in
    let z : bit_or 0 a ≡ a = omega (arith, bit_or_sum 8 0 a ha) in
    let m : a % word ≡ a = omega arith in
    rw (ea, z) (bit_xor_mod 32 h (scramble a) ∙ rw (scramble_mod, m))
tail_mod h (a ∷ b ∷ []) l (ha, (hb, _)) =
    let ea : bit_and a 0xff ≡ a = low_byte a ∙ mod-eq_of_lt ha in
    let eb : bit_and b 0xff ≡ b = low_byte b ∙ mod-eq_of_lt hb in
    let z : bit_or 0 (b * 2 ^ 8) ≡ b * 2 ^ 8 =
      omega (arith, bit_or_sum 16 0 (b * 2 ^ 8) (omega arith)) in
    let e : bit_or (b * 2 ^ 8) a ≡ a + 0x100 * b = omega (arith, bit_or_sum 8 b a ha) in
    let m : (a + 0x100 * b) % word ≡ a + 0x100 * b = omega arith in
    rw (ea, eb, z, e) (bit_xor_mod 32 h (scramble (a + 0x100 * b)) ∙ rw (scramble_mod, m))
tail_mod h (a ∷ b ∷ c ∷ []) l (ha, (hb, (hc, _))) =
    let ea : bit_and a 0xff ≡ a = low_byte a ∙ mod-eq_of_lt ha in
    let eb : bit_and b 0xff ≡ b = low_byte b ∙ mod-eq_of_lt hb in
    let ec : bit_and c 0xff ≡ c = low_byte c ∙ mod-eq_of_lt hc in
    let e : bit_or (bit_or (c * 2 ^ 16) (b * 2 ^ 8)) a ≡ a + 0x100 * b + 0x10000 * c =
      rw (bit_or_sum 16 c (b * 2 ^ 8) (omega arith)) (
        let high : c * 2 ^ 16 + b * 2 ^ 8 ≡ (c * 2 ^ 8 + b) * 2 ^ 8 = omega arith in
        rw high (omega (arith, bit_or_sum 8 (c * 2 ^ 8 + b) a ha))) in
    let m : (a + 0x100 * b + 0x10000 * c) % word ≡ a + 0x100 * b + 0x10000 * c = omega arith in
    rw (ea, eb, ec, e)
      (bit_xor_mod 32 h (scramble (a + 0x100 * b + 0x10000 * c)) ∙ rw (scramble_mod, m))
tail_mod h (a ∷ b ∷ c ∷ d ∷ rest) l hb = absurd (omega arith)

data_mod :
    (h : ℕ) (bytes : Bytes)
    → All (λ (b : ℕ). b < 256) bytes
    → mix_data h bytes % word ≡ reference_data (h % word) bytes
unfolding mix_data reference_data
data_mod h [] hb = tail_mod h [] (omega arith) hb
data_mod h (a ∷ []) hb = tail_mod h (a ∷ []) (omega arith) hb
data_mod h (a ∷ b ∷ []) hb = tail_mod h (a ∷ b ∷ []) (omega arith) hb
data_mod h (a ∷ b ∷ c ∷ []) hb = tail_mod h (a ∷ b ∷ c ∷ []) (omega arith) hb
data_mod h (a ∷ b ∷ c ∷ d ∷ rest) (ha, (hb, (hc, (hd, hs)))) =
    let n = a + 0x100 * b + 0x10000 * c + 0x1000000 * d in
    let m : n % word ≡ n = omega arith in
    data_mod (mix_block h (load_block a b c d)) rest hs
    ∙ rw (block_mod, load_block_lem ha hb hc hd, m)

-- On bytes, `murmur3` is the hash MurmurHash3_x86_32 of 32-bit words, of the seed reduced to 32 bits.
pub murmur3-reference :
    (bytes : Bytes) (seed : ℕ)
    → All (λ (b : ℕ). b < 256) bytes
    → murmur3 bytes seed ≡ reference_murmur3 bytes (seed % 2 ^ 32)
unfolding murmur3 reference_murmur3
murmur3-reference bytes seed hb =
    low_word (fmix (bit_xor (mix_data seed bytes) (length bytes)))
    ∙ fmix_mod (bit_xor (mix_data seed bytes) (length bytes))
    ∙ rw (bit_xor_mod 32 (mix_data seed bytes) (length bytes), data_mod seed bytes hb)

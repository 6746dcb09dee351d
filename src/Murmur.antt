-- ===== src/Murmur.antt =====
-- `murmur3` of pycoinnet/bloom.py. The source computes on Python's unbounded integers, and cuts
-- down to 32 bits only where it shifts right and at the end.
mod Tests
pub mod Reference
use Prim.Native.Nat.{bit_and, bit_or, bit_xor}
use pycoinnet.Prelude.{ℕ, ◌+◌, ◌*◌, ◌/◌, ◌^◌, List, [], ◌∷◌, Bytes, length}

-- x << 15 | (x & 0xffffffff) >> 17
unfoldable pub rotl_15 : ℕ → ℕ
rotl_15 x = bit_or (x * 2 ^ 15) (bit_and x 0xffffffff / 2 ^ 17)

-- x << 13 | (x & 0xffffffff) >> 19
unfoldable pub rotl_13 : ℕ → ℕ
rotl_13 x = bit_or (x * 2 ^ 13) (bit_and x 0xffffffff / 2 ^ 19)

-- The steps on `k1`.
unfoldable pub scramble : ℕ → ℕ
unfolding rotl_15
scramble k1 = rotl_15 (k1 * 0xcc9e2d51) * 0x1b873593

unfoldable pub load_block : ℕ → ℕ → ℕ → ℕ → ℕ
load_block a b c d =
    bit_or (bit_or (bit_or (bit_and a 0xff) (bit_and b 0xff * 2 ^ 8)) (bit_and c 0xff * 2 ^ 16))
      (d * 2 ^ 24)

unfoldable pub mix_block : ℕ → ℕ → ℕ
unfolding rotl_13
mix_block h1 k1 = rotl_13 (bit_xor h1 (scramble k1)) * 5 + 0xe6546b64

-- The tail, of less than 4 bytes.
unfoldable pub mix_tail : ℕ → Bytes → ℕ
mix_tail h1 (a ∷ b ∷ c ∷ _) =
    bit_xor h1 (
      scramble
        (bit_or (bit_or (bit_and c 0xff * 2 ^ 16) (bit_and b 0xff * 2 ^ 8)) (bit_and a 0xff)))
mix_tail h1 (a ∷ b ∷ []) =
    bit_xor h1 (scramble (bit_or (bit_or 0 (bit_and b 0xff * 2 ^ 8)) (bit_and a 0xff)))
mix_tail h1 (a ∷ []) = bit_xor h1 (scramble (bit_or 0 (bit_and a 0xff)))
mix_tail h1 [] = h1

-- The loop over blocks of 4 bytes, and the tail. (`length & 0xfffffffc` is the length of the
-- blocks for data below 4 GB.)
unfoldable pub mix_data : ℕ → Bytes → ℕ
mix_data h1 (a ∷ b ∷ c ∷ d ∷ rest) = mix_data (mix_block h1 (load_block a b c d)) rest
mix_data h1 tail = mix_tail h1 tail

unfoldable pub shift_xor : ℕ → ℕ → ℕ
shift_xor h1 k = bit_xor h1 (bit_and h1 0xffffffff / 2 ^ k)

unfoldable pub fmix : ℕ → ℕ
fmix h1 = shift_xor (shift_xor (shift_xor h1 16 * 0x85ebca6b) 13 * 0xc2b2ae35) 16

unfoldable pub murmur3 : Bytes → ℕ → ℕ
unfolding mix_data mix_tail mix_block load_block scramble fmix shift_xor
murmur3 bytes seed = bit_and (fmix (bit_xor (mix_data seed bytes) (length bytes))) 0xffffffff

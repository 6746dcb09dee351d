-- ===== src/Bloom.antt =====
-- `BloomFilter` of pycoinnet/bloom.py.
mod Tests
pub mod Digits
pub mod Filter
pub mod Items
pub mod Sizes
use Prim.Native.Nat.{bit_and, bit_or}
use pycoinnet.Prelude.{
  ℕ, suc, zero, ◌+◌, ◌*◌, ◌/◌, ◌%◌, ◌^◌, ◌<◌, ◌==◌, ltb, if◌then◌else◌, Bool, List, [], ◌∷◌, ◌++◌,
  Bytes, to_be, replicate, set, Result, ok, err, ◌>>=◌, item_at, zero_division, value_error,
  struct_error,
}
use pycoinnet.Murmur.{murmur3}

pub record BloomFilter : Type 0 where
  pub filter_bytes : Bytes
  pub bit_count : ℕ
  pub hash_function_count : ℕ
  pub tweak : ℕ

unfoldable pub new_filter : ℕ → ℕ → ℕ → Result BloomFilter
new_filter size_in_bytes hash_function_count tweak =
    if ltb 36000 size_in_bytes
    then err value_error
    else ok (record {
      filter_bytes = replicate size_in_bytes 0;
      bit_count = 8 * size_in_bytes;
      hash_function_count = hash_function_count;
      tweak = tweak;
    })

abbrev pub masks : List ℕ
masks = 1 ∷ 2 ∷ 4 ∷ 8 ∷ 16 ∷ 32 ∷ 64 ∷ 128 ∷ []

-- `v % self.bit_count`
unfoldable pub reduce : ℕ → BloomFilter → Result ℕ
reduce v f = if f.bit_count == 0 then err zero_division else ok (v % f.bit_count)

unfoldable pub index_for_bit : ℕ → BloomFilter → Result (ℕ × ℕ)
unfolding reduce item_at
index_for_bit v f = do w ← reduce v f; mask ← item_at masks (w % 8); ok (w / 8, mask)

-- An assignment to an element of a bytearray, which raises ValueError past 255.
unfoldable pub set_byte : ℕ → ℕ → BloomFilter → Result BloomFilter
set_byte i value f =
    if ltb value 256
    then ok (record f { filter_bytes = set f.filter_bytes i value })
    else err value_error

unfoldable pub set_bit : ℕ → BloomFilter → Result BloomFilter
unfolding set_byte
set_bit v f = do
  (byte_index, mask) ← index_for_bit v f
  byte ← item_at f.filter_bytes byte_index
  set_byte byte_index (bit_or byte mask) f

unfoldable pub check_bit : ℕ → BloomFilter → Result Bool
check_bit v f = do
  (byte_index, mask) ← index_for_bit v f
  byte ← item_at f.filter_bytes byte_index
  ok (bit_and byte mask == mask)

-- The hash of the item at `hash_index`.
unfoldable pub item_hash : Bytes → ℕ → BloomFilter → ℕ
item_hash item_bytes hash_index f = murmur3 item_bytes (hash_index * 0xfba4c795 + f.tweak)

-- The loop of `add_item`, from a hash index on, for the number of rounds that are left.
unfoldable pub add_hashes : ℕ → ℕ → Bytes → BloomFilter → Result BloomFilter
add_hashes zero hash_index item_bytes f = ok f
add_hashes (suc left) hash_index item_bytes f = do
  v ← reduce (item_hash item_bytes hash_index f) f
  f' ← set_bit v f
  add_hashes left (hash_index + 1) item_bytes f'

unfoldable pub add_item : Bytes → BloomFilter → Result BloomFilter
unfolding add_hashes
add_item item_bytes f = add_hashes f.hash_function_count 0 item_bytes f

-- pycoin's decoding of an address with its prefix is a parameter.
unfoldable pub add_address :
    (Bytes → Bytes → Result Bytes) → Bytes → Bytes → BloomFilter → Result BloomFilter
add_address bitcoin_address_to_hash160_sec address address_prefix f = do
  the_hash160 ← bitcoin_address_to_hash160_sec address address_prefix
  add_item the_hash160 f

-- `struct.pack("!L", n)`
unfoldable pub pack_be_long : ℕ → Result Bytes
pack_be_long n = if ltb n (2 ^ 32) then ok (to_be 4 n) else err struct_error

unfoldable pub add_spendable : Bytes → ℕ → BloomFilter → Result BloomFilter
unfolding pack_be_long
add_spendable tx_hash tx_out_index f = do
  index_bytes ← pack_be_long tx_out_index
  add_item (tx_hash ++ index_bytes) f

unfoldable pub filter_load_params : BloomFilter → Bytes × ℕ × ℕ
filter_load_params f = (f.filter_bytes, f.hash_function_count, f.tweak)

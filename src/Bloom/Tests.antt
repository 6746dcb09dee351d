-- ===== src/Bloom/Tests.antt =====
-- The filter at the values of Bitcoin Core's test of its own filter, and the theorems at sample inputs.
use pycoinnet.Prelude.{◌≡◌, refl, arith, [], ◌∷◌, Bytes, In, ok, ◌>>=◌, item_at}
use pycoinnet.Murmur.{murmur3}
use pycoinnet.Bloom.{
  BloomFilter, new_filter, reduce, index_for_bit, set_bit, check_bit, item_hash, add_item,
  add_spendable,
}
use pycoinnet.Bloom.Filter.{IsWellFormed}
use pycoinnet.Bloom.Items.{IsMatch, add_items, add_items-IsMatch}

program : Unit {0}
unfolding murmur3 item_at new_filter reduce index_for_bit set_bit check_bit item_hash add_item
    add_spendable
program = tt

abbrev empty : BloomFilter
empty = record { filter_bytes = 0 ∷ 0 ∷ 0 ∷ []; bit_count = 24; hash_function_count = 5; tweak = 0 }

made : new_filter 3 5 0 ≡ ok empty
unfolding program
made = refl

-- The items and the filter of Bitcoin Core's test.
abbrev item : Bytes
item =
    0x99 ∷ 0x10 ∷ 0x8a ∷ 0xd8 ∷ 0xed ∷ 0x9b ∷ 0xb6 ∷ 0x27 ∷ 0x4d ∷ 0x39 ∷ 0x80 ∷ 0xba ∷ 0xb5 ∷ 0xa8
    ∷ 0x5c ∷ 0x04 ∷ 0x8f ∷ 0x09 ∷ 0x50 ∷ 0xc8 ∷ []

abbrev item_2 : Bytes
item_2 =
    0xb5 ∷ 0xa2 ∷ 0xc7 ∷ 0x86 ∷ 0xd9 ∷ 0xef ∷ 0x46 ∷ 0x58 ∷ 0x28 ∷ 0x7c ∷ 0xed ∷ 0x59 ∷ 0x14 ∷ 0xb3
    ∷ 0x7a ∷ 0x1b ∷ 0x4a ∷ 0xa3 ∷ 0x2e ∷ 0xee ∷ []

abbrev item_3 : Bytes
item_3 =
    0xb9 ∷ 0x30 ∷ 0x06 ∷ 0x70 ∷ 0xb4 ∷ 0xc5 ∷ 0x36 ∷ 0x6e ∷ 0x95 ∷ 0xb2 ∷ 0x69 ∷ 0x9e ∷ 0x8b ∷ 0x18
    ∷ 0xbc ∷ 0x75 ∷ 0xe5 ∷ 0xf7 ∷ 0x29 ∷ 0xc5 ∷ []

filled :
    (add_item item empty >>= add_item item_2 >>= add_item item_3 >>= λ f. ok f.filter_bytes)
    ≡ ok (0x61 ∷ 0x4e ∷ 0x9b ∷ [])
unfolding program
filled = refl

empty-IsWellFormed : IsWellFormed empty
empty-IsWellFormed = record {
  counted = refl;
  bytes = (omega arith, (omega arith, (omega arith, tt)));
  some_bits = omega arith;
}

add_items-IsMatch_example :
    (f' : BloomFilter) × (add_items (item ∷ (7 ∷ []) ∷ []) empty ≡ ok f')
    × IsWellFormed f'
    × ((x : Bytes) → In x (item ∷ (7 ∷ []) ∷ []) → IsMatch x f')
add_items-IsMatch_example = add_items-IsMatch (item ∷ (7 ∷ []) ∷ []) empty empty-IsWellFormed

-- ===== src/DictStore/Tests.antt =====
-- A directory of numbers, each written as one byte.
use mathlib.Core.List.{reverse}
use pycoinnet.Prelude.{
  bytes_eq, compare_bytes, ℕ, ◌≡◌, refl, arith, Option, none, List, [], ◌∷◌, Bytes, codes, err, ok,
  Result, Error, value_error, type_error, replicate,
}
use pycoinnet.DictStore.{hexlify, iter, len}
use pycoinnet.DictStore.Names.{AreBytes, WritesHex}
use pycoinnet.DictStore.Refinement.{
  Op, set_op, get_op, del_op, Mapping, spec_step, store_step, run, Represents, run_refines,
  nothing-Represents,
}

abbrev b2h_rev : Bytes → Bytes
b2h_rev key = hexlify (reverse key)

writes_hex : WritesHex b2h_rev
writes_hex key = refl

abbrev parse_f : Bytes → Result ℕ
parse_f [] = err value_error
parse_f (n ∷ bs) = ok n

abbrev stream_f : ℕ → Bytes × Option Error
stream_f n = (n ∷ [], none)

abbrev prefix : Bytes
prefix = codes "tx_"

abbrev ops : List (Op ℕ)
ops =
    set_op (1 ∷ 2 ∷ []) 5
    ∷ get_op (1 ∷ 2 ∷ [])
    ∷ get_op (2 ∷ 1 ∷ [])
    ∷ set_op (1 ∷ 2 ∷ []) 6
    ∷ del_op (1 ∷ 2 ∷ [])
    ∷ get_op (1 ∷ 2 ∷ [])
    ∷ []

abbrev empty : Mapping ℕ
empty key = none

pair : AreBytes (1 ∷ 2 ∷ [])
pair = (omega arith, (omega arith, tt))

swapped : AreBytes (2 ∷ 1 ∷ [])
swapped = (omega arith, (omega arith, tt))

run_refines_example :
    Represents prefix b2h_rev parse_f stream_f
      (run (store_step prefix b2h_rev parse_f stream_f) ops []).0
      (run spec_step ops empty).0
    × ((run (store_step prefix b2h_rev parse_f stream_f) ops []).1 ≡ (run spec_step ops empty).1)
run_refines_example =
    run_refines prefix b2h_rev parse_f stream_f writes_hex (λ v. (refl, refl)) ops [] empty
      (pair, (pair, (swapped, (pair, (pair, (pair, tt))))))
      (nothing-Represents prefix b2h_rev parse_f stream_f)

-- `keys` gives a generator, so `len` of a store raises TypeError.
no_length : len prefix [] ≡ err type_error
unfolding len
no_length = refl

abbrev zeros : Bytes
zeros = codes "tx_0000000000000000000000000000000000000000000000000000000000000000"

listed : iter prefix ((zeros, []) ∷ (codes "readme", []) ∷ []) ≡ ok (replicate 32 0 ∷ [])
unfolding iter compare_bytes bytes_eq
listed = refl

too_long :
    iter prefix
      ((codes "tx_0000000000000000000000000000000000000000000000000000000000000000.bak", []) ∷ [])
    ≡ err value_error
unfolding iter bytes_eq
too_long = refl

-- ===== src/DictStore.antt =====
-- pycoinnet/util/DictStoreSimple.py: a mapping whose values are files of one directory. The directory
-- is a dict from the names of its files to their bytes, and it can be written. `b2h_rev` of pycoin is
-- a parameter, and so are the two functions given to the constructor: `stream_f` tells what it wrote
-- and whether it raised. The prefix has no character that is special in a regular expression.
mod Tests
pub mod Names
pub mod Refinement
use mathlib.Core.List.{reverse}
use pycoinnet.Prelude.{
  ℕ, ◌+◌, ◌-◌, ◌*◌, ◌==◌, ltb, leb, if◌then◌else◌, ◌&&◌, ◌||◌, Option, none, some, List, [], ◌∷◌,
  ◌++◌, map, length, take, drop, filter, Bool, true, false, Bytes, bytes_eq, compare_bytes,
  bytes_key, Result, ok, err, ◌>>=◌, Error, key_error, value_error, type_error,
}
use Prim.Native.Nat.{◌/◌, ◌%◌, Ordering}
use pycoinnet.Dict.{Dict, lookup, put, remove}

abbrev pub hex_digit : ℕ → ℕ
hex_digit d = if ltb d 10 then b'0' + d else b'a' + (d - 10)

-- `binascii.hexlify`
unfoldable pub hexlify : Bytes → Bytes
hexlify [] = []
hexlify (b ∷ bs) = hex_digit (b / 16) ∷ hex_digit (b % 16) ∷ hexlify bs

unfoldable pub digit_value : ℕ → Option ℕ
digit_value c =
    if leb b'0' c && leb c b'9'
    then some (c - b'0')
    else if leb b'a' c && leb c b'f'
    then some (c - b'a' + 10)
    else if leb b'A' c && leb c b'F'
    then some (c - b'A' + 10)
    else none

-- `binascii.unhexlify`, whose error is a ValueError.
unfoldable pub unhexlify : Bytes → Result Bytes
unfolding digit_value
unhexlify [] = ok []
unhexlify (c ∷ []) = err value_error
unhexlify (c ∷ d ∷ s) = elim (digit_value c) [
  | none ↦ err value_error
  | some high ↦ elim (digit_value d) [
    | none ↦ err value_error
    | some low ↦ unhexlify s >>= λ bs. ok ((high * 16 + low) ∷ bs)
  ]
]

abbrev is_hex : ℕ → Bool
is_hex c = (leb b'0' c && leb c b'9') || (leb b'a' c && leb c b'f')

unfoldable all_hex : Bytes → Bool
all_hex [] = true
all_hex (c ∷ s) = is_hex c && all_hex s

-- `self.the_re.match(p)`: the prefix and then 64 digits; what follows is not looked at.
unfoldable pub is_match : Bytes → Bytes → Bool
unfolding all_hex
is_match prefix name =
    let digits = take 64 (drop (length prefix) name) in
    bytes_eq (take (length prefix) name) prefix && (length digits == 64) && all_hex digits

unfoldable insert_name : Bytes → List Bytes → List Bytes
insert_name name [] = name ∷ []
insert_name name (n ∷ names) =
    let rest = insert_name name names in
    elim (compare_bytes name n) [ Ordering.gt ↦ n ∷ rest | _ ↦ name ∷ n ∷ names ]

-- `paths.sort()`
unfoldable sorted_names : List Bytes → List Bytes
unfolding insert_name
sorted_names [] = []
sorted_names (name ∷ names) = insert_name name (sorted_names names)

module _ (prefix : Bytes) where
  -- The loop of `__iter__`
  unfoldable pub yield_keys : List Bytes → Result (List Bytes)
  unfolding is_match unhexlify
  yield_keys [] = ok []
  yield_keys (p ∷ paths) =
      let rest = yield_keys paths in
      if is_match prefix p
      then (unhexlify (drop (length prefix) p) >>= λ bs. rest >>= λ keys. ok (reverse bs ∷ keys))
      else rest

  -- All that iterating gives.
  unfoldable pub iter : Dict Bytes Bytes → Result (List Bytes)
  unfolding sorted_names yield_keys
  iter files = yield_keys (sorted_names (map (λ file. file.0) files))

  -- `len(self.keys())`, where keys() is a generator
  unfoldable pub len : Dict Bytes Bytes → Result ℕ
  len files = err type_error

  module _ (b2h_rev : Bytes → Bytes) where
    -- The name in the directory
    unfoldable pub path_for_hash : Bytes → Bytes
    path_for_hash key = prefix ++ b2h_rev key

    module _ {V : Type 0} (parse_f : Bytes → Result V) (stream_f : V → Bytes × Option Error) where
      unfoldable pub set_item : Bytes → V → Dict Bytes Bytes → Dict Bytes Bytes × Result (Unit {0})
      unfolding path_for_hash
      set_item key v files =
          let written = stream_f v in
          let files1 = put (path_for_hash key) written.0 files in
          elim written.1 [ none ↦ (files1, ok tt) | some e ↦ (files1, err e) ]

      unfoldable pub get_item : Bytes → Dict Bytes Bytes → Result V
      unfolding path_for_hash
      get_item key files = elim (lookup (path_for_hash key) files) [
        | none ↦ err key_error
        | some content ↦ elim (parse_f content) [ err e ↦ err key_error | ok v ↦ ok v ]
      ]

    unfoldable pub del_item : Bytes → Dict Bytes Bytes → Result (Dict Bytes Bytes)
    unfolding path_for_hash
    del_item key files = elim (lookup (path_for_hash key) files) [
      | none ↦ err key_error
      | some content ↦ ok (remove (path_for_hash key) files)
    ]

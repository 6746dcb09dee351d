-- ===== src/Message.antt =====
-- pycoinnet/message.py: the payloads of messages by structure strings. The streamer of pycoin is a
-- parameter: `stream_struct` writes values by a format, and `parse_as_dict` reads named ones. A value
-- is a number or an object; an array has a row of them for each element, where an element that is no
-- tuple counts as a row of one.
pub mod Fields
pub mod ReadBack
pub mod Packed
pub mod Streamer
pub mod Sent
mod Tests
use pycoinnet.Prelude.{
  ℕ, ◌≡◌, ◌==◌, ltb, leb, not, if◌then◌else◌, ◌&&◌, ◌||◌, Bool, true, false, Option, none, some,
  List, [], ◌∷◌, ◌++◌, map, length, drop, filter, Bytes, bytes_eq, bytes_key, codes, split_on,
  drop_last, item_at, Result, ok, err, ◌>>=◌, key_error, type_error, value_error, Error,
}
use pycoinnet.Dict.{Dict, lookup}
use pycoinnet.Merkle.{MerkleBlock, fixup_merkleblock}

pub data Atom (A : Type 0) : Type 0 where
  number : ℕ → Atom A
  object : A → Atom A

pub data Value (A : Type 0) : Type 0 where
  atom : Atom A → Value A
  rows : List (List (Atom A)) → Value A

abbrev pub message_structures : Dict Bytes Bytes
message_structures =
    (
      codes "version",
      codes
          "version:L services:Q timestamp:Q remote_address:A local_address:A nonce:Q subversion:S last_block_index:L",
    )
    ∷ (codes "verack", [])
    ∷ (codes "addr", codes "date_address_tuples:[LA]")
    ∷ (codes "inv", codes "items:[v]")
    ∷ (codes "getdata", codes "items:[v]")
    ∷ (codes "notfound", codes "items:[v]")
    ∷ (codes "getblocks", codes "version:L hashes:[#] hash_stop:#")
    ∷ (codes "getheaders", codes "version:L hashes:[#] hash_stop:#")
    ∷ (codes "tx", codes "tx:T")
    ∷ (codes "block", codes "block:B")
    ∷ (codes "headers", codes "headers:[zI]")
    ∷ (codes "getaddr", [])
    ∷ (codes "mempool", [])
    ∷ (codes "ping", codes "nonce:Q")
    ∷ (codes "pong", codes "nonce:Q")
    ∷ (codes "filterload", codes "filter:[1] hash_function_count:L tweak:L flags:b")
    ∷ (codes "filteradd", codes "data:[1]")
    ∷ (codes "filterclear", [])
    ∷ (codes "merkleblock", codes "header:z total_transactions:L hashes:[#] flags:[1]")
    ∷ (codes "alert", codes "payload:S signature:S")
    ∷ []

-- `kwargs[name]`
unfoldable pub value_of {ℓ} : {V : Type ℓ} → Bytes → Dict Bytes V → Result V
value_of name d = elim (lookup name d) [ none ↦ err key_error | some v ↦ ok v ]

module _ {A : Type 0} (stream_struct : Bytes → List (Atom A) → Result Bytes) where
  unfoldable pub pack_rows : Bytes → List (List (Atom A)) → Result Bytes
  pack_rows type [] = ok []
  pack_rows type (v ∷ vs) = do
    out ← stream_struct type v
    rest ← pack_rows type vs
    ok (out ++ rest)

  -- An array: its length, and its elements by `type[1:-1]`.
  unfoldable pub pack_array : Bytes → Value A → Result Bytes
  unfolding pack_rows
  pack_array type (atom a) = err type_error
  pack_array type (rows vs) = do
    count ← stream_struct (codes "I") (number (length vs) ∷ [])
    body ← pack_rows type vs
    ok (count ++ body)

  unfoldable pub pack_atom : Bytes → Value A → Result Bytes
  pack_atom type (atom a) = stream_struct type (a ∷ [])
  pack_atom type (rows vs) = err type_error

  unfoldable pub pack_field : Bytes → Value A → Result Bytes
  unfolding pack_array pack_atom
  pack_field type v = do
    first ← item_at type 0
    if first == b'[' then pack_array (drop_last (drop 1 type)) v else pack_atom type v

  -- The fields of a structure, each split at its colon.
  unfoldable pub pack_fields : List (List Bytes) → Dict Bytes (Value A) → Result Bytes
  unfolding pack_field value_of
  pack_fields [] kwargs = ok []
  pack_fields ((name ∷ type ∷ []) ∷ pairs) kwargs = do
    v ← value_of name kwargs
    out ← pack_field type v
    rest ← pack_fields pairs kwargs
    ok (out ++ rest)
  pack_fields ((name ∷ type ∷ more ∷ parts) ∷ pairs) kwargs = err value_error
  pack_fields ((name ∷ []) ∷ pairs) kwargs = err value_error
  pack_fields ([] ∷ pairs) kwargs = err value_error

  unfoldable pub pack_struct : Bytes → Dict Bytes (Value A) → Result Bytes
  unfolding pack_fields
  pack_struct [] kwargs = ok []
  pack_struct (c ∷ the_struct) kwargs =
      pack_fields (map (split_on b':') (split_on b' ' (c ∷ the_struct))) kwargs

  unfoldable pub pack_from_data : Bytes → Dict Bytes (Value A) → Result Bytes
  unfolding pack_struct value_of
  pack_from_data message_name kwargs = do
    the_struct ← value_of message_name message_structures
    pack_struct the_struct kwargs

-- `the_struct.split()`: the only white space in the structures is the space.
unfoldable pub words : Bytes → List Bytes
words the_struct = filter (λ w. not (length w == 0)) (split_on b' ' the_struct)

-- `names` and `types`
unfoldable pub names_and_types : List (List Bytes) → Result (List Bytes × Bytes)
names_and_types [] = ok ([], [])
names_and_types (s ∷ items) = do
  name ← item_at s 0
  type ← item_at s 1
  (names, types) ← names_and_types items
  ok (name ∷ names, type ++ types)

-- A parsed message: its fields, and what the fixups add to them.
pub record Message (A : Type 0) : Type 0 where
  pub fields : Dict Bytes (Value A)
  pub relay : Option Bool
  pub alert_info : Option (Dict Bytes (Value A))
  pub tx_hashes : Option (List Bytes)

abbrev pub plain : {A : Type 0} → Dict Bytes (Value A) → Message A
plain d = record { fields = d; relay = none; alert_info = none; tx_hashes = none }

-- The structure of the payload of an alert.
abbrev pub alert_structure : Bytes
alert_structure =
    codes
      "version:L relayUntil:Q expiration:Q id:L cancel:L setCancel:[L] minVer:L maxVer:L setSubVer:[S] priority:L comment:S statusBar:S reserved:S"

unfoldable pub number_in : {A : Type 0} → Value A → Result ℕ
number_in (atom (number n)) = ok n
number_in (atom (object a)) = err type_error
number_in (rows vs) = err type_error

unfoldable pub object_in : {A : Type 0} → Value A → Result A
object_in (atom (number n)) = err type_error
object_in (atom (object a)) = ok a
object_in (rows vs) = err type_error

unfoldable singles_of :
    {A B : Type 0} → (Value A → Result B) → List (List (Atom A)) → Result (List B)
singles_of read [] = ok []
singles_of read ((a ∷ []) ∷ vs) = do b ← read (atom a); bs ← singles_of read vs; ok (b ∷ bs)
singles_of read ([] ∷ vs) = err type_error
singles_of read ((a ∷ b ∷ more) ∷ vs) = err type_error

-- An array of single elements.
unfoldable pub singles : {A B : Type 0} → (Value A → Result B) → Value A → Result (List B)
unfolding singles_of
singles read (atom a) = err type_error
singles read (rows vs) = singles_of read vs

module _ {A : Type 0}
    (parse_as_dict : List Bytes → Bytes → Bytes → Result (Dict Bytes (Value A) × Bytes)) where
  -- `_make_parser(the_struct)`, applied to a stream: the fields and the rest of the stream.
  unfoldable pub make_parser : Bytes → Bytes → Result (Dict Bytes (Value A) × Bytes)
  unfolding words names_and_types
  make_parser the_struct message_stream = do
    (names, types) ← names_and_types (map (split_on b':') (words the_struct))
    parse_as_dict names types message_stream

  -- `b = f.read(1)`
  abbrev relay_of : Bytes → Option Bool
  relay_of [] = none
  relay_of (b ∷ f) = some (not (b == 0))

  unfoldable pub fixup_version : Dict Bytes (Value A) → Bytes → Result (Message A)
  unfolding value_of number_in
  fixup_version d f = do
    v ← value_of (codes "version") d
    version ← number_in v
    ok (if leb 70001 version then record (plain d) { relay = relay_of f } else plain d)

  -- The bytes of an object, the root that a header names, and double_sha256.
  module _ (bytes_of merkle_root : A → Bytes) (double_sha256 : Bytes → Bytes) where
    unfoldable pub fixup_alert : Dict Bytes (Value A) → Result (Message A)
    unfolding value_of object_in make_parser
    fixup_alert d = do
      v ← value_of (codes "payload") d
      payload ← object_in v
      (d1, rest) ← make_parser alert_structure (bytes_of payload)
      ok (record (plain d) { alert_info = some d1 })

    unfoldable pub merkle_block_of : Dict Bytes (Value A) → Result MerkleBlock
    unfolding value_of number_in object_in singles
    merkle_block_of d = do
      header ← (value_of (codes "header") d >>= object_in)
      total ← (value_of (codes "total_transactions") d >>= number_in)
      hashes ← (value_of (codes "hashes") d >>= singles object_in)
      flags ← (value_of (codes "flags") d >>= singles number_in)
      ok (record {
        merkle_root = merkle_root header;
        total_transactions = total;
        hashes = map bytes_of hashes;
        flags = flags;
      })

    unfoldable pub fixup_merkle : Dict Bytes (Value A) → Result (Message A)
    unfolding merkle_block_of
    fixup_merkle d = do
      block ← merkle_block_of d
      tx_acc ← fixup_merkleblock double_sha256 block
      ok (record (plain d) { tx_hashes = some tx_acc })

    -- `MESSAGE_FIXUPS.get(message_name)`, called if it is there
    unfoldable pub fixup : Bytes → Dict Bytes (Value A) → Bytes → Result (Message A)
    unfolding fixup_version fixup_alert fixup_merkle
    fixup message_name d message_stream =
        if bytes_eq message_name (codes "version")
        then fixup_version d message_stream
        else if bytes_eq message_name (codes "alert")
        then fixup_alert d
        else if bytes_eq message_name (codes "merkleblock")
        then fixup_merkle d
        else ok (plain d)

    -- A message of a name that is not known is empty.
    unfoldable pub parse_from_data : Bytes → Bytes → Result (Message A)
    unfolding fixup
    parse_from_data message_name data_ = elim (lookup message_name message_structures) [
      | none ↦ ok (plain [])
      | some the_struct ↦ make_parser the_struct data_ >>= λ (d, message_stream).
          fixup message_name d message_stream
    ]

-- ===== src/Message/Tests.antt =====
-- The theorem of Message/Sent on a message with an array, and small runs.
use pycoinnet.Prelude.{
  List, ◌≤◌, ◌++◌, map, length, split_on, ◌>>=◌, arith, drop_last, item_at, split_on, bytes_eq, ℕ,
  ◌≡◌, refl, some, [], ◌∷◌, Bytes, bytes_key, codes, ok, err, key_error, type_error,
}
use pycoinnet.Dict.{Dict, lookup}
use pycoinnet.Message.{
  fixup, names_and_types, words, number, object, Value, atom, rows, message_structures,
  pack_from_data, plain, parse_from_data,
}
use pycoinnet.Message.Packed.{IsRead}
use pycoinnet.Peer.{packet}
use pycoinnet.Peer.Stream.{read_message}
use pycoinnet.Message.Sent.{send_msg, read_message-send_msg}
use pycoinnet.Message.Streamer.{stream_row, read_dict, stream_row-ReadsBack}

-- A request of blocks with two hashes.
abbrev request : Dict Bytes (Value ℕ)
request =
    (codes "hash_stop", atom (object 0))
    ∷ (codes "hashes", rows ((object 5 ∷ []) ∷ (object 7 ∷ []) ∷ []))
    ∷ (codes "version", atom (number 1))
    ∷ []

abbrev request_bytes : Bytes
request_bytes = 0 ∷ 1 ∷ 0 ∷ 2 ∷ 1 ∷ 5 ∷ 1 ∷ 7 ∷ 1 ∷ 0 ∷ []

pack_request : pack_from_data stream_row (codes "getblocks") request ≡ ok request_bytes
unfolding pack_from_data lookup bytes_eq split_on item_at stream_row drop_last
pack_request = refl

-- No bytes for an empty structure, and no message of another name.
pack_verack : pack_from_data stream_row (codes "verack") [] ≡ ok []
unfolding pack_from_data lookup bytes_eq
pack_verack = refl

pack_unknown : pack_from_data stream_row (codes "reply") [] ≡ err key_error
unfolding pack_from_data lookup bytes_eq
pack_unknown = refl

pack_missing : pack_from_data stream_row (codes "ping") [] ≡ err key_error
unfolding pack_from_data lookup bytes_eq split_on
pack_missing = refl

-- An array needs a sequence.
pack_number :
    pack_from_data stream_row (codes "inv") ((codes "items", atom (number 3)) ∷ []) ≡ err type_error
unfolding pack_from_data lookup bytes_eq split_on item_at
pack_number = refl

parse_unknown :
    parse_from_data read_dict (λ n. n ∷ []) (λ n. n ∷ []) (λ s. s) (codes "reply") (1 ∷ [])
    ≡ ok (plain [])
unfolding parse_from_data lookup bytes_eq
parse_unknown = refl

parse_pong :
    parse_from_data read_dict (λ n. n ∷ []) (λ n. n ∷ []) (λ s. s) (codes "pong") (0 ∷ 8 ∷ [])
    ≡ ok (plain ((codes "nonce", atom (number 8)) ∷ []))
unfolding parse_from_data lookup bytes_eq split_on item_at read_dict
parse_pong = refl

-- A digest of four bytes.
abbrev sum_of : Bytes → Bytes
sum_of s = length s ∷ 1 ∷ 2 ∷ 3 ∷ []

sum_of-digest : (b : Bytes) → 4 ≤ length (sum_of b)
sum_of-digest b = omega arith

abbrev request_packet : Bytes
request_packet = packet sum_of (7 ∷ []) (codes "getblocks") request_bytes

read_message-send_msg_example :
    (the_struct : Bytes) × (names : List Bytes) × (types : Bytes) × (d : Dict Bytes (Value ℕ))
    × (lookup (codes "getblocks") message_structures ≡ some the_struct)
    × (names_and_types (map (split_on b':') (words the_struct)) ≡ ok (names, types))
    × (read_message sum_of
          (7 ∷ [])
          (parse_from_data read_dict (λ n. n ∷ []) (λ n. n ∷ []) sum_of)
          (request_packet ++ (9 ∷ []))
        ≡ fixup read_dict (λ n. n ∷ []) (λ n. n ∷ []) sum_of (codes "getblocks") d [] >>= λ message.
            ok ((codes "getblocks", message), 9 ∷ []))
    × IsRead stream_row read_dict stream_row-ReadsBack request names d
unfolding send_msg pack_from_data lookup bytes_eq split_on item_at stream_row drop_last
read_message-send_msg_example =
    read_message-send_msg stream_row sum_of (7 ∷ []) sum_of-digest read_dict stream_row-ReadsBack
      (λ n. n ∷ []) (λ n. n ∷ []) (codes "getblocks") request request_bytes request_packet (9 ∷ [])
      pack_request (omega arith) refl

-- ===== src/Peer.antt =====
-- pycoinnet/peer/BitcoinPeerProtocol.py: the framing of messages on a connection, the state of
-- the connection, and the queues that its messages go to. pycoin's `double_sha256` is a
-- parameter, and a message's payload stands as the bytes that `pack_from_data` made.
pub mod Frame
pub mod Accepted
pub mod Stream
pub mod State
mod Tests
use mathlib.Core.List.{foldl}
use pycoinnet.Prelude.{
  ℕ, zero, suc, ◌+◌, ◌*◌, Bool, true, false, not, ◌&&◌, Option, some, none, List, [], ◌∷◌, ◌++◌,
  Bytes, bytes_eq, Result, ok, err, value_error, eof_error, protocol_error, invalid_state,
  out_of_fuel, ◌>>=◌, length, take, drop, replicate, filter, to_le, from_le, ltb, leb, ◌==◌,
  if◌then◌else◌,
}

abbrev pub max_message_size : ℕ
max_message_size = 2 * 1024 * 1024

-- UTF-8 as Python decodes it: the bytes still to come, and the range of the next one.
abbrev pub Utf8 : Type 0
Utf8 = ℕ × ℕ × ℕ

unfoldable pub utf8_lead : ℕ → Option Utf8
utf8_lead b =
    if ltb b 0x80
    then some (0, 0, 0)
    else if leb 0xc2 b && leb b 0xdf
    then some (1, 0x80, 0xbf)
    else if b == 0xe0
    then some (2, 0xa0, 0xbf)
    else if b == 0xed
    then some (2, 0x80, 0x9f)
    else if leb 0xe1 b && leb b 0xef
    then some (2, 0x80, 0xbf)
    else if b == 0xf0
    then some (3, 0x90, 0xbf)
    else if leb 0xf1 b && leb b 0xf3
    then some (3, 0x80, 0xbf)
    else if b == 0xf4
    then some (3, 0x80, 0x8f)
    else none

unfoldable pub utf8_step : Option Utf8 → ℕ → Option Utf8
unfolding utf8_lead
utf8_step none b = none
utf8_step (some (zero, lo, hi)) b = utf8_lead b
utf8_step (some (suc n, lo, hi)) b = if leb lo b && leb b hi then some (n, 0x80, 0xbf) else none

unfoldable pub utf8_end : Option Utf8 → Bool
utf8_end (some (zero, lo, hi)) = true
utf8_end _ = false

unfoldable pub is_utf8 : Bytes → Bool
unfolding utf8_step utf8_end
is_utf8 bs = utf8_end (foldl utf8_step (some (0, 0, 0)) bs)

-- `.decode("utf8")`; a text is kept as its encoding.
unfoldable pub decode : Bytes → Result Bytes
decode bs = if is_utf8 bs then ok bs else err value_error

-- `reader.readexactly(n)` on what the stream holds until its end.
unfoldable pub read_exactly : ℕ → Bytes → Result (Bytes × Bytes)
read_exactly n stream =
    if ltb (length stream) n then err eof_error else ok (take n stream, drop n stream)

module _ (double_sha256 : Bytes → Bytes) (magic_header : Bytes) where
  -- The packet of `send_msg`, from the name and the packed payload, which is shorter than 2 ** 32 bytes: for
  -- a longer one `struct.pack` raises.
  unfoldable pub packet : Bytes → Bytes → Bytes
  packet message_type message_data =
      magic_header
      ++ (take 12 (message_type ++ replicate 12 0)
          ++ (to_le 4 (length message_data)
              ++ (take 4 (double_sha256 message_data) ++ message_data)))

  -- `_parse_next_message`, up to the call of `parse_from_data`: the name, the payload, and what
  -- the stream holds behind them.
  unfoldable pub check_payload : Bytes → Bytes → Bytes × Bytes → Result (Bytes × Bytes × Bytes)
  check_payload message_name transmitted_hash (message_data, stream) =
      if bytes_eq (take 4 (double_sha256 message_data)) transmitted_hash
      then ok (message_name, message_data, stream)
      else err protocol_error

  unfoldable pub parse_header : Bytes → Bytes → Result (Bytes × Bytes × Bytes)
  unfolding decode
  parse_header message_size_hash_bytes stream = do
    message_name ← decode (filter (λ b. not (b == 0)) (take 12 message_size_hash_bytes))
    let size = from_le (take 4 (drop 12 message_size_hash_bytes))
    if ltb max_message_size size then err protocol_error else do
      payload ← read_exactly size stream
      check_payload message_name (take 4 (drop 16 message_size_hash_bytes)) payload

  unfoldable pub parse_after_magic : Bytes → Bytes → Result (Bytes × Bytes × Bytes)
  unfolding read_exactly
  parse_after_magic blob stream =
      if bytes_eq blob magic_header
      then (do
        (message_size_hash_bytes, rest) ← read_exactly 20 stream
        parse_header message_size_hash_bytes rest)
      else err protocol_error

  unfoldable pub parse_next_message : Bytes → Result (Bytes × Bytes × Bytes)
  unfolding parse_after_magic
  parse_next_message stream = do
    (blob, rest) ← read_exactly (length magic_header) stream
    parse_after_magic blob rest

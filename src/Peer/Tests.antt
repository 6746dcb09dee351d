-- ===== src/Peer/Tests.antt =====
-- The framing at sample messages, under a sample checksum.
use pycoinnet.Prelude.{
  invalid_state, ◌≤◌, ◌≡◌, ◌≢◌, refl, true, false, List, [], ◌∷◌, ◌++◌, All, Bytes, bytes_eq, to_le,
  from_le, Result, ok, err, eof_error, protocol_error, length, arith,
}
use pycoinnet.Peer.{is_utf8, decode, packet, check_payload, parse_header, parse_next_message}
use pycoinnet.Peer.Frame.{parse_next_message-packet}
use pycoinnet.Peer.Accepted.{IsAccepted, parse_next_message-IsAccepted}
use pycoinnet.Peer.State.{
  PeerState, new_peer, Event, connection_made, connection_lost, data_received, send_msg, handle,
  run_events, IsCounted, run_events-IsCounted,
}
use pycoinnet.Peer.Stream.{
  read_message, run_messages, Sent, IsSendable, wire, run_messages-wire, delivered,
}

program : Unit {0}
unfolding bytes_eq to_le from_le is_utf8 decode packet check_payload parse_header parse_next_message
    read_message run_messages delivered
program = tt

abbrev sample_sum : Bytes → Bytes
sample_sum b = 1 ∷ 2 ∷ 3 ∷ length b ∷ b

abbrev magic : Bytes
magic = 0xf9 ∷ 0xbe ∷ 0xb4 ∷ 0xd9 ∷ []

-- "ping"
abbrev ping : Bytes
ping = b'p' ∷ b'i' ∷ b'n' ∷ b'g' ∷ []

parsed_ping :
    parse_next_message sample_sum magic (packet sample_sum magic ping (5 ∷ 6 ∷ []) ++ 9 ∷ [])
    ≡ ok (ping, 5 ∷ 6 ∷ [], 9 ∷ [])
unfolding program
parsed_ping = refl

bad_magic :
    parse_next_message sample_sum (0 ∷ []) (packet sample_sum magic ping []) ≡ err protocol_error
unfolding program
bad_magic = refl

cut_off : parse_next_message sample_sum magic (0xf9 ∷ 0xbe ∷ []) ≡ err eof_error
unfolding program
cut_off = refl

-- Well-formed texts and others.
texts :
    (is_utf8 (0xe2 ∷ 0x82 ∷ 0xac ∷ []) ≡ true)
    × (is_utf8 (0xc0 ∷ 0x80 ∷ []) ≡ false)
    × (is_utf8 (0xed ∷ 0xa0 ∷ 0x80 ∷ []) ≡ false)
unfolding program
texts = (refl, refl, refl)

ping_text : is_utf8 ping ≡ true
unfolding program
ping_text = refl

ping_bytes : All (λ b. b ≢ 0) ping
ping_bytes = omega arith

sum_length : (b : Bytes) → 4 ≤ length (sample_sum b)
sum_length b = omega arith

parse_next_message-packet_example :
    parse_next_message sample_sum magic (packet sample_sum magic ping (5 ∷ 6 ∷ []) ++ 9 ∷ [])
    ≡ ok (ping, 5 ∷ 6 ∷ [], 9 ∷ [])
parse_next_message-packet_example =
    parse_next_message-packet sample_sum magic sum_length ping (5 ∷ 6 ∷ []) (9 ∷ []) (omega arith)
      ping_bytes ping_text (omega arith)

parse_next_message-IsAccepted_example :
    (header : Bytes) × (packet sample_sum magic ping (5 ∷ 6 ∷ []) ++ 9 ∷ []
      ≡ magic ++ (header ++ ((5 ∷ 6 ∷ []) ++ 9 ∷ [])))
    × IsAccepted sample_sum magic header ping (5 ∷ 6 ∷ [])
parse_next_message-IsAccepted_example =
    parse_next_message-IsAccepted sample_sum magic
      (packet sample_sum magic ping (5 ∷ 6 ∷ []) ++ 9 ∷ []) parsed_ping

-- A parser that keeps the payload.
abbrev keep : Bytes → Bytes → Result Bytes
keep name payload = ok payload

abbrev sent : Sent Bytes
sent = record { name = ping; payload = 5 ∷ 6 ∷ []; message = 5 ∷ 6 ∷ [] }

sent-IsSendable : IsSendable keep sent
sent-IsSendable = record {
  name_length = omega arith;
  name_bytes = ping_bytes;
  name_text = ping_text;
  payload_length = omega arith;
  parses = refl;
}

ended : read_message sample_sum magic keep [] ≡ err eof_error
unfolding program
ended = refl

run_messages-wire_example :
    run_messages sample_sum magic keep (wire sample_sum magic keep sum_length (sent ∷ sent ∷ []) [])
    ≡ ok ((ping, 5 ∷ 6 ∷ []) ∷ (ping, 5 ∷ 6 ∷ []) ∷ [])
run_messages-wire_example =
    run_messages-wire sample_sum magic keep sum_length (sent ∷ sent ∷ []) []
      (sent-IsSendable, (sent-IsSendable, tt)) ended

abbrev events : List Event
events = connection_made ∷ data_received (1 ∷ 2 ∷ []) ∷ send_msg ping [] ∷ connection_lost ∷ []

abbrev after_events : PeerState
after_events = record {
  made = true;
  lost = true;
  fed = 1 ∷ 2 ∷ [];
  eof = true;
  written = magic ++ (ping ++ (0 ∷ 0 ∷ 0 ∷ 0 ∷ 0 ∷ 0 ∷ 0 ∷ 0 ∷ 0 ∷ 0 ∷ 0 ∷ 0 ∷ 1 ∷ 2 ∷ 3 ∷ 0 ∷ []));
  is_writable = true;
  bytes_read = 2;
  bytes_writ = 24;
}

run_sample : run_events sample_sum magic events new_peer ≡ ok after_events
unfolding program run_events handle
run_sample = refl

-- A connection that is lost twice, as after an unanswered ping, raises.
lost_twice : run_events sample_sum magic (connection_lost ∷ []) after_events ≡ err invalid_state
unfolding program run_events handle
lost_twice = refl

run_events-IsCounted_example : IsCounted sample_sum magic after_events
run_events-IsCounted_example = run_events-IsCounted sample_sum magic events run_sample

-- ===== src/Peer/Stream.antt =====
-- The loop of `new_get_next_message_f`: it reads messages until the stream ends or a message is
-- bad, and puts each into the queues whose filter takes it, and at the end `(None, None)`.
-- `parse_from_data` is a parameter: it reads a payload, or raises.
use pycoinnet.Prelude.{
  length-append, Error, ℕ, zero, suc, ◌+◌, ◌<◌, ◌≤◌, ◌≡◌, ◌≢◌, ◌↔◌, refl, ap, inl, inr, Bool, true,
  Option, some, none, List, [], ◌∷◌, ◌++◌, Bytes, Result, ok, err, eof_error, out_of_fuel, ◌>>=◌,
  >>=-eq-ok, length, map, filter, All, In, In-filter, append-In, filter-In, arith,
}
use pycoinnet.Peer.{max_message_size, is_utf8, packet, parse_next_message}
use pycoinnet.Peer.Accepted.{parse_next_message-IsAccepted}
use pycoinnet.Peer.Frame.{parse_next_message-packet}

module _ {Data : Type 0} (double_sha256 : Bytes → Bytes) (magic_header : Bytes)
    (parse_from_data : Bytes → Bytes → Result Data) where
  -- A message with its payload parsed, and the rest of the stream.
  unfoldable pub read_message : Bytes → Result ((Bytes × Data) × Bytes)
  read_message stream = do
    (message_name, payload, rest) ← parse_next_message double_sha256 magic_header stream
    message ← parse_from_data message_name payload
    ok ((message_name, message), rest)

  -- The messages until the loop breaks, on fuel. EOFError and any other exception end it alike.
  unfoldable pub messages_from : ℕ → Bytes → Result (List (Bytes × Data))
  messages_from zero stream = err out_of_fuel
  messages_from (suc f) stream = elim (read_message stream) [
    | err e ↦ ok []
    | ok (message, rest) ↦ (do more ← messages_from f rest; ok (message ∷ more))
  ]

  unfoldable pub run_messages : Bytes → Result (List (Bytes × Data))
  unfolding messages_from read_message
  run_messages stream = messages_from (suc (length stream)) stream

-- What a queue with the filter receives; `none` is `(None, None)`.
unfoldable pub delivered : {M : Type 0} → (Option M → Bool) → List M → List (Option M)
delivered filter_f messages = filter filter_f (map some messages ++ none ∷ [])

-- `get_next_message` on a queue that holds these items, and no others will come.
unfoldable pub get_next_message : {M : Type 0} → List (Option M) → Result (M × List (Option M))
get_next_message [] = err out_of_fuel
get_next_message (none ∷ items) = err eof_error
get_next_message (some m ∷ items) = ok (m, items)

module _ (double_sha256 : Bytes → Bytes) (magic_header : Bytes) where
  -- A message takes 20 bytes at least.
  parse_next_message-lt :
      (stream : Bytes) {name payload rest : Bytes}
      → parse_next_message double_sha256 magic_header stream ≡ ok (name, payload, rest)
      → length rest + 20 ≤ length stream
  parse_next_message-lt stream {name} {payload} {rest} e =
      let (header, split, accepted) =
        parse_next_message-IsAccepted double_sha256 magic_header stream e in
      omega (
        arith,
        ap length split,
        accepted.header_length,
        length-append magic_header (header ++ (payload ++ rest)),
        length-append header (payload ++ rest),
        length-append payload rest,
      )

module _ {Data : Type 0} (double_sha256 : Bytes → Bytes) (magic_header : Bytes)
    (parse_from_data : Bytes → Bytes → Result Data) where
  read_message-lt :
      (stream : Bytes) {m : Bytes × Data} {rest : Bytes}
      → read_message double_sha256 magic_header parse_from_data stream ≡ ok (m, rest)
      → length rest < length stream
  unfolding read_message
  read_message-lt stream e =
      let (r, e1, e2) = >>=-eq-ok (parse_next_message double_sha256 magic_header stream) _ e in
      let (d, e3, e4) = >>=-eq-ok (parse_from_data r.0 r.1) _ e2 in
      let shorter = parse_next_message-lt double_sha256 magic_header stream e1 in
      ground (arith, shorter, e4)

  messages_total :
      (f : ℕ) (stream : Bytes)
      → length stream < f
      → (ms : List (Bytes × Data)) × (messages_from double_sha256 magic_header parse_from_data f
            stream
          ≡ ok ms)
  unfolding messages_from
  messages_total zero stream h = absurd (omega arith)
  messages_total (suc f) stream h =
      total_of (read_message double_sha256 magic_header parse_from_data stream) refl
        (messages_total f)
    where
      total_of :
          (r : Result ((Bytes × Data) × Bytes))
          → read_message double_sha256 magic_header parse_from_data stream ≡ r
          → ((s : Bytes)
              → length s < f
              → (ms : List (Bytes × Data)) × (messages_from double_sha256 magic_header
                    parse_from_data f s
                  ≡ ok ms))
          → (ms : List (Bytes × Data)) × (messages_from double_sha256 magic_header parse_from_data
                (suc f)
                stream
              ≡ ok ms)
      total_of (err e) q more = ([], rw (q, messages_from))
      total_of (ok (m, rest)) q more =
          let (ms, e) = more rest (omega (arith, read_message-lt stream q)) in
          (m ∷ ms, rw (q, messages_from) (rw e))

  -- The loop always comes to an end.
  pub run_messages_total :
      (stream : Bytes)
      → (ms : List (Bytes × Data)) × (run_messages double_sha256 magic_header parse_from_data stream
          ≡ ok ms)
  unfolding run_messages
  run_messages_total stream = messages_total (suc (length stream)) stream (omega arith)

-- A message that a peer may send, with what its payload parses to.
pub record Sent (Data : Type 0) : Type 0 where
  pub name : Bytes
  pub payload : Bytes
  pub message : Data

pub record IsSendable {Data : Type 0} (parse_from_data : Bytes → Bytes → Result Data)
    (m : Sent Data) : Type 0 where
  pub name_length : length m.name ≤ 12
  pub name_bytes : All (λ b. b ≢ 0) m.name
  pub name_text : is_utf8 m.name ≡ true
  pub payload_length : length m.payload ≤ max_message_size
  pub parses : parse_from_data m.name m.payload ≡ ok m.message

module _ {Data : Type 0} (double_sha256 : Bytes → Bytes) (magic_header : Bytes)
    (parse_from_data : Bytes → Bytes → Result Data)
    (digest : (b : Bytes) → 4 ≤ length (double_sha256 b)) where
  -- What `send_msg` writes for the messages, one after the other, and then other bytes.
  abbrev pub wire : List (Sent Data) → Bytes → Bytes
  wire [] tail = tail
  wire (m ∷ ms) tail = packet double_sha256 magic_header m.name m.payload ++ wire ms tail

  read_sent :
      (m : Sent Data) (rest : Bytes)
      → IsSendable parse_from_data m
      → read_message double_sha256 magic_header parse_from_data
          (packet double_sha256 magic_header m.name m.payload ++ rest)
        ≡ ok ((m.name, m.message), rest)
  unfolding read_message
  read_sent m rest s = rw (
    parse_next_message-packet double_sha256 magic_header digest m.name m.payload rest s.name_length
        s.name_bytes s.name_text s.payload_length,
    s.parses,
  )

  messages_sent :
      (f : ℕ) (ms : List (Sent Data)) (tail : Bytes) {e : Error}
      → length (wire ms tail) < f
      → All (IsSendable parse_from_data) ms
      → read_message double_sha256 magic_header parse_from_data tail ≡ err e
      → messages_from double_sha256 magic_header parse_from_data f (wire ms tail)
        ≡ ok (map (λ m. (m.name, m.message)) ms)
  unfolding messages_from
  messages_sent zero ms tail h s e = absurd (omega arith)
  messages_sent (suc f) [] tail h s e = rw (e, messages_from)
  messages_sent (suc f) (m ∷ ms) tail h s e =
      let sent = read_sent m (wire ms tail) s.0 in
      let shorter =
        read_message-lt double_sha256 magic_header parse_from_data (wire (m ∷ ms) tail) sent in
      rw (sent, messages_from) (rw (messages_sent f ms tail (omega (arith, shorter)) s.1 e))

  -- The loop delivers exactly the messages that were sent, in order, up to the first bytes that
  -- are not a message, which may be the end of the stream.
  pub run_messages-wire :
      (ms : List (Sent Data)) (tail : Bytes) {e : Error}
      → All (IsSendable parse_from_data) ms
      → read_message double_sha256 magic_header parse_from_data tail ≡ err e
      → run_messages double_sha256 magic_header parse_from_data (wire ms tail)
        ≡ ok (map (λ m. (m.name, m.message)) ms)
  unfolding run_messages
  run_messages-wire ms tail s e =
      messages_sent (suc (length (wire ms tail))) ms tail (omega arith) s e

-- The end of the connection reaches a queue exactly when its filter takes `(None, None)`: a
-- reader with a filter on names, which refuses it, never gets EOFError.
pub delivered_end :
    {M : Type 0} (filter_f : Option M → Bool) (ms : List M)
    → In none (delivered filter_f ms) ↔ (filter_f none ≡ true)
unfolding delivered
delivered_end filter_f ms = (
  λ h. (In-filter filter_f none (map some ms ++ none ∷ []) h).1,
  λ h.
      filter-In filter_f none (map some ms ++ none ∷ [])
        (append-In none (map some ms) (none ∷ []) (inr (inl refl))) h,
)

-- ===== src/Peer/Accepted.antt =====
-- What a message that `_parse_next_message` accepts looks like on the wire.
use mathlib.Core.Path.{ap₂}
use pycoinnet.Prelude.{
  protocol_error, ℕ, ◌≤◌, ◌≡◌, sym, ◌∙◌, ap, true, not, ◌++◌, Bytes, bytes_eq_iff, ok, err, ◌>>=◌,
  >>=-eq-ok, length, length-take, take-append-drop, drop, take, filter, from_le, ltb, ◌==◌, arith,
  if◌then◌else◌,
}
use pycoinnet.Peer.{
  max_message_size, is_utf8, decode, read_exactly, check_payload, parse_header, parse_after_magic,
  parse_next_message,
}

read_exactly_of_ok :
    (n : ℕ) (s : Bytes) (r : Bytes × Bytes)
    → read_exactly n s ≡ ok r
    → (s ≡ r.0 ++ r.1) × (length r.0 ≡ n)
unfolding read_exactly
read_exactly_of_ok n s (a, b) e = ground (arith, take-append-drop n s, length-take n s)

module _ (double_sha256 : Bytes → Bytes) (magic_header : Bytes) where
  -- The parts of the header that were checked.
  pub record IsAccepted (header name payload : Bytes) : Type 0 where
    pub header_length : length header ≡ 20
    pub name_bytes : name ≡ filter (λ b. not (b == 0)) (take 12 header)
    pub name_text : is_utf8 name ≡ true
    pub size : from_le (take 4 (drop 12 header)) ≡ length payload
    pub size_bound : length payload ≤ max_message_size
    pub checksum : take 4 (double_sha256 payload) ≡ take 4 (drop 16 header)

  check_payload_of_ok :
      (n h : Bytes) (p : Bytes × Bytes) {name payload rest : Bytes}
      → check_payload double_sha256 magic_header n h p ≡ ok (name, payload, rest)
      → (n ≡ name) × (p.0 ≡ payload) × (p.1 ≡ rest) × (take 4 (double_sha256 payload) ≡ h)
  unfolding check_payload
  check_payload_of_ok n h (a, b) e = ground (arith, bytes_eq_iff (take 4 (double_sha256 a)) h)

  decode_of_ok : {bs name : Bytes} → decode bs ≡ ok name → (bs ≡ name) × (is_utf8 name ≡ true)
  unfolding decode
  decode_of_ok e = ground arith

  -- The payload is read only if its size is within the limit.
  sized :
      (size : ℕ) (stream name hash : Bytes) {r : Bytes × Bytes × Bytes}
      → (if ltb max_message_size size
          then err protocol_error
          else (read_exactly size stream >>= check_payload double_sha256 magic_header name hash))
        ≡ ok r
      → (size ≤ max_message_size)
        × ((read_exactly size stream >>= check_payload double_sha256 magic_header name hash) ≡ ok r)
  sized size stream name hash e = ground arith

  header_of_ok :
      (header stream : Bytes) {name payload rest : Bytes}
      → length header ≡ 20
      → parse_header double_sha256 magic_header header stream ≡ ok (name, payload, rest)
      → (stream ≡ payload ++ rest) × IsAccepted header name payload
  unfolding parse_header
  header_of_ok header stream {name} {payload} {rest} l e =
      let size = from_le (take 4 (drop 12 header)) in
      let (n, decoded, e1) = >>=-eq-ok (decode (filter (λ b. not (b == 0)) (take 12 header))) _ e in
      let (stripped, text) = decode_of_ok decoded in
      let (bound, e2) = sized size stream n (take 4 (drop 16 header)) e1 in
      let (r, read, e3) = >>=-eq-ok (read_exactly size stream) _ e2 in
      let (split, count) = read_exactly_of_ok size stream r read in
      let (same, body, tail, sum) = check_payload_of_ok n (take 4 (drop 16 header)) r e3 in
      let z : size ≡ length payload = sym count ∙ ap length body in
      (
        split ∙ ap₂ ◌++◌ body tail,
        record {
          header_length = l;
          name_bytes = sym (stripped ∙ same);
          name_text = rw same at text;
          size = z;
          size_bound = omega (arith, bound, z);
          checksum = sum;
        },
      )

  after_magic_of_ok :
      (blob stream : Bytes) {r : Bytes × Bytes × Bytes}
      → parse_after_magic double_sha256 magic_header blob stream ≡ ok r
      → (blob ≡ magic_header)
        × ((read_exactly 20 stream >>= λ p. parse_header double_sha256 magic_header p.0 p.1) ≡ ok r)
  unfolding parse_after_magic
  after_magic_of_ok blob stream e = ground (arith, bytes_eq_iff blob magic_header)

  -- An accepted message begins with the magic bytes; its header of 20 bytes names it, in UTF-8
  -- and up to zero bytes, and gives the size of its payload, which is within the limit, and the
  -- checksum of it; what is left is what follows the payload.
  pub parse_next_message-IsAccepted :
      (stream : Bytes) {name payload rest : Bytes}
      → parse_next_message double_sha256 magic_header stream ≡ ok (name, payload, rest)
      → (header : Bytes) × (stream ≡ magic_header ++ (header ++ (payload ++ rest)))
        × IsAccepted header name payload
  unfolding parse_next_message
  parse_next_message-IsAccepted stream {name} {payload} {rest} e =
      let (r, read, e1) = >>=-eq-ok (read_exactly (length magic_header) stream) _ e in
      let (split, count) = read_exactly_of_ok (length magic_header) stream r read in
      let (magic, e2) = after_magic_of_ok r.0 r.1 e1 in
      let (q, read_header, e3) = >>=-eq-ok (read_exactly 20 r.1) _ e2 in
      let (split_header, header_count) = read_exactly_of_ok 20 r.1 q read_header in
      let (split_payload, accepted) = header_of_ok q.0 q.1 header_count e3 in
      (q.0, split ∙ ap₂ ◌++◌ magic (split_header ∙ ap (λ t. q.0 ++ t) split_payload), accepted)

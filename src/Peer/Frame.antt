-- ===== src/Peer/Frame.antt =====
-- The framing: `send_msg` and `_parse_next_message` of BitcoinPeerProtocol, one after the other.
use pycoinnet.Prelude.{
  ℕ, zero, suc, ◌≤◌, ◌≡◌, ◌≢◌, refl, ap, true, false, not, List, [], ◌∷◌, ◌++◌, append_assoc, Bytes,
  bytes_eq_self, ok, length, length-append, length-take, take, drop, replicate, filter, All, to_le,
  from_le, length-to_le, from_le-to_le, ltb, ◌==◌, arith,
}
use pycoinnet.Peer.{
  max_message_size, is_utf8, decode, read_exactly, packet, check_payload, parse_header,
  parse_next_message,
}

module _ {A : Type 0} where
  take-append : (xs ys : List A) → take (length xs) (xs ++ ys) ≡ xs
  take-append [] ys = refl
  take-append (x ∷ xs) ys = ap (◌∷◌ x) (take-append xs ys)

  drop-append : (xs ys : List A) → drop (length xs) (xs ++ ys) ≡ ys
  drop-append [] ys = refl
  drop-append (x ∷ xs) ys = drop-append xs ys

-- A read of what stands in front.
read_exactly_front :
    (n : ℕ) (xs ys : Bytes) → length xs ≡ n → read_exactly n (xs ++ ys) ≡ ok (xs, ys)
unfolding read_exactly
read_exactly_front n xs ys e =
    rw (← e, take-append, drop-append) (ground (arith, length-append xs ys))

strip : Bytes → Bytes
strip = filter (λ b. not (b == 0))

-- Padding with zeros is undone by dropping all zeros.
strip_zeros : (n m : ℕ) → strip (take n (replicate m 0)) ≡ []
unfolding strip
strip_zeros zero m = refl
strip_zeros (suc n) zero = refl
strip_zeros (suc n) (suc m) = strip_zeros n m

strip_padded :
    (n m : ℕ) (name : Bytes)
    → length name ≤ n
    → All (λ b. b ≢ 0) name
    → strip (take n (name ++ replicate m 0)) ≡ name
unfolding strip
strip_padded n m [] h a = strip_zeros n m
strip_padded zero m (b ∷ name) h a = absurd (omega arith)
strip_padded (suc n) m (b ∷ name) h a = ground (arith, strip_padded n m name (omega arith) a.1)

length_padded : (name : Bytes) → length (take 12 (name ++ replicate 12 0)) ≡ 12
length_padded name =
    omega (arith, length-take 12 (name ++ replicate 12 0), length-append name (replicate 12 0))

take_all : {A : Type 0} (xs : List A) → take (length xs) xs ≡ xs
take_all [] = refl
take_all (x ∷ xs) = ap (◌∷◌ x) (take_all xs)

-- The three parts of a header.
abbrev joined : Bytes → Bytes → Bytes → Bytes
joined kind size sum = kind ++ (size ++ sum)

module _ (kind size sum : Bytes) (k : length kind ≡ 12) (z : length size ≡ 4)
    (m : length sum ≡ 4) where
  length_header : length (joined kind size sum) ≡ 20
  length_header = omega (arith, length-append kind (size ++ sum), length-append size sum)

  kind_of_header : take 12 (joined kind size sum) ≡ kind
  kind_of_header = rw (← k) (take-append kind (size ++ sum))

  rest_of_header : drop 12 (joined kind size sum) ≡ size ++ sum
  rest_of_header = rw (← k) (drop-append kind (size ++ sum))

  size_of_header : take 4 (drop 12 (joined kind size sum)) ≡ size
  size_of_header = rw (rest_of_header, ← z) (take-append size sum)

  sum_of_header : take 4 (drop 16 (joined kind size sum)) ≡ sum
  sum_of_header =
      let sixteen : length (kind ++ size) ≡ 16 = omega (arith, length-append kind size) in
      rw (← append_assoc kind size sum, ← sixteen, drop-append (kind ++ size) sum, ← m)
        (take_all sum)

module _ (double_sha256 : Bytes → Bytes) (magic_header : Bytes)
    (digest : (b : Bytes) → 4 ≤ length (double_sha256 b)) where
  header_parsed :
      (name kind size sum payload rest : Bytes)
      → length kind ≡ 12
      → length size ≡ 4
      → length sum ≡ 4
      → strip kind ≡ name
      → is_utf8 name ≡ true
      → from_le size ≡ length payload
      → length payload ≤ max_message_size
      → take 4 (double_sha256 payload) ≡ sum
      → parse_header double_sha256 magic_header (joined kind size sum) (payload ++ rest)
        ≡ ok (name, payload, rest)
  unfolding parse_header strip check_payload
  header_parsed name kind size sum payload rest k l m stripped u s p digest_sum =
      let small : ltb max_message_size (length payload) ≡ false = ground arith in
      rw (
        kind_of_header kind size sum k l m,
        stripped,
        u,
        size_of_header kind size sum k l m,
        s,
        small,
        read_exactly_front (length payload) payload rest refl,
        sum_of_header kind size sum k l m,
        digest_sum,
        bytes_eq_self sum,
      )

  -- A message with a name of at most 12 bytes, which are valid UTF-8 with no zero, and with a
  -- payload within the limit, is parsed back, and the stream goes on behind it, if the digest
  -- always has at least 4 bytes.
  pub parse_next_message-packet :
      (name payload rest : Bytes)
      → length name ≤ 12
      → All (λ b. b ≢ 0) name
      → is_utf8 name ≡ true
      → length payload ≤ max_message_size
      → parse_next_message double_sha256 magic_header
          (packet double_sha256 magic_header name payload ++ rest)
        ≡ ok (name, payload, rest)
  unfolding packet parse_next_message parse_header decode check_payload
  parse_next_message-packet name payload rest n z u p =
      let kind = take 12 (name ++ replicate 12 0) in
      let size = to_le 4 (length payload) in
      let sum = take 4 (double_sha256 payload) in
      let sum_length : length sum ≡ 4 =
        omega (arith, length-take 4 (double_sha256 payload), digest payload) in
      let kind_length = length_padded name in
      let size_length = length-to_le 4 (length payload) in
      let head = joined kind size sum in
      let split : (magic_header ++ (kind ++ (size ++ (sum ++ payload)))) ++ rest
          ≡ magic_header ++ (head ++ (payload ++ rest)) =
        simp append_assoc in
      rw
        (
          split,
          read_exactly_front (length magic_header) magic_header (head ++ (payload ++ rest)) refl,
          bytes_eq_self magic_header,
          read_exactly_front 20 head (payload ++ rest)
              (length_header kind size sum kind_length size_length sum_length),
        )
        (header_parsed name kind size sum payload rest kind_length size_length sum_length
          (strip_padded 12 12 name n z) u (from_le-to_le 4 (length payload) (omega arith)) p refl)

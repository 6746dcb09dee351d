-- ===== src/Address/Roundtrip.antt =====
-- `stream` and `parse` of pycoinnet/PeerAddress.py, one after the other.
use pycoinnet.Prelude.{
  ℕ, ◌^◌, ◌≤◌, ◌<◌, ◌≡◌, refl, ap, arith, ltb, lt→ltb, false, if◌then◌else◌, [], ◌++◌, take, length,
  Bytes, bytes_eq, bytes_eq_self, to_le, to_be, from_be-to_be, Result, ok, ◌>>=◌,
}
use pycoinnet.Address.{
  IpAddress, ipv4, ipv6, PeerAddress, ip4_header, address_of_int, packed, stream, int_of_packed,
  parse,
}

-- What the parser of the structure is documented to do: an integer of 8 bytes from the least byte on,
-- 16 bytes, and an integer of 2 bytes from the most significant byte on.
abbrev pub ReadsStruct : (Bytes → Result (ℕ × Bytes × ℕ)) → Type 0
ReadsStruct parse_struct =
    (services : ℕ) (ip_bin : Bytes) (port : ℕ)
    → services < 2 ^ 64
    → length ip_bin ≡ 16
    → port < 2 ^ 16
    → parse_struct (to_le 8 services ++ (ip_bin ++ to_be 2 port)) ≡ ok (services, ip_bin, port)

-- An address that `parse` cannot take for another one.
abbrev pub IsReadable : IpAddress → Type 0
IsReadable (ipv4 n) = n < 2 ^ 32
IsReadable (ipv6 n) =
    (2 ^ 32 ≤ n) × (n < 2 ^ 128) × (bytes_eq (take 12 (to_be 16 n)) ip4_header ≡ false)

on_wire : IpAddress → Bytes
on_wire (ipv4 n) = ip4_header ++ to_be 4 n
on_wire (ipv6 n) = to_be 16 n

length-on_wire : (ip : IpAddress) → length (on_wire ip) ≡ 16
unfolding on_wire to_be
length-on_wire (ipv4 n) = refl
length-on_wire (ipv6 n) = refl

wire_lem :
    (ip : IpAddress)
    → (if ltb (length (packed ip)) 16 then ip4_header else []) ++ packed ip ≡ on_wire ip
unfolding on_wire packed to_be
wire_lem (ipv4 n) = refl
wire_lem (ipv6 n) = refl

stream_lem :
    (a : PeerAddress)
    → a.services < 2 ^ 64
    → a.port < 2 ^ 16
    → stream a ≡ ok (to_le 8 a.services ++ (on_wire a.ip_address ++ to_be 2 a.port))
unfolding stream
stream_lem a s p =
    rw (lt→ltb a.services (2 ^ 64) s, lt→ltb a.port (2 ^ 16) p)
      (ap (λ t. ok (to_le 8 a.services ++ (t ++ to_be 2 a.port))) (wire_lem a.ip_address))

read_back : (ip : IpAddress) → IsReadable ip → address_of_int (int_of_packed (on_wire ip)) ≡ ok ip
unfolding address_of_int int_of_packed on_wire
read_back (ipv4 n) h =
    rw
      (
        int_of_packed,
        bytes_eq_self ip4_header,
        from_be-to_be 4 n (omega arith),
        lt→ltb n (2 ^ 32) h,
      )
      refl
read_back (ipv6 n) (big, small, other) =
    let not_four : ltb n (2 ^ 32) ≡ false = ground arith in
    rw
      (
        int_of_packed,
        other,
        from_be-to_be 16 n (omega arith),
        address_of_int,
        not_four,
        lt→ltb n (2 ^ 128) small,
      )
      refl

module _ (parse_struct : Bytes → Result (ℕ × Bytes × ℕ)) (reads : ReadsStruct parse_struct) where
  -- An address whose services fit in 8 bytes and its port in 2, an IPv4 address or an IPv6 address
  -- from 2 ** 32 on that does not begin like a mapped IPv4 address, is written without an error, and
  -- what is written is parsed back, if the parser of the structure does what it is documented to do.
  pub parse-stream :
      (a : PeerAddress)
      → a.services < 2 ^ 64
      → a.port < 2 ^ 16
      → IsReadable a.ip_address
      → (stream a >>= parse parse_struct) ≡ ok a
  unfolding parse
  parse-stream a s p h =
      rw
        (
          stream_lem a s p,
          reads a.services (on_wire a.ip_address) a.port s (length-on_wire a.ip_address) p,
          read_back a.ip_address h,
        )
        refl

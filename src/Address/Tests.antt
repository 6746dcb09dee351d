-- ===== src/Address/Tests.antt =====
-- The round trip at sample addresses, and the IPv6 loopback, which comes back as an IPv4 address.
use pycoinnet.Prelude.{
  ℕ, ◌≡◌, refl, ◌∙◌, ap, arith, ◌++◌, take, drop, length-to_le, Bytes, bytes_eq, compare_bytes,
  to_le, to_be, from_le, from_be, from_le-to_le, from_be-to_be, Result, ok, ◌>>=◌,
}
use pycoinnet.Store.Reads.{take-length-append, drop-length-append}
use pycoinnet.Address.{
  ipv4, ipv6, PeerAddress, address_of_int, packed, stream, int_of_packed, parse,
}
use pycoinnet.Address.Roundtrip.{ReadsStruct, parse-stream}

abbrev read_struct : Bytes → Result (ℕ × Bytes × ℕ)
read_struct f = let rest = drop 8 f in ok (from_le (take 8 f), take 16 rest, from_be (drop 16 rest))

read_struct_reads : ReadsStruct read_struct
read_struct_reads services ip_bin port s l p =
    let tail = ip_bin ++ to_be 2 port in
    let first = take-length-append (to_le 8 services) tail 8 (length-to_le 8 services) in
    let rest = drop-length-append (to_le 8 services) tail 8 (length-to_le 8 services) in
    let ip = ap (take 16) rest ∙ take-length-append ip_bin (to_be 2 port) 16 l in
    let last = ap (drop 16) rest ∙ drop-length-append ip_bin (to_be 2 port) 16 l in
    parts (ap from_le first ∙ from_le-to_le 8 services (omega arith)) ip
      (ap from_be last ∙ from_be-to_be 2 port (omega arith))
  where
    parts :
        {a b : ℕ} {x y : Bytes} {c d : ℕ}
        → a ≡ b
        → x ≡ y
        → c ≡ d
        → ◌≡◌ {A = Result (ℕ × Bytes × ℕ)} (ok (a, x, c)) (ok (b, y, d))
    parts e f g = λ i. ok (e i, f i, g i)

abbrev sample : PeerAddress
sample = record { services = 1; ip_address = ipv4 0x7f000001; port = 8333 }

parse-stream_example : (stream sample >>= parse read_struct) ≡ ok sample
parse-stream_example =
    parse-stream read_struct read_struct_reads sample (omega arith) (omega arith) (omega arith)

abbrev loopback : PeerAddress
loopback = record { services = 1; ip_address = ipv6 1; port = 8333 }

loopback_misread :
    (stream loopback >>= parse read_struct) ≡ ok (record loopback { ip_address = ipv4 1 })
unfolding to_le to_be from_le from_be bytes_eq compare_bytes address_of_int packed stream
    int_of_packed parse
loopback_misread = refl

-- ===== src/Address.antt =====
-- pycoinnet/PeerAddress.py. The standard library's `ip_address` of an integer is IPv4 below 2 ** 32
-- and IPv6 from there on. `parse_struct("Q@h", f)` is pycoin's, and a parameter.
mod Tests
pub mod Compare
pub mod Roundtrip
use Prim.Native.Nat.{Ordering}
use pycoinnet.Prelude.{
  ℕ, ◌^◌, ◌*◌, ◌+◌, ltb, if◌then◌else◌, List, [], ◌∷◌, ◌++◌, replicate, take, drop, length, Bytes,
  compare_bytes, Bool, true, false, ◌==◌, ◌&&◌, bytes_eq, to_le, to_be, from_be, Result, ok, err,
  ◌>>=◌, struct_error, value_error,
}

pub data IpAddress : Type 0 where
  ipv4 : ℕ → IpAddress
  ipv6 : ℕ → IpAddress

pub record PeerAddress : Type 0 where
  pub services : ℕ
  pub ip_address : IpAddress
  pub port : ℕ

abbrev pub ip4_header : Bytes
ip4_header = 0 ∷ 0 ∷ 0 ∷ 0 ∷ 0 ∷ 0 ∷ 0 ∷ 0 ∷ 0 ∷ 0 ∷ 255 ∷ 255 ∷ []

-- `ipaddress.ip_address(n)`
unfoldable pub address_of_int : ℕ → Result IpAddress
address_of_int n =
    if ltb n (2 ^ 32)
    then ok (ipv4 n)
    else (if ltb n (2 ^ 128) then ok (ipv6 n) else err value_error)

-- `ip_address.packed`
unfoldable pub packed : IpAddress → Bytes
packed (ipv4 n) = to_be 4 n
packed (ipv6 n) = to_be 16 n

-- What the three writes of `stream` put into the file.
unfoldable pub stream : PeerAddress → Result Bytes
unfolding packed
stream a =
    let ip_bin = packed a.ip_address in
    let prefix = if ltb (length ip_bin) 16 then ip4_header else [] in
    if ltb a.services (2 ^ 64)
    then (if ltb a.port (2 ^ 16)
        then ok (to_le 8 a.services ++ ((prefix ++ ip_bin) ++ to_be 2 a.port))
        else err struct_error)
    else err struct_error

-- The address as the integer that `parse` reads.
unfoldable pub int_of_packed : Bytes → ℕ
int_of_packed ip_bin =
    from_be (if bytes_eq (take 12 ip_bin) ip4_header then drop 12 ip_bin else ip_bin)

module _ (parse_struct : Bytes → Result (ℕ × Bytes × ℕ)) where
  unfoldable pub parse : Bytes → Result PeerAddress
  unfolding int_of_packed address_of_int
  parse f = do
    (services, ip_bin, port) ← parse_struct f
    ip_address ← address_of_int (int_of_packed ip_bin)
    ok (record { services = services; ip_address = ip_address; port = port })

-- An IPv4 address is never an IPv6 address.
abbrev pub ip_address_eq : IpAddress → IpAddress → Bool
ip_address_eq (ipv4 m) (ipv4 n) = m == n
ip_address_eq (ipv6 m) (ipv6 n) = m == n
ip_address_eq (ipv4 m) (ipv6 n) = false
ip_address_eq (ipv6 m) (ipv4 n) = false

-- `__eq__`
unfoldable pub peer_address_eq : PeerAddress → PeerAddress → Bool
peer_address_eq a b =
    (a.services == b.services) && (ip_address_eq a.ip_address b.ip_address && (a.port == b.port))

-- `__lt__`
unfoldable pub peer_address_lt : PeerAddress → PeerAddress → Bool
unfolding packed
peer_address_lt a b = elim (compare_bytes (packed a.ip_address) (packed b.ip_address)) [
  | Ordering.lt ↦ true
  | _ ↦ false
]

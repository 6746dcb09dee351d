-- ===== src/Address/Compare.antt =====
-- `__eq__` and `__lt__` of PeerAddress.
use pycoinnet.Prelude.{◌≡◌, refl, ap, ◌↔◌, arith, true, false, ==_iff, compare_bytes_self}
use pycoinnet.Address.{
  IpAddress, ipv4, ipv6, PeerAddress, ip_address_eq, packed, peer_address_eq, peer_address_lt,
}

ip_address_eq_iff : (a b : IpAddress) → (ip_address_eq a b ≡ true) ↔ (a ≡ b)
ip_address_eq_iff (ipv4 m) (ipv4 n) =
    (λ e. ap ipv4 ((==_iff m n).0 e), λ e. (==_iff m n).1 (ground (arith, e)))
ip_address_eq_iff (ipv6 m) (ipv6 n) =
    (λ e. ap ipv6 ((==_iff m n).0 e), λ e. (==_iff m n).1 (ground (arith, e)))
ip_address_eq_iff (ipv4 m) (ipv6 n) = (λ e. absurd (cc e), λ e. absurd (cc e))
ip_address_eq_iff (ipv6 m) (ipv4 n) = (λ e. absurd (cc e), λ e. absurd (cc e))

-- `__eq__` decides equality.
peer_address_eq_iff : (a b : PeerAddress) → (peer_address_eq a b ≡ true) ↔ (a ≡ b)
unfolding peer_address_eq
peer_address_eq_iff a b = (to_eq, of_eq)
  where
    to_eq : peer_address_eq a b ≡ true → a ≡ b
    to_eq e =
        let s = (==_iff a.services b.services).0 (ground arith) in
        let i = (ip_address_eq_iff a.ip_address b.ip_address).0 (ground arith) in
        let p = (==_iff a.port b.port).0 (ground arith) in
        λ k. record { services = s k; ip_address = i k; port = p k }

    of_eq : a ≡ b → peer_address_eq a b ≡ true
    of_eq e = rw e (
        ground (
          arith,
          (==_iff b.services b.services).1 refl,
          (ip_address_eq_iff b.ip_address b.ip_address).1 refl,
          (==_iff b.port b.port).1 refl,
        ))

-- `__lt__` puts no address before one with the same IP address, whatever the ports are.
peer_address_lt_same :
    (a b : PeerAddress) → a.ip_address ≡ b.ip_address → peer_address_lt a b ≡ false
unfolding peer_address_lt
peer_address_lt_same a b e = rw (peer_address_lt, e, compare_bytes_self (packed b.ip_address)) refl

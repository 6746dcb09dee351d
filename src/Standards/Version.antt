-- ===== src/Standards/Version.antt =====
-- `version_data_for_peer` of pycoinnet/helpers/standards.py, and the bytes that it becomes. The standard
-- library's `ip_address` of a text is a parameter.
use pycoinnet.Prelude.{
  ℕ, zero, suc, ◌≡◌, refl, Bool, Option, none, some, List, [], ◌∷◌, ◌++◌, Bytes, bytes_eq,
  bytes_key, codes, split_on, item_at, Result, ok, ◌>>=◌,
}
use pycoinnet.Dict.{Dict, lookup}
use pycoinnet.Address.{IpAddress, PeerAddress}
use pycoinnet.Message.{Atom, number, object, Value, atom, pack_from_data}

pub data Field : Type 0 where
  address : PeerAddress → Field
  text : Bytes → Field
  flag : Bool → Field

-- The arguments, with the name of the peer, and what `os.urandom` and `time.time` give.
pub record VersionArguments : Type 0 where
  pub remote_ip : Bytes
  pub remote_port : ℕ
  pub version : ℕ
  pub local_ip : Bytes
  pub local_port : ℕ
  pub last_block_index : ℕ
  pub nonce : Option ℕ
  pub subversion : Bytes
  pub timestamp : Option ℕ
  pub want_relay : Bool
  pub random : ℕ
  pub now : ℕ

-- `a or b`, where 0 is false.
unfoldable pub or_else : Option ℕ → ℕ → ℕ
or_else none b = b
or_else (some zero) b = b
or_else (some (suc n)) b = suc n

abbrev pub peer_address : IpAddress → ℕ → PeerAddress
peer_address ip port = record { services = 1; ip_address = ip; port = port }

module _ (ip_address : Bytes → Result IpAddress) where
  unfoldable pub version_data_for_peer : VersionArguments → Result (Dict Bytes (Value Field))
  unfolding or_else
  version_data_for_peer v = do
    remote ← ip_address v.remote_ip
    local ← ip_address v.local_ip
    ok (
        (codes "version", atom (number 70001))
        ∷ (codes "subversion", atom (object (text v.subversion)))
        ∷ (codes "services", atom (number 1))
        ∷ (codes "timestamp", atom (number (or_else v.timestamp v.now)))
        ∷ (codes "remote_address", atom (object (address (peer_address remote v.remote_port))))
        ∷ (codes "local_address", atom (object (address (peer_address local v.local_port))))
        ∷ (codes "nonce", atom (number (or_else v.nonce v.random)))
        ∷ (codes "last_block_index", atom (number v.last_block_index))
        ∷ (codes "want_relay", atom (object (flag v.want_relay)))
        ∷ [])

-- Some atoms, each by its letter.
unfoldable pub written :
    (Bytes → List (Atom Field) → Result Bytes) → List (Bytes × Atom Field) → Result Bytes
written stream_struct [] = ok []
written stream_struct ((letter, a) ∷ more) = do
  out ← stream_struct letter (a ∷ [])
  rest ← written stream_struct more
  ok (out ++ rest)

-- A version message in the order of the protocol.
unfoldable pub version_atoms : VersionArguments → IpAddress → IpAddress → List (Bytes × Atom Field)
version_atoms v remote local =
    (codes "L", number 70001)
    ∷ (codes "Q", number 1)
    ∷ (codes "Q", number (or_else v.timestamp v.now))
    ∷ (codes "A", object (address (peer_address remote v.remote_port)))
    ∷ (codes "A", object (address (peer_address local v.local_port)))
    ∷ (codes "Q", number (or_else v.nonce v.random))
    ∷ (codes "S", object (text v.subversion))
    ∷ (codes "L", number v.last_block_index)
    ∷ []

module _ (ip_address : Bytes → Result IpAddress)
    (stream_struct : Bytes → List (Atom Field) → Result Bytes) where
  -- The version message carries the eight fields of the protocol, in its order, whenever the two
  -- addresses are valid: the version is 70001 whatever is asked for, a nonce or a timestamp that is
  -- missing or 0 is made up, and whether relay is wanted is not sent.
  pub pack_from_data-version_data_for_peer :
      (v : VersionArguments) (remote local : IpAddress)
      → ip_address v.remote_ip ≡ ok remote
      → ip_address v.local_ip ≡ ok local
      → (version_data_for_peer ip_address v >>= λ d.
          pack_from_data stream_struct (codes "version") d)
        ≡ written stream_struct (version_atoms v remote local)
  unfolding version_data_for_peer written version_atoms pack_from_data lookup bytes_eq split_on
      item_at
  pack_from_data-version_data_for_peer v remote local r l = rw (version_data_for_peer, r, l) refl

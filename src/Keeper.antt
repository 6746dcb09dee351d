-- ===== src/Keeper.antt =====
-- pycoinnet/examples/address_keeper.py: the data base of addresses with its text file, and what the
-- tasks on a connection do with it. Texts are lists of character codes in ASCII. The order that
-- `random.shuffle` gives is a parameter.
mod Tests
pub mod Saved
pub mod Updates
use pycoinnet.Prelude.{
  ℕ, ltb, ◌+◌, ◌-◌, ◌/◌, ◌%◌, ◌^◌, print_ℕ, if◌then◌else◌, ◌&&◌, ◌≡◌, ◌↔◌, ap, ◌∙◌, arith, Option,
  none, some, List, [], ◌∷◌, ◌++◌, map, length, Bool, true, false, Bytes, bytes_eq, bytes_eq_iff,
  bytes_eq_self, ℤ, pos, eq_ℤ, ltb_ℤ, print_ℤ, int_of, codes, split_on, lines_of,
  universal_newlines, drop_last, Eq, Error, Result, ok, err, ◌>>=◌, key_error, index_error,
  value_error,
}
use pycoinnet.Address.{IpAddress, ipv4, ipv6, PeerAddress}
use pycoinnet.Dict.{Dict, lookup, put, remove}

-- `(host, port)`
pub record HostPort : Type 0 where
  pub host : Bytes
  pub port : ℤ

abbrev pub at_port : Bytes → ℤ → HostPort
at_port host port = record { host = host; port = port }

abbrev pub host_port_eq : HostPort → HostPort → Bool
host_port_eq a b = bytes_eq a.host b.host && eq_ℤ a.port b.port

eq_of_eq_ℤ : (a b : ℤ) → eq_ℤ a b ≡ true → a ≡ b
eq_of_eq_ℤ a b h = ground arith

eq_ℤ_self : (a : ℤ) → eq_ℤ a a ≡ true
eq_ℤ_self a = ground arith

pub host_port_eq_iff : (a b : HostPort) → (host_port_eq a b ≡ true) ↔ (a ≡ b)
host_port_eq_iff a b = (to_eq, of_eq)
  where
    to_eq : host_port_eq a b ≡ true → a ≡ b
    to_eq e =
        ap (λ h. at_port h a.port) ((bytes_eq_iff a.host b.host).0 (ground arith))
        ∙ ap (at_port b.host) (eq_of_eq_ℤ a.port b.port (ground arith))

    of_eq : a ≡ b → host_port_eq a b ≡ true
    of_eq e = rw e (ground (arith, bytes_eq_self b.host, eq_ℤ_self b.port))

instance abbrev pub host_port_key : Eq HostPort
host_port_key = record { beq = host_port_eq; beq_iff = host_port_eq_iff }

-- `addresses` is the dict of the timestamps.
pub record AddressDb : Type 0 where
  pub addresses : Dict HostPort ℤ
  pub shuffled : List HostPort

-- `timestamp, host, port = parts` and the two calls of `int`
unfoldable pub entry_of : List Bytes → Result (HostPort × ℤ)
entry_of (timestamp ∷ host ∷ port ∷ []) = do
  seconds ← int_of timestamp
  number ← int_of port
  ok (at_port host number, seconds)
entry_of (timestamp ∷ host ∷ port ∷ more ∷ parts) = err value_error
entry_of (timestamp ∷ host ∷ []) = err value_error
entry_of (timestamp ∷ []) = err value_error
entry_of [] = err value_error

-- The loop over the lines: the addresses when it ends, and the error that ends it early.
unfoldable pub load_lines : List Bytes → Dict HostPort ℤ → Dict HostPort ℤ × Option Error
unfolding entry_of
load_lines [] d = (d, none)
load_lines (l ∷ lines) d = elim (entry_of (split_on b'/' (drop_last l))) [
  | err e ↦ (d, some e)
  | ok (key, timestamp) ↦ load_lines lines (put key timestamp d)
]

abbrev pub default_hosts : List Bytes
default_hosts =
    codes "bitseed.xf2.org"
    ∷ codes "dnsseed.bluematt.me"
    ∷ codes "seed.bitcoin.sipa.be"
    ∷ codes "dnsseed.bitcoin.dashjr.org"
    ∷ []

unfoldable pub add_defaults : List Bytes → Dict HostPort ℤ → Dict HostPort ℤ
add_defaults [] d = d
add_defaults (h ∷ hosts) d = add_defaults hosts (put (at_port h (pos 8333)) (pos 1) d)

-- The end of the loop, or the `except` clause.
unfoldable pub after_lines : Dict HostPort ℤ × Option Error → Dict HostPort ℤ
unfolding add_defaults
after_lines (d, none) = d
after_lines (d, some e) = add_defaults default_hosts d

-- The file is missing, or a text.
unfoldable pub load_addresses : Option Bytes → Dict HostPort ℤ
unfolding load_lines after_lines add_defaults
load_addresses none = add_defaults default_hosts []
load_addresses (some text) = after_lines (load_lines (lines_of (universal_newlines false text)) [])

unfoldable pub new_address_db : Option Bytes → AddressDb
unfolding load_addresses
new_address_db file = record { addresses = load_addresses file; shuffled = [] }

-- `l.pop()`: what is left, and the last item.
unfoldable pub pop_last {ℓ} : {A : Type ℓ} → List A → Option (List A × A)
pop_last [] = none
pop_last (x ∷ xs) = elim (pop_last xs) [
  | none ↦ some ([], x)
  | some (rest, last) ↦ some (x ∷ rest, last)
]

module _ (shuffle : List HostPort → List HostPort) where
  -- `if len(self.shuffled) == 0:`
  unfoldable pub refilled : AddressDb → List HostPort
  refilled db = elim db.shuffled [
    | [] ↦ shuffle (map (λ entry. entry.0) db.addresses)
    | next ∷ more ↦ next ∷ more
  ]

  unfoldable pub next_address : AddressDb → AddressDb × Result HostPort
  unfolding refilled pop_last
  next_address db = elim (pop_last (refilled db)) [
    | none ↦ (record db { shuffled = [] }, err index_error)
    | some (rest, key) ↦ (record db { shuffled = rest }, ok key)
  ]

unfoldable pub remove_address : HostPort → AddressDb → Result AddressDb
remove_address key db = elim (lookup key db.addresses) [
  | none ↦ err key_error
  | some timestamp ↦ ok (record db { addresses = remove key db.addresses })
]

-- `self.addresses.get(key) or timestamp`
unfoldable pub get_or_else : HostPort → ℤ → Dict HostPort ℤ → ℤ
get_or_else key timestamp d = elim (lookup key d) [
  | none ↦ timestamp
  | some old ↦ if eq_ℤ old (pos 0) then timestamp else old
]

abbrev pub max_ℤ : ℤ → ℤ → ℤ
max_ℤ a b = if ltb_ℤ a b then b else a

unfoldable pub add_address : HostPort → ℤ → AddressDb → AddressDb
unfolding get_or_else
add_address key timestamp db = record db {
  addresses = put key (max_ℤ timestamp (get_or_else key timestamp db.addresses)) db.addresses;
}

unfoldable pub add_addresses : List (ℤ × HostPort) → AddressDb → AddressDb
add_addresses [] db = db
add_addresses ((timestamp, key) ∷ more) db = add_addresses more (add_address key timestamp db)

-- "%d/%s/%d\n"
unfoldable pub print_entry : HostPort × ℤ → Bytes
print_entry (key, timestamp) =
    print_ℤ timestamp ++ b'/' ∷ (key.host ++ b'/' ∷ (print_ℤ key.port ++ b'\n' ∷ []))

unfoldable pub print_all : Dict HostPort ℤ → Bytes
unfolding print_entry
print_all [] = []
print_all (entry ∷ d) = print_entry entry ++ print_all d

-- The file after `save`.
unfoldable pub save : AddressDb → Option Bytes → Option Bytes
unfolding print_all
save db file = if ltb (length db.addresses) 2 then file else some (print_all db.addresses)

four_hex : ℕ → Bytes
four_hex n =
    map (λ d. if ltb d 10 then b'0' + d else b'a' + (d - 10))
      (n / 4096 % 16 ∷ n / 256 % 16 ∷ n / 16 % 16 ∷ n % 16 ∷ [])

-- `ip_address.exploded`
unfoldable pub exploded : IpAddress → Bytes
unfolding four_hex
exploded (ipv4 n) =
    print_ℕ (n / 2 ^ 24 % 256)
    ++ b'.'
      ∷ (print_ℕ (n / 2 ^ 16 % 256)
          ++ b'.' ∷ (print_ℕ (n / 2 ^ 8 % 256) ++ b'.' ∷ print_ℕ (n % 256)))
exploded (ipv6 n) =
    four_hex (n / 2 ^ 112 % 65536)
    ++ b':'
      ∷ (four_hex (n / 2 ^ 96 % 65536)
          ++ b':'
            ∷ (four_hex (n / 2 ^ 80 % 65536)
                ++ b':'
                  ∷ (four_hex (n / 2 ^ 64 % 65536)
                      ++ b':'
                        ∷ (four_hex (n / 2 ^ 48 % 65536)
                            ++ b':'
                              ∷ (four_hex (n / 2 ^ 32 % 65536)
                                  ++ b':'
                                    ∷ (four_hex (n / 2 ^ 16 % 65536)
                                        ++ b':' ∷ four_hex (n % 65536)))))))

unfoldable pub entry_of_tuple : ℕ × PeerAddress → ℤ × HostPort
unfolding exploded
entry_of_tuple (timestamp, address) =
    (pos timestamp, at_port (exploded address.ip_address) (pos address.port))

-- What `get_msg_addr` does with an addr message: the data base and its file.
unfoldable pub get_msg_addr :
    List (ℕ × PeerAddress) → AddressDb × Option Bytes → AddressDb × Option Bytes
unfolding entry_of_tuple add_addresses save
get_msg_addr date_address_tuples (db, file) =
    let db1 = add_addresses (map entry_of_tuple date_address_tuples) db in (db1, save db1 file)

-- How a connection ends: it is not made, it fails in the handshake, or the handshake is done at a time.
pub data Talk : Type 0 where
  refused failed : Talk
  talked : ℕ → Talk

-- `connect_to_remote` after `next_address`
unfoldable pub connect_to_remote :
    HostPort → Talk → AddressDb × Option Bytes → Result (AddressDb × Option Bytes)
unfolding remove_address add_address save
connect_to_remote key refused (db, file) = do db1 ← remove_address key db; ok (db1, save db1 file)
connect_to_remote key failed (db, file) = ok (db, file)
connect_to_remote key (talked now) (db, file) = ok (add_address key (pos now) db, file)

-- ===== src/Keeper/Tests.antt =====
-- Address data bases at sample inputs.
use pycoinnet.Prelude.{
  print_ℕ, bytes_eq, int_of, drop_last, split_on, universal_newlines, lines_of, print_ℤ, ◌≡◌, refl,
  arith, none, some, [], ◌∷◌, length, pos, negsuc, codes, ok,
}
use pycoinnet.Dict.{lookup, put}
use pycoinnet.Address.{ipv4, ipv6}
use pycoinnet.Keeper.{
  HostPort, at_port, host_port_key, AddressDb, load_addresses, add_addresses, next_address, save,
  exploded,
}
use pycoinnet.Keeper.Saved.{IsPlain, load_addresses-save}
use pycoinnet.Keeper.Updates.{newest, add_addresses_lem}

abbrev alice : HostPort
alice = at_port (codes "h1") (pos 8333)

abbrev bob : HostPort
bob = at_port (codes "::1") (negsuc 0)

abbrev two : AddressDb
two = record { addresses = (alice, pos 1400000000) ∷ (bob, pos 7) ∷ []; shuffled = [] }

written : save two none ≡ some (codes "1400000000/h1/8333\n7/::1/-1\n")
unfolding save print_ℤ
written = refl

read_back :
    load_addresses (some (codes "5/a/1\r\n 6 /b/2\n"))
    ≡ (at_port (codes "a") (pos 1), pos 5) ∷ (at_port (codes "b") (pos 2), pos 6) ∷ []
unfolding load_addresses lines_of universal_newlines split_on drop_last int_of put bytes_eq
read_back = refl

malformed : length (load_addresses (some (codes "5/a/1\nx/b/2\n"))) ≡ 5
unfolding load_addresses lines_of universal_newlines split_on drop_last int_of put bytes_eq
malformed = refl

spelled : exploded (ipv4 2130706433) ≡ codes "127.0.0.1"
unfolding exploded print_ℕ
spelled = refl

spelled6 : exploded (ipv6 281483566907393) ≡ codes "0000:0000:0000:0000:0001:0002:0004:0001"
unfolding exploded
spelled6 = refl

drawn : (next_address (λ keys. keys) two).1 ≡ ok bob
unfolding next_address
drawn = refl

h1-IsPlain : IsPlain (codes "h1")
h1-IsPlain = record {
  no_slash = (omega arith, (omega arith, tt));
  no_line_feed = (omega arith, (omega arith, tt));
  no_return = (omega arith, (omega arith, tt));
}

local-IsPlain : IsPlain (codes "::1")
local-IsPlain = record {
  no_slash = (omega arith, (omega arith, (omega arith, tt)));
  no_line_feed = (omega arith, (omega arith, (omega arith, tt)));
  no_return = (omega arith, (omega arith, (omega arith, tt)));
}

load_addresses-save_example : load_addresses (save two none) ≡ two.addresses
unfolding lookup bytes_eq
load_addresses-save_example =
    load_addresses-save two none (omega arith) (refl, (refl, tt)) (h1-IsPlain, (local-IsPlain, tt))

added_addresses :
    lookup bob (add_addresses ((pos 9, bob) ∷ (pos 8, bob) ∷ []) two).addresses
    ≡ newest bob ((pos 9, bob) ∷ (pos 8, bob) ∷ []) (lookup bob two.addresses)
added_addresses =
    add_addresses_lem bob ((pos 9, bob) ∷ (pos 8, bob) ∷ []) two (omega arith, (omega arith, tt))

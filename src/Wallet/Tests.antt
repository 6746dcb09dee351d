-- ===== src/Wallet/Tests.antt =====
-- A wallet of three coins.
use pycoinnet.Chain.Json.{from_json}
use pycoinnet.Chain.{empty_view}
use pycoinnet.Chain.Json.{from_json}
use pycoinnet.Bloom.{BloomFilter}
use pycoinnet.Bloom.Items.{IsMatch}
use pycoinnet.Bloom.Sizes.{Floats, filter_size_required, hash_function_count_required}
use pycoinnet.Wallet.Fetch.{
  watch_addresses, rewound, wallet_filter, wallet_fetch, spendable_item, outpoint_on_wire,
  wallet_filter-IsMatch,
}
use pycoinnet.Prelude.{
  zero_division, drop_last, universal_newlines, lines_of, Bytes, Result, In, inl, inr, ◌<◌, ◌^◌,
  ◌*◌, ◌+◌, arith, ap, ◌++◌, ◌+ℤ◌, bytes_eq, int_of, ℕ, ◌≡◌, ◌⊎◌, refl, true, false, none, some,
  List, [], ◌∷◌, codes, ℤ, pos, ok, err, value_error,
}
use pycoinnet.Dict.{Dict, lookup}
use pycoinnet.Wallet.{
  Payable, as_payable, Spendable, OutPoint, out_point, out_point_key, total_to_send, wallet_create,
  wallet_exclude, wallet_balance, is_spendable_interesting,
}
use pycoinnet.Wallet.Coins.{Taken, wallet_create-Taken}
use pycoinnet.Wallet.Excluded.{is_spent_by, marked, wallet_exclude_lem}

abbrev coin : ℕ → Spendable
coin n = record { coin_value = n; does_seem_spent = false }

abbrev coins : List Spendable
coins = coin 5 ∷ coin 7 ∷ coin 1 ∷ []

abbrev pay : ℤ → List Payable
pay n =
    record { address = codes "a"; amount = some n }
    ∷ record { address = codes "b"; amount = none }
    ∷ []

parsed : as_payable (λ a. true) (codes "abc/12/3") ≡ err value_error
unfolding as_payable int_of
parsed = refl

parsed_amount :
    as_payable (λ a. true) (codes "abc/12")
    ≡ ok (record { address = codes "abc"; amount = some (pos 12) })
unfolding as_payable int_of
parsed_amount = refl

chosen : wallet_create (pay (pos 6)) coins ≡ ok (coin 5 ∷ coin 7 ∷ [], pos 12)
unfolding wallet_create ◌+ℤ◌
chosen = refl

-- There are not enough coins, and nothing is raised.
not_enough : wallet_create (pay (pos 100)) coins ≡ ok (coins, pos 13)
unfolding wallet_create ◌+ℤ◌
not_enough = refl

balance : wallet_balance coins ≡ 13
unfolding wallet_balance
balance = refl

watched : is_spendable_interesting (codes "a" ∷ codes "b" ∷ []) (codes "b") ≡ true
unfolding is_spendable_interesting bytes_eq
watched = refl

wallet_create-Taken_example :
    ((total_to_send (pay (pos 6)) ≡ pos 0) × (wallet_create (pay (pos 6)) coins ≡ err value_error))
    ⊎ ((taken : List Spendable) × (sum : ℤ) × (wallet_create (pay (pos 6)) coins ≡ ok (taken, sum))
        × Taken (total_to_send (pay (pos 6))) (pos 0) coins taken sum)
wallet_create-Taken_example = wallet_create-Taken (pay (pos 6)) coins

abbrev db : Dict OutPoint Spendable
db = (out_point (1 ∷ []) 0, coin 5) ∷ (out_point (1 ∷ []) 1, coin 7) ∷ []

abbrev inputs : List OutPoint
inputs = out_point (1 ∷ []) 1 ∷ out_point (2 ∷ []) 0 ∷ []

exclude_second :
    lookup (out_point (1 ∷ []) 1) (wallet_exclude inputs db)
    ≡ marked (is_spent_by inputs (out_point (1 ∷ []) 1)) (lookup (out_point (1 ∷ []) 1) db)
exclude_second = wallet_exclude_lem inputs db (out_point (1 ∷ []) 1)

-- The last address of a file without a last line feed loses its last letter.
read_addresses :
    watch_addresses (codes "abc" ++ b'\n' ∷ (codes "def" ++ b'\n' ∷ codes "ghi"))
    ≡ codes "abc" ∷ codes "def" ∷ codes "gh" ∷ []
unfolding watch_addresses lines_of universal_newlines drop_last
read_addresses = refl

no_rewind : rewound (some (pos 0)) empty_view ≡ empty_view
unfolding rewound
no_rewind = refl

-- Formulas that give 3 bytes and 3 hashes.
abbrev threes : Floats
threes = record {
  Float = ℕ;
  of_int = λ i. 0;
  half = 0;
  log_2 = 0;
  add = λ a b. a + b;
  mul = λ a b. a * b;
  div = λ a b. a;
  floor_div = λ a b. a;
  pow = λ a b. a;
  log = λ a. ok a;
  int = λ a. ok (pos 3);
}

abbrev addresses : List Bytes
addresses = codes "abc" ∷ []

abbrev unspent : List OutPoint
unspent = out_point (codes "tx") 1 ∷ []

abbrev hash160_sec : Bytes → Bytes → Result Bytes
hash160_sec address prefix = ok address

index_fits : (s : OutPoint) → In s unspent → s.previous_index < 2 ^ 32
index_fits s (inl e) = omega (arith, ap (λ t. t.previous_index) e)
index_fits s (inr k) = elim k [ ]

sized : filter_size_required threes 2 0 ≡ ok (pos 3)
unfolding filter_size_required
sized = refl

counted : hash_function_count_required threes (pos 3) 2 ≡ ok (pos 3)
unfolding hash_function_count_required
counted = refl

wallet_filter-IsMatch_example :
    (f : BloomFilter) × (wallet_filter threes 0 hash160_sec addresses unspent ≡ ok f)
    × ((a : Bytes) → In a addresses → IsMatch a f)
    × ((s : OutPoint) → In s unspent → IsMatch (spendable_item s) f)
    × ((s : OutPoint) → In s unspent → s.previous_index ≡ 0 → IsMatch (outpoint_on_wire s) f)
wallet_filter-IsMatch_example =
    wallet_filter-IsMatch threes 0 hash160_sec (λ a. a) addresses unspent 2 3 (λ a k. refl)
      index_fits sized counted

-- With no address and no coin there is nothing to divide by.
nothing_to_watch :
    wallet_fetch threes 0 hash160_sec (λ text. ok []) (λ text. ok text) (λ index. []) [] none none
    ≡ err zero_division
unfolding wallet_fetch from_json filter_size_required hash_function_count_required lines_of
    universal_newlines
nothing_to_watch = refl

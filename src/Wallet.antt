-- ===== src/Wallet.antt =====
-- pycoinnet/examples/wallet.py: the addresses that are watched, what is paid to whom, the coins that
-- are spent, and the coins that a transaction spends. Spendables and transactions are pycoin's, and so
-- is the test of an address; amounts are integers.
mod Tests
pub mod Coins
pub mod Excluded
pub mod Fetch
use pycoinnet.Prelude.{
  ℕ, ◌≡◌, ◌↔◌, refl, ap, ◌∙◌, arith, ltb, leb, ◌==◌, ==_iff, if◌then◌else◌, ◌&&◌, ◌||◌, ◌+◌, Bool,
  true, false, not, Option, none, some, List, [], ◌∷◌, ◌++◌, map, length, Bytes, bytes_eq,
  bytes_eq_iff, bytes_eq_self, int_of, ℤ, pos, ◌+ℤ◌, eq_ℤ, leb_ℤ, Eq, Result, ok, err, ◌>>=◌,
  value_error,
}
use pycoinnet.Dict.{Dict, lookup, put}

-- `spendable.bitcoin_address() in self.interested_addresses`
unfoldable pub is_spendable_interesting : List Bytes → Bytes → Bool
is_spendable_interesting [] bitcoin_address = false
is_spendable_interesting (a ∷ addresses) bitcoin_address =
    bytes_eq a bitcoin_address || is_spendable_interesting addresses bitcoin_address

-- An address, and the amount to pay if it is given.
pub record Payable : Type 0 where
  pub address : Bytes
  pub amount : Option ℤ

-- `payable.split("/", 1)` at the first slash, if there is one
unfoldable pub split_once : Bytes → Option (Bytes × Bytes)
split_once [] = none
split_once (c ∷ s) =
    let rest = split_once s in
    if c == b'/'
    then some ([], s)
    else elim rest [ none ↦ none | some (before, behind) ↦ some (c ∷ before, behind) ]

-- The error of argparse counts as a ValueError.
unfoldable pub checked : (Bytes → Bool) → Bytes → Result Bytes
checked is_address_valid address = if is_address_valid address then ok address else err value_error

unfoldable pub as_payable : (Bytes → Bool) → Bytes → Result Payable
unfolding split_once checked
as_payable is_address_valid payable = elim (split_once payable) [
  | none ↦ checked is_address_valid payable >>= λ address.
      ok (record { address = address; amount = none })
  | some (before, behind) ↦ checked is_address_valid before >>= λ address.
      int_of behind >>= λ n. ok (record { address = address; amount = some n })
]

-- How much is sent. The source takes the payables of length 2, which are the pairs, since no address
-- has two characters.
unfoldable pub total_to_send : List Payable → ℤ
total_to_send [] = pos 0
total_to_send (p ∷ payables) = elim p.amount [ none ↦ pos 0 | some n ↦ n ] +ℤ total_to_send payables

pub record Spendable : Type 0 where
  pub coin_value : ℕ
  pub does_seem_spent : Bool

-- The loop over the coins, from a total so far: those taken, and the total.
unfoldable pub take_coins : ℤ → ℤ → List Spendable → List Spendable × ℤ
take_coins total_sending total [] = ([], total)
take_coins total_sending total (spendable ∷ spendables) =
    let total1 = total +ℤ pos spendable.coin_value in
    let (taken, sum) = take_coins total_sending total1 spendables in
    if leb_ℤ total_sending total1 then (spendable ∷ [], total1) else (spendable ∷ taken, sum)

-- The coins for the transaction, and their total.
unfoldable pub wallet_create : List Payable → List Spendable → Result (List Spendable × ℤ)
unfolding total_to_send take_coins
wallet_create payables unspent =
    let total_sending = total_to_send payables in
    if eq_ℤ total_sending (pos 0)
    then err value_error
    else ok (take_coins total_sending (pos 0) unspent)

unfoldable pub wallet_balance : List Spendable → ℕ
wallet_balance [] = 0
wallet_balance (spendable ∷ spendables) = spendable.coin_value + wallet_balance spendables

-- The hash and the index that name an output.
pub record OutPoint : Type 0 where
  pub previous_hash : Bytes
  pub previous_index : ℕ

abbrev pub out_point_eq : OutPoint → OutPoint → Bool
out_point_eq a b =
    bytes_eq a.previous_hash b.previous_hash && (a.previous_index == b.previous_index)

abbrev pub out_point : Bytes → ℕ → OutPoint
out_point h i = record { previous_hash = h; previous_index = i }

pub out_point_eq_iff : (a b : OutPoint) → (out_point_eq a b ≡ true) ↔ (a ≡ b)
out_point_eq_iff a b = (to_eq, of_eq)
  where
    to_eq : out_point_eq a b ≡ true → a ≡ b
    to_eq e =
        ap (λ h. out_point h a.previous_index)
          ((bytes_eq_iff a.previous_hash b.previous_hash).0 (ground arith))
        ∙ ap (out_point b.previous_hash)
            ((==_iff a.previous_index b.previous_index).0 (ground arith))

    of_eq : a ≡ b → out_point_eq a b ≡ true
    of_eq e = rw e (
        ground
          (arith, bytes_eq_self b.previous_hash, (==_iff b.previous_index b.previous_index).1 refl))

instance abbrev pub out_point_key : Eq OutPoint
out_point_key = record { beq = out_point_eq; beq_iff = out_point_eq_iff }

abbrev pub spent : Spendable → Spendable
spent s = record s { does_seem_spent = true }

-- The loop over the inputs of the transaction, over the spendables that the wallet keeps.
unfoldable pub wallet_exclude : List OutPoint → Dict OutPoint Spendable → Dict OutPoint Spendable
wallet_exclude [] db = db
wallet_exclude (tx_in ∷ txs_in) db = elim (lookup tx_in db) [
  | none ↦ wallet_exclude txs_in db
  | some spendable ↦ wallet_exclude txs_in (put tx_in (spent spendable) db)
]

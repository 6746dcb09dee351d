-- ===== src/Wallet/Excluded.antt =====
-- Which coins `wallet_exclude` marks.
use pycoinnet.Prelude.{
  ◌≡◌, refl, sym, ap, ◌∙◌, inl, inr, Bool, true, false, ◌||◌, Bool-cases, if◌then◌else◌, Option,
  Option-cases, none, some, List, [], ◌∷◌,
}
use pycoinnet.Dict.{Dict, lookup, put, lookup-put}
use pycoinnet.Wallet.{
  OutPoint, out_point_eq, out_point_eq_iff, out_point_key, Spendable, spent, wallet_exclude,
}

-- The transaction has an input that names the output.
pub is_spent_by : List OutPoint → OutPoint → Bool
is_spent_by [] key = false
is_spent_by (tx_in ∷ txs_in) key = out_point_eq tx_in key || is_spent_by txs_in key

pub marked : Bool → Option Spendable → Option Spendable
marked b none = none
marked b (some s) = some (if b then spent s else s)

unmarked : (o : Option Spendable) → marked false o ≡ o
unfolding marked
unmarked none = refl
unmarked (some s) = refl

marked-none : (b : Bool) {o : Option Spendable} → o ≡ none → marked b o ≡ none
unfolding marked
marked-none b e = rw e refl

marked_twice : (b : Bool) (s : Spendable) → marked b (some (spent s)) ≡ marked true (some s)
unfolding marked
marked_twice true s = refl
marked_twice false s = refl

module _ (tx_in : OutPoint) (txs_in : List OutPoint) (db : Dict OutPoint Spendable)
    (key : OutPoint) where
  excluded_unknown :
      lookup tx_in db ≡ none
      → lookup key (wallet_exclude (tx_in ∷ txs_in) db) ≡ lookup key (wallet_exclude txs_in db)
  unfolding wallet_exclude
  excluded_unknown e = rw (wallet_exclude, e) refl

  excluded_known :
      {s : Spendable}
      → lookup tx_in db ≡ some s
      → lookup key (wallet_exclude (tx_in ∷ txs_in) db)
        ≡ lookup key (wallet_exclude txs_in (put tx_in (spent s) db))
  unfolding wallet_exclude
  excluded_known e = rw (wallet_exclude, e) refl

-- The wallet's coins that the transaction spends are marked as spent, and all else is as before; no
-- coin is added or lost.
pub wallet_exclude_lem :
    (txs_in : List OutPoint) (db : Dict OutPoint Spendable) (key : OutPoint)
    → lookup key (wallet_exclude txs_in db) ≡ marked (is_spent_by txs_in key) (lookup key db)
unfolding wallet_exclude is_spent_by
wallet_exclude_lem [] db key = sym (unmarked (lookup key db))
wallet_exclude_lem (tx_in ∷ txs_in) db key = elim (Option-cases (lookup tx_in db)) [
  | inl e ↦
      excluded_unknown tx_in txs_in db key e
      ∙ wallet_exclude_lem txs_in db key
      ∙ elim (Bool-cases (out_point_eq tx_in key)) [
        | inl b ↦
            let absent = ap (λ k. lookup k db) (sym ((out_point_eq_iff tx_in key).0 b)) ∙ e in
            marked-none _ absent ∙ sym (marked-none _ absent)
        | inr b ↦ rw b refl
      ]
  | inr (s, e) ↦
      excluded_known tx_in txs_in db key e
      ∙ wallet_exclude_lem txs_in (put tx_in (spent s) db) key
      ∙ ap (marked (is_spent_by txs_in key)) (lookup-put tx_in key (spent s) db)
      ∙ elim (Bool-cases (out_point_eq tx_in key)) [
        | inl b ↦
            let here = ap (λ k. lookup k db) (sym ((out_point_eq_iff tx_in key).0 b)) ∙ e in
            rw (b, here) (marked_twice (is_spent_by txs_in key) s)
        | inr b ↦ rw b refl
      ]
]

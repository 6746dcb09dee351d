-- ===== src/Wallet/Coins.antt =====
-- Which coins `wallet_create` spends.
use mathlib.Core.Path.{subst}
use pycoinnet.Prelude.{
  ℕ, ◌+◌, ◌≡◌, refl, sym, ap, ◌∙◌, ◌⊎◌, inl, inr, arith, true, false, Bool-cases, List, [], ◌∷◌,
  ◌++◌, ℤ, pos, ◌+ℤ◌, ◌≤ℤ◌, ◌<ℤ◌, leb_ℤ, eq_ℤ, ok, err, value_error,
}
use pycoinnet.Wallet.{Spendable, Payable, take_coins, wallet_balance, wallet_create, total_to_send}

-- The coins reach the amount, and without the last of them they would not.
pub record Reaches (total_sending total : ℤ) (taken : List Spendable) (sum : ℤ) : Type 0 where
  pub before : List Spendable
  pub last : Spendable
  pub split : taken ≡ before ++ last ∷ []
  pub enough : total_sending ≤ℤ sum
  pub needed : (before ≡ []) ⊎ (total +ℤ pos (wallet_balance before) <ℤ total_sending)

-- What is taken from a list of coins, from a total on.
pub record Taken (total_sending total : ℤ) (unspent taken : List Spendable) (sum : ℤ) : Type 0 where
  pub rest : List Spendable
  pub in_order : taken ++ rest ≡ unspent
  pub summed : sum ≡ total +ℤ pos (wallet_balance taken)
  pub outcome :
      Reaches total_sending total taken sum
      ⊎ ((rest ≡ []) × ((taken ≡ []) ⊎ (sum <ℤ total_sending)))

add_twice : (a : ℤ) (m n : ℕ) → a +ℤ pos m +ℤ pos n ≡ a +ℤ pos (m + n)
unfolding ◌+ℤ◌
add_twice a m n = ground arith

add_nothing : (a : ℤ) → a +ℤ pos 0 ≡ a
unfolding ◌+ℤ◌
add_nothing a = ground arith

module _ (total_sending : ℤ) where
  all-Taken : (total : ℤ) → Taken total_sending total [] [] total
  unfolding wallet_balance ◌+ℤ◌
  all-Taken total = record {
    rest = [];
    in_order = refl;
    summed = ground arith;
    outcome = inr (refl, inl refl);
  }

  one-Taken :
      (total : ℤ) (s : Spendable) (unspent : List Spendable)
      → total_sending ≤ℤ total +ℤ pos s.coin_value
      → Taken total_sending total (s ∷ unspent) (s ∷ []) (total +ℤ pos s.coin_value)
  unfolding wallet_balance
  one-Taken total s unspent h = record {
    rest = unspent;
    in_order = refl;
    summed = ap (λ n. total +ℤ pos n) (omega arith);
    outcome = inl (record { before = []; last = s; split = refl; enough = h; needed = inl refl });
  }

  more-Taken :
      (total : ℤ) (s : Spendable) (unspent taken : List Spendable) (sum : ℤ)
      → total +ℤ pos s.coin_value <ℤ total_sending
      → Taken total_sending (total +ℤ pos s.coin_value) unspent taken sum
      → Taken total_sending total (s ∷ unspent) (s ∷ taken) sum
  unfolding wallet_balance
  more-Taken total s unspent taken sum h t = record {
    rest = t.rest;
    in_order = ap (λ l. s ∷ l) t.in_order;
    summed = t.summed ∙ add_twice total s.coin_value (wallet_balance taken);
    outcome = elim t.outcome [
      | inr (e, few) ↦ inr (e, inr (still_short few))
      | inl r ↦ inl (record {
        before = s ∷ r.before;
        last = r.last;
        split = ap (λ l. s ∷ l) r.split;
        enough = r.enough;
        needed = inr (short r.before r.needed);
      })
    ];
  }
    where
      still_short : (taken ≡ []) ⊎ (sum <ℤ total_sending) → sum <ℤ total_sending
      still_short (inr k) = k
      still_short (inl e) =
          subst (λ z. z <ℤ total_sending) (sym (t.summed ∙ nothing_more (rw e refl))) h
        where
          nothing_more :
              wallet_balance taken ≡ 0
              → total +ℤ pos s.coin_value +ℤ pos (wallet_balance taken) ≡ total +ℤ pos s.coin_value
          nothing_more k = rw k (add_nothing (total +ℤ pos s.coin_value))

      short :
          (before : List Spendable)
          → (before ≡ [])
            ⊎ (total +ℤ pos s.coin_value +ℤ pos (wallet_balance before) <ℤ total_sending)
          → total +ℤ pos (s.coin_value + wallet_balance before) <ℤ total_sending
      short before (inl e) = rw e (subst (λ n. total +ℤ pos n <ℤ total_sending) (omega arith) h)
      short before (inr k) =
          subst (λ z. z <ℤ total_sending) (add_twice total s.coin_value (wallet_balance before)) k

  take_coins-Taken :
      (total : ℤ) (unspent : List Spendable)
      → Taken total_sending total unspent
          (take_coins total_sending total unspent).0
          (take_coins total_sending total unspent).1
  unfolding take_coins
  take_coins-Taken total [] = all-Taken total
  take_coins-Taken total (s ∷ unspent) =
      elim (Bool-cases (leb_ℤ total_sending (total +ℤ pos s.coin_value))) [
        | inl e ↦
            rw (take_coins, e)
              (one-Taken total s unspent (enough total_sending (total +ℤ pos s.coin_value) e))
        | inr e ↦
            rw (take_coins, e)
              (more-Taken total s unspent _ _ (not_yet total_sending (total +ℤ pos s.coin_value) e)
                (take_coins-Taken (total +ℤ pos s.coin_value) unspent))
      ]
    where
      enough : (a b : ℤ) → leb_ℤ a b ≡ true → a ≤ℤ b
      enough a b e = ground arith

      not_yet : (a b : ℤ) → leb_ℤ a b ≡ false → b <ℤ a
      not_yet a b e = ground arith

-- The coins that `wallet_create` spends are the first ones of the wallet, with their total. Either
-- they reach the amount to send, and did not before the last of them, or they are all the coins there
-- are, and do not reach it, unless there are none. With nothing to send it raises.
pub wallet_create-Taken :
    (payables : List Payable) (unspent : List Spendable)
    → ((total_to_send payables ≡ pos 0) × (wallet_create payables unspent ≡ err value_error))
      ⊎ ((taken : List Spendable) × (sum : ℤ) × (wallet_create payables unspent ≡ ok (taken, sum))
          × Taken (total_to_send payables) (pos 0) unspent taken sum)
unfolding wallet_create
wallet_create-Taken payables unspent = elim (Bool-cases (eq_ℤ (total_to_send payables) (pos 0))) [
  | inl e ↦ inl (zero_of (total_to_send payables) e, rw (wallet_create, e) refl)
  | inr e ↦
      let (taken, sum) = take_coins (total_to_send payables) (pos 0) unspent in
      inr (
        taken,
        sum,
        rw (wallet_create, e) refl,
        take_coins-Taken (total_to_send payables) (pos 0) unspent,
      )
]
  where
    zero_of : (z : ℤ) → eq_ℤ z (pos 0) ≡ true → z ≡ pos 0
    zero_of z e = ground arith

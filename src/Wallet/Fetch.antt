-- ===== src/Wallet/Fetch.antt =====
-- `wallet_fetch` of pycoinnet/examples/wallet.py, until the client is started: the addresses that are
-- watched, the view after a rewind, and the filter of the addresses and of the coins. The decoding of an
-- address is pycoin's, and so is `unspent_spendables`.
use mathlib.Core.Path.{fun_ext, subst}
use pycoinnet.Prelude.{
  codes, pos_part, ℕ, suc, ◌+◌, ◌<◌, ◌^◌, ◌≡◌, refl, sym, ap, ◌∙◌, arith, ltb, if◌then◌else◌,
  Option, none, some, List, [], ◌∷◌, ◌++◌, map, length, Bytes, lines_of, universal_newlines,
  drop_last, to_be, to_le, ℤ, pos, negsuc, eq_ℤ, Result, ok, err, ◌>>=◌, value_error, false, true,
  In, inl, inr, append-In,
}
use pycoinnet.Chain.{View, rewind, last_block_index}
use pycoinnet.Chain.Json.{Row, from_json}
use pycoinnet.Bloom.{BloomFilter, new_filter, add_item, add_address, add_spendable, pack_be_long}
use pycoinnet.Bloom.Items.{IsMatch, add_items, add_items-IsMatch, new_filter_lem}
use pycoinnet.Bloom.Sizes.{
  Floats, filter_size_required, hash_function_count_required, filter_size_required-le,
}
use pycoinnet.Wallet.{OutPoint}

-- `[a[:-1] for a in open(...).readlines()]`
unfoldable pub watch_addresses : Bytes → List Bytes
watch_addresses text = map drop_last (lines_of (universal_newlines false text))

-- `persistence.get_global("blockchain_view") or "[]"`
unfoldable pub stored_json : Option Bytes → Bytes
stored_json none = codes "[]"
stored_json (some []) = codes "[]"
stored_json (some (c ∷ text)) = c ∷ text

-- `if args.rewind: blockchain_view.rewind(args.rewind)`; 0 is no rewind.
unfoldable pub rewound : Option ℤ → View → View
rewound none v = v
rewound (some i) v = if eq_ℤ i (pos 0) then v else rewind i v

-- A size for `bytearray`, which raises ValueError below 0.
unfoldable pub size_of : ℤ → Result ℕ
size_of (pos n) = ok n
size_of (negsuc n) = err value_error

module _ (bitcoin_address_to_hash160_sec : Bytes → Bytes → Result Bytes) where
  unfoldable pub add_addresses : List Bytes → BloomFilter → Result BloomFilter
  add_addresses [] f = ok f
  add_addresses (a ∷ addresses) f = do
    f1 ← add_address bitcoin_address_to_hash160_sec a (0 ∷ []) f
    add_addresses addresses f1

unfoldable pub add_spendables : List OutPoint → BloomFilter → Result BloomFilter
add_spendables [] f = ok f
add_spendables (s ∷ spendables) f = do
  f1 ← add_spendable s.previous_hash s.previous_index f
  add_spendables spendables f1

module _ (floats : Floats) (false_positive_probability : floats.Float)
    (bitcoin_address_to_hash160_sec : Bytes → Bytes → Result Bytes) where
  -- A count below 0 would make no round of `range`, as 0 does.
  unfoldable pub wallet_filter : List Bytes → List OutPoint → Result BloomFilter
  unfolding size_of add_addresses add_spendables
  wallet_filter addresses spendables = do
    let element_count = length addresses + length spendables
    size ← filter_size_required floats element_count false_positive_probability
    count ← hash_function_count_required floats size element_count
    filter_size ← size_of size
    f ← new_filter filter_size (pos_part count) 1
    f1 ← add_addresses bitcoin_address_to_hash160_sec addresses f
    add_spendables spendables f1

  -- The view that the client starts with, and its filter, from the file of addresses and from the view
  -- that the data base holds, if it holds one. `loads` is `json.loads`, and `h2b_rev` pycoin's.
  unfoldable pub wallet_fetch :
      (Bytes → Result (List Row))
      → (Bytes → Result Bytes)
      → (ℤ → List OutPoint)
      → Bytes
      → Option Bytes
      → Option ℤ
      → Result (View × BloomFilter)
  unfolding watch_addresses stored_json rewound wallet_filter
  wallet_fetch loads h2b_rev unspent_spendables text stored rewind_to = do
    let addresses = watch_addresses text
    view ← from_json h2b_rev loads (stored_json stored)
    let blockchain_view = rewound rewind_to view
    bloom_filter ← wallet_filter addresses (unspent_spendables (last_block_index blockchain_view))
    ok (blockchain_view, bloom_filter)

-- What a coin adds to the filter.
abbrev pub spendable_item : OutPoint → Bytes
spendable_item s = s.previous_hash ++ to_be 4 s.previous_index

-- How an outpoint stands in a transaction, and is tested by a peer.
abbrev pub outpoint_on_wire : OutPoint → Bytes
outpoint_on_wire s = s.previous_hash ++ to_le 4 s.previous_index

same_at_0 : (s : OutPoint) → s.previous_index ≡ 0 → spendable_item s ≡ outpoint_on_wire s
unfolding to_be to_le
same_at_0 s e =
    ap (λ n. s.previous_hash ++ to_be 4 n) e ∙ sym (ap (λ n. s.previous_hash ++ to_le 4 n) e)

add_items-append :
    (xs ys : List Bytes) (f : BloomFilter)
    → add_items (xs ++ ys) f ≡ add_items xs f >>= add_items ys
unfolding add_items
add_items-append [] ys f = refl
add_items-append (x ∷ xs) ys f = by_first (add_item x f) (add_items-append xs ys)
  where
    by_first :
        (r : Result BloomFilter)
        → ((f1 : BloomFilter) → add_items (xs ++ ys) f1 ≡ add_items xs f1 >>= add_items ys)
        → r >>= add_items (xs ++ ys) ≡ (r >>= add_items xs) >>= add_items ys
    by_first (err e) more = refl
    by_first (ok f1) more = more f1

In-map : {A : Type 0} (g : A → Bytes) (x : A) (xs : List A) → In x xs → In (g x) (map g xs)
In-map g x [] k = elim k [ ]
In-map g x (y ∷ ys) (inl e) = inl (ap g e)
In-map g x (y ∷ ys) (inr k) = inr (In-map g x ys k)

add_spendables-items :
    (spendables : List OutPoint)
    → ((s : OutPoint) → In s spendables → s.previous_index < 2 ^ 32)
    → (f : BloomFilter) → add_spendables spendables f ≡ add_items (map spendable_item spendables) f
unfolding add_spendables add_items add_spendable pack_be_long
add_spendables-items [] fits f = refl
add_spendables-items (s ∷ spendables) fits f =
    rw (add_spendables, add_spendable, pack_be_long, ltb_true s.previous_index (fits s (inl refl)))
      (ap (λ g. add_item (spendable_item s) f >>= g)
        (fun_ext (add_spendables-items spendables (λ t k. fits t (inr k)))))
  where
    ltb_true : (n : ℕ) → n < 2 ^ 32 → ltb n (2 ^ 32) ≡ true
    ltb_true n h = ground arith

module _ (bitcoin_address_to_hash160_sec : Bytes → Bytes → Result Bytes)
    (hash160_of : Bytes → Bytes) where
  -- The addresses have hashes.
  abbrev pub AreValid : List Bytes → Type 0
  AreValid addresses =
      (a : Bytes) → In a addresses → bitcoin_address_to_hash160_sec a (0 ∷ []) ≡ ok (hash160_of a)

  add_addresses-items :
      (addresses : List Bytes)
      → AreValid addresses
      → (f : BloomFilter)
      → add_addresses bitcoin_address_to_hash160_sec addresses f
        ≡ add_items (map hash160_of addresses) f
  unfolding add_addresses add_items add_address
  add_addresses-items [] valid f = refl
  add_addresses-items (a ∷ addresses) valid f =
      rw (add_addresses, add_address, valid a (inl refl))
        (ap (λ g. add_item (hash160_of a) f >>= g)
          (fun_ext (add_addresses-items addresses (λ b k. valid b (inr k)))))

module _ (floats : Floats) (p : floats.Float)
    (bitcoin_address_to_hash160_sec : Bytes → Bytes → Result Bytes)
    (hash160_of : Bytes → Bytes) where
  -- If the addresses are valid, the indices of the coins fit in 4 bytes and the formulas give a size of
  -- one byte or more and a count of hashes, then the filter of the wallet is made without an error. The
  -- hash of every address matches it, and for every coin the hash with the index in 4 bytes from the most
  -- significant one on; what a peer tests, with the index from the least byte on, is then known to match
  -- for the coins of index 0.
  pub wallet_filter-IsMatch :
      (addresses : List Bytes) (spendables : List OutPoint) (size count : ℕ)
      → AreValid bitcoin_address_to_hash160_sec hash160_of addresses
      → ((s : OutPoint) → In s spendables → s.previous_index < 2 ^ 32)
      → filter_size_required floats (length addresses + length spendables) p ≡ ok (pos (suc size))
      → hash_function_count_required floats (pos (suc size)) (length addresses + length spendables)
        ≡ ok (pos count)
      → (f : BloomFilter) × (wallet_filter floats p bitcoin_address_to_hash160_sec addresses
            spendables
          ≡ ok f)
        × ((a : Bytes) → In a addresses → IsMatch (hash160_of a) f)
        × ((s : OutPoint) → In s spendables → IsMatch (spendable_item s) f)
        × ((s : OutPoint) → In s spendables → s.previous_index ≡ 0 → IsMatch (outpoint_on_wire s) f)
  unfolding wallet_filter size_of
  wallet_filter-IsMatch addresses spendables size count valid fits sized counted =
      elim (new_filter_lem (suc size) count 1 (omega arith)) [
        | inr (raised, big) ↦ absurd (
            omega (
              arith,
              big,
              filter_size_required-le floats (length addresses + length spendables) p sized,
            ))
        | inl (empty, e, wf, small) ↦
            (let (f, added, wf1, matches) = add_items-IsMatch items empty wf in
              (
                f,
                rw (wallet_filter, sized, counted, size_of, e) (all_added empty ∙ added),
                λ a k.
                    matches (hash160_of a)
                      (append-In (hash160_of a) _ _ (inl (In-map hash160_of a addresses k))),
                coin_matches f matches,
                λ s k e. subst (λ t. IsMatch t f) (same_at_0 s e) (coin_matches f matches s k),
              ))
      ]
    where
      items : List Bytes
      items = map hash160_of addresses ++ map spendable_item spendables

      coin_matches :
          (f : BloomFilter)
          → ((x : Bytes) → In x items → IsMatch x f)
          → (s : OutPoint) → In s spendables
          → IsMatch (spendable_item s) f
      coin_matches f matches s k =
          matches (spendable_item s)
            (append-In (spendable_item s) _ _ (inr (In-map spendable_item s spendables k)))

      all_added :
          (f : BloomFilter)
          → add_addresses bitcoin_address_to_hash160_sec addresses f >>= add_spendables spendables
            ≡ add_items items f
      all_added f =
          ap (λ m. m >>= add_spendables spendables)
            (add_addresses-items bitcoin_address_to_hash160_sec hash160_of addresses valid f)
          ∙ ap (λ g. add_items (map hash160_of addresses) f >>= g)
              (fun_ext (add_spendables-items spendables fits))
          ∙ sym (add_items-append (map hash160_of addresses) (map spendable_item spendables) f)

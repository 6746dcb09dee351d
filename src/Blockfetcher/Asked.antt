-- ===== src/Blockfetcher/Asked.antt =====
-- What a peer is asked for.
use mathlib.Core.Path.{subst}
use pycoinnet.Prelude.{
  ℕ, ◌≤◌, ◌≡◌, refl, sym, arith, Bool, true, false, not, ◌||◌, ltb, inl, inr, List, [], ◌∷◌, All,
  All-append, In, In-filter,
}
use pycoinnet.Blockfetcher.{Item, Loop, Seen, is_in, is_barred, pick, asked_for}
use pycoinnet.Blockfetcher.Picks.{pick-keeps}

or_false : {a b : Bool} → a || b ≡ false → (a ≡ false) × (b ≡ false)
or_false {a = true} e = absurd (cc e)
or_false {a = false} e = (refl, e)

not-true : {a : Bool} → not a ≡ true → a ≡ false
not-true {a = true} e = absurd (cc e)
not-true {a = false} e = refl

All-In : (P : Item → Type 0) (xs : List Item) (a : Item) → All P xs → In a xs → P a
All-In P [] a h i = elim i [ ]
All-In P (x ∷ xs) a h (inl e) = subst P (sym e) (h.0)
All-In P (x ∷ xs) a h (inr i) = All-In P xs a (h.1) i

module _ (last_block_index : ℕ) (l : Loop) where
  not_gt : (n : ℕ) → ltb last_block_index n ≡ false → n ≤ last_block_index
  not_gt n e = ground arith

  IsOpen : Item → Type 0
  IsOpen item = is_barred last_block_index l.missing item ≡ false

  pick-IsOpen :
      (queue : List Item)
      → 1 ≤ l.per_loop
      → All IsOpen (pick last_block_index l queue [] []).items_to_try
  unfolding IsOpen
  pick-IsOpen queue h =
      pick-keeps last_block_index l (λ t n q. All IsOpen t) (λ item q t n e p. p)
        (λ item q t n e r p. All-append IsOpen t (item ∷ []) p (e, tt)) queue [] [] (omega arith) tt

  -- The fetcher is asked only for blocks that the peer has, by its last block index, that it did not
  -- fail to give before, and whose futures are not done.
  pub asked_for-pick :
      (seen : Seen) (queue : List Item) (item : Item)
      → 1 ≤ l.per_loop
      → In item (asked_for seen (pick last_block_index l queue [] []).items_to_try)
      → (item.block_index ≤ last_block_index)
        × (is_in item l.missing ≡ false)
        × (seen.done_at_start item.future ≡ false)
  unfolding asked_for IsOpen
  asked_for-pick seen queue item h i =
      let (k, d) = In-filter (λ x. not (seen.done_at_start x.future)) item _ i in
      let (not_missing, not_past) = or_false (All-In IsOpen _ item (pick-IsOpen queue h) k) in
      (not_gt item.block_index not_past, not_missing, not-true d)

-- ===== src/Blockfetcher/Conserved.antt =====
-- The items of the queue of Blockfetcher as a bag, before and after a round.
use mathlib.Core.Quot
use mathlib.Core.Quot.{Quot, Quot-set}
use pycoinnet.Prelude.{
  ℕ, ◌+◌, ◌≤◌, ◌≡◌, refl, sym, ap, ◌∙◌, arith, true, false, Bool-cases, inl, inr, if◌then◌else◌,
  List, [], ◌∷◌, ◌++◌, filter, ltb,
}
use pycoinnet.Blockfetcher.{
  Item, item_eq, Loop, Seen, put_nowait, put_all, pick, undone, end_of_round, asked_for,
  fetch_round,
}
use pycoinnet.Blockfetcher.Ties.{HasNoTies, round-HasNoTies}
use pycoinnet.Blockfetcher.Picks.{pick-keeps}

-- How often an item stands in a list.
abbrev pub count : Item → List Item → ℕ
count a [] = 0
count a (x ∷ xs) = (if item_eq x a then 1 else 0) + count a xs

abbrev pub SameItems : List Item → List Item → Type 0
SameItems xs ys = (a : Item) → count a xs ≡ count a ys

-- The lists of items up to order.
abbrev pub Bag : Type 0
Bag = Quot SameItems

abbrev pub bag_of : List Item → Bag
bag_of = Quot.mk

count-append : (a : Item) (xs ys : List Item) → count a (xs ++ ys) ≡ count a xs + count a ys
count-append a [] ys = omega arith
count-append a (x ∷ xs) ys = omega (arith, count-append a xs ys)

count-put_nowait :
    (a item : Item) (queue : List Item)
    → count a (put_nowait item queue) ≡ (if item_eq item a then 1 else 0) + count a queue
unfolding put_nowait
count-put_nowait a item [] = refl
count-put_nowait a item (x ∷ queue) = elim (Bool-cases (ltb item.block_index x.block_index)) [
  | inl e ↦ rw e refl
  | inr e ↦ rw e (omega (arith, count-put_nowait a item queue))
]

count-put_all :
    (a : Item) (items queue : List Item)
    → count a (put_all items queue) ≡ count a items + count a queue
unfolding put_all
count-put_all a [] queue = omega arith
count-put_all a (item ∷ items) queue =
    omega (arith, count-put_all a items (put_nowait item queue), count-put_nowait a item queue)

-- The items tried whose futures are done at the end.
pub finished : Seen → List Item → List Item
finished seen items = filter (λ item. seen.done_at_end item.future) items

count-split :
    (a : Item) (seen : Seen) (items : List Item)
    → count a (undone seen items) + count a (finished seen items) ≡ count a items
unfolding undone finished
count-split a seen [] = refl
count-split a seen (item ∷ items) = elim (Bool-cases (seen.done_at_end item.future)) [
  | inl e ↦ rw e (omega (arith, count-split a seen items))
  | inr e ↦ rw e (omega (arith, count-split a seen items))
]

asked_skip :
    (seen : Seen) (item : Item) (items : List Item)
    → seen.done_at_start item.future ≡ true
    → asked_for seen (item ∷ items) ≡ asked_for seen items
unfolding asked_for
asked_skip seen item items d = rw (asked_for, d) refl

asked_keep :
    (seen : Seen) (item : Item) (items : List Item)
    → seen.done_at_start item.future ≡ false
    → asked_for seen (item ∷ items) ≡ item ∷ asked_for seen items
unfolding asked_for
asked_keep seen item items d = rw (asked_for, d) refl

cons_nil : {x : Item} {xs : List Item} → x ∷ xs ≡ [] → ⊥
cons_nil e = cc

-- With nothing to ask for, all the items tried were done at the start.
nothing_asked :
    (seen : Seen) (items : List Item)
    → ((future : ℕ) → seen.done_at_start future ≡ true → seen.done_at_end future ≡ true)
    → asked_for seen items ≡ []
    → finished seen items ≡ items
unfolding finished
nothing_asked seen [] stay e = refl
nothing_asked seen (item ∷ items) stay e = elim (Bool-cases (seen.done_at_start item.future)) [
  | inl d ↦
      rw (finished, stay item.future d)
        (ap (λ t. item ∷ t)
          (nothing_asked seen items stay (sym (asked_skip seen item items d) ∙ e)))
  | inr d ↦ absurd (cons_nil (sym (asked_keep seen item items d) ∙ e))
]

module _ (last_block_index : ℕ) (l : Loop) where
  -- The inner loop moves each item of the queue to one of its lists or leaves it.
  count-pick :
      (a : Item) (queue : List Item)
      → 1 ≤ l.per_loop
      → count a (pick last_block_index l queue [] []).items_to_try
          + count a (pick last_block_index l queue [] []).items_to_not_try
          + count a (pick last_block_index l queue [] []).queue
        ≡ count a queue
  count-pick a queue h =
      pick-keeps last_block_index l (λ t n q. count a t + count a n + count a q ≡ count a queue)
        (λ item q t n e p. omega (arith, count-append a n (item ∷ []), p))
        (λ item q t n e r p. omega (arith, count-append a t (item ∷ []), p)) queue [] []
        (omega arith) (omega arith)

  count-end :
      (a : Item) (seen : Seen) (queue to_try asked : List Item)
      → (asked ≡ [] → finished seen to_try ≡ to_try)
      → count a (end_of_round seen l queue to_try asked).0 + count a (finished seen to_try)
        ≡ count a to_try + count a queue
  unfolding end_of_round
  count-end a seen queue to_try [] none_asked = omega (arith, ap (count a) (none_asked refl))
  count-end a seen queue to_try (item ∷ items) none_asked =
      omega (arith, count-put_all a (undone seen to_try) queue, count-split a seen to_try)

  -- A round on a queue without two items of the same block index, which the priority queue could not
  -- compare, loses no block and makes none: as bags, the queue before it is the queue after it with the
  -- items that it tried and whose futures are done at its end; and the queue after it has no two such
  -- items either. The loop count is positive, and a future that is done stays done.
  pub fetch_round-bag_of :
      (seen : Seen) (queue : List Item)
      → HasNoTies queue
      → 1 ≤ l.per_loop
      → ((future : ℕ) → seen.done_at_start future ≡ true → seen.done_at_end future ≡ true)
      → (bag_of queue
          ≡ bag_of (
              (fetch_round last_block_index seen (queue, l)).0
              ++ finished seen (pick last_block_index l queue [] []).items_to_try))
        × HasNoTies (fetch_round last_block_index seen (queue, l)).0
  unfolding fetch_round
  fetch_round-bag_of seen queue ties h stay =
      (same, round-HasNoTies last_block_index l h seen queue ties)
    where
      same :
          bag_of queue
          ≡ bag_of (
              (fetch_round last_block_index seen (queue, l)).0
              ++ finished seen (pick last_block_index l queue [] []).items_to_try)
      same =
          let p = pick last_block_index l queue [] [] in
          let queue1 = put_all p.items_to_not_try p.queue in
          let asked = asked_for seen p.items_to_try in
          Quot.sound λ a. omega (
            arith,
            count-pick a queue h,
            count-put_all a p.items_to_not_try p.queue,
            count-append a (end_of_round seen l queue1 p.items_to_try asked).0
                (finished seen p.items_to_try),
            count-end a seen queue1 p.items_to_try asked (nothing_asked seen p.items_to_try stay),
          )

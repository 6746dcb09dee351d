-- ===== src/Blockfetcher/OpenCount.antt =====
-- The items of a list that a peer may be asked for, counted.
use pycoinnet.Prelude.{
  ℕ, ◌+◌, ◌≤◌, ◌≡◌, refl, sym, ◌∙◌, arith, Bool, true, false, ◌||◌, ltb, Bool-cases, inl, inr,
  if◌then◌else◌, List, [], ◌∷◌, ◌++◌, All, All-map, ==_iff,
}
use pycoinnet.Inv.{inv_item_eq_iff}
use pycoinnet.Blockfetcher.{Item, item_eq, is_in, is_barred, put_nowait, put_all}

item_eq_self : (a : Item) → item_eq a a ≡ true
item_eq_self a = ground (
  arith,
  (==_iff a.block_index a.block_index).1 refl,
  (==_iff a.future a.future).1 refl,
  (inv_item_eq_iff a.inv_item a.inv_item).1 refl,
)

or_true : (a : Bool) {b : Bool} → b ≡ true → a || b ≡ true
or_true true e = refl
or_true false e = e

or_left : {a : Bool} (b : Bool) → a ≡ true → a || b ≡ true
or_left b e = rw e refl

is_in-append_right :
    (item : Item) (xs ys : List Item) → is_in item ys ≡ true → is_in item (xs ++ ys) ≡ true
unfolding is_in
is_in-append_right item [] ys h = h
is_in-append_right item (x ∷ xs) ys h = or_true (item_eq item x) (is_in-append_right item xs ys h)

module _ (last_block_index : ℕ) where
  -- How many items of a list the peer may be asked for.
  unfoldable pub open_count : List Item → List Item → ℕ
  open_count missing [] = 0
  open_count missing (item ∷ items) =
      (if is_barred last_block_index missing item then 0 else 1) + open_count missing items

  pub open_count-append :
      (m xs ys : List Item) → open_count m (xs ++ ys) ≡ open_count m xs + open_count m ys
  unfolding open_count
  open_count-append m [] ys = omega arith
  open_count-append m (x ∷ xs) ys = omega (arith, open_count-append m xs ys)

  open_count-put_nowait :
      (m queue : List Item) (item : Item)
      → open_count m (put_nowait item queue) ≡ open_count m (item ∷ queue)
  unfolding open_count put_nowait
  open_count-put_nowait m [] item = refl
  open_count-put_nowait m (x ∷ queue) item =
      elim (Bool-cases (ltb item.block_index x.block_index)) [
        | inl e ↦ rw (put_nowait, e) refl
        | inr e ↦ rw (put_nowait, e) (omega (arith, open_count-put_nowait m queue item))
      ]

  pub open_count-put_all :
      (m items queue : List Item)
      → open_count m (put_all items queue) ≡ open_count m items + open_count m queue
  unfolding open_count put_all
  open_count-put_all m [] queue = omega arith
  open_count-put_all m (item ∷ items) queue = omega (
    arith,
    open_count-put_all m items (put_nowait item queue),
    open_count-put_nowait m queue item,
  )

  -- More missing items leave fewer to ask for.
  barred_more :
      (u m : List Item) (item : Item)
      → is_barred last_block_index m item ≡ true
      → is_barred last_block_index (u ++ m) item ≡ true
  barred_more u m item e = elim (Bool-cases (is_in item m)) [
    | inl i ↦ or_left _ (is_in-append_right item u m i)
    | inr i ↦ or_true (is_in item (u ++ m)) (sym (rw i refl) ∙ e)
  ]

  pub open_count_mono : (u m items : List Item) → open_count (u ++ m) items ≤ open_count m items
  unfolding open_count
  open_count_mono u m [] = omega arith
  open_count_mono u m (item ∷ items) = elim (Bool-cases (is_barred last_block_index m item)) [
    | inl e ↦ rw (e, barred_more u m item e) (omega (arith, open_count_mono u m items))
    | inr e ↦ rw e (at_most (is_barred last_block_index (u ++ m) item) (open_count_mono u m items))
  ]
    where
      at_most : (b : Bool) {n k : ℕ} → n ≤ k → (if b then 0 else 1) + n ≤ 1 + k
      at_most b h = ground arith

  pub open_count_barred :
      (m items : List Item)
      → All (λ x. is_barred last_block_index m x ≡ true) items
      → open_count m items ≡ 0
  unfolding open_count
  open_count_barred m [] h = refl
  open_count_barred m (item ∷ items) h = rw (h.0) (omega (arith, open_count_barred m items h.1))

  pub open_skip :
      (m items : List Item) (item : Item)
      → is_barred last_block_index m item ≡ true
      → open_count m (item ∷ items) ≡ open_count m items
  unfolding open_count
  open_skip m items item e = rw (open_count, e) (omega arith)

  pub open_take :
      (m items : List Item) (item : Item)
      → is_barred last_block_index m item ≡ false
      → open_count m (item ∷ items) ≡ 1 + open_count m items
  unfolding open_count
  open_take m items item e = rw (open_count, e) refl

  All-self : (u m : List Item) → All (λ x. is_in x (u ++ m) ≡ true) u
  unfolding is_in
  All-self [] m = tt
  All-self (item ∷ u) m = (
    or_left _ (item_eq_self item),
    All-map _ _ (λ x e. or_true (item_eq x item) e) u (All-self u m),
  )

  pub open_count_missing : (u m : List Item) → open_count (u ++ m) u ≡ 0
  open_count_missing u m =
      open_count_barred (u ++ m) u (All-map _ _ (λ x e. or_left _ e) u (All-self u m))

  pub past_barred :
      (m items : List Item) (item : Item)
      → ltb last_block_index item.block_index ≡ true
      → All (λ x. item.block_index ≤ x.block_index) items
      → All (λ x. is_barred last_block_index m x ≡ true) items
  past_barred m items item e h = All-map _ _ (λ x k. or_true (is_in x m) (past e k)) items h
    where
      past : {a b : ℕ} → ltb last_block_index a ≡ true → a ≤ b → ltb last_block_index b ≡ true
      past e k = ground arith

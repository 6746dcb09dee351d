-- ===== src/Blockfetcher/Ties.antt =====
-- Items of the queue with the same block index: of two such items Python cannot say which is less, and
-- the priority queue raises TypeError when it compares them.
use pycoinnet.Prelude.{
  ℕ, ◌+◌, ◌≤◌, ◌≡◌, ◌==◌, refl, arith, Bool-cases, inl, inr, if◌then◌else◌, List, [], ◌∷◌, ◌++◌,
  ltb,
}
use pycoinnet.Blockfetcher.{
  Item, Loop, Seen, put_nowait, put_all, pick, undone, end_of_round, asked_for, fetch_round,
}
use pycoinnet.Blockfetcher.Picks.{pick-keeps}

-- How many items have a block index.
abbrev pub with_index : ℕ → List Item → ℕ
with_index n [] = 0
with_index n (x ∷ xs) = (if x.block_index == n then 1 else 0) + with_index n xs

-- No two items have the same block index.
abbrev pub HasNoTies : List Item → Type 0
HasNoTies queue = (n : ℕ) → with_index n queue ≤ 1

with_index-append :
    (n : ℕ) (xs ys : List Item) → with_index n (xs ++ ys) ≡ with_index n xs + with_index n ys
with_index-append n [] ys = omega arith
with_index-append n (x ∷ xs) ys = omega (arith, with_index-append n xs ys)

with_index-put_nowait :
    (n : ℕ) (item : Item) (queue : List Item)
    → with_index n (put_nowait item queue)
      ≡ (if item.block_index == n then 1 else 0) + with_index n queue
unfolding put_nowait
with_index-put_nowait n item [] = refl
with_index-put_nowait n item (x ∷ queue) = elim (Bool-cases (ltb item.block_index x.block_index)) [
  | inl e ↦ rw e refl
  | inr e ↦ rw e (omega (arith, with_index-put_nowait n item queue))
]

with_index-put_all :
    (n : ℕ) (items queue : List Item)
    → with_index n (put_all items queue) ≡ with_index n items + with_index n queue
unfolding put_all
with_index-put_all n [] queue = omega arith
with_index-put_all n (item ∷ items) queue =
    omega (
      arith,
      with_index-put_all n items (put_nowait item queue),
      with_index-put_nowait n item queue,
    )

with_index-undone :
    (n : ℕ) (seen : Seen) (items : List Item)
    → with_index n (undone seen items) ≤ with_index n items
unfolding undone
with_index-undone n seen [] = omega arith
with_index-undone n seen (item ∷ items) = elim (Bool-cases (seen.done_at_end item.future)) [
  | inl e ↦ rw e (omega (arith, with_index-undone n seen items))
  | inr e ↦ rw e (omega (arith, with_index-undone n seen items))
]

module _ (last_block_index : ℕ) (l : Loop) (positive : 1 ≤ l.per_loop) where
  with_index-pick :
      (n : ℕ) (queue : List Item)
      → with_index n (pick last_block_index l queue [] []).items_to_try
          + with_index n (pick last_block_index l queue [] []).items_to_not_try
          + with_index n (pick last_block_index l queue [] []).queue
        ≡ with_index n queue
  with_index-pick n queue =
      pick-keeps last_block_index l
        (λ t u q. with_index n t + with_index n u + with_index n q ≡ with_index n queue)
        (λ item q t u e p. omega (arith, with_index-append n u (item ∷ []), p))
        (λ item q t u e r p. omega (arith, with_index-append n t (item ∷ []), p)) queue [] []
        (omega arith) (omega arith)

  with_index-end :
      (n : ℕ) (seen : Seen) (queue to_try asked : List Item)
      → with_index n (end_of_round seen l queue to_try asked).0
        ≤ with_index n to_try + with_index n queue
  unfolding end_of_round
  with_index-end n seen queue to_try [] = omega arith
  with_index-end n seen queue to_try (item ∷ asked) =
      omega
        (arith, with_index-put_all n (undone seen to_try) queue, with_index-undone n seen to_try)

  -- Every put of a round is into a queue that has no item with the same block index, if the queue before
  -- it has no ties: what is put and what is there are at most what was there.
  pub round-HasNoTies :
      (seen : Seen) (queue : List Item)
      → HasNoTies queue
      → HasNoTies (fetch_round last_block_index seen (queue, l)).0
  unfolding fetch_round
  round-HasNoTies seen queue h n =
      let p = pick last_block_index l queue [] [] in
      omega (
        arith,
        h n,
        with_index-pick n queue,
        with_index-put_all n p.items_to_not_try p.queue,
        with_index-end n seen (put_all p.items_to_not_try p.queue) p.items_to_try
            (asked_for seen p.items_to_try),
      )

-- ===== src/Blockfetcher/Order.antt =====
-- The order of the queue of Blockfetcher.
use pycoinnet.Prelude.{
  ℕ, ◌≤◌, ◌≡◌, arith, true, false, ltb, Bool-cases, inl, inr, List, [], ◌∷◌, All, All-map,
}
use pycoinnet.Blockfetcher.{Item, put_nowait, put_all}

-- The queue has its least block index first.
unfoldable pub IsOrdered : List Item → Type 0
IsOrdered [] = Unit
IsOrdered (item ∷ queue) = All (λ x. item.block_index ≤ x.block_index) queue × IsOrdered queue

put_nowait-All :
    (P : Item → Type 0) (item : Item) (queue : List Item)
    → P item
    → All P queue
    → All P (put_nowait item queue)
unfolding put_nowait
put_nowait-All P item [] p h = (p, tt)
put_nowait-All P item (x ∷ queue) p h = elim (Bool-cases (ltb item.block_index x.block_index)) [
  | inl e ↦ rw (put_nowait, All, e) (p, h)
  | inr e ↦ rw (put_nowait, All, e) (h.0, put_nowait-All P item queue p h.1)
]

put_nowait-IsOrdered :
    (item : Item) (queue : List Item) → IsOrdered queue → IsOrdered (put_nowait item queue)
unfolding put_nowait IsOrdered
put_nowait-IsOrdered item [] h = (tt, tt)
put_nowait-IsOrdered item (x ∷ queue) h = elim (Bool-cases (ltb item.block_index x.block_index)) [
  | inl e ↦ rw (put_nowait, IsOrdered, e) ((less e, All-map _ _ (λ y k. leq e k) queue (h.0)), h)
  | inr e ↦
      rw (put_nowait, IsOrdered, e)
        (
          put_nowait-All (λ y. x.block_index ≤ y.block_index) item queue (not_less e) (h.0),
          put_nowait-IsOrdered item queue h.1,
        )
]
  where
    less : {a b : ℕ} → ltb a b ≡ true → a ≤ b
    less e = ground arith

    leq : {a b c : ℕ} → ltb a b ≡ true → b ≤ c → a ≤ c
    leq e k = ground arith

    not_less : {a b : ℕ} → ltb a b ≡ false → b ≤ a
    not_less e = ground arith

pub put_all-IsOrdered :
    (items queue : List Item) → IsOrdered queue → IsOrdered (put_all items queue)
unfolding put_all
put_all-IsOrdered [] queue h = h
put_all-IsOrdered (item ∷ items) queue h =
    put_all-IsOrdered items (put_nowait item queue) (put_nowait-IsOrdered item queue h)

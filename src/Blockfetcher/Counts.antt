-- ===== src/Blockfetcher/Counts.antt =====
-- The loop count.
use pycoinnet.Prelude.{
  ℕ, suc, zero, ◌≤◌, leb, leb→le, ◌&&◌, ◌≡◌, refl, sym, arith, Bool, true, List, [], ◌∷◌, length,
  length-append,
}
use mathlib.Core.Path.{subst}
use native.Mathlib.Decide.{ℕ_discrete}
use pycoinnet.Blockfetcher.Picks.{pick-keeps}
use pycoinnet.Blockfetcher.{
  Item, Loop, Seen, grown, adapt, pick, fetch_round, new_loop, asked_for, end_of_round,
}

grows_below : ℕ → Bool
grows_below zero = true
grows_below (suc n) = leb (suc n) (grown (suc n)) && grows_below n

checked : grows_below 1000 ≡ true
unfolding grows_below grown
checked = refl

below : (n p : ℕ) → grows_below n ≡ true → 1 ≤ p → p ≤ n → p ≤ grown p
unfolding grows_below
below zero p h k l = absurd (omega arith)
below (suc n) p h k l = elim (ℕ_discrete p (suc n)) [
  | yes e ↦ subst (λ m. m ≤ grown m) (sym e) (leb→le (suc n) (grown (suc n)) (ground arith))
  | no ne ↦ below n p (ground arith) k (omega arith)
]

-- What holds of the loop count: it is 1 at least and 1000 at most.
unfoldable pub InBounds : ℕ → Type 0
InBounds per_loop = (1 ≤ per_loop) × (per_loop ≤ 1000)

adapt-InBounds :
    (seen : Seen) (tried per_loop : ℕ) → InBounds per_loop → InBounds (adapt seen tried per_loop)
unfolding adapt InBounds
adapt-InBounds seen tried per_loop (low, high) =
    let grows = below 1000 per_loop checked low high in ground arith

end-InBounds :
    (seen : Seen) (l : Loop) (queue to_try asked : List Item)
    → InBounds l.per_loop
    → InBounds ((end_of_round seen l queue to_try asked).1).per_loop
unfolding end_of_round
end-InBounds seen l queue to_try [] h = h
end-InBounds seen l queue to_try (item ∷ items) h = adapt-InBounds seen (length to_try) l.per_loop h

-- The variables of the loop of a peer after some rounds, over whatever queues it found.
pub data IsReached (last_block_index : ℕ) : Loop → Type 0 where
  at_start : IsReached last_block_index new_loop
  after_round :
      {l : Loop} (seen : Seen) (queue : List Item)
      → IsReached last_block_index l
      → IsReached last_block_index (fetch_round last_block_index seen (queue, l)).1

module _ (last_block_index : ℕ) where
  pub round-InBounds :
      (seen : Seen) (queue : List Item) (l : Loop)
      → InBounds l.per_loop
      → InBounds ((fetch_round last_block_index seen (queue, l)).1).per_loop
  unfolding fetch_round
  round-InBounds seen queue l h =
      let tried = (pick last_block_index l queue [] []).items_to_try in
      end-InBounds seen l _ tried (asked_for seen tried) h

  IsReached-InBounds : (l : Loop) → IsReached last_block_index l → InBounds l.per_loop
  unfolding InBounds
  IsReached-InBounds l at_start = (omega arith, omega arith)
  IsReached-InBounds l (after_round {l = k} seen queue r) =
      round-InBounds seen queue k (IsReached-InBounds k r)

  -- The loop collects no more items than the count says, and those it had.
  length-pick :
      (l : Loop) (queue : List Item)
      → 1 ≤ l.per_loop
      → length (pick last_block_index l queue [] []).items_to_try ≤ l.per_loop
  length-pick l queue h =
      pick-keeps last_block_index l (λ t n q. length t ≤ l.per_loop) (λ item q t n e p. p)
        (λ item q t n e r p. omega (arith, length-append t (item ∷ []))) queue [] [] (omega arith)
        (omega arith)

  length-asked_for :
      (seen : Seen) (items : List Item) → length (asked_for seen items) ≤ length items
  unfolding asked_for
  length-asked_for seen [] = omega arith
  length-asked_for seen (item ∷ items) = ground (arith, length-asked_for seen items)

  -- The loop count of a peer stays between 1 and 1000, and no round asks the peer for more blocks than
  -- the count.
  pub asked_for-InBounds :
      (l : Loop) (seen : Seen) (queue : List Item)
      → IsReached last_block_index l
      → (1 ≤ l.per_loop)
        × (l.per_loop ≤ 1000)
        × (length (asked_for seen (pick last_block_index l queue [] []).items_to_try) ≤ l.per_loop)
  unfolding InBounds
  asked_for-InBounds l seen queue r =
      let (low, high) = IsReached-InBounds l r in
      let tried = (pick last_block_index l queue [] []).items_to_try in
      (low, high, omega (arith, length-asked_for seen tried, length-pick l queue low))

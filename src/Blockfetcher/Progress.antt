-- ===== src/Blockfetcher/Progress.antt =====
-- Rounds of a peer of Blockfetcher, one after the other.
use mathlib.Core.Path.{subst}
use native.Mathlib.Decide.{dec_lt}
use pycoinnet.Prelude.{
  ℕ, ◌+◌, ◌-◌, ◌≤◌, ◌≡◌, sym, ◌∙◌, arith, true, ltb, Bool-cases, inl, inr, List, [], ◌∷◌, ◌++◌,
  length, length-append, In,
}
use pycoinnet.Blockfetcher.{
  Item, Loop, Seen, is_barred, put_all, pick, undone, end_of_round, asked_for, fetch_round,
}
use pycoinnet.Blockfetcher.Picks.{pick-keeps, stops, pick_barred, pick_open_last, pick_open}
use pycoinnet.Blockfetcher.Counts.{InBounds, round-InBounds}
use pycoinnet.Blockfetcher.Ties.{HasNoTies, round-HasNoTies}
use pycoinnet.Blockfetcher.Order.{IsOrdered, put_all-IsOrdered}
use pycoinnet.Blockfetcher.OpenCount.{
  open_count, open_count-append, open_count-put_all, open_count_mono, open_count_barred, open_skip,
  open_take, open_count_missing, past_barred,
}

module _ (last_block_index : ℕ) where
  module _ (l : Loop) (positive : 1 ≤ l.per_loop) where
    -- A queue with an item to ask for gives one.
    pick_some :
        (queue n : List Item)
        → IsOrdered queue
        → 1 ≤ open_count last_block_index l.missing queue
        → 1 ≤ length (pick last_block_index l queue [] n).items_to_try
    unfolding IsOrdered open_count
    pick_some [] n o h = absurd (omega arith)
    pick_some (item ∷ queue) n o h = elim (Bool-cases (is_barred last_block_index l.missing item)) [
      | inl e ↦ elim (Bool-cases (stops last_block_index l [] item)) [
        | inl s ↦ absurd (none_left e s)
        | inr s ↦
            subst (λ p. 1 ≤ length p.items_to_try)
              (sym (pick_barred last_block_index l item queue [] n e s))
              (pick_some queue (n ++ item ∷ []) o.1 (still_some e))
      ]
      | inr e ↦ elim (Bool-cases (stops last_block_index l (item ∷ []) item)) [
        | inl s ↦
            subst (λ p. 1 ≤ length p.items_to_try)
              (sym (pick_open_last last_block_index l item queue [] n e s)) (omega arith)
        | inr s ↦
            subst (λ p. 1 ≤ length p.items_to_try)
              (sym (pick_open last_block_index l item queue [] n e s))
              (pick-keeps last_block_index l (λ t n q. 1 ≤ length t) (λ item q t n e p. p)
                (λ item q t n e r p. omega (arith, length-append t (item ∷ []))) queue (item ∷ []) n
                (ground arith) (omega arith))
      ]
    ]
      where
        is_past :
            stops last_block_index l [] item ≡ true → ltb last_block_index item.block_index ≡ true
        is_past s = ground arith

        still_some :
            is_barred last_block_index l.missing item ≡ true
            → 1 ≤ open_count last_block_index l.missing queue
        still_some e = omega (arith, open_skip last_block_index l.missing queue item e)

        none_left :
            is_barred last_block_index l.missing item ≡ true
            → stops last_block_index l [] item ≡ true
            → ⊥
        none_left e s = omega (
          arith,
          open_skip last_block_index l.missing queue item e,
          open_count_barred last_block_index l.missing queue
              (past_barred last_block_index l.missing queue item (is_past s) o.0),
        )

    count-pick :
        (queue : List Item)
        → length (pick last_block_index l queue [] []).items_to_try
            + open_count last_block_index l.missing
                (pick last_block_index l queue [] []).items_to_not_try
            + open_count last_block_index l.missing (pick last_block_index l queue [] []).queue
          ≡ open_count last_block_index l.missing queue
    unfolding open_count
    count-pick queue =
        pick-keeps last_block_index l
          (λ t n q.
            length t
              + open_count last_block_index l.missing n
              + open_count last_block_index l.missing q
            ≡ open_count last_block_index l.missing queue)
          (λ item q t n e p. omega (
            arith,
            open_count-append last_block_index l.missing n (item ∷ []),
            open_skip last_block_index l.missing q item e,
            open_skip last_block_index l.missing [] item e,
            p,
          ))
          (λ item q t n e r p.
            omega (
              arith,
              length-append t (item ∷ []),
              open_take last_block_index l.missing q item e,
              p,
            ))
          queue [] [] (omega arith) (omega arith)

    queue-IsOrdered :
        (queue : List Item)
        → IsOrdered queue
        → IsOrdered (pick last_block_index l queue [] []).queue
    unfolding IsOrdered
    queue-IsOrdered queue o =
        pick-keeps last_block_index l (λ t n q. IsOrdered q) (λ item q t n e p. p.1)
          (λ item q t n e r p. p.1) queue [] [] (omega arith) o

    end_count :
        (seen : Seen) (queue to_try asked : List Item)
        → open_count last_block_index
            ((end_of_round seen l queue to_try asked).1).missing
            (end_of_round seen l queue to_try asked).0
          ≤ open_count last_block_index l.missing queue
    unfolding end_of_round
    end_count seen queue to_try [] = omega arith
    end_count seen queue to_try (item ∷ asked) = omega (
      arith,
      open_count-put_all last_block_index (undone seen to_try ++ l.missing) (undone seen to_try)
          queue,
      open_count_missing last_block_index (undone seen to_try) l.missing,
      open_count_mono last_block_index (undone seen to_try) l.missing queue,
    )

    -- A round takes one of the items to ask for out of the queue, if there is one.
    round_count :
        (seen : Seen) (queue : List Item)
        → IsOrdered queue
        → open_count last_block_index
            ((fetch_round last_block_index seen (queue, l)).1).missing
            (fetch_round last_block_index seen (queue, l)).0
          ≤ open_count last_block_index l.missing queue - 1
    unfolding fetch_round
    round_count seen queue o =
        let p = pick last_block_index l queue [] [] in
        let queue1 = put_all p.items_to_not_try p.queue in
        elim (dec_lt 0 (open_count last_block_index l.missing queue)) [
          | yes h ↦ omega (
            arith,
            end_count seen queue1 p.items_to_try (asked_for seen p.items_to_try),
            open_count-put_all last_block_index l.missing p.items_to_not_try p.queue,
            count-pick queue,
            pick_some queue [] o (omega arith),
          )
          | no h ↦ omega (
            arith,
            end_count seen queue1 p.items_to_try (asked_for seen p.items_to_try),
            open_count-put_all last_block_index l.missing p.items_to_not_try p.queue,
            count-pick queue,
          )
        ]

    end-IsOrdered :
        (seen : Seen) (queue to_try asked : List Item)
        → IsOrdered queue
        → IsOrdered (end_of_round seen l queue to_try asked).0
    unfolding end_of_round
    end-IsOrdered seen queue to_try [] o = o
    end-IsOrdered seen queue to_try (item ∷ asked) o =
        put_all-IsOrdered (undone seen to_try) queue o

    round-IsOrdered :
        (seen : Seen) (queue : List Item)
        → IsOrdered queue
        → IsOrdered (fetch_round last_block_index seen (queue, l)).0
    unfolding fetch_round
    round-IsOrdered seen queue o =
        let p = pick last_block_index l queue [] [] in
        end-IsOrdered seen _ p.items_to_try (asked_for seen p.items_to_try)
          (put_all-IsOrdered p.items_to_not_try p.queue (queue-IsOrdered queue o))

  -- Rounds one after the other.
  unfoldable pub fetch_rounds : List Seen → List Item × Loop → List Item × Loop
  fetch_rounds [] state = state
  fetch_rounds (seen ∷ more) state = fetch_rounds more (fetch_round last_block_index seen state)

  rounds_count :
      (rounds : List Seen) (queue : List Item) (l : Loop)
      → InBounds l.per_loop
      → IsOrdered queue
      → open_count last_block_index l.missing queue ≤ length rounds
      → open_count last_block_index
          ((fetch_rounds rounds (queue, l)).1).missing
          (fetch_rounds rounds (queue, l)).0
        ≡ 0
  unfolding fetch_rounds InBounds
  rounds_count [] queue l b o h = omega arith
  rounds_count (seen ∷ more) queue l b o h =
      let (queue1, l1) = fetch_round last_block_index seen (queue, l) in
      rounds_count more queue1 l1 (round-InBounds last_block_index seen queue l b)
        (round-IsOrdered l (b.0) seen queue o) (omega (arith, round_count l (b.0) seen queue o))

  count_zero :
      (m items : List Item) (item : Item)
      → open_count last_block_index m items ≡ 0
      → In item items
      → is_barred last_block_index m item ≡ true
  unfolding open_count
  count_zero m [] item e i = elim i [ ]
  count_zero m (x ∷ items) item e i = elim (Bool-cases (is_barred last_block_index m x)) [
    | inl b ↦ elim i [
      | inl same ↦ subst (λ y. is_barred last_block_index m y ≡ true) (sym same) b
      | inr j ↦ count_zero m items item (sym (open_skip last_block_index m items x b) ∙ e) j
    ]
    | inr b ↦ absurd (omega (arith, open_take last_block_index m items x b, e))
  ]

  rounds-HasNoTies :
      (rounds : List Seen) (queue : List Item) (l : Loop)
      → InBounds l.per_loop
      → HasNoTies queue
      → HasNoTies (fetch_rounds rounds (queue, l)).0
  unfolding fetch_rounds InBounds
  rounds-HasNoTies [] queue l b h = h
  rounds-HasNoTies (seen ∷ more) queue l b h =
      let (queue1, l1) = fetch_round last_block_index seen (queue, l) in
      rounds-HasNoTies more queue1 l1 (round-InBounds last_block_index seen queue l b)
        (round-HasNoTies last_block_index l (b.0) seen queue h)

  -- From an ordered queue without two items of the same block index, which the priority queue could not
  -- compare, after as many rounds of a peer as the queue has blocks that it may be asked for, with a loop
  -- count within its bounds, each block left in the queue is one that the peer failed to give, or does
  -- not have by its last block index; and no two items left have the same block index.
  pub fetch_rounds_exhaust :
      (rounds : List Seen) (queue : List Item) (l : Loop)
      → InBounds l.per_loop
      → IsOrdered queue
      → HasNoTies queue
      → open_count last_block_index l.missing queue ≤ length rounds
      → (item : Item) → In item (fetch_rounds rounds (queue, l)).0
      → (is_barred last_block_index ((fetch_rounds rounds (queue, l)).1).missing item ≡ true)
        × HasNoTies (fetch_rounds rounds (queue, l)).0
  fetch_rounds_exhaust rounds queue l b o ties h item i = (
    count_zero _ _ item (rounds_count rounds queue l b o h) i,
    rounds-HasNoTies rounds queue l b ties,
  )

-- ===== src/Blockfetcher.antt =====
-- pycoinnet/peergroup/Blockfetcher.py: the queue of blocks to fetch and a round of the loop of a peer
-- over it. A future is a number, and which futures are done is told for each time that the loop asks.
-- The model is faithful for a queue without ties, HasNoTies of Blockfetcher/Ties: Python cannot say
-- which of two items with the same block index is less, and the priority queue raises TypeError when it
-- compares them.
mod Tests
pub mod Picks
pub mod Counts
pub mod Order
pub mod OpenCount
pub mod Progress
pub mod Asked
pub mod Ties
pub mod Conserved
use pycoinnet.Prelude.{
  ℕ, suc, zero, ◌+◌, ◌*◌, ◌/◌, ◌%◌, ◌^◌, ltb, leb, ◌==◌, if◌then◌else◌, ◌&&◌, ◌||◌, Bool, true,
  false, not, List, [], ◌∷◌, ◌++◌, map, length, filter, Bytes,
}
use Prim.Native.Nat.{min}
use pycoinnet.Inv.{InvItem, item_of, inv_item_eq, item_type_block, item_type_merkleblock}

-- The tuple `(block_index, inv_item, future)`.
pub record Item : Type 0 where
  pub block_index : ℕ
  pub inv_item : InvItem
  pub future : ℕ

-- `__eq__` of the tuples
abbrev pub item_eq : Item → Item → Bool
item_eq a b =
    (a.block_index == b.block_index) && inv_item_eq a.inv_item b.inv_item && (a.future == b.future)

-- The priority queue has its items in the order in which they come out.
unfoldable pub put_nowait : Item → List Item → List Item
put_nowait item [] = item ∷ []
put_nowait item (x ∷ queue) =
    let rest = put_nowait item queue in
    if ltb item.block_index x.block_index then item ∷ x ∷ queue else x ∷ rest

unfoldable pub put_all : List Item → List Item → List Item
unfolding put_nowait
put_all [] queue = queue
put_all (item ∷ items) queue = put_all items (put_nowait item queue)

-- The future is the given new one.
unfoldable pub get_block_future : Bytes → ℕ → ℕ → List Item → List Item
unfolding put_nowait
get_block_future block_hash block_index future queue =
    put_nowait
      (record {
        block_index = block_index;
        inv_item = item_of item_type_block block_hash;
        future = future;
      })
      queue

unfoldable pub get_merkle_block_future : Bytes → ℕ → ℕ → List Item → List Item
unfolding put_nowait
get_merkle_block_future block_hash block_index future queue =
    put_nowait
      (record {
        block_index = block_index;
        inv_item = item_of item_type_merkleblock block_hash;
        future = future;
      })
      queue

-- `item in items`
unfoldable pub is_in : Item → List Item → Bool
is_in item [] = false
is_in item (x ∷ items) = item_eq item x || is_in item items

-- Doubles, as multiples of one power of two: the distance of the doubles next to such a number, and
-- the one nearest to it, the even one of two.
unfoldable ulp : ℕ → ℕ → ℕ → ℕ
ulp zero unit n = unit
ulp (suc fuel) unit n = if ltb n (unit * 2 ^ 53) then unit else ulp fuel (2 * unit) n

unfoldable nearest : ℕ → ℕ → ℕ
nearest n unit =
    let down = n / unit * unit in
    let rest = 2 * (n % unit) in
    if ltb rest unit || (rest == unit && (n / unit % 2 == 0)) then down else down + unit

unfoldable round_double : ℕ → ℕ
unfolding ulp nearest
round_double n = nearest n (ulp 16 1 n)

-- `int(0.8 + 1.4 * per_loop)`: the constants are the doubles 0.8 and 1.4, times 2 ** 53 and 2 ** 52.
unfoldable pub grown : ℕ → ℕ
unfolding round_double
grown per_loop =
    round_double (2 * round_double (6305039478318694 * per_loop) + 7205759403792794) / 2 ^ 53

-- `int(per_loop * 0.5 + 1)`
abbrev pub shrunk : ℕ → ℕ
shrunk per_loop = per_loop / 2 + 1

-- The variables of the loop of a peer.
pub record Loop : Type 0 where
  pub missing : List Item
  pub per_loop : ℕ

abbrev pub new_loop : Loop
new_loop = record { missing = []; per_loop = 1 }

-- What the first inner loop collects, and the queue that it leaves.
pub record Picked : Type 0 where
  pub items_to_try : List Item
  pub items_to_not_try : List Item
  pub queue : List Item

-- What a round sees: which futures are done at its start and at its end, whether a fetch is still
-- pending at the timeout, and whether the fetches took less than a third of it.
pub record Seen : Type 0 where
  pub done_at_start : ℕ → Bool
  pub done_at_end : ℕ → Bool
  pub is_pending : Bool
  pub is_fast : Bool

-- The loop count after the wait.
unfoldable pub adapt : Seen → ℕ → ℕ → ℕ
adapt seen tried per_loop =
    if seen.is_pending
    then shrunk per_loop
    else if seen.is_fast && leb per_loop tried
    then min 1000 (grown per_loop)
    else per_loop

-- The items that the fetcher is asked for.
unfoldable pub asked_for : Seen → List Item → List Item
asked_for seen items = filter (λ item. not (seen.done_at_start item.future)) items

-- `not item[-1].done()`
unfoldable pub undone : Seen → List Item → List Item
undone seen items = filter (λ item. not (seen.done_at_end item.future)) items

-- The rest of a round, by the items that the fetcher is asked for: with none the loop sleeps and goes
-- on, and else it waits and puts back the items that are not done.
unfoldable pub end_of_round : Seen → Loop → List Item → List Item → List Item → List Item × Loop
unfolding adapt undone put_all
end_of_round seen l queue to_try [] = (queue, l)
end_of_round seen l queue to_try (item ∷ items) = (
  put_all (undone seen to_try) queue,
  record {
    missing = undone seen to_try ++ l.missing;
    per_loop = adapt seen (length to_try) l.per_loop;
  },
)

module _ (last_block_index : ℕ) where
  -- `item in missing or item[0] > last_block_index`
  abbrev pub is_barred : List Item → Item → Bool
  is_barred missing item = is_in item missing || ltb last_block_index item.block_index

  -- The inner loop, on a queue that is not empty; at an empty one the source waits for an item.
  unfoldable pub pick : Loop → List Item → List Item → List Item → Picked
  pick l [] to_try to_not_try = record {
    items_to_try = to_try;
    items_to_not_try = to_not_try;
    queue = [];
  }
  pick l (item ∷ queue) to_try to_not_try =
      let barred = is_barred l.missing item in
      let to_try1 = if barred then to_try else to_try ++ item ∷ [] in
      let to_not_try1 = if barred then to_not_try ++ item ∷ [] else to_not_try in
      let go_on = pick l queue to_try1 to_not_try1 in
      if leb l.per_loop (length to_try1) || ltb last_block_index item.block_index
      then record { items_to_try = to_try1; items_to_not_try = to_not_try1; queue = queue }
      else go_on

  -- A round of the outer loop: the queue and the variables after it.
  unfoldable pub fetch_round : Seen → List Item × Loop → List Item × Loop
  unfolding pick end_of_round asked_for
  fetch_round seen (queue, l) =
      let picked = pick l queue [] [] in
      end_of_round seen l (put_all picked.items_to_not_try picked.queue) picked.items_to_try
        (asked_for seen picked.items_to_try)

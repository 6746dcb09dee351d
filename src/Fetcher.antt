-- ===== src/Fetcher.antt =====
-- pycoinnet/peer/Fetcher.py. A future is a number, and `outcomes` has the result of each future that
-- is done; a cancelled one is done with `none`. The loop over messages is run on the messages that
-- arrive until the end of the connection.
mod Tests
pub mod Batches
pub mod Answers
pub mod Missing
pub mod Loop
pub mod Total
use pycoinnet.Prelude.{
  ℕ, zero, suc, ◌+◌, ◌==◌, leb, ◌||◌, if◌then◌else◌, true, false, Option, none, some, List, [], ◌∷◌,
  ◌++◌, length, Bytes, bytes_eq, nat_eq, Result, ok, err, ◌>>=◌, out_of_fuel, key_error,
  invalid_state, attribute_error,
}
use pycoinnet.Dict.{Dict, lookup, put, remove}
use pycoinnet.Inv.{
  InvItem, item_of, item_type_tx, item_type_block, item_type_merkleblock, inv_item_key,
}

-- A transaction, a block or a block header, with its hash.
pub record Blob : Type 0 where
  pub hash : Bytes
  pub body : Bytes

-- What a future may be given. The header of a merkleblock has the transactions as `txs`.
pub data Item : Type 0 where
  tx_item : Blob → Item
  block_item : Blob → Item
  merkleblock_item : Blob → List Blob → Item

pub data Message : Type 0 where
  tx : Blob → Message
  block : Blob → Message
  merkleblock : Blob → List Bytes → Message
  notfound : List InvItem → Message

pub record FetcherState : Type 0 where
  pub request_q : List InvItem
  pub futures : Dict InvItem ℕ
  pub outcomes : Dict ℕ (Option Item)
  pub next_future : ℕ

abbrev pub new_fetcher : FetcherState
new_fetcher = record { request_q = []; futures = []; outcomes = []; next_future = 0 }

-- `fetch` up to the wait: the future that it waits for.
unfoldable pub fetch : InvItem → FetcherState → ℕ × FetcherState
fetch inv_item s = elim (lookup inv_item s.futures) [
  | some future ↦ (future, s)
  | none ↦ (
    s.next_future,
    record {
      request_q = s.request_q ++ inv_item ∷ [];
      futures = put inv_item s.next_future s.futures;
      outcomes = s.outcomes;
      next_future = s.next_future + 1;
    },
  )
]

-- A wait that times out cancels its future.
unfoldable pub time_out : ℕ → FetcherState → FetcherState
time_out future s = elim (lookup future s.outcomes) [
  | none ↦ record s { outcomes = put future none s.outcomes }
  | some _ ↦ s
]

-- An entry of the weak dictionary goes when nobody waits for its future any more.
unfoldable pub forget : InvItem → FetcherState → FetcherState
forget inv_item s = record s { futures = remove inv_item s.futures }

-- One round of `_getdata_loop`, on what the queue holds at its start: the items to ask for, and
-- what is left. The queue is not empty, since the round waits for its first item.
unfoldable pub take_batch : List InvItem → List InvItem → List InvItem × List InvItem
take_batch so_far [] = (so_far, [])
take_batch so_far (inv_item ∷ []) = (so_far ++ inv_item ∷ [], [])
take_batch so_far (inv_item ∷ next ∷ q) =
    let more = so_far ++ inv_item ∷ [] in
    let rest = take_batch more (next ∷ q) in
    if leb 50000 (length more) then (more, next ∷ q) else rest

-- The getdata messages of the rounds that empty the queue, on fuel.
unfoldable pub getdata_loop : ℕ → List InvItem → Result (List (List InvItem))
unfolding take_batch
getdata_loop zero q = err out_of_fuel
getdata_loop (suc f) [] = ok []
getdata_loop (suc f) (inv_item ∷ q) = do
  let batch = take_batch [] (inv_item ∷ q)
  more ← getdata_loop f batch.1
  ok (batch.0 ∷ more)

-- `future.set_result(r)`
unfoldable pub set_result : ℕ → Option Item → FetcherState → Result FetcherState
set_result future r s = elim (lookup future s.outcomes) [
  | none ↦ ok (record s { outcomes = put future r s.outcomes })
  | some _ ↦ err invalid_state
]

-- `del self.futures[inv_item]`
unfoldable pub del_future : InvItem → FetcherState → Result FetcherState
del_future inv_item s = elim (lookup inv_item s.futures) [
  | none ↦ err key_error
  | some _ ↦ ok (record s { futures = remove inv_item s.futures })
]

-- `if not future.done():`
unfoldable pub set_if_pending : ℕ → Item → FetcherState → Result FetcherState
unfolding set_result
set_if_pending future item s = elim (lookup future s.outcomes) [
  | none ↦ set_result future (some item) s
  | some _ ↦ ok s
]

-- `if future is not None:` and what follows it.
unfoldable pub resolve : InvItem → Option ℕ → Item → FetcherState → Result FetcherState
unfolding set_if_pending del_future
resolve inv_item none item s = ok s
resolve inv_item (some future) item s = do s1 ← del_future inv_item s; set_if_pending future item s1

-- The transactions that follow a merkleblock.
pub data Collected : Type 0 where
  complete : List Blob → List Message → Collected
  missing : List Blob → Message → List Message → Collected
  ended : Collected

unfoldable pub collect_txs : List Bytes → List Message → List Blob → Collected
collect_txs [] ms txs = complete txs ms
collect_txs (h ∷ hs) [] txs = ended
collect_txs (h ∷ hs) (tx t ∷ ms) txs =
    let rest = collect_txs hs ms (txs ++ t ∷ []) in
    if bytes_eq t.hash h then rest else missing txs (tx t) ms
collect_txs (h ∷ hs) (m ∷ ms) txs = missing txs m ms

-- An item of a notfound message.
unfoldable pub not_found : InvItem → FetcherState → Result FetcherState
unfolding set_result del_future
not_found inv_item s = elim (lookup inv_item s.futures) [
  | none ↦ ok s
  | some future ↦ (do s1 ← del_future inv_item s; set_result future none s1)
]

unfoldable pub on_notfound : List InvItem → FetcherState → Result FetcherState
unfolding not_found
on_notfound [] s = ok s
on_notfound (inv_item ∷ items) s = do s1 ← not_found inv_item s; on_notfound items s1

-- `if name == "notfound":` on the last message read.
unfoldable pub after_break : Message → FetcherState → Result FetcherState
after_break (notfound items) s = on_notfound items s
after_break (tx t) s = ok s
after_break (block b) s = ok s
after_break (merkleblock header tx_hashes) s = ok s

-- The branch that logs missing transactions, and what the code does behind the `break`.
unfoldable pub give_up : InvItem → Option ℕ → Item → Message → FetcherState → Result FetcherState
unfolding resolve after_break
give_up inv_item future item last_message s = do
  s1 ← del_future inv_item s
  s2 ← elim future [ none ↦ err attribute_error | some id ↦ set_result id none s1 ]
  s3 ← resolve inv_item future item s2
  after_break last_message s3

-- `_fetch_loop`, on fuel, until the messages end.
unfoldable pub fetch_loop : ℕ → List Message → FetcherState → Result FetcherState
unfolding resolve on_notfound give_up
fetch_loop zero ms s = err out_of_fuel
fetch_loop (suc f) [] s = ok s
fetch_loop (suc f) (tx t ∷ ms) s = do
  let inv_item = item_of item_type_tx t.hash
  s1 ← resolve inv_item (lookup inv_item s.futures) (tx_item t) s
  fetch_loop f ms s1
fetch_loop (suc f) (block b ∷ ms) s = do
  let inv_item = item_of item_type_block b.hash
  s1 ← resolve inv_item (lookup inv_item s.futures) (block_item b) s
  fetch_loop f ms s1
fetch_loop (suc f) (merkleblock header tx_hashes ∷ ms) s =
    let inv_item = item_of item_type_merkleblock header.hash in
    let future = lookup inv_item s.futures in
    elim (collect_txs tx_hashes ms []) [
      | ended ↦ ok s
      | complete txs rest ↦ (do
        s1 ← resolve inv_item future (merkleblock_item header txs) s
        fetch_loop f rest s1)
      | missing txs last_message rest ↦ (do
        s1 ← give_up inv_item future (merkleblock_item header txs) last_message s
        fetch_loop f rest s1)
    ]
fetch_loop (suc f) (notfound items ∷ ms) s = do s1 ← on_notfound items s; fetch_loop f ms s1

unfoldable pub run_fetch_loop : List Message → FetcherState → Result FetcherState
unfolding fetch_loop collect_txs
run_fetch_loop ms s = fetch_loop (suc (length ms)) ms s

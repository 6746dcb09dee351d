-- ===== src/Handlers.antt =====
-- pycoinnet/peergroup/BlockHandler.py and TxHandler.py: the answers to the messages of a peer, and
-- the items added to a store. What is sent to the peer is the list of messages that a handler gives.
mod Tests
pub mod Getdata
pub mod Headers
pub mod Additions
pub mod Watch
use Prim.Native.Nat.{min}
use pycoinnet.Prelude.{
  ℕ, zero, suc, ◌+◌, ◌==◌, if◌then◌else◌, Option, none, some, List, [], ◌∷◌, ◌++◌, map, length,
  Bool, true, false, Bytes, bytes_eq, replicate, bytes_key, Error, attribute_error,
}
use pycoinnet.Dict.{Dict, lookup, put}
use pycoinnet.Inv.{InvItem, item_of, item_type_tx, item_type_block}
use pycoinnet.Collector.{InvCollector, advertise_item}

-- The messages that the handlers send, with an object of the store as the payload.
pub data Reply (Object Header : Type 0) : Type 0 where
  notfound : List InvItem → Reply Object Header
  object : Object → Reply Object Header
  headers_reply : List Header → Reply Object Header
  inv : List InvItem → Reply Object Header

pub data Request : Type 0 where
  getblocks : Request
  getheaders : Bytes → Request
  getdata : List InvItem → Request

module _ {Object : Type 0} where
  -- The loop over the items of a getdata message: what is not found, and what is.
  unfoldable pub sort_items : ℕ → Dict Bytes Object → List InvItem → List InvItem × List Object
  sort_items item_type store [] = ([], [])
  sort_items item_type store (inv_item ∷ items) =
      let (not_found, found) = sort_items item_type store items in
      if inv_item.item_type == item_type
      then elim (lookup inv_item.the_data store) [
        | none ↦ (inv_item ∷ not_found, found)
        | some item ↦ (not_found, item ∷ found)
      ]
      else (not_found, found)

module _ {Object Header : Type 0} where
  -- The messages of a getdata answer.
  unfoldable pub answer_getdata : ℕ → Dict Bytes Object → List InvItem → List (Reply Object Header)
  unfolding sort_items
  answer_getdata item_type store items =
      let (not_found, found) = sort_items item_type store items in
      if length not_found == 0 then map object found else notfound not_found ∷ map object found

-- The loop of `_prep_headers`. `hash_for_index` is the block chain's, and `header_for_block` cuts a
-- block to its header.
module _ {Block Header : Type 0} (hash_for_index : ℕ → Option Bytes)
    (header_for_block : Block → Header) where
  unfoldable pub headers_from : ℕ → ℕ → Dict Bytes Block → List Header
  headers_from zero i block_store = []
  headers_from (suc left) i block_store =
      let rest = headers_from left (i + 1) block_store in
      elim (hash_for_index i) [
        | none ↦ []
        | some h ↦ elim (lookup h block_store) [
          | none ↦ []
          | some block ↦ header_for_block block ∷ rest
        ]
      ]

  unfoldable pub prep_headers : ℕ → Bytes → Dict Bytes Block → List Header
  unfolding headers_from
  prep_headers chain_length hash_stop block_store =
      if bytes_eq hash_stop (replicate 32 0)
      then headers_from (min 2000 chain_length) 0 block_store
      else []

  -- `_run_handle_get` on one message.
  unfoldable pub handle_get : ℕ → Dict Bytes Block → Request → List (Reply Block Header)
  unfolding prep_headers answer_getdata
  handle_get chain_length block_store getblocks = []
  handle_get chain_length block_store (getheaders hash_stop) =
      let headers = prep_headers chain_length hash_stop block_store in
      if length headers == 0 then [] else headers_reply headers ∷ []
  handle_get chain_length block_store (getdata items) =
      answer_getdata item_type_block block_store items

module _ {Tx : Type 0} (hash : Tx → Bytes) where
  -- `_run_getdata` on one message.
  unfoldable pub run_getdata : Dict Bytes Tx → List InvItem → List (Reply Tx (Unit {0}))
  unfolding answer_getdata
  run_getdata tx_store items = answer_getdata item_type_tx tx_store items

  -- `_run_mempool`
  unfoldable pub run_mempool : Dict Bytes Tx → List (Reply Tx (Unit {0}))
  run_mempool tx_store =
      let inv_items = map (λ e. item_of item_type_tx (hash e.1)) tx_store in
      if length inv_items == 0 then [] else inv inv_items ∷ []

  unfoldable pub add_tx : Tx → Dict Bytes Tx × InvCollector → Dict Bytes Tx × InvCollector
  add_tx tx (tx_store, c) = elim (lookup (hash tx) tx_store) [
    | some _ ↦ (tx_store, c)
    | none ↦ (put (hash tx) tx tx_store, advertise_item (item_of item_type_tx (hash tx)) c)
  ]

module _ {Block : Type 0} (hash : Block → Bytes) where
  unfoldable pub add_block :
      Block → Dict Bytes Block × InvCollector → Dict Bytes Block × InvCollector
  add_block block (block_store, c) = elim (lookup (hash block) block_store) [
    | some _ ↦ (block_store, c)
    | none ↦ (
      put (hash block) block block_store,
      advertise_item (item_of item_type_block (hash block)) c,
    )
  ]

-- `_watch_invcollector` of the blocks and `_run` of the transactions, on what comes out of the queue of
-- new items: the items that `fetch_validate_store_item_async` is called for, and the exception that
-- ends the task, if one does. The end of a peer puts None into the queue.
unfoldable pub watch_items : ℕ → List (Option InvItem) → List InvItem × Option Error
watch_items item_type [] = ([], none)
watch_items item_type (none ∷ q) = ([], some attribute_error)
watch_items item_type (some inv_item ∷ q) =
    let (items, error) = watch_items item_type q in
    if inv_item.item_type == item_type then (inv_item ∷ items, error) else (items, error)

-- ===== src/Collector.antt =====
-- pycoinnet/peergroup/InvCollector.py. A peer is a number, and so is a
-- time; a queue is the list of its items. A peer is added once.
mod Tests
pub mod News
pub mod Advertise
pub mod Waiting
pub mod Awaited
use pycoinnet.Prelude.{
  ℕ, ltb, if◌then◌else◌, Option, none, some, List, [], ◌∷◌, ◌++◌, map, Bool, true, false, not,
  Bytes, bytes_key, nat_eq, filter, Result, ok, err, ◌>>=◌, key_error,
}
use pycoinnet.Dict.{Dict, lookup, put, remove}
use pycoinnet.Inv.{InvItem}

-- `advertise_queues` has the queue of each peer beside the peer.
pub record InvCollector : Type 0 where
  pub inv_item_db : Dict Bytes (Dict ℕ ℕ)
  pub fetchers_by_peer : Dict ℕ (Unit {0})
  pub advertise_queues : Dict ℕ (List InvItem)
  pub inv_item_queues : List (List (Option InvItem))
  pub inv_item_peers_q : Dict Bytes (List ℕ)

abbrev pub new_collector : InvCollector
new_collector = record {
  inv_item_db = [];
  fetchers_by_peer = [];
  advertise_queues = [];
  inv_item_queues = [];
  inv_item_peers_q = [];
}

unfoldable pub add_peer : ℕ → InvCollector → InvCollector
add_peer peer c = record c {
  fetchers_by_peer = put peer tt c.fetchers_by_peer;
  advertise_queues = put peer [] c.advertise_queues;
}

unfoldable pub new_inv_item_queue : InvCollector → InvCollector
new_inv_item_queue c = record c { inv_item_queues = c.inv_item_queues ++ [] ∷ [] }

abbrev pub put_all : Option InvItem → List (List (Option InvItem)) → List (List (Option InvItem))
put_all x qs = map (λ q. q ++ x ∷ []) qs

-- `if the_hash not in self.inv_item_db:`
unfoldable pub note_new : InvItem → InvCollector → InvCollector
note_new inv_item c = elim (lookup inv_item.the_data c.inv_item_db) [
  | some peers ↦ c
  | none ↦ record c {
    inv_item_db = put inv_item.the_data [] c.inv_item_db;
    inv_item_queues = put_all (some inv_item) c.inv_item_queues;
  }
]

-- `self.inv_item_db[the_hash][peer] = time.time()`
unfoldable pub note_peer : Bytes → ℕ → ℕ → InvCollector → Result InvCollector
note_peer the_hash peer now c = elim (lookup the_hash c.inv_item_db) [
  | none ↦ err key_error
  | some peers ↦ ok (record c { inv_item_db = put the_hash (put peer now peers) c.inv_item_db })
]

-- `if the_hash in self.inv_item_peers_q:`
unfoldable pub offer_peer : Bytes → ℕ → InvCollector → InvCollector
offer_peer the_hash peer c = elim (lookup the_hash c.inv_item_peers_q) [
  | none ↦ c
  | some q ↦ record c { inv_item_peers_q = put the_hash (q ++ peer ∷ []) c.inv_item_peers_q }
]

unfoldable pub register_inv_item : InvItem → ℕ → ℕ → InvCollector → Result InvCollector
unfolding note_new note_peer offer_peer
register_inv_item inv_item peer now c = do
  c1 ← note_peer inv_item.the_data peer now (note_new inv_item c)
  ok (offer_peer inv_item.the_data peer c1)

unfoldable pub unregister_inv_item : InvItem → ℕ → InvCollector → Result InvCollector
unregister_inv_item inv_item peer c = elim (lookup inv_item.the_data c.inv_item_db) [
  | none ↦ ok c
  | some peers ↦ elim (lookup peer peers) [
    | none ↦ err key_error
    | some _ ↦
        ok (record c { inv_item_db = put inv_item.the_data (remove peer peers) c.inv_item_db })
  ]
]

-- The items of an inv message.
unfoldable pub on_inv : List InvItem → ℕ → ℕ → InvCollector → Result InvCollector
unfolding register_inv_item
on_inv [] peer now c = ok c
on_inv (inv_item ∷ items) peer now c = do
  c1 ← register_inv_item inv_item peer now c
  on_inv items peer now c1

-- The items of a notfound message.
unfoldable pub on_notfound : List InvItem → ℕ → InvCollector → Result InvCollector
unfolding unregister_inv_item
on_notfound [] peer c = ok c
on_notfound (inv_item ∷ items) peer c = do
  c1 ← unregister_inv_item inv_item peer c
  on_notfound items peer c1

-- The end of a peer's stream. The queue of the cancelled task leaves the weak set.
unfoldable pub on_end : ℕ → InvCollector → Result InvCollector
on_end peer c = elim (lookup peer c.fetchers_by_peer) [
  | none ↦ err key_error
  | some _ ↦ ok (record c {
    fetchers_by_peer = remove peer c.fetchers_by_peer;
    advertise_queues = remove peer c.advertise_queues;
    inv_item_queues = put_all none c.inv_item_queues;
  })
]

unfoldable pub advertise_item : InvItem → InvCollector → InvCollector
advertise_item inv_item c = record c {
  advertise_queues = map (λ e. (e.0, e.1 ++ inv_item ∷ [])) c.advertise_queues;
}

-- `peer not in self.inv_item_db.get(inv_item.data, [])`
unfoldable pub is_news_to : ℕ → InvCollector → InvItem → Bool
is_news_to peer c inv_item = elim (lookup inv_item.the_data c.inv_item_db) [
  | none ↦ true
  | some peers ↦ elim (lookup peer peers) [ none ↦ true | some _ ↦ false ]
]

-- A round of `_advertise_to_peer` on the items that wait in its queue: those of the inv message,
-- which is sent if there are any.
unfoldable pub advertise_round : ℕ → InvCollector → List InvItem × InvCollector
unfolding is_news_to
advertise_round peer c = elim (lookup peer c.advertise_queues) [
  | none ↦ ([], c)
  | some q ↦
      (filter (is_news_to peer c) q, record c { advertise_queues = put peer [] c.advertise_queues })
]

-- A place in a list sorted by time, behind those of the same time.
unfoldable pub insert_by_time : ℕ × ℕ → List (ℕ × ℕ) → List (ℕ × ℕ)
insert_by_time x [] = x ∷ []
insert_by_time x (y ∷ ys) =
    let rest = insert_by_time x ys in if ltb x.1 y.1 then x ∷ y ∷ ys else y ∷ rest

-- `sorted(items, key=lambda pair: pair[-1])`, which is stable: the items go in one after the other.
unfoldable pub sorted_by_time : List (ℕ × ℕ) → List (ℕ × ℕ) → List (ℕ × ℕ)
unfolding insert_by_time
sorted_by_time [] acc = acc
sorted_by_time (x ∷ xs) acc = sorted_by_time xs (insert_by_time x acc)

-- The start of `fetch`: the peers to ask, in order, offered to `_register_inv_item` as well.
unfoldable pub start_fetch : InvItem → InvCollector → Result (List ℕ × InvCollector)
unfolding sorted_by_time
start_fetch inv_item c = elim (lookup inv_item.the_data c.inv_item_db) [
  | none ↦ err key_error
  | some peers ↦
      (let q = map (λ e. e.0) (sorted_by_time peers []) in
        ok (q, record c { inv_item_peers_q = put inv_item.the_data q c.inv_item_peers_q }))
]

module _ {Object : Type 0} (hash : Object → Bytes) (validator_f : Object → Bool) where
  -- `fetch_validate_store_item_async`, with the result of `self.fetch` if it is called.
  unfoldable pub fetch_validate_store :
      InvItem → Option Object → Dict Bytes Object × InvCollector → Dict Bytes Object × InvCollector
  unfolding advertise_item
  fetch_validate_store inv_item fetched (item_store, c) =
      elim (lookup inv_item.the_data item_store) [
        | some _ ↦ (item_store, c)
        | none ↦ elim fetched [
          | none ↦ (item_store, c)
          | some item ↦
              if validator_f item
              then (put (hash item) item item_store, advertise_item inv_item c)
              else (item_store, c)
        ]
      ]

-- ===== src/Handlers/Tests.antt =====
-- The theorems on the handlers at sample inputs, after tests/peergroup/test_BlockHandler.py.
use pycoinnet.Handlers.{watch_items}
use pycoinnet.Handlers.Watch.{announced, watch_items-on_end}
use pycoinnet.Collector.{InvCollector, add_peer, on_end}
use pycoinnet.Prelude.{
  ok, ◌++◌, get_elem?, attribute_error, nat_eq, ℕ, ◌≡◌, ◌⊎◌, refl, inl, Option, none, some, List,
  [], ◌∷◌, In, Bytes, bytes_eq, compare_bytes, bytes_key, replicate,
}
use pycoinnet.Dict.{remove, Dict, lookup, put}
use pycoinnet.Inv.{InvItem, item_of}
use pycoinnet.Collector.{new_collector}
use pycoinnet.Handlers.{
  notfound, object, sort_items, answer_getdata, prep_headers, add_block, add_tx,
}
use pycoinnet.Handlers.Getdata.{answer_getdata_lem}

program : Unit {0}
unfolding lookup put bytes_eq compare_bytes sort_items answer_getdata prep_headers add_block add_tx
program = tt

-- A block is its number, and its hash and header hold that number.
abbrev hash : ℕ → Bytes
hash n = n ∷ []

abbrev store : Dict Bytes ℕ
store = (hash 0, 0) ∷ (hash 1, 1) ∷ (hash 3, 3) ∷ []

abbrev hash_for_index : ℕ → Option Bytes
hash_for_index i = some (hash i)

two_headers : prep_headers hash_for_index hash 9 (replicate 32 0) store ≡ hash 0 ∷ hash 1 ∷ []
unfolding program
two_headers = refl

answer :
    answer_getdata {Header = Bytes} 2 store
      (item_of 2 (hash 1) ∷ item_of 1 (hash 3) ∷ item_of 2 (hash 7) ∷ [])
    ≡ notfound (item_of 2 (hash 7) ∷ []) ∷ object 1 ∷ []
unfolding program
answer = refl

answer_getdata_lem_example :
    ((o : ℕ) × (lookup (hash 7) store ≡ some o)
      × In (object o) (answer_getdata {Header = Bytes} 2 store (item_of 2 (hash 7) ∷ [])))
    ⊎ ((lookup (hash 7) store ≡ none)
        × (ns : List InvItem) × In
            (notfound ns)
            (answer_getdata {Header = Bytes} 2 store (item_of 2 (hash 7) ∷ []))
        × In (item_of 2 (hash 7)) ns)
answer_getdata_lem_example =
    answer_getdata_lem Bytes 2 store (item_of 2 (hash 7) ∷ []) (item_of 2 (hash 7)) (inl refl) refl

-- A queue with a block and a transaction, and a peer that goes.
abbrev watched : InvCollector
watched = record (add_peer 1 new_collector) {
  inv_item_queues = (some (item_of 2 (hash 1)) ∷ some (item_of 1 (hash 2)) ∷ []) ∷ [];
}

abbrev after_end : InvCollector
after_end = record (add_peer 1 new_collector) {
  fetchers_by_peer = [];
  advertise_queues = [];
  inv_item_queues = (some (item_of 2 (hash 1)) ∷ some (item_of 1 (hash 2)) ∷ none ∷ []) ∷ [];
}

ended : on_end 1 watched ≡ ok after_end
unfolding on_end lookup add_peer put remove
ended = refl

abbrev with_none : List (Option InvItem)
with_none = some (item_of 2 (hash 1)) ∷ some (item_of 1 (hash 2)) ∷ none ∷ []

watch_items-on_end_example :
    (before : List (Option InvItem)) × (get_elem? watched.inv_item_queues 0 ≡ some before)
    × ((later : List (Option InvItem))
        → watch_items 2 (with_none ++ later) ≡ (announced 2 before, some attribute_error))
watch_items-on_end_example = watch_items-on_end 1 2 0 watched after_end with_none ended refl

one_block : watch_items 2 with_none ≡ (item_of 2 (hash 1) ∷ [], some attribute_error)
unfolding watch_items
one_block = refl

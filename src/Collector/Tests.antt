-- ===== src/Collector/Tests.antt =====
-- The theorems on the collector at sample inputs, after tests/peergroup/test_InvCollector.py.
use pycoinnet.Collector.Waiting.{
  Given, requested, answered, Waiting, going, returned, unbound_timer, new_waiting, ask_next,
  fetch_turn,
}
use pycoinnet.Collector.Awaited.{Outcome, fetch_turn-Outcome}
use pycoinnet.Prelude.{
  Bool, none, ℕ, ◌≡◌, refl, some, [], ◌∷◌, ◌++◌, map, filter, bytes_eq, compare_bytes, bytes_key,
  nat_eq, ok, err, key_error,
}
use pycoinnet.Dict.{Dict, lookup, put, remove}
use pycoinnet.Inv.{InvItem, item_of}
use pycoinnet.Collector.{
  InvCollector, new_collector, add_peer, new_inv_item_queue, register_inv_item, unregister_inv_item,
  on_inv, on_notfound, on_end, advertise_item, is_news_to, advertise_round, sorted_by_time,
  start_fetch,
}
use pycoinnet.Collector.News.{is_known, news, on_inv_lem}
use pycoinnet.Collector.Advertise.{TellsNews, advertise_round-advertise_item}

program : Unit {0}
unfolding lookup put remove bytes_eq compare_bytes add_peer new_inv_item_queue register_inv_item
    unregister_inv_item on_inv on_notfound on_end advertise_item is_news_to advertise_round
    start_fetch
program = tt

abbrev item : ℕ → InvItem
item n = item_of 1 (n ∷ [])

-- Two peers, where the first one has announced an item.
abbrev noted : InvCollector
noted = record {
  inv_item_db = (7 ∷ [], (1, 100) ∷ []) ∷ [];
  fetchers_by_peer = (1, tt) ∷ (2, tt) ∷ [];
  advertise_queues = (1, []) ∷ (2, []) ∷ [];
  inv_item_queues = (some (item 7) ∷ []) ∷ [];
  inv_item_peers_q = [];
}

announced :
    on_inv (item 7 ∷ []) 1 100 (new_inv_item_queue (add_peer 2 (add_peer 1 new_collector)))
    ≡ ok noted
unfolding program
announced = refl

told : (advertise_round 2 (advertise_item (item 7) noted)).0 ≡ item 7 ∷ []
unfolding program
told = refl

not_told : (advertise_round 1 (advertise_item (item 7) noted)).0 ≡ []
unfolding program
not_told = refl

-- A peer that says it has not an item which it never announced.
never_announced : on_notfound (item 7 ∷ []) 2 noted ≡ err key_error
unfolding program
never_announced = refl

oldest_first :
    sorted_by_time ((1, 30) ∷ (2, 10) ∷ (3, 20) ∷ (4, 10) ∷ []) []
    ≡ (2, 10) ∷ (4, 10) ∷ (3, 20) ∷ (1, 30) ∷ []
unfolding sorted_by_time
oldest_first = refl

on_inv_lem_example :
    (c' : InvCollector) × (on_inv (item 7 ∷ item 8 ∷ item 8 ∷ []) 2 101 noted ≡ ok c')
    × (c'.inv_item_queues
        ≡ map
            (λ q. q ++ map some (news (is_known noted) (item 7 ∷ item 8 ∷ item 8 ∷ [])))
            noted.inv_item_queues)
on_inv_lem_example = on_inv_lem (item 7 ∷ item 8 ∷ item 8 ∷ []) 2 101 noted

waits : lookup 2 noted.advertise_queues ≡ some []
unfolding program
waits = refl

advertise_round-advertise_item_example :
    (p : InvItem → Bool) × TellsNews 2 noted p
    × ((advertise_round 2 (advertise_item (item 7) noted)).0 ≡ filter p (item 7 ∷ []))
advertise_round-advertise_item_example = advertise_round-advertise_item 2 (item 7) noted [] waits

-- Task 1 is the fetcher of the first peer, and task 2 the timer.
abbrev one_asked : Waiting
one_asked = record { most_recent_fetcher = some 1; timer_future = some 2; pending_fetchers = [] }

abbrev object_found : Dict ℕ (Given ℕ)
object_found = (1, answered (some 50)) ∷ []

fetch_turn-Outcome_example :
    Outcome object_found
      (ask_next (some (1, 2)) new_waiting)
      (fetch_turn (some (1, 2)) object_found 3 new_waiting)
fetch_turn-Outcome_example = fetch_turn-Outcome (some (1, 2)) object_found 3 new_waiting

returned_object :
    fetch_turn (some (1, 2)) object_found 3 new_waiting ≡ returned (answered (some 50))
unfolding fetch_turn lookup
returned_object = refl

-- The timer is done as well, and the object is left.
left_object :
    fetch_turn {Object = ℕ} none ((1, answered (some 50)) ∷ (2, requested 4) ∷ []) 5 one_asked
    ≡ going (record { most_recent_fetcher = some 4; timer_future = some 5; pending_fetchers = [] })
unfolding fetch_turn lookup
left_object = refl

-- A timer that was replaced is still waited for, and its task is returned as if it were the object.
returned_task :
    fetch_turn {Object = ℕ}
      (some (7, 8))
      ((2, requested 4) ∷ [])
      9
      (record { most_recent_fetcher = none; timer_future = some 6; pending_fetchers = 2 ∷ [] })
    ≡ returned (requested 4)
unfolding fetch_turn lookup
returned_task = refl

no_peer : fetch_turn {Object = ℕ} none [] 3 new_waiting ≡ unbound_timer
unfolding fetch_turn
no_peer = refl

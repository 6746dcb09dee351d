-- ===== src/Bootstrap/Tests.antt =====
-- The theorem of Bootstrap/Gathered on a run of two tasks, and small runs.
use pycoinnet.Prelude.{
  bytes_eq, ℕ, ◌+◌, ◌≡◌, refl, Option, none, some, List, [], ◌∷◌, codes, ℤ, negsuc,
}
use pycoinnet.Bootstrap.{
  HostPort, bootstrap_superpeer_addresses, Event, put, get, finish, new_crowd, run_events,
}
use pycoinnet.Bootstrap.Gathered.{weight, answers, superpeers, run_events_lem}

abbrev seed_a : HostPort
seed_a = (codes "10.0.0.1", 8333)

abbrev seed_b : HostPort
seed_b = (codes "10.0.0.2", 8333)

-- The second name cannot be resolved; the first gives a superpeer twice.
abbrev names : List (Option (List HostPort))
names = some (seed_a ∷ seed_b ∷ seed_a ∷ []) ∷ none ∷ []

abbrev talk : HostPort → List (ℕ × ℕ)
talk pair = (9, 4) ∷ (7, 5) ∷ []

-- The second superpeer is done first.
abbrev events : List Event
events = put ∷ get ∷ put ∷ put ∷ get ∷ finish 0 ∷ finish 0 ∷ get ∷ get ∷ []

put_into_queue : bootstrap_superpeer_addresses names ≡ some seed_a ∷ some seed_b ∷ none ∷ []
unfolding bootstrap_superpeer_addresses bytes_eq
put_into_queue = refl

run_events_lem_example :
    ((f : ℤ × ℕ → ℕ)
      → weight f (run_events talk events (new_crowd 2 names)).found
        ≡ weight f (answers talk (superpeers names)))
    × ((run_events talk events (new_crowd 2 names)).stopped ≡ 1)
    × ((run_events talk events (new_crowd 2 names)).waiting + 1 ≡ 2)
unfolding run_events bootstrap_superpeer_addresses bytes_eq
run_events_lem_example = run_events_lem talk events 2 names refl refl refl

found_tuples :
    (run_events talk events (new_crowd 2 names)).found
    ≡ (negsuc 8, 4) ∷ (negsuc 6, 5) ∷ (negsuc 8, 4) ∷ (negsuc 6, 5) ∷ []
unfolding run_events bootstrap_superpeer_addresses bytes_eq
found_tuples = refl

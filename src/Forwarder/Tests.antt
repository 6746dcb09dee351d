-- ===== src/Forwarder/Tests.antt =====
-- The theorem of Forwarder/Kept and runs on a small chain, whose state is the number of its blocks: the
-- third brings an operation, and with two of them a parent is missing.
use pycoinnet.Prelude.{
  ℕ, ◌+◌, ◌≡◌, refl, ◌==◌, if◌then◌else◌, none, some, [], ◌∷◌, length, ok, err, out_of_fuel,
}
use pycoinnet.Inv.{item_of, item_type_block}
use pycoinnet.Forwarder.{Chain, Entry, fetch_missing, run_ff, add_peer}

abbrev three : Chain ℕ ℕ ℕ
three = record {
  chain_length = λ s. s;
  missing_parents = λ s. if s == 2 then (5 ∷ []) ∷ [] else [];
  add_headers = λ blocks s. (if s + length blocks == 3 then 7 ∷ [] else [], s + length blocks);
}

abbrev peer_4 : Entry
peer_4 = record { peer = 4; lbi = 9 }

-- The missing parent brings an operation.
kept_peer : run_ff three 2 peer_4 (some (1 ∷ [])) (some 8 ∷ []) 1 ≡ ok (some peer_4, 3)
unfolding run_ff
kept_peer = refl

asked_for_parent :
    (fetch_missing three (some 8 ∷ []) 2).asked ≡ item_of item_type_block (5 ∷ []) ∷ []
unfolding fetch_missing
asked_for_parent = refl

dropped_peer : run_ff three 2 peer_4 (some (1 ∷ [])) (none ∷ []) 1 ≡ ok (none, 2)
unfolding run_ff
dropped_peer = refl

-- Headers that are not new, and no parent is missing.
spinning_peer : run_ff three 100 peer_4 (some (1 ∷ [])) [] 3 ≡ err out_of_fuel
unfolding run_ff
spinning_peer = refl

two_peers : add_peer 4 9 (add_peer 3 8 []) ≡ record { peer = 3; lbi = 8 } ∷ peer_4 ∷ []
two_peers = refl

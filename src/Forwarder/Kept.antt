-- ===== src/Forwarder/Kept.antt =====
-- What becomes of a peer that comes out of the queue of _run_ff.
use pycoinnet.Prelude.{
  ℕ, ◌<◌, ◌≤◌, ◌≡◌, Option, none, some, List, [], ◌∷◌, length, Result, ok, err, out_of_fuel,
}
use pycoinnet.Forwarder.{Chain, Entry, run_ff}
use pycoinnet.Forwarder.Replies.{Idle, Gained}

module _ {Block Op State : Type 0} (blockchain : Chain Block Op State) where
  pub data Outcome (entry : Entry) (replies : List (Option Block)) (s : State)
      : Option (List Block) → Result (Option Entry × State) → Type 0 where
    behind :
        (answer : Option (List Block))
        → entry.lbi ≤ blockchain.chain_length s
        → Outcome entry replies s answer (ok (none, s))
    unanswered : Outcome entry replies s none (ok (none, s))
    extended :
        (headers : List Block) (op : Op) (more : List Op) (s1 : State)
        → blockchain.add_headers headers s ≡ (op ∷ more, s1)
        → Outcome entry replies s (some headers) (ok (some entry, s1))
    fetched :
        (headers : List Block) (op : Op) (more : List Op) (s1 s2 : State)
        → blockchain.add_headers headers s ≡ ([], s1)
        → Gained blockchain replies s1 (op ∷ more, s2)
        → Outcome entry replies s (some headers) (ok (some entry, s2))
    useless :
        (headers : List Block) (s1 s2 : State)
        → blockchain.add_headers headers s ≡ ([], s1)
        → Gained blockchain replies s1 ([], s2)
        → Outcome entry replies s (some headers) (ok (none, s2))
    spinning :
        (headers : List Block) (rs : List (Option Block)) (s1 s2 : State)
        → blockchain.add_headers headers s ≡ ([], s1)
        → Idle blockchain replies s1 rs s2
        → blockchain.missing_parents s2 ≡ []
        → Outcome entry replies s (some headers) (err out_of_fuel)

  module _ (entry : Entry) (replies : List (Option Block)) (s : State) (f : ℕ)
      (enough : length replies < f) where
    run_with : Option (List Block) → Result (Option Entry × State)
    run_with answer = run_ff blockchain f entry answer replies s

-- ===== src/Fetcher/Tests.antt =====
-- The theorems on the fetcher at sample inputs, after tests/peer/test_Fetcher.py.
use pycoinnet.Prelude.{
  ℕ, ◌≡◌, ◌⊎◌, refl, none, some, List, [], ◌∷◌, bytes_eq, compare_bytes, nat_eq, ok, err, key_error,
  invalid_state,
}
use pycoinnet.Dict.{lookup, put, remove}
use pycoinnet.Inv.{InvItem, item_of, inv_item_key}
use pycoinnet.Fetcher.{
  Blob, tx_item, Message, tx, block, merkleblock, notfound, missing, collect_txs, FetcherState,
  new_fetcher, fetch, take_batch, getdata_loop, set_result, del_future, resolve, not_found,
  on_notfound, fetch_loop, run_fetch_loop,
}
use pycoinnet.Fetcher.Answers.{Evolves}
use pycoinnet.Fetcher.Missing.{run_fetch_loop_missing}
use pycoinnet.Fetcher.Loop.{Came, run_fetch_loop-Evolves}
use pycoinnet.Fetcher.Total.{Ends, run_fetch_loop_total}

program : Unit {0}
unfolding lookup put remove bytes_eq compare_bytes fetch take_batch getdata_loop collect_txs
    set_result del_future resolve not_found on_notfound fetch_loop run_fetch_loop
program = tt

abbrev blob : ℕ → Blob
blob n = record { hash = n ∷ []; body = 0 ∷ n ∷ [] }

abbrev wanted : InvItem
wanted = item_of 1 (7 ∷ [])

abbrev other : InvItem
other = item_of 2 (8 ∷ [])

-- Two requests.
abbrev waiting : FetcherState
waiting = record {
  request_q = wanted ∷ other ∷ [];
  futures = (wanted, 0) ∷ (other, 1) ∷ [];
  outcomes = [];
  next_future = 2;
}

two_fetches : (fetch other (fetch wanted new_fetcher).1).1 ≡ waiting
unfolding program
two_fetches = refl

abbrev messages : List Message
messages = tx (blob 7) ∷ tx (blob 9) ∷ notfound (other ∷ []) ∷ []

abbrev answered : FetcherState
answered = record waiting { futures = []; outcomes = (0, some (tx_item (blob 7))) ∷ (1, none) ∷ [] }

run : run_fetch_loop messages waiting ≡ ok answered
unfolding program
run = refl

run_fetch_loop-Evolves_example : Evolves (Came messages) waiting answered
run_fetch_loop-Evolves_example = run_fetch_loop-Evolves messages waiting run

run_fetch_loop_total_example : Ends (run_fetch_loop messages waiting)
run_fetch_loop_total_example = run_fetch_loop_total messages waiting

no_second_tx :
    collect_txs ((5 ∷ []) ∷ (6 ∷ []) ∷ []) (tx (blob 5) ∷ block (blob 8) ∷ []) []
    ≡ missing (blob 5 ∷ []) (block (blob 8)) []
unfolding program
no_second_tx = refl

run_fetch_loop_missing_example :
    (run_fetch_loop
        (merkleblock (blob 3) ((5 ∷ []) ∷ (6 ∷ []) ∷ []) ∷ tx (blob 5) ∷ block (blob 8) ∷ [])
        waiting
      ≡ err key_error)
    ⊎ (run_fetch_loop
          (merkleblock (blob 3) ((5 ∷ []) ∷ (6 ∷ []) ∷ []) ∷ tx (blob 5) ∷ block (blob 8) ∷ [])
          waiting
        ≡ err invalid_state)
run_fetch_loop_missing_example =
    run_fetch_loop_missing (blob 3) (blob 5 ∷ []) (6 ∷ []) [] (block (blob 8)) [] waiting
      (λ t e. absurd (cc e))

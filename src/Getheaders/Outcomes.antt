-- ===== src/Getheaders/Outcomes.antt =====
-- An iteration of pycoinnet/peergroup/getheaders.py on an answer with headers.
use pycoinnet.Prelude.{
  Error, ◌≢◌, ◌-◌, ◌≡◌, ◌⊎◌, true, Option, some, List, [], ◌∷◌, length, Bytes, item_at, Result, ok,
  err, value_error, index_error, ℤ, In,
}
use pycoinnet.Chain.{
  View, Header, hash_initial_block, last_block_tuple, block_locator_hashes, do_headers_improve_path,
}
use pycoinnet.Chain.Index.{IsConsistent}
use pycoinnet.Chain.Reorg.{AreFresh}
use pycoinnet.Getheaders.Tips.{NonNegative}
use pycoinnet.Getheaders.{headers_answer, Iteration, Ff, is_ahead, number_of, run_ff}

-- Between two iterations no headers are left over.
abbrev pub ready : View → Ff
ready v = record { view = v; reorg_headers = [] }

module _ (fetch_missing : Header → Result Header) (lbi : ℤ) (v : View) where
  -- What becomes of the headers of an answer. If the locator ends with the initial hash, the peer leaves
  -- the genesis block out, and the parent of its first header is fetched, or the fetch raises.
  pub data Completed (locator : List Bytes) : List Header → Result (List Header) → Type 0 where
    as_it_is :
        (oldest : Bytes) (headers : List Header)
        → item_at locator (length locator - 1) ≡ ok oldest
        → oldest ≢ hash_initial_block
        → Completed locator headers (ok headers)
    no_first :
        item_at locator (length locator - 1) ≡ ok hash_initial_block
        → Completed locator [] (err index_error)
    with_extra :
        (first extra : Header) (more : List Header)
        → item_at locator (length locator - 1) ≡ ok hash_initial_block
        → fetch_missing first ≡ ok extra
        → Completed locator (first ∷ more) (ok (extra ∷ first ∷ more))
    not_fetched :
        (first : Header) (more : List Header) (raised : Error)
        → item_at locator (length locator - 1) ≡ ok hash_initial_block
        → fetch_missing first ≡ err raised
        → Completed locator (first ∷ more) (err raised)

  -- The peer is ahead, and is asked for the headers behind the blocks of a locator.
  pub record IsAsked (headers : List Header) (completed : Result (List Header)) : Type 0 where
    pub locator : List Bytes
    pub ahead : is_ahead lbi v ≡ true
    pub located : block_locator_hashes v ≡ ok locator
    pub completes : Completed locator headers completed

  abbrev run_on : List Header → Result Iteration
  run_on headers = run_ff fetch_missing lbi (headers_answer headers) (ready v)

  -- The loop goes on, with the callback called.
  pub record GoesOn (headers all : List Header) : Type 0 where
    pub number : Option ℤ
    pub improved : View
    pub thinned : View
    pub improves : do_headers_improve_path all v ≡ ok (number, improved)
    pub runs :
        run_ff fetch_missing lbi (headers_answer headers) (ready v)
        ≡ ok (record {
          state = ready thinned;
          is_put_back = true;
          callback = some (number_of number, all);
        })
    pub consistent : IsConsistent thinned
    pub non_negative : NonNegative thinned
    pub tip :
        ((improved.node_tuples ≡ []) × (thinned.node_tuples ≡ []))
        ⊎ In (last_block_tuple improved) thinned.node_tuples

  abbrev pub AfterHeaders : List Header → Result (List Header) → Type 0
  AfterHeaders headers (err raised) =
      run_ff fetch_missing lbi (headers_answer headers) (ready v) ≡ err raised
  AfterHeaders headers (ok []) =
      run_ff fetch_missing lbi (headers_answer headers) (ready v) ≡ err index_error
  AfterHeaders headers (ok (h ∷ hs)) =
      (run_ff fetch_missing lbi (headers_answer headers) (ready v) ≡ err value_error)
      ⊎ GoesOn headers (h ∷ hs)

  -- The hashes of the headers that there are in the end are new.
  abbrev pub AreNew : Result (List Header) → Type 0
  AreNew (err raised) = Unit
  AreNew (ok all) = AreFresh v.node_tuples all

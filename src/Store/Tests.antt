-- ===== src/Store/Tests.antt =====
-- The theorems on the file at sample inputs, after tests/util/test_BlockChainStore.py.
use pycoinnet.Prelude.{ℕ, ◌≡◌, refl, inl, arith, some, [], ◌∷◌, Bytes, ok, replicate}
use pycoinnet.Store.{BlockTuple, block_tuple_iterator, did_lock_to_index}
use pycoinnet.Store.Reads.{joined, chain}
use pycoinnet.Store.Writes.{spliced, block_tuple_iterator-did_lock_to_index}

abbrev hash : ℕ → Bytes
hash n = replicate 32 n

abbrev tuple : ℕ → BlockTuple
tuple n = record { the_hash = hash n; prev_hash = hash 0; weight = 1 }

rewritten : spliced (tuple 5 ∷ []) 1 (hash 1 ∷ hash 2 ∷ hash 3 ∷ []) ≡ hash 1 ∷ hash 5 ∷ hash 3 ∷ []
rewritten = refl

block_tuple_iterator-did_lock_to_index_example :
    block_tuple_iterator
      (hash 0)
      (some (did_lock_to_index (tuple 5 ∷ []) 1 (some (joined (hash 1 ∷ hash 2 ∷ hash 3 ∷ [])))))
    ≡ ok (chain (hash 0) (spliced (tuple 5 ∷ []) 1 (hash 1 ∷ hash 2 ∷ hash 3 ∷ [])))
block_tuple_iterator-did_lock_to_index_example =
    block_tuple_iterator-did_lock_to_index (hash 0) (tuple 5 ∷ []) 1
      (some (joined (hash 1 ∷ hash 2 ∷ hash 3 ∷ []))) (hash 1 ∷ hash 2 ∷ hash 3 ∷ []) (inl refl)
      (refl, (refl, (refl, tt))) (refl, tt) (omega arith)

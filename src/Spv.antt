-- ===== src/Spv.antt =====
-- pycoinnet/examples/spvclient.py (SPVClient), and the parts that pycoinnet/examples/Client.py (Client)
-- shares with it or has instead: what happens to the headers of a reorganisation, and what a new peer
-- is told. The filter on headers, and the blocks that the futures give, are parameters.
pub mod Feed
mod Tests
use pycoinnet.Prelude.{
  ℕ, ◌≡◌, Bool, true, false, Option, none, some, List, [], ◌∷◌, ◌++◌, map, Bytes, ℤ, pos, negsuc,
  ◌+ℤ◌, ltb_ℤ, if◌then◌else◌,
}
use pycoinnet.Chain.{View, Header, last_block_index}

-- The future of a block: one that the block fetcher is asked for, by the hash and the index, or one
-- that is set to a header at once.
pub data BlockFuture : Type 0 where
  fetched : Bytes → ℤ → BlockFuture
  header_only : Header → BlockFuture

-- An item of `block_futures`
pub record Fed : Type 0 where
  pub index : ℤ
  pub future : BlockFuture

-- What `handle_reorg` puts into `block_futures`: `next` is block_number + idx.
unfoldable pub handle_reorg : (ℤ → Header → Bool) → ℤ → List Header → List Fed
handle_reorg filter_f next [] = []
handle_reorg filter_f next (h ∷ headers) =
    record { index = next; future = if filter_f next h then fetched h.hash next else header_only h }
    ∷ handle_reorg filter_f (next +ℤ pos 1) headers

-- `feed_blocks`, as far as the futures have their blocks: what it puts into `block_index_queue`, and
-- what still waits.
unfoldable pub feed_blocks {ℓ} :
    {Block : Type ℓ} → (BlockFuture → Option Block) → List Fed → List (Block × ℤ) × List Fed
feed_blocks result [] = ([], [])
feed_blocks result (fed ∷ more) =
    let (blocks, left) = feed_blocks result more in
    elim (result fed.future) [
      | none ↦ ([], fed ∷ more)
      | some block ↦ ((block, fed.index) ∷ blocks, left)
    ]

-- What `run_peer` does with the peer, in order.
pub data Step : Type 0 where
  send_version : ℤ → Step
  filterload : Bytes → ℕ → ℕ → ℕ → Step
  add_to_getheaders : ℕ → Step
  add_to_blockfetcher : ℕ → Step
  add_to_inv_collector : Step

-- `max(0, self.blockchain_view.last_block_index())`
abbrev pub at_least_0 : ℤ → ℤ
at_least_0 i = if ltb_ℤ (pos 0) i then i else pos 0

-- The filter is what `filter_load_params` gives, if there is one; the handshake gives the last block
-- index of the peer.
unfoldable pub run_peer : Option (Bytes × ℕ × ℕ) → ℕ → View → List Step
run_peer bloom_filter last_block_index_of_peer v =
    let load = elim bloom_filter as (λ f. List Step) [
      | none ↦ []
      | some (filter_bytes, hash_function_count, tweak) ↦
          filterload filter_bytes hash_function_count tweak 0 ∷ []
    ] in
    send_version (at_least_0 (last_block_index v))
    ∷ (load
        ++ add_to_getheaders last_block_index_of_peer
          ∷ add_to_blockfetcher last_block_index_of_peer
          ∷ add_to_inv_collector
          ∷ [])
